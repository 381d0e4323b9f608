-- ===== src/Edl.antt =====
-- app/edl_manager.py: the External Dynamic List for the firewall, and its static entries.
-- Left out: the texts of an entry's label, which depend on the row that wrote it.
mod Defs
unfoldable pub use Defs.*
pub mod Distinct
pub mod Statics
pub mod Complete
