-- ===== src/Task.antt =====
-- app/queue_manager.py: the tasks of the Tasks page, in Redis or, while Redis does not answer, in
-- the process's fallback dictionaries. A Redis hash, list and channel behave as documented; their
-- expiry after a day is not modelled. The RQ workers' own state is not modelled.
mod Defs
unfoldable pub use Defs.*
pub mod Recent
pub mod Lifecycle
