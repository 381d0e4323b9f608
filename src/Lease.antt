-- ===== src/Lease.antt =====
-- app/ttl_manager.py: `TTLManager`, and `ttl_sweep_job` of app/jobs.py. The lease table is keyed by
-- the droplet id; `now` is the clock's reading in the call.
mod Defs
pub mod Rows
unfoldable pub use Defs.*
pub mod Extend
pub mod Sweep
pub mod Refine
