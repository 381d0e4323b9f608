-- ===== src/Campaign.antt =====
-- app/scheduler_manager.py: `SchedulerManager`. Records and World have the state; Steps, Dispatch,
-- Teardown, Configure, Reconcile, Create and Commands have the methods; the other modules have the
-- proofs, each named for what it is about.
pub mod Records
pub mod World
pub mod Steps
pub mod Dispatch
pub mod Teardown
pub mod Configure
pub mod Reconcile
pub mod Create
pub mod Commands
pub mod Listing
pub mod Created
pub mod Breaker
pub mod Ticks
pub mod Cap
pub mod Machines
pub mod Orphans
pub mod Backstop
pub mod Controls
pub mod Resume
pub mod Kept
pub mod Reach
pub mod Sound
pub mod Always
