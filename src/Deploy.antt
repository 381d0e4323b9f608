-- ===== src/Deploy.antt =====
-- app/jobs.py: the two deployment jobs, with the clients' `create_droplet` (app/do_client.py) and
-- `create_instance` (app/gcp_client.py).
pub mod Create
pub mod Waits
pub mod Setup
pub mod Machine
pub mod Job
pub mod Rows
pub mod Tracked
pub mod Complete
pub mod Counts
pub mod Ends
