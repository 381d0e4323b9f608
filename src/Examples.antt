-- ===== src/Examples.antt =====
-- The theorems at concrete inputs, and runs of the definitions.
pub mod Fixtures
pub mod Campaigns
pub mod Sites
pub mod Jobs
pub mod Requests
pub mod Clouds
