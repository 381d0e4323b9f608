-- ===== src/Worker.antt =====
-- worker.py and `campaign_scheduler_tick_job` of app/jobs.py: what the worker does at its start, and
-- an iteration of its scheduler thread. An instant is a number of microseconds. The RQ worker that
-- takes the jobs from the queue, and the signals, are not modelled.
pub mod Start
pub mod Sweeps
use t_pot_sensor_deployer.Prelude.{ℕ, String, ◌-◌, Bool, Option, none, some, leb, if◌then◌else◌}
use t_pot_sensor_deployer.Duration.{seconds}
use t_pot_sensor_deployer.Fleet.{db_fail_interrupted_provisioning}
use t_pot_sensor_deployer.Site.{Site, Cloud}
use t_pot_sensor_deployer.Lease.{ttl_sweep_job}
use t_pot_sensor_deployer.Task.{reap_interrupted_tasks}
use t_pot_sensor_deployer.Campaign.World.{World, Env}
use t_pot_sensor_deployer.Campaign.Reconcile.{reconcile_tick}
use t_pot_sensor_deployer.Campaign.Listing.{reap_orphaned_campaign_tasks}

-- `none` is the exit of a worker that cannot reach Redis.
unfoldable pub start : Bool → World → Option World
start is_redis_available w =
    if is_redis_available
    then (let (queue, reaped) = reap_interrupted_tasks is_redis_available w.queue in
        let site = record w.site { db = db_fail_interrupted_provisioning w.site.db } in
        some
          (reap_orphaned_campaign_tasks is_redis_available
            (record w { queue = queue; site = site })).0)
    else none

-- ttl_interval
abbrev pub ttl_interval : ℕ
ttl_interval = seconds 60

-- The thread's own variable, and the world.
pub record Ticker : Type 0 where
  pub world : World
  pub last_ttl_check : ℕ

-- What an iteration reads: the answers to the tick's campaigns, `time.time()`, and the clock and the
-- clouds that the sweep asks.
pub record Reading : Type 0 where
  pub tick : String → Env
  pub time : ℕ
  pub sweep_at : ℕ
  pub cloud : Cloud

unfoldable pub sweep : Reading → World → World
sweep r w = record w { site = ttl_sweep_job r.sweep_at r.cloud w.site }

unfoldable pub iterate : Reading → Ticker → Ticker
unfolding sweep
iterate r t =
    let w = reconcile_tick r.tick t.world in
    if leb ttl_interval (r.time - t.last_ttl_check)
    then record { world = sweep r w; last_ttl_check = r.time }
    else record t { world = w }
