-- ===== src/Campaign/Configure.antt =====
-- The background threads, `_async_gcp_provision_worker` and `_async_do_configure_worker`: each
-- section that they run under the lock is a function. The call of `configure_and_verify` between two
-- sections reads and writes none of this state; what it raised is the argument `error`.
use t_pot_sensor_deployer.Prelude.{
  ℕ, String, Bool, true, false, ◌&&◌, not, Option, none, some, [], ◌∷◌, ◌==◌, if◌then◌else◌,
  nat_key, string_key, find, put,
}
use Prim.Native.String.{◌++◌ as append}
use t_pot_sensor_deployer.Fleet.{gcp, Sensor, SensorStatus, db_save_active_droplet}
use t_pot_sensor_deployer.Site.{Site, destroy_droplet, destroy_instance}
use t_pot_sensor_deployer.Campaign.Records.{
  is_provisioning, is_configuring, instance_up, State, Schedule,
}
use t_pot_sensor_deployer.Campaign.World.{World, Env, Run, on_state, on_db, discard}
use t_pot_sensor_deployer.Campaign.Steps.{
  minutes, provisioning_backstop_minutes, schedule_backstop_lease,
}
use t_pot_sensor_deployer.Campaign.Teardown.{abort_provisioning, finalize_active}

-- What the thread was started with; `wanted` is the droplet that the cycle must still have, and
-- `none` for a GCP thread whose instance was never made.
pub record Job : Type 0 where
  pub schedule_id : String
  pub sensor_name : String
  pub wanted : Option ℕ
  pub on_gcp : Bool

-- `self._save_schedules` after a change of one schedule under the lock. It writes every row of the
-- table that was loaded under this lock and deletes all others; as no thread of this process writes in
-- between, and no other process is taken to, only this row changes.
unfoldable pub save : Run → World
save r = record r.world { schedules = put r.schedule.id r.schedule r.world.schedules }

unfoldable pub is_wanted : Option ℕ → Option ℕ → Bool
is_wanted none current = true
is_wanted (some id) none = false
is_wanted (some id) (some current) = current == id

-- `ready`: the cycle is still this thread's.
unfoldable pub is_ready : Job → State → Bool
unfolding is_wanted
is_ready job st =
    is_provisioning st.status
    && is_configuring st.stage
    && is_wanted job.wanted st.current_droplet_id

destroy_orphan : Env → Bool → Job → Site → Site
destroy_orphan e client job s = elim job.wanted [
  | none ↦ s
  | some id ↦
      if job.on_gcp
      then destroy_instance e.cloud job.sensor_name s
      else if client
      then destroy_droplet e.cloud id s
      else s
]

unfoldable pub finish_cycle : Env → Bool → Option String → Run → Run
finish_cycle e client none r = finalize_active e client r
finish_cycle e client (some error) r = abort_provisioning e client error r

unfoldable pub release_thread : Job → World → World
release_thread job w = record w { configuring = discard job.schedule_id w.configuring }

-- A round of the last loop: the world after it, and whether the thread has ended. `late` says that
-- the thirty seconds are over.
unfoldable pub finish_found :
    Env → Bool → Bool → Job → Option String → Option Schedule → World → World × Bool
unfolding destroy_orphan finish_cycle release_thread save is_ready
finish_found e client late job error none w =
    (release_thread job (record w { site = destroy_orphan e client job w.site }), true)
finish_found e client late job error (some s) w =
    if is_ready job s.state
    then (
      release_thread job (save (finish_cycle e client error (record { world = w; schedule = s }))),
      true,
    )
    else if late
    then (release_thread job w, true)
    else (w, false)

unfoldable pub finish_configuring : Env → Bool → Bool → Job → Option String → World → World × Bool
unfolding finish_found
finish_configuring e client late job error w =
    finish_found e client late job error (find job.schedule_id w.schedules) w

provisioning_instance : Env → Schedule → Job → ℕ → Option String → Sensor
provisioning_instance e s job id ip = record {
  id = id;
  name = job.sensor_name;
  public_ip = ip;
  private_ip = none;
  sensor_type = s.config.sensor_type;
  sensor_user = some job.sensor_name;
  provider = gcp;
  region = s.config.zone;
  size = s.config.machine_type;
  image = "ubuntu-24-04-x64";
  tags = append "sched-" s.id ∷ "tpot-sensor" ∷ append "type-" s.config.sensor_type ∷ [];
  status = SensorStatus.provisioning;
  ttl = none;
  ttl_seconds = none;
  created_at = e.now;
  expires_at = none;
}

-- The instance is in the state and in `active_droplets`.
unfoldable pub with_instance : Env → Job → ℕ → Option String → Run → Run
unfolding provisioning_instance
with_instance e job id ip r =
    let up =
      on_state
        (λ st. record st {
          current_droplet_id = some id;
          current_public_ip = ip;
          last_message = instance_up job.sensor_name ip;
        })
        r in
    on_db (db_save_active_droplet (provisioning_instance e r.schedule job id ip)) up

unfoldable pub track_instance : Env → Job → ℕ → Option String → Run → World
unfolding save with_instance
track_instance e job id ip r = save (
    schedule_backstop_lease e (minutes provisioning_backstop_minutes) (with_instance e job id ip r))

unfoldable pub instance_found :
    Env → Job → ℕ → Option String → Option Schedule → World → World × Bool
unfolding track_instance
instance_found e job id ip none w =
    (record w { site = destroy_instance e.cloud job.sensor_name w.site }, true)
instance_found e job id ip (some s) w =
    if not (is_provisioning s.state.status)
    then (w, true)
    else (track_instance e job id ip (record { world = w; schedule = s }), false)

-- `create_instance` has returned: the section that records the instance. True is an early return,
-- which ends the thread without `_CONFIGURING.discard`.
unfoldable pub instance_created : Env → Job → ℕ → Option String → World → World × Bool
unfolding instance_found
instance_created e job id ip w =
    let made = record w {
      site = record w.site {
        machines = record { on_gcp = true; id = id; name = job.sensor_name } ∷ w.site.machines;
      };
    } in
    instance_found e job id ip (find job.schedule_id w.schedules) made
