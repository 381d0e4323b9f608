-- ===== src/Campaign/Teardown.antt =====
-- `_abort_provisioning`, `_execute_destroy` and `_finalize_active`: the ends of a cycle's stages.
use t_pot_sensor_deployer.Prelude.{
  ℕ, String, ◌+◌, Bool, ◌&&◌, not, none, some, [], ◌∷◌, if◌then◌else◌, or_else, take,
}
use Prim.Native.String.{◌++◌ as append}
use t_pot_sensor_deployer.Duration.{seconds}
use t_pot_sensor_deployer.Fleet.{at, is_gcp, Sensor, SensorStatus, db_save_active_droplet}
use t_pot_sensor_deployer.Hive.{deregister_sensor}
use t_pot_sensor_deployer.Site.{Site, Cloud, destroy_droplet, destroy_instance, publish}
use t_pot_sensor_deployer.Task.{completed}
use t_pot_sensor_deployer.Campaign.Records.{
  active, cooling_down, deploy, destroy, cycle_active, teardown_complete, State, Schedule, Cycle,
  has_id, has_text,
}
use t_pot_sensor_deployer.Campaign.World.{
  Env, Run, on_state, on_site, on_db, has_client, listing_of,
}
use t_pot_sensor_deployer.Campaign.Steps.{
  instant, text_or, task_begin, task_end, handle_failure, schedule_backstop_lease, forget_sensor,
  calculate_next_rebuild, pause_backstop_seconds, campaign_backstop_buffer_seconds,
}

-- The provider's destroy call; `client` says whether there is a configured DigitalOcean client. What
-- the call raises is logged and forgotten.
unfoldable pub destroy_machine : Cloud → Bool → Schedule → Site → Site
destroy_machine cloud client s site =
    if is_gcp s.config.provider
    then (if has_text s.state.current_droplet_name
        then destroy_instance cloud (or_else s.state.current_droplet_name "") site
        else site)
    else if has_id s.state.current_droplet_id && client
    then destroy_droplet cloud (or_else s.state.current_droplet_id 0) site
    else site

-- The sensor's login goes, where the campaign registered it.
unfoldable pub deregister : Schedule → Site → Site
deregister s site =
    if has_text s.state.current_sensor_user && s.config.auto_register_hive
    then record site { hive = deregister_sensor (or_else s.state.current_sensor_user "") site.hive }
    else site

unfoldable pub abort_provisioning : Env → Bool → String → Run → Run
abort_provisioning e client reason r =
    let cut = forget_sensor r.schedule.state.current_droplet_id r in
    let gone = on_site (destroy_machine e.cloud client r.schedule) cut in
    handle_failure e reason (on_site (deregister r.schedule) gone)

unfoldable pub finished_cycle : ℕ → State → Cycle
finished_cycle now st = record {
  cycle = st.cycle_number;
  droplet_name = st.current_droplet_name;
  ip = st.current_public_ip;
  deployed_at = st.cycle_started_at;
  destroyed_at = now;
}

-- The last twenty cycles are kept.
unfoldable pub cooled : ℕ → ℕ → State → State
unfolding finished_cycle
cooled now next st = record st {
  history = take 20 (finished_cycle now st ∷ st.history);
  status = cooling_down;
  current_droplet_id = none;
  current_droplet_name = none;
  current_public_ip = none;
  current_sensor_user = none;
  next_action = some deploy;
  next_action_at = some (at next);
  last_action_at = some (at now);
  last_message = teardown_complete next;
}

unfoldable pub execute_destroy_inner : Env → Run → Run
unfolding cooled
execute_destroy_inner e r =
    let cut = forget_sensor r.schedule.state.current_droplet_id r in
    let gone = on_site (destroy_machine e.cloud (has_client e) r.schedule) cut in
    let left = on_site (deregister r.schedule) gone in
    let listed = on_site (publish e.now (listing_of e (has_client e))) left in
    let next =
      calculate_next_rebuild e r.schedule.timing (instant r.schedule.state.cycle_started_at) in
    on_state (cooled e.now next) listed

-- `_execute_destroy`: nothing in the inner call raises.
unfoldable pub execute_destroy : Env → Run → Run
execute_destroy e r =
    let r' = execute_destroy_inner e (task_begin e destroy r) in
    task_end e completed none none (some (e.wording r'.schedule.state.last_message)) r'

active_sensor : Env → Schedule → ℕ → Sensor
active_sensor e s destroy_at = record {
  id = or_else s.state.current_droplet_id 0;
  name = text_or s.state.current_droplet_name "sensor";
  public_ip = s.state.current_public_ip;
  private_ip = none;
  sensor_type = s.sensor_type;
  sensor_user = s.state.current_sensor_user;
  provider = s.config.provider;
  region =
      if is_gcp s.config.provider
      then s.config.zone
      else text_or s.state.current_region s.config.region;
  size = if is_gcp s.config.provider then s.config.machine_type else s.config.size;
  image = s.config.image;
  tags = append "sched-" s.id ∷ "tpot-sensor" ∷ append "type-" s.sensor_type ∷ [];
  status = SensorStatus.active;
  ttl = none;
  ttl_seconds = none;
  created_at = e.now;
  expires_at = some (at destroy_at);
}

activated : ℕ → ℕ → Bool → State → State
activated now destroy_at paused st = record st {
  status = active;
  stage = none;
  hive_token = none;
  cycle_number = st.cycle_number + 1;
  cycle_started_at = some (at now);
  consecutive_failures = 0;
  provisioning_started_at = none;
  provisioning_deadline_at = none;
  next_action = some destroy;
  next_action_at = some (at destroy_at);
  last_action_at = some (at now);
  last_message = cycle_active (st.cycle_number + 1) paused;
}

-- The lease of an active sensor outlives its window by a day, or a pause by its ceiling.
unfoldable pub backstop_seconds : Schedule → ℕ
backstop_seconds s =
    if s.enabled
    then s.timing.active_duration_seconds + campaign_backstop_buffer_seconds
    else pause_backstop_seconds

unfoldable pub finalize_active : Env → Bool → Run → Run
unfolding active_sensor activated
finalize_active e client r =
    let destroy_at = e.now + seconds r.schedule.timing.active_duration_seconds in
    let listed = on_site (publish e.now (listing_of e client)) r in
    let saved = on_db (db_save_active_droplet (active_sensor e r.schedule destroy_at)) listed in
    let leased = schedule_backstop_lease e (seconds (backstop_seconds r.schedule)) saved in
    let done = on_state (activated e.now destroy_at (not r.schedule.enabled)) leased in
    task_end e completed none (some (or_else r.schedule.state.current_droplet_id 0 ∷ []))
      (some (e.wording done.schedule.state.last_message)) done
