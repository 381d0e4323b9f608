-- ===== src/Campaign/Reconcile.antt =====
-- `_reconcile_provisioning` and `reconcile_tick`: the worker's tick over all the campaigns.
use t_pot_sensor_deployer.Prelude.{
  ℕ, suc, String, ◌+◌, Bool, true, false, ◌&&◌, ◌||◌, not, Option, none, some, List, [], ◌∷◌, map,
  leb, ◌==◌, if◌then◌else◌, nat_key, string_key, Table, find, put, is_some, or_else, any_of,
  Outcome, ok, raised,
}
use Prim.Native.String.{◌++◌ as append}
use t_pot_sensor_deployer.Duration.{seconds}
use t_pot_sensor_deployer.Fleet.{
  at, is_digitalocean, digitalocean, Sensor, SensorStatus, db_save_active_droplet,
}
use t_pot_sensor_deployer.Campaign.Records.{
  is_provisioning, is_tearing_down, configuring, is_configuring, Action, deploy, destroy,
  droplet_up, cap_reached, State, Schedule, has_id, has_text,
}
use t_pot_sensor_deployer.Campaign.World.{
  World, Env, Run, DropletInfo, DropletStatus, on_state, on_db, has_client,
}
use t_pot_sensor_deployer.Campaign.Steps.{
  instant, text_or, minutes, max_concurrent_provisioning, provisioning_backstop_minutes,
  schedule_backstop_lease,
}
use t_pot_sensor_deployer.Campaign.Dispatch.{dispatch_deploy}
use t_pot_sensor_deployer.Campaign.Teardown.{abort_provisioning, execute_destroy}

-- The deadline is set, can be read and has come.
unfoldable pub timed_out : Env → State → Bool
timed_out e st = elim (instant st.provisioning_deadline_at) [
  | none ↦ false
  | some deadline ↦ leb deadline e.now
]

unfoldable pub provisioning_droplet : Env → Schedule → ℕ → String → Sensor
provisioning_droplet e s id ip = record {
  id = id;
  name = text_or s.state.current_droplet_name "sensor";
  public_ip = some ip;
  private_ip = none;
  sensor_type = s.config.sensor_type;
  sensor_user = s.state.current_sensor_user;
  provider = digitalocean;
  region = text_or s.state.current_region s.config.region;
  size = s.config.size;
  image = s.config.image;
  tags = append "sched-" s.id ∷ "tpot-sensor" ∷ append "type-" s.config.sensor_type ∷ [];
  status = SensorStatus.provisioning;
  ttl = none;
  ttl_seconds = none;
  created_at = e.now;
  expires_at = none;
}

-- The droplet has its address: track and lease it, and start the configuring thread.
unfoldable pub droplet_ready : Env → ℕ → String → Option String → Run → Run
unfolding provisioning_droplet
droplet_ready e id ip name r =
    let up =
      on_state
        (λ st. record st {
          stage = some configuring;
          current_public_ip = some ip;
          current_droplet_name = if has_text name then name else st.current_droplet_name;
          last_message = droplet_up id ip;
        })
        r in
    let saved = on_db (db_save_active_droplet (provisioning_droplet e up.schedule id ip)) up in
    let leased = schedule_backstop_lease e (minutes provisioning_backstop_minutes) saved in
    record leased {
      world = record leased.world { configuring = r.schedule.id ∷ leased.world.configuring };
    }

is_up : DropletStatus → Bool
is_up DropletStatus.active = true
is_up _ = false

is_errored : DropletStatus → Bool
is_errored DropletStatus.errored = true
is_errored _ = false

unfoldable pub with_answer : Env → ℕ → Outcome String DropletInfo → Run → Run × Bool
unfolding droplet_ready is_up is_errored
with_answer e id (raised error) r = (r, false)
with_answer e id (ok info) r =
    if is_up info.status && has_text info.public_ip
    then (droplet_ready e id (or_else info.public_ip "") info.name r, true)
    else if is_errored info.status
    then (abort_provisioning e (has_client e) "Droplet failed" r, true)
    else (r, false)

unfoldable pub poll_droplet : Env → Run → Run × Bool
unfolding with_answer
poll_droplet e r =
    if not (has_id r.schedule.state.current_droplet_id) || not (has_client e)
    then (r, false)
    else with_answer e (or_else r.schedule.state.current_droplet_id 0)
        (e.get_droplet (or_else r.schedule.state.current_droplet_id 0)) r

-- A configuring cycle is its thread's, unless no thread of this process has it.
unfoldable pub watch_thread : Env → Run → Run × Bool
watch_thread e r = if any_of (λ j. j == r.schedule.id) r.world.configuring then (r, false) else (
  abort_provisioning e (has_client e) "Configuration was interrupted (worker restarted)" r,
  true,
)

-- The run after it, and whether the state changed.
unfoldable pub reconcile_provisioning : Env → Run → Run × Bool
unfolding watch_thread poll_droplet timed_out
reconcile_provisioning e r =
    if not (is_provisioning r.schedule.state.status)
    then (r, false)
    else if timed_out e r.schedule.state
    then (abort_provisioning e (has_client e) "Provisioning timed out after 30 minutes" r, true)
    else if is_configuring r.schedule.state.stage
    then watch_thread e r
    else if is_digitalocean r.schedule.config.provider
    then poll_droplet e r
    else (r, false)

-- A schedule of the tick's snapshot, with whether it is in `touched`.
pub record Slot : Type 0 where
  pub schedule : Schedule
  pub touched : Bool

unfoldable pub reconcile_slot : Env → World → Slot → World × Slot
reconcile_slot e w s =
    let (r, changed) = reconcile_provisioning e (record { world = w; schedule = s.schedule }) in
    (r.world, record { schedule = r.schedule; touched = s.touched || changed })

-- Phase 1. The answers of the outside are given for each schedule.
unfoldable pub phase_one : (String → Env) → World → List Slot → World × List Slot
phase_one env w [] = (w, [])
phase_one env w (s ∷ slots) =
    let (w', s') = reconcile_slot (env s.schedule.id) w s in
    let (w'', slots') = phase_one env w' slots in (w'', s' ∷ slots')

unfoldable pub in_flight_count : List Slot → ℕ
in_flight_count [] = 0
in_flight_count (s ∷ slots) =
    let n = in_flight_count slots in if is_provisioning s.schedule.state.status then suc n else n

has_come : ℕ → Option ℕ → Bool
has_come now none = false
has_come now (some t) = leb t now

-- A timer that is set, can be read and has run out, on an enabled schedule with nothing in flight.
unfoldable pub is_due : Env → Schedule → Bool
unfolding has_come
is_due e s =
    s.enabled
    && not (is_provisioning s.state.status)
    && not (is_tearing_down s.state.status)
    && is_some s.state.next_action
    && has_come e.now (instant s.state.next_action_at)

unfoldable pub deferred : Env → ℕ → State → State
deferred e in_flight st = record st {
  last_message = cap_reached in_flight;
  next_action_at = some (at (e.now + seconds 15));
}

-- The due action of a slot, with the count of the cycles in flight.
unfoldable pub act : Env → ℕ → Option Action → Run → Run × ℕ
unfolding deferred
act e in_flight none r = (r, in_flight)
act e in_flight (some destroy) r = (execute_destroy e r, in_flight)
act e in_flight (some deploy) r =
    if leb max_concurrent_provisioning in_flight
    then (on_state (deferred e in_flight) r, in_flight)
    else (let (r', started) = dispatch_deploy e r in
        (r', if started then suc in_flight else in_flight))

unfoldable pub act_slot : Env → World → ℕ → Slot → World × ℕ × Slot
act_slot e w in_flight s =
    let (r, n) =
      act e in_flight s.schedule.state.next_action (record { world = w; schedule = s.schedule }) in
    if is_due e s.schedule
    then (r.world, n, record { schedule = r.schedule; touched = true })
    else (w, in_flight, s)

-- Phase 2.
unfoldable pub phase_two : (String → Env) → World → ℕ → List Slot → World × ℕ × List Slot
phase_two env w in_flight [] = (w, in_flight, [])
phase_two env w in_flight (s ∷ slots) =
    let (w', n, s') = act_slot (env s.schedule.id) w in_flight s in
    let (w'', n', slots') = phase_two env w' n slots in (w'', n', s' ∷ slots')

-- Only what was touched is written back, and nothing that was deleted meanwhile.
unfoldable pub write_back : List Slot → Table String Schedule → Table String Schedule
write_back [] table = table
write_back (s ∷ slots) table = write_back slots (
    if s.touched && is_some (find s.schedule.id table)
    then put s.schedule.id s.schedule table
    else table)

unfoldable pub snapshot : Table String Schedule → List Slot
snapshot table = map (λ r. record { schedule = r.1; touched = false }) table

-- Both phases on a snapshot: the world after them, and the slots.
unfoldable pub run_phases : (String → Env) → List Slot → World → World × List Slot
unfolding phase_one phase_two in_flight_count
run_phases env slots w =
    let (w1, slots1) = phase_one env w slots in
    let (w2, n, slots2) = phase_two env w1 (in_flight_count slots1) slots1 in (w2, slots2)

-- The tick on a snapshot that was read earlier; the table may have changed since.
unfoldable pub tick_on : (String → Env) → List Slot → World → World
unfolding run_phases write_back
tick_on env slots w =
    let (w', slots') = run_phases env slots w in
    record w' { schedules = write_back slots' w'.schedules }

unfoldable pub reconcile_tick : (String → Env) → World → World
unfolding tick_on snapshot
reconcile_tick env w = tick_on env (snapshot w.schedules) w
