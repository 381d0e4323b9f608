-- ===== src/Campaign/Commands.antt =====
-- The commands of the web interface on a campaign: pause, resume, trigger and delete.
use t_pot_sensor_deployer.Prelude.{
  ℕ, String, ◌+◌, ◌-◌, Bool, true, false, ◌&&◌, ◌||◌, Option, none, some, if◌then◌else◌, nat_key,
  string_key, find, put, remove, or_else,
}
use t_pot_sensor_deployer.Duration.{seconds}
use t_pot_sensor_deployer.Fleet.{at, is_gcp, Sensor}
use t_pot_sensor_deployer.Task.{failed}
use t_pot_sensor_deployer.Campaign.Records.{
  provisioning, cooling_down, tearing_down, is_provisioning, is_tearing_down, is_active, Action,
  deploy, destroy, paused, paused_in_flight, resumed, resumed_lost, State, Schedule, has_id,
  has_text,
}
use t_pot_sensor_deployer.Campaign.World.{World, Env, Run, on_state}
use t_pot_sensor_deployer.Campaign.Steps.{
  instant, task_end, schedule_backstop_lease, calculate_next_rebuild, pause_backstop_seconds,
  campaign_backstop_buffer_seconds,
}
use t_pot_sensor_deployer.Campaign.Dispatch.{dispatch_deploy}
use t_pot_sensor_deployer.Campaign.Teardown.{execute_destroy}
use t_pot_sensor_deployer.Campaign.Configure.{save}

-- Pausing switches the timers off, and says so.
unfoldable pub switched_off : Run → Run
switched_off r =
    let st = r.schedule.state in
    on_state
      (λ s. record s {
        last_message =
            if is_provisioning st.status || is_tearing_down st.status
            then paused_in_flight
            else paused;
      })
      (record r { schedule = record r.schedule { enabled = false } })

-- The change of `pause_schedule` to the schedule that it finds.
unfoldable pub pause : Env → Run → Run
unfolding switched_off
pause e r =
    if is_active r.schedule.state.status && has_id r.schedule.state.current_droplet_id
    then schedule_backstop_lease e (seconds pause_backstop_seconds) (switched_off r)
    else switched_off r

unfoldable pub pause_found : Env → World → Option Schedule → World × Bool
pause_found e w none = (w, false)
pause_found e w (some s) = (save (pause e (record { world = w; schedule = s })), true)

unfoldable pub pause_schedule : Env → String → World → World × Bool
unfolding pause_found
pause_schedule e id w = pause_found e w (find id w.schedules)

-- Back from the pause's lease to what is left of the active window and its slack.
unfoldable pub shrink_lease : Env → Option ℕ → Run → Run
shrink_lease e none r = r
shrink_lease e (some start) r =
    schedule_backstop_lease e
      (start
        + seconds (r.schedule.timing.active_duration_seconds + campaign_backstop_buffer_seconds)
        - e.now)
      r

unfoldable pub lost : Env → Run → Run
lost e r =
    let next =
      calculate_next_rebuild e r.schedule.timing (instant r.schedule.state.cycle_started_at) in
    on_state
      (λ st. record st {
        current_droplet_id = none;
        current_droplet_name = none;
        current_public_ip = none;
        current_sensor_user = none;
        status = cooling_down;
        next_action = some deploy;
        next_action_at = some (at next);
        last_message = resumed_lost;
      })
      r

-- The sensor that the state claims, as `active_droplets` has it.
unfoldable pub resume_active : Env → Option Sensor → Run → Run
unfolding shrink_lease lost
resume_active e none r = lost e r
resume_active e (some row) r =
    on_state (λ st. record st { last_message = resumed })
      (shrink_lease e (instant r.schedule.state.cycle_started_at) r)

unfoldable pub claims_sensor : State → Bool
claims_sensor st =
    has_id st.current_droplet_id && has_text st.current_public_ip && is_active st.status

-- Switched on again, with the circuit breaker reset.
unfoldable pub rearmed : Run → Run
rearmed r =
    on_state (λ st. record st { consecutive_failures = 0 })
      (record r { schedule = record r.schedule { enabled = true } })

unfoldable pub resume : Env → Run → Run
unfolding resume_active claims_sensor rearmed
resume e r0 =
    let r = rearmed r0 in
    let st = r0.schedule.state in
    if claims_sensor st
    then resume_active e (find (or_else st.current_droplet_id 0) r.world.site.db.sensors) r
    else if is_provisioning st.status
    then r
    else on_state
        (λ s. record s {
          status = cooling_down;
          next_action = some deploy;
          next_action_at = some (at e.now);
          last_message = resumed;
        })
        r

unfoldable pub resume_found : Env → World → Option Schedule → World × Bool
resume_found e w none = (w, false)
resume_found e w (some s) = (save (resume e (record { world = w; schedule = s })), true)

unfoldable pub resume_schedule : Env → String → World → World × Bool
unfolding resume_found
resume_schedule e id w = resume_found e w (find id w.schedules)

-- What `trigger_action` decides under the lock.
pub data Claim : Type 0 where
  missing in_flight : Claim
  claimed : Action → Schedule → Claim

unfoldable pub has_sensor : Schedule → Bool
has_sensor s =
    has_id s.state.current_droplet_id || (is_gcp s.config.provider && is_active s.state.status)

unfoldable pub claim : Schedule → Claim
unfolding has_sensor
claim s =
    if is_provisioning s.state.status || is_tearing_down s.state.status
    then in_flight
    else if has_sensor s
    then claimed destroy (record s { state = record s.state { status = tearing_down } })
    else claimed deploy (record s {
      enabled = true;
      state = record s.state { status = provisioning; consecutive_failures = 0 };
    })

unfoldable pub claim_of : Option Schedule → Claim
unfolding claim
claim_of none = missing
claim_of (some s) = claim s

unfoldable pub claim_saved : Claim → World → World
claim_saved (claimed a s) w = record w { schedules = put s.id s w.schedules }
claim_saved other w = w

-- The first section of `trigger_action`: check and claim, under one lock.
unfoldable pub trigger_claim : String → World → World × Claim
unfolding claim_of claim_saved
trigger_claim id w = let c = claim_of (find id w.schedules) in (claim_saved c w, c)

-- The rest of it: the action on the claimed copy, and the copy written back.
unfoldable pub trigger_finish : Env → Claim → World → World
trigger_finish e missing w = w
trigger_finish e in_flight w = w
trigger_finish e (claimed destroy s) w =
    save (execute_destroy e (record { world = w; schedule = s }))
trigger_finish e (claimed deploy s) w =
    save (dispatch_deploy e (record { world = w; schedule = s })).0

unfoldable pub trigger_action : Env → String → World → World × Claim
unfolding trigger_claim trigger_finish
trigger_action e id w = let (w', c) = trigger_claim id w in (trigger_finish e c w', c)

unfoldable pub in_flight_or_active : Schedule → Bool
in_flight_or_active s =
    has_id s.state.current_droplet_id
    || (is_gcp s.config.provider && (is_active s.state.status || is_provisioning s.state.status))

unfoldable pub delete_found : Env → Bool → Option Schedule → World → World × Bool
unfolding in_flight_or_active
delete_found e destroy_droplet none w = (w, false)
delete_found e destroy_droplet (some s) w =
    let r : Run = record {
      world = record w { schedules = remove s.id w.schedules };
      schedule = s;
    } in
    let torn = if destroy_droplet && in_flight_or_active s then execute_destroy e r else r in
    (
      (task_end e failed (some "Campaign deleted before this operation finished") none none
          torn).world,
      true,
    )

unfoldable pub delete_schedule : Env → Bool → String → World → World × Bool
unfolding delete_found
delete_schedule e destroy_droplet id w = delete_found e destroy_droplet (find id w.schedules) w
