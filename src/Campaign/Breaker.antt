-- ===== src/Campaign/Breaker.antt =====
-- The circuit breaker and the states that go with it: `IsSound` is what a schedule must satisfy
-- between two operations.
use t_pot_sensor_deployer.Prelude.{
  ℕ, zero, suc, String, ◌+◌, ◌≤◌, ◌<◌, ◌≡◌, refl, Bool, false, Option, none, some, ◌∷◌, arith,
  length, length-take-le, Bool-cases, inl, inr, ap, Outcome, ok, raised,
}
use t_pot_sensor_deployer.Fleet.{is_gcp}
use t_pot_sensor_deployer.Campaign.Records.{
  active, cooling_down, suspended, provisioning, Action, deploy, destroy, Schedule,
}
use t_pot_sensor_deployer.Campaign.World.{
  on_site, returned, unanswered, refused, DropletCall, Env, Run,
}
use t_pot_sensor_deployer.Campaign.Steps.{
  handle_failure, task_begin, task_end, task_rename, schedule_backstop_lease, forget_sensor,
  calculate_next_rebuild, instant,
}
use t_pot_sensor_deployer.Campaign.Dispatch.{
  with_machine, dispatch_deploy, dispatch_checked, do_checked, gcp_checked, key_answer,
  droplet_answer, unregister, register, fail_dispatch, with_config, rotate_region,
}
use t_pot_sensor_deployer.Campaign.Teardown.{
  abort_provisioning, execute_destroy, execute_destroy_inner, finalize_active, cooled,
  finished_cycle,
}

pub record IsSound (s : Schedule) : Type 0 where
  pub capped : s.state.consecutive_failures ≤ 3
  pub tripped : 3 ≤ s.state.consecutive_failures → s.state.status ≡ suspended
  pub suspended_off : s.state.status ≡ suspended → s.enabled ≡ false
  pub cooling : s.state.status ≡ cooling_down → s.state.next_action ≡ some deploy
  pub running : s.state.status ≡ active → s.state.next_action ≡ some destroy
  pub bare : 3 ≤ s.state.consecutive_failures → s.state.current_droplet_id ≡ none
  pub kept : length s.state.history ≤ 20

-- What an operation that may fail needs of the schedule.
pub record IsArmed (s : Schedule) : Type 0 where
  pub armed : s.state.consecutive_failures < 3
  pub kept : length s.state.history ≤ 20

pub handle_failure-IsSound :
    (e : Env) (error : String) (r : Run)
    → IsArmed r.schedule
    → IsSound (handle_failure e error r).schedule
unfolding handle_failure
handle_failure-IsSound e error r h = ground arith

-- A failure of a schedule with fewer than three failures behind it counts one more, drops the
-- droplet from the state and leaves a sound schedule: at the third it is suspended and switched
-- off.
pub handle_failure_lem :
    (e : Env) (error : String) (r : Run)
    → IsArmed r.schedule
    → IsSound (handle_failure e error r).schedule
      × ((handle_failure e error r).schedule.state.consecutive_failures
          ≡ r.schedule.state.consecutive_failures + 1)
      × ((handle_failure e error r).schedule.state.current_droplet_id ≡ none)
unfolding handle_failure
handle_failure_lem e error r h = (handle_failure-IsSound e error r h, ground arith, ground arith)

IsArmed→IsSound : (s : Schedule) → IsArmed s → s.state.status ≡ provisioning → IsSound s
IsArmed→IsSound s h e = ground arith

module _ (e : Env) (r : Run) (h : IsArmed r.schedule) where
  register-IsArmed : IsArmed (register e r).schedule
  unfolding register
  register-IsArmed = ground arith

  unregister-IsArmed : IsArmed (unregister e r).schedule
  unfolding unregister
  unregister-IsArmed = ground arith

  fail_dispatch-IsSound : (error : String) → IsSound (fail_dispatch e error r).0.schedule
  unfolding fail_dispatch
  fail_dispatch-IsSound error = handle_failure-IsSound e error r h

droplet_answer-IsSound :
    (e : Env) (region : String) (r : Run) (answer : DropletCall)
    → IsArmed r.schedule
    → IsSound (droplet_answer e region r answer).0.schedule
unfolding droplet_answer
droplet_answer-IsSound e region r (refused error) h =
    fail_dispatch-IsSound e (unregister e r) (unregister-IsArmed e r h) error
droplet_answer-IsSound e region r (unanswered error id) h =
    let made = on_site (with_machine e id) r in
    fail_dispatch-IsSound e (unregister e made) (unregister-IsArmed e made h) error
droplet_answer-IsSound e region r (returned id) h = ground arith

key_answer-IsSound :
    (e : Env) (region : String) (r : Run) (answer : Outcome String ℕ)
    → IsArmed r.schedule
    → IsSound (key_answer e region r answer).0.schedule
unfolding key_answer task_rename
key_answer-IsSound e region r (raised error) h = fail_dispatch-IsSound e r h error
key_answer-IsSound e region r (ok _) h =
    let named = task_rename e e.creds.username r in
    droplet_answer-IsSound e region (register e named) e.create_droplet (register-IsArmed e named h)

do_checked-IsSound :
    (e : Env) (r : Run) (failed : Option String)
    → IsArmed r.schedule
    → IsSound (do_checked e r failed).0.schedule
unfolding do_checked
do_checked-IsSound e r (some error) h = fail_dispatch-IsSound e r h error
do_checked-IsSound e r none h =
    let (region, config) = rotate_region r.schedule.config in
    key_answer-IsSound e region (with_config config r) e.ensure_ssh_key
      (record { armed = h.armed; kept = h.kept })

gcp_checked-IsSound :
    (e : Env) (r : Run) (failed : Option String)
    → IsArmed r.schedule
    → IsSound (gcp_checked e r failed).0.schedule
unfolding gcp_checked task_rename
gcp_checked-IsSound e r (some error) h = fail_dispatch-IsSound e r h error
gcp_checked-IsSound e r none h = ground arith

dispatch_checked-IsSound :
    (e : Env) (r : Run) → IsArmed r.schedule → IsSound (dispatch_checked e r).0.schedule
unfolding dispatch_checked
dispatch_checked-IsSound e r h = elim (Bool-cases (is_gcp r.schedule.config.provider)) [
  | inl on_gcp ↦ simp on_gcp (gcp_checked-IsSound e r _ h)
  | inr other ↦ elim (Bool-cases e.do_token) [
    | inl token ↦ simp (other, token) (do_checked-IsSound e r _ h)
    | inr none_set ↦ simp (other, none_set) (fail_dispatch-IsSound e r h _)
  ]
]

-- A dispatch of a schedule with fewer than three failures behind it leaves a sound schedule,
-- whether a cycle was started or any of its steps failed.
pub dispatch_deploy-IsSound :
    (e : Env) (r : Run) → IsArmed r.schedule → IsSound (dispatch_deploy e r).0.schedule
unfolding dispatch_deploy task_begin
dispatch_deploy-IsSound e r h =
    dispatch_checked-IsSound e _ (record { armed = h.armed; kept = h.kept })

module _ (e : Env) (r : Run) where
  pub schedule-schedule_backstop_lease :
      (ttl : ℕ) → (schedule_backstop_lease e ttl r).schedule ≡ r.schedule
  unfolding schedule_backstop_lease
  schedule-schedule_backstop_lease ttl = ground arith

pub schedule-forget_sensor : (id : Option ℕ) (r : Run) → (forget_sensor id r).schedule ≡ r.schedule
unfolding forget_sensor
schedule-forget_sensor none r = refl
schedule-forget_sensor (some zero) r = refl
schedule-forget_sensor (some (suc n)) r = refl

-- Aborting the cycle of a schedule with fewer than three failures behind it leaves a sound
-- schedule.
pub abort_provisioning-IsSound :
    (e : Env) (client : Bool) (reason : String) (r : Run)
    → IsArmed r.schedule
    → IsSound (abort_provisioning e client reason r).schedule
unfolding abort_provisioning
abort_provisioning-IsSound e client reason r h =
    handle_failure-IsSound e reason _ (rw schedule-forget_sensor h)

-- A schedule whose cycle becomes active is sound, whatever it was before, if its history has at
-- most twenty cycles.
pub finalize_active-IsSound :
    (e : Env) (client : Bool) (r : Run)
    → length r.schedule.state.history ≤ 20
    → IsSound (finalize_active e client r).schedule
unfolding finalize_active task_end
finalize_active-IsSound e client r h = simp schedule-schedule_backstop_lease (ground arith)

-- The schedule after a teardown.
pub schedule-execute_destroy_inner :
    (e : Env) (r : Run)
    → (execute_destroy_inner e r).schedule ≡ record r.schedule {
      state =
          cooled e.now
            (calculate_next_rebuild e r.schedule.timing (instant r.schedule.state.cycle_started_at))
            r.schedule.state;
    }
unfolding execute_destroy_inner
schedule-execute_destroy_inner e r =
    let next =
      calculate_next_rebuild e r.schedule.timing (instant r.schedule.state.cycle_started_at) in
    ap (λ (s : Schedule). record s { state = cooled e.now next s.state })
      (schedule-forget_sensor r.schedule.state.current_droplet_id r)

cooled-IsSound :
    (s : Schedule) (now next : ℕ)
    → IsArmed s
    → IsSound (record s { state = cooled now next s.state })
unfolding cooled
cooled-IsSound s now next h = record {
  capped = omega arith;
  tripped = λ t. absurd (omega arith);
  suspended_off = λ q. cc;
  cooling = λ q. refl;
  running = λ q. cc;
  bare = λ t. absurd (omega arith);
  kept = length-take-le 20 (finished_cycle now s.state ∷ s.state.history);
}

closed-IsSound :
    (s : Schedule) → IsSound s → IsSound (record s { state = record s.state { task_id = none } })
closed-IsSound s h = ground arith

-- A teardown of a schedule with fewer than three failures behind it leaves a sound schedule.
pub execute_destroy-IsSound :
    (e : Env) (r : Run) → IsArmed r.schedule → IsSound (execute_destroy e r).schedule
unfolding execute_destroy task_end
execute_destroy-IsSound e r h =
    closed-IsSound (execute_destroy_inner e (task_begin e destroy r)).schedule (
      rw schedule-execute_destroy_inner
        (cooled-IsSound (task_begin e destroy r).schedule e.now _ (begun-IsArmed e destroy r h)))
  where
    begun-IsArmed :
        (e : Env) (a : Action) (r : Run) → IsArmed r.schedule → IsArmed (task_begin e a r).schedule
    begun-IsArmed e a r h = unfold task_begin in record { armed = h.armed; kept = h.kept }
