-- ===== src/Campaign/Cap.antt =====
-- The cap on the cycles in flight: `MAX_CONCURRENT_PROVISIONING` in `reconcile_tick`.
use t_pot_sensor_deployer.Prelude.{
  ℕ, String, ◌+◌, ◌≤◌, ◌≡◌, refl, ap, Bool, true, false, Option, none, some, List, [], ◌∷◌, arith,
  Bool-cases, inl, inr, leb, Outcome, ok, raised, string_key,
}
use Prim.Native.Nat.{max}
use t_pot_sensor_deployer.Campaign.Records.{is_provisioning, Action, deploy, destroy, Schedule}
use t_pot_sensor_deployer.Campaign.World.{
  returned, unanswered, refused, DropletCall, World, Env, Run,
}
use t_pot_sensor_deployer.Campaign.Steps.{task_rename, handle_failure, task_end}
use t_pot_sensor_deployer.Campaign.Dispatch.{
  dispatch_deploy, dispatch_checked, do_checked, gcp_checked, key_answer, droplet_answer,
  fail_dispatch, register, rotate_region, with_config, gcp_preflight, do_preflight,
}
use t_pot_sensor_deployer.Campaign.Teardown.{execute_destroy, cooled}
use t_pot_sensor_deployer.Campaign.Reconcile.{
  reconcile_provisioning, act, act_slot, is_due, Slot, reconcile_slot, phase_one, phase_two,
  in_flight_count, run_phases,
}
use t_pot_sensor_deployer.Campaign.Breaker.{schedule-execute_destroy_inner}
use t_pot_sensor_deployer.Campaign.Ticks.{due-enabled}

abbrev pub flying : Run → Bool
flying r = is_provisioning r.schedule.state.status

-- The Boolean that a dispatch returns is true of exactly the cycles that are then in flight.
abbrev Agrees : Run × Bool → Type 0
Agrees p = flying p.0 ≡ p.1

handle_failure-grounded :
    (e : Env) (error : String) (r : Run) → flying (handle_failure e error r) ≡ false
unfolding handle_failure
handle_failure-grounded e error r = ground arith

fail_dispatch-Agrees : (e : Env) (error : String) (r : Run) → Agrees (fail_dispatch e error r)
unfolding fail_dispatch
fail_dispatch-Agrees e error r = handle_failure-grounded e error r

module _ (e : Env) where
  droplet_answer-Agrees :
      (region : String) (r : Run) (answer : DropletCall) → Agrees (droplet_answer e region r answer)
  unfolding droplet_answer
  droplet_answer-Agrees region r (refused error) = handle_failure-grounded e error _
  droplet_answer-Agrees region r (unanswered error id) = handle_failure-grounded e error _
  droplet_answer-Agrees region r (returned id) = refl

  key_answer-Agrees :
      (region : String) (r : Run) (answer : Outcome String ℕ)
      → Agrees (key_answer e region r answer)
  unfolding key_answer
  key_answer-Agrees region r (raised error) = handle_failure-grounded e error r
  key_answer-Agrees region r (ok _) =
      droplet_answer-Agrees region (register e (task_rename e e.creds.username r)) e.create_droplet

  do_checked-Agrees : (r : Run) (failed : Option String) → Agrees (do_checked e r failed)
  unfolding do_checked
  do_checked-Agrees r (some error) = handle_failure-grounded e error r
  do_checked-Agrees r none =
      let (region, config) = rotate_region r.schedule.config in
      key_answer-Agrees region (with_config config r) e.ensure_ssh_key

  gcp_checked-Agrees : (r : Run) (failed : Option String) → Agrees (gcp_checked e r failed)
  unfolding gcp_checked
  gcp_checked-Agrees r (some error) = handle_failure-grounded e error r
  gcp_checked-Agrees r none = refl

  dispatch_checked-Agrees : (r : Run) → Agrees (dispatch_checked e r)
  unfolding dispatch_checked
  dispatch_checked-Agrees r = ground (
    arith,
    gcp_checked-Agrees r (gcp_preflight e r.schedule.config.sensor_type),
    do_checked-Agrees r (do_preflight e r.schedule.config.sensor_type),
    fail_dispatch-Agrees e "DigitalOcean API token not configured" r,
  )

-- A dispatch returns true exactly if the schedule is provisioning after it.
pub dispatch_deploy-Agrees :
    (e : Env) (r : Run) → flying (dispatch_deploy e r).0 ≡ (dispatch_deploy e r).1
unfolding dispatch_deploy
dispatch_deploy-Agrees e r = dispatch_checked-Agrees e _

pub execute_destroy-grounded : (e : Env) (r : Run) → flying (execute_destroy e r) ≡ false
unfolding execute_destroy task_end cooled
execute_destroy-grounded e r =
    ap (λ (s : Schedule). is_provisioning s.state.status) (schedule-execute_destroy_inner e _)

abbrev one : Bool → ℕ
one true = 1
one false = 0

-- An action on a grounded schedule counts what it starts, and starts nothing past the cap.
act-count :
    (e : Env) (n : ℕ) (a : Option Action) (r : Run)
    → flying r ≡ false
    → ((act e n a r).1 ≡ n + one (flying (act e n a r).0)) × ((act e n a r).1 ≤ max 3 n)
unfolding act
act-count e n none r h = rw h (omega arith)
act-count e n (some destroy) r h = rw (execute_destroy-grounded e r) (omega arith)
act-count e n (some deploy) r h = elim (Bool-cases (leb 3 n)) [
  | inl full ↦ simp (full, h) (omega arith)
  | inr room ↦ simp (room, dispatch_deploy-Agrees e r) (ground arith)
]

act_slot-count :
    (e : Env) (w : World) (n : ℕ) (s : Slot)
    → ((act_slot e w n s).1 + one (is_provisioning s.schedule.state.status)
        ≡ n + one (is_provisioning (act_slot e w n s).2.schedule.state.status))
      × ((act_slot e w n s).1 ≤ max 3 n)
unfolding act_slot
act_slot-count e w n s = elim (Bool-cases (is_due e s.schedule)) [
  | inr idle ↦ simp idle (omega arith)
  | inl due ↦
      let grounded = (due-enabled e s.schedule due).1 in
      let (counted, capped) =
        act-count e n s.schedule.state.next_action (record { world = w; schedule = s.schedule })
          grounded in
      simp (due, grounded) (omega arith)
]

in_flight_count-cons :
    (s : Slot) (slots : List Slot)
    → in_flight_count (s ∷ slots)
      ≡ one (is_provisioning s.schedule.state.status) + in_flight_count slots
unfolding in_flight_count
in_flight_count-cons s slots = ground arith

-- `in_flight_count`, kept by the loop of phase 2, is the number of schedules in flight, and grows up
-- to the cap at most.
phase_two-count :
    (env : String → Env) (slots : List Slot) (w : World) (n : ℕ)
    → ((phase_two env w n slots).1 + in_flight_count slots
        ≡ n + in_flight_count (phase_two env w n slots).2)
      × ((phase_two env w n slots).1 ≤ max 3 n)
unfolding phase_two
phase_two-count env [] w n = omega arith
phase_two-count env (s ∷ slots) w n =
    let (w', n', s') = act_slot (env s.schedule.id) w n s in
    omega (
      arith,
      act_slot-count (env s.schedule.id) w n s,
      phase_two-count env slots w' n',
      in_flight_count-cons s slots,
      in_flight_count-cons s' (phase_two env w' n' slots).2,
    )

reconcile_slot-count :
    (e : Env) (w : World) (s : Slot)
    → is_provisioning s.schedule.state.status ≡ false
    → is_provisioning (reconcile_slot e w s).1.schedule.state.status ≡ false
unfolding reconcile_slot reconcile_provisioning
reconcile_slot-count e w s h = rw h h

phase_one-count :
    (env : String → Env) (slots : List Slot) (w : World)
    → in_flight_count (phase_one env w slots).1 ≤ in_flight_count slots
unfolding phase_one
phase_one-count env [] w = omega arith
phase_one-count env (s ∷ slots) w =
    let (w', s') = reconcile_slot (env s.schedule.id) w s in
    ground (
      arith,
      reconcile_slot-count (env s.schedule.id) w s,
      phase_one-count env slots w',
      in_flight_count-cons s slots,
      in_flight_count-cons s' (phase_one env w' slots).1,
    )

-- After both phases of a tick at most three schedules of its snapshot are provisioning, or at
-- most as many as before where more were.
pub run_phases-capped :
    (env : String → Env) (slots : List Slot) (w : World)
    → in_flight_count (run_phases env slots w).1 ≤ max 3 (in_flight_count slots)
unfolding run_phases
run_phases-capped env slots w =
    let (w1, slots1) = phase_one env w slots in
    omega
      (arith, phase_one-count env slots w, phase_two-count env slots1 w1 (in_flight_count slots1))
