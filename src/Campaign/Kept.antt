-- ===== src/Campaign/Kept.antt =====
-- That the operations on one schedule leave the table of the schedules to their callers.
use t_pot_sensor_deployer.Prelude.{
  ℕ, String, ◌≡◌, refl, Bool, Option, none, some, List, [], ◌∷◌, arith, ◌∙◌, ◌&&◌, Bool-cases, inl,
  inr, Outcome, ok, raised, or_else, any_of, ◌==◌, string_key, Table, find, nat_key,
}
use t_pot_sensor_deployer.Fleet.{Sensor, is_gcp, digitalocean}
use t_pot_sensor_deployer.Campaign.Records.{Action, deploy, destroy, Schedule}
use t_pot_sensor_deployer.Campaign.World.{
  on_site, returned, unanswered, refused, DropletCall, World, Env, Run, DropletInfo,
}
use t_pot_sensor_deployer.Duration.{seconds}
use t_pot_sensor_deployer.Campaign.Steps.{
  pause_backstop_seconds, instant, handle_failure, task_begin, task_end, task_rename,
  schedule_backstop_lease, forget_sensor,
}
use t_pot_sensor_deployer.Campaign.Dispatch.{
  with_machine, dispatch_deploy, dispatch_checked, do_checked, gcp_checked, key_answer,
  droplet_answer, unregister, register, fail_dispatch, with_config,
}
use t_pot_sensor_deployer.Campaign.Teardown.{
  abort_provisioning, execute_destroy, execute_destroy_inner, finalize_active,
}
use t_pot_sensor_deployer.Campaign.Commands.{
  pause, resume, resume_active, switched_off, rearmed, shrink_lease, lost,
}
use t_pot_sensor_deployer.Campaign.Reconcile.{
  reconcile_provisioning, watch_thread, poll_droplet, with_answer, droplet_ready, act, act_slot,
  Slot, reconcile_slot, phase_one, phase_two, in_flight_count, run_phases,
}

abbrev pub table_of : Run → Table String Schedule
table_of r = r.world.schedules

module _ (e : Env) where
  table-handle_failure :
      (error : String) (r : Run) → table_of (handle_failure e error r) ≡ table_of r
  unfolding handle_failure
  table-handle_failure error r = ground arith

  pub table-schedule_backstop_lease :
      (ttl : ℕ) (r : Run) → table_of (schedule_backstop_lease e ttl r) ≡ table_of r
  unfolding schedule_backstop_lease
  table-schedule_backstop_lease ttl r = ground arith

  table-droplet_answer :
      (region : String) (r : Run) (answer : DropletCall)
      → table_of (droplet_answer e region r answer).0 ≡ table_of r
  unfolding droplet_answer fail_dispatch unregister
  table-droplet_answer region r (refused error) =
      ground (arith, table-handle_failure error (unregister e r))
  table-droplet_answer region r (unanswered error id) =
      ground (arith, table-handle_failure error (unregister e (on_site (with_machine e id) r)))
  table-droplet_answer region r (returned id) = refl

  table-key_answer :
      (region : String) (r : Run) (answer : Outcome String ℕ)
      → table_of (key_answer e region r answer).0 ≡ table_of r
  unfolding key_answer fail_dispatch register task_rename
  table-key_answer region r (raised error) = table-handle_failure error r
  table-key_answer region r (ok _) = ground (
    arith,
    table-droplet_answer region (register e (task_rename e e.creds.username r)) e.create_droplet,
  )

  table-do_checked :
      (r : Run) (failed : Option String) → table_of (do_checked e r failed).0 ≡ table_of r
  unfolding do_checked fail_dispatch with_config
  table-do_checked r (some error) = table-handle_failure error r
  table-do_checked r none = table-key_answer _ _ e.ensure_ssh_key

  table-gcp_checked :
      (r : Run) (failed : Option String) → table_of (gcp_checked e r failed).0 ≡ table_of r
  unfolding gcp_checked fail_dispatch task_rename
  table-gcp_checked r (some error) = table-handle_failure error r
  table-gcp_checked r none = ground arith

  table-dispatch_checked : (r : Run) → table_of (dispatch_checked e r).0 ≡ table_of r
  unfolding dispatch_checked fail_dispatch
  table-dispatch_checked r = elim (Bool-cases (is_gcp r.schedule.config.provider)) [
    | inl on ↦ simp on (table-gcp_checked r _)
    | inr off ↦ elim (Bool-cases e.do_token) [
      | inl token ↦ simp (off, token) (table-do_checked r _)
      | inr missing ↦ simp (off, missing) (table-handle_failure _ r)
    ]
  ]

  pub table-dispatch_deploy : (r : Run) → table_of (dispatch_deploy e r).0 ≡ table_of r
  unfolding dispatch_deploy task_begin
  table-dispatch_deploy r = table-dispatch_checked _

  table-forget_sensor : (id : Option ℕ) (r : Run) → table_of (forget_sensor id r) ≡ table_of r
  unfolding forget_sensor
  table-forget_sensor none r = refl
  table-forget_sensor (some n) r = ground arith

  pub table-abort_provisioning :
      (client : Bool) (reason : String) (r : Run)
      → table_of (abort_provisioning e client reason r) ≡ table_of r
  unfolding abort_provisioning
  table-abort_provisioning client reason r =
      table-handle_failure reason _ ∙ table-forget_sensor r.schedule.state.current_droplet_id r

  pub table-execute_destroy : (r : Run) → table_of (execute_destroy e r) ≡ table_of r
  unfolding execute_destroy execute_destroy_inner task_end task_begin
  table-execute_destroy r = table-forget_sensor r.schedule.state.current_droplet_id _

  pub table-finalize_active :
      (client : Bool) (r : Run) → table_of (finalize_active e client r) ≡ table_of r
  unfolding finalize_active task_end
  table-finalize_active client r = table-schedule_backstop_lease _ _

  table-droplet_ready :
      (id : ℕ) (ip : String) (name : Option String) (r : Run)
      → table_of (droplet_ready e id ip name r) ≡ table_of r
  unfolding droplet_ready
  table-droplet_ready id ip name r = table-schedule_backstop_lease _ _

  table-with_answer :
      (id : ℕ) (answer : Outcome String DropletInfo) (r : Run)
      → table_of (with_answer e id answer r).0 ≡ table_of r
  unfolding with_answer
  table-with_answer id (raised error) r = refl
  table-with_answer id (ok info) r = ground (
    arith,
    table-droplet_ready id (or_else info.public_ip "") info.name r,
    table-abort_provisioning (e.do_token && e.cloud.configured digitalocean) "Droplet failed" r,
  )

  table-poll_droplet : (r : Run) → table_of (poll_droplet e r).0 ≡ table_of r
  unfolding poll_droplet
  table-poll_droplet r = ground (
    arith,
    table-with_answer (or_else r.schedule.state.current_droplet_id 0)
        (e.get_droplet (or_else r.schedule.state.current_droplet_id 0)) r,
  )

  table-watch_thread : (r : Run) → table_of (watch_thread e r).0 ≡ table_of r
  unfolding watch_thread
  table-watch_thread r = elim (Bool-cases (any_of (λ j. j == r.schedule.id) r.world.configuring)) [
    | inl mine ↦ simp mine refl
    | inr gone ↦ simp gone (table-abort_provisioning _ _ r)
  ]

  table-reconcile_provisioning : (r : Run) → table_of (reconcile_provisioning e r).0 ≡ table_of r
  unfolding reconcile_provisioning
  table-reconcile_provisioning r = ground (
    arith,
    table-poll_droplet r,
    table-watch_thread r,
    table-abort_provisioning (e.do_token && e.cloud.configured digitalocean)
        "Provisioning timed out after 30 minutes" r,
  )

  table-act : (n : ℕ) (a : Option Action) (r : Run) → table_of (act e n a r).0 ≡ table_of r
  unfolding act
  table-act n none r = refl
  table-act n (some destroy) r = table-execute_destroy r
  table-act n (some deploy) r = ground (arith, table-dispatch_deploy r)

  table-act_slot : (w : World) (n : ℕ) (s : Slot) → (act_slot e w n s).0.schedules ≡ w.schedules
  unfolding act_slot
  table-act_slot w n s = ground (
    arith,
    table-act n s.schedule.state.next_action (record { world = w; schedule = s.schedule }),
  )

  table-reconcile_slot : (w : World) (s : Slot) → (reconcile_slot e w s).0.schedules ≡ w.schedules
  unfolding reconcile_slot
  table-reconcile_slot w s =
      table-reconcile_provisioning (record { world = w; schedule = s.schedule })

  pub table-pause : (r : Run) → table_of (pause e r) ≡ table_of r
  unfolding pause switched_off
  table-pause r =
      ground
        (arith, table-schedule_backstop_lease (seconds pause_backstop_seconds) (switched_off r))

  table-resume_active :
      (row : Option Sensor) (r : Run) → table_of (resume_active e row r) ≡ table_of r
  unfolding resume_active lost
  table-resume_active none r = refl
  table-resume_active (some row) r = shrunk (instant r.schedule.state.cycle_started_at)
    where
      shrunk : (start : Option ℕ) → table_of (shrink_lease e start r) ≡ table_of r
      shrunk none = unfold shrink_lease in refl
      shrunk (some start) = unfold shrink_lease in table-schedule_backstop_lease _ r

  pub table-resume : (r : Run) → table_of (resume e r) ≡ table_of r
  unfolding resume rearmed
  table-resume r =
      let row = find (or_else r.schedule.state.current_droplet_id 0) r.world.site.db.sensors in
      ground (arith, table-resume_active row (rearmed r))

table-phase_one :
    (env : String → Env) (w : World) (slots : List Slot)
    → (phase_one env w slots).0.schedules ≡ w.schedules
unfolding phase_one
table-phase_one env w [] = refl
table-phase_one env w (s ∷ slots) =
    table-phase_one env (reconcile_slot (env s.schedule.id) w s).0 slots
    ∙ table-reconcile_slot (env s.schedule.id) w s

table-phase_two :
    (env : String → Env) (w : World) (n : ℕ) (slots : List Slot)
    → (phase_two env w n slots).0.schedules ≡ w.schedules
unfolding phase_two
table-phase_two env w n [] = refl
table-phase_two env w n (s ∷ slots) =
    table-phase_two env (act_slot (env s.schedule.id) w n s).0
      (act_slot (env s.schedule.id) w n s).1 slots
    ∙ table-act_slot (env s.schedule.id) w n s

-- The phases of a tick write no schedule.
pub table-run_phases :
    (env : String → Env) (slots : List Slot) (w : World)
    → (run_phases env slots w).0.schedules ≡ w.schedules
unfolding run_phases
table-run_phases env slots w =
    let (w1, slots1) = phase_one env w slots in
    table-phase_two env w1 (in_flight_count slots1) slots1 ∙ table-phase_one env w slots
