-- ===== src/Campaign/Ticks.antt =====
-- The tick on sound schedules.
use t_pot_sensor_deployer.Prelude.{
  ℕ, String, ◌≡◌, refl, Bool, true, false, ◌&&◌, Option, none, some, List, [], ◌∷◌, arith,
  Bool-cases, inl, inr, is_some, leb, or_else, Outcome, ok, raised, any_of, ◌==◌, string_key, All,
  Table, find, put,
}
use t_pot_sensor_deployer.Fleet.{is_digitalocean}
use t_pot_sensor_deployer.Campaign.Records.{
  is_provisioning, is_configuring, suspended, Action, deploy, destroy, Schedule,
}
use t_pot_sensor_deployer.Campaign.World.{World, Env, Run, DropletInfo, has_client}
use t_pot_sensor_deployer.Campaign.Teardown.{abort_provisioning}
use t_pot_sensor_deployer.Campaign.Reconcile.{
  reconcile_provisioning, watch_thread, poll_droplet, with_answer, droplet_ready, timed_out, act,
  act_slot, is_due, Slot, reconcile_slot, phase_one, phase_two, in_flight_count, run_phases,
  write_back,
}
use t_pot_sensor_deployer.Campaign.Breaker.{
  IsSound, IsArmed, abort_provisioning-IsSound, execute_destroy-IsSound, dispatch_deploy-IsSound,
  schedule-schedule_backstop_lease,
}

-- A sound schedule that is not suspended may fail once more.
IsSound→IsArmed : (s : Schedule) → IsSound s → (s.state.status ≡ suspended → ⊥) → IsArmed s
IsSound→IsArmed s h alive = ground arith

pub provisioning→IsArmed :
    (s : Schedule) → IsSound s → is_provisioning s.state.status ≡ true → IsArmed s
provisioning→IsArmed s h flying = ground arith

enabled→IsArmed : (s : Schedule) → IsSound s → s.enabled ≡ true → IsArmed s
enabled→IsArmed s h on = ground arith

module _ (e : Env) (r : Run) (h : IsSound r.schedule)
    (flying : is_provisioning r.schedule.state.status ≡ true) where
  abort-IsSound :
      (client : Bool) (reason : String) → IsSound (abort_provisioning e client reason r).schedule
  abort-IsSound client reason =
      abort_provisioning-IsSound e client reason r (provisioning→IsArmed r.schedule h flying)

  watch_thread-IsSound : IsSound (watch_thread e r).0.schedule
  unfolding watch_thread
  watch_thread-IsSound = elim (Bool-cases (any_of (λ j. j == r.schedule.id) r.world.configuring)) [
    | inl mine ↦ simp mine h
    | inr gone ↦ simp gone (abort-IsSound _ _)
  ]

  droplet_ready-IsSound :
      (id : ℕ) (ip : String) (name : Option String)
      → IsSound (droplet_ready e id ip name r).schedule
  unfolding droplet_ready
  droplet_ready-IsSound id ip name = simp schedule-schedule_backstop_lease (ground arith)

  with_answer-IsSound :
      (id : ℕ) (answer : Outcome String DropletInfo)
      → IsSound (with_answer e id answer r).0.schedule
  unfolding with_answer
  with_answer-IsSound id (raised error) = h
  with_answer-IsSound id (ok info) = ground (
    arith,
    droplet_ready-IsSound id (or_else info.public_ip "") info.name,
    abort-IsSound (has_client e) "Droplet failed",
  )

  poll_droplet-IsSound : IsSound (poll_droplet e r).0.schedule
  unfolding poll_droplet
  poll_droplet-IsSound = ground (
    arith,
    h,
    with_answer-IsSound (or_else r.schedule.state.current_droplet_id 0)
        (e.get_droplet (or_else r.schedule.state.current_droplet_id 0)),
  )

-- A round of the reconciler keeps a sound schedule sound, in every stage and for every answer of
-- the cloud.
pub reconcile_provisioning-IsSound :
    (e : Env) (r : Run) → IsSound r.schedule → IsSound (reconcile_provisioning e r).0.schedule
unfolding reconcile_provisioning
reconcile_provisioning-IsSound e r h = elim (Bool-cases (is_provisioning r.schedule.state.status)) [
  | inr idle ↦ simp idle h
  | inl flying ↦ simp flying (elim (Bool-cases (timed_out e r.schedule.state)) [
    | inl late ↦ simp late (abort-IsSound e r h flying _ _)
    | inr early ↦ simp early (elim (Bool-cases (is_configuring r.schedule.state.stage)) [
      | inl busy ↦ simp busy (watch_thread-IsSound e r h flying)
      | inr waiting ↦ simp waiting (elim (Bool-cases (is_digitalocean r.schedule.config.provider)) [
        | inl droplet ↦ simp droplet (poll_droplet-IsSound e r h flying)
        | inr other ↦ simp other h
      ])
    ])
  ])
]

-- The action of a schedule that is due keeps it sound.
act-IsSound :
    (e : Env) (n : ℕ) (a : Option Action) (r : Run)
    → IsSound r.schedule
    → r.schedule.enabled ≡ true
    → r.schedule.state.next_action ≡ a
    → IsSound (act e n a r).0.schedule
unfolding act
act-IsSound e n none r h on q = h
act-IsSound e n (some destroy) r h on q =
    execute_destroy-IsSound e r (enabled→IsArmed r.schedule h on)
act-IsSound e n (some deploy) r h on q = elim (Bool-cases (leb 3 n)) [
  | inl full ↦ simp full (ground arith)
  | inr room ↦ simp room (dispatch_deploy-IsSound e r (enabled→IsArmed r.schedule h on))
]

pub due-enabled :
    (e : Env) (s : Schedule)
    → is_due e s ≡ true
    → (s.enabled ≡ true) × (is_provisioning s.state.status ≡ false)
unfolding is_due
due-enabled e s h = ground arith

act_slot-IsSound :
    (e : Env) (w : World) (n : ℕ) (s : Slot)
    → IsSound s.schedule
    → IsSound (act_slot e w n s).2.schedule
unfolding act_slot
act_slot-IsSound e w n s h = elim (Bool-cases (is_due e s.schedule)) [
  | inl due ↦ simp due (
      act-IsSound e n s.schedule.state.next_action (record { world = w; schedule = s.schedule }) h
        (due-enabled e s.schedule due).0 refl)
  | inr idle ↦ simp idle h
]

abbrev pub AllSound : List Slot → Type 0
AllSound = All (λ s. IsSound s.schedule)

phase_one-AllSound :
    (env : String → Env) (w : World) (slots : List Slot)
    → AllSound slots
    → AllSound (phase_one env w slots).1
unfolding phase_one reconcile_slot
phase_one-AllSound env w [] h = tt
phase_one-AllSound env w (s ∷ slots) h = (
  reconcile_provisioning-IsSound (env s.schedule.id) (record { world = w; schedule = s.schedule })
      h.0,
  phase_one-AllSound env (reconcile_slot (env s.schedule.id) w s).0 slots h.1,
)

phase_two-AllSound :
    (env : String → Env) (w : World) (n : ℕ) (slots : List Slot)
    → AllSound slots
    → AllSound (phase_two env w n slots).2
unfolding phase_two
phase_two-AllSound env w n [] h = tt
phase_two-AllSound env w n (s ∷ slots) h = (
  act_slot-IsSound (env s.schedule.id) w n s h.0,
  phase_two-AllSound env (act_slot (env s.schedule.id) w n s).0
      (act_slot (env s.schedule.id) w n s).1 slots h.1,
)

-- Both phases of a tick keep every schedule of the snapshot sound.
pub run_phases-AllSound :
    (env : String → Env) (slots : List Slot) (w : World)
    → AllSound slots
    → AllSound (run_phases env slots w).1
unfolding run_phases
run_phases-AllSound env slots w h =
    let (w1, slots1) = phase_one env w slots in
    phase_two-AllSound env w1 (in_flight_count slots1) slots1 (phase_one-AllSound env w slots h)

pub put-AllSound :
    (k : String) (s : Schedule) (table : Table String Schedule)
    → IsSound s
    → All (λ r. IsSound r.1) table
    → All (λ r. IsSound r.1) (put k s table)
unfolding put
put-AllSound k s [] one all = (one, tt)
put-AllSound k s ((j, old) ∷ table) one (first, rest) = elim (Bool-cases (j == k)) [
  | inl same ↦ simp same (one, rest)
  | inr other ↦ simp other (first, put-AllSound k s table one rest)
]

write_back-AllSound :
    (slots : List Slot) (table : Table String Schedule)
    → AllSound slots
    → All (λ r. IsSound r.1) table
    → All (λ r. IsSound r.1) (write_back slots table)
unfolding write_back
write_back-AllSound [] table sound all = all
write_back-AllSound (s ∷ slots) table (one, sound) all =
    elim (Bool-cases (s.touched && is_some (find s.schedule.id table))) [
      | inl written ↦
          simp written (
            write_back-AllSound slots _ sound (put-AllSound s.schedule.id s.schedule table one all))
      | inr kept ↦ simp kept (write_back-AllSound slots table sound all)
    ]

-- A tick over a snapshot of sound schedules, written back into a table of sound schedules that
-- may have changed meanwhile, leaves every schedule of the table sound.
pub write_back-run_phases :
    (env : String → Env) (slots : List Slot) (w : World) (table : Table String Schedule)
    → AllSound slots
    → All (λ r. IsSound r.1) table
    → All (λ r. IsSound r.1) (write_back (run_phases env slots w).1 table)
write_back-run_phases env slots w table sound all =
    write_back-AllSound (run_phases env slots w).1 table (run_phases-AllSound env slots w sound) all
