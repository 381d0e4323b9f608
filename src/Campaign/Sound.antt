-- ===== src/Campaign/Sound.antt =====
-- That each section of a command or of a configuring thread leaves the schedules of the table sound.
use t_pot_sensor_deployer.Prelude.{
  ℕ, String, ◌≡◌, refl, Bool, true, ◌&&◌, ◌||◌, Option, none, some, [], ◌∷◌, arith, sym, Bool-cases,
  inl, inr, ◌==◌, string_key, All, Table, find, remove,
}
use mathlib.Core.Path.{subst}
use t_pot_sensor_deployer.Campaign.Records.{
  is_provisioning, is_tearing_down, tearing_down, provisioning, Action, deploy, destroy, Schedule,
}
use t_pot_sensor_deployer.Campaign.World.{World, Env, Run}
use t_pot_sensor_deployer.Campaign.Steps.{
  task_end, minutes, provisioning_backstop_minutes, schedule_backstop_lease,
}
use t_pot_sensor_deployer.Campaign.Teardown.{abort_provisioning, finalize_active}
use t_pot_sensor_deployer.Campaign.Configure.{
  Job, save, is_ready, finish_found, finish_cycle, release_thread, instance_created, instance_found,
  track_instance, with_instance,
}
use t_pot_sensor_deployer.Campaign.Reconcile.{snapshot}
use t_pot_sensor_deployer.Campaign.Commands.{
  Claim, claimed, claim, has_sensor, pause_found, resume_found, delete_found, pause, resume,
  in_flight_or_active,
}
use t_pot_sensor_deployer.Campaign.Breaker.{
  IsSound, IsArmed, abort_provisioning-IsSound, finalize_active-IsSound,
  schedule-schedule_backstop_lease,
}
use t_pot_sensor_deployer.Campaign.Ticks.{AllSound, put-AllSound, provisioning→IsArmed}
use t_pot_sensor_deployer.Campaign.Controls.{pause-IsSound}
use t_pot_sensor_deployer.Campaign.Resume.{resume-IsSound}
use t_pot_sensor_deployer.Campaign.Kept.{
  table_of, table-execute_destroy, table-abort_provisioning, table-finalize_active, table-pause,
  table-resume, table-schedule_backstop_lease,
}
use t_pot_sensor_deployer.Campaign.Reach.{System}

abbrev pub TableSound : World → Type 0
TableSound w = All (λ r. IsSound r.1) w.schedules

abbrev pub ClaimSound : Claim → Type 0
ClaimSound (claimed a s) = IsArmed s
ClaimSound _ = Unit {0}

pub record SystemSound (s : System) : Type 0 where
  pub table : TableSound s.world
  pub slots : AllSound s.slots
  pub claims : All ClaimSound s.claims

pub find-AllSound :
    (id : String) (t : Table String Schedule) (s : Schedule)
    → All (λ r. IsSound r.1) t
    → find id t ≡ some s
    → IsSound s
unfolding find
find-AllSound id [] s all found = absurd (ground (arith, found))
find-AllSound id ((j, c) ∷ t) s (one, all) found = elim (Bool-cases (j == id)) [
  | inl same ↦
      let own : some c ≡ some s = simp same at found in
      subst (λ o. elim o [ none ↦ Unit {0} | some x ↦ IsSound x ]) own one
  | inr other ↦ find-AllSound id t s all (simp other at found)
]

remove-AllSound :
    (id : String) (t : Table String Schedule)
    → All (λ r. IsSound r.1) t
    → All (λ r. IsSound r.1) (remove id t)
unfolding remove
remove-AllSound id [] all = tt
remove-AllSound id ((j, c) ∷ t) (one, all) = elim (Bool-cases (j == id)) [
  | inl same ↦ simp same (remove-AllSound id t all)
  | inr other ↦ simp other (one, remove-AllSound id t all)
]

pub snapshot-AllSound :
    (t : Table String Schedule) → All (λ r. IsSound r.1) t → AllSound (snapshot t)
unfolding snapshot
snapshot-AllSound [] all = tt
snapshot-AllSound ((j, c) ∷ t) (one, all) = (one, snapshot-AllSound t all)

-- A schedule that is saved by an operation which left the table alone.
pub save-TableSound :
    (w : World) (r : Run)
    → table_of r ≡ w.schedules
    → TableSound w
    → IsSound r.schedule
    → TableSound (save r)
unfolding save
save-TableSound w r same all one =
    put-AllSound r.schedule.id r.schedule r.world.schedules one
      (subst (All (λ x. IsSound x.1)) (sym same) all)

pub pause_found-TableSound :
    (e : Env) (w : World) (o : Option Schedule) (id : String)
    → find id w.schedules ≡ o
    → TableSound w
    → TableSound (pause_found e w o).0
unfolding pause_found
pause_found-TableSound e w none id found all = all
pause_found-TableSound e w (some s) id found all =
    let r : Run = record { world = w; schedule = s } in
    save-TableSound w (pause e r) (table-pause e r) all
      (pause-IsSound e r (find-AllSound id w.schedules s all found))

pub resume_found-TableSound :
    (e : Env) (w : World) (o : Option Schedule) (id : String)
    → find id w.schedules ≡ o
    → TableSound w
    → TableSound (resume_found e w o).0
unfolding resume_found
resume_found-TableSound e w none id found all = all
resume_found-TableSound e w (some s) id found all =
    let r : Run = record { world = w; schedule = s } in
    save-TableSound w (resume e r) (table-resume e r) all
      (resume-IsSound e r (find-AllSound id w.schedules s all found)).0

pub delete_found-TableSound :
    (e : Env) (b : Bool) (o : Option Schedule) (w : World)
    → TableSound w
    → TableSound (delete_found e b o w).0
unfolding delete_found task_end
delete_found-TableSound e b none w all = all
delete_found-TableSound e b (some s) w all =
    let r : Run = record {
      world = record w { schedules = remove s.id w.schedules };
      schedule = s;
    } in
    let left : TableSound r.world = remove-AllSound s.id w.schedules all in
    elim (Bool-cases (b && in_flight_or_active s)) [
      | inl torn ↦ simp torn (subst (All (λ x. IsSound x.1)) (sym (table-execute_destroy e r)) left)
      | inr off ↦ simp off left
    ]

-- A schedule whose breaker has tripped has no sensor.
sensor→IsArmed : (c : Schedule) → IsSound c → has_sensor c ≡ true → IsArmed c
unfolding has_sensor
sensor→IsArmed c h up = ground (arith, up)

busy : Schedule → Bool
busy c = is_provisioning c.state.status || is_tearing_down c.state.status

-- A claim of a sound schedule is a sound copy with fewer than three failures behind it.
pub claim-Sound :
    (c : Schedule) (a : Action) (s : Schedule)
    → IsSound c
    → claim c ≡ claimed a s
    → IsSound s × IsArmed s
unfolding claim busy
claim-Sound c a s h taken = elim (Bool-cases (busy c)) [
  | inl refused ↦ absurd (ground (arith, refused, taken))
  | inr free ↦ elim (Bool-cases (has_sensor c)) [
    | inl up ↦
        let armed = sensor→IsArmed c h up in
        let copy : Schedule = record c { state = record c.state { status = tearing_down } } in
        let own : claimed destroy copy ≡ claimed a s = simp (free, up) at taken in
        let same : copy ≡ s = cc in
        subst (λ x. IsSound x × IsArmed x) same
          (ground (arith, armed, h), record { armed = armed.armed; kept = armed.kept })
    | inr down ↦
        let copy : Schedule = record c {
          enabled = true;
          state = record c.state { status = provisioning; consecutive_failures = 0 };
        } in
        let own : claimed deploy copy ≡ claimed a s = simp (free, down) at taken in
        let same : copy ≡ s = cc in
        subst (λ x. IsSound x × IsArmed x) same
          (ground (arith, h), record { armed = omega arith; kept = h.kept })
  ]
]

finish_cycle-TableSound :
    (e : Env) (client : Bool) (error : Option String) (w : World) (s : Schedule)
    → TableSound w
    → IsSound s
    → is_provisioning s.state.status ≡ true
    → TableSound (save (finish_cycle e client error (record { world = w; schedule = s })))
unfolding finish_cycle
finish_cycle-TableSound e client none w s all one flying =
    let r : Run = record { world = w; schedule = s } in
    save-TableSound w (finalize_active e client r) (table-finalize_active e client r) all
      (finalize_active-IsSound e client r one.kept)
finish_cycle-TableSound e client (some error) w s all one flying =
    let r : Run = record { world = w; schedule = s } in
    save-TableSound w (abort_provisioning e client error r)
      (table-abort_provisioning e client error r) all
      (abort_provisioning-IsSound e client error r (provisioning→IsArmed s one flying))

pub finish_found-TableSound :
    (e : Env) (client late : Bool) (job : Job) (error : Option String) (o : Option Schedule)
    (w : World)
    → find job.schedule_id w.schedules ≡ o
    → TableSound w
    → TableSound (finish_found e client late job error o w).0
unfolding finish_found release_thread is_ready
finish_found-TableSound e client late job error none w found all = all
finish_found-TableSound e client late job error (some s) w found all =
    elim (Bool-cases (is_ready job s.state)) [
      | inl ready ↦ simp ready (
          finish_cycle-TableSound e client error w s all
            (find-AllSound job.schedule_id w.schedules s all found) (ground (arith, ready)))
      | inr other ↦ elim (Bool-cases late) [
        | inl over ↦ simp (other, over) all
        | inr waits ↦ simp (other, waits) all
      ]
    ]

instance_found-TableSound :
    (e : Env) (job : Job) (id : ℕ) (ip : Option String) (o : Option Schedule) (w : World)
    → find job.schedule_id w.schedules ≡ o
    → TableSound w
    → TableSound (instance_found e job id ip o w).0
unfolding instance_found track_instance with_instance
instance_found-TableSound e job id ip none w found all = all
instance_found-TableSound e job id ip (some s) w found all =
    elim (Bool-cases (is_provisioning s.state.status)) [
      | inr over ↦ simp over all
      | inl flying ↦
          let one = find-AllSound job.schedule_id w.schedules s all found in
          let up : Run = with_instance e job id ip (record { world = w; schedule = s }) in
          let tracked : Run =
            schedule_backstop_lease e (minutes provisioning_backstop_minutes) up in
          let same : tracked.schedule ≡ up.schedule = schedule-schedule_backstop_lease e up _ in
          simp flying (
            save-TableSound w tracked (table-schedule_backstop_lease e _ up) all
              (subst IsSound (sym same) (ground (arith, one, flying))))
    ]

pub instance_created-TableSound :
    (e : Env) (job : Job) (id : ℕ) (ip : Option String) (w : World)
    → TableSound w
    → TableSound (instance_created e job id ip w).0
unfolding instance_created
instance_created-TableSound e job id ip w all =
    instance_found-TableSound e job id ip (find job.schedule_id w.schedules) _ refl all
