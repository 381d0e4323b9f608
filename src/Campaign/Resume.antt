-- ===== src/Campaign/Resume.antt =====
-- Resuming a campaign, and pausing it before.
use t_pot_sensor_deployer.Prelude.{
  ℕ, suc, ◌≡◌, refl, ap, ◌∙◌, true, ◌&&◌, ◌||◌, not, ◌==◌, Option, none, some, arith, Bool-cases,
  inl, inr, nat_key, find, or_else, Outcome, ok, raised,
}
use t_pot_sensor_deployer.Duration.{ValueError}
use t_pot_sensor_deployer.Fleet.{Db, Sensor, db_save_lease, db_record_sensor_launch}
use t_pot_sensor_deployer.Lease.{Request, scheduled, schedule_lease, record_lease}
use t_pot_sensor_deployer.Campaign.Records.{Schedule, State, active, has_id, is_active}
use t_pot_sensor_deployer.Campaign.World.{Env, Run}
use t_pot_sensor_deployer.Campaign.Steps.{schedule_backstop_lease, leased_db}
use t_pot_sensor_deployer.Campaign.Commands.{
  pause, switched_off, resume, resume_active, claims_sensor, shrink_lease, lost, rearmed,
}
use t_pot_sensor_deployer.Campaign.Breaker.{IsSound, schedule-schedule_backstop_lease}
use t_pot_sensor_deployer.Campaign.Controls.{schedule-pause}

pub schedule-shrink_lease :
    (e : Env) (start : Option ℕ) (r : Run) → (shrink_lease e start r).schedule ≡ r.schedule
unfolding shrink_lease
schedule-shrink_lease e none r = refl
schedule-shrink_lease e (some start) r = schedule-schedule_backstop_lease e r _

resume_active-IsSound :
    (e : Env) (row : Option Sensor) (r : Run)
    → IsSound r.schedule
    → r.schedule.state.status ≡ active
    → IsSound (resume_active e row r).schedule
unfolding resume_active lost
resume_active-IsSound e none r h live = ground arith
resume_active-IsSound e (some row) r h live = simp schedule-shrink_lease (ground arith)

resume_active-reset :
    (e : Env) (row : Option Sensor) (r : Run)
    → ((resume_active e row r).schedule.enabled ≡ r.schedule.enabled)
      × ((resume_active e row r).schedule.state.consecutive_failures
          ≡ r.schedule.state.consecutive_failures)
unfolding resume_active lost
resume_active-reset e none r = (refl, refl)
resume_active-reset e (some row) r = simp schedule-shrink_lease (refl, refl)

claims_sensor-active : (st : State) → claims_sensor st ≡ true → st.status ≡ active
unfolding claims_sensor
claims_sensor-active st h = ground arith

rearmed-IsSound :
    (r : Run) → IsSound r.schedule → r.schedule.state.status ≡ active → IsSound (rearmed r).schedule
unfolding rearmed
rearmed-IsSound r h live = ground arith

-- Resuming a sound schedule, a suspended one included, leaves it sound, switched on and with no
-- failure behind it.
pub resume-IsSound :
    (e : Env) (r : Run)
    → IsSound r.schedule
    → IsSound (resume e r).schedule
      × ((resume e r).schedule.enabled ≡ true)
      × ((resume e r).schedule.state.consecutive_failures ≡ 0)
unfolding resume rearmed
resume-IsSound e r h = elim (Bool-cases (claims_sensor r.schedule.state)) [
  | inl kept ↦
      let row = find (or_else r.schedule.state.current_droplet_id 0) r.world.site.db.sensors in
      let live = claims_sensor-active r.schedule.state kept in
      let (on, reset) = resume_active-reset e row (rearmed r) in
      simp kept (resume_active-IsSound e row (rearmed r) (rearmed-IsSound r h live) live, on, reset)
  | inr other ↦ simp other (ground arith)
]

sensors-record_lease :
    (now : ℕ) (q : Request) (n : ℕ) (db : Db) → (record_lease now q n db).1.sensors ≡ db.sensors
unfolding record_lease db_save_lease db_record_sensor_launch
sensors-record_lease now q n db = ground arith

sensors-leased :
    (now : ℕ) (q : Request) (db : Db) (p : Outcome ValueError ℕ)
    → (leased_db db (scheduled now q db p)).sensors ≡ db.sensors
unfolding leased_db scheduled
sensors-leased now q db (ok n) = sensors-record_lease now q n db
sensors-leased now q db (raised error) = refl

sensors-schedule_backstop_lease :
    (e : Env) (ttl : ℕ) (r : Run)
    → (schedule_backstop_lease e ttl r).world.site.db.sensors ≡ r.world.site.db.sensors
unfolding schedule_backstop_lease schedule_lease
sensors-schedule_backstop_lease e ttl r =
    elim (Bool-cases (not (has_id r.schedule.state.current_droplet_id) || ttl == 0)) [
      | inl skipped ↦ simp skipped refl
      | inr leased ↦ simp leased (sensors-leased e.now _ r.world.site.db _)
    ]

sensors-pause : (e : Env) (r : Run) → (pause e r).world.site.db.sensors ≡ r.world.site.db.sensors
unfolding pause switched_off
sensors-pause e r =
    elim (Bool-cases
      (is_active r.schedule.state.status && has_id r.schedule.state.current_droplet_id)) [
        | inl live ↦ simp live (sensors-schedule_backstop_lease e _ (switched_off r))
        | inr other ↦ simp other refl
      ]

resume_tracked :
    (e : Env) (r : Run) (k : ℕ) (row : Sensor)
    → claims_sensor r.schedule.state ≡ true
    → r.schedule.state.current_droplet_id ≡ some (suc k)
    → find (suc k) r.world.site.db.sensors ≡ some row
    → ((resume e r).schedule.state.status ≡ r.schedule.state.status)
      × ((resume e r).schedule.state.current_droplet_id ≡ r.schedule.state.current_droplet_id)
      × ((resume e r).schedule.state.next_action ≡ r.schedule.state.next_action)
      × ((resume e r).schedule.enabled ≡ true)
unfolding resume rearmed resume_active
resume_tracked e r k row claimed named tracked =
    let kept : find (or_else r.schedule.state.current_droplet_id 0) r.world.site.db.sensors
        ≡ some row =
      ap (λ i. find (or_else i 0) r.world.site.db.sensors) named ∙ tracked in
    simp (claimed, kept, schedule-shrink_lease) (refl, refl, refl, refl)

claims_sensor-pause :
    (e : Env) (r : Run) → claims_sensor (pause e r).schedule.state ≡ claims_sensor r.schedule.state
unfolding claims_sensor switched_off
claims_sensor-pause e r = ap (λ (s : Schedule). claims_sensor s.state) (schedule-pause e r)

-- Pausing and then resuming a campaign whose active sensor is still tracked makes it active again
-- with the same droplet and the same next action.
pub resume-pause :
    (e e' : Env) (r : Run) (k : ℕ) (row : Sensor)
    → claims_sensor r.schedule.state ≡ true
    → r.schedule.state.current_droplet_id ≡ some (suc k)
    → find (suc k) r.world.site.db.sensors ≡ some row
    → ((resume e' (pause e r)).schedule.state.status ≡ active)
      × ((resume e' (pause e r)).schedule.state.current_droplet_id ≡ some (suc k))
      × ((resume e' (pause e r)).schedule.state.next_action ≡ r.schedule.state.next_action)
      × ((resume e' (pause e r)).schedule.enabled ≡ true)
unfolding switched_off
resume-pause e e' r k row claimed named tracked =
    let same : (pause e r).schedule ≡ (switched_off r).schedule = schedule-pause e r in
    let id_kept = ap (λ (s : Schedule). s.state.current_droplet_id) same ∙ named in
    let (status, droplet, action, on) =
      resume_tracked e' (pause e r) k row (claims_sensor-pause e r ∙ claimed) id_kept
        (ap (find (suc k)) (sensors-pause e r) ∙ tracked) in
    (
      status
          ∙ ap (λ (s : Schedule). s.state.status) same
          ∙ claims_sensor-active r.schedule.state claimed,
      droplet ∙ id_kept,
      action ∙ ap (λ (s : Schedule). s.state.next_action) same,
      on,
    )
