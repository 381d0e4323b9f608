-- ===== src/Campaign/Backstop.antt =====
-- The TTL backstop of a campaign's sensor: how long its lease runs.
use t_pot_sensor_deployer.Prelude.{
  ℕ, zero, suc, ◌+◌, ◌/◌, ◌≤◌, ◌<◌, ◌≡◌, refl, ap, sym, ◌∙◌, Bool, true, false, some, [], ◌∷◌, ◌++◌,
  arith, or_else, find, find-put_self, nat_key, ◌==◌, ok, Outcome,
}
use mathlib.Core.Path.{subst}
use t_pot_sensor_deployer.Duration.{
  seconds, max_duration_seconds, parse_duration, ValueError, unit_seconds,
}
use t_pot_sensor_deployer.Duration.Decimal.{decimal}
use t_pot_sensor_deployer.Duration.RoundTrip.{parse_duration-decimal}
use t_pot_sensor_deployer.Fleet.{Db, Lease, at, db_save_lease, db_record_sensor_launch}
use t_pot_sensor_deployer.Lease.{Request, schedule_lease, scheduled, record_lease, lease_entry}
use t_pot_sensor_deployer.Campaign.Records.{Schedule, has_id}
use t_pot_sensor_deployer.Campaign.World.{Env, Run}
use t_pot_sensor_deployer.Campaign.Steps.{
  leased_db, backstop_request, schedule_backstop_lease, task_end,
}
use t_pot_sensor_deployer.Campaign.Teardown.{finalize_active, backstop_seconds}

-- A second count in range is printed and read back.
parse_seconds : (n : ℕ) → n ≤ max_duration_seconds → parse_duration (decimal n ++ b's' ∷ []) ≡ ok n
unfolding unit_seconds
parse_seconds n h = parse_duration-decimal n b's' 1 refl ∙ ground arith

-- A lease runs out that long from now.
abbrev pub LeasedUntil : ℕ → ℕ → Db → Type 0
LeasedUntil id t db = (l : Lease) × (find id db.leases ≡ some l) × (l.expires_at ≡ at t)

record_lease-LeasedUntil :
    (now n : ℕ) (r : Request) (db : Db)
    → 0 < n
    → LeasedUntil r.droplet_id (now + seconds n) (record_lease now r n db).1
unfolding record_lease lease_entry db_save_lease db_record_sensor_launch
record_lease-LeasedUntil now zero r db h = absurd (omega arith)
record_lease-LeasedUntil now (suc n) r db h =
    let some_time : (suc n == 0) ≡ false = ground arith in
    (
      lease_entry now r (suc n),
      rw some_time (find-put_self r.droplet_id (lease_entry now r (suc n)) db.leases),
      refl,
    )

-- The backstop of `n` seconds, in range, is a lease that runs out that long from now.
pub schedule_backstop_lease-LeasedUntil :
    (e : Env) (n k : ℕ) (r : Run)
    → 0 < n
    → n ≤ max_duration_seconds
    → r.schedule.state.current_droplet_id ≡ some (suc k)
    → LeasedUntil
        (suc k)
        (e.now + seconds n)
        (schedule_backstop_lease e (seconds n) r).world.site.db
unfolding schedule_backstop_lease
schedule_backstop_lease-LeasedUntil e n k r pos bound named =
    let request =
      backstop_request r.schedule (or_else r.schedule.state.current_droplet_id 0) (seconds n) in
    let db = r.world.site.db in
    let known : has_id r.schedule.state.current_droplet_id ≡ true = ap has_id named in
    let some_time : (seconds n == 0) ≡ false = ground arith in
    let whole : seconds n / 1000000 ≡ n = omega arith in
    let parsed : parse_duration (decimal (seconds n / 1000000) ++ b's' ∷ []) ≡ ok n =
      ap (λ (m : ℕ). parse_duration (decimal m ++ b's' ∷ [])) whole ∙ parse_seconds n bound in
    let written : leased_db db (schedule_lease e.now request db)
        ≡ (record_lease e.now request n db).1 =
      unfold schedule_lease scheduled leased_db backstop_request in
      ap (λ (p : Outcome ValueError ℕ). leased_db db (scheduled e.now request db p)) parsed in
    let after : (schedule_backstop_lease e (seconds n) r).world.site.db
        ≡ (record_lease e.now request n db).1 =
      simp (known, some_time) written in
    let same : request.droplet_id ≡ suc k =
      unfold backstop_request in ap (λ i. or_else i 0) named in
    subst (LeasedUntil (suc k) (e.now + seconds n)) (sym after) (
      subst (λ i. LeasedUntil i (e.now + seconds n) (record_lease e.now request n db).1) same
        (record_lease-LeasedUntil e.now n request db pos))

-- How many seconds a sensor that becomes active may run: of an enabled campaign its active window and
-- a day, of a paused one thirty days.
abbrev pub lease_span : Bool → ℕ → ℕ
lease_span true window = window + 86400
lease_span false window = 2592000

span_of_backstop :
    (s : Schedule) → backstop_seconds s ≡ lease_span s.enabled s.timing.active_duration_seconds
unfolding backstop_seconds
span_of_backstop s = ground arith

-- When the sensor of an enabled campaign becomes active, its lease runs out after the active window
-- and 86400 seconds; when that of a campaign that was paused meanwhile does, after 2592000 seconds.
-- This holds where the state has the id of the sensor, and the number of seconds is at most that of
-- the longest duration, ten years.
pub finalize_active-LeasedUntil :
    (e : Env) (client : Bool) (r : Run) (k : ℕ)
    → lease_span r.schedule.enabled r.schedule.timing.active_duration_seconds ≤ max_duration_seconds
    → r.schedule.state.current_droplet_id ≡ some (suc k)
    → LeasedUntil
        (suc k)
        (e.now + seconds (lease_span r.schedule.enabled r.schedule.timing.active_duration_seconds))
        (finalize_active e client r).world.site.db
unfolding finalize_active task_end
finalize_active-LeasedUntil e client r k bound named = rw span_of_backstop (
    schedule_backstop_lease-LeasedUntil e
      (lease_span r.schedule.enabled r.schedule.timing.active_duration_seconds) k _
      (span_pos r.schedule.enabled) bound named)
  where
    span_pos : (b : Bool) → 0 < lease_span b r.schedule.timing.active_duration_seconds
    span_pos true = omega arith
    span_pos false = omega arith
