-- ===== src/Campaign/Controls.antt =====
-- Pausing, claiming a campaign for a trigger, and what a tick writes back.
use t_pot_sensor_deployer.Prelude.{
  ℕ, suc, String, ◌+◌, ◌≡◌, refl, ap, ◌∙◌, Bool, true, false, ◌&&◌, ◌||◌, none, some, List, [], ◌∷◌,
  arith, Bool-cases, inl, inr, ◌⊎◌, if◌then◌else◌, is_some, Table, find, put, find-put, nat_key,
  string_key,
}
use t_pot_sensor_deployer.Duration.{seconds}
use t_pot_sensor_deployer.Campaign.Records.{
  Schedule, has_id, is_active, Action, provisioning, tearing_down, is_provisioning, is_tearing_down,
  active, deploy, destroy,
}
use t_pot_sensor_deployer.Campaign.World.{World, Env, Run}
use t_pot_sensor_deployer.Campaign.Steps.{pause_backstop_seconds}
use t_pot_sensor_deployer.Campaign.Reconcile.{Slot, write_back}
use t_pot_sensor_deployer.Campaign.Commands.{
  pause, switched_off, in_flight, claimed, claim, claim_of, claim_saved, trigger_claim, has_sensor,
}
use t_pot_sensor_deployer.Campaign.Breaker.{IsSound, schedule-schedule_backstop_lease}
use t_pot_sensor_deployer.Campaign.Backstop.{LeasedUntil, schedule_backstop_lease-LeasedUntil}

-- The lease changes nothing of the schedule.
pub schedule-pause : (e : Env) (r : Run) → (pause e r).schedule ≡ (switched_off r).schedule
unfolding pause
schedule-pause e r =
    elim (Bool-cases
      (is_active r.schedule.state.status && has_id r.schedule.state.current_droplet_id)) [
        | inl live ↦
            simp live
              (schedule-schedule_backstop_lease e (switched_off r) (seconds pause_backstop_seconds))
        | inr other ↦ simp other refl
      ]

-- Pausing a sound schedule leaves it sound.
pub pause-IsSound : (e : Env) (r : Run) → IsSound r.schedule → IsSound (pause e r).schedule
unfolding switched_off
pause-IsSound e r h = rw schedule-pause (ground arith)

-- Pausing a campaign that is active with a droplet leases the droplet for thirty days from then,
-- keeps the status and the droplet, and switches the campaign off.
pub pause-LeasedUntil :
    (e : Env) (r : Run) (k : ℕ)
    → r.schedule.state.status ≡ active
    → r.schedule.state.current_droplet_id ≡ some (suc k)
    → LeasedUntil (suc k) (e.now + seconds pause_backstop_seconds) (pause e r).world.site.db
      × ((pause e r).schedule.state.status ≡ active)
      × ((pause e r).schedule.state.current_droplet_id ≡ some (suc k))
      × ((pause e r).schedule.enabled ≡ false)
unfolding pause switched_off
pause-LeasedUntil e r k live named =
    let both : (is_active r.schedule.state.status && has_id r.schedule.state.current_droplet_id)
        ≡ true =
      cc (ap is_active live, ap has_id named) in
    (
      simp both (
          schedule_backstop_lease-LeasedUntil e pause_backstop_seconds k (switched_off r)
            (omega arith) (omega arith) named),
      ap (λ (s : Schedule). s.state.status) (schedule-pause e r) ∙ live,
      ap (λ (s : Schedule). s.state.current_droplet_id) (schedule-pause e r) ∙ named,
      ap (λ (s : Schedule). s.enabled) (schedule-pause e r),
    )

-- What a claim leaves has the schedule's id, and is refused by the next claim.
claim-cases :
    (s : Schedule)
    → (claim s ≡ in_flight)
      ⊎ ((a : Action) × (t : Schedule) × (claim s ≡ claimed a t)
          × (t.id ≡ s.id)
          × (claim t ≡ in_flight))
unfolding claim
claim-cases s =
    elim (Bool-cases (is_provisioning s.state.status || is_tearing_down s.state.status)) [
      | inl busy ↦ inl (simp busy refl)
      | inr idle ↦ elim (Bool-cases (has_sensor s)) [
        | inl has ↦ inr (
          destroy,
          record s { state = record s.state { status = tearing_down } },
          simp (idle, has) refl,
          refl,
          refl,
        )
        | inr without ↦ inr (
          deploy,
          record s {
            enabled = true;
            state = record s.state { status = provisioning; consecutive_failures = 0 };
          },
          simp (idle, without) refl,
          refl,
          refl,
        )
      ]
    ]

claimed_once :
    (id : String) (w : World) (s : Schedule)
    → find id w.schedules ≡ some s
    → s.id ≡ id
    → claim_of (find id (claim_saved (claim s) w).schedules) ≡ in_flight
unfolding claim_of claim_saved
claimed_once id w s found same = elim (claim-cases s) [
  | inl busy ↦ simp (busy, found) refl
  | inr (a, t, took, kept, next) ↦
      let put_back : find id (put t.id t w.schedules) ≡ some t =
        simp (find-put, (string_key.is_same_iff t.id id).1 (kept ∙ same)) refl in
      simp (took, put_back) next
]

-- Of two triggers in a row on a campaign that stands in the table under its id, the second finds
-- it in flight, is refused and changes nothing.
pub trigger_claim_once :
    (id : String) (w : World) (s : Schedule)
    → find id w.schedules ≡ some s
    → s.id ≡ id
    → trigger_claim id (trigger_claim id w).0 ≡ ((trigger_claim id w).0, in_flight)
unfolding trigger_claim claim_of claim_saved
trigger_claim_once id w s found same =
    let next : claim_of (find id (trigger_claim id w).0.schedules) ≡ in_flight =
      rw found (claimed_once id w s found same) in
    ap (λ c. (claim_saved c (trigger_claim id w).0, c)) next

put_present :
    (k id : String) (s : Schedule) (b : Bool) (table : Table String Schedule)
    → find id table ≡ none
    → find id (if b && is_some (find k table) then put k s table else table) ≡ none
put_present k id s b table gone =
    ground (arith, find-put k id s table, string_key.is_same_iff k id, gone)

-- The tick writes back no campaign that is gone from the table.
pub write_back_deleted :
    (slots : List Slot) (table : Table String Schedule) (id : String)
    → find id table ≡ none
    → find id (write_back slots table) ≡ none
unfolding write_back
write_back_deleted [] table id gone = gone
write_back_deleted (s ∷ slots) table id gone =
    write_back_deleted slots _ id (put_present s.schedule.id id s.schedule s.touched table gone)
