-- ===== src/Worker/Sweeps.antt =====
-- That the scheduler thread sweeps once a minute.
use t_pot_sensor_deployer.Prelude.{
  ◌+◌, ◌-◌, ◌≤◌, true, List, [], ◌∷◌, ◌++◌, ◌≡◌, ◌⊎◌, inl, inr, arith, leb, Bool-cases, nat_key,
  le→leb,
}
use t_pot_sensor_deployer.Lease.Sweep.{ttl_sweep_job-NoneDue, NoneDue}
use t_pot_sensor_deployer.Campaign.Reconcile.{reconcile_tick}
use t_pot_sensor_deployer.Worker.{Ticker, Reading, iterate, sweep, ttl_interval}

-- An iteration of the run leaves no lease that is due by the clock that its sweep read.
unfoldable pub Sweeps : List Reading → Ticker → Type 0
Sweeps [] t = ⊥
Sweeps (r ∷ rs) t = NoneDue r.sweep_at (iterate r t).world.site.db ⊎ Sweeps rs (iterate r t)

iterate-NoneDue :
    (r : Reading) (t : Ticker)
    → t.last_ttl_check + ttl_interval ≤ r.time
    → NoneDue r.sweep_at (iterate r t).world.site.db
unfolding iterate sweep
iterate-NoneDue r t late =
    let due : leb ttl_interval (r.time - t.last_ttl_check) ≡ true =
      le→leb _ _ (omega (arith, late)) in
    rw due (ttl_sweep_job-NoneDue r.sweep_at r.cloud (reconcile_tick r.tick t.world).site)

-- A run of the thread whose last reading is a minute or more after the last sweep has swept: one of
-- its iterations left no lease due.
pub iterate-Sweeps :
    (rs : List Reading) (r : Reading) (t : Ticker)
    → t.last_ttl_check + ttl_interval ≤ r.time
    → Sweeps (rs ++ r ∷ []) t
unfolding Sweeps
iterate-Sweeps [] r t late = inl (iterate-NoneDue r t late)
iterate-Sweeps (q ∷ rs) r t late =
    elim (Bool-cases (leb ttl_interval (q.time - t.last_ttl_check))) [
      | inl due ↦ inl (iterate-NoneDue q t (ground (arith, due)))
      | inr early ↦
          let same : (iterate q t).last_ttl_check ≡ t.last_ttl_check =
            unfold iterate in ground (arith, early) in
          inr (iterate-Sweeps rs r (iterate q t) (rw same late))
    ]
