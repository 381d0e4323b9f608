-- ===== src/Lease/Refine.antt =====
-- The operations of `TTLManager` against a function from the droplet ids to the leases.
use t_pot_sensor_deployer.Prelude.{
  ℕ, false, Option, none, some, List, [], ◌∷◌, ◌≡◌, refl, sym, ap, ◌∙◌, arith, inl, inr, Bool-cases,
  ◌==◌, if◌then◌else◌, nat_key, Table, find, remove, put, find-put, find-remove, is_some, Outcome,
  ok, raised, map,
}
use mathlib.Core.Path.{subst, fun_ext}
use t_pot_sensor_deployer.Duration.{ValueError, parse_duration}
use t_pot_sensor_deployer.Duration.Decimal.{Text}
use t_pot_sensor_deployer.Fleet.{
  Db, Lease, db_save_lease, db_delete_lease, db_record_sensor_destroy, db_record_sensor_launch,
}
use t_pot_sensor_deployer.Site.{Site, Cloud, new_edl}
use t_pot_sensor_deployer.Lease.Defs.{
  Request, schedule_lease, scheduled, record_lease, lease_entry, cancel_lease, extend_lease,
  extend_by, extend_found, extended, ttl_sweep_job, sweep_expired_leases, release, save_all,
  delete_missing, save_leases, Sweep, sweep_leases,
}
use t_pot_sensor_deployer.Lease.Rows.{IsTable, put-IsTable, droplet_id-find}
use t_pot_sensor_deployer.Lease.Extend.{find-save_leases, put_absent}
use t_pot_sensor_deployer.Lease.Sweep.{
  is_swept, ttl_sweep_job_lem, db-sweep_leases, leases-drop_sensors,
}

-- A call of the manager, with its clock.
pub data Op : Type 0 where
  schedule : ℕ → Request → Op
  cancel : ℕ → ℕ → Op
  extend : ℕ → ℕ → Text → Op
  sweep : ℕ → Cloud → Op

-- The database after a call that may have raised.
abbrev pub db_after {ℓ} : {A : Type ℓ} → Outcome ValueError (A × Db) → Db → Db
db_after (ok (a, db)) old = db
db_after (raised error) old = old

unfoldable pub apply : Op → Site → Site
apply (schedule now r) s = record s { db = db_after (schedule_lease now r s.db) s.db }
apply (cancel now id) s = record s { db = (cancel_lease now id s.db).0 }
apply (extend now id extra) s = record s { db = db_after (extend_lease now id extra s.db) s.db }
apply (sweep now cloud) s = ttl_sweep_job now cloud s

unfoldable pub run : List Op → Site → Site
unfolding apply
run [] s = s
run (op ∷ ops) s = run ops (apply op s)

-- What the leases are, for a reader who knows no table.
abbrev pub Leases : Type 0
Leases = ℕ → Option Lease

unfoldable pub update : ℕ → Option Lease → Leases → Leases
update id o f j = if id == j then o else f j

unfoldable pub scheduled_as : ℕ → Request → Outcome ValueError ℕ → Leases → Leases
unfolding update
scheduled_as now r (raised error) f = f
scheduled_as now r (ok n) f =
    if n == 0 then f else update r.droplet_id (some (lease_entry now r n)) f

unfoldable pub extended_as : ℕ → ℕ → Outcome ValueError ℕ → Option Lease → Leases → Leases
unfolding update
extended_as now id (ok extra) (some l) f = update id (some (extended now extra l)) f
extended_as now id _ _ f = f

unfoldable pub replay_one : Op → Leases → Leases
unfolding update scheduled_as extended_as
replay_one (schedule now r) f = scheduled_as now r (parse_duration r.ttl_text) f
replay_one (cancel now id) f = update id none f
replay_one (extend now id extra) f = extended_as now id (parse_duration extra) (f id) f
replay_one (sweep now cloud) f = λ j. if is_swept now (f j) then none else f j

unfoldable pub replay : List Op → Leases → Leases
unfolding replay_one
replay [] f = f
replay (op ∷ ops) f = replay ops (replay_one op f)

abbrev pub leases_of : Site → Leases
leases_of s j = find j s.db.leases

remove-IsTable : (t : Table ℕ Lease) (id : ℕ) → IsTable t → IsTable (remove id t)
unfolding IsTable remove
remove-IsTable [] id keyed = tt
remove-IsTable ((k, l) ∷ t) id (own, apart, rest) =
    let free : find k (remove id t) ≡ none = ground (arith, find-remove id k t, apart) in
    elim (Bool-cases (k == id)) [
      | inl same ↦ simp same (remove-IsTable t id rest)
      | inr other ↦ simp other (own, free, remove-IsTable t id rest)
    ]

save_all-IsTable :
    (t : Table ℕ Lease) (db : Db) → IsTable db.leases → IsTable (save_all t db).leases
unfolding save_all db_save_lease
save_all-IsTable [] db keyed = keyed
save_all-IsTable ((id, l) ∷ t) db keyed =
    save_all-IsTable t _ (put-IsTable db.leases l.droplet_id l refl keyed)

delete_missing-IsTable :
    (t current : Table ℕ Lease) (db : Db)
    → IsTable db.leases
    → IsTable (delete_missing t current db).leases
unfolding delete_missing db_delete_lease
delete_missing-IsTable t [] db keyed = keyed
delete_missing-IsTable t ((id, l) ∷ current) db keyed = elim (Bool-cases (is_some (find id t))) [
  | inl stays ↦ simp stays (delete_missing-IsTable t current db keyed)
  | inr goes ↦ simp goes (delete_missing-IsTable t current _ (remove-IsTable db.leases id keyed))
]

release-IsTable :
    (now : ℕ) (ids : List ℕ) (db : Db) → IsTable db.leases → IsTable (release now ids db).leases
unfolding release db_delete_lease db_record_sensor_destroy
release-IsTable now [] db keyed = keyed
release-IsTable now (id ∷ ids) db keyed =
    release-IsTable now ids _ (remove-IsTable db.leases id keyed)

ttl_sweep_job-IsTable :
    (now : ℕ) (cloud : Cloud) (s : Site)
    → IsTable s.db.leases
    → IsTable (ttl_sweep_job now cloud s).db.leases
unfolding ttl_sweep_job sweep_expired_leases
ttl_sweep_job-IsTable now cloud s keyed =
    let w : Sweep =
      sweep_leases now cloud (map (λ r. r.1) s.db.leases)
        (record { site = s; edl = new_edl s; listing = false; to_delete = [] }) in
    let kept : w.site.db ≡ s.db = db-sweep_leases now cloud (map (λ r. r.1) s.db.leases) _ in
    subst IsTable (sym (leases-drop_sensors w.to_delete (release now w.to_delete w.site.db)))
      (release-IsTable now w.to_delete w.site.db (subst (λ d. IsTable d.leases) (sym kept) keyed))

-- One call, on a table and on a function.
abbrev Refines : Op → Site → Type 0
Refines op s =
    IsTable (apply op s).db.leases × (leases_of (apply op s) ≡ replay_one op (leases_of s))

schedule-Refines :
    (now : ℕ) (r : Request) (s : Site) → IsTable s.db.leases → Refines (schedule now r) s
unfolding apply replay_one schedule_lease scheduled scheduled_as record_lease db_save_lease
    db_record_sensor_launch update
schedule-Refines now r s keyed = parsed (parse_duration r.ttl_text)
  where
    parsed :
        (o : Outcome ValueError ℕ)
        → IsTable (db_after (scheduled now r s.db o) s.db).leases
          × ((λ j. find j (db_after (scheduled now r s.db o) s.db).leases)
              ≡ scheduled_as now r o (leases_of s))
    parsed (raised error) = (keyed, refl)
    parsed (ok n) = elim (Bool-cases (n == 0)) [
      | inl nothing ↦ simp nothing (keyed, refl)
      | inr some_time ↦ simp some_time (
        put-IsTable s.db.leases r.droplet_id (lease_entry now r n) (unfold lease_entry in refl)
            keyed,
        fun_ext (λ j. find-put r.droplet_id j (lease_entry now r n) s.db.leases),
      )
    ]

cancel-Refines : (now id : ℕ) (s : Site) → IsTable s.db.leases → Refines (cancel now id) s
unfolding apply replay_one cancel_lease db_delete_lease db_record_sensor_destroy update
cancel-Refines now id s keyed =
    (remove-IsTable s.db.leases id keyed, fun_ext (λ j. find-remove id j s.db.leases))

extend-Refines :
    (now id : ℕ) (extra : Text) (s : Site) → IsTable s.db.leases → Refines (extend now id extra) s
unfolding apply replay_one extend_lease extend_by extend_found extended_as update
extend-Refines now id extra s keyed = parsed (parse_duration extra) (find id s.db.leases) refl
  where
    parsed :
        (o : Outcome ValueError ℕ) (held : Option Lease)
        → find id s.db.leases ≡ held
        → IsTable (db_after (extend_by now id s.db o) s.db).leases
          × ((λ j. find j (db_after (extend_by now id s.db o) s.db).leases)
              ≡ extended_as now id o held (leases_of s))
    parsed (raised error) held found = (keyed, refl)
    parsed (ok n) none found = rw found (keyed, refl)
    parsed (ok n) (some l) found =
        let own : l.droplet_id ≡ id = droplet_id-find s.db.leases id l keyed found in
        let longer : IsTable (put id (extended now n l) s.db.leases) =
          put-IsTable s.db.leases id (extended now n l) (unfold extended in sym own) keyed in
        rw found (
          (unfold save_leases in
              save_all-IsTable (put id (extended now n l) s.db.leases) _ (
                delete_missing-IsTable (put id (extended now n l) s.db.leases) s.db.leases s.db
                  keyed)),
          fun_ext (λ j.
              find-save_leases (put id (extended now n l) s.db.leases) s.db j longer
                (put_absent id j (extended now n l) s.db.leases)
              ∙ find-put id j (extended now n l) s.db.leases),
        )

apply-Refines : (op : Op) (s : Site) → IsTable s.db.leases → Refines op s
apply-Refines (schedule now r) s keyed = schedule-Refines now r s keyed
apply-Refines (cancel now id) s keyed = cancel-Refines now id s keyed
apply-Refines (extend now id extra) s keyed = extend-Refines now id extra s keyed
apply-Refines (sweep now cloud) s keyed = (
  (unfold apply in ttl_sweep_job-IsTable now cloud s keyed),
  (unfold apply replay_one in fun_ext (λ j. (ttl_sweep_job_lem now cloud s j keyed).0)),
)

-- From a table of leases with distinct ids, any sequence of scheduling, cancelling, extending and
-- sweeping, failed calls included, ends in such a table, and every lookup in it reads what the same
-- calls make of a function from the ids to the leases.
pub run-replay :
    (ops : List Op) (s : Site)
    → IsTable s.db.leases
    → IsTable (run ops s).db.leases × (leases_of (run ops s) ≡ replay ops (leases_of s))
unfolding run replay
run-replay [] s keyed = (keyed, refl)
run-replay (op ∷ ops) s keyed =
    let (keyed', same) = apply-Refines op s keyed in
    let (keyed'', rest) = run-replay ops (apply op s) keyed' in
    (keyed'', rest ∙ ap (replay ops) same)
