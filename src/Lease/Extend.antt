-- ===== src/Lease/Extend.antt =====
-- Extending a lease: the lease that is extended, and the others.
use t_pot_sensor_deployer.Prelude.{
  ℕ, ◌+◌, Option, none, some, [], ◌∷◌, ◌≡◌, refl, sym, ◌∙◌, arith, inl, inr, ◌==◌, if◌then◌else◌,
  nat_key, Table, find, put, find-put, find-remove, Option-cases, ok,
}
use t_pot_sensor_deployer.Duration.{seconds, parse_duration}
use t_pot_sensor_deployer.Duration.Decimal.{Text}
use t_pot_sensor_deployer.Fleet.{Db, Lease, at, db_save_lease, db_delete_lease}
use t_pot_sensor_deployer.Lease.Defs.{
  delete_missing, save_all, save_leases, extended, extend_found, extend_by, extend_lease,
}
use t_pot_sensor_deployer.Lease.Rows.{IsTable, put-IsTable, droplet_id-find}

-- The row of an id in one table, and where it has none the row in another.
abbrev over : Option Lease → Option Lease → Option Lease
over none o = o
over (some l) o = some l

find-save_all :
    (t : Table ℕ Lease) (db : Db) (j : ℕ)
    → IsTable t
    → find j (save_all t db).leases ≡ over (find j t) (find j db.leases)
unfolding save_all IsTable db_save_lease find
find-save_all [] db j keyed = refl
find-save_all ((id, l) ∷ t) db j (own, apart, rest) = ground (
  arith,
  find-save_all t (db_save_lease l db) j rest,
  find-put l.droplet_id j l db.leases,
  own,
  apart,
  nat_key.is_same_iff id j,
)

-- Deleting brings no row back.
delete_missing-none :
    (t current : Table ℕ Lease) (db : Db) (j : ℕ)
    → find j db.leases ≡ none
    → find j (delete_missing t current db).leases ≡ none
unfolding delete_missing db_delete_lease
delete_missing-none t [] db j gone = gone
delete_missing-none t ((id, l) ∷ current) db j gone =
    delete_missing-none t current _ j (ground (arith, find-remove id j db.leases, gone))

pub find-save_leases :
    (t : Table ℕ Lease) (db : Db) (j : ℕ)
    → IsTable t
    → (find j t ≡ none → find j db.leases ≡ none)
    → find j (save_leases t db).leases ≡ find j t
unfolding save_leases
find-save_leases t db j keyed absent = elim (Option-cases (find j t)) [
  | inl gone ↦
      simp (find-save_all t (delete_missing t db.leases db) j keyed, gone)
        (delete_missing-none t db.leases db j (absent gone))
  | inr (l, found) ↦ simp (find-save_all t (delete_missing t db.leases db) j keyed, found) refl
]

pub put_absent :
    (id j : ℕ) (l : Lease) (t : Table ℕ Lease) → find j (put id l t) ≡ none → find j t ≡ none
put_absent id j l t gone = ground (arith, find-put id j l t, gone)

-- Over leases with distinct ids, extending one whose expiry can be read by a duration that parses
-- returns and stores it with exactly that much more time, and leaves every other lease as it was.
pub extend_lease_lem :
    (now id exp extra : ℕ) (extra_ttl_text : Text) (l : Lease) (db : Db)
    → IsTable db.leases
    → find id db.leases ≡ some l
    → l.expires_at ≡ at exp
    → parse_duration extra_ttl_text ≡ ok extra
    → (db' : Db) × (extend_lease now id extra_ttl_text db
        ≡ ok (some (record l { expires_at = at (exp + seconds extra) }), db'))
      × ((j : ℕ)
          → find j db'.leases ≡ (
              if id == j
              then some (record l { expires_at = at (exp + seconds extra) })
              else find j db.leases))
unfolding extend_lease extend_by extend_found extended
extend_lease_lem now id exp extra extra_ttl_text l db keyed found until parsed =
    let ext : Lease = record l { expires_at = at (exp + seconds extra) } in
    (
      save_leases (put id ext db.leases) db,
      simp (parsed, found, until) refl,
      λ j.
          find-save_leases (put id ext db.leases) db j
            (put-IsTable db.leases id ext (sym (droplet_id-find db.leases id l keyed found)) keyed)
            (put_absent id j ext db.leases)
          ∙ find-put id j ext db.leases,
    )
