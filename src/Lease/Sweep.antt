-- ===== src/Lease/Sweep.antt =====
-- What the expiry sweep removes, and what it leaves.
use t_pot_sensor_deployer.Prelude.{
  ℕ, Bool, true, false, Option, none, some, List, [], ◌∷◌, ◌++◌, map, ◌≡◌, refl, sym, ◌∙◌, arith,
  inl, inr, Bool-cases, ◌==◌, if◌then◌else◌, nat_key, Table, find, find-remove, any_of, keep,
}
use mathlib.Core.List.{append_assoc, append-nil}
use t_pot_sensor_deployer.Fleet.{
  Db, Lease, db_delete_lease, db_record_sensor_destroy, db_delete_active_droplet, ttl_expired,
}
use t_pot_sensor_deployer.Site.{Site, Cloud, destroy_droplet, destroy_instance}
use t_pot_sensor_deployer.Lease.Defs.{
  Sweep, is_due, tear_down, sweep_leases, release, sweep_expired_leases, drop_sensors,
  ttl_sweep_job, destroy_machine, deregister, refresh_edl,
}
use t_pot_sensor_deployer.Lease.Rows.{IsTable}

-- The ids of the leases that are due, in the order of the table.
unfoldable pub due_ids : ℕ → List Lease → List ℕ
due_ids now leases = map (λ l. l.droplet_id) (keep (is_due now) leases)

db-destroy_machine : (cloud : Cloud) (l : Lease) (s : Site) → (destroy_machine cloud l s).db ≡ s.db
unfolding destroy_machine destroy_droplet destroy_instance
db-destroy_machine cloud l s = ground arith

db-deregister : (l : Lease) (s : Site) → (deregister l s).db ≡ s.db
unfolding deregister
db-deregister l s = ground arith

db-tear_down :
    (now : ℕ) (cloud : Cloud) (l : Lease) (w : Sweep)
    → (tear_down now cloud l w).site.db ≡ w.site.db
unfolding tear_down refresh_edl
db-tear_down now cloud l w =
    db-deregister l (destroy_machine cloud l w.site) ∙ db-destroy_machine cloud l w.site

pub db-sweep_leases :
    (now : ℕ) (cloud : Cloud) (leases : List Lease) (w : Sweep)
    → (sweep_leases now cloud leases w).site.db ≡ w.site.db
unfolding sweep_leases
db-sweep_leases now cloud [] w = refl
db-sweep_leases now cloud (l ∷ leases) w = elim (Bool-cases (is_due now l)) [
  | inl due ↦
      simp due
        (db-sweep_leases now cloud leases (tear_down now cloud l w) ∙ db-tear_down now cloud l w)
  | inr later ↦ simp later (db-sweep_leases now cloud leases w)
]

to_delete-sweep_leases :
    (now : ℕ) (cloud : Cloud) (leases : List Lease) (w : Sweep)
    → (sweep_leases now cloud leases w).to_delete ≡ w.to_delete ++ due_ids now leases
unfolding sweep_leases due_ids keep tear_down refresh_edl
to_delete-sweep_leases now cloud [] w = sym (append-nil w.to_delete)
to_delete-sweep_leases now cloud (l ∷ leases) w = elim (Bool-cases (is_due now l)) [
  | inl due ↦ simp due (
      to_delete-sweep_leases now cloud leases (tear_down now cloud l w)
      ∙ append_assoc w.to_delete (l.droplet_id ∷ []) (due_ids now leases))
  | inr later ↦ simp later (to_delete-sweep_leases now cloud leases w)
]

-- The sweep reports exactly the ids of the leases that are due, in the order of the table,
-- whatever the clouds answer.
pub sweep_expired_leases_lem :
    (now : ℕ) (cloud : Cloud) (s : Site)
    → (sweep_expired_leases now cloud s).0 ≡ due_ids now (map (λ r. r.1) s.db.leases)
unfolding sweep_expired_leases
sweep_expired_leases_lem now cloud s =
    to_delete-sweep_leases now cloud (map (λ r. r.1) s.db.leases) _

find-release :
    (now : ℕ) (ids : List ℕ) (db : Db) (j : ℕ)
    → find j (release now ids db).leases
      ≡ (if any_of (λ i. i == j) ids then none else find j db.leases)
unfolding release db_delete_lease db_record_sensor_destroy
find-release now [] db j = refl
find-release now (id ∷ ids) db j = ground (
  arith,
  find-release now ids (db_delete_lease id (db_record_sensor_destroy now ttl_expired id db)).0 j,
  find-remove id j db.leases,
)

sensors-release : (now : ℕ) (ids : List ℕ) (db : Db) → (release now ids db).sensors ≡ db.sensors
unfolding release db_delete_lease db_record_sensor_destroy
sensors-release now [] db = refl
sensors-release now (id ∷ ids) db = sensors-release now ids _

pub leases-drop_sensors : (ids : List ℕ) (db : Db) → (drop_sensors ids db).leases ≡ db.leases
unfolding drop_sensors db_delete_active_droplet
leases-drop_sensors [] db = refl
leases-drop_sensors (id ∷ ids) db = leases-drop_sensors ids _

find-drop_sensors :
    (ids : List ℕ) (db : Db) (j : ℕ)
    → find j (drop_sensors ids db).sensors
      ≡ (if any_of (λ i. i == j) ids then none else find j db.sensors)
unfolding drop_sensors db_delete_active_droplet
find-drop_sensors [] db j = refl
find-drop_sensors (id ∷ ids) db j =
    ground (
      arith,
      find-drop_sensors ids (db_delete_active_droplet id db).0 j,
      find-remove id j db.sensors,
    )

-- Whether the lease of an id is due, in a table.
unfoldable pub is_swept : ℕ → Option Lease → Bool
is_swept now none = false
is_swept now (some l) = is_due now l

due_ids-none :
    (now : ℕ) (t : Table ℕ Lease) (j : ℕ)
    → IsTable t
    → find j t ≡ none
    → any_of (λ i. i == j) (due_ids now (map (λ r. r.1) t)) ≡ false
unfolding due_ids keep IsTable find
due_ids-none now [] j keyed gone = refl
due_ids-none now ((k, l) ∷ t) j (own, apart, rest) gone =
    ground (arith, due_ids-none now t j rest, own, gone)

due_ids-is_swept :
    (now : ℕ) (t : Table ℕ Lease) (j : ℕ)
    → IsTable t
    → any_of (λ i. i == j) (due_ids now (map (λ r. r.1) t)) ≡ is_swept now (find j t)
unfolding due_ids keep IsTable find is_swept
due_ids-is_swept now [] j keyed = refl
due_ids-is_swept now ((k, l) ∷ t) j (own, apart, rest) = elim (Bool-cases (k == j)) [
  | inl same ↦
      let eq : k ≡ j = (nat_key.is_same_iff k j).0 same in
      let free : find j t ≡ none = cc (eq, apart) in
      ground (arith, due_ids-none now t j rest free, same, own, eq)
  | inr other ↦ ground (arith, due_ids-is_swept now t j rest, other, own)
]

-- Over leases with distinct ids the sweep's job removes the lease and the tracked sensor of every
-- id whose lease is due, and leaves all other leases and sensors as they were.
pub ttl_sweep_job_lem :
    (now : ℕ) (cloud : Cloud) (s : Site) (j : ℕ)
    → IsTable s.db.leases
    → (find j (ttl_sweep_job now cloud s).db.leases
        ≡ (if is_swept now (find j s.db.leases) then none else find j s.db.leases))
      × (find j (ttl_sweep_job now cloud s).db.sensors
          ≡ (if is_swept now (find j s.db.leases) then none else find j s.db.sensors))
unfolding ttl_sweep_job sweep_expired_leases
ttl_sweep_job_lem now cloud s j keyed = (
  simp
      (
        leases-drop_sensors,
        find-release,
        to_delete-sweep_leases,
        db-sweep_leases,
        due_ids-is_swept now s.db.leases j keyed,
      )
      refl,
  simp
      (
        find-drop_sensors,
        sensors-release,
        to_delete-sweep_leases,
        db-sweep_leases,
        due_ids-is_swept now s.db.leases j keyed,
      )
      refl,
)

due_ids-find :
    (now : ℕ) (t : Table ℕ Lease) (j : ℕ) (l : Lease)
    → find j t ≡ some l
    → l.droplet_id ≡ j
    → is_due now l ≡ true
    → any_of (λ i. i == j) (due_ids now (map (λ r. r.1) t)) ≡ true
unfolding due_ids keep find
due_ids-find now [] j l found own due = absurd (ground (arith, found))
due_ids-find now ((k, l') ∷ t) j l found own due = elim (Bool-cases (k == j)) [
  | inl same ↦ ground (arith, found, own, due, same, nat_key.is_same_iff l.droplet_id j)
  | inr other ↦ ground (arith, found, due_ids-find now t j l, own, due, other)
]

-- No lease that is stored under its droplet's id is due.
unfoldable pub NoneDue : ℕ → Db → Type 0
NoneDue now db =
    (j : ℕ) (l : Lease) → find j db.leases ≡ some l → l.droplet_id ≡ j → is_due now l ≡ false

pub ttl_sweep_job-NoneDue :
    (now : ℕ) (cloud : Cloud) (s : Site) → NoneDue now (ttl_sweep_job now cloud s).db
unfolding NoneDue ttl_sweep_job sweep_expired_leases
ttl_sweep_job-NoneDue now cloud s j l left own =
    let ids : List ℕ = due_ids now (map (λ r. r.1) s.db.leases) in
    let after : find j (ttl_sweep_job now cloud s).db.leases
        ≡ (if any_of (λ i. i == j) ids then none else find j s.db.leases) =
      simp (leases-drop_sensors, find-release, to_delete-sweep_leases, db-sweep_leases) refl in
    elim (Bool-cases (is_due now l)) [
      | inr later ↦ later
      | inl due ↦ ground (arith, after, left, due_ids-find now s.db.leases j l, own, due)
    ]
