-- ===== src/Fleet/Reconciled.antt =====
-- What the manual sync leaves of each row.
use t_pot_sensor_deployer.Prelude.{
  ℕ, suc, Bool, false, ◌&&◌, Option, none, some, List, [], ◌∷◌, ◌≡◌, refl, ◌∙◌, arith, ◌==◌,
  if◌then◌else◌, nat_key, Table, find, put, remove, keys, put-Distinct, is_some, find-put,
  find-remove, any_of, Distinct, inl, inr, Bool-cases,
}
use t_pot_sensor_deployer.Fleet.{Db, Sensor, Lease, is_digitalocean}
use t_pot_sensor_deployer.Fleet.Sync.{
  CloudDroplet, droplet_row, save_listed, is_listed, is_gone, delete_gone, db_sync_active_droplets,
}

-- The last droplet of the listing that has the id.
unfoldable pub listing_of : List CloudDroplet → ℕ → Option CloudDroplet
listing_of [] id = none
listing_of (d ∷ ds) id = elim (listing_of ds id) [
  | some later ↦ some later
  | none ↦ if d.id == id then some d else none
]

-- What a row is after the sync, from its listing, its lease and what it was.
unfoldable pub row_after : ℕ → Option CloudDroplet → Option Lease → Option Sensor → Option Sensor
row_after now (some d) lease old = some (droplet_row now d lease)
row_after now none lease none = none
row_after now none lease (some s) = if is_digitalocean s.provider then none else some s

-- A row after the first loop.
saved_row : ℕ → Option CloudDroplet → Option Lease → Option Sensor → Option Sensor
saved_row now none lease old = old
saved_row now (some d) lease old = some (droplet_row now d lease)

find-save_listed :
    (now : ℕ) (leases : Table ℕ Lease) (ds : List CloudDroplet) (t : Table ℕ Sensor) (id : ℕ)
    → find id (save_listed now leases ds t)
      ≡ saved_row now (listing_of ds id) (find id leases) (find id t)
unfolding save_listed listing_of saved_row
find-save_listed now leases [] t id = refl
find-save_listed now leases (d ∷ ds) t id =
    let row = droplet_row now d (find d.id leases) in
    ground (
      arith,
      find-save_listed now leases ds (put d.id row t) id,
      find-put d.id id row t,
      nat_key.is_same_iff d.id id,
    )

find-delete_gone :
    (ds : List CloudDroplet) (rows : Table ℕ Sensor) (n : ℕ) (t : Table ℕ Sensor) (id : ℕ)
    → find id (delete_gone ds rows n t).1
      ≡ (if any_of (λ r. r.0 == id && is_gone ds r) rows then none else find id t)
unfolding delete_gone
find-delete_gone ds [] n t id = refl
find-delete_gone ds ((j, s) ∷ rows) n t id = elim (Bool-cases (is_gone ds (j, s))) [
  | inl gone ↦
      simp gone
        (ground (arith, find-delete_gone ds rows (suc n) (remove j t) id, find-remove j id t))
  | inr stays ↦ simp stays (ground (arith, find-delete_gone ds rows n t id))
]

-- Whether the row of an id is one to delete, read from the table.
gone_row : List CloudDroplet → ℕ → Option Sensor → Bool
gone_row ds id none = false
gone_row ds id (some s) = is_gone ds (id, s)

not_gone :
    (ds : List CloudDroplet) (t : Table ℕ Sensor) (id : ℕ)
    → any_of (λ j. j == id) (keys t) ≡ false
    → any_of (λ r. r.0 == id && is_gone ds r) t ≡ false
unfolding keys
not_gone ds [] id apart = refl
not_gone ds ((j, s) ∷ t) id apart = ground (arith, apart, not_gone ds t id)

gone-find :
    (ds : List CloudDroplet) (t : Table ℕ Sensor) (id : ℕ)
    → Distinct (keys t)
    → any_of (λ r. r.0 == id && is_gone ds r) t ≡ gone_row ds id (find id t)
unfolding find gone_row Distinct keys
gone-find ds [] id apart = refl
gone-find ds ((j, s) ∷ t) id (free, apart) =
    ground (arith, free, gone-find ds t id apart, not_gone ds t j free, nat_key.is_same_iff j id)

save_listed-Distinct :
    (now : ℕ) (leases : Table ℕ Lease) (ds : List CloudDroplet) (t : Table ℕ Sensor)
    → Distinct (keys t)
    → Distinct (keys (save_listed now leases ds t))
unfolding save_listed
save_listed-Distinct now leases [] t apart = apart
save_listed-Distinct now leases (d ∷ ds) t apart =
    save_listed-Distinct now leases ds _
      (put-Distinct d.id (droplet_row now d (find d.id leases)) t apart)

is_listed-listing_of :
    (ds : List CloudDroplet) (id : ℕ) → is_listed ds id ≡ is_some (listing_of ds id)
unfolding is_listed listing_of
is_listed-listing_of [] id = refl
is_listed-listing_of (d ∷ ds) id = ground (arith, is_listed-listing_of ds id)

-- Both loops on one row.
settled :
    (now : ℕ) (ds : List CloudDroplet) (id : ℕ) (o : Option CloudDroplet) (lease : Option Lease)
    (old : Option Sensor)
    → is_listed ds id ≡ is_some o
    → (if gone_row ds id (saved_row now o lease old) then none else saved_row now o lease old)
      ≡ row_after now o lease old
unfolding row_after saved_row gone_row is_gone droplet_row
settled now ds id (some d) lease old listed = ground (arith, listed)
settled now ds id none lease none listed = refl
settled now ds id none lease (some s) listed = ground (arith, listed)

-- Over sensors with distinct ids, the sync makes the row of each listed droplet from the last of its
-- listings and its lease, whatever the row was; it deletes every other DigitalOcean row, and leaves
-- every other row of another provider as it was.
pub db_sync_active_droplets_lem :
    (now : ℕ) (ds : List CloudDroplet) (db : Db) (id : ℕ)
    → Distinct (keys db.sensors)
    → find id (db_sync_active_droplets now ds db).0.sensors
      ≡ row_after now (listing_of ds id) (find id db.leases) (find id db.sensors)
unfolding db_sync_active_droplets
db_sync_active_droplets_lem now ds db id apart =
    let saved : Table ℕ Sensor = save_listed now db.leases ds db.sensors in
    let read = find-save_listed now db.leases ds db.sensors id in
    let kept = find-delete_gone ds saved 0 saved id in
    let gone = gone-find ds saved id (save_listed-Distinct now db.leases ds db.sensors apart) in
    kept
    ∙ rw (gone, read)
        (settled now ds id (listing_of ds id) (find id db.leases) (find id db.sensors)
          (is_listed-listing_of ds id))
