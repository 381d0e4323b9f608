-- ===== src/Http/Renewed.antt =====
-- A new lifespan of a tracked sensor, and the sweeps after it.
use t_pot_sensor_deployer.Prelude.{
  ℕ, suc, ◌+◌, false, true, not, none, some, ◌∷◌, ◌≡◌, refl, arith, leb, ◌==◌, if◌then◌else◌,
  nat_key, find, is_some, ok, is_ok,
}
use t_pot_sensor_deployer.Duration.{seconds, parse_duration}
use t_pot_sensor_deployer.Duration.Decimal.{Text}
use t_pot_sensor_deployer.Fleet.{
  Db, Sensor, Lease, digitalocean, at, db_save_lease, db_record_sensor_launch,
}
use t_pot_sensor_deployer.Site.{Site, Cloud}
use t_pot_sensor_deployer.Lease.{
  Request, schedule_lease, scheduled, record_lease, lease_entry, ttl_sweep_job, is_due,
}
use t_pot_sensor_deployer.Lease.Rows.{IsTable, put-IsTable}
use t_pot_sensor_deployer.Lease.Sweep.{is_swept, ttl_sweep_job_lem}
use t_pot_sensor_deployer.Prelude.{find-put_self}
use t_pot_sensor_deployer.Http.{Server, Call, on_db}
use t_pot_sensor_deployer.Http.Sensors.{renewal, renewed, renew_tracked, renew, update_droplet_ttl}

-- What the sensor is after a sweep at `t`, if its lifespan ends at `until`.
unfoldable pub Outlives : ℕ → ℕ → ℕ → Sensor → Db → Type 0
Outlives t until id row db =
    (is_some (find id db.leases) ≡ not (leb until t))
    × (find id db.sensors ≡ (if leb until t then none else some row))

-- A database that has the lease, swept.
swept-Outlives :
    (t until : ℕ) (cloud : Cloud) (s : Site) (id : ℕ) (row : Sensor) (l : Lease)
    → IsTable s.db.leases
    → find id s.db.leases ≡ some l
    → l.expires_at ≡ at until
    → find id s.db.sensors ≡ some row
    → Outlives t until id row (ttl_sweep_job t cloud s).db
unfolding Outlives is_swept is_due
swept-Outlives t until cloud s id row l keyed held ends tracked =
    let (leases, sensors) = ttl_sweep_job_lem t cloud s id keyed in
    ground (arith, leases, sensors, held, ends, tracked)

record_lease-Outlives :
    (c : Call) (t : ℕ) (cloud : Cloud) (r : Request) (n : ℕ) (s : Site) (row : Sensor)
    → IsTable s.db.leases
    → find r.droplet_id s.db.sensors ≡ some row
    → Outlives t
        (c.now + seconds (suc n))
        r.droplet_id
        row
        (ttl_sweep_job t cloud (record s { db = (record_lease c.now r (suc n) s.db).1 })).db
unfolding record_lease db_save_lease db_record_sensor_launch lease_entry
record_lease-Outlives c t cloud r n s row keyed tracked =
    let l : Lease = lease_entry c.now r (suc n) in
    let some_time : (suc n == 0) ≡ false = ground arith in
    let db : Db =
      db_record_sensor_launch r.droplet_id r.droplet_name r.sensor_type digitalocean c.now
        (db_save_lease l s.db) in
    simp some_time (
      swept-Outlives t (c.now + seconds (suc n)) cloud (record s { db = db }) r.droplet_id row l
        (put-IsTable s.db.leases r.droplet_id l refl keyed)
        (find-put_self r.droplet_id l s.db.leases) refl tracked)

-- Over leases with distinct ids, giving a tracked sensor a lifespan that reads as more than 0 seconds
-- is answered with success, and then a sweep at any time destroys the sensor's row and lease exactly
-- if the lifespan has passed.
pub update_droplet_ttl-Outlives :
    (c : Call) (id d : ℕ) (ttl : Text) (v : Server) (row : Sensor) (n t : ℕ) (cloud : Cloud)
    → IsTable v.site.db.leases
    → find id v.site.db.sensors ≡ some row
    → parse_duration (d ∷ ttl) ≡ ok (suc n)
    → let (v', o) = update_droplet_ttl c id (record { ttl = some (d ∷ ttl); cancel = false }) v in
      (is_ok o ≡ true)
      × Outlives t (c.now + seconds (suc n)) id row (ttl_sweep_job t cloud v'.site).db
unfolding update_droplet_ttl renew renew_tracked renewed renewal schedule_lease scheduled on_db
update_droplet_ttl-Outlives c id d ttl v row n t cloud keyed tracked reads =
    rw (tracked, reads)
      (refl, record_lease-Outlives c t cloud (renewal id (d ∷ ttl) row) n v.site row keyed tracked)
