-- ===== src/Deploy/Rows.antt =====
-- What a round of the loop does to the tables and to the machines.
use t_pot_sensor_deployer.Prelude.{
  ℕ, String, Bool, true, false, not, Option, none, some, List, [], ◌∷◌, ◌≡◌, refl, sym, ◌∙◌, inl,
  inr, arith, ◌==◌, nat_key, find, find-put, find-put_self, is_some, Outcome, ok, raised,
  Outcome-cases,
}
use mathlib.Core.Path.{subst}
use t_pot_sensor_deployer.Lease.{Request, schedule_lease, scheduled, record_lease, lease_entry}
use t_pot_sensor_deployer.Duration.{parse_duration, strip}
use t_pot_sensor_deployer.Duration.Bounds.{parse_duration-blank}
use t_pot_sensor_deployer.Duration.Decimal.{Text}
use t_pot_sensor_deployer.Fleet.{
  Db, Sensor, Lease, SensorStatus, db_save_active_droplet, db_save_lease, db_record_sensor_launch,
}
use t_pot_sensor_deployer.Site.{Site}
use t_pot_sensor_deployer.Provision.{ProvisionError, configure_and_verify}
use t_pot_sensor_deployer.Deploy.Create.{Created}
use t_pot_sensor_deployer.Deploy.Setup.{Setup, Plan, Attempt}
use t_pot_sensor_deployer.Deploy.Machine.{
  Job, on_db, log, emit, log_warnings, refresh_edl, save_as, finish_machine, after_configure,
  configure_machine, save_machine, ttl_seconds, new_row, has_ttl, lease_request, lease_machine,
  admin_ssh_port,
}

abbrev pub is_positive : Option ℕ → Bool
is_positive none = false
is_positive (some n) = not (n == 0)

-- Every id with a row, and every id with a lease, keeps one.
abbrev pub Grows : Db → Db → Type 0
Grows d d' =
    ((id : ℕ) → is_some (find id d.sensors) ≡ true → is_some (find id d'.sensors) ≡ true)
    × ((id : ℕ) → is_some (find id d.leases) ≡ true → is_some (find id d'.leases) ≡ true)

pub db_save_active_droplet-Grows : (row : Sensor) (d : Db) → Grows d (db_save_active_droplet row d)
unfolding db_save_active_droplet
db_save_active_droplet-Grows row d =
    (λ id had. ground (arith, find-put row.id id row d.sensors, had), λ id had. had)

pub site-emit :
    (e : Setup) (plan : Plan) (lines : List (String × Option ℕ)) (j : Job)
    → (emit e plan lines j).site ≡ j.site
unfolding emit
site-emit e plan [] j = refl
site-emit e plan (l ∷ lines) j = site-emit e plan lines _

site-log_warnings :
    (e : Setup) (plan : Plan) (ws : List String) (j : Job)
    → (log_warnings e plan ws j).site ≡ j.site
unfolding log_warnings log
site-log_warnings e plan [] j = refl
site-log_warnings e plan (w ∷ ws) j = site-log_warnings e plan ws _

-- The machines are the same, and every row and lease is kept.
abbrev pub Keeps : Site → Site → Type 0
Keeps s s' = (s'.machines ≡ s.machines) × Grows s.db s'.db

-- ... and the id has a row.
abbrev pub Saved : ℕ → Site → Site → Type 0
Saved id s s' = Keeps s s' × (is_some (find id s'.db.sensors) ≡ true)

pub Keeps-Saved : (id : ℕ) (s s1 s2 : Site) → Keeps s s1 → Saved id s1 s2 → Saved id s s2
Keeps-Saved id s s1 s2 (same, (rows, leases)) ((same', (rows', leases')), has) =
    ((same' ∙ same, (λ i had. rows' i (rows i had), λ i had. leases' i (leases i had))), has)

save_as-Saved :
    (status : SensorStatus) (row : Sensor) (j : Job)
    → Saved row.id j.site (save_as status row j).site
unfolding save_as db_save_active_droplet
save_as-Saved status row j = (
  (refl, db_save_active_droplet-Grows (record row { status = status }) j.site.db),
  ground (arith, find-put_self row.id (record row { status = status }) j.site.db.sensors),
)

after_configure-Saved :
    (e : Setup) (plan : Plan) (a : Attempt) (row : Sensor) (j : Job)
    (result : Outcome ProvisionError (List String))
    → Saved row.id j.site (after_configure e plan a row j result).0.site
unfolding after_configure finish_machine log refresh_edl
after_configure-Saved e plan a row j (raised error) =
    save_as-Saved SensorStatus.provision_failed row j
after_configure-Saved e plan a row j (ok warnings) =
    rw site-log_warnings (save_as-Saved SensorStatus.active row j)

configure_machine-Saved :
    (e : Setup) (plan : Plan) (a : Attempt) (row : Sensor) (j : Job)
    → Saved row.id j.site (configure_machine e plan a row j).0.site
unfolding configure_machine
configure_machine-Saved e plan a row j =
    subst (λ s. Saved row.id s (configure_machine e plan a row j).0.site)
      (site-emit e plan a.configure_lines j)
      (after_configure-Saved e plan a row (emit e plan a.configure_lines j)
        (configure_and_verify a.provision plan.sensor_type admin_ssh_port))

-- With the lifespan's seconds known, the machine's row is saved whatever comes after it.
pub save_machine-Saved :
    (e : Setup) (plan : Plan) (a : Attempt) (name : String) (m : Created) (lease : Option Lease)
    (j : Job) (secs : Option ℕ)
    → Saved m.id j.site (save_machine e plan a name m lease j (ok secs)).0.site
unfolding save_machine new_row db_save_active_droplet
save_machine-Saved e plan a name m lease j secs =
    let row : Sensor = new_row plan a name m lease secs in
    Keeps-Saved m.id j.site (on_db (db_save_active_droplet row) j).site
      (configure_machine e plan a row (on_db (db_save_active_droplet row) j)).0.site
      (refl, db_save_active_droplet-Grows row j.site.db)
      (configure_machine-Saved e plan a row (on_db (db_save_active_droplet row) j))

-- What the lease's part leaves: the sensors are the same, no lease is lost, and a lifespan of some
-- seconds has its lease.
abbrev pub Leased : ℕ → Option ℕ → Db → Db → Type 0
Leased id secs d d' =
    (d'.sensors ≡ d.sensors)
    × ((i : ℕ) → is_some (find i d.leases) ≡ true → is_some (find i d'.leases) ≡ true)
    × (is_positive secs ≡ true → is_some (find id d'.leases) ≡ true)

schedule_lease-Leased :
    (now : ℕ) (r : Request) (d : Db) (n : ℕ)
    → parse_duration r.ttl_text ≡ ok n
    → (lease : Option Lease) × (d' : Db) × (schedule_lease now r d ≡ ok (lease, d'))
      × Leased r.droplet_id (some n) d d'
unfolding schedule_lease scheduled record_lease db_save_lease db_record_sensor_launch lease_entry
schedule_lease-Leased now r d n reads = (
  (record_lease now r n d).0,
  (record_lease now r n d).1,
  rw reads refl,
  (
    ground arith,
    λ i had. ground (arith, had, find-put r.droplet_id i (lease_entry now r n) d.leases),
    λ some_time.
        ground (arith, some_time, find-put_self r.droplet_id (lease_entry now r n) d.leases),
  ),
)

pub lease_machine-Leased :
    (ttl : Option Text) (plan : Plan) (a : Attempt) (name : String) (m : Created) (d : Db)
    (secs : Option ℕ)
    → ttl_seconds ttl ≡ ok secs
    → (lease : Option Lease) × (d' : Db) × (lease_machine ttl plan a name m d ≡ ok (lease, d'))
      × Leased m.id secs d d'
unfolding lease_machine ttl_seconds has_ttl lease_request
lease_machine-Leased none plan a name m d secs reads =
    (none, d, refl, (refl, λ i had. had, λ some_time. ground (arith, reads, some_time)))
lease_machine-Leased (some []) plan a name m d secs reads = (
  none,
  d,
  unfold strip in refl,
  (refl, λ i had. had, λ some_time. ground (arith, reads, some_time)),
)
lease_machine-Leased (some (c ∷ s)) plan a name m d secs reads =
    elim (Outcome-cases (parse_duration (c ∷ s))) [
      | inl (error, bad) ↦ absurd (ground (arith, bad, reads))
      | inr (n, good) ↦
          let named : secs ≡ some n = ground (arith, good, reads) in
          go n good named (strip (c ∷ s)) refl
    ]
  where
    go :
        (n : ℕ)
        → parse_duration (c ∷ s) ≡ ok n
        → secs ≡ some n
        → (t : Text) → strip (c ∷ s) ≡ t
        → (lease : Option Lease) × (d' : Db) × (lease_machine (some (c ∷ s)) plan a name m d
            ≡ ok (lease, d'))
          × Leased m.id secs d d'
    go n good named [] blank = absurd (parse_duration-blank c s n blank good)
    go n good named (x ∷ t) full =
        let (lease, d', made, kept) =
          schedule_lease-Leased a.leased_at (lease_request (c ∷ s) plan a name m) d n good in
        (
          lease,
          d',
          (let has : has_ttl (some (c ∷ s)) ≡ true = rw (has_ttl, full) refl in
              rw (lease_machine, has) made),
          subst (λ o. Leased m.id o d d') (sym named) kept,
        )
