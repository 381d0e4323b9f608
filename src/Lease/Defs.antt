-- ===== src/Lease/Defs.antt =====
-- The operations of `TTLManager` on the database, and the sweep.
use t_pot_sensor_deployer.Prelude.{
  ℕ, String, ◌+◌, ◌-◌, Bool, false, Option, none, some, List, [], ◌∷◌, ◌++◌, map, leb, ◌==◌,
  if◌then◌else◌, nat_key, string_key, Table, find, put, is_some, or_else, Outcome, ok, raised,
}
use t_pot_sensor_deployer.Duration.{seconds, ValueError, parse_duration, format_remaining}
use t_pot_sensor_deployer.Duration.Decimal.{Text}
use t_pot_sensor_deployer.Fleet.{
  Db, Lease, Stamp, at, fromisoformat, Provider, digitalocean, is_gcp, is_digitalocean, ttl_expired,
  cancelled_by_user, db_save_lease, db_delete_lease, db_record_sensor_launch,
  db_record_sensor_destroy, db_delete_active_droplet,
}
use t_pot_sensor_deployer.Hive.{deregister_sensor}
use t_pot_sensor_deployer.Edl.{Edl, write_edl_file}
use t_pot_sensor_deployer.Site.{Site, Cloud, destroy_droplet, destroy_instance, new_edl}

-- `sensor_user or droplet_name`
unfoldable pub user_or_name : Option String → String → String
user_or_name none name = name
user_or_name (some user) name = if user == "" then name else user

pub record Request : Type 0 where
  pub droplet_id : ℕ
  pub droplet_name : String
  pub ttl_text : Text
  pub sensor_user : Option String
  pub sensor_type : String
  pub provider : Provider
  pub region : Option String

unfoldable pub lease_entry : ℕ → Request → ℕ → Lease
unfolding user_or_name
lease_entry now r ttl_seconds = record {
  droplet_id = r.droplet_id;
  droplet_name = r.droplet_name;
  sensor_user = user_or_name r.sensor_user r.droplet_name;
  ttl = r.ttl_text;
  ttl_seconds = ttl_seconds;
  created_at = now;
  expires_at = at (now + seconds ttl_seconds);
  provider = r.provider;
  region = r.region;
}

-- The launch is recorded with the default provider, whatever the lease's is.
unfoldable pub record_lease : ℕ → Request → ℕ → Db → Option Lease × Db
unfolding lease_entry
record_lease now r ttl_seconds db = if ttl_seconds == 0 then (none, db) else (
  some (lease_entry now r ttl_seconds),
  db_record_sensor_launch r.droplet_id r.droplet_name r.sensor_type digitalocean now
      (db_save_lease (lease_entry now r ttl_seconds) db),
)

unfoldable pub scheduled :
    ℕ → Request → Db → Outcome ValueError ℕ → Outcome ValueError (Option Lease × Db)
scheduled now r db (ok ttl_seconds) = ok (record_lease now r ttl_seconds db)
scheduled now r db (raised e) = raised e

-- `none` is the empty result of a duration of 0.
unfoldable pub schedule_lease : ℕ → Request → Db → Outcome ValueError (Option Lease × Db)
unfolding scheduled
schedule_lease now r db = scheduled now r db (parse_duration r.ttl_text)

unfoldable pub cancel_lease : ℕ → ℕ → Db → Db × Bool
cancel_lease now id db = db_delete_lease id (db_record_sensor_destroy now cancelled_by_user id db)

unfoldable pub delete_missing : Table ℕ Lease → Table ℕ Lease → Db → Db
delete_missing leases [] db = db
delete_missing leases ((id, l) ∷ current) db =
    delete_missing leases current
      (if is_some (find id leases) then db else (db_delete_lease id db).0)

unfoldable pub save_all : Table ℕ Lease → Db → Db
save_all [] db = db
save_all ((id, l) ∷ leases) db = save_all leases (db_save_lease l db)

-- Deletes the rows that are not in `leases`, and writes every one that is.
unfoldable pub save_leases : Table ℕ Lease → Db → Db
unfolding delete_missing save_all
save_leases leases db = save_all leases (delete_missing leases db.leases db)

unfoldable pub extended : ℕ → ℕ → Lease → Lease
extended now extra l = record l {
  expires_at = at (or_else (fromisoformat l.expires_at) now + seconds extra);
}

unfoldable pub extend_found : ℕ → ℕ → ℕ → Option Lease → Db → Option Lease × Db
unfolding extended save_leases
extend_found now id extra none db = (none, db)
extend_found now id extra (some l) db =
    (some (extended now extra l), save_leases (put id (extended now extra l) db.leases) db)

unfoldable pub extend_by :
    ℕ → ℕ → Db → Outcome ValueError ℕ → Outcome ValueError (Option Lease × Db)
extend_by now id db (ok extra) = ok (extend_found now id extra (find id db.leases) db)
extend_by now id db (raised e) = raised e

-- Instants have no bound; the code raises OverflowError for an expiry past the year 9999.
unfoldable pub extend_lease : ℕ → ℕ → Text → Db → Outcome ValueError (Option Lease × Db)
unfolding extend_by
extend_lease now id extra_ttl_text db = extend_by now id db (parse_duration extra_ttl_text)

-- A lease with its time left; a text that is no timestamp counts as expired.
pub record Info : Type 0 where
  pub lease : Lease
  pub remaining : ℕ
  pub remaining_formatted : Text
  pub is_expired : Bool

-- What is left until `exp`, 0 where it has passed.
time_left : ℕ → Stamp → ℕ
time_left now s = or_else (fromisoformat s) 0 - now

info : ℕ → Lease → Info
unfolding time_left
info now l = record {
  lease = l;
  remaining = time_left now l.expires_at;
  remaining_formatted = format_remaining (time_left now l.expires_at);
  is_expired = time_left now l.expires_at == 0;
}

unfoldable pub get_lease : ℕ → ℕ → Db → Option Info
unfolding info
get_lease now id db = elim (find id db.leases) [ none ↦ none | some l ↦ some (info now l) ]

unfoldable pub get_all_leases : ℕ → Db → Table ℕ Info
unfolding info
get_all_leases now db = map (λ r. (r.0, info now r.1)) db.leases

-- `now >= exp`; a text that is no timestamp is passed over.
unfoldable pub is_due : ℕ → Lease → Bool
is_due now l = elim (fromisoformat l.expires_at) [ none ↦ false | some exp ↦ leb exp now ]

-- The variables of the sweep's loop: the site, the one `EDLManager`, whether `do_client_for_edl` is
-- set, and `to_delete`.
pub record Sweep : Type 0 where
  pub site : Site
  pub edl : Edl
  pub listing : Bool
  pub to_delete : List ℕ

unfoldable pub destroy_machine : Cloud → Lease → Site → Site
destroy_machine cloud l s =
    if cloud.configured l.provider
    then (if is_gcp l.provider
        then destroy_instance cloud l.droplet_name s
        else destroy_droplet cloud l.droplet_id s)
    else s

-- `entry.get("sensor_user") or droplet_name`
unfoldable pub login_of : Lease → String
login_of l = if l.sensor_user == "" then l.droplet_name else l.sensor_user

unfoldable pub deregister : Lease → Site → Site
unfolding login_of
deregister l s =
    if login_of l == "" then s else record s { hive = deregister_sensor (login_of l) s.hive }

unfoldable pub refresh_edl : ℕ → Cloud → Sweep → Sweep
refresh_edl now cloud w =
    let edl =
      write_edl_file now (if w.listing then cloud.list_droplets else none) w.site.db w.edl in
    record w { edl = edl; site = record w.site { published = edl.file } }

-- The body of the loop, for a lease that is due.
unfoldable pub tear_down : ℕ → Cloud → Lease → Sweep → Sweep
unfolding destroy_machine deregister refresh_edl
tear_down now cloud l w =
    let w' = refresh_edl now cloud (record w {
      site = deregister l (destroy_machine cloud l w.site);
      listing = if is_digitalocean l.provider then cloud.configured digitalocean else w.listing;
    }) in
    record w' { to_delete = w'.to_delete ++ l.droplet_id ∷ [] }

unfoldable pub sweep_leases : ℕ → Cloud → List Lease → Sweep → Sweep
sweep_leases now cloud [] w = w
sweep_leases now cloud (l ∷ leases) w =
    sweep_leases now cloud leases (if is_due now l then tear_down now cloud l w else w)

unfoldable pub release : ℕ → List ℕ → Db → Db
release now [] db = db
release now (id ∷ ids) db =
    release now ids (db_delete_lease id (db_record_sensor_destroy now ttl_expired id db)).0

unfoldable pub sweep_expired_leases : ℕ → Cloud → Site → List ℕ × Site
unfolding sweep_leases release
sweep_expired_leases now cloud s =
    let w =
      sweep_leases now cloud (map (λ r. r.1) s.db.leases)
        (record { site = s; edl = new_edl s; listing = false; to_delete = [] }) in
    (w.to_delete, record w.site { db = release now w.to_delete w.site.db })

unfoldable pub drop_sensors : List ℕ → Db → Db
drop_sensors [] db = db
drop_sensors (id ∷ ids) db = drop_sensors ids (db_delete_active_droplet id db).0

-- The worker's job: a sweep, then the swept sensors leave active_droplets.
unfoldable pub ttl_sweep_job : ℕ → Cloud → Site → Site
unfolding drop_sensors
ttl_sweep_job now cloud s =
    let (destroyed, s') = sweep_expired_leases now cloud s in
    record s' { db = drop_sensors destroyed s'.db }
