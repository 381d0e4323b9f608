-- ===== src/Fleet.antt =====
-- app/db.py (leases, active_droplets, fleet_history, static_ips) and the records of app/models.py.
-- A stored timestamp is an instant in microseconds, or a text that `datetime.fromisoformat` refuses.
-- SQLite's upsert and delete are those of a table by its primary key.
pub mod Records
pub mod Sync
pub mod Reconciled
pub use Records.*
use t_pot_sensor_deployer.Prelude.{
  ℕ, String, Bool, true, false, ◌&&◌, ◌||◌, not, Option, none, some, List, [], ◌∷◌, ◌++◌, map, leb,
  ltb, ◌==◌, if◌then◌else◌, nat_key, string_key, Table, find, put, remove, is_some, starts_with,
  any_of, keep, order_by,
}

pub record Db : Type 0 where
  pub sensors : Table ℕ Sensor
  pub leases : Table ℕ Lease
  pub launches : List Launch
  pub statics : Table String Static

unfoldable pub db_save_lease : Lease → Db → Db
db_save_lease l db = record db { leases = put l.droplet_id l db.leases }

unfoldable pub db_delete_lease : ℕ → Db → Db × Bool
db_delete_lease id db = (record db { leases = remove id db.leases }, is_some (find id db.leases))

unfoldable pub db_save_active_droplet : Sensor → Db → Db
db_save_active_droplet s db = record db { sensors = put s.id s db.sensors }

unfoldable pub db_delete_active_droplet : ℕ → Db → Db × Bool
db_delete_active_droplet id db =
    (record db { sensors = remove id db.sensors }, is_some (find id db.sensors))

-- The provider has a default, and no caller passes another.
unfoldable pub db_record_sensor_launch : ℕ → String → String → Provider → ℕ → Db → Db
db_record_sensor_launch id name sensor_type provider created_at db = record db {
  launches =
      db.launches
      ++ record {
        droplet_id = id;
        name = name;
        sensor_type = sensor_type;
        provider = provider;
        created_at = created_at;
        destroyed_at = none;
        reason = none;
      }
        ∷ [];
}

unfoldable pub close_launch : ℕ → Reason → ℕ → Launch → Launch
close_launch now reason id l =
    if l.droplet_id == id && not (is_some l.destroyed_at)
    then record l { destroyed_at = some now; reason = some reason }
    else l

-- Closes every open row of the sensor.
unfoldable pub db_record_sensor_destroy : ℕ → Reason → ℕ → Db → Db
unfolding close_launch
db_record_sensor_destroy now reason id db = record db {
  launches = map (close_launch now reason id) db.launches;
}

unfoldable pub db_add_static_ip : String → String → ℕ → Db → Db
db_add_static_ip ip comment added_at db = record db {
  statics = put ip (record { ip = ip; comment = comment; added_at = added_at }) db.statics;
}

unfoldable pub db_remove_static_ip : String → Db → Db × Bool
db_remove_static_ip ip db =
    (record db { statics = remove ip db.statics }, is_some (find ip db.statics))

abbrev rows : {K V : Type 0} → Table K V → List V
rows t = map (λ r. r.1) t

-- SELECT * FROM static_ips ORDER BY added_at ASC
unfoldable pub db_get_static_ips : Db → List Static
db_get_static_ips db = order_by (λ a b. ltb a.added_at b.added_at) (rows db.statics)

-- SELECT * FROM active_droplets ORDER BY created_at DESC
unfoldable pub db_get_all_active_droplets : Db → List Sensor
db_get_all_active_droplets db = order_by (λ a b. ltb b.created_at a.created_at) (rows db.sensors)

unfoldable pub is_scheduled : List String → Bool
is_scheduled tags = any_of (λ t. starts_with t "sched-") tags

fail_interrupted : Sensor → Sensor
unfolding is_scheduled
fail_interrupted s =
    if is_provisioning s.status && not (is_scheduled s.tags)
    then record s { status = provision_failed }
    else s

-- The pattern '%sched-%' on the JSON text is read as a tag that begins with "sched-".
unfoldable pub db_fail_interrupted_provisioning : Db → Db
unfolding fail_interrupted
db_fail_interrupted_provisioning db = record db {
  sensors = map (λ r. (r.0, fail_interrupted r.1)) db.sensors;
}
