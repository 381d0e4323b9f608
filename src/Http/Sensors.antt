-- ===== src/Http/Sensors.antt =====
-- The handlers of app/api.py on tracked sensors.
use t_pot_sensor_deployer.Prelude.{
  ℕ, String, Bool, ◌&&◌, not, Option, none, some, List, [], ◌∷◌, ◌==◌, if◌then◌else◌, nat_key,
  string_key, find, Outcome, ok, raised,
}
use t_pot_sensor_deployer.Duration.Decimal.{Text}
use t_pot_sensor_deployer.Duration.{ValueError}
use t_pot_sensor_deployer.Fleet.{
  Db, Sensor, Lease, Provider, digitalocean, is_gcp, db_delete_active_droplet,
}
use t_pot_sensor_deployer.Fleet.Sync.{CloudDroplet, Synced, db_sync_active_droplets}
use t_pot_sensor_deployer.Hive.{deregister_sensor}
use t_pot_sensor_deployer.Site.{Site, Cloud, destroy_droplet, destroy_instance}
use t_pot_sensor_deployer.Lease.{Request, schedule_lease, cancel_lease}
use t_pot_sensor_deployer.Http.{
  HttpError, bad_request, not_found, server_error, Server, Call, on_db, listing_for, republish,
}

-- `(row or {}).get("provider", "digitalocean")`
unfoldable pub provider_of : Option Sensor → Provider
provider_of none = digitalocean
provider_of (some row) = row.provider

-- The name from the request, or else from the row; a missing one is the empty text.
unfoldable pub name_of : String → Option Sensor → String
name_of given none = given
name_of given (some row) = if given == "" then row.name else given

-- The destroy call of the provider's client, which raises where it is not configured.
unfoldable pub destroyed : Cloud → Provider → ℕ → String → Site → Outcome HttpError Site
destroyed cloud provider id name s =
    if is_gcp provider
    then (if name == ""
        then raised not_found
        else if cloud.destroys_instance name
        then ok (destroy_instance cloud name s)
        else raised bad_request)
    else if cloud.destroys_droplet id
    then ok (destroy_droplet cloud id s)
    else raised bad_request

unfoldable pub forgotten : Call → ℕ → Server → Server
unfolding on_db
forgotten c id v = on_db (λ db. (db_delete_active_droplet id (cancel_lease c.now id db).0).0) v

-- The login is looked for under the name of the sensor.
unfoldable pub deregistered : Bool → String → Server → Server
deregistered deregister_hive name v =
    if deregister_hive && not (name == "")
    then record v { site = record v.site { hive = deregister_sensor name v.site.hive } }
    else v

unfoldable pub after_destroy :
    Call
    → Provider
    → ℕ
    → Bool
    → String
    → Server
    → Outcome HttpError Site
    → Server × Outcome HttpError ℕ
unfolding forgotten republish listing_for deregistered
after_destroy c provider id deregister_hive name v (raised e) = (v, raised e)
after_destroy c provider id deregister_hive name v (ok s) = (
  deregistered deregister_hive name
      (republish c.now (listing_for c provider) (forgotten c id (record v { site = s }))),
  ok id,
)

unfoldable pub delete_droplet : Call → ℕ → Bool → String → Server → Server × Outcome HttpError ℕ
unfolding provider_of name_of destroyed after_destroy
delete_droplet c id deregister_hive sensor_name v =
    let row = find id v.site.db.sensors in
    let name = name_of sensor_name row in
    after_destroy c (provider_of row) id deregister_hive name v
      (destroyed c.cloud (provider_of row) id name v.site)

pub record TtlPayload : Type 0 where
  pub ttl : Option Text
  pub cancel : Bool

-- `schedule_lease(...)` gets no `sensor_user`.
unfoldable pub renewal : ℕ → Text → Sensor → Request
renewal id ttl row = record {
  droplet_id = id;
  droplet_name = row.name;
  ttl_text = ttl;
  sensor_user = none;
  sensor_type = if row.sensor_type == "" then "cowrie" else row.sensor_type;
  provider = row.provider;
  region = some row.region;
}

-- A `ValueError` is not caught: the framework answers 500.
unfoldable pub renewed :
    Server → Outcome ValueError (Option Lease × Db) → Server × Outcome HttpError (Option Lease)
unfolding on_db
renewed v (raised e) = (v, raised server_error)
renewed v (ok (lease, db)) = (on_db (λ _. db) v, ok lease)

unfoldable pub renew_tracked :
    Call → ℕ → Text → Server → Option Sensor → Server × Outcome HttpError (Option Lease)
unfolding renewed renewal
renew_tracked c id ttl v none = (v, raised not_found)
renew_tracked c id ttl v (some row) =
    renewed v (schedule_lease c.now (renewal id ttl row) v.site.db)

unfoldable pub renew : Call → ℕ → Option Text → Server → Server × Outcome HttpError (Option Lease)
unfolding renew_tracked
renew c id none v = (v, raised bad_request)
renew c id (some []) v = (v, raised bad_request)
renew c id (some (d ∷ ttl)) v = renew_tracked c id (d ∷ ttl) v (find id v.site.db.sensors)

unfoldable pub update_droplet_ttl :
    Call → ℕ → TtlPayload → Server → Server × Outcome HttpError (Option Lease)
unfolding renew on_db
update_droplet_ttl c id payload v =
    if payload.cancel
    then (on_db (λ db. (cancel_lease c.now id db).0) v, ok none)
    else renew c id payload.ttl v

unfoldable pub synced : Call → List CloudDroplet → Server → Server × Outcome HttpError Synced
unfolding republish listing_for on_db
synced c ds v =
    let (db, res) = db_sync_active_droplets c.now ds v.site.db in
    (republish c.now (listing_for c digitalocean) (on_db (λ _. db) v), ok res)

-- `cloud_droplets` is `none` where the listing raises.
unfoldable pub sync_droplets_from_cloud :
    Call → Option (List CloudDroplet) → Server → Server × Outcome HttpError Synced
unfolding synced
sync_droplets_from_cloud c cloud_droplets v =
    if c.cloud.configured digitalocean
    then elim cloud_droplets [ none ↦ (v, raised server_error) | some ds ↦ synced c ds v ]
    else (v, raised bad_request)

-- `deregister_sensor` answers False only where a file cannot be read or written.
unfoldable pub remove_hive_sensor : String → Server → Server
remove_hive_sensor username v = record v {
  site = record v.site { hive = deregister_sensor username v.site.hive };
}
