-- ===== src/Edl/Defs.antt =====
-- `EDLManager`: its cache, the entries it collects, and the operations on static addresses.
use t_pot_sensor_deployer.Prelude.{
  ℕ, String, ◌-◌, Bool, true, false, ◌&&◌, ◌||◌, not, Option, none, some, List, [], ◌∷◌, ◌++◌, ltb,
  ◌==◌, if◌then◌else◌, string_key, find, is_some, starts_with, any_of,
}
use t_pot_sensor_deployer.Duration.{seconds}
use t_pot_sensor_deployer.Fleet.{
  Db, Sensor, Static, SensorStatus, provisioning, active, db_get_static_ips,
  db_get_all_active_droplets, db_add_static_ip, db_remove_static_ip, is_scheduled, is_gcp,
}

-- Where an entry comes from: a tracked sensor, a droplet listed by the cloud, or the static list.
pub data Source : Type 0 where
  sensor_row : (gcp_label scheduled : Bool) (sensor_type : String) → Source
  cloud_droplet : (scheduled : Bool) → Source
  static_configuration : Source

pub record Entry : Type 0 where
  pub ip : String
  pub source : Source
  pub name : String
  pub region : String

-- A droplet in the answer of `list_droplets`.
pub record Droplet : Type 0 where
  pub name : String
  pub public_ip : Option String
  pub status : String
  pub region : String
  pub tags : List String
  -- "sensor" in name.lower()
  pub named_sensor : Bool
  -- any(t.startswith("tpot-") and t.endswith("-sensor") for t in tags)
  pub tagged_tpot : Bool

-- `results` and `seen_ips` of the collecting loops.
pub record Collected : Type 0 where
  pub results : List Entry
  pub seen : List String

abbrev pub seen_in : String → List String → Bool
seen_in ip seen = any_of (λ j. j == ip) seen

-- EDL_PUBLISHED_STATUSES
unfoldable pub is_published : SensorStatus → Bool
is_published active = true
is_published provisioning = true
is_published _ = false

-- `if ip and ok and ip not in seen_ips`: the body of each of the three loops.
unfoldable pub collect : Bool → Entry → Collected → Collected
collect ok e c =
    if not (e.ip == "") && ok && not (seen_in e.ip c.seen)
    then record { results = c.results ++ e ∷ []; seen = e.ip ∷ c.seen }
    else c

-- A missing address is the empty text: both are false.
unfoldable pub address : Option String → String
address none = ""
address (some ip) = ip

unfoldable pub sensor_entry : Sensor → Entry
unfolding address
sensor_entry s = record {
  ip = address s.public_ip;
  source = sensor_row (is_gcp s.provider) (is_scheduled s.tags) s.sensor_type;
  name = s.name;
  region = s.region;
}

unfoldable pub collect_sensors : List Sensor → Collected → Collected
unfolding collect is_published sensor_entry
collect_sensors [] c = c
collect_sensors (s ∷ rows) c =
    collect_sensors rows (collect (is_published s.status) (sensor_entry s) c)

unfoldable pub is_tpot : Droplet → Bool
is_tpot d =
    d.tagged_tpot
    || any_of (λ t. t == "tpot-sensor") d.tags
    || any_of (λ t. starts_with t "type-") d.tags
    || d.named_sensor

unfoldable pub droplet_entry : Droplet → Entry
unfolding address
droplet_entry d = record {
  ip = address d.public_ip;
  source = cloud_droplet (is_scheduled d.tags);
  name = d.name;
  region = d.region;
}

unfoldable pub collect_droplets : List Droplet → Collected → Collected
unfolding collect is_tpot droplet_entry
collect_droplets [] c = c
collect_droplets (d ∷ rest) c =
    collect_droplets rest (collect (is_tpot d && d.status == "active") (droplet_entry d) c)

manual_entry : String → String
manual_entry comment = if comment == "" then "Manual Entry" else comment

unfoldable pub static_entry : Static → Entry
unfolding manual_entry
static_entry s = record {
  ip = s.ip;
  source = static_configuration;
  name = manual_entry s.comment;
  region = "custom";
}

unfoldable pub collect_statics : List Static → Collected → Collected
unfolding collect static_entry
collect_statics [] c = c
collect_statics (s ∷ rest) c = collect_statics rest (collect true (static_entry s) c)

unfoldable pub with_listing : Option (List Droplet) → Collected → Collected
unfolding collect_droplets
with_listing none c = c
with_listing (some droplets) c = collect_droplets droplets c

-- The three loops.
unfoldable pub collect_all : Db → Option (List Droplet) → Collected
unfolding collect_sensors with_listing collect_statics
collect_all db listing =
    let rows =
      collect_sensors (db_get_all_active_droplets db) (record { results = []; seen = [] }) in
    collect_statics (db_get_static_ips db) (with_listing listing rows)

-- The entries without the cache. `listing` is what `list_droplets` returned, and `none` where there
-- is no configured client or the call raised.
unfoldable pub collect_entries : Db → Option (List Droplet) → List Entry
unfolding collect_all
collect_entries db listing = (collect_all db listing).results

-- The manager's own fields, and the file that it writes.
pub record Edl : Type 0 where
  pub cached_entries : Option (List Entry)
  pub cached_at : ℕ
  pub file : List Entry

unfoldable pub invalidate_cache : Edl → Edl
invalidate_cache m = record m { cached_entries = none; cached_at = 0 }

unfoldable pub fresh_enough : ℕ → Edl → Option (List Entry)
fresh_enough now m = if ltb (now - m.cached_at) (seconds 10) then m.cached_entries else none

-- An instance that is asked again within ten seconds answers from its cache.
unfoldable pub get_all_entries : ℕ → Bool → Option (List Droplet) → Db → Edl → List Entry × Edl
unfolding fresh_enough
get_all_entries now force_refresh listing db m =
    let found = collect_entries db listing in
    elim (if force_refresh then none else fresh_enough now m) [
      | some cached ↦ (cached, m)
      | none ↦ (found, record m { cached_entries = some found; cached_at = now })
    ]

-- Every line of the file but the comments is an entry's address.
unfoldable pub write_edl_file : ℕ → Option (List Droplet) → Db → Edl → Edl
unfolding get_all_entries
write_edl_file now listing db m =
    let (entries, m') = get_all_entries now false listing db m in record m' { file = entries }

pub data Refusal : Type 0 where
  invalid_address not_found already_exists : Refusal

pub data Reply : Type 0 where
  done : Reply
  refused : Refusal → Reply

-- `is_valid_ip_or_cidr` asks Python's `ipaddress`; addresses come stripped of spaces.
module _ (is_valid_ip_or_cidr : String → Bool) where
  unfoldable pub refresh : ℕ → Db → Edl → Reply × Db × Edl
  unfolding write_edl_file invalidate_cache
  refresh now db m = (done, db, write_edl_file now none db (invalidate_cache m))

  unfoldable pub add_static_ip : ℕ → String → String → Db → Edl → Reply × Db × Edl
  unfolding refresh
  add_static_ip now ip comment db m =
      if not (is_valid_ip_or_cidr ip)
      then (refused invalid_address, db, m)
      else if any_of (λ (s : Static). s.ip == ip) (db_get_static_ips db)
      then (refused already_exists, db, m)
      else refresh now (db_add_static_ip ip comment now db) m

  unfoldable pub move_static : ℕ → String → String → String → Static → Db → Edl → Reply × Db × Edl
  unfolding refresh
  move_static now old ip comment entry db m =
      if not (ip == old) && is_some (find ip db.statics)
      then (refused already_exists, db, m)
      else refresh now
          (db_add_static_ip ip comment entry.added_at
            (if ip == old then db else (db_remove_static_ip old db).0))
          m

  unfoldable pub update_static_ip : ℕ → String → String → String → Db → Edl → Reply × Db × Edl
  unfolding move_static
  update_static_ip now old ip comment db m =
      if not (is_valid_ip_or_cidr ip)
      then (refused invalid_address, db, m)
      else elim (find old db.statics) [
        | none ↦ (refused not_found, db, m)
        | some entry ↦ move_static now old ip comment entry db m
      ]

  unfoldable pub remove_static_ip : ℕ → String → Db → Edl → Reply × Db × Edl
  unfolding refresh
  remove_static_ip now ip db m =
      let (db', ok) = db_remove_static_ip ip db in
      if not ok then (refused not_found, db', m) else refresh now db' m
