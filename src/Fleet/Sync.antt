-- ===== src/Fleet/Sync.antt =====
-- `db_sync_active_droplets` of app/db.py: the manual sync of active_droplets with the droplets that
-- DigitalOcean lists. A listed droplet always has its id, its name and its status.
use t_pot_sensor_deployer.Prelude.{
  ℕ, suc, String, Bool, ◌&&◌, not, Option, none, some, List, [], ◌∷◌, ◌==◌, if◌then◌else◌, nat_key,
  string_key, Table, find, put, remove, or_else, any_of, starts_with, ends_with, without, length,
}
use t_pot_sensor_deployer.Fleet.{
  Db, Sensor, Lease, digitalocean, is_digitalocean, SensorStatus, cloud_status,
}

-- An entry of `networks.v4`.
pub record Net : Type 0 where
  pub is_public : Bool
  pub is_private : Bool
  pub ip_address : String

-- A region, size or image: a dictionary with its slug, or a text, each perhaps missing.
pub data Slug : Type 0 where
  dict text : Option String → Slug

pub record CloudDroplet : Type 0 where
  pub id : ℕ
  pub name : String
  pub tags : List String
  pub public_ip : Option String
  pub private_ip : Option String
  pub networks : List Net
  pub region : Slug
  pub size : Slug
  pub image : Slug
  pub status : String
  pub created_at : Option ℕ

-- The loop over the tags; `_extract_sensor_type` of app/api.py has the same.
unfoldable pub extract_sensor_type : List String → String
extract_sensor_type [] = "cowrie"
extract_sensor_type (t ∷ tags) =
    let rest = extract_sensor_type tags in
    if starts_with t "type-"
    then without "type-" t
    else if starts_with t "tpot-" && ends_with t "-sensor" && not (t == "tpot-sensor")
    then without "-sensor" (without "tpot-" t)
    else rest

unfoldable pub first_net : (Net → Bool) → List Net → Option String
first_net test [] = none
first_net test (n ∷ nets) = if test n then some n.ip_address else first_net test nets

-- `ip or next(...)`
unfoldable pub ip_or_net : Option String → (Net → Bool) → List Net → Option String
unfolding first_net
ip_or_net none test nets = first_net test nets
ip_or_net (some ip) test nets = if ip == "" then first_net test nets else some ip

unfoldable pub slug_or : Slug → String → String
slug_or (dict slug) d = or_else slug d
slug_or (text none) d = d
slug_or (text (some s)) d = if s == "" then d else s

unfoldable pub status_of : String → SensorStatus
status_of s =
    if s == "active"
    then SensorStatus.active
    else if s == "provisioning"
    then SensorStatus.provisioning
    else if s == "provision_failed"
    then SensorStatus.provision_failed
    else cloud_status s

-- The row that the sync writes for a droplet, with what its lease tells.
unfoldable pub droplet_row : ℕ → CloudDroplet → Option Lease → Sensor
droplet_row now d lease = record {
  id = d.id;
  name = d.name;
  public_ip = ip_or_net d.public_ip (λ n. n.is_public) d.networks;
  private_ip = ip_or_net d.private_ip (λ n. n.is_private) d.networks;
  sensor_type = extract_sensor_type d.tags;
  sensor_user = elim lease [ none ↦ none | some l ↦ some l.sensor_user ];
  provider = digitalocean;
  region = slug_or d.region "nyc1";
  size = slug_or d.size "s-1vcpu-2gb";
  image = slug_or d.image "ubuntu-24-04-x64";
  tags = d.tags;
  status = status_of d.status;
  ttl = elim lease [ none ↦ none | some l ↦ some l.ttl ];
  ttl_seconds = elim lease [ none ↦ none | some l ↦ some l.ttl_seconds ];
  created_at = or_else d.created_at now;
  expires_at = elim lease [ none ↦ none | some l ↦ some l.expires_at ];
}

-- The first loop: a row for each listed droplet.
unfoldable pub save_listed : ℕ → Table ℕ Lease → List CloudDroplet → Table ℕ Sensor → Table ℕ Sensor
save_listed now leases [] t = t
save_listed now leases (d ∷ ds) t =
    save_listed now leases ds (put d.id (droplet_row now d (find d.id leases)) t)

unfoldable pub is_listed : List CloudDroplet → ℕ → Bool
is_listed ds id = any_of (λ d. d.id == id) ds

-- `synced_ids`
unfoldable pub synced_ids : List CloudDroplet → List ℕ
synced_ids [] = []
synced_ids (d ∷ ds) =
    let rest = synced_ids ds in if any_of (λ i. i == d.id) rest then rest else d.id ∷ rest

-- A DigitalOcean row whose droplet is not listed any more.
unfoldable pub is_gone : List CloudDroplet → ℕ × Sensor → Bool
unfolding is_listed
is_gone ds (id, s) = is_digitalocean s.provider && not (is_listed ds id)

-- The second loop over the rows that it has read, with its count.
unfoldable pub delete_gone :
    List CloudDroplet → Table ℕ Sensor → ℕ → Table ℕ Sensor → ℕ × Table ℕ Sensor
unfolding is_gone
delete_gone ds [] removed t = (removed, t)
delete_gone ds ((id, s) ∷ rows) removed t =
    delete_gone ds rows (if is_gone ds (id, s) then suc removed else removed)
      (if is_gone ds (id, s) then remove id t else t)

pub record Synced : Type 0 where
  pub active_count : ℕ
  pub ids : List ℕ
  pub removed_count : ℕ

unfoldable pub db_sync_active_droplets : ℕ → List CloudDroplet → Db → Db × Synced
unfolding save_listed synced_ids delete_gone
db_sync_active_droplets now ds db =
    let saved = save_listed now db.leases ds db.sensors in
    let (removed, t) = delete_gone ds saved 0 saved in
    (
      record db { sensors = t },
      record {
        active_count = length (synced_ids ds);
        ids = synced_ids ds;
        removed_count = removed;
      },
    )
