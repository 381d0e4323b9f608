-- ===== src/Edl/Complete.antt =====
-- The addresses that the three sources of `get_all_entries` ask for.
use t_pot_sensor_deployer.Prelude.{
  String, Bool, true, false, not, ◌&&◌, ◌||◌, Option, none, some, List, [], ◌∷◌, ◌≡◌, ◌∙◌, arith,
  ◌==◌, string_key, any_of,
}
use t_pot_sensor_deployer.Fleet.{Db, Sensor, Static, db_get_static_ips, db_get_all_active_droplets}
use t_pot_sensor_deployer.Edl.Defs.{
  Entry, Droplet, Collected, address, is_published, is_tpot, sensor_entry, droplet_entry,
  static_entry, collect, collect_sensors, collect_droplets, collect_statics, collect_all,
  collect_entries, seen_in, with_listing,
}
use t_pot_sensor_deployer.Edl.Distinct.{ips, IsFaithful, collect_all-IsFaithful}

-- A tracked sensor that is published and has this address.
unfoldable pub asks_sensor : String → Sensor → Bool
asks_sensor j s = is_published s.status && address s.public_ip == j

unfoldable pub asks_droplet : String → Droplet → Bool
asks_droplet j d = is_tpot d && d.status == "active" && address d.public_ip == j

unfoldable pub asks_static : String → Static → Bool
asks_static j s = s.ip == j

unfoldable pub asks_listing : String → Option (List Droplet) → Bool
asks_listing j none = false
asks_listing j (some droplets) = any_of (asks_droplet j) droplets

seen-collect :
    (ok : Bool) (e : Entry) (c : Collected) (j : String)
    → seen_in j (collect ok e c).seen ≡ (seen_in j c.seen || (not (j == "") && ok && e.ip == j))
unfolding collect
seen-collect ok e c j = ground (
  arith,
  string_key.is_same_iff e.ip j,
  string_key.is_same_iff e.ip "",
  string_key.is_same_iff j "",
)

seen-collect_sensors :
    (rows : List Sensor) (c : Collected) (j : String)
    → seen_in j (collect_sensors rows c).seen
      ≡ (seen_in j c.seen || (not (j == "") && any_of (asks_sensor j) rows))
unfolding collect_sensors asks_sensor sensor_entry
seen-collect_sensors [] c j = ground arith
seen-collect_sensors (s ∷ rows) c j = ground (
  arith,
  seen-collect_sensors rows (collect (is_published s.status) (sensor_entry s) c) j,
  seen-collect (is_published s.status) (sensor_entry s) c j,
)

seen-collect_droplets :
    (rows : List Droplet) (c : Collected) (j : String)
    → seen_in j (collect_droplets rows c).seen
      ≡ (seen_in j c.seen || (not (j == "") && any_of (asks_droplet j) rows))
unfolding collect_droplets asks_droplet droplet_entry
seen-collect_droplets [] c j = ground arith
seen-collect_droplets (s ∷ rows) c j = ground (
  arith,
  seen-collect_droplets rows (collect (is_tpot s && s.status == "active") (droplet_entry s) c) j,
  seen-collect (is_tpot s && s.status == "active") (droplet_entry s) c j,
)

seen-collect_statics :
    (rows : List Static) (c : Collected) (j : String)
    → seen_in j (collect_statics rows c).seen
      ≡ (seen_in j c.seen || (not (j == "") && any_of (asks_static j) rows))
unfolding collect_statics asks_static static_entry
seen-collect_statics [] c j = ground arith
seen-collect_statics (s ∷ rows) c j = ground (
  arith,
  seen-collect_statics rows (collect true (static_entry s) c) j,
  seen-collect true (static_entry s) c j,
)

seen-with_listing :
    (listing : Option (List Droplet)) (c : Collected) (j : String)
    → seen_in j (with_listing listing c).seen
      ≡ (seen_in j c.seen || (not (j == "") && asks_listing j listing))
unfolding with_listing asks_listing
seen-with_listing none c j = ground arith
seen-with_listing (some droplets) c j = seen-collect_droplets droplets c j

-- An address is listed just when it is not empty and a published sensor, an active droplet that
-- looks like a sensor, or the static list asks for it.
pub collect_entries_lem :
    (db : Db) (listing : Option (List Droplet)) (j : String)
    → any_of (λ i. i == j) (ips (collect_entries db listing)) ≡ (
        not (j == "")
        && (any_of (asks_sensor j) (db_get_all_active_droplets db)
            || asks_listing j listing
            || any_of (asks_static j) (db_get_static_ips db)))
unfolding collect_entries IsFaithful collect_all
collect_entries_lem db listing j =
    let start : Collected = record { results = []; seen = [] } in
    let rows : Collected = collect_sensors (db_get_all_active_droplets db) start in
    (collect_all-IsFaithful db listing).1 j
    ∙ ground (
      arith,
      seen-collect_statics (db_get_static_ips db) (with_listing listing rows) j,
      seen-with_listing listing rows j,
      seen-collect_sensors (db_get_all_active_droplets db) start j,
    )
