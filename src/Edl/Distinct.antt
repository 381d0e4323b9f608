-- ===== src/Edl/Distinct.antt =====
-- The addresses of the entries that `get_all_entries` collects.
use t_pot_sensor_deployer.Prelude.{
  String, Bool, true, false, not, ◌&&◌, ◌||◌, Option, none, some, List, [], ◌∷◌, ◌++◌, map, ◌≡◌,
  refl, ap, ◌∙◌, arith, inl, inr, Bool-cases, ◌==◌, nat_key, string_key, any_of, Distinct,
}
use t_pot_sensor_deployer.Fleet.{Db, Sensor, Static, db_get_static_ips, db_get_all_active_droplets}
use t_pot_sensor_deployer.Edl.Defs.{
  Entry, sensor_entry, droplet_entry, static_entry, is_published, is_tpot, Droplet, Collected,
  collect, collect_sensors, collect_droplets, collect_statics, collect_entries, seen_in,
  collect_all, with_listing,
}

-- The addresses of the entries.
unfoldable pub ips : List Entry → List String
ips es = map (λ e. e.ip) es

ips-append : (es : List Entry) (e : Entry) → ips (es ++ e ∷ []) ≡ ips es ++ e.ip ∷ []
unfolding ips
ips-append [] e = refl
ips-append (d ∷ es) e = ap (λ t. d.ip ∷ t) (ips-append es e)

any_of-append :
    (j x : String) (xs : List String)
    → any_of (λ i. i == j) (xs ++ x ∷ []) ≡ (any_of (λ i. i == j) xs || x == j)
any_of-append j x [] = ground arith
any_of-append j x (y ∷ xs) = ground (arith, any_of-append j x xs)

Distinct-append :
    (x : String) (xs : List String)
    → Distinct xs
    → any_of (λ i. i == x) xs ≡ false
    → Distinct (xs ++ x ∷ [])
unfolding Distinct
Distinct-append x [] d new = (refl, _)
Distinct-append x (y ∷ xs) (once, d) new = (
  ground (
    arith,
    any_of-append y x xs,
    once,
    new,
    string_key.is_same_iff y x,
    string_key.is_same_iff x y,
  ),
  Distinct-append x xs d (ground (arith, new)),
)

-- The entries have distinct addresses, and the set of the loops holds just those.
unfoldable pub IsFaithful : Collected → Type 0
IsFaithful c =
    Distinct (ips c.results)
    × ((j : String) → any_of (λ i. i == j) (ips c.results) ≡ seen_in j c.seen)

collect-IsFaithful :
    (ok : Bool) (e : Entry) (c : Collected) → IsFaithful c → IsFaithful (collect ok e c)
unfolding collect IsFaithful
collect-IsFaithful ok e c (d, same) =
    elim (Bool-cases (not (e.ip == "") && ok && not (seen_in e.ip c.seen))) [
      | inr skip ↦ simp skip (d, same)
      | inl take ↦
          let new : seen_in e.ip c.seen ≡ false = ground (arith, take) in
          simp (take, ips-append c.results e)
            (
              Distinct-append e.ip (ips c.results) d (same e.ip ∙ new),
              λ j. ground (arith, any_of-append j e.ip (ips c.results), same j),
            )
    ]

collect_sensors-IsFaithful :
    (rows : List Sensor) (c : Collected) → IsFaithful c → IsFaithful (collect_sensors rows c)
unfolding collect_sensors
collect_sensors-IsFaithful [] c h = h
collect_sensors-IsFaithful (s ∷ rows) c h =
    collect_sensors-IsFaithful rows _
      (collect-IsFaithful (is_published s.status) (sensor_entry s) c h)

collect_droplets-IsFaithful :
    (rows : List Droplet) (c : Collected) → IsFaithful c → IsFaithful (collect_droplets rows c)
unfolding collect_droplets
collect_droplets-IsFaithful [] c h = h
collect_droplets-IsFaithful (s ∷ rows) c h =
    collect_droplets-IsFaithful rows _
      (collect-IsFaithful (is_tpot s && s.status == "active") (droplet_entry s) c h)

collect_statics-IsFaithful :
    (rows : List Static) (c : Collected) → IsFaithful c → IsFaithful (collect_statics rows c)
unfolding collect_statics
collect_statics-IsFaithful [] c h = h
collect_statics-IsFaithful (s ∷ rows) c h =
    collect_statics-IsFaithful rows _ (collect-IsFaithful true (static_entry s) c h)

with_listing-IsFaithful :
    (listing : Option (List Droplet)) (c : Collected)
    → IsFaithful c
    → IsFaithful (with_listing listing c)
unfolding with_listing
with_listing-IsFaithful none c h = h
with_listing-IsFaithful (some droplets) c h = collect_droplets-IsFaithful droplets c h

pub collect_all-IsFaithful :
    (db : Db) (listing : Option (List Droplet)) → IsFaithful (collect_all db listing)
unfolding collect_all IsFaithful ips Distinct
collect_all-IsFaithful db listing =
    let start : IsFaithful (record { results = []; seen = [] }) = (_, λ j. refl) in
    collect_statics-IsFaithful (db_get_static_ips db) _ (
      with_listing-IsFaithful listing _
        (collect_sensors-IsFaithful (db_get_all_active_droplets db) _ start))

-- No address is listed twice, however often the three sources name it.
pub collect_entries-Distinct :
    (db : Db) (listing : Option (List Droplet)) → Distinct (ips (collect_entries db listing))
unfolding collect_entries IsFaithful
collect_entries-Distinct db listing = (collect_all-IsFaithful db listing).0
