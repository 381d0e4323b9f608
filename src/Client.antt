-- ===== src/Client.antt =====
-- The cache of `DOClient` of app/do_client.py, by token and key, and the calls on droplets that go
-- through it. `_raise_for_status` and the requests are the cloud's, whose answers are arguments.
pub mod Fresh
use t_pot_sensor_deployer.Prelude.{
  ℕ, String, ◌-◌, Bool, true, not, Option, none, some, List, [], ◌∷◌, map, ltb, ◌==◌, if◌then◌else◌,
  string_key, Table, find, put, or_else, keep, starts_with, Outcome, ok, raised,
}
use Prim.Native.String.{◌++◌ as append}
use t_pot_sensor_deployer.Duration.{seconds}
use t_pot_sensor_deployer.Fleet.Sync.{CloudDroplet, first_net}

-- `_DO_CACHE`, for values of one type: what is stored for a token under a key, and since when.
abbrev pub Cache : Type 0 → Type 0
Cache V = Table String (Table String (ℕ × V))

module _ {V : Type 0} where
  fresh : ℕ → ℕ → Option (ℕ × V) → Option V
  fresh now ttl none = none
  fresh now ttl (some (ts, val)) = if ltb (now - ts) ttl then some val else none

  unfoldable pub get_do_cache : ℕ → String → String → ℕ → Cache V → Option V
  unfolding fresh
  get_do_cache now token key ttl cache = fresh now ttl (find key (or_else (find token cache) []))

  unfoldable pub set_do_cache : ℕ → String → String → V → Cache V → Cache V
  set_do_cache now token key val cache =
      put token (put key (now, val) (or_else (find token cache) [])) cache

  -- Without the keys that begin with the prefix.
  unfoldable pub drop_keys : String → Table String (ℕ × V) → Table String (ℕ × V)
  drop_keys prefix t = keep (λ r. not (starts_with r.0 prefix)) t

  -- What the token has, if anything; an empty prefix is none, and clears all.
  unfoldable pub without_keys : String → String → Option (Table String (ℕ × V)) → Cache V → Cache V
  unfolding drop_keys
  without_keys token prefix none cache = cache
  without_keys token prefix (some t) cache =
      put token (if prefix == "" then [] else drop_keys prefix t) cache

  unfoldable pub invalidate_do_cache : String → String → Cache V → Cache V
  unfolding without_keys
  invalidate_do_cache token prefix cache = without_keys token prefix (find token cache) cache

-- `tag_name or 'all'`
unfoldable pub cache_key : String → String
cache_key tag_name = append "droplets_" (if tag_name == "" then "all" else tag_name)

-- The addresses are taken from the networks.
unfoldable pub with_ips : CloudDroplet → CloudDroplet
unfolding first_net
with_ips d = record d {
  public_ip = first_net (λ n. n.is_public) d.networks;
  private_ip = first_net (λ n. n.is_private) d.networks;
}

module _ {E : Type 0} where
  unfoldable pub fetched :
      ℕ
      → String
      → String
      → Outcome E (List CloudDroplet)
      → Cache (List CloudDroplet)
      → Outcome E (List CloudDroplet) × Cache (List CloudDroplet)
  unfolding set_do_cache with_ips
  fetched now token key (raised e) cache = (raised e, cache)
  fetched now token key (ok ds) cache =
      (ok (map with_ips ds), set_do_cache now token key (map with_ips ds) cache)

  -- What is cached, or else the cloud's answer.
  unfoldable pub cached_or :
      ℕ
      → String
      → String
      → Option (List CloudDroplet)
      → Outcome E (List CloudDroplet)
      → Cache (List CloudDroplet)
      → Outcome E (List CloudDroplet) × Cache (List CloudDroplet)
  unfolding fetched
  cached_or now token key (some cached) answer cache = (ok cached, cache)
  cached_or now token key none answer cache = fetched now token key answer cache

  -- `answer` is what the request gives, if it is made.
  unfoldable pub list_droplets :
      ℕ
      → String
      → String
      → (force_refresh : Bool) → Outcome E (List CloudDroplet)
      → Cache (List CloudDroplet)
      → Outcome E (List CloudDroplet) × Cache (List CloudDroplet)
  unfolding get_do_cache cache_key cached_or
  list_droplets now token tag_name force_refresh answer cache =
      let key = cache_key tag_name in
      cached_or now token key
        (if force_refresh then none else get_do_cache now token key (seconds 5) cache) answer cache

  -- A call that changes a droplet (it destroys it, or acts on it) and returns drops the listings.
  unfoldable pub change_droplet :
      {A : Type 0}
      → String
      → Outcome E A
      → Cache (List CloudDroplet)
      → Outcome E A × Cache (List CloudDroplet)
  unfolding invalidate_do_cache
  change_droplet token (raised e) cache = (raised e, cache)
  change_droplet token (ok a) cache = (ok a, invalidate_do_cache token "droplets_" cache)
