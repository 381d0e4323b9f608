-- ===== src/Client/Fresh.antt =====
-- How old a listing of the droplets can be.
use t_pot_sensor_deployer.Prelude.{
  ℕ, String, ◌-◌, true, false, Option, none, some, List, [], ◌∷◌, map, ltb, ◌≡◌, refl, sym, ap, ◌∙◌,
  inl, inr, Bool-cases, ◌==◌, if◌then◌else◌, string_key, Table, find, put, find-put, find-put_self,
  or_else, keep, starts_with, Outcome, ok, raised,
}
use mathlib.Core.Path.{subst}
use text.Mathlib.TextPositions.{starts_with-append}
use t_pot_sensor_deployer.Duration.{seconds}
use t_pot_sensor_deployer.Fleet.Sync.{CloudDroplet}
use t_pot_sensor_deployer.Client.{
  Cache, get_do_cache, set_do_cache, drop_keys, without_keys, invalidate_do_cache, cache_key,
  with_ips, fetched, fresh, cached_or, list_droplets, change_droplet,
}

module _ {V : Type 0} where
  find-drop_keys :
      (prefix key : String) (t : Table String (ℕ × V))
      → starts_with key prefix ≡ true
      → find key (drop_keys prefix t) ≡ none
  unfolding drop_keys find keep
  find-drop_keys prefix key [] begins = refl
  find-drop_keys prefix key ((k, v) ∷ t) begins = elim (Bool-cases (k == key)) [
    | inl same ↦
        let eq : key ≡ k = sym ((string_key.is_same_iff k key).0 same) in
        let gone : starts_with k prefix ≡ true =
          subst (λ s. starts_with s prefix ≡ true) eq begins in
        simp gone (find-drop_keys prefix key t begins)
    | inr other ↦ elim (Bool-cases (starts_with k prefix)) [
      | inl gone ↦ simp gone (find-drop_keys prefix key t begins)
      | inr stays ↦ simp (stays, other) (find-drop_keys prefix key t begins)
    ]
  ]

  -- What the cache has for the token after its listings were dropped.
  kept_keys :
      (token : String) (cache : Cache V) (held : Option (Table String (ℕ × V)))
      → find token cache ≡ held
      → or_else (find token (without_keys token "droplets_" held cache)) []
        ≡ drop_keys "droplets_" (or_else held [])
  unfolding without_keys
  kept_keys token cache none missing =
      ap (λ o. or_else o []) missing ∙ (unfold drop_keys keep in refl)
  kept_keys token cache (some t) held =
      ap (λ o. or_else o []) (find-put_self token (drop_keys "droplets_" t) cache)

  get-invalidate :
      (now : ℕ) (token tag : String) (ttl : ℕ) (cache : Cache V)
      → get_do_cache now token (cache_key tag) ttl (invalidate_do_cache token "droplets_" cache)
        ≡ none
  unfolding get_do_cache fresh invalidate_do_cache
  get-invalidate now token tag ttl cache =
      ap (λ t. fresh now ttl (find (cache_key tag) t))
        (kept_keys token cache (find token cache) refl)
      ∙ ap (fresh now ttl) (
          find-drop_keys "droplets_" (cache_key tag) (or_else (find token cache) [])
            (unfold cache_key in starts_with-append "droplets_" (if tag == "" then "all" else tag)))

-- Another token's values.
other_keys :
    {W : Type 0} (token other prefix : String) (cache : Cache W)
    (held : Option (Table String (ℕ × W)))
    → (token == other) ≡ false
    → find other (without_keys token prefix held cache) ≡ find other cache
unfolding without_keys
other_keys token other prefix cache none apart = refl
other_keys token other prefix cache (some t) apart =
    find-put token other (if prefix == "" then [] else drop_keys prefix t) cache ∙ simp apart refl

get-invalidate_other :
    {W : Type 0} (now : ℕ) (token other key prefix : String) (ttl : ℕ) (cache : Cache W)
    → (token == other) ≡ false
    → get_do_cache now other key ttl (invalidate_do_cache token prefix cache)
      ≡ get_do_cache now other key ttl cache
unfolding get_do_cache fresh invalidate_do_cache
get-invalidate_other now token other key prefix ttl cache apart =
    ap (λ o. fresh now ttl (find key (or_else o [])))
      (other_keys token other prefix cache (find token cache) apart)

-- A listing that was asked for is kept for five seconds.
get-set :
    {V : Type 0} (now later : ℕ) (token key : String) (ttl : ℕ) (val : V) (cache : Cache V)
    → get_do_cache later token key ttl (set_do_cache now token key val cache)
      ≡ (if ltb (later - now) ttl then some val else none)
unfolding get_do_cache set_do_cache fresh
get-set now later token key ttl val cache =
    let held = find-put_self token (put key (now, val) (or_else (find token cache) [])) cache in
    let row = find-put_self key (now, val) (or_else (find token cache) []) in
    ap (λ o. fresh later ttl (find key (or_else o []))) held ∙ ap (fresh later ttl) row

same_answer :
    {E : Type 0} (now : ℕ) (token key : String) (answer : Outcome E (List CloudDroplet))
    (cache cache' : Cache (List CloudDroplet))
    → (fetched now token key answer cache).0 ≡ (fetched now token key answer cache').0
unfolding fetched
same_answer now token key (ok ds) cache cache' = refl
same_answer now token key (raised e) cache cache' = refl

-- The next listing after a call that changed a droplet and returned is the cloud's, for every tag and at
-- every time. The next listing after one that was forced and that the cloud has answered gives the same
-- for less than five seconds, and after that what the cloud answers then. The calls of one token leave
-- what the cache has for another.
pub list_droplets_lem :
    {E A : Type 0} (now later : ℕ) (token other tag other_key : String) (a : A)
    (ds : List CloudDroplet) (answer : Outcome E (List CloudDroplet))
    (cache : Cache (List CloudDroplet))
    → (token == other) ≡ false
    → let returned : Outcome E A = ok a in
      let given : Outcome E (List CloudDroplet) = ok ds in
      let changed = (change_droplet token returned cache).1 in
      (list_droplets later token tag false answer changed
        ≡ fetched later token (cache_key tag) answer changed)
      × ((list_droplets later token tag false answer
            (list_droplets now token tag true given cache).1).0
          ≡ (if ltb (later - now) (seconds 5)
              then ok (map with_ips ds)
              else (fetched later token (cache_key tag) answer cache).0))
      × ((ttl : ℕ)
          → get_do_cache later other other_key ttl changed
            ≡ get_do_cache later other other_key ttl cache)
unfolding list_droplets change_droplet fetched cached_or
list_droplets_lem now later token other tag other_key a ds answer cache apart = (
  ap
      (λ o.
        cached_or later token (cache_key tag) o answer
          (invalidate_do_cache token "droplets_" cache))
      (get-invalidate later token tag (seconds 5) cache),
  kept_listing,
  λ ttl. get-invalidate_other later token other other_key "droplets_" ttl cache apart,
)
  where
    key : String
    key = cache_key tag

    first : Cache (List CloudDroplet)
    first = set_do_cache now token key (map with_ips ds) cache

    kept_listing :
        (cached_or later token key (get_do_cache later token key (seconds 5) first) answer first).0
        ≡ (if ltb (later - now) (seconds 5)
            then ok (map with_ips ds)
            else (fetched later token key answer cache).0)
    kept_listing =
        ap (λ o. (cached_or later token key o answer first).0)
          (get-set now later token key (seconds 5) (map with_ips ds) cache)
        ∙ elim (Bool-cases (ltb (later - now) (seconds 5))) [
          | inl young ↦ simp young refl
          | inr old ↦ simp old (same_answer later token key answer first cache)
        ]
