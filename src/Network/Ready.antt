-- ===== src/Network/Ready.antt =====
-- `ensure_sensor_network`: what it makes sure of, and what it does the second time.
use t_pot_sensor_deployer.Prelude.{
  String, true, [], ◌∷◌, ◌≡◌, refl, ap, ◌∙◌, arith, inl, inr, Bool-cases, ◌==◌, string_key,
  is_same_refl, any_of, any_of-append,
}
use t_pot_sensor_deployer.Network.{
  network_name, Project, subnet_name, ensure_network, is_same_subnet, ensure_sensor_network,
}

has_network : (p : Project) → any_of (λ n. n == network_name) (ensure_network p).networks ≡ true
unfolding ensure_network
has_network p = elim (Bool-cases (any_of (λ n. n == network_name) p.networks)) [
  | inl there ↦ simp there refl
  | inr missing ↦ simp missing (
      any_of-append (λ n. n == network_name) p.networks (network_name ∷ [])
      ∙ ground (arith, missing))
]

-- Making sure of what is there changes nothing.
ensure_network-here :
    (p : Project) → any_of (λ n. n == network_name) p.networks ≡ true → ensure_network p ≡ p
unfolding ensure_network
ensure_network-here p there = simp there refl

pub ensure-here :
    (region : String) (p : Project)
    → any_of (λ n. n == network_name) p.networks ≡ true
    → any_of (is_same_subnet region (subnet_name region)) p.subnets ≡ true
    → ensure_sensor_network region p ≡ p
unfolding ensure_sensor_network
ensure-here region p there subnet =
    let same : ensure_network p ≡ p = ensure_network-here p there in
    let found : any_of (is_same_subnet region (subnet_name region)) (ensure_network p).subnets
        ≡ true =
      ap (λ q. any_of (is_same_subnet region (subnet_name region)) q.subnets) same ∙ subnet in
    simp found same

-- The network and the region's subnet are there.
unfoldable pub IsReady : String → Project → Type 0
IsReady region p =
    (any_of (λ n. n == network_name) p.networks ≡ true)
    × (any_of (is_same_subnet region (subnet_name region)) p.subnets ≡ true)

pub ensure-IsReady :
    (region : String) (p : Project) → IsReady region (ensure_sensor_network region p)
unfolding ensure_sensor_network IsReady
ensure-IsReady region p =
    let q : Project = ensure_network p in
    let name : String = subnet_name region in
    elim (Bool-cases (any_of (is_same_subnet region name) q.subnets)) [
      | inl there ↦ simp there (has_network p, refl)
      | inr missing ↦ simp missing (
        has_network p,
        any_of-append (is_same_subnet region name) q.subnets
              (record { name = name; network = network_name; region = region } ∷ [])
            ∙ (unfold is_same_subnet in ground (arith, is_same_refl region, is_same_refl name)),
      )
    ]
