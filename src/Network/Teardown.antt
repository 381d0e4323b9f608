-- ===== src/Network/Teardown.antt =====
-- What is left of the dedicated network.
use t_pot_sensor_deployer.Prelude.{
  String, Bool, true, false, ◌&&◌, not, List, [], ◌∷◌, ◌≡◌, refl, sym, ap, ◌∙◌, arith, inl, inr,
  ◌⊎◌, Bool-cases, ◌==◌, string_key, any_of, keep, Outcome, ok, raised,
}
use mathlib.Core.Path.{fun_ext, subst}
use t_pot_sensor_deployer.Fleet.{Db}
use t_pot_sensor_deployer.Http.{HttpError, conflict}
use t_pot_sensor_deployer.Network.Ready.{IsReady, ensure-IsReady, ensure-here}
use t_pot_sensor_deployer.Network.{
  network_name, Subnet, Project, Deletion, ended, refused, overdue, DestroyAnswers, without_network,
  is_same_subnet, ensure_sensor_network, delete_subnet, destroy_subnets, delete_network,
  destroy_sensor_network, tracks_gcp, answer_of, teardown_gcp_network,
}

keep-keep {ℓ} :
    {A : Type ℓ} (p q : A → Bool) (xs : List A) → keep p (keep q xs) ≡ keep (λ x. q x && p x) xs
unfolding keep
keep-keep p q [] = refl
keep-keep p q (x ∷ xs) = elim (Bool-cases (q x)) [
  | inl kept ↦ simp kept (ground (arith, keep-keep p q xs))
  | inr out ↦ simp out (keep-keep p q xs)
]

-- A subnet of the network has the key of `t`.
unfoldable pub is_taken : List Subnet → Subnet → Bool
is_taken listed t =
    any_of (λ s. s.network == network_name && is_same_subnet s.region s.name t) listed

kept_all : (xs : List Subnet) → keep (λ t. not (is_taken [] t)) xs ≡ xs
unfolding keep is_taken
kept_all [] = refl
kept_all (x ∷ xs) = ap (λ ys. x ∷ ys) (kept_all xs)

own_key :
    (s : Subnet) (listed : List Subnet) (t : Subnet)
    → (s.network == network_name) ≡ true
    → (not (is_same_subnet s.region s.name t) && not (is_taken listed t))
      ≡ not (is_taken (s ∷ listed) t)
unfolding is_taken
own_key s listed t own = ground (arith, own)

-- The subnets whose key is none of the listed ones of the network.
abbrev other_networks : Project → List String
other_networks p = keep (λ n. not (n == network_name)) p.networks

abbrev other_subnets : List Subnet → Project → List Subnet
other_subnets listed p = keep (λ t. not (is_taken listed t)) p.subnets

-- A subnet of the network that is deleted is not one of the others.
other_subnets-delete_subnet :
    (s : Subnet) (listed : List Subnet) (p : Project)
    → (s.network == network_name) ≡ true
    → other_subnets listed (delete_subnet s p) ≡ other_subnets (s ∷ listed) p
unfolding delete_subnet
other_subnets-delete_subnet s listed p own =
    keep-keep (λ t. not (is_taken listed t)) (λ t. not (is_same_subnet s.region s.name t)) p.subnets
    ∙ ap (λ f. keep f p.subnets) (fun_ext (λ (t : Subnet). own_key s listed t own))

is_taken-foreign :
    (s : Subnet) (listed : List Subnet)
    → (s.network == network_name) ≡ false
    → is_taken (s ∷ listed) ≡ is_taken listed
is_taken-foreign s listed foreign = fun_ext (λ t. unfold is_taken in simp foreign refl)

keep_twice {ℓ} : {A : Type ℓ} (p : A → Bool) (xs : List A) → keep p (keep p xs) ≡ keep p xs
keep_twice p xs = keep-keep p p xs ∙ ap (λ f. keep f xs) (fun_ext (λ x. ground arith))

-- One more listed subnet takes its key from the others.
other_subnets-cons :
    (s : Subnet) (listed : List Subnet) (p : Project)
    → (s.network == network_name) ≡ true
    → other_subnets (s ∷ listed) p
      ≡ keep (λ t. not (is_same_subnet s.region s.name t)) (other_subnets listed p)
unfolding is_taken
other_subnets-cons s listed p own =
    ap (λ f. keep f p.subnets) (fun_ext (λ (t : Subnet). ground (arith, own)))
    ∙ sym (
        keep-keep (λ t. not (is_same_subnet s.region s.name t)) (λ t. not (is_taken listed t))
          p.subnets)

-- Deleting a subnet of the network once more, or not at all, leaves the others.
other_subnets-own :
    (s : Subnet) (listed : List Subnet) (p : Project)
    → (s.network == network_name) ≡ true
    → other_subnets (s ∷ listed) (delete_subnet s p) ≡ other_subnets (s ∷ listed) p
unfolding delete_subnet is_taken
other_subnets-own s listed p own =
    keep-keep (λ t. not (is_taken (s ∷ listed) t)) (λ t. not (is_same_subnet s.region s.name t))
      p.subnets
    ∙ ap (λ f. keep f p.subnets) (fun_ext (λ (t : Subnet). ground (arith, own)))

-- What the loop leaves: the networks and the other subnets, and where it came to its end these only.
abbrev Left : List Subnet → Project → Project × Bool → Type 0
Left listed p (p', at_end) =
    (p'.networks ≡ p.networks)
    × (other_subnets listed p' ≡ other_subnets listed p)
    × (at_end ≡ true → p'.subnets ≡ other_subnets listed p)

Left-cons :
    (s : Subnet) (listed : List Subnet) (p : Project) (r : Project × Bool)
    → (s.network == network_name) ≡ true
    → Left listed (delete_subnet s p) r
    → Left (s ∷ listed) p r
Left-cons s listed p (p', at_end) own (networks, others, complete) = (
  networks ∙ (unfold delete_subnet in refl),
  other_subnets-cons s listed p' own
      ∙ ap (keep (λ t. not (is_same_subnet s.region s.name t))) others
      ∙ sym (other_subnets-cons s listed (delete_subnet s p) own)
      ∙ other_subnets-own s listed p own,
  λ h. complete h ∙ other_subnets-delete_subnet s listed p own,
)

Left-foreign :
    (s : Subnet) (listed : List Subnet) (p : Project) (r : Project × Bool)
    → (s.network == network_name) ≡ false
    → Left listed p r
    → Left (s ∷ listed) p r
Left-foreign s listed p (p', at_end) foreign h =
    subst
      (λ (f : Subnet → Bool).
        (p'.networks ≡ p.networks)
        × (keep (λ t. not (f t)) p'.subnets ≡ keep (λ t. not (f t)) p.subnets)
        × (at_end ≡ true → p'.subnets ≡ keep (λ t. not (f t)) p.subnets))
      (sym (is_taken-foreign s listed foreign)) h

destroy_subnets-Left :
    (a : DestroyAnswers) (listed : List Subnet) (p : Project)
    → Left listed p (destroy_subnets a listed p)
unfolding destroy_subnets
destroy_subnets-Left a [] p = (refl, refl, λ h. sym (kept_all p.subnets))
destroy_subnets-Left a (s ∷ listed) p = elim (Bool-cases (s.network == network_name)) [
  | inr foreign ↦ simp foreign (
      Left-foreign s listed p (destroy_subnets a listed p) foreign
        (destroy_subnets-Left a listed p))
  | inl own ↦ by_answer own (destroy_subnets-Left a listed (delete_subnet s p)) (a.subnet s) refl
]
  where
    by_answer :
        (s.network == network_name) ≡ true
        → Left listed (delete_subnet s p) (destroy_subnets a listed (delete_subnet s p))
        → (d : Deletion) → a.subnet s ≡ d
        → Left (s ∷ listed) p (destroy_subnets a (s ∷ listed) p)
    by_answer own rest ended h =
        simp (own, h) (Left-cons s listed p (destroy_subnets a listed (delete_subnet s p)) own rest)
    by_answer own rest refused h = simp (own, h) (refl, refl, λ h. cc)
    by_answer own rest overdue h =
        simp (own, h) (unfold delete_subnet in refl, other_subnets-own s listed p own, λ h. cc)

-- What is left of a project, by the answer.
unfoldable pub TornDown : Db → Project → Project × Outcome HttpError Project → Type 0
TornDown db p (p', ok _) =
    (tracks_gcp db ≡ false)
    × (p'.networks ≡ other_networks p)
    × (p'.subnets ≡ other_subnets p.subnets p)
TornDown db p (p', raised conflict) = (tracks_gcp db ≡ true) × (p' ≡ p)
TornDown db p (p', raised _) =
    (tracks_gcp db ≡ false)
    × (other_networks p' ≡ other_networks p)
    × (other_subnets p.subnets p' ≡ other_subnets p.subnets p)
    × ((p'.networks ≡ p.networks) ⊎ (p'.subnets ≡ other_subnets p.subnets p))

delete_network-TornDown :
    (db : Db) (p : Project) (d : Deletion) (r : Project × Bool)
    → tracks_gcp db ≡ false
    → Left p.subnets p r
    → TornDown db p (answer_of (delete_network d r))
unfolding TornDown answer_of delete_network without_network
delete_network-TornDown db p d (p', false) none (networks, others, complete) =
    (none, ap (keep (λ n. not (n == network_name))) networks, others, inl networks)
delete_network-TornDown db p ended (p', true) none (networks, others, complete) =
    (none, ap (keep (λ n. not (n == network_name))) networks, complete refl)
delete_network-TornDown db p refused (p', true) none (networks, others, complete) =
    (none, ap (keep (λ n. not (n == network_name))) networks, others, inl networks)
delete_network-TornDown db p overdue (p', true) none (networks, others, complete) = (
  none,
  keep_twice (λ n. not (n == network_name)) p'.networks
      ∙ ap (keep (λ n. not (n == network_name))) networks,
  others,
  inr (complete refl),
)

teardown-TornDown :
    (project_id : Bool) (a : DestroyAnswers) (db : Db) (p : Project)
    → TornDown db p (teardown_gcp_network project_id a db p)
unfolding teardown_gcp_network destroy_sensor_network
teardown-TornDown project_id a db p = elim (Bool-cases (tracks_gcp db)) [
  | inl some ↦ simp some (unfold TornDown in (some, refl))
  | inr none ↦ elim (Bool-cases project_id) [
    | inr missing ↦ simp (none, missing) (unfold TornDown in (none, refl, refl, inl refl))
    | inl there ↦ elim (Bool-cases a.lists) [
      | inr unlisted ↦
          simp (none, there, unlisted) (unfold TornDown answer_of in (none, refl, refl, inl refl))
      | inl listed ↦
          simp (none, there, listed)
            (delete_network-TornDown db p a.network (destroy_subnets a p.subnets p) none
              (destroy_subnets-Left a p.subnets p))
    ]
  ]
]

-- Making sure of the network for a region, where the calls return, leaves the network and the region's
-- subnet there, and doing so again changes nothing. A teardown is refused, and changes nothing, exactly
-- if a GCP sensor is tracked. One that succeeds leaves every other network, and every subnet but those
-- that have the region and name of one of the network's, and nothing else. After any other failure, a
-- deletion that goes on after the wait for it has timed out included, all of these are still there,
-- and the network is deleted only after all its subnets.
pub teardown_gcp_network_lem :
    (region : String) (project_id : Bool) (a : DestroyAnswers) (db : Db) (p : Project)
    → IsReady region (ensure_sensor_network region p)
      × (ensure_sensor_network region (ensure_sensor_network region p)
          ≡ ensure_sensor_network region p)
      × TornDown db p (teardown_gcp_network project_id a db p)
unfolding IsReady
teardown_gcp_network_lem region project_id a db p =
    let (network, subnet) = ensure-IsReady region p in
    (
      (network, subnet),
      ensure-here region (ensure_sensor_network region p) network subnet,
      teardown-TornDown project_id a db p,
    )
