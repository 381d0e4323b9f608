-- ===== src/Lease/Rows.antt =====
-- The leases table as rows with distinct keys, each the id of its lease.
use t_pot_sensor_deployer.Prelude.{
  ℕ, false, none, some, [], ◌∷◌, ◌≡◌, refl, arith, inl, inr, Bool-cases, ◌==◌, nat_key, Table, find,
  put, find-put,
}
use t_pot_sensor_deployer.Fleet.{Lease}

unfoldable pub IsTable : Table ℕ Lease → Type 0
IsTable [] = Unit
IsTable ((k, l) ∷ t) = (k ≡ l.droplet_id) × (find k t ≡ none) × IsTable t

pub droplet_id-find :
    (t : Table ℕ Lease) (k : ℕ) (l : Lease) → IsTable t → find k t ≡ some l → l.droplet_id ≡ k
unfolding IsTable find
droplet_id-find [] k l keyed found = ground (arith, found)
droplet_id-find ((j, m) ∷ t) k l (own, apart, rest) found = elim (Bool-cases (j == k)) [
  | inl same ↦
      let eq : j ≡ k = (nat_key.is_same_iff j k).0 same in
      let taken : some m ≡ some l = simp same at found in ground (arith, eq, taken, own)
  | inr other ↦ droplet_id-find t k l rest (simp other at found)
]

pub put-IsTable :
    (t : Table ℕ Lease) (k : ℕ) (l : Lease) → k ≡ l.droplet_id → IsTable t → IsTable (put k l t)
unfolding IsTable put find
put-IsTable [] k l own keyed = (own, refl, _)
put-IsTable ((j, m) ∷ t) k l own (own', apart, rest) = elim (Bool-cases (j == k)) [
  | inl same ↦
      let eq : j ≡ k = (nat_key.is_same_iff j k).0 same in
      let free : find k t ≡ none = cc (eq, apart) in simp same (own, free, rest)
  | inr other ↦
      let swapped : (k == j) ≡ false =
        ground (arith, other, nat_key.is_same_iff j k, nat_key.is_same_iff k j) in
      let free : find j (put k l t) ≡ none = simp (find-put, swapped) apart in
      simp other (own', free, put-IsTable t k l own rest)
]
