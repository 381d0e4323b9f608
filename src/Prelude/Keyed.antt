-- ===== src/Prelude/Keyed.antt =====
-- A database table, a Redis hash or a Python dictionary: an association list by its key.
use mathlib.Core.Path.{◌≡◌, refl, subst}
use mathlib.Core.Logic.{inl, inr}
use mathlib.Core.Bool.{true, false, ◌||◌}
use mathlib.Core.Option.{Option, none, some}
use mathlib.Core.List.{List, [], ◌∷◌}
use native.Mathlib.Omega.{arith}
use t_pot_sensor_deployer.Prelude.Lists.{any_of}
use t_pot_sensor_deployer.Prelude.Tests.{Key, ◌==◌, if◌then◌else◌, Bool-cases}

abbrev pub Table {ℓ κ} : Type ℓ → Type κ → Type (ℓ ⊔ κ)
Table K V = List (K × V)

pub is_same_refl {ℓ} : {K : Type ℓ} ⦃e : Key K⦄ (k : K) → (k == k) ≡ true
is_same_refl ⦃e⦄ k = (e.is_same_iff k k).1 refl

-- No key is in the list twice.
unfoldable pub Distinct {ℓ} : {K : Type ℓ} ⦃e : Key K⦄ → List K → Type 0
Distinct [] = Unit
Distinct (x ∷ xs) = (any_of (λ j. j == x) xs ≡ false) × Distinct xs

module _ {ℓ κ} {K : Type ℓ} {V : Type κ} ⦃e : Key K⦄ where
  -- SELECT ... WHERE key = k; `d.get(k)`
  unfoldable pub find : K → Table K V → Option V
  find k [] = none
  find k ((j, v) ∷ t) = if j == k then some v else find k t

  -- DELETE ... WHERE key = k; `d.pop(k, None)`
  unfoldable pub remove : K → Table K V → Table K V
  remove k [] = []
  remove k ((j, v) ∷ t) = let rest = remove k t in if j == k then rest else (j, v) ∷ rest

  -- INSERT OR REPLACE; `d[k] = v`
  unfoldable pub put : K → V → Table K V → Table K V
  put k v [] = (k, v) ∷ []
  put k v ((j, w) ∷ t) = if j == k then (k, v) ∷ t else (j, w) ∷ put k v t

  pub find-remove :
      (k j : K) (t : Table K V) → find j (remove k t) ≡ (if k == j then none else find j t)
  unfolding find remove
  find-remove k j [] = ground arith
  find-remove k j ((i, v) ∷ t) =
      ground (arith, find-remove k j t, e.is_same_iff i k, e.is_same_iff i j, e.is_same_iff k j)

  pub find-put :
      (k j : K) (v : V) (t : Table K V) → find j (put k v t) ≡ (if k == j then some v else find j t)
  unfolding find put
  find-put k j v [] = refl
  find-put k j v ((i, w) ∷ t) =
      ground (arith, find-put k j v t, e.is_same_iff i k, e.is_same_iff i j, e.is_same_iff k j)

  pub find-put_self : (k : K) (v : V) (t : Table K V) → find k (put k v t) ≡ some v
  find-put_self k v t = simp (find-put, is_same_refl)

  pub find-remove_self : (k : K) (t : Table K V) → find k (remove k t) ≡ none
  find-remove_self k t = simp (find-remove, is_same_refl)

  -- SELECT key
  unfoldable pub keys : Table K V → List K
  keys [] = []
  keys ((k, v) ∷ t) = k ∷ keys t

  keys-put :
      (k j : K) (v : V) (t : Table K V)
      → any_of (λ i. i == j) (keys (put k v t)) ≡ (k == j || any_of (λ i. i == j) (keys t))
  unfolding keys put
  keys-put k j v [] = refl
  keys-put k j v ((i, w) ∷ t) =
      ground (arith, keys-put k j v t, e.is_same_iff i k, e.is_same_iff i j, e.is_same_iff k j)

  pub put-Distinct :
      (k : K) (v : V) (t : Table K V) → Distinct (keys t) → Distinct (keys (put k v t))
  unfolding keys put Distinct
  put-Distinct k v [] apart = (refl, tt)
  put-Distinct k v ((i, w) ∷ t) (free, apart) = elim (Bool-cases (i == k)) [
    | inl same ↦
        let own : i ≡ k = (e.is_same_iff i k).0 same in
        simp same (subst (λ j. any_of (λ l. l == j) (keys t) ≡ false) own free, apart)
    | inr other ↦
        let still = keys-put k i v t in
        simp other (
          ground (arith, still, free, other, e.is_same_iff i k, e.is_same_iff k i),
          put-Distinct k v t apart,
        )
  ]
