-- ===== src/Settings/Updates.antt =====
-- Updates of the settings' table and of its rows.
use t_pot_sensor_deployer.Prelude.{
  String, Bool, true, false, ◌&&◌, ◌||◌, Option, none, some, [], ◌∷◌, ◌≡◌, refl, ap, ◌∙◌, arith,
  inl, inr, Bool-cases, ◌==◌, if◌then◌else◌, string_key, Table, find, put, keys, find-put, is_some,
  keep, any_of, Distinct, put-Distinct,
}
use mathlib.Core.Path.{subst}
use t_pot_sensor_deployer.Settings.{Value, is_known, only_known, put_all, attributes}

-- The test of a table for a key, after an update.
is_some-put_all :
    (k : String) (xs t : Table String Value)
    → is_some (find k (put_all xs t)) ≡ (is_some (find k xs) || is_some (find k t))
unfolding put_all find
is_some-put_all k [] t = refl
is_some-put_all k ((j, v) ∷ xs) t =
    ground (arith, is_some-put_all k xs (put j v t), find-put j k v t)

pub find-only_known :
    (k : String) (t : Table String Value)
    → find k (only_known t) ≡ (if is_known k then find k t else none)
unfolding only_known find keep
find-only_known k [] = same_none none (is_known k)
  where
    same_none : (o : Option Value) (b : Bool) → o ≡ (if b then o else o)
    same_none o true = refl
    same_none o false = refl
find-only_known k ((j, v) ∷ t) = elim (Bool-cases (j == k)) [
  | inl same ↦
      let eq : j ≡ k = (string_key.is_same_iff j k).0 same in
      ground (arith, find-only_known k t, same, ap is_known eq)
  | inr other ↦ ground (arith, find-only_known k t, other)
]

find-attributes :
    (valid : String → Value) (k : String) (xs t : Table String Value)
    → find k (put_all (attributes valid xs) t)
      ≡ (if is_some (find k xs) then some (valid k) else find k t)
unfolding put_all find attributes
find-attributes valid k [] t = refl
find-attributes valid k ((j, v) ∷ xs) t = elim (Bool-cases (j == k)) [
  | inl same ↦
      let eq : j ≡ k = (string_key.is_same_iff j k).0 same in
      let is = ap (λ i. some (valid i)) eq in
      ground
        (arith, find-attributes valid k xs (put j (valid j) t), find-put j k (valid j) t, same, is)
  | inr other ↦
      ground
        (arith, find-attributes valid k xs (put j (valid j) t), find-put j k (valid j) t, other)
]

-- The row of a setting in the table, after a save that stored the attributes of `valid`.
pub stored_row :
    (valid : String → Value) (k : String) (updates stored : Table String Value)
    → find k (put_all (attributes valid (only_known (put_all (only_known updates) stored))) stored)
      ≡ (if is_known k && (is_some (find k updates) || is_some (find k stored))
          then some (valid k)
          else find k stored)
stored_row valid k updates stored =
    let values : Table String Value = put_all (only_known updates) stored in
    find-attributes valid k (only_known values) stored
    ∙ ground (
      arith,
      find-only_known k values,
      is_some-put_all k (only_known updates) stored,
      find-only_known k updates,
    )

keys-only_known :
    (j : String) (t : Table String Value)
    → any_of (λ i. i == j) (keys t) ≡ false
    → any_of (λ i. i == j) (keys (only_known t)) ≡ false
unfolding only_known keys keep
keys-only_known j [] free = refl
keys-only_known j ((i, v) ∷ t) free = elim (Bool-cases (is_known i)) [
  | inl known ↦ simp known (ground (arith, free, keys-only_known j t))
  | inr other ↦ simp other (keys-only_known j t (ground (arith, free)))
]

pub only_known-Distinct :
    (t : Table String Value) → Distinct (keys t) → Distinct (keys (only_known t))
unfolding only_known keys keep Distinct
only_known-Distinct [] apart = tt
only_known-Distinct ((i, v) ∷ t) (free, apart) = elim (Bool-cases (is_known i)) [
  | inl known ↦ simp known (keys-only_known i t free, only_known-Distinct t apart)
  | inr other ↦ simp other (only_known-Distinct t apart)
]

pub put_all-Distinct :
    (xs t : Table String Value) → Distinct (keys t) → Distinct (keys (put_all xs t))
unfolding put_all
put_all-Distinct [] t apart = apart
put_all-Distinct ((k, v) ∷ xs) t apart = put_all-Distinct xs (put k v t) (put-Distinct k v t apart)

find-keys :
    (k : String) (t : Table String Value) → any_of (λ i. i == k) (keys t) ≡ false → find k t ≡ none
unfolding find keys
find-keys k [] free = refl
find-keys k ((j, v) ∷ t) free = ground (arith, free, find-keys k t)

absent-put_all :
    (k : String) (xs t : Table String Value) → find k xs ≡ none → find k (put_all xs t) ≡ find k t
unfolding put_all find
absent-put_all k [] t gone = refl
absent-put_all k ((j, w) ∷ xs) t gone = elim (Bool-cases (j == k)) [
  | inl same ↦ absurd (ground (arith, gone, same))
  | inr other ↦
      absent-put_all k xs (put j w t) (simp other at gone) ∙ ground (arith, find-put j k w t, other)
]

-- A value of the update is what is found afterwards.
pub find-put_all :
    (k : String) (v : Value) (xs t : Table String Value)
    → Distinct (keys xs)
    → find k xs ≡ some v
    → find k (put_all xs t) ≡ some v
unfolding put_all find keys Distinct
find-put_all k v [] t apart held = ground (arith, held)
find-put_all k v ((j, w) ∷ xs) t (free, apart) held = elim (Bool-cases (j == k)) [
  | inr other ↦ find-put_all k v xs (put j w t) apart (simp other at held)
  | inl same ↦
      let eq : j ≡ k = (string_key.is_same_iff j k).0 same in
      let gone : find k xs ≡ none = subst (λ i. find i xs ≡ none) eq (find-keys j xs free) in
      let value : some w ≡ some v = simp same at held in
      absent-put_all k xs (put j w t) gone ∙ ground (arith, find-put j k w t, same, value)
]
