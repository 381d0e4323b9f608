-- ===== src/Duration/Bounds.antt =====
-- The range of `parse_duration`.
use t_pot_sensor_deployer.Prelude.{
  ok, raised, ℕ, ◌≤◌, ◌≡◌, ◌≢◌, Option, none, some, [], ◌∷◌, map, arith, Bool-cases, inl, inr,
}
use t_pot_sensor_deployer.Duration.Decimal.{Text, is_digit, digits_value}
use t_pot_sensor_deployer.Duration.{
  Parsed, max_duration_seconds, scaled, after_digits, match_duration, strip, lower, unit_seconds,
  parse_duration,
}

abbrev InRange : Parsed → Type 0
InRange (ok n) = n ≤ max_duration_seconds
InRange (raised e) = Unit

scaled-InRange : (value : ℕ) (unit : Option ℕ) → InRange (scaled value unit)
unfolding scaled
scaled-InRange value none = tt
scaled-InRange value (some unit) = ground arith

after_digits-InRange : (value : ℕ) (s : Text) → InRange (after_digits (value, s))
unfolding after_digits
after_digits-InRange value [] = tt
after_digits-InRange value (u ∷ []) = scaled-InRange value (unit_seconds u)
after_digits-InRange value (u ∷ v ∷ s) = tt

match_duration-InRange : (s : Text) → InRange (match_duration s)
unfolding match_duration
match_duration-InRange [] = tt
match_duration-InRange (c ∷ s) = elim (Bool-cases (is_digit c)) [
  | inl digit ↦
      rw digit (let (value, rest) = digits_value 0 (c ∷ s) in after_digits-InRange value rest)
  | inr other ↦ rw other tt
]

parse_duration-InRange : (s : Text) → InRange (parse_duration s)
unfolding parse_duration
parse_duration-InRange [] = omega arith
parse_duration-InRange (c ∷ s) = match_duration-InRange (map lower (strip (c ∷ s)))

-- Every number of seconds that parse_duration returns is at most ten years.
pub parse_duration-le : (s : Text) (n : ℕ) → parse_duration s ≡ ok n → n ≤ max_duration_seconds
parse_duration-le s n h = rw h at (parse_duration-InRange s)

-- A text of nothing but spaces is no duration.
pub parse_duration-blank :
    (c : ℕ) (s : Text) (n : ℕ) → strip (c ∷ s) ≡ [] → parse_duration (c ∷ s) ≢ ok n
unfolding parse_duration
parse_duration-blank c s n blank reads = ground (arith, blank, reads)
