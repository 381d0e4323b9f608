-- ===== src/Duration/Decimal.antt =====
-- Decimal numerals: `int(value)` on the digits that `\d+` matches, and `str(n)`, as f-strings print.
use t_pot_sensor_deployer.Prelude.{
  ℕ, zero, suc, ◌+◌, ◌-◌, ◌*◌, ◌/◌, ◌%◌, ◌<◌, ◌≡◌, refl, Bool, true, false, ◌&&◌, List, [], ◌∷◌,
  ◌++◌, ltb, leb, if◌then◌else◌, arith, Bool-cases, inl, inr, ◌∙◌,
}
use mathlib.Core.List.{append_assoc}

abbrev pub Text : Type 0
Text = List ℕ

abbrev pub is_digit : ℕ → Bool
is_digit c = leb b'0' c && leb c b'9'

-- The number that the leading digits stand for, from what is read so far, and the text behind them.
unfoldable pub digits_value : ℕ → Text → ℕ × Text
digits_value n [] = (n, [])
digits_value n (c ∷ s) = elim (is_digit c) [
  | true ↦ digits_value (n * 10 + (c - 48)) s
  | false ↦ (n, c ∷ s)
]

unfoldable pub decimal_from : ℕ → ℕ → Text
decimal_from zero n = []
decimal_from (suc fuel) n =
    let rest = decimal_from fuel (n / 10) in
    if ltb n 10 then (48 + n) ∷ [] else rest ++ (48 + n % 10) ∷ []

-- A number has fewer digits than `n + 1`.
unfoldable pub decimal : ℕ → Text
unfolding decimal_from
decimal n = decimal_from (n + 1) n

digits_value_step :
    (n d m : ℕ) (s : Text)
    → d < 10
    → n * 10 + d ≡ m
    → digits_value n ((48 + d) ∷ s) ≡ digits_value m s
unfolding digits_value
digits_value_step n d m s h e =
    let digit : is_digit (48 + d) ≡ true = ground arith in
    let read : n * 10 + (48 + d - 48) ≡ m = omega arith in rw (digit, digits_value) (rw read refl)

digits_value-decimal_from :
    (fuel n : ℕ) (s : Text)
    → n < fuel
    → digits_value 0 (decimal_from fuel n ++ s) ≡ digits_value n s
unfolding decimal_from
digits_value-decimal_from zero n s h = elim h [ ]
digits_value-decimal_from (suc fuel) n s h = elim (Bool-cases (ltb n 10)) [
  | inl small ↦ rw small (digits_value_step 0 n n s (ground arith) (omega arith))
  | inr big ↦ rw big (
      rw append_assoc (
        digits_value-decimal_from fuel (n / 10) ((48 + n % 10) ∷ s) (ground arith)
        ∙ digits_value_step (n / 10) (n % 10) n s (omega arith) (omega arith)))
]

-- Reading the digits of a printed number gives the number back, and leaves what follows.
pub digits_value-decimal : (n : ℕ) (s : Text) → digits_value 0 (decimal n ++ s) ≡ digits_value n s
unfolding decimal
digits_value-decimal n s = digits_value-decimal_from (n + 1) n s (omega arith)
