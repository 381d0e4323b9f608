-- ===== src/Duration/RoundTrip.antt =====
-- `parse_duration` on a printed numeral and a unit letter.
use t_pot_sensor_deployer.Prelude.{
  ok, raised, ℕ, zero, suc, ◌+◌, ◌*◌, ◌/◌, ◌%◌, ◌<◌, ◌≡◌, refl, ◌∙◌, ap, true, false, some, [], ◌∷◌,
  ◌++◌, map, arith, ltb, Bool-cases, inl, inr, if◌then◌else◌, All,
}
use mathlib.Core.List.{reverse, reverse-append, reverse-reverse}
use t_pot_sensor_deployer.Duration.Decimal.{
  Text, is_digit, digits_value, decimal, decimal_from, digits_value-decimal,
}
use t_pot_sensor_deployer.Duration.{
  duration_too_long, max_duration_seconds, bounded, after_digits, match_duration, is_space, lower,
  drop_spaces, strip, unit_seconds, parse_duration,
}

abbrev pub AllDigits : Text → Type 0
AllDigits = All (λ c. is_digit c ≡ true)

AllDigits-append : (s t : Text) → AllDigits s → AllDigits t → AllDigits (s ++ t)
AllDigits-append [] t hs ht = ht
AllDigits-append (c ∷ s) t hs ht = (hs.0, AllDigits-append s t hs.1 ht)

digit_char : (d : ℕ) → d < 10 → is_digit (48 + d) ≡ true
digit_char d h = ground arith

decimal_from-AllDigits : (fuel n : ℕ) → AllDigits (decimal_from fuel n)
unfolding decimal_from
decimal_from-AllDigits zero n = tt
decimal_from-AllDigits (suc fuel) n = elim (Bool-cases (ltb n 10)) [
  | inl small ↦ rw small (digit_char n (ground arith), tt)
  | inr big ↦ rw big (
      AllDigits-append _ _ (decimal_from-AllDigits fuel (n / 10))
        (digit_char (n % 10) (omega arith), tt))
]

-- A text that begins with a digit and goes on with digits.
abbrev pub Numeral : Text → Type 0
Numeral s = (c : ℕ) × (r : Text) × (s ≡ c ∷ r) × (is_digit c ≡ true) × AllDigits r

decimal_from-Numeral : (fuel n : ℕ) → Numeral (decimal_from (suc fuel) n)
unfolding decimal_from
decimal_from-Numeral fuel n = elim (Bool-cases (ltb n 10)) [
  | inl small ↦ (48 + n, [], rw small refl, digit_char n (ground arith), tt)
  | inr big ↦ rw big (go (decimal_from fuel (n / 10)) (decimal_from-AllDigits fuel (n / 10)))
]
  where
    last : is_digit (48 + n % 10) ≡ true
    last = digit_char (n % 10) (omega arith)

    go : (s : Text) → AllDigits s → Numeral (s ++ (48 + n % 10) ∷ [])
    go [] h = (48 + n % 10, [], refl, last, tt)
    go (c ∷ s) h = (c, s ++ (48 + n % 10) ∷ [], refl, h.0, AllDigits-append s _ h.1 (last, tt))

pub decimal-Numeral : (n : ℕ) → Numeral (decimal n)
unfolding decimal
decimal-Numeral n = let e : n + 1 ≡ suc n = omega arith in rw e (decimal_from-Numeral n n)

map-lower_lem :
    (s : Text) (u : ℕ) → AllDigits s → lower u ≡ u → map lower (s ++ u ∷ []) ≡ s ++ u ∷ []
unfolding lower
map-lower_lem [] u h hu = ap (λ v. v ∷ []) hu
map-lower_lem (c ∷ s) u h hu = ground (arith, map-lower_lem s u h.1 hu)

drop_spaces-ne : (c : ℕ) (s : Text) → is_space c ≡ false → drop_spaces (c ∷ s) ≡ c ∷ s
unfolding drop_spaces
drop_spaces-ne c s h = rw h refl

digit-ne-space : (c : ℕ) → is_digit c ≡ true → is_space c ≡ false
unfolding is_space
digit-ne-space c h = ground arith

-- A text with no space at its ends is its own `strip`.
strip_lem :
    (c u : ℕ) (r : Text)
    → is_space c ≡ false
    → is_space u ≡ false
    → strip (c ∷ (r ++ u ∷ [])) ≡ c ∷ (r ++ u ∷ [])
unfolding strip
strip_lem c u r hc hu =
    let s : Text = c ∷ (r ++ u ∷ []) in
    let back : reverse s ≡ u ∷ reverse (c ∷ r) = reverse-append (c ∷ r) (u ∷ []) in
    let kept : drop_spaces (reverse s) ≡ reverse s =
      rw back (drop_spaces-ne u (reverse (c ∷ r)) hu) in
    rw (drop_spaces-ne c (r ++ u ∷ []) hc) (rw kept (reverse-reverse s))

unit-ne-space :
    (u w : ℕ)
    → unit_seconds u ≡ some w
    → (is_space u ≡ false) × (lower u ≡ u) × (is_digit u ≡ false)
unfolding unit_seconds is_space lower
unit-ne-space u w h = ground arith

digits_value_stop : (n u : ℕ) → is_digit u ≡ false → digits_value n (u ∷ []) ≡ (n, u ∷ [])
unfolding digits_value
digits_value_stop n u h = rw (h, digits_value) refl

after_digits_lem :
    (n u w : ℕ) → unit_seconds u ≡ some w → after_digits (n, u ∷ []) ≡ bounded (n * w)
unfolding after_digits
after_digits_lem n u w h = rw h refl

match_duration_lem :
    (n u w c : ℕ) (r : Text)
    → is_digit c ≡ true
    → digits_value 0 (c ∷ (r ++ u ∷ [])) ≡ (n, u ∷ [])
    → unit_seconds u ≡ some w
    → match_duration (c ∷ (r ++ u ∷ [])) ≡ bounded (n * w)
unfolding match_duration
match_duration_lem n u w c r hc read hu = rw hc (rw read (after_digits_lem n u w hu))

numeral_lem :
    (n u w c : ℕ) (r : Text)
    → decimal n ≡ c ∷ r
    → is_digit c ≡ true
    → AllDigits r
    → unit_seconds u ≡ some w
    → parse_duration (c ∷ (r ++ u ∷ [])) ≡ bounded (n * w)
unfolding parse_duration
numeral_lem n u w c r e hc hr hu =
    let (space, same, other) = unit-ne-space u w hu in
    let read : digits_value 0 (c ∷ (r ++ u ∷ [])) ≡ (n, u ∷ []) =
      rw e at (digits_value-decimal n (u ∷ []) ∙ digits_value_stop n u other) in
    let plain : map lower (strip (c ∷ (r ++ u ∷ []))) ≡ c ∷ (r ++ u ∷ []) =
      ap (map lower) (strip_lem c u r (digit-ne-space c hc) space)
      ∙ map-lower_lem (c ∷ r) u (hc, hr) same in
    ap match_duration plain ∙ match_duration_lem n u w c r hc read hu

-- A printed number of seconds, minutes, hours or days is read back as that many seconds, or is
-- refused as too long exactly if it is over ten years.
pub parse_duration-decimal :
    (n u w : ℕ)
    → unit_seconds u ≡ some w
    → parse_duration (decimal n ++ u ∷ [])
      ≡ (if ltb max_duration_seconds (n * w) then raised duration_too_long else ok (n * w))
unfolding bounded
parse_duration-decimal n u w h =
    let (c, r, e, hc, hr) = decimal-Numeral n in rw e (numeral_lem n u w c r e hc hr h)
