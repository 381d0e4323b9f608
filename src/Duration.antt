-- ===== src/Duration.antt =====
-- app/ttl_manager.py: `parse_duration` and `format_remaining`. A text is the list of its code
-- points, and the texts are ASCII ones, of fewer digits than CPython's limit for `int`.
-- An instant, and a span between two, is a number of microseconds, as `datetime` keeps them.
pub mod Decimal
pub mod Bounds
pub mod RoundTrip
use Decimal.{Text, is_digit, digits_value, decimal}
use t_pot_sensor_deployer.Prelude.{
  ℕ, ◌+◌, ◌*◌, ◌/◌, ◌%◌, Bool, ◌&&◌, ◌||◌, Option, none, some, List, [], ◌∷◌, ◌++◌, map, ltb, leb,
  ◌==◌, if◌then◌else◌, nat_key, Outcome, ok, raised,
}
use mathlib.Core.List.{reverse}

-- `timedelta(seconds=n)`
abbrev pub seconds : ℕ → ℕ
seconds n = n * 1000000

-- `_MAX_DURATION_SECONDS`: ten years
abbrev pub max_duration_seconds : ℕ
max_duration_seconds = 10 * 365 * 86400

-- The two ValueErrors that `parse_duration` raises.
pub data ValueError : Type 0 where
  invalid_duration duration_too_long : ValueError

abbrev pub Parsed : Type 0
Parsed = Outcome ValueError ℕ

is_space : ℕ → Bool
is_space c = (leb 9 c && leb c 13) || (leb 28 c && leb c 32)

lower : ℕ → ℕ
lower c = if leb b'A' c && leb c b'Z' then c + 32 else c

drop_spaces : Text → Text
unfolding is_space
drop_spaces [] = []
drop_spaces (c ∷ s) = let rest = drop_spaces s in if is_space c then rest else c ∷ s

-- `text.strip()`
unfoldable pub strip : Text → Text
unfolding drop_spaces
strip s = reverse (drop_spaces (reverse (drop_spaces s)))

-- `_UNIT_SECONDS`
unfoldable pub unit_seconds : ℕ → Option ℕ
unit_seconds u =
    if u == b's'
    then some 1
    else if u == b'm'
    then some 60
    else if u == b'h'
    then some 3600
    else if u == b'd'
    then some 86400
    else none

bounded : ℕ → Parsed
bounded n = if ltb max_duration_seconds n then raised duration_too_long else ok n

scaled : ℕ → Option ℕ → Parsed
unfolding bounded
scaled value none = raised invalid_duration
scaled value (some unit) = bounded (value * unit)

-- What follows the digits is one unit letter and the end.
after_digits : ℕ × Text → Parsed
unfolding unit_seconds scaled
after_digits (value, u ∷ []) = scaled value (unit_seconds u)
after_digits (value, _) = raised invalid_duration

-- `_DURATION_RE.match` and the scaling: at least one digit, then a unit letter.
match_duration : Text → Parsed
unfolding after_digits
match_duration [] = raised invalid_duration
match_duration (c ∷ s) =
    if is_digit c then after_digits (digits_value 0 (c ∷ s)) else raised invalid_duration

unfoldable pub parse_duration : Text → Parsed
unfolding match_duration strip lower
parse_duration [] = ok 0
parse_duration (c ∷ s) = match_duration (map lower (strip (c ∷ s)))

part : ℕ → ℕ → Text
part n unit = decimal n ++ unit ∷ []

-- The list `parts` of `format_remaining`.
unfoldable pub format_parts : ℕ → List Text
unfolding part
format_parts secs =
    let days = secs / 86400 in
    let hours = (secs % 86400) / 3600 in
    let minutes = (secs % 3600) / 60 in
    let with_days = if ltb 0 days then part days b'd' ∷ [] else [] in
    let with_hours = if ltb 0 hours then with_days ++ part hours b'h' ∷ [] else with_days in
    if ltb 0 minutes || is_empty with_hours
    then with_hours ++ part minutes b'm' ∷ []
    else with_hours
  where
    is_empty : List Text → Bool
    is_empty [] = Bool.true
    is_empty (_ ∷ _) = Bool.false

unfoldable pub join : Text → List Text → Text
join sep [] = []
join sep (s ∷ []) = s
join sep (s ∷ t ∷ rest) = s ++ sep ++ join sep (t ∷ rest)

expired_text : Text
expired_text = b'E' ∷ b'x' ∷ b'p' ∷ b'i' ∷ b'r' ∷ b'e' ∷ b'd' ∷ []

-- `seconds` is a difference of instants; a negative one is 0 here, which prints alike.
unfoldable pub format_remaining : ℕ → Text
unfolding format_parts join expired_text
format_remaining span =
    if span == 0 then expired_text else join (b' ' ∷ []) (format_parts (span / 1000000))
