-- ===== src/Prelude/Texts.antt =====
-- Python's `str` methods that the libraries lack.
use Prim.Native.Nat.{ℕ, zero, suc}
use Prim.Native.String.{String}
use mathlib.Core.Bool.{Bool, ◌||◌}
use mathlib.Core.Path.{◌≡◌, refl}
use text.Mathlib.Text.{starts_with, ◌==◌ as str_eq}
use t_pot_sensor_deployer.Prelude.Tests.{if◌then◌else◌}

-- `s.endswith(t)`
unfoldable pub ends_with : String → String → Bool
ends_with String.[] t = str_eq String.[] t
ends_with (String.◌∷◌ c s) t = str_eq (String.◌∷◌ c s) t || ends_with s t

chars : String → ℕ
chars String.[] = 0
chars (String.◌∷◌ c s) = suc (chars s)

-- The text after the next `skip` characters, without the later occurrences of `t`, which has
-- `more` characters beside its first.
without_from : ℕ → String → ℕ → String → String
without_from more t skip String.[] = String.[]
without_from more t (suc skip) (String.◌∷◌ c s) = without_from more t skip s
without_from more t zero (String.◌∷◌ c s) =
    let rest = without_from more t zero s in
    let after = without_from more t more s in
    if starts_with (String.◌∷◌ c s) t then after else String.◌∷◌ c rest

-- `s.replace(t, "")`, for a `t` that is not empty
unfoldable pub without : String → String → String
unfolding chars without_from
without String.[] s = s
without (String.◌∷◌ c t) s = without_from (chars t) (String.◌∷◌ c t) zero s

ends_with_test : ends_with "tpot-web-sensor" "-sensor" ≡ Bool.true
unfolding ends_with
ends_with_test = refl

without_test : without "tpot-" "tpot-web-tpot-x" ≡ "web-x"
unfolding without
without_test = refl
