-- ===== src/Hive/Logins.antt =====
-- What registering and deregistering do to the logins of a user and of another.
use t_pot_sensor_deployer.Prelude.{
  String, ◌≡◌, refl, Bool, true, false, not, ◌||◌, Option, none, some, List, [], ◌∷◌, ◌++◌, arith,
  any_of, keep, All,
}
use t_pot_sensor_deployer.Hive.{
  Creds, Hive, Token, of_user, token_of_user, register_sensor, deregister_sensor, lines, tokens,
  without_lines, without_token, has_login, has_token,
}

module _ {ℓ} {A : Type ℓ} (p : A → Bool) where
  -- What is kept by the failing of `p` has no element with `p`.
  pub any_of-keep-not : (xs : List A) → any_of p (keep (λ x. not (p x)) xs) ≡ false
  unfolding keep
  any_of-keep-not [] = refl
  any_of-keep-not (x ∷ xs) = ground (arith, any_of-keep-not xs)

  any_of-append : (xs ys : List A) → any_of p (xs ++ ys) ≡ (any_of p xs || any_of p ys)
  any_of-append [] ys = refl
  any_of-append (x ∷ xs) ys = ground (arith, any_of-append xs ys)

module _ {ℓ} {A : Type ℓ} (p q : A → Bool) where
  -- Dropping by `q` keeps an element with `p` where no element has both.
  any_of-keep_other :
      (xs : List A)
      → All (λ x. p x ≡ true → q x ≡ false) xs
      → any_of p (keep (λ x. not (q x)) xs) ≡ any_of p xs
  unfolding keep
  any_of-keep_other [] h = refl
  any_of-keep_other (x ∷ xs) h = ground (arith, any_of-keep_other xs h.1)

-- No line of the file is both users'.
abbrev pub Apart : String → String → List String → Type 0
Apart u v ls = All (λ l. of_user u l ≡ true → of_user v l ≡ false) ls

-- Registering on an installed Hive gives the user a login and leaves the login of another user as
-- it was, if the new line is the user's alone and no line of the file is both users'.
pub register_sensor_lem :
    (creds : Creds) (h : Hive) (u : String)
    → h.installed ≡ true
    → of_user creds.username creds.htpasswd_line ≡ true
    → of_user u creds.htpasswd_line ≡ false
    → Apart u creds.username (lines h.lswebpasswd)
    → (has_login creds.username (register_sensor creds h).0 ≡ true)
      × (has_login u (register_sensor creds h).0 ≡ has_login u h)
unfolding register_sensor has_login
register_sensor_lem creds h u there own other apart = rw there (
  ground (arith, any_of-append (of_user creds.username) (others (lines h.lswebpasswd)) new, own),
  ground (
    arith,
    any_of-append (of_user u) (others (lines h.lswebpasswd)) new,
    any_of-keep_other (of_user u) (of_user creds.username) (lines h.lswebpasswd) apart,
    other,
  ),
)
  where
    new : List String
    new = creds.htpasswd_line ∷ []

    others : List String → List String
    others = keep (λ l. not (of_user creds.username l))

-- Deregistering takes the user's login, and with an .env file the user's token, away, and leaves
-- the login of another user as it was if no line of the file is both users'.
pub deregister_sensor_lem :
    (name : String) (h : Hive) (u : String)
    → Apart u name (lines h.lswebpasswd)
    → (has_login name (deregister_sensor name h) ≡ false)
      × (h.env_file ≡ true → has_token name (deregister_sensor name h) ≡ false)
      × (has_login u (deregister_sensor name h) ≡ has_login u h)
unfolding deregister_sensor has_login has_token
deregister_sensor_lem name h u apart =
    (no_line h.lswebpasswd, λ env. rw env (no_token h.ls_web_user), other_lines h.lswebpasswd apart)
  where
    no_line :
        (ls : Option (List String)) → any_of (of_user name) (lines (without_lines name ls)) ≡ false
    no_line none = refl
    no_line (some ls) = any_of-keep-not (of_user name) ls

    other_lines :
        (ls : Option (List String))
        → Apart u name (lines ls)
        → any_of (of_user u) (lines (without_lines name ls)) ≡ any_of (of_user u) (lines ls)
    other_lines none h = refl
    other_lines (some ls) h = any_of-keep_other (of_user u) (of_user name) ls h

    no_token :
        (ts : Option (List Token))
        → any_of (token_of_user name) (tokens (without_token name ts)) ≡ false
    no_token none = refl
    no_token (some ts) = any_of-keep-not (token_of_user name) ts
