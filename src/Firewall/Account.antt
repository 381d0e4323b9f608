-- ===== src/Firewall/Account.antt =====
-- The firewalls of the DigitalOcean account around the sensors' one.
use t_pot_sensor_deployer.Prelude.{
  String, Bool, true, ◌||◌, List, [], ◌∷◌, ◌++◌, ◌≡◌, refl, ap, ◌∙◌, arith, ◌⊎◌, inl, inr,
  Bool-cases, ◌==◌, string_key, any_of, any_of-append, insert_by, order_by, length,
}
use t_pot_sensor_deployer.Firewall.{
  Firewall, Request, unique, sorted_set, fw_tags, rules_of, is_sensor_firewall, updated, created,
  ensure_sensor_firewall,
}

any_of-insert_by {ℓ} :
    {A : Type ℓ} (before : A → A → Bool) (p : A → Bool) (x : A) (xs : List A)
    → any_of p (insert_by before x xs) ≡ (p x || any_of p xs)
unfolding insert_by
any_of-insert_by before p x [] = refl
any_of-insert_by before p x (y ∷ ys) = ground (arith, any_of-insert_by before p x ys)

any_of-order_by {ℓ} :
    {A : Type ℓ} (before : A → A → Bool) (p : A → Bool) (xs : List A)
    → any_of p (order_by before xs) ≡ any_of p xs
unfolding order_by
any_of-order_by before p [] = refl
any_of-order_by before p (x ∷ xs) =
    any_of-insert_by before p x (order_by before xs)
    ∙ ap (λ b. p x || b) (any_of-order_by before p xs)

any_of-unique :
    (s : String) (ts : List String) → any_of (λ u. u == s) (unique ts) ≡ any_of (λ u. u == s) ts
unfolding unique
any_of-unique s [] = refl
any_of-unique s (t ∷ ts) =
    ground (arith, any_of-unique s ts, any_of-unique t ts, string_key.is_same_iff t s)

any_of-sorted_set :
    (s : String) (ts : List String) → any_of (λ u. u == s) (sorted_set ts) ≡ any_of (λ u. u == s) ts
unfolding sorted_set
any_of-sorted_set s ts = any_of-order_by _ (λ u. u == s) (unique ts) ∙ any_of-unique s ts

abbrev tagged : List String → Bool
tagged ts = any_of (λ t. t == "tpot-sensor") ts

tagged-fw_tags : (r : Request) → tagged (fw_tags r) ≡ true
unfolding fw_tags
tagged-fw_tags r =
    any_of-sorted_set "tpot-sensor" ("tpot-sensor" ∷ "tpot-cowrie-sensor" ∷ r.extra_tag ∷ [])

tagged-updated : (r : Request) (f : Firewall) → tagged (updated r f).tags ≡ true
unfolding updated
tagged-updated r f =
    any_of-sorted_set "tpot-sensor" (f.tags ++ fw_tags r)
    ∙ any_of-append (λ t. t == "tpot-sensor") f.tags (fw_tags r)
    ∙ ground (arith, tagged-fw_tags r)

-- One firewall of the account has the returned id, the tag and the rules; it is new or stands for one
-- with its id, and all others are as they were.
abbrev pub Ensured : Request → List Firewall → List Firewall × String → Type 0
Ensured r fws (fws', id) =
    (f : Firewall) × (first : List Firewall) × (later : List Firewall) × (fws' ≡ first ++ f ∷ later)
    × (f.id ≡ id)
    × (f.inbound ≡ rules_of r)
    × (any_of (λ t. t == "tpot-sensor") f.tags ≡ true)
    × ((fws ≡ first ++ later) ⊎ ((old : Firewall) × (fws ≡ first ++ old ∷ later) × (old.id ≡ id)))

ensure-Ensured :
    (r : Request) (new_id : String) (fws : List Firewall)
    → Ensured r fws (ensure_sensor_firewall r new_id fws)
unfolding ensure_sensor_firewall
ensure-Ensured r new_id [] = (
  created r new_id,
  [],
  [],
  refl,
  (unfold created in refl),
  (unfold created in refl),
  (unfold created in tagged-fw_tags r),
  inl refl,
)
ensure-Ensured r new_id (f ∷ fws) = elim (Bool-cases (is_sensor_firewall r f)) [
  | inl found ↦ simp found (
    updated r f,
    [],
    fws,
    refl,
    (unfold updated in refl),
    (unfold updated in refl),
    tagged-updated r f,
    inr (f, refl, refl),
  )
  | inr other ↦
      let (g, first, later, all, own, rules, tag, before) = ensure-Ensured r new_id fws in
      simp other (
        g,
        f ∷ first,
        later,
        ap (λ xs. f ∷ xs) all,
        own,
        rules,
        tag,
        elim before [
          | inl new ↦ inl (ap (λ xs. f ∷ xs) new)
          | inr (old, there, same) ↦ inr (old, ap (λ xs. f ∷ xs) there, same)
        ],
      )
]

is_sensor_firewall-tagged :
    (r : Request) (f : Firewall) → tagged f.tags ≡ true → is_sensor_firewall r f ≡ true
unfolding is_sensor_firewall
is_sensor_firewall-tagged r f tag = ground (arith, tag)

-- No firewall is created where one has the tag.
length-ensure :
    (r : Request) (new_id : String) (fws : List Firewall)
    → any_of (λ f. tagged f.tags) fws ≡ true
    → length (ensure_sensor_firewall r new_id fws).0 ≡ length fws
unfolding ensure_sensor_firewall
length-ensure r new_id [] held = ground (arith, held)
length-ensure r new_id (f ∷ fws) held = elim (Bool-cases (is_sensor_firewall r f)) [
  | inl found ↦ simp found refl
  | inr other ↦
      let rest : any_of (λ g. tagged g.tags) fws ≡ true =
        ground (arith, held, other, is_sensor_firewall-tagged r f) in
      simp other (ground (arith, length-ensure r new_id fws rest))
]

-- After the call one firewall of the account has the id that the call returned, the sensors' tag and
-- exactly the rules of the request; it is new, or it replaces one with its id; and every other firewall
-- of the account is as it was. A later call, for any request, creates no further one.
pub ensure_sensor_firewall-Ensured :
    (r r' : Request) (new_id new_id' : String) (fws : List Firewall)
    → Ensured r fws (ensure_sensor_firewall r new_id fws)
      × (length (ensure_sensor_firewall r' new_id' (ensure_sensor_firewall r new_id fws).0).0
          ≡ length (ensure_sensor_firewall r new_id fws).0)
ensure_sensor_firewall-Ensured r r' new_id new_id' fws =
    let (f, first, later, all, own, rules, tag, before) = ensure-Ensured r new_id fws in
    let held : any_of (λ g. tagged g.tags) (ensure_sensor_firewall r new_id fws).0 ≡ true =
      rw all (any_of-append (λ g. tagged g.tags) first (f ∷ later) ∙ ground (arith, tag)) in
    ((f, first, later, all, own, rules, tag, before), length-ensure r' new_id' _ held)
