-- ===== src/Task/Recent.antt =====
-- The list of recent tasks: its length and its repetitions.
use t_pot_sensor_deployer.Prelude.{
  ℕ, zero, suc, String, ◌≤◌, Bool, true, false, not, ◌&&◌, some, List, [], ◌∷◌, ◌≡◌, refl, arith,
  inl, inr, Bool-cases, ◌==◌, nat_key, string_key, find, find-put_self, is_same_refl, any_of, keep,
  take, length, length-take-le, Distinct,
}
use t_pot_sensor_deployer.Task.Defs.{Meta, Queue, record_task, lrem, first_seen, recent_ids}

any_of-lrem :
    (x id : String) (xs : List String)
    → any_of (λ j. j == x) (lrem id xs) ≡ (any_of (λ j. j == x) xs && not (id == x))
unfolding lrem keep
any_of-lrem x id [] = refl
any_of-lrem x id (y ∷ xs) = ground (
  arith,
  any_of-lrem x id xs,
  string_key.is_same_iff y id,
  string_key.is_same_iff y x,
  string_key.is_same_iff id x,
)

lrem-Distinct : (id : String) (xs : List String) → Distinct xs → Distinct (lrem id xs)
unfolding Distinct lrem keep
lrem-Distinct id [] d = d
lrem-Distinct id (x ∷ xs) (once, d) =
    ground (arith, any_of-lrem x id xs, lrem-Distinct id xs d, once)

any_of-take :
    (x : String) (n : ℕ) (xs : List String)
    → any_of (λ j. j == x) xs ≡ false
    → any_of (λ j. j == x) (take n xs) ≡ false
any_of-take x zero xs h = refl
any_of-take x (suc n) [] h = refl
any_of-take x (suc n) (y ∷ xs) h = ground (arith, any_of-take x n xs)

take-Distinct : (n : ℕ) (xs : List String) → Distinct xs → Distinct (take n xs)
unfolding Distinct
take-Distinct zero xs d = _
take-Distinct (suc n) [] d = _
take-Distinct (suc n) (x ∷ xs) (once, d) = (any_of-take x n xs once, take-Distinct n xs d)

pub record_task-Distinct :
    (id : String) (meta : Meta) (q : Queue)
    → Distinct q.recent
    → (find id (record_task true id meta q).metas ≡ some meta)
      × (length (record_task true id meta q).recent ≤ 100)
      × Distinct (record_task true id meta q).recent
unfolding record_task Distinct
record_task-Distinct id meta q d =
    let apart : any_of (λ j. j == id) (lrem id q.recent) ≡ false =
      ground (arith, any_of-lrem id id q.recent, string_key.is_same_iff id id) in
    (
      find-put_self id meta q.metas,
      length-take-le 100 (id ∷ lrem id q.recent),
      take-Distinct 100 (id ∷ lrem id q.recent) (apart, lrem-Distinct id q.recent d),
    )

any_of-first_seen :
    (x : String) (seen ids : List String)
    → any_of (λ j. j == x) seen ≡ true
    → any_of (λ j. j == x) (first_seen seen ids) ≡ false
unfolding first_seen
any_of-first_seen x seen [] h = refl
any_of-first_seen x seen (y ∷ ids) h = elim (Bool-cases (any_of (λ j. j == y) seen)) [
  | inl again ↦ simp again (any_of-first_seen x seen ids h)
  | inr new ↦
      let other : (y == x) ≡ false = ground (arith, h, new, string_key.is_same_iff y x) in
      simp (new, other, any_of-first_seen x (y ∷ seen) ids (simp (h, other) refl)) refl
]

first_seen-Distinct : (seen ids : List String) → Distinct (first_seen seen ids)
unfolding first_seen Distinct
first_seen-Distinct seen [] = _
first_seen-Distinct seen (y ∷ ids) = elim (Bool-cases (any_of (λ j. j == y) seen)) [
  | inl again ↦ simp again (first_seen-Distinct seen ids)
  | inr new ↦ simp new (
    any_of-first_seen y (y ∷ seen) ids (simp (is_same_refl y) refl),
    first_seen-Distinct (y ∷ seen) ids,
  )
]

length-first_seen : (seen ids : List String) → length (first_seen seen ids) ≤ length ids
unfolding first_seen
length-first_seen seen [] = omega arith
length-first_seen seen (y ∷ ids) = elim (Bool-cases (any_of (λ j. j == y) seen)) [
  | inl again ↦ simp again (omega (arith, length-first_seen seen ids))
  | inr new ↦ simp new (omega (arith, length-first_seen (y ∷ seen) ids))
]

-- The ids that the task list reads are at most as many as were asked for and none is there twice,
-- whatever the stored list holds.
pub recent_ids-Distinct :
    (online : Bool) (limit : ℕ) (q : Queue)
    → Distinct (recent_ids online limit q) × (length (recent_ids online limit q) ≤ limit)
unfolding recent_ids
recent_ids-Distinct true limit q = (
  first_seen-Distinct [] (take limit q.recent),
  omega (arith, length-first_seen [] (take limit q.recent), length-take-le limit q.recent),
)
recent_ids-Distinct false limit q = (
  first_seen-Distinct [] (take limit q.fallback_ids),
  omega (
    arith,
    length-first_seen [] (take limit q.fallback_ids),
    length-take-le limit q.fallback_ids,
  ),
)
