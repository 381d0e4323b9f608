-- ===== src/Edl/Statics.antt =====
-- The operations on the static addresses.
use t_pot_sensor_deployer.Prelude.{
  ℕ, String, ◌≡◌, refl, Bool, true, false, not, ◌&&◌, [], ◌∷◌, arith, Bool-cases, Option-cases, inl,
  inr, if◌then◌else◌, All, Table, find, put, remove, is_some, any_of, string_key, ◌==◌,
}
use t_pot_sensor_deployer.Fleet.{
  Db, Static, db_get_static_ips, db_add_static_ip, db_remove_static_ip,
}
use t_pot_sensor_deployer.Edl.Defs.{
  Edl, add_static_ip, update_static_ip, remove_static_ip, move_static, refresh,
}

module _ (P : String × Static → Type 0) where
  put-All :
      (k : String) (s : Static) (t : Table String Static) → P (k, s) → All P t → All P (put k s t)
  unfolding put
  put-All k s [] one all = (one, tt)
  put-All k s ((j, old) ∷ t) one (first, rest) = elim (Bool-cases (j == k)) [
    | inl same ↦ simp same (one, rest)
    | inr other ↦ simp other (first, put-All k s t one rest)
  ]

  remove-All : (k : String) (t : Table String Static) → All P t → All P (remove k t)
  unfolding remove
  remove-All k [] all = tt
  remove-All k ((j, old) ∷ t) (first, rest) = elim (Bool-cases (j == k)) [
    | inl same ↦ simp same (remove-All k t rest)
    | inr other ↦ simp other (first, remove-All k t rest)
  ]

-- Every stored address is one that the test accepts, and stands under itself.
unfoldable pub IsValid : (String → Bool) → Db → Type 0
IsValid test db = All (λ r. (test r.1.ip ≡ true) × (r.0 ≡ r.1.ip)) db.statics

module _ (test : String → Bool) where
  add-IsValid :
      (ip comment : String) (added_at : ℕ) (db : Db)
      → test ip ≡ true
      → IsValid test db
      → IsValid test (db_add_static_ip ip comment added_at db)
  unfolding IsValid db_add_static_ip
  add-IsValid ip comment added_at db ok valid = put-All _ ip _ db.statics (ok, refl) valid

  remove-IsValid :
      (ip : String) (db : Db) → IsValid test db → IsValid test (db_remove_static_ip ip db).0
  unfolding IsValid db_remove_static_ip
  remove-IsValid ip db valid = remove-All _ ip db.statics valid

  add_static_ip-IsValid :
      (now : ℕ) (ip comment : String) (db : Db) (m : Edl)
      → IsValid test db
      → IsValid test (add_static_ip test now ip comment db m).1
  unfolding add_static_ip refresh
  add_static_ip-IsValid now ip comment db m valid = elim (Bool-cases (test ip)) [
    | inr bad ↦ simp bad valid
    | inl fine ↦ elim (Bool-cases (any_of (λ (s : Static). s.ip == ip) (db_get_static_ips db))) [
      | inl there ↦ simp (fine, there) valid
      | inr new ↦ simp (fine, new) (add-IsValid ip comment now db fine valid)
    ]
  ]

  moved-IsValid :
      (old ip : String) (db : Db) (b : Bool)
      → IsValid test db
      → IsValid test (if b then db else (db_remove_static_ip old db).0)
  moved-IsValid old ip db true valid = valid
  moved-IsValid old ip db false valid = remove-IsValid old db valid

  move_static-IsValid :
      (now : ℕ) (old ip comment : String) (entry : Static) (db : Db) (m : Edl)
      → test ip ≡ true
      → IsValid test db
      → IsValid test (move_static test now old ip comment entry db m).1
  unfolding move_static refresh
  move_static-IsValid now old ip comment entry db m fine valid =
      elim (Bool-cases (not (ip == old) && is_some (find ip db.statics))) [
        | inl there ↦ simp there valid
        | inr new ↦ simp new (
            add-IsValid ip comment entry.added_at _ fine
              (moved-IsValid old ip db (ip == old) valid))
      ]

  update_static_ip-IsValid :
      (now : ℕ) (old ip comment : String) (db : Db) (m : Edl)
      → IsValid test db
      → IsValid test (update_static_ip test now old ip comment db m).1
  unfolding update_static_ip
  update_static_ip-IsValid now old ip comment db m valid = elim (Bool-cases (test ip)) [
    | inr bad ↦ simp bad valid
    | inl fine ↦ elim (Option-cases (find old db.statics)) [
      | inl missing ↦ simp (fine, missing) valid
      | inr (entry, found) ↦
          simp (fine, found) (move_static-IsValid now old ip comment entry db m fine valid)
    ]
  ]

  remove_static_ip-IsValid :
      (now : ℕ) (ip : String) (db : Db) (m : Edl)
      → IsValid test db
      → IsValid test (remove_static_ip test now ip db m).1
  unfolding remove_static_ip refresh
  remove_static_ip-IsValid now ip db m valid = ground (arith, remove-IsValid ip db valid)

-- Adding, changing and removing a static address, on every branch, keep every stored address one
-- that the address test accepts, under itself as its key.
pub statics-IsValid :
    (test : String → Bool) (now : ℕ) (old ip comment : String) (db : Db) (m : Edl)
    → IsValid test db
    → IsValid test (add_static_ip test now ip comment db m).1
      × IsValid test (update_static_ip test now old ip comment db m).1
      × IsValid test (remove_static_ip test now ip db m).1
statics-IsValid test now old ip comment db m valid = (
  add_static_ip-IsValid test now ip comment db m valid,
  update_static_ip-IsValid test now old ip comment db m valid,
  remove_static_ip-IsValid test now ip db m valid,
)
