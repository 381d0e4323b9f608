-- ===== src/Http/Feed.antt =====
-- The handlers of app/api.py on static addresses, and what they leave published.
use t_pot_sensor_deployer.Prelude.{
  ℕ, String, Bool, not, ◌&&◌, none, some, ◌≡◌, refl, arith, inl, inr, Bool-cases, Option-cases,
  ◌==◌, string_key, find, is_some, any_of, Outcome, ok, raised,
}
use t_pot_sensor_deployer.Fleet.{Db, Static, digitalocean, db_get_static_ips, db_remove_static_ip}
use t_pot_sensor_deployer.Edl.{
  Edl, Reply, done, refused, collect_entries, refresh, add_static_ip, move_static, update_static_ip,
  remove_static_ip, write_edl_file, get_all_entries, invalidate_cache, fresh_enough,
}
use t_pot_sensor_deployer.Http.{HttpError, bad_request, Server, Call, listing_for, write_feed}

-- The manager's answer, then the file again, with the DigitalOcean client.
unfoldable pub after_static : Call → Server → Reply × Db × Edl → Server × Outcome HttpError Reply
unfolding write_feed
after_static c v (refused why, db, edl) = (
  record { site = record v.site { db = db; published = edl.file }; edl_mgr = edl },
  raised bad_request,
)
after_static c v (done, db, edl) = (
  write_feed c.now (listing_for c digitalocean)
      (record { site = record v.site { db = db; published = edl.file }; edl_mgr = edl }),
  ok done,
)

-- The manager writes the file that is there.
unfoldable pub manager : Server → Edl
manager v = record v.edl_mgr { file = v.site.published }

module _ (is_valid_ip_or_cidr : String → Bool) where
  unfoldable pub add_static_edl_ip :
      Call → String → String → Server → Server × Outcome HttpError Reply
  unfolding after_static manager
  add_static_edl_ip c ip comment v =
      after_static c v (add_static_ip is_valid_ip_or_cidr c.now ip comment v.site.db (manager v))

  unfoldable pub update_static_edl_ip :
      Call → String → String → String → Server → Server × Outcome HttpError Reply
  unfolding after_static manager
  update_static_edl_ip c old_ip ip comment v =
      after_static c v
        (update_static_ip is_valid_ip_or_cidr c.now old_ip ip comment v.site.db (manager v))

  unfoldable pub remove_static_edl_ip : Call → String → Server → Server × Outcome HttpError Reply
  unfolding after_static manager
  remove_static_edl_ip c ip v =
      after_static c v (remove_static_ip is_valid_ip_or_cidr c.now ip v.site.db (manager v))

-- What an operation of the manager leaves of its fields.
unfoldable Cached : ℕ → Edl → Reply × Db × Edl → Type 0
Cached now old (refused why, db, m) = m.file ≡ old.file
Cached now old (done, db, m) =
    (m.cached_entries ≡ some (collect_entries db none)) × (m.cached_at ≡ now)

refresh-Cached :
    (test : String → Bool) (now : ℕ) (db : Db) (old m : Edl)
    → Cached now old (refresh test now db m)
unfolding Cached refresh write_edl_file get_all_entries invalidate_cache fresh_enough
refresh-Cached test now db old m = ground arith

module _ (test : String → Bool) where
  add_static_ip-Cached :
      (now : ℕ) (ip comment : String) (db : Db) (m : Edl)
      → Cached now m (add_static_ip test now ip comment db m)
  unfolding add_static_ip Cached
  add_static_ip-Cached now ip comment db m = elim (Bool-cases (test ip)) [
    | inr bad ↦ simp bad refl
    | inl fine ↦ elim (Bool-cases (any_of (λ (s : Static). s.ip == ip) (db_get_static_ips db))) [
      | inl there ↦ simp (fine, there) refl
      | inr new ↦ simp (fine, new) (refresh-Cached test now _ m m)
    ]
  ]

  move_static-Cached :
      (now : ℕ) (old ip comment : String) (entry : Static) (db : Db) (m : Edl)
      → Cached now m (move_static test now old ip comment entry db m)
  unfolding move_static Cached
  move_static-Cached now old ip comment entry db m =
      elim (Bool-cases (not (ip == old) && is_some (find ip db.statics))) [
        | inl there ↦ simp there refl
        | inr new ↦ simp new (refresh-Cached test now _ m m)
      ]

  update_static_ip-Cached :
      (now : ℕ) (old ip comment : String) (db : Db) (m : Edl)
      → Cached now m (update_static_ip test now old ip comment db m)
  unfolding update_static_ip Cached
  update_static_ip-Cached now old ip comment db m = elim (Bool-cases (test ip)) [
    | inr bad ↦ simp bad refl
    | inl fine ↦ elim (Option-cases (find old db.statics)) [
      | inl missing ↦ simp (fine, missing) refl
      | inr (entry, found) ↦ simp (fine, found) (move_static-Cached now old ip comment entry db m)
    ]
  ]

  remove_static_ip-Cached :
      (now : ℕ) (ip : String) (db : Db) (m : Edl) → Cached now m (remove_static_ip test now ip db m)
  unfolding remove_static_ip Cached
  remove_static_ip-Cached now ip db m = elim (Bool-cases (db_remove_static_ip ip db).1) [
    | inl removed ↦ simp removed (refresh-Cached test now _ m m)
    | inr missing ↦ simp missing refl
  ]

-- What a handler leaves published.
unfoldable pub Published : Server → Server × Outcome HttpError Reply → Type 0
Published v (v', raised e) = v'.site.published ≡ v.site.published
Published v (v', ok _) = v'.site.published ≡ collect_entries v'.site.db none

after_static-Published :
    (c : Call) (v : Server) (r : Reply × Db × Edl)
    → Cached c.now (manager v) r
    → Published v (after_static c v r)
unfolding after_static Published Cached manager write_feed write_edl_file get_all_entries
    fresh_enough
after_static-Published c v (refused why, db, edl) kept = kept
after_static-Published c v (done, db, edl) (held, since) = ground (arith, since, held)

-- Adding, changing and removing a static address over the web interface publish just what the rows
-- and the static list ask for, and nothing of the cloud's listing, whatever it has; an edit that is
-- refused leaves the list as it was.
pub statics-Published :
    (test : String → Bool) (c : Call) (old_ip ip comment : String) (v : Server)
    → Published v (add_static_edl_ip test c ip comment v)
      × Published v (update_static_edl_ip test c old_ip ip comment v)
      × Published v (remove_static_edl_ip test c ip v)
unfolding add_static_edl_ip update_static_edl_ip remove_static_edl_ip
statics-Published test c old ip comment v = (
  after_static-Published c v _ (add_static_ip-Cached test c.now ip comment v.site.db (manager v)),
  after_static-Published c v _
      (update_static_ip-Cached test c.now old ip comment v.site.db (manager v)),
  after_static-Published c v _ (remove_static_ip-Cached test c.now ip v.site.db (manager v)),
)
