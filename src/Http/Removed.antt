-- ===== src/Http/Removed.antt =====
-- What deleting a sensor leaves.
use t_pot_sensor_deployer.Prelude.{
  ℕ, String, Bool, false, ◌&&◌, not, none, ◌≡◌, refl, sym, ap, ◌∙◌, arith, inl, inr, Bool-cases,
  ◌==◌, if◌then◌else◌, nat_key, string_key, find, find-remove, find-remove_self, Outcome, ok,
  raised, is_ok,
}
use mathlib.Core.Path.{subst}
use t_pot_sensor_deployer.Fleet.{
  Db, Provider, is_gcp, db_delete_active_droplet, db_delete_lease, db_record_sensor_destroy,
}
use t_pot_sensor_deployer.Edl.{collect_entries, write_edl_file, get_all_entries, invalidate_cache}
use t_pot_sensor_deployer.Site.{
  Site, without_droplet, without_instance, destroy_droplet, destroy_instance,
}
use t_pot_sensor_deployer.Lease.{cancel_lease}
use t_pot_sensor_deployer.Http.{Server, Call, HttpError, on_db, listing_for, republish, write_feed}
use t_pot_sensor_deployer.Http.Sensors.{
  provider_of, name_of, destroyed, forgotten, deregistered, after_destroy, delete_droplet,
}

-- Whether the destroy call of the sensor's provider is made and returns.
unfoldable pub can_destroy : Call → Provider → ℕ → String → Bool
can_destroy c p id name =
    if is_gcp p
    then not (name == "") && c.cloud.destroys_instance name
    else c.cloud.destroys_droplet id

-- The rows and leases of all other ids are as they were.
abbrev pub Forgot : ℕ → Db → Db → Type 0
Forgot id old new =
    (find id new.sensors ≡ none)
    × (find id new.leases ≡ none)
    × ((j : ℕ)
        → (id == j) ≡ false
        → (find j new.sensors ≡ find j old.sensors) × (find j new.leases ≡ find j old.leases))

unfoldable pub Removed :
    Call → Provider → ℕ → String → Server → Server × Outcome HttpError ℕ → Type 0
Removed c p id name v (v', raised e) = v' ≡ v
Removed c p id name v (v', ok _) =
    Forgot id v.site.db v'.site.db
    × (v'.site.machines ≡ (
        if is_gcp p
        then without_instance name v.site.machines
        else without_droplet id v.site.machines))
    × (v'.site.published ≡ collect_entries v'.site.db (listing_for c p))

forgotten-Forgot : (c : Call) (id : ℕ) (v : Server) → Forgot id v.site.db (forgotten c id v).site.db
unfolding forgotten on_db db_delete_active_droplet cancel_lease db_delete_lease
    db_record_sensor_destroy
forgotten-Forgot c id v = (
  find-remove_self id v.site.db.sensors,
  find-remove_self id v.site.db.leases,
  λ j other. (simp (find-remove, other) refl, simp (find-remove, other) refl),
)

-- The file is rebuilt from the rows: the cache was dropped before.
published-republish :
    (c : Call) (p : Provider) (v : Server)
    → (republish c.now (listing_for c p) v).site.published
      ≡ collect_entries v.site.db (listing_for c p)
unfolding republish write_feed write_edl_file get_all_entries invalidate_cache
published-republish c p v = ground arith

destroyed-is_ok :
    (c : Call) (p : Provider) (id : ℕ) (name : String) (s : Site)
    → is_ok (destroyed c.cloud p id name s) ≡ can_destroy c p id name
unfolding destroyed can_destroy
destroyed-is_ok c p id name s = ground arith

after_destroy-is_ok :
    (c : Call) (p : Provider) (id : ℕ) (flag : Bool) (name : String) (v : Server)
    (o : Outcome HttpError Site)
    → is_ok (after_destroy c p id flag name v o).1 ≡ is_ok o
unfolding after_destroy
after_destroy-is_ok c p id flag name v (ok s) = refl
after_destroy-is_ok c p id flag name v (raised e) = refl

-- The machine is gone, and the database is as it was.
unfoldable Struck : Provider → ℕ → String → Site → Outcome HttpError Site → Type 0
Struck p id name s (raised e) = Unit
Struck p id name s (ok s') =
    (s'.db ≡ s.db)
    × (s'.machines
        ≡ (if is_gcp p then without_instance name s.machines else without_droplet id s.machines))

destroyed-Struck :
    (c : Call) (p : Provider) (id : ℕ) (name : String) (s : Site)
    → Struck p id name s (destroyed c.cloud p id name s)
unfolding destroyed Struck destroy_droplet destroy_instance
destroyed-Struck c p id name s = elim (Bool-cases (is_gcp p)) [
  | inl gcp ↦ elim (Bool-cases (name == "")) [
    | inl empty ↦ simp (gcp, empty) tt
    | inr named ↦ elim (Bool-cases (c.cloud.destroys_instance name)) [
      | inl gone ↦ simp (gcp, named, gone) (refl, refl)
      | inr stays ↦ simp (gcp, named, stays) tt
    ]
  ]
  | inr droplet ↦ elim (Bool-cases (c.cloud.destroys_droplet id)) [
    | inl gone ↦ simp (droplet, gone) (refl, refl)
    | inr stays ↦ simp (droplet, stays) tt
  ]
]

site-deregistered :
    (flag : Bool) (name : String) (v : Server)
    → ((deregistered flag name v).site.db ≡ v.site.db)
      × ((deregistered flag name v).site.machines ≡ v.site.machines)
      × ((deregistered flag name v).site.published ≡ v.site.published)
unfolding deregistered
site-deregistered flag name v = ground arith

after_destroy-Removed :
    (c : Call) (p : Provider) (id : ℕ) (flag : Bool) (name : String) (v : Server)
    (o : Outcome HttpError Site)
    → Struck p id name v.site o
    → Removed c p id name v (after_destroy c p id flag name v o)
unfolding after_destroy Removed Struck
after_destroy-Removed c p id flag name v (raised e) struck = refl
after_destroy-Removed c p id flag name v (ok s) (same, machines) =
    let gone : Server = forgotten c id (record v { site = s }) in
    let shown : Server = republish c.now (listing_for c p) gone in
    let (db, kept, published) = site-deregistered flag name shown in
    let rows : Forgot id s.db shown.site.db =
      unfold republish write_feed in forgotten-Forgot c id (record v { site = s }) in
    let by : gone.site.machines ≡ s.machines = unfold forgotten on_db in refl in
    let by' : shown.site.machines ≡ gone.site.machines = unfold republish write_feed in refl in
    let same' : shown.site.db ≡ gone.site.db = unfold republish write_feed in refl in
    (
      subst (λ old. Forgot id old (deregistered flag name shown).site.db) same
          (subst (Forgot id s.db) (sym db) rows),
      kept ∙ by' ∙ by ∙ machines,
      published
          ∙ published-republish c p gone
          ∙ ap (λ d. collect_entries d (listing_for c p)) (sym (db ∙ same')),
    )

-- Deleting a sensor answers that it did exactly if the provider's destroy call is made (for GCP it
-- needs a name) and returns. Then the machine, the row and the lease are gone, no other row or lease
-- has changed, and the published list is what the rows and the listing give; otherwise the server is
-- as it was.
pub delete_droplet_lem :
    (c : Call) (id : ℕ) (deregister_hive : Bool) (sensor_name : String) (v : Server)
    → let row = find id v.site.db.sensors in
      let name = name_of sensor_name row in
      (is_ok (delete_droplet c id deregister_hive sensor_name v).1
        ≡ can_destroy c (provider_of row) id name)
      × Removed c (provider_of row) id name v (delete_droplet c id deregister_hive sensor_name v)
unfolding delete_droplet
delete_droplet_lem c id flag given v =
    let row = find id v.site.db.sensors in
    let p = provider_of row in
    let name = name_of given row in
    let o : Outcome HttpError Site = destroyed c.cloud p id name v.site in
    (
      after_destroy-is_ok c p id flag name v o ∙ destroyed-is_ok c p id name v.site,
      after_destroy-Removed c p id flag name v o (destroyed-Struck c p id name v.site),
    )
