-- ===== src/Deploy/Tracked.antt =====
-- That a deployment job loses no machine that it made.
use t_pot_sensor_deployer.Prelude.{
  ℕ, zero, suc, String, Bool, true, false, Option, none, some, List, [], ◌∷◌, ◌++◌, ◌≡◌, refl, sym,
  ap, ◌∙◌, ◌⊎◌, inl, inr, arith, All, find, nat_key, is_some, if◌then◌else◌, Outcome, ok, raised,
  Bool-cases, Outcome-cases, Option-cases,
}
use mathlib.Core.Path.{subst}
use t_pot_sensor_deployer.Fleet.{Db, Lease}
use t_pot_sensor_deployer.Site.{Site, Machine}
use t_pot_sensor_deployer.Deploy.Create.{
  CloudAnswers, Created, CreateError, Poll, wait_droplet, create_droplet, wait_instance,
  create_instance, created_machine, first_query,
}
use t_pot_sensor_deployer.Deploy.Setup.{Setup, Plan, Attempt, creating, machine_active, leased}
use t_pot_sensor_deployer.Deploy.Machine.{
  Job, on_db, log, emit, register_login, creation, with_machine, drop_login, save_machine,
  after_lease, after_create, deploy_machine, lease_machine, ttl_seconds, has_ttl, sensor_name,
}
use t_pot_sensor_deployer.Deploy.Rows.{
  Grows, Saved, Keeps-Saved, is_positive, site-emit, save_machine-Saved, lease_machine-Leased,
}

id-wait_droplet :
    (fuel : ℕ) (a : CloudAnswers) (id i : ℕ) (m : Created)
    → wait_droplet fuel a id i ≡ ok m
    → m.id ≡ id
unfolding wait_droplet created_machine
id-wait_droplet zero a id i m up = absurd (ground (arith, up))
id-wait_droplet (suc fuel) a id i m up = ground (arith, up, id-wait_droplet fuel a id (suc i) m)

id-wait_instance :
    (fuel : ℕ) (a : CloudAnswers) (id i : ℕ) (p : Poll) (m : Created)
    → wait_instance fuel a id i p ≡ ok m
    → m.id ≡ id
unfolding wait_instance created_machine
id-wait_instance zero a id i p m up = ground (arith, up)
id-wait_instance (suc fuel) a id i p m up = elim (Outcome-cases (a.polls i)) [
  | inl (error, failed) ↦ ground (arith, up, failed)
  | inr (q, answered) ↦ ground (arith, up, answered, id-wait_instance fuel a id (suc i) q m)
]

made-create_droplet :
    (a : CloudAnswers) (m : Created)
    → (create_droplet a).1 ≡ ok m
    → (create_droplet a).0 ≡ some m.id
unfolding create_droplet
made-create_droplet a m = elim (Outcome-cases a.request) [
  | inl (error, failed) ↦ rw failed (λ up. absurd (ground (arith, up)))
  | inr (id, done) ↦ rw done (λ up. ap some (sym (id-wait_droplet 102 a id 0 m up)))
]

id-first_query :
    (a : CloudAnswers) (id : ℕ) (o : Outcome String Poll) (m : Created)
    → first_query a id o ≡ ok m
    → m.id ≡ id
unfolding first_query
id-first_query a id (raised error) m up = absurd (ground (arith, up))
id-first_query a id (ok p) m up = id-wait_instance 21 a id 1 p m up

made-create_instance :
    (a : CloudAnswers) (m : Created)
    → (create_instance a).1 ≡ ok m
    → (create_instance a).0 ≡ some m.id
unfolding create_instance
made-create_instance a m = elim (Outcome-cases a.request) [
  | inl (error, failed) ↦ rw failed (λ up. absurd (ground (arith, up)))
  | inr (id, done) ↦ rw done (elim (Option-cases a.operation) [
    | inl fine ↦ rw fine (λ up. ap some (sym (id-first_query a id (a.polls 0) m up)))
    | inr (error, failed) ↦ rw failed (λ up. absurd (ground (arith, up)))
  ])
]

-- A call that gives a machine gives the one that it made.
creation_lem :
    (plan : Plan) (a : Attempt) (m : Created)
    → (creation plan a).1 ≡ ok m
    → (creation plan a).0 ≡ some m.id
unfolding creation
creation_lem plan a m = elim (Bool-cases plan.on_gcp) [
  | inl on ↦ rw on (made-create_instance a.cloud m)
  | inr off ↦ rw off (made-create_droplet a.cloud m)
]

-- A machine whose create call raised after the cloud had made it.
abbrev pub Lost : Setup → Plan → ℕ → Type 0
Lost e plan id =
    (i : ℕ) × (error : CreateError) × (creation plan (e.attempts i) ≡ (some id, raised error))

-- The machine has its row and, with a lifespan of some seconds, its lease, or is lost.
abbrev pub Tracked : Setup → Plan → Option ℕ → Db → Machine → Type 0
Tracked e plan secs d m =
    ((is_some (find m.id d.sensors) ≡ true)
      × (is_positive secs ≡ true → is_some (find m.id d.leases) ≡ true))
    ⊎ Lost e plan m.id

-- What the job has done from one site to the next.
abbrev pub Tracks : Setup → Plan → Option ℕ → Site → Site → Type 0
Tracks e plan secs s s' =
    (new : List Machine) × (s'.machines ≡ new ++ s.machines)
    × All (Tracked e plan secs s'.db) new
    × Grows s.db s'.db

-- The machine has its row and its lease, and what was there before is kept.
abbrev Done : ℕ → Option ℕ → Site → Site → Type 0
Done id secs s s' =
    Saved id s s' × (is_positive secs ≡ true → is_some (find id s'.db.leases) ≡ true)

site-if_leased :
    (b : Bool) (e : Setup) (plan : Plan) (j : Job)
    → (if b then log e plan leased j else j).site ≡ j.site
unfolding log
site-if_leased true e plan j = refl
site-if_leased false e plan j = refl

after_lease-Done :
    (e : Setup) (plan : Plan) (a : Attempt) (name : String) (m : Created) (j : Job)
    (secs : Option ℕ)
    → ttl_seconds plan.ttl ≡ ok secs
    → Done m.id secs j.site
        (after_lease e plan a name m j (lease_machine plan.ttl plan a name m j.site.db)).0.site
unfolding after_lease
after_lease-Done e plan a name m j secs reads =
    let (lease, d, made, (rows, leases, new)) =
      lease_machine-Leased plan.ttl plan a name m j.site.db secs reads in
    rw (made, reads) (with_lease lease d rows leases new (has_ttl plan.ttl))
  where
    with_lease :
        (lease : Option Lease) (d : Db)
        → d.sensors ≡ j.site.db.sensors
        → ((i : ℕ) → is_some (find i j.site.db.leases) ≡ true → is_some (find i d.leases) ≡ true)
        → (is_positive secs ≡ true → is_some (find m.id d.leases) ≡ true)
        → (b : Bool)
        → Done m.id secs j.site
            (save_machine e plan a name m lease
              (if b then log e plan leased (on_db (λ _. d) j) else on_db (λ _. d) j)
              (ok secs)).0.site
    with_lease lease d rows leases new b =
        let j' : Job = if b then log e plan leased (on_db (λ _. d) j) else on_db (λ _. d) j in
        let same : j'.site ≡ (on_db (λ _. d) j).site = site-if_leased b e plan (on_db (λ _. d) j) in
        let saved : Saved m.id (on_db (λ _. d) j).site
            (save_machine e plan a name m lease j' (ok secs)).0.site =
          subst (λ s. Saved m.id s (save_machine e plan a name m lease j' (ok secs)).0.site) same
            (save_machine-Saved e plan a name m lease j' secs) in
        (
          Keeps-Saved m.id j.site (on_db (λ _. d) j).site
              (save_machine e plan a name m lease j' (ok secs)).0.site
              (refl, (λ i had. rw rows had, leases)) saved,
          λ some_time. saved.0.1.1 m.id (new some_time),
        )

db-register_login :
    (e : Setup) (plan : Plan) (a : Attempt) (j : Job)
    → ((register_login e plan a j).site.db ≡ j.site.db)
      × ((register_login e plan a j).site.machines ≡ j.site.machines)
unfolding register_login log
db-register_login e plan a j = ground arith

db-drop_login :
    (plan : Plan) (a : Attempt) (j : Job)
    → ((drop_login plan a j).site.db ≡ j.site.db)
      × ((drop_login plan a j).site.machines ≡ j.site.machines)
unfolding drop_login
db-drop_login plan a j = ground arith

abbrev new_machines : Bool → String → Option ℕ → List Machine
new_machines on_gcp name none = []
new_machines on_gcp name (some id) = record { on_gcp = on_gcp; id = id; name = name } ∷ []

-- `s` is the site before the round, and `j` the job when the create call has ended.
after_create-Tracks :
    (e : Setup) (plan : Plan) (idx : ℕ) (name : String) (secs : Option ℕ) (made : Option ℕ)
    (result : Outcome CreateError Created) (s : Site) (j : Job)
    → ttl_seconds plan.ttl ≡ ok secs
    → creation plan (e.attempts idx) ≡ (made, result)
    → j.site.db ≡ s.db
    → j.site.machines ≡ new_machines plan.on_gcp name made ++ s.machines
    → Tracks e plan secs s (after_create e plan (e.attempts idx) name j result).0.site
unfolding after_create log
after_create-Tracks e plan idx name secs made (raised error) s j reads came db machines =
    let (db', machines') = db-drop_login plan (e.attempts idx) j in
    (
      new_machines plan.on_gcp name made,
      machines' ∙ machines,
      lost made came,
      (λ id had. rw (db', db) had, λ id had. rw (db', db) had),
    )
  where
    lost :
        (made : Option ℕ)
        → creation plan (e.attempts idx) ≡ (made, raised error)
        → All
            (Tracked e plan secs (drop_login plan (e.attempts idx) j).site.db)
            (new_machines plan.on_gcp name made)
    lost none came = tt
    lost (some id) came = (inr (idx, error, came), tt)
after_create-Tracks e plan idx name secs none (ok m) s j reads came db machines =
    let own = creation_lem plan (e.attempts idx) m (ap (λ c. c.1) came) in
    absurd (ground (arith, own, ap (λ c. c.0) came))
after_create-Tracks e plan idx name secs (some id) (ok m) s j reads came db machines =
    let own = creation_lem plan (e.attempts idx) m (ap (λ c. c.1) came) in
    let same : m.id ≡ id = ground (arith, own, ap (λ c. c.0) came) in
    let (((kept, (rows, leases)), has), on_time) =
      after_lease-Done e plan (e.attempts idx) name m (log e plan machine_active j) secs reads in
    (
      new_machines plan.on_gcp name (some id),
      kept ∙ machines,
      (inl (rw (← same) has, λ some_time. rw (← same) (on_time some_time)), tt),
      (λ i had. rows i (rw db had), λ i had. leases i (rw db had)),
    )

site-with_machine :
    (on_gcp : Bool) (name : String) (made : Option ℕ) (j : Job)
    → ((with_machine on_gcp name made j).site.db ≡ j.site.db)
      × ((with_machine on_gcp name made j).site.machines
          ≡ new_machines on_gcp name made ++ j.site.machines)
unfolding with_machine
site-with_machine on_gcp name none j = (refl, refl)
site-with_machine on_gcp name (some id) j = (refl, refl)

pub deploy_machine-Tracks :
    (e : Setup) (plan : Plan) (idx : ℕ) (secs : Option ℕ) (j : Job)
    → ttl_seconds plan.ttl ≡ ok secs
    → Tracks e plan secs j.site (deploy_machine e plan idx j).0.site
unfolding deploy_machine log
deploy_machine-Tracks e plan idx secs j reads =
    let a : Attempt = e.attempts idx in
    let name : String = sensor_name e plan idx in
    let made : Option ℕ = (creation plan a).0 in
    let asked : Job = log e plan creating (register_login e plan a j) in
    let (db, machines) = db-register_login e plan a j in
    let (db', machines') = site-with_machine plan.on_gcp name made asked in
    let polled = site-emit e plan a.poll_lines (with_machine plan.on_gcp name made asked) in
    after_create-Tracks e plan idx name secs made (creation plan a).1 j.site
      (emit e plan a.poll_lines (with_machine plan.on_gcp name made asked)) reads refl
      (ap (λ s. s.db) polled ∙ db' ∙ db)
      (ap (λ s. s.machines) polled
        ∙ machines'
        ∙ ap (λ ms. new_machines plan.on_gcp name made ++ ms) machines)
