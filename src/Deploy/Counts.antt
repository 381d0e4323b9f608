-- ===== src/Deploy/Counts.antt =====
-- How many machines a deployment job has deployed.
use t_pot_sensor_deployer.Prelude.{
  ℕ, zero, suc, String, ◌+◌, Bool, true, false, Option, none, some, List, [], ◌∷◌, ◌≡◌, refl, sym,
  ap, ◌∙◌, ◌⊎◌, inl, inr, arith, length, length-append, if◌then◌else◌, Outcome, ok, raised,
  Bool-cases, Option-cases,
}
use mathlib.Core.Path.{subst}
use t_pot_sensor_deployer.Fleet.{Db, Sensor, Lease, db_save_active_droplet}
use t_pot_sensor_deployer.Duration.{ValueError}
use t_pot_sensor_deployer.Provision.{ProvisionError, configure_and_verify}
use t_pot_sensor_deployer.Deploy.Create.{Created, CreateError}
use t_pot_sensor_deployer.Deploy.Setup.{
  Setup, Plan, Attempt, JobError, type_known, ensuring_key, ssh_key_failed, machine_active,
  creating, leased,
}
use t_pot_sensor_deployer.Deploy.Machine.{
  Job, Step, on_db, log, emit, log_warnings, register_login, creation, with_machine, refresh_edl,
  save_as, has_ttl, finish_machine, after_configure, configure_machine, save_machine, after_lease,
  after_create, deploy_machine, ttl_seconds, sensor_name, admin_ssh_port, new_row,
}
use t_pot_sensor_deployer.Deploy.Job.{deploy_all, firewall, announce, rest_of_job, run_plan}

deployed-emit :
    (e : Setup) (plan : Plan) (lines : List (String × Option ℕ)) (j : Job)
    → (emit e plan lines j).deployed ≡ j.deployed
unfolding emit
deployed-emit e plan [] j = refl
deployed-emit e plan (l ∷ lines) j = deployed-emit e plan lines _

deployed-log_warnings :
    (e : Setup) (plan : Plan) (ws : List String) (j : Job)
    → (log_warnings e plan ws j).deployed ≡ j.deployed
unfolding log_warnings log
deployed-log_warnings e plan [] j = refl
deployed-log_warnings e plan (w ∷ ws) j = deployed-log_warnings e plan ws _

-- A step that does not raise has deployed one machine more.
abbrev Counts : ℕ → Step → Type 0
Counts n r =
    ((error : JobError) × (r.1 ≡ some error)) ⊎ ((r.1 ≡ none) × (length r.0.deployed ≡ n + 1))

after_configure-Counts :
    (e : Setup) (plan : Plan) (a : Attempt) (row : Sensor) (j : Job)
    (result : Outcome ProvisionError (List String))
    → Counts (length j.deployed) (after_configure e plan a row j result)
unfolding after_configure finish_machine save_as log refresh_edl
after_configure-Counts e plan a row j (raised error) = inl (_, refl)
after_configure-Counts e plan a row j (ok warnings) =
    inr (refl, rw deployed-log_warnings (length-append j.deployed (row.id ∷ [])))

save_machine-Counts :
    (e : Setup) (plan : Plan) (a : Attempt) (name : String) (m : Created) (lease : Option Lease)
    (j : Job) (secs : Outcome ValueError (Option ℕ))
    → Counts (length j.deployed) (save_machine e plan a name m lease j secs)
unfolding save_machine configure_machine
save_machine-Counts e plan a name m lease j (raised error) = inl (_, refl)
save_machine-Counts e plan a name m lease j (ok secs) =
    let row : Sensor = new_row plan a name m lease secs in
    subst
      (λ ds.
        Counts (length ds) (configure_machine e plan a row (on_db (db_save_active_droplet row) j)))
      (deployed-emit e plan a.configure_lines (on_db (db_save_active_droplet row) j))
      (unfold configure_machine in
        after_configure-Counts e plan a row
          (emit e plan a.configure_lines (on_db (db_save_active_droplet row) j))
          (configure_and_verify a.provision plan.sensor_type admin_ssh_port))

deployed-if_leased :
    (b : Bool) (e : Setup) (plan : Plan) (j : Job)
    → (if b then log e plan leased j else j).deployed ≡ j.deployed
unfolding log
deployed-if_leased true e plan j = refl
deployed-if_leased false e plan j = refl

after_lease-Counts :
    (e : Setup) (plan : Plan) (a : Attempt) (name : String) (m : Created) (j : Job)
    (result : Outcome ValueError (Option Lease × Db))
    → Counts (length j.deployed) (after_lease e plan a name m j result)
unfolding after_lease
after_lease-Counts e plan a name m j (raised error) = inl (_, refl)
after_lease-Counts e plan a name m j (ok (lease, db)) =
    let j' : Job =
      if has_ttl plan.ttl then log e plan leased (on_db (λ _. db) j) else on_db (λ _. db) j in
    subst (λ ds. Counts (length ds) (save_machine e plan a name m lease j' (ttl_seconds plan.ttl)))
      (deployed-if_leased (has_ttl plan.ttl) e plan (on_db (λ _. db) j))
      (save_machine-Counts e plan a name m lease j' (ttl_seconds plan.ttl))

after_create-Counts :
    (e : Setup) (plan : Plan) (a : Attempt) (name : String) (j : Job)
    (result : Outcome CreateError Created)
    → Counts (length j.deployed) (after_create e plan a name j result)
unfolding after_create log
after_create-Counts e plan a name j (raised error) = inl (_, refl)
after_create-Counts e plan a name j (ok m) =
    after_lease-Counts e plan a name m (log e plan machine_active j) _

deployed-asked :
    (e : Setup) (plan : Plan) (a : Attempt) (on_gcp : Bool) (name : String) (made : Option ℕ)
    (j : Job)
    → (with_machine on_gcp name made (log e plan creating (register_login e plan a j))).deployed
      ≡ j.deployed
unfolding with_machine register_login log
deployed-asked e plan a on_gcp name none j = ground arith
deployed-asked e plan a on_gcp name (some id) j = ground arith

deploy_machine-Counts :
    (e : Setup) (plan : Plan) (idx : ℕ) (j : Job)
    → Counts (length j.deployed) (deploy_machine e plan idx j)
unfolding deploy_machine
deploy_machine-Counts e plan idx j =
    let a : Attempt = e.attempts idx in
    let name : String = sensor_name e plan idx in
    let up : Job =
      with_machine plan.on_gcp name (creation plan a).0
        (log e plan creating (register_login e plan a j)) in
    subst (λ ds. Counts (length ds) (deploy_machine e plan idx j))
      (deployed-emit e plan a.poll_lines up
        ∙ deployed-asked e plan a plan.on_gcp name (creation plan a).0 j)
      (after_create-Counts e plan a name (emit e plan a.poll_lines up) (creation plan a).1)

-- A loop that does not raise has deployed a machine in each of its rounds.
abbrev pub CountsAll : ℕ → Step → Type 0
CountsAll n r =
    ((error : JobError) × (r.1 ≡ some error)) ⊎ ((r.1 ≡ none) × (length r.0.deployed ≡ n))

deploy_all-CountsAll :
    (e : Setup) (plan : Plan) (left idx : ℕ) (j : Job)
    → CountsAll (length j.deployed + left) (deploy_all e plan left idx j)
unfolding deploy_all
deploy_all-CountsAll e plan zero idx j = inr (refl, omega arith)
deploy_all-CountsAll e plan (suc left) idx j = elim (deploy_machine-Counts e plan idx j) [
  | inl (error, ended) ↦ inl (error, rw (deploy_all, ended) refl)
  | inr (went_on, more) ↦
      let j' : Job = (deploy_machine e plan idx j).0 in
      let total : length j'.deployed + left ≡ length j.deployed + suc left = omega (arith, more) in
      rw (deploy_all, went_on)
        (subst (λ n. CountsAll n (deploy_all e plan left (suc idx) j')) total
          (deploy_all-CountsAll e plan left (suc idx) j'))
]

deployed-announce : (e : Setup) (plan : Plan) (j : Job) → (announce e plan j).deployed ≡ j.deployed
unfolding announce log
deployed-announce e plan j = ground arith

deployed-firewall : (e : Setup) (plan : Plan) (j : Job) → (firewall e plan j).deployed ≡ j.deployed
unfolding firewall log
deployed-firewall e plan j = ground arith

rest_of_job-CountsAll :
    (e : Setup) (plan : Plan) (j : Job)
    → CountsAll (length j.deployed + plan.count) (rest_of_job e plan j)
unfolding rest_of_job
rest_of_job-CountsAll e plan j =
    let ready : Job = firewall e plan j in
    let start_length : length ready.deployed ≡ length j.deployed =
      ap length (deployed-firewall e plan j) in
    elim (deploy_all-CountsAll e plan plan.count 0 ready) [
      | inl (error, ended) ↦ inl (error, rw (rest_of_job, ended) refl)
      | inr (all, made) ↦
          let counted : length (announce e plan (deploy_all e plan plan.count 0 ready).0).deployed
              ≡ length j.deployed + plan.count =
            ap length (deployed-announce e plan (deploy_all e plan plan.count 0 ready).0)
            ∙ made
            ∙ ap (λ n. n + plan.count) start_length in
          inr (rw (rest_of_job, all) refl, rw (rest_of_job, all) counted)
    ]

pub run_plan-CountsAll :
    (e : Setup) (plan : Plan) (j : Job)
    → CountsAll (length j.deployed + plan.count) (run_plan e plan j)
unfolding run_plan log
run_plan-CountsAll e plan j = elim (Bool-cases plan.on_gcp) [
  | inl on ↦
      let known : Job = log e plan type_known j in
      let same : run_plan e plan j ≡ rest_of_job e plan known = ground (arith, on) in
      subst (CountsAll (length j.deployed + plan.count)) (sym same)
        (rest_of_job-CountsAll e plan known)
  | inr off ↦ elim (Option-cases e.ensure_ssh_key) [
    | inl fine ↦
        let known : Job = log e plan ensuring_key (log e plan type_known j) in
        let same : run_plan e plan j ≡ rest_of_job e plan known = ground (arith, off, fine) in
        subst (CountsAll (length j.deployed + plan.count)) (sym same)
          (rest_of_job-CountsAll e plan known)
    | inr (error, refused) ↦
        let known : Job = log e plan ensuring_key (log e plan type_known j) in
        let same : run_plan e plan j ≡ (known, some (ssh_key_failed error)) =
          ground (arith, off, refused) in
        inl (ssh_key_failed error, ap (λ r. r.1) same)
  ]
]
