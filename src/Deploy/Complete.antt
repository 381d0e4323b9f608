-- ===== src/Deploy/Complete.antt =====
-- A deployment job as a whole: what it leaves of the machines that it made, and how its task ends.
use t_pot_sensor_deployer.Prelude.{
  ℕ, zero, suc, String, Option, none, some, List, [], ◌∷◌, ◌++◌, ◌≡◌, refl, sym, ap, ◌∙◌, inl, inr,
  arith, All, nat_key, string_key, All-append, ok, Bool-cases, Option-cases,
}
use mathlib.Core.Path.{subst}
use mathlib.Core.List.{append_assoc}
use t_pot_sensor_deployer.Fleet.{Db, is_gcp}
use t_pot_sensor_deployer.Site.{Site, Machine}
use t_pot_sensor_deployer.Task.{Queue}
use t_pot_sensor_deployer.Deploy.Setup.{
  type_known, ensuring_key, ssh_key_failed, Setup, Plan, DeployPayload,
}
use t_pot_sensor_deployer.Deploy.Machine.{Job, Step, log, deploy_machine, ttl_seconds}
use t_pot_sensor_deployer.Deploy.Rows.{Grows}
use t_pot_sensor_deployer.Deploy.Job.{
  deploy_all, firewall, announce, rest_of_job, run_plan, run_checked, start, end_job,
  run_do_deployment_job, run_gcp_deployment_job, job_fn, preflight,
}
use t_pot_sensor_deployer.Deploy.Tracked.{Tracked, Tracks, deploy_machine-Tracks}

site-announce : (e : Setup) (plan : Plan) (j : Job) → (announce e plan j).site ≡ j.site
unfolding announce log
site-announce e plan j = ground arith

site-firewall : (e : Setup) (plan : Plan) (j : Job) → (firewall e plan j).site ≡ j.site
unfolding firewall log
site-firewall e plan j = ground arith

module _ (e : Setup) (plan : Plan) (secs : Option ℕ) where
  Tracked-Grows :
      (d d' : Db)
      → Grows d d'
      → (ms : List Machine) → All (Tracked e plan secs d) ms
      → All (Tracked e plan secs d') ms
  Tracked-Grows d d' (rows, leases) [] all = tt
  Tracked-Grows d d' (rows, leases) (m ∷ ms) (inr lost, all) =
      (inr lost, Tracked-Grows d d' (rows, leases) ms all)
  Tracked-Grows d d' (rows, leases) (m ∷ ms) (inl (row, lease), all) = (
    inl (rows m.id row, λ some_time. leases m.id (lease some_time)),
    Tracked-Grows d d' (rows, leases) ms all,
  )

  Tracks-trans :
      (s s1 s2 : Site)
      → Tracks e plan secs s s1
      → Tracks e plan secs s1 s2
      → Tracks e plan secs s s2
  Tracks-trans s s1 s2 (new, made, all, (rows, leases)) (new', made', all', (rows', leases')) = (
    new' ++ new,
    made' ∙ ap (λ ms. new' ++ ms) made ∙ sym (append_assoc new' new s.machines),
    All-append (Tracked e plan secs s2.db) new' new all'
        (Tracked-Grows s1.db s2.db (rows', leases') new all),
    (λ i had. rows' i (rows i had), λ i had. leases' i (leases i had)),
  )

  deploy_all-Tracks :
      ttl_seconds plan.ttl ≡ ok secs
      → (left idx : ℕ) (j : Job) → Tracks e plan secs j.site (deploy_all e plan left idx j).0.site
  unfolding deploy_all
  deploy_all-Tracks reads zero idx j = ([], refl, tt, (λ i had. had, λ i had. had))
  deploy_all-Tracks reads (suc left) idx j =
      let first = deploy_machine-Tracks e plan idx secs j reads in
      elim (Option-cases (deploy_machine e plan idx j).1) [
        | inl went_on ↦
            rw (deploy_all, went_on)
              (Tracks-trans j.site (deploy_machine e plan idx j).0.site
                (deploy_all e plan left (suc idx) (deploy_machine e plan idx j).0).0.site first
                (deploy_all-Tracks reads left (suc idx) (deploy_machine e plan idx j).0))
        | inr (error, ended) ↦ rw (deploy_all, ended) first
      ]

  rest_of_job-Tracks :
      ttl_seconds plan.ttl ≡ ok secs
      → (j : Job) → Tracks e plan secs j.site (rest_of_job e plan j).0.site
  unfolding rest_of_job
  rest_of_job-Tracks reads j =
      let ready : Job = firewall e plan j in
      let same : ready.site ≡ j.site = site-firewall e plan j in
      let done : Tracks e plan secs j.site (deploy_all e plan plan.count 0 ready).0.site =
        subst (λ s. Tracks e plan secs s (deploy_all e plan plan.count 0 ready).0.site) same
          (deploy_all-Tracks reads plan.count 0 ready) in
      elim (Option-cases (deploy_all e plan plan.count 0 ready).1) [
        | inl all ↦
            rw (rest_of_job, all)
              (subst (λ s. Tracks e plan secs j.site s)
                (sym (site-announce e plan (deploy_all e plan plan.count 0 ready).0)) done)
        | inr (error, ended) ↦ rw (rest_of_job, ended) done
      ]

  run_plan-Tracks :
      ttl_seconds plan.ttl ≡ ok secs
      → (j : Job) → Tracks e plan secs j.site (run_plan e plan j).0.site
  unfolding run_plan log
  run_plan-Tracks reads j = elim (Bool-cases plan.on_gcp) [
    | inl on ↦
        let known : Job = log e plan type_known j in
        let same : run_plan e plan j ≡ rest_of_job e plan known = ground (arith, on) in
        subst (λ r. Tracks e plan secs j.site r.0.site) (sym same) (rest_of_job-Tracks reads known)
    | inr off ↦ elim (Option-cases e.ensure_ssh_key) [
      | inl fine ↦
          let known : Job = log e plan ensuring_key (log e plan type_known j) in
          let same : run_plan e plan j ≡ rest_of_job e plan known = ground (arith, off, fine) in
          subst (λ r. Tracks e plan secs j.site r.0.site) (sym same)
            (rest_of_job-Tracks reads known)
      | inr (error, failed) ↦
          let known : Job = log e plan ensuring_key (log e plan type_known j) in
          let same : run_plan e plan j ≡ (known, some (ssh_key_failed error)) =
            ground (arith, off, failed) in
          subst (λ r. Tracks e plan secs j.site r.0.site) (sym same)
            ([], refl, tt, (λ i had. had, λ i had. had))
    ]
  ]

site-end_job : (e : Setup) (task_id : String) (r : Step) → (end_job e task_id r).0.site ≡ r.0.site
unfolding end_job
site-end_job e task_id (j, none) = refl
site-end_job e task_id (j, some error) = refl

pub job_fn_lem :
    (e : Setup) (task_id : String) (p : DeployPayload) (s : Site) (q : Queue)
    → job_fn e task_id p s q
      ≡ end_job e task_id (run_checked e (start e task_id s q) (preflight e task_id p))
unfolding job_fn preflight run_do_deployment_job run_gcp_deployment_job
job_fn_lem e task_id p s q = elim (Bool-cases (is_gcp p.provider)) [
  | inl on ↦ rw on refl
  | inr off ↦ rw off refl
]

-- A deployment job that passes its checks, with a lifespan that can be read or none, leaves the
-- machines that were there and their rows and leases, and every machine that it made has its row
-- and, if the lifespan is more than 0 seconds, its lease, however the job ends, except a machine
-- whose create call raised after the cloud had made it.
pub job_fn-Tracks :
    (e : Setup) (task_id : String) (p : DeployPayload) (s : Site) (q : Queue) (plan : Plan)
    (secs : Option ℕ)
    → preflight e task_id p ≡ ok plan
    → ttl_seconds plan.ttl ≡ ok secs
    → Tracks e plan secs s (job_fn e task_id p s q).0.site
unfolding run_checked
job_fn-Tracks e task_id p s q plan secs checked reads =
    let ran = run_plan-Tracks e plan secs reads (start e task_id s q) in
    let same : job_fn e task_id p s q ≡ end_job e task_id (run_plan e plan (start e task_id s q)) =
      job_fn_lem e task_id p s q
      ∙ ap (λ c. end_job e task_id (run_checked e (start e task_id s q) c)) checked in
    subst (λ r. Tracks e plan secs s r.0.site) (sym same)
      (subst (λ t. Tracks e plan secs s t)
        (sym (site-end_job e task_id (run_plan e plan (start e task_id s q))))
        (unfold start in ran))
