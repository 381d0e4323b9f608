-- ===== src/Deploy/Ends.antt =====
-- How the task of a deployment job ends.
use t_pot_sensor_deployer.Prelude.{
  ℕ, String, ◌+◌, Bool, true, false, not, Option, none, some, ◌≡◌, refl, ◌⊎◌, inl, inr, arith,
  length, if◌then◌else◌, Outcome, ok, raised,
}
use mathlib.Core.Path.{subst}
use t_pot_sensor_deployer.Fleet.{is_gcp}
use t_pot_sensor_deployer.Site.{Site}
use t_pot_sensor_deployer.Task.{Queue, completed, failed, get_task_status}
use t_pot_sensor_deployer.Task.Lifecycle.{status-set_task_status}
use t_pot_sensor_deployer.Deploy.Setup.{
  Setup, Plan, DeployPayload, JobError, at_least_one, do_preflight, gcp_preflight, check_type,
  check_machine, unless, do_plan, gcp_plan, TypeInfo, sensor_type_of, no_project_id, no_credentials,
  no_token,
}
use t_pot_sensor_deployer.Deploy.Machine.{Job, Step}
use t_pot_sensor_deployer.Deploy.Job.{run_plan, run_checked, start, end_job, job_fn, preflight}
use t_pot_sensor_deployer.Deploy.Complete.{job_fn_lem}
use t_pot_sensor_deployer.Deploy.Counts.{CountsAll, run_plan-CountsAll}

-- The task reads as completed, with a deployed machine for each that was asked for, or as failed,
-- and then the job has raised.
abbrev pub Ended : Setup → String → ℕ → Step → Type 0
Ended e task_id count r =
    ((r.1 ≡ none)
      × ((get_task_status e.online task_id r.0.queue).status ≡ completed)
      × (length r.0.deployed ≡ count))
    ⊎ ((error : JobError) × (r.1 ≡ some error)
        × ((get_task_status e.online task_id r.0.queue).status ≡ failed))

end_job-Ended :
    (e : Setup) (task_id : String) (count : ℕ) (r : Step)
    → CountsAll count r
    → Ended e task_id count (end_job e task_id r)
unfolding end_job
end_job-Ended e task_id count (j, none) (inr (fine, made)) =
    inl
      (refl, status-set_task_status e.online task_id completed (some j.deployed) none j.queue, made)
end_job-Ended e task_id count (j, none) (inl (error, ended)) = absurd (ground (arith, ended))
end_job-Ended e task_id count (j, some error) ended =
    inr (
      error,
      refl,
      status-set_task_status e.online task_id failed none (some (e.error_text error)) _,
    )

-- A plan has the count, where there is one.
abbrev Planned : ℕ → Outcome JobError Plan → Type 0
Planned n (raised error) = Unit
Planned n (ok plan) = plan.count ≡ n

check_type-Planned :
    (e : Setup) (p : DeployPayload) (n : ℕ) (plan : TypeInfo → Plan) (found : Option TypeInfo)
    → ((info : TypeInfo) → (plan info).count ≡ n)
    → Planned n (check_type e p plan found)
unfolding check_type unless
check_type-Planned e p n plan none counts = tt
check_type-Planned e p n plan (some info) counts =
    unless-Planned (check_machine e (sensor_type_of p)) (plan info) (counts info)
  where
    unless-Planned :
        (refusal : Option JobError) (made : Plan) → made.count ≡ n → Planned n (unless refusal made)
    unless-Planned (some error) made counts = tt
    unless-Planned none made counts = counts

preflight-Planned :
    (e : Setup) (task_id : String) (p : DeployPayload)
    → Planned (at_least_one p.count) (preflight e task_id p)
unfolding preflight do_preflight gcp_preflight do_plan gcp_plan
preflight-Planned e task_id p =
    let n : ℕ = at_least_one p.count in
    let by_do =
      check_type-Planned e p n (do_plan task_id p) (e.sensor_types (sensor_type_of p))
        (λ info. refl) in
    let by_gcp =
      check_type-Planned e p n (gcp_plan e task_id p) (e.sensor_types (sensor_type_of p))
        (λ info. refl) in
    all_branches (is_gcp p.provider) e.gcp_project_id e.gcp_credentials e.do_token _ _ by_do by_gcp
  where
    all_branches :
        (on_gcp project credentials token : Bool) (a b : Outcome JobError Plan)
        → Planned (at_least_one p.count) a
        → Planned (at_least_one p.count) b
        → Planned (at_least_one p.count) (
            if on_gcp
            then (if not project
                then raised no_project_id
                else if not credentials
                then raised no_credentials
                else b)
            else if not token
            then raised no_token
            else a)
    all_branches true false credentials token a b ha hb = tt
    all_branches true true false token a b ha hb = tt
    all_branches true true true token a b ha hb = hb
    all_branches false project credentials false a b ha hb = tt
    all_branches false project credentials true a b ha hb = ha

-- A deployment job ends its task, whatever its calls answer: as completed, with one deployed machine
-- for each that was asked for and at least one, or as failed, with an exception.
pub job_fn-Ended :
    (e : Setup) (task_id : String) (p : DeployPayload) (s : Site) (q : Queue)
    → Ended e task_id (at_least_one p.count) (job_fn e task_id p s q)
unfolding run_checked
job_fn-Ended e task_id p s q =
    rw job_fn_lem (checked (preflight e task_id p) (preflight-Planned e task_id p))
  where
    n : ℕ
    n = at_least_one p.count

    begun : Job
    begun = start e task_id s q

    checked :
        (c : Outcome JobError Plan)
        → Planned n c
        → Ended e task_id n (end_job e task_id (run_checked e begun c))
    checked (raised error) planned =
        end_job-Ended e task_id n (begun, some error) (inl (error, refl))
    checked (ok plan) planned =
        let counted : CountsAll (0 + plan.count) (run_plan e plan begun) =
          unfold start in run_plan-CountsAll e plan begun in
        let total : 0 + plan.count ≡ n = omega (arith, planned) in
        end_job-Ended e task_id n (run_plan e plan begun)
          (subst (λ k. CountsAll k (run_plan e plan begun)) total counted)
