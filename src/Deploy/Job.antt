-- ===== src/Deploy/Job.antt =====
-- The two deployment jobs from their start to the task's end.
use t_pot_sensor_deployer.Prelude.{
  ℕ, zero, suc, String, none, some, [], if◌then◌else◌, Outcome, ok, raised,
}
use t_pot_sensor_deployer.Fleet.{is_gcp}
use t_pot_sensor_deployer.Site.{Site, new_edl}
use t_pot_sensor_deployer.Task.{
  Queue, running, completed, failed, publish_task_log, set_task_status,
}
use t_pot_sensor_deployer.Deploy.Setup.{
  Setup, Plan, DeployPayload, JobError, ssh_key_failed, initializing, type_known, ensuring_key,
  ensuring_firewall, firewall_ready, firewall_note, all_deployed, hint, admin_hint, job_failed,
  percent_of, do_preflight, gcp_preflight,
}
use t_pot_sensor_deployer.Deploy.Machine.{Job, Step, log, deploy_machine}

-- The loop: the rounds that are left, and the round's number.
unfoldable pub deploy_all : Setup → Plan → ℕ → ℕ → Job → Step
deploy_all e plan zero idx j = (j, none)
deploy_all e plan (suc left) idx j =
    let (j', error) = deploy_machine e plan idx j in
    elim error [
      | some raised_error ↦ (j', some raised_error)
      | none ↦ deploy_all e plan left (suc idx) j'
    ]

unfoldable pub firewall : Setup → Plan → Job → Job
unfolding log
firewall e plan j =
    if plan.attach_firewall
    then log e plan (if e.firewall then firewall_ready else firewall_note)
        (log e plan ensuring_firewall j)
    else j

-- Both lists of machines are not empty where this is reached.
unfoldable pub announce : Setup → Plan → Job → Job
unfolding log
announce e plan j =
    let j' = log e plan all_deployed j in
    log e plan admin_hint (if plan.has_test_commands then log e plan hint j' else j')

unfoldable pub rest_of_job : Setup → Plan → Job → Step
unfolding firewall announce deploy_all
rest_of_job e plan j =
    let (j', error) = deploy_all e plan plan.count 0 (firewall e plan j) in
    elim error [ some raised_error ↦ (j', some raised_error) | none ↦ (announce e plan j', none) ]

-- The work of a job after its checks. Only DigitalOcean's has the key to register.
unfoldable pub run_plan : Setup → Plan → Job → Step
unfolding rest_of_job log
run_plan e plan j =
    let known = log e plan type_known j in
    if plan.on_gcp then rest_of_job e plan known else elim e.ensure_ssh_key [
      | some error ↦ (log e plan ensuring_key known, some (ssh_key_failed error))
      | none ↦ rest_of_job e plan (log e plan ensuring_key known)
    ]

unfoldable pub run_checked : Setup → Job → Outcome JobError Plan → Step
unfolding run_plan
run_checked e j (raised error) = (j, some error)
run_checked e j (ok plan) = run_plan e plan j

unfoldable pub start : Setup → String → Site → Queue → Job
start e task_id site queue = record {
  site = site;
  queue =
      publish_task_log e.online task_id (e.wording initializing) (percent_of initializing)
        (set_task_status e.online task_id running none none queue);
  edl = new_edl site;
  deployed = [];
}

-- What the job returns, or the handler of its exception.
unfoldable pub end_job : Setup → String → Step → Step
end_job e task_id (j, none) = (
  record j { queue = set_task_status e.online task_id completed (some j.deployed) none j.queue },
  none,
)
end_job e task_id (j, some error) = (
  record j {
    queue =
        set_task_status e.online task_id failed none (some (e.error_text error))
          (publish_task_log e.online task_id (e.wording (job_failed error)) none j.queue);
  },
  some error,
)

-- The state after the job, and the exception that it raises.
unfoldable pub run_do_deployment_job : Setup → String → DeployPayload → Site → Queue → Step
unfolding start run_checked end_job
run_do_deployment_job e task_id payload site queue =
    end_job e task_id (run_checked e (start e task_id site queue) (do_preflight e task_id payload))

unfoldable pub run_gcp_deployment_job : Setup → String → DeployPayload → Site → Queue → Step
unfolding start run_checked end_job
run_gcp_deployment_job e task_id payload site queue =
    end_job e task_id (run_checked e (start e task_id site queue) (gcp_preflight e task_id payload))

-- `job_fn` of a request, and the checks of that job.
unfoldable pub job_fn : Setup → String → DeployPayload → Site → Queue → Step
unfolding run_do_deployment_job run_gcp_deployment_job
job_fn e task_id payload =
    if is_gcp payload.provider
    then run_gcp_deployment_job e task_id payload
    else run_do_deployment_job e task_id payload

unfoldable pub preflight : Setup → String → DeployPayload → Outcome JobError Plan
preflight e task_id payload =
    if is_gcp payload.provider
    then gcp_preflight e task_id payload
    else do_preflight e task_id payload
