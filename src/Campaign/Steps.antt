-- ===== src/Campaign/Steps.antt =====
-- The helpers of `SchedulerManager`: tasks, the TTL backstop, the next rebuild and failures.
-- A line for scheduler.log or the task's log changes none of this state, and is left out.
use t_pot_sensor_deployer.Prelude.{
  ℕ, zero, suc, String, ◌+◌, ◌-◌, ◌*◌, ◌/◌, ◌^◌, false, ◌||◌, not, Option, none, some, List, [],
  ◌∷◌, ◌++◌, leb, ltb, ◌==◌, if◌then◌else◌, nat_key, string_key, or_else, Outcome, ok, raised,
}
use t_pot_sensor_deployer.Duration.{seconds, ValueError}
use t_pot_sensor_deployer.Duration.Decimal.{decimal}
use t_pot_sensor_deployer.Fleet.{
  Db, Lease, Stamp, at, fromisoformat, is_gcp, db_delete_lease, db_delete_active_droplet,
}
use t_pot_sensor_deployer.Lease.{Request, schedule_lease}
use t_pot_sensor_deployer.Task.{
  TaskStatus, TaskType, running, failed, campaign_deploy, campaign_destroy, unknown_meta, Queue,
  record_task, publish_task_log, set_task_status, update_task_meta,
}
use t_pot_sensor_deployer.Campaign.Records.{
  cooling_down, suspended, Action, deploy, destroy, weekly, random_window, interval,
  breaker_tripped, attempt_failed, State, Timing, Schedule, has_id,
}
use t_pot_sensor_deployer.Campaign.World.{Env, Run, on_state, on_queue, on_db}

abbrev pub max_concurrent_provisioning : ℕ
max_concurrent_provisioning = 3

abbrev pub provisioning_timeout_minutes : ℕ
provisioning_timeout_minutes = 30

abbrev pub max_consecutive_failures : ℕ
max_consecutive_failures = 3

abbrev pub provisioning_backstop_minutes : ℕ
provisioning_backstop_minutes = provisioning_timeout_minutes + 15

abbrev pub campaign_backstop_buffer_seconds : ℕ
campaign_backstop_buffer_seconds = 24 * 3600

abbrev pub pause_backstop_seconds : ℕ
pause_backstop_seconds = 30 * 86400

abbrev pub minutes : ℕ → ℕ
minutes n = seconds (n * 60)

-- A timestamp field that is set and can be read.
abbrev pub instant : Option Stamp → Option ℕ
instant none = none
instant (some s) = fromisoformat s

abbrev pub text_or : Option String → String → String
text_or none d = d
text_or (some s) d = if s == "" then d else s

close_task :
    Env
    → TaskStatus
    → Option String
    → Option (List ℕ)
    → Option String
    → Option String
    → Queue
    → Queue
close_task e status error deployed message none q = q
close_task e status error deployed message (some id) q =
    set_task_status e.online id status deployed error (logged message q)
  where
    logged : Option String → Queue → Queue
    logged none r = r
    logged (some m) r = publish_task_log e.online id m none r

-- `_task_end`
unfoldable pub task_end :
    Env → TaskStatus → Option String → Option (List ℕ) → Option String → Run → Run
unfolding close_task
task_end e status error deployed message r =
    on_state (λ st. record st { task_id = none })
      (on_queue (close_task e status error deployed message r.schedule.state.task_id) r)

task_type : Action → TaskType
task_type deploy = campaign_deploy
task_type destroy = campaign_destroy

overridden : Action → String
overridden deploy = "Stopped before it finished: a campaign deploy started"
overridden destroy = "Stopped before it finished: a campaign destroy started"

-- `_task_begin`; the task's cycle number, for display, is left out.
unfoldable pub task_begin : Env → Action → Run → Run
unfolding task_end task_type overridden
task_begin e kind r0 =
    let r = task_end e failed (some (overridden kind)) none none r0 in
    on_state (λ st. record st { task_id = some e.uuid })
      (on_queue
        (record_task e.online e.uuid (record unknown_meta {
          task_type = task_type kind;
          sensor_name = text_or r.schedule.state.current_droplet_name r.schedule.name;
          status = running;
          campaign_id = some r.schedule.id;
        }))
        r)

rename_task : Env → String → Option String → Queue → Queue
rename_task e name none q = q
rename_task e name (some id) q = update_task_meta e.online id name q

-- `_task_rename`
unfoldable pub task_rename : Env → String → Run → Run
unfolding rename_task
task_rename e name r = on_queue (rename_task e name r.schedule.state.task_id) r

backstop_region : Schedule → Option String
backstop_region s =
    if is_gcp s.config.provider
    then some s.config.zone
    else some (text_or s.state.current_region s.config.region)

unfoldable pub backstop_request : Schedule → ℕ → ℕ → Request
unfolding backstop_region
backstop_request s id ttl = record {
  droplet_id = id;
  droplet_name = text_or s.state.current_droplet_name "sensor";
  ttl_text = decimal (ttl / 1000000) ++ b's' ∷ [];
  sensor_user = s.state.current_sensor_user;
  sensor_type = s.config.sensor_type;
  provider = s.config.provider;
  region = backstop_region s;
}

-- An exception is logged, and nothing was written.
unfoldable pub leased_db : Db → Outcome ValueError (Option Lease × Db) → Db
leased_db db (ok (_, db')) = db'
leased_db db (raised _) = db

-- `_schedule_backstop_lease`, for a time to live in microseconds; the printed id in the default name
-- is left out.
unfoldable pub schedule_backstop_lease : Env → ℕ → Run → Run
unfolding leased_db
schedule_backstop_lease e ttl r =
    let request = backstop_request r.schedule (or_else r.schedule.state.current_droplet_id 0) ttl in
    if not (has_id r.schedule.state.current_droplet_id) || ttl == 0
    then r
    else on_db (λ db. leased_db db (schedule_lease e.now request db)) r

-- `_cancel_backstop_lease`, and the row of `active_droplets` that goes before it.
unfoldable pub forget_sensor : Option ℕ → Run → Run
forget_sensor none r = r
forget_sensor (some zero) r = r
forget_sensor (some (suc n)) r =
    on_db (λ db. (db_delete_lease (suc n) (db_delete_active_droplet (suc n) db).0).0) r

after_week : ℕ → ℕ → Option ℕ → ℕ
after_week now fallback none = fallback
after_week now fallback (some start) =
    let next = start + seconds (7 * 86400) in if ltb now next then next else fallback

-- `_calculate_next_rebuild`
unfoldable pub calculate_next_rebuild : Env → Timing → Option ℕ → ℕ
unfolding after_week
calculate_next_rebuild e t cycle_started_at = elim t.mode [
  | weekly ↦ after_week e.now (e.now + seconds t.cooldown_duration_seconds) cycle_started_at
  | random_window ↦
      let least = t.cooldown_min_seconds in
      let most =
        if ltb t.cooldown_max_seconds least then least + 3600 else t.cooldown_max_seconds in
      e.now + seconds (e.randint least most)
  | interval ↦ e.now + seconds t.cooldown_duration_seconds
]

-- What `_handle_failure` clears in both cases.
cleared : ℕ → State → State
cleared failures st = record st {
  consecutive_failures = failures;
  provisioning_started_at = none;
  provisioning_deadline_at = none;
  current_droplet_id = none;
  current_droplet_name = none;
  current_public_ip = none;
  current_sensor_user = none;
  stage = none;
  hive_token = none;
}

unfoldable pub backoff_minutes : ℕ → ℕ
backoff_minutes failures = 5 * 2 ^ (failures - 1)

trip : ℕ → String → Run → Run
unfolding cleared
trip failures error r =
    let r' =
      on_state
        (λ st. record (cleared failures st) {
          status = suspended;
          next_action = none;
          next_action_at = none;
          last_message = breaker_tripped failures error;
        })
        r in
    record r' { schedule = record r'.schedule { enabled = false } }

retry : ℕ → ℕ → String → Run → Run
unfolding cleared backoff_minutes
retry now failures error = on_state λ st. record (cleared failures st) {
  status = cooling_down;
  next_action = some deploy;
  next_action_at = some (at (now + minutes (backoff_minutes failures)));
  last_message = attempt_failed failures error (backoff_minutes failures);
}

fail_message : Env → Run → Run
unfolding task_end
fail_message e r = task_end e failed (some (e.wording r.schedule.state.last_message)) none none r

-- `_handle_failure`
unfoldable pub handle_failure : Env → String → Run → Run
unfolding trip retry fail_message
handle_failure e error r =
    let failures = r.schedule.state.consecutive_failures + 1 in
    fail_message e (
      if leb max_consecutive_failures failures
      then trip failures error r
      else retry e.now failures error r)
