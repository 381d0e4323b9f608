-- ===== src/Task/Defs.antt =====
-- Recording, updating, reading and reaping tasks.
use t_pot_sensor_deployer.Prelude.{
  ℕ, String, ◌+◌, Bool, true, false, ◌&&◌, ◌||◌, not, Option, none, some, List, [], ◌∷◌, ◌++◌, ◌==◌,
  if◌then◌else◌, nat_key, string_key, Table, find, put, or_else, any_of, keep, take,
}

pub data TaskStatus : Type 0 where
  queued running completed failed unknown : TaskStatus

pub data TaskType : Type 0 where
  do_deploy digitalocean_deploy gcp_deploy campaign_deploy campaign_destroy : TaskType

-- The hash of a task, as `get_task_status` reads it: a field that is missing has its default.
pub record Meta : Type 0 where
  pub task_type : TaskType
  pub sensor_name : String
  pub status : TaskStatus
  pub percent : ℕ
  pub last_message : String
  pub completed : Bool
  pub deployed : List ℕ
  pub error : Option String
  pub campaign_id : Option String

abbrev pub unknown_meta : Meta
unknown_meta = record {
  task_type = do_deploy;
  sensor_name = "sensor";
  status = unknown;
  percent = 0;
  last_message = "";
  completed = false;
  deployed = [];
  error = none;
  campaign_id = none;
}

-- The completion events that the stream of a task has carried.
pub record Done : Type 0 where
  pub task : String
  pub status : TaskStatus

pub record Queue : Type 0 where
  pub metas : Table String Meta
  pub recent : List String
  pub done_events : List Done
  pub fallback_metas : Table String Meta
  pub fallback_ids : List String

-- LREM 0
unfoldable pub lrem : String → List String → List String
lrem id = keep (λ j. not (j == id))

remove_first : String → List String → List String
remove_first id [] = []
remove_first id (j ∷ ids) = if j == id then ids else j ∷ remove_first id ids

-- The argument `online` says whether the Redis calls answer. The code asks before every call; here the
-- answer is one for all calls of an operation.
unfoldable pub record_task : Bool → String → Meta → Queue → Queue
unfolding lrem remove_first
record_task true id meta q = record q {
  metas = put id meta q.metas;
  recent = take 100 (id ∷ lrem id q.recent);
}
record_task false id meta q = record q {
  fallback_metas = put id meta q.fallback_metas;
  fallback_ids = id ∷ remove_first id q.fallback_ids;
}

started : TaskStatus → TaskStatus
started queued = running
started s = s

unfoldable pub logged : String → Option ℕ → Meta → Meta
unfolding started
logged message percent m = record m {
  last_message = message;
  percent = or_else percent m.percent;
  status = started m.status;
}

unfoldable pub update_found :
    (Meta → Meta) → String → Option Meta → Table String Meta → Table String Meta
update_found f id none t = t
update_found f id (some m) t = put id (f m) t

-- The log line itself is not kept.
unfoldable pub publish_task_log : Bool → String → String → Option ℕ → Queue → Queue
unfolding logged update_found
publish_task_log true id message percent q = record q {
  metas = put id (logged message percent (or_else (find id q.metas) unknown_meta)) q.metas;
}
publish_task_log false id message percent q = record q {
  fallback_metas =
      update_found (logged message percent) id (find id q.fallback_metas) q.fallback_metas;
}

unfoldable pub is_terminal : TaskStatus → Bool
is_terminal completed = true
is_terminal failed = true
is_terminal _ = false

abbrev is_completed : TaskStatus → Bool
is_completed completed = true
is_completed _ = false

abbrev keep_old {ℓ} : {A : Type ℓ} → Option A → Option A → Option A
keep_old none old = old
keep_old (some a) old = some a

unfoldable pub with_status : TaskStatus → Option (List ℕ) → Option String → Meta → Meta
unfolding is_terminal
with_status status deployed error m = record m {
  status = status;
  completed = is_terminal status || m.completed;
  percent = if is_completed status then 100 else m.percent;
  deployed = or_else deployed m.deployed;
  error = keep_old error m.error;
}

unfoldable pub announced : String → TaskStatus → List Done
unfolding is_terminal
announced id status = if is_terminal status then record { task = id; status = status } ∷ [] else []

-- In the fallback a task that is not there gets its status, result and error only.
unfoldable pub set_task_status :
    Bool → String → TaskStatus → Option (List ℕ) → Option String → Queue → Queue
unfolding with_status announced
set_task_status true id status deployed error q = record q {
  metas =
      put id (with_status status deployed error (or_else (find id q.metas) unknown_meta)) q.metas;
  done_events = q.done_events ++ announced id status;
}
set_task_status false id status deployed error q = record q {
  fallback_metas = elim (find id q.fallback_metas) [
    | some m ↦ put id (with_status status deployed error m) q.fallback_metas
    | none ↦
        put id
          (record unknown_meta { status = status; deployed = or_else deployed []; error = error })
          q.fallback_metas
  ];
}

unfoldable pub update_task_meta : Bool → String → String → Queue → Queue
unfolding update_found
update_task_meta true id sensor_name q = record q {
  metas =
      put id (record (or_else (find id q.metas) unknown_meta) { sensor_name = sensor_name })
        q.metas;
}
update_task_meta false id sensor_name q = record q {
  fallback_metas =
      update_found (λ m. record m { sensor_name = sensor_name }) id (find id q.fallback_metas)
        q.fallback_metas;
}

-- A task that Redis does not have is looked up in the fallback.
unfoldable pub get_task_status : Bool → String → Queue → Meta
get_task_status true id q = elim (find id q.metas) [
  | some m ↦ m
  | none ↦ or_else (find id q.fallback_metas) unknown_meta
]
get_task_status false id q = or_else (find id q.fallback_metas) unknown_meta

-- The loop over the ids, with its set `seen`.
unfoldable pub first_seen : List String → List String → List String
first_seen seen [] = []
first_seen seen (id ∷ ids) =
    let again = any_of (λ j. j == id) seen in
    let rest = first_seen (if again then seen else id ∷ seen) ids in
    if again then rest else id ∷ rest

unfoldable pub recent_ids : Bool → ℕ → Queue → List String
unfolding first_seen
recent_ids true limit q = first_seen [] (take limit q.recent)
recent_ids false limit q = first_seen [] (take limit q.fallback_ids)

abbrev pub is_running : TaskStatus → Bool
is_running running = true
is_running _ = false

-- task_type.startswith("campaign_")
abbrev pub is_campaign : TaskType → Bool
is_campaign campaign_deploy = true
is_campaign campaign_destroy = true
is_campaign _ = false

unfoldable pub fail_task : Bool → String → String → Queue → Queue
fail_task online message id q =
    set_task_status online id failed none (some message) (publish_task_log online id message none q)

abbrev pub interrupted : String
interrupted = "Interrupted: the worker was restarted while this task was running"

-- A deploy task that runs, as it was read.
unfoldable pub is_reapable : Meta → Bool
is_reapable m = not (is_campaign m.task_type) && is_running m.status

-- The loop of both reapers over the tasks that `get_recent_tasks` has read before it starts: `q0` is
-- the queue then. A task that passes the test is failed; the count is that of these.
unfoldable pub fail_each :
    (String → Meta → Bool) → String → Bool → Queue → List String → Queue → Queue × ℕ
unfolding fail_task
fail_each test message online q0 [] q = (q, 0)
fail_each test message online q0 (id ∷ ids) q =
    let reap = test id (get_task_status online id q0) in
    let (q', n) =
      fail_each test message online q0 ids (if reap then fail_task online message id q else q) in
    (q', if reap then n + 1 else n)

unfoldable pub reap_interrupted_tasks : Bool → Queue → Queue × ℕ
unfolding fail_each is_reapable
reap_interrupted_tasks online q =
    fail_each (λ id m. is_reapable m) interrupted online q (recent_ids online 100 q) q
