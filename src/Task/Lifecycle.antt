-- ===== src/Task/Lifecycle.antt =====
-- What a new status does to a task, and what reaping does at the worker's start.
use t_pot_sensor_deployer.Prelude.{
  ℕ, String, Bool, true, false, ◌&&◌, Option, none, some, List, [], ◌∷◌, ◌++◌, ◌≡◌, refl, ap, ◌∙◌,
  arith, inl, inr, Bool-cases, ◌==◌, if◌then◌else◌, string_key, nat_key, Table, find, put, find-put,
  find-put_self, any_of, or_else, Option-cases,
}
use t_pot_sensor_deployer.Task.Defs.{
  TaskStatus, failed, running, TaskType, do_deploy, digitalocean_deploy, gcp_deploy,
  campaign_deploy, campaign_destroy, Meta, unknown_meta, Queue, is_terminal, set_task_status,
  publish_task_log, get_task_status, fail_task, is_reapable, with_status, logged, update_found,
  announced, fail_each, reap_interrupted_tasks, recent_ids, interrupted,
}

-- With Redis up, a new status is what the task's status then reads, the other tasks keep theirs,
-- and one completion event is added exactly if the status is terminal.
pub set_task_status_lem :
    (id : String) (status : TaskStatus) (deployed : Option (List ℕ)) (error : Option String)
    (q : Queue) (j : String)
    → ((get_task_status true j (set_task_status true id status deployed error q)).status
        ≡ (if id == j then status else (get_task_status true j q).status))
      × ((set_task_status true id status deployed error q).done_events ≡ (
          if is_terminal status
          then q.done_events ++ record { task = id; status = status } ∷ []
          else q.done_events ++ []))
unfolding set_task_status get_task_status with_status announced
set_task_status_lem id status deployed error q j = (
  let m : Meta = with_status status deployed error (or_else (find id q.metas) unknown_meta) in
      ground (arith, find-put id j m q.metas),
  ground arith,
)

status-fail_task :
    (online : Bool) (message id : String) (q : Queue) (j : String)
    → (get_task_status online j (fail_task online message id q)).status
      ≡ (if id == j then failed else (get_task_status online j q).status)
unfolding fail_task set_task_status publish_task_log get_task_status with_status update_found logged
status-fail_task true message id q j =
    let m : Meta = logged message none (or_else (find id q.metas) unknown_meta) in
    let t : Table String Meta = put id m q.metas in
    let m' : Meta = with_status failed none (some message) (or_else (find id t) unknown_meta) in
    ground (arith, find-put id j m' t, find-put id j m q.metas)
status-fail_task false message id q j = elim (Option-cases (find id q.fallback_metas)) [
  | inl absent ↦
      let m : Meta = record unknown_meta { status = failed; deployed = []; error = some message } in
      ground (arith, absent, find-put id j m q.fallback_metas)
  | inr (m, found) ↦
      let m1 : Meta = logged message none m in
      let t : Table String Meta = put id m1 q.fallback_metas in
      let m2 : Meta = with_status failed none (some message) m1 in
      ground (
        arith,
        found,
        find-put_self id m1 q.fallback_metas,
        find-put id j m1 q.fallback_metas,
        find-put id j m2 t,
      )
]

pub status-fail_each :
    (test : String → Meta → Bool) (message : String) (online : Bool) (q0 : Queue)
    (ids : List String) (q : Queue) (j : String)
    → (get_task_status online j (fail_each test message online q0 ids q).0).status ≡ (
        if any_of (λ i. i == j) ids && test j (get_task_status online j q0)
        then failed
        else (get_task_status online j q).status)
unfolding fail_each
status-fail_each test message online q0 [] q j = refl
status-fail_each test message online q0 (id ∷ ids) q j =
    elim (Bool-cases (test id (get_task_status online id q0))) [
      | inl reap ↦ simp reap (
          ground (
            arith,
            status-fail_each test message online q0 ids (fail_task online message id q) j,
            status-fail_task online message id q j,
            string_key.is_same_iff id j,
            reap,
          ))
      | inr kept ↦ simp kept (
          ground (
            arith,
            status-fail_each test message online q0 ids q j,
            string_key.is_same_iff id j,
            kept,
          ))
    ]

-- Every pass over the tasks that were read fails those that meet the code's test.
pub status-reap_interrupted_tasks :
    (online : Bool) (q : Queue) (j : String)
    → (get_task_status online j (reap_interrupted_tasks online q).0).status ≡ (
        if any_of (λ i. i == j) (recent_ids online 100 q)
          && is_reapable (get_task_status online j q)
        then failed
        else (get_task_status online j q).status)
unfolding reap_interrupted_tasks
status-reap_interrupted_tasks online q j =
    status-fail_each (λ id m. is_reapable m) interrupted online q (recent_ids online 100 q) q j

-- The tasks that cannot go on after a restart of the worker, by their type and status: the tasks of
-- the deployment jobs, and not those of a campaign, whose next tick goes on with them.
abbrev pub is_cut_off : TaskType → TaskStatus → Bool
is_cut_off do_deploy running = true
is_cut_off digitalocean_deploy running = true
is_cut_off gcp_deploy running = true
is_cut_off _ _ = false

pub is_reapable-is_cut_off :
    (m : Meta) (t : TaskType) (s : TaskStatus)
    → m.task_type ≡ t
    → m.status ≡ s
    → is_reapable m ≡ is_cut_off t s
unfolding is_reapable
is_reapable-is_cut_off m do_deploy s h h' = ground arith
is_reapable-is_cut_off m digitalocean_deploy s h h' = ground arith
is_reapable-is_cut_off m gcp_deploy s h h' = ground arith
is_reapable-is_cut_off m campaign_deploy s h h' = ground arith
is_reapable-is_cut_off m campaign_destroy s h h' = ground arith

-- At the worker's start a task gets the status failed if it is one of the last hundred, its type is
-- that of a deployment job on either cloud and its status reads as running. Every other task keeps
-- its status: one of a campaign's deploy or destroy that runs, too.
pub reap_interrupted_tasks_lem :
    (online : Bool) (q : Queue) (j : String)
    → (get_task_status online j (reap_interrupted_tasks online q).0).status ≡ (
        if any_of (λ i. i == j) (recent_ids online 100 q)
          && is_cut_off (get_task_status online j q).task_type (get_task_status online j q).status
        then failed
        else (get_task_status online j q).status)
reap_interrupted_tasks_lem online q j =
    let m : Meta = get_task_status online j q in
    status-reap_interrupted_tasks online q j
    ∙ ap (λ b. if any_of (λ i. i == j) (recent_ids online 100 q) && b then failed else m.status)
        (is_reapable-is_cut_off m m.task_type m.status refl refl)

-- A new status is what the task's status then reads, with Redis up or not.
pub status-set_task_status :
    (online : Bool) (id : String) (status : TaskStatus) (deployed : Option (List ℕ))
    (error : Option String) (q : Queue)
    → (get_task_status online id (set_task_status online id status deployed error q)).status
      ≡ status
unfolding set_task_status get_task_status with_status
status-set_task_status true id status deployed error q =
    let m : Meta = with_status status deployed error (or_else (find id q.metas) unknown_meta) in
    ground (arith, find-put_self id m q.metas)
status-set_task_status false id status deployed error q =
    elim (Option-cases (find id q.fallback_metas)) [
      | inl absent ↦
          let m : Meta = record unknown_meta {
            status = status;
            deployed = or_else deployed [];
            error = error;
          } in
          ground (arith, absent, find-put_self id m q.fallback_metas)
      | inr (m, found) ↦
          let m' : Meta = with_status status deployed error m in
          ground (arith, found, find-put_self id m' q.fallback_metas)
    ]
