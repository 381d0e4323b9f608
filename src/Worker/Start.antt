-- ===== src/Worker/Start.antt =====
-- What the worker's start does to the tasks.
use t_pot_sensor_deployer.Prelude.{
  String, Bool, true, false, ◌&&◌, ◌||◌, none, some, List, [], ◌∷◌, ◌≡◌, refl, ap, arith, inl, inr,
  Bool-cases, ◌==◌, if◌then◌else◌, string_key, Table, find, put, find-put, any_of, or_else, take,
}
use t_pot_sensor_deployer.Task.{
  failed, Meta, Queue, unknown_meta, get_task_status, recent_ids, is_reapable, fail_each, fail_task,
  set_task_status, publish_task_log, with_status, logged, reap_interrupted_tasks, interrupted,
  first_seen,
}
use t_pot_sensor_deployer.Task.Lifecycle.{
  status-fail_each, is_cut_off, is_reapable-is_cut_off, status-reap_interrupted_tasks,
}
use t_pot_sensor_deployer.Campaign.World.{World}
use t_pot_sensor_deployer.Campaign.Listing.{
  is_claimed, is_orphan, untracked, reap_orphaned_campaign_tasks,
}
use t_pot_sensor_deployer.Worker.{start}

recent-fail_each :
    (test : String → Meta → Bool) (message : String) (q0 : Queue) (ids : List String) (q : Queue)
    → (fail_each test message true q0 ids q).0.recent ≡ q.recent
unfolding fail_each fail_task set_task_status publish_task_log
recent-fail_each test message q0 [] q = refl
recent-fail_each test message q0 (id ∷ ids) q =
    elim (Bool-cases (test id (get_task_status true id q0))) [
      | inl reap ↦ simp reap (recent-fail_each test message q0 ids (fail_task true message id q))
      | inr kept ↦ simp kept (recent-fail_each test message q0 ids q)
    ]

task-fail_task :
    (message id : String) (q : Queue) (j : String)
    → (id == j) ≡ false
    → get_task_status true j (fail_task true message id q) ≡ get_task_status true j q
unfolding fail_task set_task_status publish_task_log get_task_status
task-fail_task message id q j other =
    let m : Meta = logged message none (or_else (find id q.metas) unknown_meta) in
    let t : Table String Meta = put id m q.metas in
    let m' : Meta = with_status failed none (some message) (or_else (find id t) unknown_meta) in
    ground (arith, find-put id j m' t, find-put id j m q.metas, other)

-- A task that is not failed keeps all its fields.
task-fail_each :
    (test : String → Meta → Bool) (message : String) (q0 : Queue) (ids : List String) (q : Queue)
    (j : String)
    → (any_of (λ i. i == j) ids && test j (get_task_status true j q0)) ≡ false
    → get_task_status true j (fail_each test message true q0 ids q).0 ≡ get_task_status true j q
unfolding fail_each
task-fail_each test message q0 [] q j spared = refl
task-fail_each test message q0 (id ∷ ids) q j spared =
    elim (Bool-cases (test id (get_task_status true id q0))) [
      | inl reap ↦ simp reap (
          ground (
            arith,
            task-fail_each test message q0 ids (fail_task true message id q) j,
            task-fail_task message id q j,
            string_key.is_same_iff id j,
            reap,
            spared,
          ))
      | inr kept ↦ simp kept (
          ground (
            arith,
            task-fail_each test message q0 ids q j,
            string_key.is_same_iff id j,
            kept,
            spared,
          ))
    ]

-- What the start does to a task that was read as `m`.
unfoldable pub is_left_over : World → String → Meta → Bool
is_left_over w id m = is_cut_off m.task_type m.status || is_orphan w id m

pub start_lem :
    (w : World) (j : String)
    → (w' : World) × (start true w ≡ some w')
      × ((get_task_status true j w'.queue).status ≡ (
          if any_of (λ i. i == j) (recent_ids true 100 w.queue)
            && is_left_over w j (get_task_status true j w.queue)
          then failed
          else (get_task_status true j w.queue).status))
unfolding start reap_orphaned_campaign_tasks is_orphan is_claimed is_left_over
start_lem w j =
    let q : Queue = (reap_interrupted_tasks true w.queue).0 in
    let recent : recent_ids true 100 q ≡ recent_ids true 100 w.queue = same_ids in
    let first = status-reap_interrupted_tasks true w.queue j in
    let m : Meta = get_task_status true j w.queue in
    let cut : is_reapable m ≡ is_cut_off m.task_type m.status =
      is_reapable-is_cut_off m m.task_type m.status refl refl in
    let second = status-fail_each (is_orphan w) untracked true q (recent_ids true 100 q) q j in
    (
      _,
      refl,
      elim (Bool-cases (
          any_of (λ i. i == j) (recent_ids true 100 w.queue)
          && is_reapable (get_task_status true j w.queue))) [
            | inl reaped ↦ ground (arith, reaped, first, second, cut)
            | inr spared ↦
                let same : get_task_status true j q ≡ get_task_status true j w.queue =
                  unfold reap_interrupted_tasks in
                  task-fail_each (λ id m. is_reapable m) interrupted w.queue
                    (recent_ids true 100 w.queue) w.queue j spared in
                ground (arith, spared, recent, same, second, cut)
          ],
    )
  where
    same_ids :
        recent_ids true 100 (reap_interrupted_tasks true w.queue).0 ≡ recent_ids true 100 w.queue
    same_ids =
        unfold recent_ids reap_interrupted_tasks in
        ap (λ ids. first_seen [] (take 100 ids))
          (recent-fail_each (λ id m. is_reapable m) interrupted w.queue
            (recent_ids true 100 w.queue) w.queue)
