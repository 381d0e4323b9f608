-- ===== src/Campaign/Machines.antt =====
-- The machines that `_dispatch_deploy` creates, and the state that names them.
use t_pot_sensor_deployer.Prelude.{
  ℕ, String, ◌≡◌, refl, sym, Bool, true, false, Option, none, some, List, ◌∷◌, arith, Bool-cases,
  inl, inr, ◌⊎◌, Outcome, ok, raised, nat_key,
}
use mathlib.Core.Path.{subst}
use t_pot_sensor_deployer.Fleet.{is_gcp}
use t_pot_sensor_deployer.Site.{Machine}
use t_pot_sensor_deployer.Campaign.Records.{deploy}
use t_pot_sensor_deployer.Campaign.World.{
  on_site, returned, unanswered, refused, DropletCall, Env, Run,
}
use t_pot_sensor_deployer.Campaign.Steps.{handle_failure, task_begin, task_end, task_rename}
use t_pot_sensor_deployer.Campaign.Dispatch.{
  with_machine, gcp_start, dispatch_deploy, dispatch_checked, do_checked, gcp_checked, key_answer,
  droplet_answer, register, unregister, rotate_region, with_config,
}

abbrev machines : Run → List Machine
machines r = r.world.site.machines

-- No machine was made, or DigitalOcean made one though the request for it raised.
abbrev pub Untracked : Env → (on_gcp : Bool) → List Machine → List Machine → Type 0
Untracked e true before after = after ≡ before
Untracked e false before after =
    (after ≡ before)
    ⊎ ((error : String) × (id : ℕ) × (e.create_droplet ≡ unanswered error id)
        × (after ≡ record { on_gcp = false; id = id; name = e.creds.username } ∷ before))

-- A cycle that was started on DigitalOcean made one machine, and the schedule has the id that the
-- call returned; on GCP the thread makes it later.
abbrev pub Started : Env → (on_gcp : Bool) → List Machine → Run → Type 0
Started e true before r = machines r ≡ before
Started e false before r =
    (id : ℕ) × (e.create_droplet ≡ returned id)
    × (machines r ≡ record { on_gcp = false; id = id; name = e.creds.username } ∷ before)
    × (r.schedule.state.current_droplet_id ≡ some id)

-- A cycle that was started or not; then the schedule names no machine.
abbrev pub Tracked : Env → (on_gcp : Bool) → List Machine → Run × Bool → Type 0
Tracked e on_gcp before (r, true) = Started e on_gcp before r
Tracked e on_gcp before (r, false) =
    Untracked e on_gcp before (machines r) × (r.schedule.state.current_droplet_id ≡ none)

machines-handle_failure :
    (e : Env) (error : String) (r : Run) → machines (handle_failure e error r) ≡ machines r
unfolding handle_failure
machines-handle_failure e error r = ground arith

handle_failure-Tracked :
    (on_gcp : Bool) (before : List Machine) (e : Env) (error : String) (r : Run)
    → Untracked e on_gcp before (machines r)
    → Tracked e on_gcp before (handle_failure e error r, false)
unfolding handle_failure
handle_failure-Tracked on_gcp before e error r h =
    (subst (Untracked e on_gcp before) (sym (machines-handle_failure e error r)) h, ground arith)

machines-register : (e : Env) (r : Run) → machines (register e r) ≡ machines r
unfolding register
machines-register e r = ground arith

machines-unregister : (e : Env) (r : Run) → machines (unregister e r) ≡ machines r
unfolding unregister
machines-unregister e r = ground arith

module _ (e : Env) where
  droplet_answer-Tracked :
      (region : String) (r : Run) (answer : DropletCall)
      → e.create_droplet ≡ answer
      → Tracked e false (machines r) (droplet_answer e region r answer)
  unfolding droplet_answer with_machine
  droplet_answer-Tracked region r (refused error) h =
      handle_failure-Tracked false (machines r) e error _ (inl (machines-unregister e r))
  droplet_answer-Tracked region r (unanswered error id) h =
      let made = on_site (with_machine e id) r in
      handle_failure-Tracked false (machines r) e error _
        (inr (error, id, h, machines-unregister e made))
  droplet_answer-Tracked region r (returned id) h = (id, h, refl, refl)

  key_answer-Tracked :
      (region : String) (r : Run) (answer : Outcome String ℕ)
      → Tracked e false (machines r) (key_answer e region r answer)
  unfolding key_answer task_rename
  key_answer-Tracked region r (raised error) =
      handle_failure-Tracked false (machines r) e error r (inl refl)
  key_answer-Tracked region r (ok _) = rw machines-register at (
      droplet_answer-Tracked region (register e (task_rename e e.creds.username r)) e.create_droplet
        refl)

  do_checked-Tracked :
      (r : Run) (failed : Option String) → Tracked e false (machines r) (do_checked e r failed)
  unfolding do_checked
  do_checked-Tracked r (some error) = handle_failure-Tracked false (machines r) e error r (inl refl)
  do_checked-Tracked r none =
      let (region, config) = rotate_region r.schedule.config in
      key_answer-Tracked region (with_config config r) e.ensure_ssh_key

gcp_checked-Tracked :
    (e : Env) (r : Run) (failed : Option String)
    → Tracked e true (machines r) (gcp_checked e r failed)
unfolding gcp_checked
gcp_checked-Tracked e r (some error) = handle_failure-Tracked true (machines r) e error r refl
gcp_checked-Tracked e r none =
    unfold gcp_start task_rename in machines-register e (task_rename e e.creds.username r)

dispatch_checked-Tracked :
    (e : Env) (r : Run)
    → Tracked e (is_gcp r.schedule.config.provider) (machines r) (dispatch_checked e r)
unfolding dispatch_checked
dispatch_checked-Tracked e r = elim (Bool-cases (is_gcp r.schedule.config.provider)) [
  | inl on_gcp ↦ simp on_gcp (gcp_checked-Tracked e r _)
  | inr other ↦ elim (Bool-cases e.do_token) [
    | inl token ↦ simp (other, token) (do_checked-Tracked e r _)
    | inr none_set ↦
        simp (other, none_set) (handle_failure-Tracked false (machines r) e _ r (inl refl))
  ]
]

-- A dispatch that starts a DigitalOcean cycle made exactly one machine, with the id that the request
-- for the droplet returned, and the state has this id; one that starts a GCP cycle made none yet. A
-- dispatch that fails leaves no droplet in the state, and it made no machine, with one exception:
-- where the request for the droplet raised after DigitalOcean had made it, this machine, and no other,
-- is there and the state does not name it.
pub dispatch_deploy-Tracked :
    (e : Env) (r : Run)
    → Tracked e (is_gcp r.schedule.config.provider) r.world.site.machines (dispatch_deploy e r)
unfolding dispatch_deploy task_begin task_end
dispatch_deploy-Tracked e r = dispatch_checked-Tracked e (task_begin e deploy r)
