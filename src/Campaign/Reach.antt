-- ===== src/Campaign/Reach.antt =====
-- The processes around the table of the schedules: the worker's ticks, the configuring threads and
-- the commands of the web interface, in any order. A tick works on a snapshot that was read
-- earlier, and a triggered action on a copy that was claimed earlier. `_CONFIGURING` belongs to a
-- process: between two steps another process's set may take its place. `_save_schedules` writes its
-- whole table, but each process locks out only its own threads; that two processes load and save in
-- turns, and one writes back what it had loaded over the other's change, is not modelled.
use t_pot_sensor_deployer.Prelude.{
  ℕ, String, ◌≡◌, Bool, Option, List, [], ◌∷◌, ◌++◌, ok, string_key,
}
use t_pot_sensor_deployer.Campaign.Records.{Schedule}
use t_pot_sensor_deployer.Campaign.World.{World, Env}
use t_pot_sensor_deployer.Campaign.Configure.{Job, finish_configuring, instance_created}
use t_pot_sensor_deployer.Campaign.Reconcile.{Slot, snapshot, tick_on}
use t_pot_sensor_deployer.Campaign.Create.{Payload, create_schedule}
use t_pot_sensor_deployer.Campaign.Commands.{
  Claim, trigger_claim, trigger_finish, pause_schedule, resume_schedule, delete_schedule,
}

-- The world, the snapshot that a tick works on, and the claims of triggers that have not finished.
pub record System : Type 0 where
  pub world : World
  pub slots : List Slot
  pub claims : List Claim

-- What a process does next. `first` and `later` are the claims around the one that is finished.
pub data Step : System → System → Type 0 where
  create :
      (size_do size_gcp : String → String) (e : Env) (p : Payload) (s : System) (c : Schedule)
      (w : World)
      → create_schedule size_do size_gcp e p s.world ≡ ok (c, w)
      → Step s (record s { world = w })
  pause_one :
      (e : Env) (id : String) (s : System)
      → Step s (record s { world = (pause_schedule e id s.world).0 })
  resume_one :
      (e : Env) (id : String) (s : System)
      → Step s (record s { world = (resume_schedule e id s.world).0 })
  delete_one :
      (e : Env) (destroy_droplet : Bool) (id : String) (s : System)
      → Step s (record s { world = (delete_schedule e destroy_droplet id s.world).0 })
  claim_one :
      (id : String) (s : System)
      → Step s (record s {
        world = (trigger_claim id s.world).0;
        claims = (trigger_claim id s.world).1 ∷ s.claims;
      })
  finish_claim :
      (e : Env) (c : Claim) (first later : List Claim) (s : System)
      → s.claims ≡ first ++ c ∷ later
      → Step s (record s { world = trigger_finish e c s.world; claims = first ++ later })
  read_slots : (s : System) → Step s (record s { slots = snapshot s.world.schedules })
  tick :
      (env : String → Env) (s : System)
      → Step s (record s { world = tick_on env s.slots s.world; slots = [] })
  record_instance :
      (e : Env) (job : Job) (id : ℕ) (ip : Option String) (s : System)
      → Step s (record s { world = (instance_created e job id ip s.world).0 })
  finish_thread :
      (e : Env) (client late : Bool) (job : Job) (error : Option String) (s : System)
      → Step s (record s { world = (finish_configuring e client late job error s.world).0 })
  -- The next step is that of a process with another set `_CONFIGURING`.
  other_process :
      (configuring : List String) (s : System)
      → Step s (record s { world = record s.world { configuring = configuring } })

pub data Reach (s : System) : System → Type 0 where
  here : Reach s s
  next : {t u : System} → Reach s t → Step t u → Reach s u

-- Nothing is under way.
abbrev pub idle : World → System
idle w = record { world = w; slots = []; claims = [] }
