-- ===== src/Campaign/Always.antt =====
-- That every schedule stays sound, in every order of the processes' steps.
use t_pot_sensor_deployer.Prelude.{
  String, ◌≡◌, refl, Option, none, some, List, [], ◌∷◌, ◌++◌, arith, sym, ok, string_key, All, find,
}
use mathlib.Core.Path.{subst}
use t_pot_sensor_deployer.Campaign.Records.{Action, deploy, destroy, Schedule}
use t_pot_sensor_deployer.Campaign.World.{World, Env, Run}
use t_pot_sensor_deployer.Campaign.Dispatch.{dispatch_deploy}
use t_pot_sensor_deployer.Campaign.Teardown.{execute_destroy}
use t_pot_sensor_deployer.Campaign.Configure.{finish_configuring}
use t_pot_sensor_deployer.Campaign.Reconcile.{Slot, tick_on}
use t_pot_sensor_deployer.Campaign.Create.{Payload, create_schedule}
use t_pot_sensor_deployer.Campaign.Commands.{
  Claim, missing, in_flight, claimed, claim_of, claim_saved, trigger_claim, trigger_finish,
  pause_schedule, resume_schedule, delete_schedule,
}
use t_pot_sensor_deployer.Campaign.Breaker.{
  IsSound, IsArmed, dispatch_deploy-IsSound, execute_destroy-IsSound,
}
use t_pot_sensor_deployer.Campaign.Ticks.{AllSound, write_back-run_phases, put-AllSound}
use t_pot_sensor_deployer.Campaign.Created.{
  IsCreated, create_schedule-IsCreated, create_schedule-table,
}
use t_pot_sensor_deployer.Campaign.Kept.{
  table-dispatch_deploy, table-execute_destroy, table-run_phases,
}
use t_pot_sensor_deployer.Campaign.Reach.{
  System, Step, create, pause_one, resume_one, delete_one, claim_one, finish_claim, other_process,
  read_slots, tick, record_instance, finish_thread, Reach, here, next, idle,
}
use t_pot_sensor_deployer.Campaign.Sound.{
  find-AllSound, snapshot-AllSound, save-TableSound, pause_found-TableSound,
  resume_found-TableSound, delete_found-TableSound, claim-Sound, finish_found-TableSound,
  instance_created-TableSound, TableSound, ClaimSound, SystemSound,
}

trigger_finish-TableSound :
    (e : Env) (c : Claim) (w : World)
    → ClaimSound c
    → TableSound w
    → TableSound (trigger_finish e c w)
unfolding trigger_finish
trigger_finish-TableSound e missing w armed all = all
trigger_finish-TableSound e in_flight w armed all = all
trigger_finish-TableSound e (claimed destroy s) w armed all =
    let r : Run = record { world = w; schedule = s } in
    save-TableSound w (execute_destroy e r) (table-execute_destroy e r) all
      (execute_destroy-IsSound e r armed)
trigger_finish-TableSound e (claimed deploy s) w armed all =
    let r : Run = record { world = w; schedule = s } in
    save-TableSound w (dispatch_deploy e r).0 (table-dispatch_deploy e r) all
      (dispatch_deploy-IsSound e r armed)

-- The first section of a trigger.
claim_saved-Sound :
    (c : Claim) (w : World)
    → ((a : Action) (s : Schedule) → c ≡ claimed a s → IsSound s × IsArmed s)
    → TableSound w
    → TableSound (claim_saved c w) × ClaimSound c
unfolding claim_saved
claim_saved-Sound missing w h all = (all, tt)
claim_saved-Sound in_flight w h all = (all, tt)
claim_saved-Sound (claimed a s) w h all =
    (put-AllSound s.id s w.schedules (h a s refl).0 all, (h a s refl).1)

trigger_claim-Sound :
    (id : String) (w : World)
    → TableSound w
    → TableSound (trigger_claim id w).0 × ClaimSound (trigger_claim id w).1
unfolding trigger_claim claim_of
trigger_claim-Sound id w all =
    claim_saved-Sound (claim_of (find id w.schedules)) w (held (find id w.schedules) refl) all
  where
    held :
        (o : Option Schedule)
        → find id w.schedules ≡ o
        → (a : Action) (s : Schedule) → claim_of o ≡ claimed a s
        → IsSound s × IsArmed s
    held none found a s taken = absurd (ground (arith, taken))
    held (some c) found a s taken =
        claim-Sound c a s (find-AllSound id w.schedules c all found) taken

created-TableSound :
    (size_do size_gcp : String → String) (e : Env) (p : Payload) (w w' : World) (c : Schedule)
    → create_schedule size_do size_gcp e p w ≡ ok (c, w')
    → TableSound w
    → TableSound w'
created-TableSound size_do size_gcp e p w w' c made all =
    let (one, bounded, found) =
      subst IsCreated made (create_schedule-IsCreated size_do size_gcp e p w) in
    subst (All (λ x. IsSound x.1)) (sym (create_schedule-table size_do size_gcp e p w w' c made))
      (put-AllSound c.id c w.schedules one all)

All-without :
    (first later : List Claim) (c : Claim)
    → All ClaimSound (first ++ c ∷ later)
    → ClaimSound c × All ClaimSound (first ++ later)
All-without [] later c (one, rest) = (one, rest)
All-without (d ∷ first) later c (one, rest) =
    let (mine, others) = All-without first later c rest in (mine, (one, others))

tick_on-TableSound :
    (env : String → Env) (slots : List Slot) (w : World)
    → AllSound slots
    → TableSound w
    → TableSound (tick_on env slots w)
unfolding tick_on
tick_on-TableSound env slots w sound all =
    write_back-run_phases env slots w _ sound
      (subst (All (λ x. IsSound x.1)) (sym (table-run_phases env slots w)) all)

-- What every step keeps.
Step-SystemSound : {s t : System} → Step s t → SystemSound s → SystemSound t
unfolding pause_schedule resume_schedule delete_schedule finish_configuring
Step-SystemSound (create size_do size_gcp e p s c w made) h = record {
  table = created-TableSound size_do size_gcp e p s.world w c made h.table;
  slots = h.slots;
  claims = h.claims;
}
Step-SystemSound (pause_one e id s) h = record {
  table = pause_found-TableSound e s.world (find id s.world.schedules) id refl h.table;
  slots = h.slots;
  claims = h.claims;
}
Step-SystemSound (resume_one e id s) h = record {
  table = resume_found-TableSound e s.world (find id s.world.schedules) id refl h.table;
  slots = h.slots;
  claims = h.claims;
}
Step-SystemSound (delete_one e b id s) h = record {
  table = delete_found-TableSound e b (find id s.world.schedules) s.world h.table;
  slots = h.slots;
  claims = h.claims;
}
Step-SystemSound (claim_one id s) h =
    let (table, one) = trigger_claim-Sound id s.world h.table in
    record { table = table; slots = h.slots; claims = (one, h.claims) }
Step-SystemSound (finish_claim e c first later s held) h =
    let (one, others) = All-without first later c (subst (All ClaimSound) held h.claims) in
    record {
      table = trigger_finish-TableSound e c s.world one h.table;
      slots = h.slots;
      claims = others;
    }
Step-SystemSound (read_slots s) h = record {
  table = h.table;
  slots = snapshot-AllSound s.world.schedules h.table;
  claims = h.claims;
}
Step-SystemSound (tick env s) h = record {
  table = tick_on-TableSound env s.slots s.world h.slots h.table;
  slots = tt;
  claims = h.claims;
}
Step-SystemSound (record_instance e job id ip s) h = record {
  table = instance_created-TableSound e job id ip s.world h.table;
  slots = h.slots;
  claims = h.claims;
}
Step-SystemSound (finish_thread e client late job error s) h = record {
  table =
      finish_found-TableSound e client late job error (find job.schedule_id s.world.schedules)
        s.world refl h.table;
  slots = h.slots;
  claims = h.claims;
}
Step-SystemSound (other_process configuring s) h = record {
  table = h.table;
  slots = h.slots;
  claims = h.claims;
}

Reach-SystemSound : {s t : System} → Reach s t → SystemSound s → SystemSound t
Reach-SystemSound here h = h
Reach-SystemSound (next r st) h = Step-SystemSound st (Reach-SystemSound r h)

-- From a table of sound schedules with no tick and no trigger under way, every order of ticks on
-- earlier snapshots, configuring threads and commands (creating, pausing, resuming, deleting,
-- claiming and finishing triggers), of processes with any sets of campaigns whose threads they run,
-- leaves every schedule of the table sound.
pub Reach-TableSound :
    (w : World) (t : System) → TableSound w → Reach (idle w) t → TableSound t.world
Reach-TableSound w t all r =
    (Reach-SystemSound r (record { table = all; slots = tt; claims = tt })).table
