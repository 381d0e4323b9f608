-- ===== src/Http/Handled.antt =====
-- What the requests on schedules do to the table.
use t_pot_sensor_deployer.Prelude.{
  String, Bool, true, false, ◌≡◌, refl, ap, ◌∙◌, none, some, Option, string_key, nat_key, ◌==◌,
  ◌&&◌, find, find-put, find-remove, remove, Outcome, is_ok, is_some, arith, or_else, if◌then◌else◌,
}
use t_pot_sensor_deployer.Campaign.Records.{Schedule}
use t_pot_sensor_deployer.Fleet.{Sensor}
use t_pot_sensor_deployer.Campaign.World.{World, Env, Run}
use t_pot_sensor_deployer.Campaign.Configure.{save}
use t_pot_sensor_deployer.Campaign.Steps.{instant, task_end}
use t_pot_sensor_deployer.Campaign.Kept.{table_of, table-pause, table-resume, table-execute_destroy}
use t_pot_sensor_deployer.Campaign.Controls.{schedule-pause}
use t_pot_sensor_deployer.Campaign.Resume.{schedule-shrink_lease}
use t_pot_sensor_deployer.Campaign.Teardown.{execute_destroy}
use t_pot_sensor_deployer.Campaign.Commands.{
  pause_schedule, pause_found, resume_schedule, resume_found, delete_schedule, delete_found,
  trigger_action, trigger_claim, claim_of, claim_saved, trigger_finish, claim, in_flight, claimed,
  has_sensor, switched_off, resume_active, rearmed, lost, claims_sensor, in_flight_or_active, Claim,
  missing,
}
use t_pot_sensor_deployer.Campaign.Commands
use t_pot_sensor_deployer.Http.{HttpError}
use t_pot_sensor_deployer.Http.Schedules.{
  Answer, pause, resume, trigger, delete, found, triggered_as, handle,
}

abbrev enabled_of : Option Schedule → Option Bool
enabled_of none = none
enabled_of (some s) = some s.enabled

-- The request succeeded exactly if a campaign stood under `id`; this campaign is then switched on or
-- off, and what stands under another id is as it was.
abbrev pub Switches : Bool → String → String → World → World × Outcome HttpError Answer → Type 0
Switches on id j w (w', answer) =
    (is_ok answer ≡ is_some (find id w.schedules))
    × (enabled_of (find id w'.schedules)
        ≡ (if is_some (find id w.schedules) then some on else none))
    × (find j w'.schedules ≡ find j w.schedules)

-- The same with the campaign gone.
abbrev pub Deletes : String → String → World → World × Outcome HttpError Answer → Type 0
Deletes id j w (w', answer) =
    (is_ok answer ≡ is_some (find id w.schedules))
    × (find id w'.schedules ≡ none)
    × (find j w'.schedules ≡ find j w.schedules)

-- Resuming switches a campaign on, under its id.
abbrev Kept : Run → Run → Type 0
Kept r r' = (r'.schedule.enabled ≡ r.schedule.enabled) × (r'.schedule.id ≡ r.schedule.id)

resume_active-Kept : (e : Env) (row : Option Sensor) (r : Run) → Kept r (resume_active e row r)
unfolding resume_active lost
resume_active-Kept e none r = (refl, refl)
resume_active-Kept e (some row) r =
    let same = schedule-shrink_lease e (instant r.schedule.state.cycle_started_at) r in
    (ap (λ (s : Schedule). s.enabled) same, ap (λ (s : Schedule). s.id) same)

enabled-resume :
    (e : Env) (r : Run)
    → ((Commands.resume e r).schedule.enabled ≡ true)
      × ((Commands.resume e r).schedule.id ≡ r.schedule.id)
unfolding Commands.resume rearmed
enabled-resume e r =
    let row = find (or_else r.schedule.state.current_droplet_id 0) r.world.site.db.sensors in
    ground (arith, resume_active-Kept e row (rearmed r))

-- A run that changed nothing but its own copy of the campaign under `id`, and is saved.
save-Switches :
    (on : Bool) (id j : String) (w : World) (s : Schedule) (r : Run)
    → find id w.schedules ≡ some s
    → table_of r ≡ w.schedules
    → r.schedule.id ≡ id
    → r.schedule.enabled ≡ on
    → (id == j) ≡ false
    → Switches on id j w (found (save r, true))
unfolding save found
save-Switches on id j w s r there same own switched other = (
  rw there refl,
  ground (
    arith,
    there,
    find-put r.schedule.id id r.schedule r.world.schedules,
    string_key.is_same_iff r.schedule.id id,
  ),
  ground (
    arith,
    same,
    find-put r.schedule.id j r.schedule r.world.schedules,
    string_key.is_same_iff r.schedule.id j,
    string_key.is_same_iff id j,
    other,
  ),
)

pause_found-Switches :
    (e : Env) (id j : String) (w : World) (o : Option Schedule)
    → find id w.schedules ≡ o
    → ((s : Schedule) → o ≡ some s → s.id ≡ id)
    → (id == j) ≡ false
    → Switches false id j w (found (pause_found e w o))
unfolding pause_found found
pause_found-Switches e id j w none gone own other = (rw gone refl, rw gone refl, refl)
pause_found-Switches e id j w (some s) there own other =
    let r = Commands.pause e (record { world = w; schedule = s }) in
    let same = schedule-pause e (record { world = w; schedule = s }) in
    save-Switches false id j w s r there (table-pause e (record { world = w; schedule = s }))
      (ap (λ (t : Schedule). t.id) same ∙ (unfold switched_off in own s refl))
      (ap (λ (t : Schedule). t.enabled) same ∙ (unfold switched_off in refl)) other

resume_found-Switches :
    (e : Env) (id j : String) (w : World) (o : Option Schedule)
    → find id w.schedules ≡ o
    → ((s : Schedule) → o ≡ some s → s.id ≡ id)
    → (id == j) ≡ false
    → Switches true id j w (found (resume_found e w o))
unfolding resume_found found
resume_found-Switches e id j w none gone own other = (rw gone refl, rw gone refl, refl)
resume_found-Switches e id j w (some s) there own other =
    let r = Commands.resume e (record { world = w; schedule = s }) in
    let (on, kept) = enabled-resume e (record { world = w; schedule = s }) in
    save-Switches true id j w s r there (table-resume e (record { world = w; schedule = s }))
      (kept ∙ own s refl) on other

delete_found-Deletes :
    (e : Env) (b : Bool) (id j : String) (w : World) (o : Option Schedule)
    → find id w.schedules ≡ o
    → ((s : Schedule) → o ≡ some s → s.id ≡ id)
    → (id == j) ≡ false
    → Deletes id j w (found (delete_found e b o w))
unfolding delete_found found task_end
delete_found-Deletes e b id j w none gone own other = (rw gone refl, gone, refl)
delete_found-Deletes e b id j w (some s) there own other =
    let r : Run = record {
      world = record w { schedules = remove s.id w.schedules };
      schedule = s;
    } in
    let torn : table_of (if b && in_flight_or_active s then execute_destroy e r else r)
        ≡ remove s.id w.schedules =
      ground (arith, table-execute_destroy e r) in
    (
      rw there refl,
      ap (find id) torn
          ∙ find-remove s.id id w.schedules
          ∙ ground (arith, string_key.is_same_iff s.id id, own s refl),
      ap (find j) torn
          ∙ find-remove s.id j w.schedules
          ∙ ground (
            arith,
            string_key.is_same_iff s.id j,
            string_key.is_same_iff id j,
            own s refl,
            other,
          ),
    )

answers_trigger :
    (after : Claim → World) (o : Option Schedule)
    → is_ok (triggered_as (after (claim_of o), claim_of o)).1 ≡ is_some o
unfolding triggered_as claim_of claim
answers_trigger after none = refl
answers_trigger after (some s) = ground arith

pub handle_lem :
    (size_do size_gcp : String → String) (e : Env) (destroy_droplet : Bool) (id j : String)
    (w : World)
    → ((s : Schedule) → find id w.schedules ≡ some s → s.id ≡ id)
    → (id == j) ≡ false
    → Switches false id j w (handle size_do size_gcp (pause e id) w)
      × Switches true id j w (handle size_do size_gcp (resume e id) w)
      × Deletes id j w (handle size_do size_gcp (delete e destroy_droplet id) w)
      × (is_ok (handle size_do size_gcp (trigger e id) w).1 ≡ is_some (find id w.schedules))
unfolding handle pause_schedule resume_schedule delete_schedule trigger_action trigger_claim
    triggered_as
handle_lem size_do size_gcp e destroy_droplet id j w own other = (
  pause_found-Switches e id j w (find id w.schedules) refl own other,
  resume_found-Switches e id j w (find id w.schedules) refl own other,
  delete_found-Deletes e destroy_droplet id j w (find id w.schedules) refl own other,
  answers_trigger (λ c. trigger_finish e c (claim_saved c w)) (find id w.schedules),
)
