-- ===== src/Http/Schedules.antt =====
-- The handlers of app/api.py on schedules. `create_schedule` reads two recommended sizes of the
-- catalogue, which are arguments.
use t_pot_sensor_deployer.Prelude.{String, Bool, true, false, string_key, Outcome, ok, raised}
use t_pot_sensor_deployer.Campaign.Records.{Schedule}
use t_pot_sensor_deployer.Campaign.World.{World, Env}
use t_pot_sensor_deployer.Campaign.Create.{Payload, CreateError, create_schedule}
use t_pot_sensor_deployer.Campaign.Commands.{
  Claim, missing, pause_schedule, resume_schedule, delete_schedule, trigger_action, in_flight,
  claimed,
}
use t_pot_sensor_deployer.Http.{HttpError, bad_request, not_found}

-- A request with the answers that its handler gets from outside.
pub data Request : Type 0 where
  post_schedule : Env → Payload → Request
  pause resume trigger : Env → String → Request
  delete : Env → (destroy_droplet : Bool) → String → Request

pub data Answer : Type 0 where
  made : Schedule → Answer
  changed : Answer
  triggered : Claim → Answer

unfoldable pub created :
    World → Outcome CreateError (Schedule × World) → World × Outcome HttpError Answer
created w (ok (s, w')) = (w', ok (made s))
created w (raised e) = (w, raised bad_request)

-- `if not ok: raise HTTPException(status_code=404, ...)`
unfoldable pub found : World × Bool → World × Outcome HttpError Answer
found (w, true) = (w, ok changed)
found (w, false) = (w, raised not_found)

unfoldable pub triggered_as : World × Claim → World × Outcome HttpError Answer
triggered_as (w, missing) = (w, raised bad_request)
triggered_as (w, in_flight) = (w, ok (triggered in_flight))
triggered_as (w, claimed a s) = (w, ok (triggered (claimed a s)))

module _ (size_do size_gcp : String → String) where
  unfoldable pub handle : Request → World → World × Outcome HttpError Answer
  unfolding created found triggered_as
  handle (post_schedule e p) w = created w (create_schedule size_do size_gcp e p w)
  handle (pause e id) w = found (pause_schedule e id w)
  handle (resume e id) w = found (resume_schedule e id w)
  handle (trigger e id) w = triggered_as (trigger_action e id w)
  handle (delete e destroy_droplet id) w = found (delete_schedule e destroy_droplet id w)
