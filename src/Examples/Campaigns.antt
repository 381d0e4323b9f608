-- ===== src/Examples/Campaigns.antt =====
-- Campaigns at work.
use t_pot_sensor_deployer.Prelude.{
  ◌+◌, ◌≤◌, ◌≡◌, refl, true, false, none, some, List, [], ◌∷◌, arith, find, string_key, nat_key,
}
use Prim.Native.Nat.{max}
use t_pot_sensor_deployer.Duration.{seconds}
use t_pot_sensor_deployer.Fleet.{is_gcp}
use t_pot_sensor_deployer.Campaign.Records.{active}
use t_pot_sensor_deployer.Campaign.Steps.{handle_failure, pause_backstop_seconds}
use t_pot_sensor_deployer.Campaign.Dispatch.{dispatch_deploy}
use t_pot_sensor_deployer.Campaign.Teardown.{execute_destroy, finalize_active}
use t_pot_sensor_deployer.Campaign.Reach.{idle, next, here, pause_one, read_slots, tick}
use t_pot_sensor_deployer.Campaign.Sound.{TableSound}
use t_pot_sensor_deployer.Campaign.Always.{Reach-TableSound}
use t_pot_sensor_deployer.Campaign.Reconcile.{
  snapshot, tick_on, Slot, in_flight_count, run_phases, write_back,
}
use t_pot_sensor_deployer.Campaign.Commands.{pause_schedule, pause, trigger_claim, in_flight}
use t_pot_sensor_deployer.Campaign.Breaker.{IsSound, IsArmed, handle_failure_lem}
use t_pot_sensor_deployer.Campaign.Cap.{run_phases-capped}
use t_pot_sensor_deployer.Campaign.Machines.{Tracked, dispatch_deploy-Tracked}
use t_pot_sensor_deployer.Campaign.Orphans.{execute_destroy_forgets}
use t_pot_sensor_deployer.Campaign.Backstop.{LeasedUntil, finalize_active-LeasedUntil}
use t_pot_sensor_deployer.Campaign.Controls.{
  pause-LeasedUntil, trigger_claim_once, write_back_deleted,
}
use t_pot_sensor_deployer.Campaign.Create.{create_schedule}
use t_pot_sensor_deployer.Campaign.Created.{IsCreated, create_schedule-IsCreated}
use t_pot_sensor_deployer.Campaign.Resume.{resume-pause}
use t_pot_sensor_deployer.Campaign.Records.{destroy}
use t_pot_sensor_deployer.Campaign.Commands.{resume, claims_sensor}
use t_pot_sensor_deployer.Campaign.World.{Env, unanswered}
use t_pot_sensor_deployer.Examples.Fixtures.{payload, sensor, env, campaign, live, world, site, run}

campaign-IsArmed : IsArmed campaign
campaign-IsArmed = record { armed = omega arith; kept = omega arith }

live-IsArmed : IsArmed live
live-IsArmed = record { armed = omega arith; kept = omega arith }

campaign-IsSound : IsSound campaign
campaign-IsSound = ground arith

live-IsSound : IsSound live
live-IsSound = ground arith

abbrev slots : List Slot
slots =
    record { schedule = campaign; touched = false }
    ∷ record { schedule = live; touched = false }
    ∷ []

Reach-TableSound_example :
    TableSound
      (record (idle world) {
        world =
            tick_on
              (λ id. env)
              (snapshot (pause_schedule env "c1" world).0.schedules)
              (pause_schedule env "c1" world).0;
      }).world
Reach-TableSound_example =
    Reach-TableSound world _ (campaign-IsSound, tt)
      (next (next (next here (pause_one env "c1" _)) (read_slots _)) (tick (λ id. env) _))

run_phases-capped_example :
    in_flight_count (run_phases (λ id. env) slots world).1 ≤ max 3 (in_flight_count slots)
run_phases-capped_example = run_phases-capped (λ id. env) slots world

handle_failure_lem_example :
    IsSound (handle_failure env "no region" (run campaign)).schedule
    × ((handle_failure env "no region" (run campaign)).schedule.state.consecutive_failures ≡ 1)
    × ((handle_failure env "no region" (run campaign)).schedule.state.current_droplet_id ≡ none)
handle_failure_lem_example = handle_failure_lem env "no region" (run campaign) campaign-IsArmed

abbrev post_timed_out : Env
post_timed_out = record env { create_droplet = unanswered "timed out" 8 }

-- Once the request returns, and once it times out after the droplet was made.
dispatch_deploy-Tracked_example :
    Tracked env (is_gcp campaign.config.provider) site.machines (dispatch_deploy env (run campaign))
    × Tracked post_timed_out
        (is_gcp campaign.config.provider)
        site.machines
        (dispatch_deploy post_timed_out (run campaign))
dispatch_deploy-Tracked_example = (
  dispatch_deploy-Tracked env (run campaign),
  dispatch_deploy-Tracked post_timed_out (run campaign),
)

execute_destroy_forgets_example :
    (find 7 (execute_destroy env (run live)).world.site.db.sensors ≡ none)
    × (find 7 (execute_destroy env (run live)).world.site.db.leases ≡ none)
    × ((execute_destroy env (run live)).schedule.state.current_droplet_id ≡ none)
execute_destroy_forgets_example = execute_destroy_forgets env (run live) 6 refl

finalize_active-LeasedUntil_example :
    LeasedUntil 7
      (env.now + seconds (3600 + 86400))
      (finalize_active env true (run live)).world.site.db
finalize_active-LeasedUntil_example =
    finalize_active-LeasedUntil env true (run live) 6 (omega arith) refl

pause-LeasedUntil_example :
    LeasedUntil 7 (env.now + seconds pause_backstop_seconds) (pause env (run live)).world.site.db
    × ((pause env (run live)).schedule.state.status ≡ active)
    × ((pause env (run live)).schedule.state.current_droplet_id ≡ some 7)
    × ((pause env (run live)).schedule.enabled ≡ false)
pause-LeasedUntil_example = pause-LeasedUntil env (run live) 6 refl refl

trigger_claim_once_example :
    trigger_claim "c1" (trigger_claim "c1" world).0 ≡ ((trigger_claim "c1" world).0, in_flight)
unfolding find
trigger_claim_once_example = trigger_claim_once "c1" world campaign refl refl

write_back_deleted_example : find "c1" (write_back slots []) ≡ none
unfolding find
write_back_deleted_example = write_back_deleted slots [] "c1" refl

resume-pause_example :
    ((resume env (pause env (run live))).schedule.state.status ≡ active)
    × ((resume env (pause env (run live))).schedule.state.current_droplet_id ≡ some 7)
    × ((resume env (pause env (run live))).schedule.state.next_action ≡ some destroy)
    × ((resume env (pause env (run live))).schedule.enabled ≡ true)
unfolding claims_sensor find
resume-pause_example = resume-pause env env (run live) 6 sensor refl refl refl

create_schedule-IsCreated_example :
    IsCreated (create_schedule (λ t. "s") (λ t. "g") env payload world)
create_schedule-IsCreated_example =
    create_schedule-IsCreated (λ t. "s") (λ t. "g") env payload world
