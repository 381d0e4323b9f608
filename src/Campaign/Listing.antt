-- ===== src/Campaign/Listing.antt =====
-- `list_schedules`, `get_schedule` and `reap_orphaned_campaign_tasks`.
use t_pot_sensor_deployer.Prelude.{
  ℕ, String, ◌-◌, Bool, false, ◌&&◌, not, Option, none, some, List, map, ◌==◌, string_key, find,
  any_of, or_else,
}
use t_pot_sensor_deployer.Duration.{format_remaining}
use t_pot_sensor_deployer.Duration.Decimal.{Text}
use t_pot_sensor_deployer.Fleet.{Stamp, fromisoformat}
use t_pot_sensor_deployer.Task.{Meta, is_campaign, is_running, fail_each, recent_ids}
use t_pot_sensor_deployer.Campaign.Records.{Schedule}
use t_pot_sensor_deployer.Campaign.World.{World}

-- A schedule as the web interface gets it.
pub record Entry : Type 0 where
  pub schedule : Schedule
  pub remaining_seconds : ℕ
  pub remaining_formatted : Text

-- What is left until the next action, 0 where it is over or cannot be read.
unfoldable pub remaining : ℕ → Option Stamp → ℕ
remaining now none = 0
remaining now (some t) = or_else (fromisoformat t) 0 - now

unfoldable pub entry : ℕ → Schedule → Entry
unfolding remaining
entry now s = record {
  schedule = record s { state = record s.state { hive_token = none } };
  remaining_seconds = remaining now s.state.next_action_at;
  remaining_formatted = format_remaining (remaining now s.state.next_action_at);
}

unfoldable pub list_schedules : ℕ → World → List Entry
unfolding entry
list_schedules now w = map (λ r. entry now r.1) w.schedules

unfoldable pub get_schedule : ℕ → String → World → Option Entry
unfolding entry
get_schedule now id w = elim (find id w.schedules) [ none ↦ none | some s ↦ some (entry now s) ]

unfoldable pub points_at : String → Schedule → Bool
points_at id s = elim s.state.task_id [ none ↦ false | some task ↦ task == id ]

-- `t["id"] in claimed`
unfoldable pub is_claimed : World → String → Bool
unfolding points_at
is_claimed w id = any_of (λ r. points_at id r.1) w.schedules

unfoldable pub is_orphan : World → String → Meta → Bool
unfolding is_claimed
is_orphan w id m = is_campaign m.task_type && is_running m.status && not (is_claimed w id)

abbrev pub untracked : String
untracked = "Interrupted: no campaign is tracking this task any more"

unfoldable pub reap_orphaned_campaign_tasks : Bool → World → World × ℕ
unfolding is_orphan
reap_orphaned_campaign_tasks online w =
    let (q, n) =
      fail_each (is_orphan w) untracked online w.queue (recent_ids online 100 w.queue) w.queue in
    (record w { queue = q }, n)
