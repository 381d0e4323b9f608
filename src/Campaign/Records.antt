-- ===== src/Campaign/Records.antt =====
-- The dictionaries of a schedule (app/scheduler_manager.py): its timing, its configuration and its
-- state, with every key that `create_schedule` writes. Messages for people are constructors.
use t_pot_sensor_deployer.Prelude.{
  ℕ, String, Bool, true, false, Option, none, some, List, suc, ◌==◌, not, string_key,
}
use t_pot_sensor_deployer.Fleet.{Stamp, Provider}

pub data Status : Type 0 where
  pending_deploy provisioning active cooling_down tearing_down suspended : Status

abbrev pub is_provisioning : Status → Bool
is_provisioning provisioning = true
is_provisioning _ = false

abbrev pub is_tearing_down : Status → Bool
is_tearing_down tearing_down = true
is_tearing_down _ = false

abbrev pub is_active : Status → Bool
is_active active = true
is_active _ = false

pub data Stage : Type 0 where
  waiting_ip configuring : Stage

abbrev pub is_configuring : Option Stage → Bool
is_configuring (some configuring) = true
is_configuring _ = false

pub data Action : Type 0 where
  deploy destroy : Action

pub data Mode : Type 0 where
  weekly random_window interval : Mode

pub data Message : Type 0 where
  created paused paused_in_flight resumed resumed_lost : Message
  breaker_tripped : ℕ → String → Message
  attempt_failed : ℕ → String → ℕ → Message
  creating_instance : String → Message
  instance_up : String → Option String → Message
  droplet_created : String → ℕ → Message
  droplet_up : ℕ → String → Message
  cycle_active : ℕ → (paused_too : Bool) → Message
  teardown_complete : ℕ → Message
  cap_reached : ℕ → Message

pub record Cycle : Type 0 where
  pub cycle : ℕ
  pub droplet_name : Option String
  pub ip : Option String
  pub deployed_at : Option Stamp
  pub destroyed_at : ℕ

pub record State : Type 0 where
  pub status : Status
  pub stage : Option Stage
  pub current_droplet_id : Option ℕ
  pub current_droplet_name : Option String
  pub current_public_ip : Option String
  pub current_sensor_user : Option String
  pub current_region : Option String
  pub hive_token : Option String
  pub cycle_number : ℕ
  pub cycle_started_at : Option Stamp
  pub provisioning_started_at : Option Stamp
  pub provisioning_deadline_at : Option Stamp
  pub consecutive_failures : ℕ
  pub next_action : Option Action
  pub next_action_at : Option Stamp
  pub last_action_at : Option Stamp
  pub last_message : Message
  pub history : List Cycle
  pub task_id : Option String

pub record Timing : Type 0 where
  pub mode : Mode
  pub active_duration_seconds : ℕ
  pub cooldown_duration_seconds : ℕ
  pub cooldown_min_seconds : ℕ
  pub cooldown_max_seconds : ℕ

pub record Config : Type 0 where
  pub provider : Provider
  pub sensor_type : String
  pub region : String
  pub zone : String
  pub machine_type : String
  pub size : String
  pub image : String
  pub name_prefix : String
  pub attach_firewall : Bool
  pub restrict_ssh : Bool
  pub auto_register_hive : Bool
  pub admin_ssh_port : ℕ
  pub rotate_regions : Bool
  pub regions_pool : List String
  pub last_region_idx : ℕ

pub record Schedule : Type 0 where
  pub id : String
  pub name : String
  pub sensor_type : String
  pub enabled : Bool
  pub timing : Timing
  pub config : Config
  pub state : State

-- `if droplet_id`: Python takes `None` and 0 for false.
abbrev pub has_id : Option ℕ → Bool
has_id (some (suc n)) = true
has_id _ = false

-- The same of a text: `None` and "" are false.
abbrev pub has_text : Option String → Bool
has_text none = false
has_text (some s) = not (s == "")
