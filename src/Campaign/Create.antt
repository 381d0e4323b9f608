-- ===== src/Campaign/Create.antt =====
-- `create_schedule`, and the PRESETS that its payload may name. The payload's administration port is
-- a number, and a mode that is none of the three is an interval.
use t_pot_sensor_deployer.Prelude.{
  ℕ, String, Bool, true, false, not, ◌&&◌, ◌||◌, Option, none, some, List, [], ◌∷◌, ◌++◌,
  if◌then◌else◌, string_key, Table, find, put, or_else, Outcome, ok, raised,
}
use Prim.Native.String.{◌++◌ as append}
use t_pot_sensor_deployer.Duration.{ValueError, parse_duration, Parsed}
use t_pot_sensor_deployer.Duration.Decimal.{Text, decimal}
use t_pot_sensor_deployer.Fleet.{at, Provider, digitalocean, is_gcp}
use t_pot_sensor_deployer.Campaign.Records.{
  pending_deploy, cooling_down, deploy, Mode, weekly, random_window, interval, created, Timing,
  Config, Schedule,
}
use t_pot_sensor_deployer.Campaign.World.{World, Env}
use t_pot_sensor_deployer.Campaign.Steps.{calculate_next_rebuild, text_or}
use t_pot_sensor_deployer.Campaign.Dispatch.{default_region_pool}

pub record Preset : Type 0 where
  pub mode : Mode
  pub sensor_type : String
  pub active_duration : Text
  pub cooldown_duration : Option Text
  pub cooldown_min : Text
  pub cooldown_max : Text
  pub rotate_regions : Bool

-- "24h"
unfoldable pub hours : ℕ → Text
hours n = decimal n ++ b'h' ∷ []

unfoldable pub preset : Mode → String → ℕ → Option ℕ → ℕ → ℕ → Bool → Preset
unfolding hours
preset mode sensor_type active cooldown least most rotate = record {
  mode = mode;
  sensor_type = sensor_type;
  active_duration = hours active;
  cooldown_duration = elim cooldown [ none ↦ none | some n ↦ some (hours n) ];
  cooldown_min = hours least;
  cooldown_max = hours most;
  rotate_regions = rotate;
}

-- PRESETS
unfoldable pub presets : Table String Preset
unfolding preset
presets =
    ("weekly_24h", preset weekly "cowrie" 24 (some 144) 144 144 false)
    ∷ ("shift_8h_random", preset random_window "cowrie" 8 none 48 72 true)
    ∷ ("daily_6h", preset interval "cowrie" 6 (some 18) 18 18 false)
    ∷ ("dionaea_malware_48h", preset random_window "dionaea" 48 none 48 72 true)
    ∷ ("conpot_scada_weekend", preset weekly "conpot" 60 (some 108) 108 108 true)
    ∷ ("elasticpot_cloud_trap", preset random_window "elasticpot" 12 none 24 48 true)
    ∷ []

-- What the request names; a text that is missing or empty has the preset's value, or a default.
pub record Payload : Type 0 where
  pub name : Option String
  pub preset_id : String
  pub start_immediately : Bool
  pub mode : Option Mode
  pub active_duration : Option Text
  pub cooldown_duration : Option Text
  pub cooldown_min : Option Text
  pub cooldown_max : Option Text
  pub sensor_type : Option String
  pub provider : Option Provider
  pub region : Option String
  pub zone : Option String
  pub machine_type : Option String
  pub size : Option String
  pub image : Option String
  pub name_prefix : Option String
  pub attach_firewall : Option Bool
  pub restrict_ssh : Option Bool
  pub auto_register_hive : Option Bool
  pub admin_ssh_port : Option ℕ
  pub rotate_regions : Option Bool
  pub regions_pool : Option (List String)

pub data CreateError : Type 0 where
  bad_duration : ValueError → CreateError
  no_playbook gcp_not_configured : CreateError

-- `a or b or c` of texts.
unfoldable pub first_text : Option Text → Option Text → Text → Text
first_text (some (c ∷ s)) b d = c ∷ s
first_text (some []) (some (c ∷ s)) d = c ∷ s
first_text none (some (c ∷ s)) d = c ∷ s
first_text (some []) (some []) d = d
first_text (some []) none d = d
first_text none (some []) d = d
first_text none none d = d

unfoldable pub with_cooldown_max : Mode → ℕ → ℕ → ℕ → Parsed → Outcome CreateError Timing
with_cooldown_max mode active cooldown least (raised e) = raised (bad_duration e)
with_cooldown_max mode active cooldown least (ok most) = ok (record {
  mode = mode;
  active_duration_seconds = active;
  cooldown_duration_seconds = cooldown;
  cooldown_min_seconds = least;
  cooldown_max_seconds = most;
})

unfoldable pub with_cooldown_min : Mode → Text → ℕ → ℕ → Parsed → Outcome CreateError Timing
unfolding with_cooldown_max
with_cooldown_min mode most active cooldown (raised e) = raised (bad_duration e)
with_cooldown_min mode most active cooldown (ok least) =
    with_cooldown_max mode active cooldown least (parse_duration most)

unfoldable pub with_cooldown : Mode → Text → Text → ℕ → Parsed → Outcome CreateError Timing
unfolding with_cooldown_min
with_cooldown mode least most active (raised e) = raised (bad_duration e)
with_cooldown mode least most active (ok cooldown) =
    with_cooldown_min mode most active cooldown (parse_duration least)

unfoldable pub with_active : Mode → Text → Text → Text → Parsed → Outcome CreateError Timing
unfolding with_cooldown
with_active mode cooldown least most (raised e) = raised (bad_duration e)
with_active mode cooldown least most (ok active) =
    with_cooldown mode least most active (parse_duration cooldown)

abbrev of_preset {ℓ} : {A : Type ℓ} → (Preset → A) → Option Preset → Option A
of_preset f none = none
of_preset f (some p) = some (f p)

unfoldable pub preset_cooldown : Option Preset → Option Text
preset_cooldown none = none
preset_cooldown (some p) = p.cooldown_duration

-- The four durations, parsed in this order; the first that is refused raises.
unfoldable pub resolve_timing : Payload → Option Preset → Outcome CreateError Timing
unfolding with_active first_text hours preset_cooldown
resolve_timing p pre =
    with_active (or_else p.mode (or_else (of_preset (λ q. q.mode) pre) interval))
      (first_text p.cooldown_duration (preset_cooldown pre) (hours 144))
      (first_text p.cooldown_min (of_preset (λ q. q.cooldown_min) pre) (hours 48))
      (first_text p.cooldown_max (of_preset (λ q. q.cooldown_max) pre) (hours 72))
      (parse_duration
        (first_text p.active_duration (of_preset (λ q. q.active_duration) pre) (hours 24)))

or_string : Option String → String → String
or_string o d = text_or o d

resolved_type : Payload → Option Preset → String
unfolding or_string
resolved_type p none = or_string p.sensor_type "cowrie"
resolved_type p (some q) = or_string p.sensor_type q.sensor_type

or_pool : Option (List String) → List String
or_pool none = default_region_pool
or_pool (some []) = default_region_pool
or_pool (some (r ∷ rs)) = r ∷ rs

-- The catalogue of sensor types gives the size for each provider.
module _ (recommended_size_do recommended_size_gcp : String → String) where
  unfoldable pub new_config : Payload → Option Preset → Config
  unfolding or_string resolved_type or_pool
  new_config p pre =
      let sensor_type = resolved_type p pre in
      let provider = or_else p.provider digitalocean in
      record {
        provider = provider;
        sensor_type = sensor_type;
        region = or_else p.region (if is_gcp provider then "us-central1" else "nyc1");
        zone = or_else p.zone "us-central1-a";
        machine_type = or_string p.machine_type (recommended_size_gcp sensor_type);
        size = or_string p.size (recommended_size_do sensor_type);
        image = or_else p.image "ubuntu-24-04-x64";
        name_prefix = or_string p.name_prefix (append sensor_type "-sched");
        attach_firewall = or_else p.attach_firewall true;
        restrict_ssh = or_else p.restrict_ssh false;
        auto_register_hive = or_else p.auto_register_hive true;
        admin_ssh_port = or_else p.admin_ssh_port 64295;
        rotate_regions =
            or_else p.rotate_regions (or_else (of_preset (λ q. q.rotate_regions) pre) false);
        regions_pool = or_pool p.regions_pool;
        last_region_idx = 0;
      }

  unfoldable pub new_schedule : Env → Payload → Option Preset → Timing → Schedule
  unfolding new_config resolved_type or_string
  new_schedule e p pre timing =
      let id = append "sched-" e.uuid in
      record {
        id = id;
        name = or_string p.name (append "Campaign-" id);
        sensor_type = resolved_type p pre;
        enabled = true;
        timing = timing;
        config = new_config p pre;
        state = record {
          status = if p.start_immediately then pending_deploy else cooling_down;
          stage = none;
          current_droplet_id = none;
          current_droplet_name = none;
          current_public_ip = none;
          current_sensor_user = none;
          current_region = none;
          hive_token = none;
          cycle_number = 0;
          cycle_started_at = none;
          provisioning_started_at = none;
          provisioning_deadline_at = none;
          consecutive_failures = 0;
          next_action = some deploy;
          next_action_at =
              some
                (at (if p.start_immediately then e.now else calculate_next_rebuild e timing none));
          last_action_at = some (at e.now);
          last_message = created;
          history = [];
          task_id = none;
        };
      }

  unfoldable pub create_checked :
      Env
      → Payload
      → Option Preset
      → World
      → Outcome CreateError Timing
      → Outcome CreateError (Schedule × World)
  unfolding new_schedule resolved_type
  create_checked e p pre w (raised error) = raised error
  create_checked e p pre w (ok timing) =
      let s = new_schedule e p pre timing in
      if not (e.playbook_for s.config.sensor_type)
      then raised no_playbook
      else if is_gcp s.config.provider && (not e.gcp_project_id || not e.gcp_credentials)
      then raised gcp_not_configured
      else ok (s, record w { schedules = put s.id s w.schedules })

  unfoldable pub create_schedule : Env → Payload → World → Outcome CreateError (Schedule × World)
  unfolding create_checked resolve_timing presets
  create_schedule e p w =
      let pre = find p.preset_id presets in create_checked e p pre w (resolve_timing p pre)
