-- ===== src/Deploy/Setup.antt =====
-- What a deployment job is asked for, what it finds, and its checks before anything is created. A
-- field that the request model always sets has no default here. The catalogue of sensor types, the
-- files and the configuration are parameters.
use t_pot_sensor_deployer.Prelude.{
  ℕ, zero, suc, String, Bool, true, false, not, ◌||◌, Option, none, some, List, [], ◌∷◌, ◌==◌,
  string_key, if◌then◌else◌, or_else, Outcome, ok, raised,
}
use Prim.Native.String.{◌++◌ as append}
use t_pot_sensor_deployer.Duration.{ValueError}
use t_pot_sensor_deployer.Duration.Decimal.{Text}
use t_pot_sensor_deployer.Fleet.{Provider}
use t_pot_sensor_deployer.Edl.{Droplet}
use t_pot_sensor_deployer.Hive.{Creds}
use t_pot_sensor_deployer.Provision.{ProvisionError, Answers}
use t_pot_sensor_deployer.Deploy.Create.{CloudAnswers, CreateError}

pub record DeployPayload : Type 0 where
  pub name : Option String
  pub sensor_type : String
  pub provider : Provider
  pub region : String
  pub size : String
  pub image : String
  pub count : ℕ
  pub ttl : Option Text
  pub attach_firewall : Bool
  pub auto_register_hive : Bool

pub data JobError : Type 0 where
  no_token no_project_id no_credentials no_ansible no_private_key no_public_key : JobError
  unknown_sensor_type no_sensor_playbook : String → JobError
  ssh_key_failed : String → JobError
  create_failed : CreateError → JobError
  invalid_ttl : ValueError → JobError
  configure_failed : ProvisionError → JobError

-- The lines of the job's log.
pub data Line : Type 0 where
  initializing type_known ensuring_key ensuring_firewall firewall_ready firewall_note : Line
  registering registered registration_note creating machine_active leased : Line
  configured edl_updated all_deployed hint admin_hint : Line
  warning : String → Line
  job_failed : JobError → Line

unfoldable pub percent_of : Line → Option ℕ
percent_of initializing = some 5
percent_of type_known = some 10
percent_of ensuring_key = some 15
percent_of ensuring_firewall = some 20
percent_of firewall_ready = some 25
percent_of registering = some 35
percent_of registered = some 40
percent_of creating = some 55
percent_of machine_active = some 65
percent_of leased = some 68
percent_of configured = some 90
percent_of edl_updated = some 92
percent_of all_deployed = some 100
percent_of _ = none

pub record TypeInfo : Type 0 where
  pub recommended_size_do : String
  pub recommended_size_gcp : String
  pub has_test_commands : Bool

-- What the loop meets for one machine: the login that is generated for it, the cloud's and the
-- machine's answers, the clock, and the lines that the callbacks log on the way.
pub record Attempt : Type 0 where
  pub creds : Creds
  pub cloud : CloudAnswers
  pub poll_lines : List (String × Option ℕ)
  pub leased_at : ℕ
  pub saved_at : ℕ
  pub provision : Answers
  pub configure_lines : List (String × Option ℕ)
  pub edl_at : ℕ
  pub listing : Option (List Droplet)

-- `attempts i` is the round i of the loop, and `numbered base n` the text f"{base}-{n}".
-- `ensure_ssh_key` is the error of the call.
pub record Setup : Type 0 where
  pub online : Bool
  pub wording : Line → String
  pub error_text : JobError → String
  pub numbered : String → ℕ → String
  pub do_token : Bool
  pub gcp_project_id : Bool
  pub gcp_credentials : Bool
  pub sensor_types : String → Option TypeInfo
  pub playbook_for : String → Bool
  pub ansible_available : Bool
  pub private_key : Bool
  pub public_key : Bool
  pub ensure_ssh_key : Option String
  pub firewall : Bool
  pub gcp_zone : Option String
  pub gcp_machine_type : Option String
  pub gcp_image : Option String
  pub attempts : ℕ → Attempt

-- `x or d` for a text
abbrev pub or_text : String → String → String
or_text x d = if x == "" then d else x

-- `_DO_PAYLOAD_DEFAULTS`
abbrev pub do_region_default : String
do_region_default = "nyc1"

abbrev pub do_size_default : String
do_size_default = "s-1vcpu-2gb"

abbrev pub do_image_default : String
do_image_default = "ubuntu-24-04-x64"

-- The arguments are the request's value, the default that it stands for, the configuration's value
-- and the last resort.
unfoldable pub resolve_gcp_deploy_field : String → String → Option String → String → String
resolve_gcp_deploy_field val do_default setting hard_default =
    if val == "" || val == do_default then or_text (or_else setting "") hard_default else val

-- What the provider's job fixes before the loop.
pub record Plan : Type 0 where
  pub task_id : String
  pub on_gcp : Bool
  pub sensor_name_base : String
  pub sensor_type : String
  pub region : String
  pub size : String
  pub image : String
  pub tags : List String
  pub ttl : Option Text
  pub attach_firewall : Bool
  pub auto_register_hive : Bool
  pub has_test_commands : Bool
  pub count : ℕ

-- max(1, count)
abbrev pub at_least_one : ℕ → ℕ
at_least_one zero = 1
at_least_one (suc n) = suc n

-- The checks that both jobs make, in their order; `none` lets the job go on.
unfoldable pub check_machine : Setup → String → Option JobError
check_machine e sensor_type =
    if not (e.playbook_for sensor_type)
    then some (no_sensor_playbook sensor_type)
    else if not e.ansible_available
    then some no_ansible
    else if not e.private_key
    then some no_private_key
    else if not e.public_key
    then some no_public_key
    else none

abbrev pub sensor_type_of : DeployPayload → String
sensor_type_of p = or_text p.sensor_type "cowrie"

unfoldable pub unless : Option JobError → Plan → Outcome JobError Plan
unless (some error) plan = raised error
unless none plan = ok plan

-- The plan, or the first check that fails.
unfoldable pub check_type :
    Setup → DeployPayload → (TypeInfo → Plan) → Option TypeInfo → Outcome JobError Plan
unfolding check_machine unless
check_type e p plan none = raised (unknown_sensor_type (sensor_type_of p))
check_type e p plan (some info) = unless (check_machine e (sensor_type_of p)) (plan info)

base_name : DeployPayload → String
base_name p = or_text (or_else p.name "") (append "tpot-" (append (sensor_type_of p) "-sensor"))

unfoldable pub do_plan : String → DeployPayload → TypeInfo → Plan
unfolding base_name
do_plan task_id p info = record {
  task_id = task_id;
  on_gcp = false;
  sensor_name_base = base_name p;
  sensor_type = sensor_type_of p;
  region = p.region;
  size = or_text p.size info.recommended_size_do;
  image = p.image;
  tags =
      "tpot-sensor"
      ∷ append "tpot-" (append (sensor_type_of p) "-sensor")
      ∷ append "type-" (sensor_type_of p)
      ∷ "tpot"
      ∷ [];
  ttl = p.ttl;
  attach_firewall = p.attach_firewall;
  auto_register_hive = p.auto_register_hive;
  has_test_commands = info.has_test_commands;
  count = at_least_one p.count;
}

unfoldable pub gcp_plan : Setup → String → DeployPayload → TypeInfo → Plan
unfolding resolve_gcp_deploy_field base_name
gcp_plan e task_id p info = record {
  task_id = task_id;
  on_gcp = true;
  sensor_name_base = base_name p;
  sensor_type = sensor_type_of p;
  region = resolve_gcp_deploy_field p.region do_region_default e.gcp_zone "us-central1-a";
  size =
      resolve_gcp_deploy_field p.size do_size_default e.gcp_machine_type info.recommended_size_gcp;
  image =
      resolve_gcp_deploy_field p.image do_image_default e.gcp_image
        "projects/ubuntu-os-cloud/global/images/family/ubuntu-2404-lts-amd64";
  tags =
      "tpot-sensor"
      ∷ append "tpot-" (append (sensor_type_of p) "-sensor")
      ∷ append "type-" (sensor_type_of p)
      ∷ [];
  ttl = p.ttl;
  attach_firewall = p.attach_firewall;
  auto_register_hive = p.auto_register_hive;
  has_test_commands = info.has_test_commands;
  count = at_least_one p.count;
}

unfoldable pub do_preflight : Setup → String → DeployPayload → Outcome JobError Plan
unfolding check_type do_plan
do_preflight e task_id p =
    if not e.do_token
    then raised no_token
    else check_type e p (do_plan task_id p) (e.sensor_types (sensor_type_of p))

unfoldable pub gcp_preflight : Setup → String → DeployPayload → Outcome JobError Plan
unfolding check_type gcp_plan
gcp_preflight e task_id p =
    if not e.gcp_project_id
    then raised no_project_id
    else if not e.gcp_credentials
    then raised no_credentials
    else check_type e p (gcp_plan e task_id p) (e.sensor_types (sensor_type_of p))
