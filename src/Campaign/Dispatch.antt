-- ===== src/Campaign/Dispatch.antt =====
-- `_dispatch_deploy`: starting a cycle on DigitalOcean or on GCP. A failing firewall call is only
-- logged, so the firewall is left out; starting the background thread does not fail.
use t_pot_sensor_deployer.Prelude.{
  ℕ, String, ◌+◌, ◌%◌, Bool, true, false, ◌||◌, not, Option, none, some, List, [], ◌∷◌,
  if◌then◌else◌, length, get_or, Outcome, ok, raised,
}
use t_pot_sensor_deployer.Fleet.{at, is_gcp}
use t_pot_sensor_deployer.Hive.{register_sensor, deregister_sensor}
use t_pot_sensor_deployer.Site.{Site}
use t_pot_sensor_deployer.Campaign.Records.{
  provisioning, waiting_ip, configuring, deploy, creating_instance, droplet_created, State, Config,
}
use t_pot_sensor_deployer.Campaign.World.{
  DropletCall, refused, unanswered, returned, Env, Run, on_state, on_site,
}
use t_pot_sensor_deployer.Campaign.Steps.{
  minutes, provisioning_timeout_minutes, task_begin, task_rename, handle_failure,
}

-- The first check that fails, as `_dispatch_deploy` names it.
unfoldable pub preflight : Env → String → Option String
preflight e sensor_type =
    if not (e.playbook_for sensor_type)
    then some "No Ansible playbook for the sensor type yet"
    else if not e.ansible_available
    then some "ansible-playbook is not installed in this container"
    else if not e.private_key
    then some "SSH private key not found"
    else none

unfoldable pub gcp_preflight : Env → String → Option String
unfolding preflight
gcp_preflight e sensor_type = elim (preflight e sensor_type) [
  | some error ↦ some error
  | none ↦
      if not e.gcp_project_id || not e.gcp_credentials
      then some "GCP project id or service account key not configured"
      else if not e.public_key
      then some "SSH public key not found"
      else none
]

unfoldable pub do_preflight : Env → String → Option String
unfolding preflight
do_preflight e sensor_type = elim (preflight e sensor_type) [
  | some error ↦ some error
  | none ↦ if not e.public_key then some "SSH public key not found" else none
]

unfoldable pub fail_dispatch : Env → String → Run → Run × Bool
fail_dispatch e error r = (handle_failure e error r, false)

unfoldable pub register : Env → Run → Run
register e r =
    if r.schedule.config.auto_register_hive
    then on_site (λ s. record s { hive = (register_sensor e.creds s.hive).0 }) r
    else r

-- The login of a machine that could not be created goes away again.
unfoldable pub unregister : Env → Run → Run
unregister e r =
    if r.schedule.config.auto_register_hive
    then on_site (λ s. record s { hive = deregister_sensor e.creds.username s.hive }) r
    else r

-- The keys that both providers set.
unfoldable pub in_flight : Env → State → State
in_flight e st = record st {
  status = provisioning;
  current_droplet_name = some e.creds.username;
  current_sensor_user = some e.creds.username;
  current_public_ip = none;
  provisioning_started_at = some (at e.now);
  provisioning_deadline_at = some (at (e.now + minutes provisioning_timeout_minutes));
  next_action = none;
  next_action_at = none;
  last_action_at = some (at e.now);
}

-- The background thread that is started creates the instance: `Campaign.Configure`.
unfoldable pub gcp_start : Env → Run → Run
unfolding register in_flight
gcp_start e r0 =
    let r = register e (task_rename e e.creds.username r0) in
    let r' =
      on_state
        (λ st. record (in_flight e st) {
          stage = some configuring;
          current_droplet_id = none;
          last_message = creating_instance e.creds.username;
        })
        r in
    record r' { world = record r'.world { configuring = r.schedule.id ∷ r'.world.configuring } }

unfoldable pub gcp_checked : Env → Run → Option String → Run × Bool
unfolding gcp_start fail_dispatch
gcp_checked e r (some error) = fail_dispatch e error r
gcp_checked e r none = (gcp_start e r, true)

-- DEFAULT_REGION_POOL
abbrev pub default_region_pool : List String
default_region_pool = "nyc1" ∷ "nyc3" ∷ "sfo3" ∷ "ams3" ∷ "fra1" ∷ "lon1" ∷ "sgp1" ∷ []

unfoldable pub pool_of : Config → List String
pool_of c = elim c.regions_pool [ [] ↦ default_region_pool | r ∷ rs ↦ r ∷ rs ]

-- The region of the cycle, and the configuration with the index moved on.
unfoldable pub rotate_region : Config → String × Config
unfolding pool_of
rotate_region c =
    if c.rotate_regions
    then (
      get_or (pool_of c) (c.last_region_idx % length (pool_of c)) c.region,
      record c { last_region_idx = c.last_region_idx + 1 },
    )
    else (c.region, c)

unfoldable pub droplet_started : Env → String → ℕ → State → State
unfolding in_flight
droplet_started e region id st = record (in_flight e st) {
  current_droplet_id = some id;
  current_region = some region;
  hive_token = some e.creds.tpot_hive_user;
  stage = some waiting_ip;
  last_message = droplet_created e.creds.username id;
}

unfoldable pub with_machine : Env → ℕ → Site → Site
with_machine e id s = record s {
  machines = record { on_gcp = false; id = id; name = e.creds.username } ∷ s.machines;
}

-- `create_droplet` has returned or raised. The code cannot tell the two ways to raise apart.
unfoldable pub droplet_answer : Env → String → Run → DropletCall → Run × Bool
unfolding unregister fail_dispatch droplet_started with_machine
droplet_answer e region r (refused error) = fail_dispatch e error (unregister e r)
droplet_answer e region r (unanswered error id) =
    fail_dispatch e error (unregister e (on_site (with_machine e id) r))
droplet_answer e region r (returned id) =
    (on_state (droplet_started e region id) (on_site (with_machine e id) r), true)

-- `ensure_ssh_key` has returned or raised.
unfoldable pub key_answer : Env → String → Run → Outcome String ℕ → Run × Bool
unfolding register droplet_answer fail_dispatch
key_answer e region r (raised error) = fail_dispatch e error r
key_answer e region r (ok _) =
    droplet_answer e region (register e (task_rename e e.creds.username r)) e.create_droplet

unfoldable pub with_config : Config → Run → Run
with_config c r = record r { schedule = record r.schedule { config = c } }

unfoldable pub do_checked : Env → Run → Option String → Run × Bool
unfolding rotate_region key_answer with_config fail_dispatch
do_checked e r (some error) = fail_dispatch e error r
do_checked e r none =
    let (region, config) = rotate_region r.schedule.config in
    key_answer e region (with_config config r) e.ensure_ssh_key

-- The provider's branch, once the task has begun.
unfoldable pub dispatch_checked : Env → Run → Run × Bool
unfolding gcp_checked do_checked
dispatch_checked e r =
    if is_gcp r.schedule.config.provider
    then gcp_checked e r (gcp_preflight e r.schedule.config.sensor_type)
    else if not e.do_token
    then fail_dispatch e "DigitalOcean API token not configured" r
    else do_checked e r (do_preflight e r.schedule.config.sensor_type)

-- The run after it, and whether a cycle was started.
unfoldable pub dispatch_deploy : Env → Run → Run × Bool
unfolding dispatch_checked
dispatch_deploy e r = dispatch_checked e (task_begin e deploy r)
