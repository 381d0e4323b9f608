-- ===== src/Examples/Fixtures.antt =====
-- A site with one campaign, and the answers of one operation.
use t_pot_sensor_deployer.Prelude.{true, false, none, some, [], ◌∷◌, ok, string_key}
use t_pot_sensor_deployer.Fleet.{Db, Lease, Sensor, at, digitalocean, SensorStatus}
use t_pot_sensor_deployer.Edl.{Droplet}
use t_pot_sensor_deployer.Hive.{Creds, Hive}
use t_pot_sensor_deployer.Site.{Site, Cloud}
use t_pot_sensor_deployer.Task.{Queue, running, unknown_meta, campaign_deploy}
use t_pot_sensor_deployer.Campaign.Records.{
  pending_deploy, active, deploy, destroy, interval, created, State, Schedule,
}
use t_pot_sensor_deployer.Campaign.Create.{Payload}
use t_pot_sensor_deployer.Campaign.World.{World, Env, Run, returned, DropletStatus}

abbrev pub creds : Creds
creds = record {
  username = "web-42";
  password = "secret";
  htpasswd_line = "web-42:hash";
  tpot_hive_user = "token";
}

abbrev pub hive : Hive
hive = record {
  installed = true;
  env_file = true;
  lswebpasswd = some ("mail-7:hash" ∷ []);
  ls_web_user = some [];
}

abbrev pub droplet : Droplet
droplet = record {
  name = "web-42";
  public_ip = some "192.0.2.7";
  status = "active";
  region = "fra1";
  tags = "tpot-sensor" ∷ [];
  named_sensor = false;
  tagged_tpot = true;
}

abbrev pub cloud : Cloud
cloud = record {
  configured = λ p. true;
  destroys_droplet = λ id. false;
  destroys_instance = λ name. true;
  list_droplets = some (droplet ∷ []);
}

abbrev pub lease : Lease
lease = record {
  droplet_id = 7;
  droplet_name = "web-42";
  sensor_user = "mail-7";
  ttl = [];
  ttl_seconds = 60;
  created_at = 0;
  expires_at = at 60000000;
  provider = digitalocean;
  region = some "fra1";
}

abbrev pub sensor : Sensor
sensor = record {
  id = 7;
  name = "web-42";
  public_ip = some "192.0.2.7";
  private_ip = none;
  sensor_type = "web";
  sensor_user = some "mail-7";
  provider = digitalocean;
  region = "fra1";
  size = "s-1vcpu-1gb";
  image = "debian-12-x64";
  tags = "tpot-sensor" ∷ [];
  status = SensorStatus.active;
  ttl = none;
  ttl_seconds = none;
  created_at = 0;
  expires_at = none;
}

abbrev pub db : Db
db = record {
  sensors = (7, sensor) ∷ [];
  leases = (7, lease) ∷ [];
  launches = [];
  statics = ("192.0.2.7", record { ip = "192.0.2.7"; comment = ""; added_at = 5 }) ∷ [];
}

abbrev pub site : Site
site = record {
  db = db;
  hive = hive;
  machines = record { on_gcp = false; id = 7; name = "web-42" } ∷ [];
  published = [];
}

abbrev pub queue : Queue
queue = record {
  metas = [];
  recent = "b" ∷ "a" ∷ [];
  done_events = [];
  fallback_metas = [];
  fallback_ids = [];
}

-- Two tasks that run: `a` of a deployment job, and `b` of a campaign that does not point at it.
abbrev pub busy : Queue
busy = record queue {
  metas =
      ("a", record unknown_meta { status = running })
      ∷ ("b", record unknown_meta { task_type = campaign_deploy; status = running })
      ∷ [];
}

abbrev pub env : Env
env = record {
  now = 90000000;
  online = true;
  uuid = "task-1";
  do_token = true;
  gcp_project_id = true;
  gcp_credentials = true;
  playbook_for = λ t. true;
  ansible_available = true;
  private_key = true;
  public_key = true;
  creds = creds;
  ensure_ssh_key = ok 3;
  create_droplet = returned 8;
  get_droplet = λ id.
      ok (record { status = DropletStatus.active; public_ip = some "192.0.2.8"; name = none });
  randint = λ a b. a;
  cloud = cloud;
  wording = λ m. "";
}

abbrev pub state : State
state = record {
  status = pending_deploy;
  stage = none;
  current_droplet_id = none;
  current_droplet_name = none;
  current_public_ip = none;
  current_sensor_user = none;
  current_region = none;
  hive_token = none;
  cycle_number = 1;
  cycle_started_at = none;
  provisioning_started_at = none;
  provisioning_deadline_at = none;
  consecutive_failures = 0;
  next_action = some deploy;
  next_action_at = some (at 0);
  last_action_at = none;
  last_message = created;
  history = [];
  task_id = none;
}

-- An hourly campaign on DigitalOcean whose first deploy is due.
abbrev pub campaign : Schedule
campaign = record {
  id = "c1";
  name = "hourly";
  sensor_type = "web";
  enabled = true;
  timing = record {
    mode = interval;
    active_duration_seconds = 3600;
    cooldown_duration_seconds = 600;
    cooldown_min_seconds = 0;
    cooldown_max_seconds = 0;
  };
  config = record {
    provider = digitalocean;
    sensor_type = "web";
    region = "fra1";
    zone = "";
    machine_type = "";
    size = "s-1vcpu-1gb";
    image = "debian-12-x64";
    name_prefix = "web";
    attach_firewall = true;
    restrict_ssh = true;
    auto_register_hive = true;
    admin_ssh_port = 64295;
    rotate_regions = false;
    regions_pool = [];
    last_region_idx = 0;
  };
  state = state;
}

-- The same with its sensor up.
abbrev pub live : Schedule
live = record campaign {
  state = record state {
    status = active;
    current_droplet_id = some 7;
    current_droplet_name = some "web-42";
    current_public_ip = some "192.0.2.7";
    next_action = some destroy;
  };
}

abbrev pub world : World
world = record { site = site; queue = queue; schedules = ("c1", campaign) ∷ []; configuring = [] }

abbrev pub run : Schedule → Run
run s = record { world = world; schedule = s }

-- A request for the preset of six hours a day.
abbrev pub payload : Payload
payload = record {
  name = none;
  preset_id = "daily_6h";
  start_immediately = true;
  mode = none;
  active_duration = none;
  cooldown_duration = none;
  cooldown_min = none;
  cooldown_max = none;
  sensor_type = none;
  provider = none;
  region = none;
  zone = none;
  machine_type = none;
  size = none;
  image = none;
  name_prefix = none;
  attach_firewall = none;
  restrict_ssh = none;
  auto_register_hive = none;
  admin_ssh_port = none;
  rotate_regions = none;
  regions_pool = none;
}
