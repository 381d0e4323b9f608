-- ===== src/Examples/Jobs.antt =====
-- Deployment jobs, configuring, the worker, the leases as a function, and the manual sync.
use t_pot_sensor_deployer.Prelude.{
  ℕ, ◌+◌, ◌*◌, ◌/◌, ◌≤◌, ◌≡◌, refl, true, false, none, some, List, [], ◌∷◌, arith, if◌then◌else◌,
  find, string_key, nat_key, ◌==◌, Distinct, keys, ok, is_ok,
}
use t_pot_sensor_deployer.Duration.{parse_duration}
use t_pot_sensor_deployer.Duration.Decimal.{Text, digits_value}
use t_pot_sensor_deployer.Fleet.{digitalocean}
use t_pot_sensor_deployer.Fleet.Sync.{CloudDroplet, text, db_sync_active_droplets}
use t_pot_sensor_deployer.Fleet.Reconciled.{listing_of, row_after, db_sync_active_droplets_lem}
use t_pot_sensor_deployer.Provision.{
  Health, Answers, wait_for_hive_admission, hive_admit_poll_seconds, deadline, configure_and_verify,
}
use t_pot_sensor_deployer.Provision.Admission.{
  Waited, wait_for_hive_admission_lem, configure_and_verify_lem, is_ready,
}
use t_pot_sensor_deployer.Task.{failed, unknown, recent_ids, first_seen, get_task_status}
use t_pot_sensor_deployer.Lease.Rows.{IsTable}
use t_pot_sensor_deployer.Lease.Refine.{
  Op, cancel, extend, sweep, run, leases_of, replay, run-replay,
}
use t_pot_sensor_deployer.Deploy.Create.{CloudAnswers, Poll, wait_droplet, wait_instance}
use t_pot_sensor_deployer.Deploy.Waits.{create-Enough}
use t_pot_sensor_deployer.Deploy.Setup.{
  DeployPayload, Setup, Attempt, Plan, TypeInfo, do_plan, do_preflight,
}
use t_pot_sensor_deployer.Deploy.Machine.{ttl_seconds}
use t_pot_sensor_deployer.Deploy.Job.{job_fn, preflight}
use t_pot_sensor_deployer.Deploy.Tracked.{Tracks}
use t_pot_sensor_deployer.Deploy.Complete.{job_fn-Tracks}
use t_pot_sensor_deployer.Deploy.Ends.{Ended, job_fn-Ended}
use t_pot_sensor_deployer.Worker.{start, Reading, Ticker}
use t_pot_sensor_deployer.Campaign.World.{World}
use t_pot_sensor_deployer.Campaign.Listing.{is_claimed, is_orphan}
use t_pot_sensor_deployer.Worker.Start.{is_left_over, start_lem}
use t_pot_sensor_deployer.Worker.Sweeps.{Sweeps, iterate-Sweeps}
use t_pot_sensor_deployer.Examples.Fixtures.{
  creds, cloud, droplet, db, site, queue, busy, env, world,
}

-- A machine that opens its ports, whose second check is the first healthy one, and that the Hive
-- admits after a poll.
abbrev health : ℕ → Health
health n = record {
  healthy = if n == 0 then false else true;
  warnings = if n == 1 then "cannot reach the Hive" ∷ [] else [];
}

abbrev machine : Answers
machine = record {
  admin_port_open = false;
  port_22_open = true;
  ssh_auth = true;
  playbook_for = λ t. true;
  exit_code = 0;
  checks = health;
  hive_admit_wait_seconds = 480;
  clock = λ i. i * 50;
}

abbrev droplet_answers : CloudAnswers
droplet_answers = record {
  request = ok 9;
  operation = none;
  polls = λ i. ok (record { is_active = true; public_ip = some "192.0.2.9"; private_ip = none });
  clock = λ i. i * 3;
}

abbrev attempt_of : ℕ → Attempt
attempt_of i = record {
  creds = creds;
  cloud = droplet_answers;
  poll_lines = [];
  leased_at = 0;
  saved_at = 0;
  provision = machine;
  configure_lines = [];
  edl_at = 0;
  listing = some (droplet ∷ []);
}

abbrev web_type : TypeInfo
web_type = record {
  recommended_size_do = "s-1vcpu-2gb";
  recommended_size_gcp = "e2-small";
  has_test_commands = true;
}

abbrev setup : Setup
setup = record {
  online = true;
  wording = λ l. "";
  error_text = λ e. "error";
  numbered = λ base n. base;
  do_token = true;
  gcp_project_id = false;
  gcp_credentials = false;
  sensor_types = λ t. some web_type;
  playbook_for = λ t. true;
  ansible_available = true;
  private_key = true;
  public_key = true;
  ensure_ssh_key = none;
  firewall = true;
  gcp_zone = none;
  gcp_machine_type = none;
  gcp_image = none;
  attempts = attempt_of;
}

-- "2h"
abbrev two_hours : Text
two_hours = 50 ∷ 104 ∷ []

abbrev request : DeployPayload
request = record {
  name = some "web";
  sensor_type = "web";
  provider = digitalocean;
  region = "fra1";
  size = "s-1vcpu-1gb";
  image = "debian-12-x64";
  count = 2;
  ttl = some two_hours;
  attach_firewall = true;
  auto_register_hive = true;
}

abbrev job_plan : Plan
job_plan = unfold do_plan in do_plan "task-9" request web_type

job_fn-Tracks_example :
    Tracks setup job_plan (some 7200) site (job_fn setup "task-9" request site queue).0.site
unfolding preflight do_preflight do_plan ttl_seconds parse_duration digits_value
job_fn-Tracks_example =
    job_fn-Tracks setup "task-9" request site queue job_plan (some 7200) refl refl

job_fn-Ended_example : Ended setup "task-9" 2 (job_fn setup "task-9" request site queue)
job_fn-Ended_example = job_fn-Ended setup "task-9" request site queue

wait_for_hive_admission_lem_example :
    (k : ℕ) × (k ≤ 480 / hive_admit_poll_seconds + 1)
    × Waited machine
        (deadline machine)
        0
        2
        ("cannot reach the Hive" ∷ [])
        (wait_for_hive_admission machine 2 (health 1))
        k
wait_for_hive_admission_lem_example =
    wait_for_hive_admission_lem machine 2 (health 1) (omega arith, λ i. omega arith)

configure_and_verify_lem_example :
    is_ok (configure_and_verify machine "web" 64295) ≡ is_ready machine "web"
configure_and_verify_lem_example = configure_and_verify_lem machine "web" 64295

abbrev left_world : World
left_world = record world { queue = busy }

start_lem_example :
    ((w' : _) × (start true left_world ≡ some w')
      × ((get_task_status true "a" w'.queue).status ≡ failed))
    × ((w' : _) × (start true left_world ≡ some w')
        × ((get_task_status true "b" w'.queue).status ≡ failed))
    × ((w' : _) × (start true left_world ≡ some w')
        × ((get_task_status true "c" w'.queue).status ≡ unknown))
unfolding recent_ids first_seen get_task_status find is_left_over is_orphan is_claimed
start_lem_example = (start_lem left_world "a", start_lem left_world "b", start_lem left_world "c")

abbrev reading : ℕ → Reading
reading t = record { tick = λ id. env; time = t; sweep_at = t; cloud = cloud }

abbrev ticker : Ticker
ticker = record { world = world; last_ttl_check = 0 }

iterate-Sweeps_example : Sweeps (reading 10000000 ∷ reading 20000000 ∷ reading 60000000 ∷ []) ticker
iterate-Sweeps_example =
    iterate-Sweeps (reading 10000000 ∷ reading 20000000 ∷ []) (reading 60000000) ticker
      (omega arith)

db-IsTable : IsTable db.leases
unfolding IsTable find
db-IsTable = (refl, refl, tt)

abbrev ops : List Op
ops = extend 5 7 two_hours ∷ cancel 6 8 ∷ sweep 90000000 cloud ∷ []

run-replay_example :
    IsTable (run ops site).db.leases × (leases_of (run ops site) ≡ replay ops (leases_of site))
run-replay_example = run-replay ops site db-IsTable

abbrev listed_droplet : CloudDroplet
listed_droplet = record {
  id = 9;
  name = "web";
  tags = "tpot-sensor" ∷ "type-web" ∷ [];
  public_ip = some "192.0.2.9";
  private_ip = none;
  networks = [];
  region = text (some "fra1");
  size = text none;
  image = text none;
  status = "active";
  created_at = none;
}

db_sync_active_droplets_lem_example :
    find 7 (db_sync_active_droplets 5 (listed_droplet ∷ []) db).0.sensors
    ≡ row_after 5 (listing_of (listed_droplet ∷ []) 7) (find 7 db.leases) (find 7 db.sensors)
unfolding Distinct keys
db_sync_active_droplets_lem_example =
    db_sync_active_droplets_lem 5 (listed_droplet ∷ []) db 7 (refl, tt)

abbrev no_address : Poll
no_address = record { is_active = true; public_ip = none; private_ip = none }

create-Enough_example :
    (wait_droplet (102 + 7) droplet_answers 9 0 ≡ wait_droplet 102 droplet_answers 9 0)
    × (wait_instance (21 + 7) droplet_answers 9 1 no_address
        ≡ wait_instance 21 droplet_answers 9 1 no_address)
create-Enough_example = create-Enough droplet_answers 9 7 no_address (omega arith, λ i. omega arith)
