-- ===== src/Deploy/Machine.antt =====
-- A round of the loop of both deployment jobs: one machine.
use t_pot_sensor_deployer.Prelude.{
  ℕ, String, ◌+◌, Bool, true, false, Option, none, some, List, [], ◌∷◌, ◌++◌, ◌==◌, nat_key,
  if◌then◌else◌, Outcome, ok, raised,
}
use t_pot_sensor_deployer.Duration.{ValueError, parse_duration, strip}
use t_pot_sensor_deployer.Duration.Decimal.{Text}
use t_pot_sensor_deployer.Fleet.{
  Db, Lease, Sensor, SensorStatus, Provider, digitalocean, gcp, db_save_active_droplet,
}
use t_pot_sensor_deployer.Hive.{register_sensor, deregister_sensor}
use t_pot_sensor_deployer.Edl.{Edl, write_edl_file}
use t_pot_sensor_deployer.Site.{Site}
use t_pot_sensor_deployer.Lease.{Request, schedule_lease}
use t_pot_sensor_deployer.Task.{Queue, publish_task_log}
use t_pot_sensor_deployer.Provision.{ProvisionError, configure_and_verify}
use t_pot_sensor_deployer.Deploy.Create.{
  Creation, Created, CreateError, create_droplet, create_instance,
}
use t_pot_sensor_deployer.Deploy.Setup.{
  Setup, Plan, Attempt, JobError, create_failed, invalid_ttl, configure_failed, Line, registering,
  registered, registration_note, creating, machine_active, leased, configured, warning, edl_updated,
  percent_of,
}

-- What a job changes: the site, the tasks, its own EDLManager and its list of deployed machines.
pub record Job : Type 0 where
  pub site : Site
  pub queue : Queue
  pub edl : Edl
  pub deployed : List ℕ

-- The job so far, and the exception that ended it.
abbrev pub Step : Type 0
Step = Job × Option JobError

abbrev pub on_db : (Db → Db) → Job → Job
on_db f j = record j { site = record j.site { db = f j.site.db } }

unfoldable pub log : Setup → Plan → Line → Job → Job
log e plan line j = record j {
  queue = publish_task_log e.online plan.task_id (e.wording line) (percent_of line) j.queue;
}

unfoldable pub emit : Setup → Plan → List (String × Option ℕ) → Job → Job
emit e plan [] j = j
emit e plan ((message, percent) ∷ lines) j =
    emit e plan lines
      (record j { queue = publish_task_log e.online plan.task_id message percent j.queue })

unfoldable pub log_warnings : Setup → Plan → List String → Job → Job
unfolding log
log_warnings e plan [] j = j
log_warnings e plan (w ∷ ws) j = log_warnings e plan ws (log e plan (warning w) j)

unfoldable pub sensor_name : Setup → Plan → ℕ → String
sensor_name e plan idx =
    if plan.count == 1 then plan.sensor_name_base else e.numbered plan.sensor_name_base (idx + 1)

unfoldable pub register_login : Setup → Plan → Attempt → Job → Job
unfolding log
register_login e plan a j =
    let (hive, done) = register_sensor a.creds j.site.hive in
    let j' = record (log e plan registering j) { site = record j.site { hive = hive } } in
    if plan.auto_register_hive
    then log e plan (if done then registered else registration_note) j'
    else j

unfoldable pub creation : Plan → Attempt → Creation
creation plan a = if plan.on_gcp then create_instance a.cloud else create_droplet a.cloud

unfoldable pub with_machine : Bool → String → Option ℕ → Job → Job
with_machine on_gcp name none j = j
with_machine on_gcp name (some id) j = record j {
  site = record j.site {
    machines = record { on_gcp = on_gcp; id = id; name = name } ∷ j.site.machines;
  };
}

unfoldable pub drop_login : Plan → Attempt → Job → Job
drop_login plan a j =
    if plan.auto_register_hive
    then record j { site = record j.site { hive = deregister_sensor a.creds.username j.site.hive } }
    else j

-- `ttl and ttl.strip()`
unfoldable pub has_ttl : Option Text → Bool
has_ttl none = false
has_ttl (some ttl) = elim (strip ttl) [ [] ↦ false | c ∷ s ↦ true ]

-- `parse_duration(ttl) if ttl else None`
unfoldable pub ttl_seconds : Option Text → Outcome ValueError (Option ℕ)
ttl_seconds none = ok none
ttl_seconds (some []) = ok none
ttl_seconds (some (c ∷ s)) = elim (parse_duration (c ∷ s)) [
  | ok n ↦ ok (some n)
  | raised error ↦ raised error
]

abbrev pub provider_of : Plan → Provider
provider_of plan = if plan.on_gcp then gcp else digitalocean

unfoldable pub lease_request : Text → Plan → Attempt → String → Created → Request
lease_request ttl plan a name m = record {
  droplet_id = m.id;
  droplet_name = name;
  ttl_text = ttl;
  sensor_user = some a.creds.username;
  sensor_type = plan.sensor_type;
  provider = provider_of plan;
  region = if plan.on_gcp then some plan.region else none;
}

-- The lifespan is the first argument.
unfoldable pub lease_machine :
    Option Text → Plan → Attempt → String → Created → Db → Outcome ValueError (Option Lease × Db)
unfolding lease_request has_ttl
lease_machine none plan a name m db = ok (none, db)
lease_machine (some ttl) plan a name m db =
    if has_ttl (some ttl)
    then schedule_lease a.leased_at (lease_request ttl plan a name m) db
    else ok (none, db)

unfoldable pub new_row : Plan → Attempt → String → Created → Option Lease → Option ℕ → Sensor
new_row plan a name m lease secs = record {
  id = m.id;
  name = name;
  public_ip = m.public_ip;
  private_ip = m.private_ip;
  sensor_type = plan.sensor_type;
  sensor_user = some a.creds.username;
  provider = provider_of plan;
  region = plan.region;
  size = plan.size;
  image = plan.image;
  tags = plan.tags;
  status = SensorStatus.provisioning;
  ttl = plan.ttl;
  ttl_seconds = secs;
  created_at = a.saved_at;
  expires_at = elim lease [ none ↦ none | some l ↦ some l.expires_at ];
}

unfoldable pub refresh_edl : Plan → Attempt → Job → Job
refresh_edl plan a j =
    let edl = write_edl_file a.edl_at (if plan.on_gcp then none else a.listing) j.site.db j.edl in
    record j { edl = edl; site = record j.site { published = edl.file } }

unfoldable pub save_as : SensorStatus → Sensor → Job → Job
save_as status row = on_db (db_save_active_droplet (record row { status = status }))

unfoldable pub finish_machine : Setup → Plan → Attempt → Sensor → List String → Job → Job
unfolding save_as log log_warnings refresh_edl
finish_machine e plan a row warnings j =
    let up = log e plan configured (save_as SensorStatus.active row j) in
    let warned = log_warnings e plan warnings up in
    log e plan edl_updated
      (refresh_edl plan a (record warned { deployed = warned.deployed ++ row.id ∷ [] }))

-- ADMIN_SSH_PORT
abbrev pub admin_ssh_port : ℕ
admin_ssh_port = 64295

unfoldable pub after_configure :
    Setup → Plan → Attempt → Sensor → Job → Outcome ProvisionError (List String) → Step
unfolding save_as finish_machine
after_configure e plan a row j (ok warnings) = (finish_machine e plan a row warnings j, none)
after_configure e plan a row j (raised error) =
    (save_as SensorStatus.provision_failed row j, some (configure_failed error))

unfoldable pub configure_machine : Setup → Plan → Attempt → Sensor → Job → Step
unfolding emit after_configure
configure_machine e plan a row j =
    after_configure e plan a row (emit e plan a.configure_lines j)
      (configure_and_verify a.provision plan.sensor_type admin_ssh_port)

-- The lease is taken; the row waits for the seconds of the lifespan.
unfoldable pub save_machine :
    Setup
    → Plan
    → Attempt
    → String
    → Created
    → Option Lease
    → Job
    → Outcome ValueError (Option ℕ)
    → Step
unfolding new_row configure_machine
save_machine e plan a name m lease j (raised error) = (j, some (invalid_ttl error))
save_machine e plan a name m lease j (ok secs) =
    configure_machine e plan a (new_row plan a name m lease secs)
      (on_db (db_save_active_droplet (new_row plan a name m lease secs)) j)

unfoldable pub after_lease :
    Setup → Plan → Attempt → String → Created → Job → Outcome ValueError (Option Lease × Db) → Step
unfolding ttl_seconds save_machine log
after_lease e plan a name m j (raised error) = (j, some (invalid_ttl error))
after_lease e plan a name m j (ok (lease, db)) =
    let j' = on_db (λ _. db) j in
    save_machine e plan a name m lease (if has_ttl plan.ttl then log e plan leased j' else j')
      (ttl_seconds plan.ttl)

unfoldable pub after_create :
    Setup → Plan → Attempt → String → Job → Outcome CreateError Created → Step
unfolding lease_machine after_lease drop_login log
after_create e plan a name j (raised error) = (drop_login plan a j, some (create_failed error))
after_create e plan a name j (ok m) =
    after_lease e plan a name m (log e plan machine_active j)
      (lease_machine plan.ttl plan a name m j.site.db)

unfoldable pub deploy_machine : Setup → Plan → ℕ → Job → Step
unfolding sensor_name register_login creation with_machine emit after_create log
deploy_machine e plan idx j =
    let a = e.attempts idx in
    let name = sensor_name e plan idx in
    let (made, result) = creation plan a in
    let asked = log e plan creating (register_login e plan a j) in
    after_create e plan a name (emit e plan a.poll_lines (with_machine plan.on_gcp name made asked))
      result
