-- ===== src/Examples/Sites.antt =====
-- Leases, the published list, the Hive's logins, durations and tasks.
use t_pot_sensor_deployer.Prelude.{
  length, ◌≤◌, String, ◌*◌, ◌≡◌, refl, true, false, not, ◌&&◌, ◌||◌, none, some, [], ◌∷◌, ◌++◌,
  arith, if◌then◌else◌, find, string_key, nat_key, ◌==◌, any_of, Distinct, ltb, ok, raised,
}
use t_pot_sensor_deployer.Duration.{
  max_duration_seconds, parse_duration, unit_seconds, duration_too_long,
}
use t_pot_sensor_deployer.Duration.Decimal.{decimal}
use t_pot_sensor_deployer.Duration.RoundTrip.{parse_duration-decimal}
use t_pot_sensor_deployer.Fleet.{db_get_static_ips, db_get_all_active_droplets}
use t_pot_sensor_deployer.Edl.{collect_entries}
use t_pot_sensor_deployer.Site.{new_edl}
use t_pot_sensor_deployer.Edl.{add_static_ip, update_static_ip, remove_static_ip}
use t_pot_sensor_deployer.Edl.Statics.{IsValid, statics-IsValid}
use t_pot_sensor_deployer.Edl.Distinct.{ips, collect_entries-Distinct}
use t_pot_sensor_deployer.Edl.Complete.{asks_sensor, asks_listing, asks_static, collect_entries_lem}
use t_pot_sensor_deployer.Hive.{
  register_sensor, deregister_sensor, has_login, has_token, of_user, lines,
}
use t_pot_sensor_deployer.Hive.Logins.{register_sensor_lem, deregister_sensor_lem}
use t_pot_sensor_deployer.Lease.{ttl_sweep_job}
use t_pot_sensor_deployer.Lease.Rows.{IsTable}
use t_pot_sensor_deployer.Lease.Sweep.{is_swept, ttl_sweep_job_lem}
use t_pot_sensor_deployer.Task.Recent.{record_task-Distinct}
use t_pot_sensor_deployer.Task.{
  record_task, unknown_meta, failed, running, recent_ids, first_seen, get_task_status,
  reap_interrupted_tasks,
}
use t_pot_sensor_deployer.Task.Lifecycle.{reap_interrupted_tasks_lem}
use t_pot_sensor_deployer.Examples.Fixtures.{creds, hive, cloud, droplet, db, site, busy}

abbrev listed : String
listed = "192.0.2.7"

abbrev empty : String
empty = ""

abbrev task_a : String
task_a = "a"

abbrev task_b : String
task_b = "b"

db-IsTable : IsTable db.leases
unfolding IsTable find
db-IsTable = (refl, refl, tt)

ttl_sweep_job_lem_example :
    (find 7 (ttl_sweep_job 90000000 cloud site).db.leases
      ≡ (if is_swept 90000000 (find 7 db.leases) then none else find 7 db.leases))
    × (find 7 (ttl_sweep_job 90000000 cloud site).db.sensors
        ≡ (if is_swept 90000000 (find 7 db.leases) then none else find 7 db.sensors))
ttl_sweep_job_lem_example = ttl_sweep_job_lem 90000000 cloud site 7 db-IsTable

collect_entries-Distinct_example : Distinct (ips (collect_entries db (some (droplet ∷ []))))
collect_entries-Distinct_example = collect_entries-Distinct db (some (droplet ∷ []))

collect_entries_lem_example :
    any_of (λ i. i == listed) (ips (collect_entries db (some (droplet ∷ [])))) ≡ (
      not (listed == empty)
      && (any_of (asks_sensor listed) (db_get_all_active_droplets db)
          || asks_listing listed (some (droplet ∷ []))
          || any_of (asks_static listed) (db_get_static_ips db)))
collect_entries_lem_example = collect_entries_lem db (some (droplet ∷ [])) listed

register_sensor_lem_example :
    (has_login "web-42" (register_sensor creds hive).0 ≡ true)
    × (has_login "mail-7" (register_sensor creds hive).0 ≡ has_login "mail-7" hive)
unfolding of_user lines
register_sensor_lem_example =
    register_sensor_lem creds hive "mail-7" refl refl refl ((λ h. refl), tt)

deregister_sensor_lem_example :
    (has_login "mail-7" (deregister_sensor "mail-7" hive) ≡ false)
    × (hive.env_file ≡ true → has_token "mail-7" (deregister_sensor "mail-7" hive) ≡ false)
    × (has_login "web-42" (deregister_sensor "mail-7" hive) ≡ has_login "web-42" hive)
unfolding of_user lines
deregister_sensor_lem_example =
    deregister_sensor_lem "mail-7" hive "web-42" ((λ h. ground (arith, h)), tt)

parse_duration-decimal_example :
    parse_duration (decimal 5 ++ b'm' ∷ [])
    ≡ (if ltb max_duration_seconds (5 * 60) then raised duration_too_long else ok (5 * 60))
unfolding unit_seconds
parse_duration-decimal_example = parse_duration-decimal 5 b'm' 60 refl

reap_interrupted_tasks_lem_example :
    ((get_task_status true task_a (reap_interrupted_tasks true busy).0).status ≡ failed)
    × ((get_task_status true task_b (reap_interrupted_tasks true busy).0).status ≡ running)
unfolding recent_ids first_seen get_task_status find
reap_interrupted_tasks_lem_example =
    (reap_interrupted_tasks_lem true busy task_a, reap_interrupted_tasks_lem true busy task_b)

statics-IsValid_example :
    IsValid (λ ip. true) (add_static_ip (λ ip. true) 9 "192.0.2.9" "lab" db (new_edl site)).1
    × IsValid
        (λ ip. true)
        (update_static_ip (λ ip. true) 9 listed "192.0.2.9" "lab" db (new_edl site)).1
    × IsValid (λ ip. true) (remove_static_ip (λ ip. true) 9 "192.0.2.9" db (new_edl site)).1
unfolding IsValid
statics-IsValid_example =
    statics-IsValid (λ ip. true) 9 listed "192.0.2.9" "lab" db (new_edl site) ((refl, refl), tt)

record_task-Distinct_example :
    (find task_a (record_task true task_a unknown_meta busy).metas ≡ some unknown_meta)
    × (length (record_task true task_a unknown_meta busy).recent ≤ 100)
    × Distinct (record_task true task_a unknown_meta busy).recent
unfolding Distinct
record_task-Distinct_example = record_task-Distinct task_a unknown_meta busy (refl, (refl, tt))
