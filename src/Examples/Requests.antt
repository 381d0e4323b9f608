-- ===== src/Examples/Requests.antt =====
-- Requests to the web interface.
use t_pot_sensor_deployer.Prelude.{
  Option, ap, sym, String, ◌+◌, ◌||◌, ◌≡◌, refl, true, false, none, some, List, [], ◌∷◌, nat_key,
  find, is_ok, any_of, if◌then◌else◌, ◌&&◌, string_key, keys, Distinct, Table, Outcome, ok, is_some,
  or_else,
}
use t_pot_sensor_deployer.Duration.{seconds, parse_duration}
use t_pot_sensor_deployer.Duration.Decimal.{digits_value}
use t_pot_sensor_deployer.Lease.Rows.{IsTable}
use t_pot_sensor_deployer.Lease.{ttl_sweep_job}
use t_pot_sensor_deployer.Http.{Server, Call}
use t_pot_sensor_deployer.Http.Sensors.{provider_of, name_of, delete_droplet, update_droplet_ttl}
use t_pot_sensor_deployer.Http.Removed.{can_destroy, Removed, delete_droplet_lem}
use t_pot_sensor_deployer.Http.Renewed.{Outlives, update_droplet_ttl-Outlives}
use t_pot_sensor_deployer.Http.Feed.{
  Published, add_static_edl_ip, update_static_edl_ip, remove_static_edl_ip, statics-Published,
}
use t_pot_sensor_deployer.Task.{Meta, unknown_meta, running, completed, is_terminal}
use t_pot_sensor_deployer.Http.Deploys.{entry, done, Reading, Poll, stream_deployment}
use t_pot_sensor_deployer.Http.Streamed.{
  Ends, is_last, entries, Grows, last_logs, stream_deployment-Ends, stream_deployment-entries,
}
use t_pot_sensor_deployer.Settings.{
  Value, text, is_known, only_known, put_all, Environment, load_config, save_config,
  public_settings,
}
use t_pot_sensor_deployer.Settings.Saved.{is_overridden, save_config_lem}
use t_pot_sensor_deployer.Campaign.Records.{Schedule}
use t_pot_sensor_deployer.Http.Schedules.{pause, resume, trigger, delete, handle}
use t_pot_sensor_deployer.Http.Handled.{Switches, Deletes, handle_lem}
use t_pot_sensor_deployer.Examples.Fixtures.{cloud, sensor, site, env, world}
use t_pot_sensor_deployer.Site.{new_edl}

abbrev server : Server
server = record { site = site; edl_mgr = new_edl site }

abbrev call : Call
call = record { now = 5; cloud = record cloud { destroys_droplet = λ id. true } }

delete_droplet_lem_example :
    (is_ok (delete_droplet call 7 true "" server).1
      ≡ can_destroy call
          (provider_of (find 7 server.site.db.sensors))
          7
          (name_of "" (find 7 server.site.db.sensors)))
    × Removed call
        (provider_of (find 7 server.site.db.sensors))
        7
        (name_of "" (find 7 server.site.db.sensors))
        server
        (delete_droplet call 7 true "" server)
delete_droplet_lem_example = delete_droplet_lem call 7 true "" server

update_droplet_ttl-Outlives_example :
    (is_ok
        (update_droplet_ttl call 7
          (record { ttl = some (b'9' ∷ b's' ∷ []); cancel = false })
          server).1
      ≡ true)
    × Outlives 6
        (call.now + seconds 9)
        7
        sensor
        (ttl_sweep_job 6 cloud
          (update_droplet_ttl call 7
            (record { ttl = some (b'9' ∷ b's' ∷ []); cancel = false })
            server).0.site).db
unfolding IsTable find parse_duration digits_value
update_droplet_ttl-Outlives_example =
    update_droplet_ttl-Outlives call 7 b'9' (b's' ∷ []) server sensor 8 6 cloud (refl, refl, tt)
      refl refl

statics-Published_example :
    Published server (add_static_edl_ip (λ ip. true) call "192.0.2.9" "lab" server)
    × Published server (update_static_edl_ip (λ ip. true) call "192.0.2.7" "192.0.2.9" "lab" server)
    × Published server (remove_static_edl_ip (λ ip. true) call "192.0.2.9" server)
statics-Published_example = statics-Published (λ ip. true) call "192.0.2.7" "192.0.2.9" "lab" server

abbrev under_way : Meta
under_way = record unknown_meta { status = running }

abbrev rounds : List (Reading String)
rounds =
    record { message = some (entry "configuring"); now = 3; meta = under_way }
    ∷ record { message = some (done completed (7 ∷ []) none); now = 4; meta = under_way }
    ∷ []

abbrev polls : List (Poll String)
polls =
    record { logs = "starting" ∷ "configuring" ∷ []; meta = under_way }
    ∷ record {
      logs = "starting" ∷ "configuring" ∷ "done" ∷ [];
      meta = record unknown_meta { status = completed };
    }
    ∷ []

stream_deployment-Ends_example :
    Ends
      (is_terminal under_way.status
        || (if true then any_of is_last rounds else any_of (λ p. is_terminal p.meta.status) polls))
      (stream_deployment ("starting" ∷ []) under_way true 0 rounds 1 polls)
stream_deployment-Ends_example =
    stream_deployment-Ends ("starting" ∷ []) under_way true 0 rounds 1 polls

stream_deployment-entries_example :
    entries (stream_deployment ("starting" ∷ []) under_way false 0 rounds 1 polls)
    ≡ last_logs ("starting" ∷ []) polls
unfolding Grows is_terminal
stream_deployment-entries_example =
    stream_deployment-entries ("starting" ∷ []) under_way 0 rounds polls refl
      (("configuring" ∷ [], refl), (("done" ∷ [], refl), tt))

-- The check of settings that have the right types.
abbrev accepts : Table String Value → Outcome String (String → Value)
accepts values = ok (λ k. or_else (find k values) (text ""))

abbrev updates : Table String Value
updates = ("region", text "fra1") ∷ ("do_token", text "secret") ∷ []

abbrev environment : Environment
environment = record { hive_ip = "198.51.100.4"; gcp_project_id = ""; do_token = "secret" }

abbrev checked : String → Value
checked k = or_else (find k (only_known (put_all (only_known updates) []))) (text "")

save_config_lem_example :
    (db : Table String Value) × (save_config String accepts updates [] ≡ ok db)
    × ((k : String)
        → find k db
          ≡ (if is_known k && (is_some (find k updates) || false) then some (checked k) else none))
    × ((k : String)
        → is_known k ≡ true
        → is_some (find k updates) ≡ true
        → is_overridden environment k ≡ false
        → find k (load_config environment db) ≡ some (checked k))
    × (find "do_token" (public_settings "/secrets" (load_config environment db)) ≡ none)
unfolding find keys Distinct
save_config_lem_example =
    save_config_lem String accepts environment "/secrets" updates [] checked tt refl

id_of : Option Schedule → String
id_of none = "c1"
id_of (some s) = s.id

handle_lem_example :
    Switches false "c1" "c2" world (handle (λ t. "s") (λ t. "g") (pause env "c1") world)
    × Switches true "c1" "c2" world (handle (λ t. "s") (λ t. "g") (resume env "c1") world)
    × Deletes "c1" "c2" world (handle (λ t. "s") (λ t. "g") (delete env true "c1") world)
    × (is_ok (handle (λ t. "s") (λ t. "g") (trigger env "c1") world).1 ≡ true)
unfolding find id_of
handle_lem_example =
    handle_lem (λ t. "s") (λ t. "g") env true "c1" "c2" world (λ s found. ap id_of (sym found)) refl
