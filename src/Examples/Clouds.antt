-- ===== src/Examples/Clouds.antt =====
-- What the clients of the clouds do.
use t_pot_sensor_deployer.Prelude.{
  ℕ, String, ◌≡◌, refl, Bool, true, false, none, List, [], ◌∷◌, arith, nat_key, any_of, length,
  if◌then◌else◌, string_key, Outcome, ok, ◌-◌, ltb, map,
}
use t_pot_sensor_deployer.Duration.{seconds}
use t_pot_sensor_deployer.Firewall.{
  Firewall, Request, tcp, rules_of, is_restricted, ensure_sensor_firewall,
}
use t_pot_sensor_deployer.Firewall.Gcp.{ensure_gcp_firewall}
use t_pot_sensor_deployer.Firewall.Policy.{
  v4, to_tcp, admits, gcp_admits, policy, ensure_sensor_firewall-policy,
}
use t_pot_sensor_deployer.Firewall.Account.{Ensured, ensure_sensor_firewall-Ensured}
use t_pot_sensor_deployer.Fleet.Sync.{CloudDroplet, Slug}
use t_pot_sensor_deployer.Client.{
  Cache, change_droplet, list_droplets, fetched, cache_key, with_ips, get_do_cache,
}
use t_pot_sensor_deployer.Client.Fresh.{list_droplets_lem}
use t_pot_sensor_deployer.Network.{
  network_name, Subnet, Deletion, ended, overdue, DestroyAnswers, Project, ensure_sensor_network,
  teardown_gcp_network,
}
use t_pot_sensor_deployer.Network.Ready.{IsReady}
use t_pot_sensor_deployer.Network.Teardown.{TornDown, teardown_gcp_network_lem}
use t_pot_sensor_deployer.Examples.Fixtures.{site}

abbrev request : Request
request = record {
  fw_name = "tpot-sensor-firewall";
  extra_tag = "tpot-web-sensor";
  old_name = "tpot-web-sensor-fw";
  type_ports = record { port = 80; proto = tcp } ∷ [];
  hive_ip = "198.51.100.4";
  restrict_ssh = true;
  admin_ssh_port = 64295;
  open_all_ports = true;
}

abbrev firewalls : List Firewall
firewalls =
    record { id = "f1"; name = "office"; inbound = []; tags = "office" ∷ [] }
    ∷ record { id = "f2"; name = "sensors"; inbound = []; tags = "tpot-sensor" ∷ [] }
    ∷ []

ensure_sensor_firewall-policy_example :
    (any_of (admits (v4 "192.0.2.1") (to_tcp 64295)) (rules_of request)
      ≡ policy
          (is_restricted true "198.51.100.4")
          "198.51.100.4"
          64295
          (v4 "192.0.2.1")
          (to_tcp 64295))
    × ((restrict : Bool) (hive ip : String) (admin : ℕ)
        → gcp_admits (v4 ip) (to_tcp 64295) (
            ensure_gcp_firewall 64295 true "198.51.100.4"
              (ensure_gcp_firewall admin restrict hive []))
          ≡ policy (is_restricted true "198.51.100.4") "198.51.100.4" 64295 (v4 ip) (to_tcp 64295))
ensure_sensor_firewall-policy_example =
    ensure_sensor_firewall-policy request (v4 "192.0.2.1") (to_tcp 64295) refl (omega arith)
      (omega arith, omega arith)

ensure_sensor_firewall-Ensured_example :
    Ensured request firewalls (ensure_sensor_firewall request "f3" firewalls)
    × (length
          (ensure_sensor_firewall request "f4" (ensure_sensor_firewall request "f3" firewalls).0).0
        ≡ length (ensure_sensor_firewall request "f3" firewalls).0)
ensure_sensor_firewall-Ensured_example =
    ensure_sensor_firewall-Ensured request request "f3" "f4" firewalls

abbrev listed : CloudDroplet
listed = record {
  id = 9;
  name = "web";
  tags = [];
  public_ip = none;
  private_ip = none;
  networks = record { is_public = true; is_private = false; ip_address = "192.0.2.9" } ∷ [];
  region = Slug.text none;
  size = Slug.text none;
  image = Slug.text none;
  status = "active";
  created_at = none;
}

abbrev cache : Cache (List CloudDroplet)
cache = ("t1", ("droplets_all", (1, listed ∷ [])) ∷ []) ∷ []

abbrev answer : Outcome String (List CloudDroplet)
answer = ok []

abbrev answered : ℕ → Outcome String ℕ
answered n = ok n

abbrev listing : List CloudDroplet → Outcome String (List CloudDroplet)
listing ds = ok ds

list_droplets_lem_example :
    let changed = (change_droplet "t1" (answered 7) cache).1 in
    (list_droplets 3 "t1" "" false answer changed ≡ fetched 3 "t1" (cache_key "") answer changed)
    × ((list_droplets 3 "t1" "" false answer
          (list_droplets 2 "t1" "" true (listing (listed ∷ [])) cache).1).0
        ≡ (if ltb (3 - 2) (seconds 5)
            then ok (map with_ips (listed ∷ []))
            else (fetched 3 "t1" (cache_key "") answer cache).0))
    × ((ttl : ℕ)
        → get_do_cache 3 "t2" "droplets_all" ttl changed
          ≡ get_do_cache 3 "t2" "droplets_all" ttl cache)
list_droplets_lem_example =
    list_droplets_lem 2 3 "t1" "t2" "" "droplets_all" 7 (listed ∷ []) answer cache refl

abbrev foreign_subnet : Subnet
foreign_subnet = record { name = "default"; network = "default"; region = "us-central1" }

-- A project with the dedicated network and its subnet in one region.
abbrev project : Project
project = record {
  networks = "default" ∷ network_name ∷ [];
  subnets =
      foreign_subnet
      ∷ record { name = "tpot-sensor-vpc-us-east1"; network = network_name; region = "us-east1" }
      ∷ [];
}

abbrev answers : Deletion → DestroyAnswers
answers d = record { lists = true; subnet = λ s. ended; network = d }

-- A teardown that succeeds, and one in which the wait for the network's deletion times out.
teardown_gcp_network_lem_example :
    (IsReady "us-central1" (ensure_sensor_network "us-central1" project)
      × (ensure_sensor_network "us-central1" (ensure_sensor_network "us-central1" project)
          ≡ ensure_sensor_network "us-central1" project)
      × TornDown site.db project (teardown_gcp_network true (answers ended) site.db project))
    × (IsReady "us-east1" (ensure_sensor_network "us-east1" project)
        × (ensure_sensor_network "us-east1" (ensure_sensor_network "us-east1" project)
            ≡ ensure_sensor_network "us-east1" project)
        × TornDown site.db project (teardown_gcp_network true (answers overdue) site.db project))
teardown_gcp_network_lem_example = (
  teardown_gcp_network_lem "us-central1" true (answers ended) site.db project,
  teardown_gcp_network_lem "us-east1" true (answers overdue) site.db project,
)
