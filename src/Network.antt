-- ===== src/Network.antt =====
-- The dedicated network of app/gcp_client.py, and the request of app/api.py that takes it down. A
-- subnet's key is its region and its name. Of making sure of the network, the run is modelled whose
-- calls return. What comes of the calls of the teardown is an argument, `DestroyAnswers`.
pub mod Ready
pub mod Teardown
use t_pot_sensor_deployer.Prelude.{
  String, Bool, true, false, ◌&&◌, not, List, [], ◌∷◌, ◌++◌, ◌==◌, if◌then◌else◌, string_key,
  any_of, keep, Outcome, ok, raised,
}
use Prim.Native.String.{◌++◌ as append}
use t_pot_sensor_deployer.Fleet.{Db, Sensor, is_gcp, db_get_all_active_droplets}
use t_pot_sensor_deployer.Http.{HttpError, bad_request, conflict}

-- NETWORK
abbrev pub network_name : String
network_name = "tpot-sensor-vpc"

pub record Subnet : Type 0 where
  pub name : String
  pub network : String
  pub region : String

pub record Project : Type 0 where
  pub networks : List String
  pub subnets : List Subnet

unfoldable pub subnet_name : String → String
subnet_name region = append network_name (append "-" region)

unfoldable pub ensure_network : Project → Project
ensure_network p =
    if any_of (λ n. n == network_name) p.networks
    then p
    else record p { networks = p.networks ++ network_name ∷ [] }

unfoldable pub is_same_subnet : String → String → Subnet → Bool
is_same_subnet region name s = s.region == region && s.name == name

unfoldable pub ensure_sensor_network : String → Project → Project
unfolding ensure_network subnet_name is_same_subnet
ensure_sensor_network region p0 =
    let p = ensure_network p0 in
    let name = subnet_name region in
    if any_of (is_same_subnet region name) p.subnets then p else record p {
      subnets = p.subnets ++ record { name = name; network = network_name; region = region } ∷ [];
    }

-- What comes of a deletion: the operation ends, or there was nothing to delete (NotFound, which the
-- code passes over); it raises and deletes nothing; or waiting for it raises, after 60 seconds at the
-- latest, and the cloud goes on and deletes all the same.
pub data Deletion : Type 0 where
  ended refused overdue : Deletion

-- Whether the subnets can be listed, and what comes of each deletion.
pub record DestroyAnswers : Type 0 where
  pub lists : Bool
  pub subnet : Subnet → Deletion
  pub network : Deletion

-- What `subnetworks.delete(...)` deletes in the end.
unfoldable pub delete_subnet : Subnet → Project → Project
unfolding is_same_subnet
delete_subnet s p = record p {
  subnets = keep (λ t. not (is_same_subnet s.region s.name t)) p.subnets;
}

-- The loop over the subnets that were listed, and whether it came to its end.
unfoldable pub destroy_subnets : DestroyAnswers → List Subnet → Project → Project × Bool
unfolding delete_subnet
destroy_subnets a [] p = (p, true)
destroy_subnets a (s ∷ listed) p =
    if not (s.network == network_name) then destroy_subnets a listed p else elim (a.subnet s) [
      | ended ↦ destroy_subnets a listed (delete_subnet s p)
      | refused ↦ (p, false)
      | overdue ↦ (delete_subnet s p, false)
    ]

unfoldable pub without_network : Project → Project
without_network p = record p { networks = keep (λ n. not (n == network_name)) p.networks }

-- The deletion of the network, if the loop came to its end.
unfoldable pub delete_network : Deletion → Project × Bool → Project × Bool
unfolding without_network
delete_network d (p, false) = (p, false)
delete_network ended (p, true) = (without_network p, true)
delete_network refused (p, true) = (p, false)
delete_network overdue (p, true) = (without_network p, false)

-- `destroy_sensor_network`, and whether it returned. The project is that in which the deletions that
-- were asked for have ended.
unfoldable pub destroy_sensor_network : DestroyAnswers → Project → Project × Bool
unfolding destroy_subnets delete_network
destroy_sensor_network a p =
    if not a.lists then (p, false) else delete_network a.network (destroy_subnets a p.subnets p)

unfoldable pub tracks_gcp : Db → Bool
tracks_gcp db = any_of (λ (s : Sensor). is_gcp s.provider) (db_get_all_active_droplets db)

-- What the request answers: done, or the exception.
unfoldable pub answer_of : Project × Bool → Project × Outcome HttpError Project
answer_of (p, true) = (p, ok p)
answer_of (p, false) = (p, raised bad_request)

unfoldable pub teardown_gcp_network :
    (project_id : Bool) → DestroyAnswers → Db → Project → Project × Outcome HttpError Project
unfolding tracks_gcp destroy_sensor_network answer_of
teardown_gcp_network project_id a db p =
    if tracks_gcp db
    then (p, raised conflict)
    else if not project_id
    then (p, raised bad_request)
    else answer_of (destroy_sensor_network a p)
