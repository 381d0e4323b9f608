-- ===== src/Site.antt =====
-- What the program's components share: the database, the Hive's files, the published list, and the
-- machines that the cloud clients were asked for (app/cloud.py, app/do_client.py, app/gcp_client.py).
-- `machines` is a record of those calls: each machine that a create call made, whether it returned or
-- raised, and whose destroy call has not returned since. Which calls return, and what, is the clients'
-- answer.
use t_pot_sensor_deployer.Prelude.{
  ℕ, String, Bool, ◌&&◌, not, Option, none, List, ◌==◌, if◌then◌else◌, nat_key, string_key, keep,
}
use t_pot_sensor_deployer.Fleet.{Db, Provider}
use t_pot_sensor_deployer.Edl.{Edl, Entry, Droplet, write_edl_file}
use t_pot_sensor_deployer.Hive.{Hive}

pub record Machine : Type 0 where
  pub on_gcp : Bool
  pub id : ℕ
  pub name : String

pub record Site : Type 0 where
  pub db : Db
  pub hive : Hive
  pub machines : List Machine
  pub published : List Entry

-- `is_configured` of the client of a provider, and whether a call returns (true) or raises (false).
pub record Cloud : Type 0 where
  pub configured : Provider → Bool
  pub destroys_droplet : ℕ → Bool
  pub destroys_instance : String → Bool
  pub list_droplets : Option (List Droplet)

unfoldable pub without_droplet : ℕ → List Machine → List Machine
without_droplet id = keep (λ m. not (not m.on_gcp && m.id == id))

unfoldable pub without_instance : String → List Machine → List Machine
without_instance name = keep (λ m. not (m.on_gcp && m.name == name))

-- `client.destroy_droplet(id)`, with its exception caught.
unfoldable pub destroy_droplet : Cloud → ℕ → Site → Site
unfolding without_droplet
destroy_droplet cloud id s =
    if cloud.destroys_droplet id then record s { machines = without_droplet id s.machines } else s

-- `client.destroy_instance(name, zone)`, with its exception caught.
unfoldable pub destroy_instance : Cloud → String → Site → Site
unfolding without_instance
destroy_instance cloud name s =
    if cloud.destroys_instance name
    then record s { machines = without_instance name s.machines }
    else s

-- `EDLManager().write_edl_file(...)`: a fresh instance has nothing cached.
unfoldable pub new_edl : Site → Edl
new_edl s = record { cached_entries = none; cached_at = 0; file = s.published }

unfoldable pub publish : ℕ → Option (List Droplet) → Site → Site
unfolding new_edl
publish now listing s = record s { published = (write_edl_file now listing s.db (new_edl s)).file }
