-- ===== src/Campaign/World.antt =====
-- What a campaign operation works on, and what it asks of code outside `SchedulerManager`.
use t_pot_sensor_deployer.Prelude.{
  ℕ, String, Bool, ◌&&◌, not, Option, none, List, Table, ◌==◌, string_key, keep, Outcome,
  if◌then◌else◌,
}
use t_pot_sensor_deployer.Fleet.{Db, Provider}
use t_pot_sensor_deployer.Edl.{Droplet}
use t_pot_sensor_deployer.Hive.{Creds}
use t_pot_sensor_deployer.Site.{Site, Cloud}
use t_pot_sensor_deployer.Task.{Queue}
use t_pot_sensor_deployer.Campaign.Records.{Schedule, State, Message}

-- `schedules` is the table; `configuring` is the set `_CONFIGURING` of the process that runs the
-- operation: the worker and the web interface each have their own, and their own lock.
pub record World : Type 0 where
  pub site : Site
  pub queue : Queue
  pub schedules : Table String Schedule
  pub configuring : List String

-- What `get_droplet` tells of a droplet.
pub data DropletStatus : Type 0 where
  new active errored : DropletStatus

pub record DropletInfo : Type 0 where
  pub status : DropletStatus
  pub public_ip : Option String
  pub name : Option String

-- What came of the request for a droplet: it was refused and nothing was made; DigitalOcean made the
-- droplet, but the call raised (it timed out, say, before the answer came); or it returned the id.
pub data DropletCall : Type 0 where
  refused : (error : String) → DropletCall
  unanswered : (error : String) → ℕ → DropletCall
  returned : ℕ → DropletCall

-- The answers of one operation's calls: the clock, random choices, secrets and files, the cloud, and
-- whether Redis and the health checks answer. An exception is a message.
pub record Env : Type 0 where
  pub now : ℕ
  pub online : Bool
  pub uuid : String
  pub do_token : Bool
  pub gcp_project_id : Bool
  pub gcp_credentials : Bool
  pub playbook_for : String → Bool
  pub ansible_available : Bool
  pub private_key : Bool
  pub public_key : Bool
  pub creds : Creds
  pub ensure_ssh_key : Outcome String ℕ
  pub create_droplet : DropletCall
  pub get_droplet : ℕ → Outcome String DropletInfo
  pub randint : ℕ → ℕ → ℕ
  pub cloud : Cloud
  pub wording : Message → String

-- An operation's own copy of a schedule, and the world that it changes on the way.
pub record Run : Type 0 where
  pub world : World
  pub schedule : Schedule

abbrev pub on_state : (State → State) → Run → Run
on_state f r = record r { schedule = record r.schedule { state = f r.schedule.state } }

abbrev pub on_site : (Site → Site) → Run → Run
on_site f r = record r { world = record r.world { site = f r.world.site } }

abbrev pub on_queue : (Queue → Queue) → Run → Run
on_queue f r = record r { world = record r.world { queue = f r.world.queue } }

abbrev pub on_db : (Db → Db) → Run → Run
on_db f = on_site (λ s. record s { db = f s.db })

-- `client.is_configured()` for the DigitalOcean client built from the stored token.
abbrev pub has_client : Env → Bool
has_client e = e.do_token && e.cloud.configured Provider.digitalocean

abbrev pub listing_of : Env → Bool → Option (List Droplet)
listing_of e client = if client then e.cloud.list_droplets else none

abbrev pub discard : String → List String → List String
discard id = keep (λ j. not (j == id))
