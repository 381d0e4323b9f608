-- ===== src/Fleet/Records.antt =====
-- The rows of the tables, and the shapes of app/models.py.
use t_pot_sensor_deployer.Prelude.{ℕ, String, Bool, true, false, Option, none, some, List}
use t_pot_sensor_deployer.Duration.Decimal.{Text}

-- A timestamp column or field: what `isoformat` wrote, or a text that cannot be read back.
pub data Stamp : Type 0 where
  at : ℕ → Stamp
  unreadable : Stamp

-- `datetime.fromisoformat`; `none` is the exception
abbrev pub fromisoformat : Stamp → Option ℕ
fromisoformat (at t) = some t
fromisoformat unreadable = none

-- The column is a free text: anything but "gcp" is handled as DigitalOcean by most of the code.
pub data Provider : Type 0 where
  digitalocean gcp : Provider
  other_provider : String → Provider

abbrev pub is_gcp : Provider → Bool
is_gcp gcp = true
is_gcp _ = false

abbrev pub is_digitalocean : Provider → Bool
is_digitalocean digitalocean = true
is_digitalocean _ = false

pub data SensorStatus : Type 0 where
  provisioning active provision_failed : SensorStatus
  cloud_status : String → SensorStatus

abbrev pub is_provisioning : SensorStatus → Bool
is_provisioning provisioning = true
is_provisioning _ = false

-- A row of active_droplets; the provider's raw answer (`data`) is not kept.
pub record Sensor : Type 0 where
  pub id : ℕ
  pub name : String
  pub public_ip : Option String
  pub private_ip : Option String
  pub sensor_type : String
  pub sensor_user : Option String
  pub provider : Provider
  pub region : String
  pub size : String
  pub image : String
  pub tags : List String
  pub status : SensorStatus
  pub ttl : Option Text
  pub ttl_seconds : Option ℕ
  pub created_at : ℕ
  pub expires_at : Option Stamp

pub record Lease : Type 0 where
  pub droplet_id : ℕ
  pub droplet_name : String
  pub sensor_user : String
  pub ttl : Text
  pub ttl_seconds : ℕ
  pub created_at : ℕ
  pub expires_at : Stamp
  pub provider : Provider
  pub region : Option String

pub data Reason : Type 0 where
  ttl_expired cancelled_by_user : Reason

-- A row of fleet_history.
pub record Launch : Type 0 where
  pub droplet_id : ℕ
  pub name : String
  pub sensor_type : String
  pub provider : Provider
  pub created_at : ℕ
  pub destroyed_at : Option ℕ
  pub reason : Option Reason

pub record Static : Type 0 where
  pub ip : String
  pub comment : String
  pub added_at : ℕ
