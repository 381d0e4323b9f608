-- ===== src/Http.antt =====
-- app/api.py: the handlers of the web interface that change state on their own. Those of the
-- schedules call the commands of Campaign. A module-level manager keeps its fields
-- from one request to the next: only the cache of `edl_mgr` is such a field.
pub mod Sensors
pub mod Removed
pub mod Renewed
pub mod Feed
pub mod Deploys
pub mod Schedules
pub mod Handled
pub mod Streamed
use t_pot_sensor_deployer.Prelude.{ℕ, ◌&&◌, Option, none, List, if◌then◌else◌}
use t_pot_sensor_deployer.Fleet.{Db, Provider, is_digitalocean}
use t_pot_sensor_deployer.Edl.{Edl, Droplet, invalidate_cache, write_edl_file}
use t_pot_sensor_deployer.Site.{Site, Cloud}

-- The status codes 400, 404, 409 and 500 of a handler that raises.
pub data HttpError : Type 0 where
  bad_request not_found conflict server_error : HttpError

pub record Server : Type 0 where
  pub site : Site
  pub edl_mgr : Edl

-- What a request is answered with from outside: the clock, and the clouds.
pub record Call : Type 0 where
  pub now : ℕ
  pub cloud : Cloud

unfoldable pub on_db : (Db → Db) → Server → Server
on_db f v = record v { site = record v.site { db = f v.site.db } }

-- `list_droplets` of the client that a handler passes on: `none` where it raises, or where there is no
-- client, or one that is not configured.
unfoldable pub listing_for : Call → Provider → Option (List Droplet)
listing_for c p = if is_digitalocean p && c.cloud.configured p then c.cloud.list_droplets else none

-- `edl_mgr.write_edl_file(...)`
unfoldable pub write_feed : ℕ → Option (List Droplet) → Server → Server
write_feed now listing v =
    let edl = write_edl_file now listing v.site.db v.edl_mgr in
    record v { edl_mgr = edl; site = record v.site { published = edl.file } }

-- `edl_mgr.invalidate_cache()`, then the file
unfoldable pub republish : ℕ → Option (List Droplet) → Server → Server
unfolding write_feed
republish now listing v = write_feed now listing (record v { edl_mgr = invalidate_cache v.edl_mgr })
