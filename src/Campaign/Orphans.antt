-- ===== src/Campaign/Orphans.antt =====
-- The teardown of a cycle that names a droplet: the sensor's row and lease.
use t_pot_sensor_deployer.Prelude.{
  ℕ, suc, ◌≡◌, ap, ◌∙◌, Bool, none, some, arith, find, find-remove_self, nat_key,
}
use t_pot_sensor_deployer.Fleet.{Db, db_delete_lease, db_delete_active_droplet}
use t_pot_sensor_deployer.Site.{Site, Cloud, destroy_droplet, destroy_instance, publish}
use t_pot_sensor_deployer.Campaign.Records.{Schedule, destroy}
use t_pot_sensor_deployer.Campaign.World.{Env, Run, has_client}
use t_pot_sensor_deployer.Campaign.Steps.{task_begin, task_end, forget_sensor}
use t_pot_sensor_deployer.Campaign.Teardown.{
  execute_destroy, execute_destroy_inner, destroy_machine, deregister, cooled,
}
use t_pot_sensor_deployer.Campaign.Breaker.{schedule-execute_destroy_inner}

abbrev db_of : Run → Db
db_of r = r.world.site.db

module _ (s : Schedule) (site : Site) where
  db-destroy_machine :
      (cloud : Cloud) (client : Bool) → (destroy_machine cloud client s site).db ≡ site.db
  unfolding destroy_machine destroy_droplet destroy_instance
  db-destroy_machine cloud client = ground arith

  db-deregister : (deregister s site).db ≡ site.db
  unfolding deregister
  db-deregister = ground arith

-- The database after a teardown is that without the sensor's row and lease.
db-execute_destroy_inner :
    (e : Env) (r : Run)
    → db_of (execute_destroy_inner e r)
      ≡ db_of (forget_sensor r.schedule.state.current_droplet_id r)
unfolding execute_destroy_inner publish
db-execute_destroy_inner e r =
    let cut = forget_sensor r.schedule.state.current_droplet_id r in
    db-deregister r.schedule (destroy_machine e.cloud (has_client e) r.schedule cut.world.site)
    ∙ db-destroy_machine r.schedule cut.world.site e.cloud (has_client e)

forget_sensor-find :
    (n : ℕ) (r : Run)
    → (find (suc n) (db_of (forget_sensor (some (suc n)) r)).sensors ≡ none)
      × (find (suc n) (db_of (forget_sensor (some (suc n)) r)).leases ≡ none)
unfolding forget_sensor db_delete_lease db_delete_active_droplet
forget_sensor-find n r = (find-remove_self (suc n) _, find-remove_self (suc n) _)

-- Whatever the cloud answers, a teardown of a schedule that names a droplet removes the sensor's
-- row and its TTL lease, and the state forgets the droplet.
pub execute_destroy_forgets :
    (e : Env) (r : Run) (n : ℕ)
    → r.schedule.state.current_droplet_id ≡ some (suc n)
    → (find (suc n) (execute_destroy e r).world.site.db.sensors ≡ none)
      × (find (suc n) (execute_destroy e r).world.site.db.leases ≡ none)
      × ((execute_destroy e r).schedule.state.current_droplet_id ≡ none)
unfolding execute_destroy task_end task_begin cooled
execute_destroy_forgets e r n named =
    let begun = task_begin e destroy r in
    let left : db_of (execute_destroy_inner e begun) ≡ db_of (forget_sensor (some (suc n)) begun) =
      db-execute_destroy_inner e begun ∙ ap (λ i. db_of (forget_sensor i begun)) named in
    let (row, lease) = forget_sensor-find n begun in
    (
      ap (λ (db : Db). find (suc n) db.sensors) left ∙ row,
      ap (λ (db : Db). find (suc n) db.leases) left ∙ lease,
      ap (λ (s : Schedule). s.state.current_droplet_id) (schedule-execute_destroy_inner e begun),
    )
