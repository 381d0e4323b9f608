-- ===== src/Lib.antt =====
-- T-Pot Sensor Deployer: its campaign scheduler, TTL leases, deployment jobs, worker, web interface,
-- published list, Hive logins, firewalls, task queue and the database that they share, as functions on
-- explicit state.
--
-- The parts, and how they interact. A campaign (app/scheduler_manager.py) deploys a sensor, keeps it
-- for a while, destroys it and waits for its next deploy. The worker's tick works on a snapshot of
-- the campaigns and writes back what it touched; threads configure new sensors; the commands of the
-- web interface pause, resume, trigger and delete. Every sensor of a campaign gets a TTL lease, too,
-- and the lease sweep (app/ttl_manager.py, app/jobs.py) destroys what a stuck campaign would leave.
-- A request (app/api.py) starts a deployment job (app/jobs.py), which creates machines and configures
-- them (app/provisioning.py); its progress is streamed to the browser. The worker (worker.py) fails
-- the tasks that a former one left, and runs the tick and the sweep in one thread. Sensors log in to
-- the Hive with credentials in its files (app/hive_manager.py), and their addresses are published to
-- the firewall in a list (app/edl_manager.py); the clouds' own firewalls are the clients'
-- (app/do_client.py, app/gcp_client.py). Tasks are in Redis (app/queue_manager.py), and the tables are
-- SQLite's (app/db.py).
--
-- The files. Each module has the functions of one Python module under their names, without a leading
-- underscore:
--   Duration: parse_duration, format_remaining of app/ttl_manager.py
--   Fleet, Fleet/Records, Fleet/Sync: app/db.py and app/models.py
--   Edl/Defs: EDLManager of app/edl_manager.py
--   Hive: HiveManager of app/hive_manager.py
--   Site: what the components share
--   Lease/Defs: TTLManager of app/ttl_manager.py, ttl_sweep_job of app/jobs.py
--   Task/Defs: app/queue_manager.py
--   Provision: app/provisioning.py
--   Deploy/Create, Setup, Machine, Job: run_do_deployment_job and run_gcp_deployment_job of
--     app/jobs.py, create_droplet of app/do_client.py, create_instance of app/gcp_client.py
--   Worker: worker.py
--   Firewall, Firewall/Gcp: ensure_sensor_firewall of app/do_client.py and of app/gcp_client.py
--   Client: the cache of DOClient of app/do_client.py
--   Network: the dedicated network of app/gcp_client.py
--   Settings: app/config.py
--   Http, Http/Sensors, Feed, Schedules, Deploys: the handlers of app/api.py
--   Campaign/Records, World, Steps, Dispatch, Teardown, Configure, Reconcile,
--     Create, Commands, Listing:
--     SchedulerManager of app/scheduler_manager.py
-- Campaign/Reach has the steps that processes take on the campaigns in any order, and Lease/Refine the
-- calls of the lease manager. The other files of a folder have the proofs, and Examples has the
-- theorems at concrete inputs. A method that has early returns or a test on a looked-up value is split
-- into helpers by clauses.
--
-- How it is modelled. An instant is a number of microseconds since the epoch, and a stored timestamp
-- is an instant or a text that cannot be read. Texts that are parsed are lists of ASCII codes. A
-- message for people is a constructor with its parts. A table or a dictionary is an association list.
-- The answers of everything outside the modelled code (the clock, random choices, secrets, the cloud
-- clients, Redis being up, the configuration of a sensor over SSH) are fields of a record of answers,
-- one record for each operation; the tick has one for each campaign. `machines` of Site records which
-- machines a create call made, also one that raised after that, and no destroy call that returned has
-- destroyed since; no code reads it. Whether Redis is up is one answer for all calls of an operation. A section under the scheduler's
-- lock is one function, and operations that give up the lock between two sections are two functions.
--
-- Loops and fuel. Most loops are over lists. The waiting loop of a campaign's thread is given as one
-- round, and the loops of the stream run over what they read. Three loops wait on a clock, and have a
-- number of rounds for fuel: the wait for the Hive one for each 45 seconds of its time and one more,
-- that of create_droplet 102 for 300 seconds in steps of at least 3, and that of create_instance 21 for
-- 60 seconds in steps of at least 3. With a clock that goes on by the sleep of each round the deadline
-- passes before they are used up.
--
-- What is not modelled: the clouds' APIs, Ansible and Terraform, which are other programs, and the
-- network probes of the health checks, whose answers are parameters; the catalogue of sensor types and
-- the cached catalogues of the clouds; the pages and the handlers that only read; the text of log
-- lines; exceptions of the database and of the Hive's files, and lines of these files with spaces at
-- their ends; the end of the calendar (an expiry past the year 9999 raises); a deletion that a cloud
-- carries out though the call for a machine raised; and two processes that load and save the table of
-- the campaigns in turns: the lock and the set of running threads belong to one process.
pub mod Prelude
pub mod Duration
pub mod Fleet
pub mod Edl
pub mod Hive
pub mod Site
pub mod Lease
pub mod Task
pub mod Provision
pub mod Deploy
pub mod Worker
pub mod Campaign
pub mod Http
pub mod Network
pub mod Client
pub mod Firewall
pub mod Settings
pub mod Examples
