-- ===== src/Http/Deploys.antt =====
-- `start_deployment` and `stream_deployment` of app/api.py. A log entry is whatever `get_task_logs` has,
-- and what the stream reads while it runs is a list of readings: the loop goes on for as long as it has
-- one, and has not ended.
use t_pot_sensor_deployer.Prelude.{
  ℕ, zero, suc, String, ◌+◌, Bool, Option, none, some, List, [], ◌∷◌, ◌++◌, map, leb, ltb,
  if◌then◌else◌, length, ◌==◌, string_key,
}
use Prim.Native.String.{◌++◌ as append}
use t_pot_sensor_deployer.Duration.{seconds}
use t_pot_sensor_deployer.Fleet.{is_gcp}
use t_pot_sensor_deployer.Task.{
  TaskStatus, queued, digitalocean_deploy, gcp_deploy, Meta, unknown_meta, Queue, record_task,
  is_terminal,
}
use t_pot_sensor_deployer.Deploy.Setup.{DeployPayload}

sensor_name : DeployPayload → String
sensor_name p = elim p.name [
  | none ↦ append "tpot-" (append p.sensor_type "-sensor")
  | some name ↦ if name == "" then append "tpot-" (append p.sensor_type "-sensor") else name
]

-- Where the job goes: to the worker's queue, or to a thread of the web server.
pub data Started : Type 0 where
  enqueued in_thread : String → DeployPayload → Started

-- `uuid` is the new task's id, and `online` whether Redis is up.
unfoldable pub start_deployment : Bool → String → DeployPayload → Queue → Queue × Started
unfolding sensor_name
start_deployment online uuid payload q = (
  record_task online uuid
      (record unknown_meta {
        task_type = if is_gcp payload.provider then gcp_deploy else digitalocean_deploy;
        sensor_name = sensor_name payload;
        status = queued;
      })
      q,
  if online then enqueued uuid payload else in_thread uuid payload,
)

module _ (E : Type 0) where
  pub data Event : Type 0 where
    log : E → Event
    keep_alive : Event
    complete : TaskStatus → List ℕ → Option String → Event

  -- A message of the channel: a log entry, or the completion of the task.
  pub data Message : Type 0 where
    entry : E → Message
    done : TaskStatus → List ℕ → Option String → Message

  -- A round of the live loop: the message if there was one, the clock, and the task's status.
  pub record Reading : Type 0 where
    pub message : Option Message
    pub now : ℕ
    pub meta : Meta

  -- A round of the polling loop.
  pub record Poll : Type 0 where
    pub logs : List E
    pub meta : Meta

unfoldable pub drop {ℓ} : {A : Type ℓ} → ℕ → List A → List A
drop zero xs = xs
drop (suc n) [] = []
drop (suc n) (x ∷ xs) = drop n xs

module _ {E : Type 0} where
  unfoldable pub final : Meta → Event E
  final m = complete m.status m.deployed m.error

  unfoldable pub live_status : ℕ → Reading E → List (Event E) → List (Event E)
  unfolding final
  live_status last_keepalive r rest =
      (if leb (last_keepalive + seconds 15) r.now then keep_alive ∷ [] else [])
      ++ (if is_terminal r.meta.status then final r.meta ∷ [] else rest)

  -- A round, with the events of the rounds after it.
  unfoldable pub live_round : ℕ → Option (Message E) → Reading E → List (Event E) → List (Event E)
  unfolding live_status
  live_round last_keepalive none r rest = live_status last_keepalive r rest
  live_round last_keepalive (some (entry e)) r rest = log e ∷ live_status last_keepalive r rest
  live_round last_keepalive (some (done status deployed error)) r rest =
      complete status deployed error ∷ []

  -- The loop on Redis Pub/Sub.
  unfoldable pub live : ℕ → List (Reading E) → List (Event E)
  unfolding live_round
  live last_keepalive [] = []
  live last_keepalive (r ∷ rs) =
      live_round last_keepalive r.message r
        (live (if leb (last_keepalive + seconds 15) r.now then r.now else last_keepalive) rs)

  -- The loop where Redis is not up.
  unfoldable pub polling : ℕ → List (Poll E) → List (Event E)
  unfolding drop final
  polling last_idx [] = []
  polling last_idx (p ∷ ps) =
      let rest = polling (if ltb last_idx (length p.logs) then length p.logs else last_idx) ps in
      map (λ e. log e) (drop last_idx p.logs)
      ++ (if is_terminal p.meta.status then final p.meta ∷ [] else keep_alive ∷ rest)

  -- `history` is what is replayed, and `last_idx` its length when the polling starts. `clock` is the
  -- time at the start of the live loop.
  unfoldable pub stream_deployment :
      List E
      → Meta
      → (online : Bool) → (clock : ℕ) → List (Reading E)
      → (last_idx : ℕ) → List (Poll E)
      → List (Event E)
  unfolding live polling final
  stream_deployment history meta online clock readings last_idx polls =
      map (λ e. log e) history
      ++ (if is_terminal meta.status
          then final meta ∷ []
          else if online
          then live clock readings
          else polling last_idx polls)
