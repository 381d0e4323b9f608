-- ===== src/Deploy/Create.antt =====
-- `create_droplet` and `create_instance`: the request, and the wait for the machine's address. The
-- answers of the clouds' own interfaces are parameters; `clock 0` sets the deadline of a wait, and
-- `clock (suc i)` is its i-th reading after that, in seconds.
use t_pot_sensor_deployer.Prelude.{
  ℕ, zero, suc, String, ◌+◌, Bool, true, false, ◌&&◌, not, Option, none, some, ltb, is_some,
  Outcome, ok, raised,
}

-- What a query for the machine tells.
pub record Poll : Type 0 where
  pub is_active : Bool
  pub public_ip : Option String
  pub private_ip : Option String

pub data CreateError : Type 0 where
  call_failed : String → CreateError
  timed_out : CreateError

pub record Created : Type 0 where
  pub id : ℕ
  pub public_ip : Option String
  pub private_ip : Option String

-- `request` is the call that makes the machine, with what precedes it; it gives the machine's id.
-- `operation` is the error of the wait for GCP's operation.
pub record CloudAnswers : Type 0 where
  pub request : Outcome String ℕ
  pub operation : Option String
  pub polls : ℕ → Outcome String Poll
  pub clock : ℕ → ℕ

-- The id of the machine that now exists, if the request came through, and what the call gives.
abbrev pub Creation : Type 0
Creation = Option ℕ × Outcome CreateError Created

unfoldable pub created_machine : ℕ → Poll → Created
created_machine id p = record { id = id; public_ip = p.public_ip; private_ip = p.private_ip }

-- CREATE_DROPLET_TIMEOUT
abbrev pub create_droplet_timeout : ℕ
create_droplet_timeout = 300

-- The loop, on fuel, from its i-th query.
unfoldable pub wait_droplet : ℕ → CloudAnswers → ℕ → ℕ → Outcome CreateError Created
unfolding created_machine
wait_droplet zero a id i = raised timed_out
wait_droplet (suc fuel) a id i = elim (a.polls i) [
  | raised e ↦ raised (call_failed e)
  | ok p ↦ elim (p.is_active && is_some p.public_ip) [
    | true ↦ ok (created_machine id p)
    | false ↦ elim (ltb (a.clock 0 + create_droplet_timeout) (a.clock (suc i))) [
      | true ↦ raised timed_out
      | false ↦ wait_droplet fuel a id (suc i)
    ]
  ]
]

-- A round sleeps for three seconds.
unfoldable pub create_droplet : CloudAnswers → Creation
unfolding wait_droplet
create_droplet a = elim a.request [
  | raised e ↦ (none, raised (call_failed e))
  | ok id ↦ (some id, wait_droplet 102 a id 0)
]

-- The loop of the short wait, on fuel; `p` is the last answer and the next query is the i-th.
unfoldable pub wait_instance : ℕ → CloudAnswers → ℕ → ℕ → Poll → Outcome CreateError Created
unfolding created_machine
wait_instance zero a id i p = ok (created_machine id p)
wait_instance (suc fuel) a id i p =
    elim (ltb (a.clock i) (a.clock 0 + 60) && not (is_some p.public_ip)) [
      | false ↦ ok (created_machine id p)
      | true ↦ elim (a.polls i) [
        | raised e ↦ raised (call_failed e)
        | ok p' ↦ wait_instance fuel a id (suc i) p'
      ]
    ]

unfoldable pub first_query : CloudAnswers → ℕ → Outcome String Poll → Outcome CreateError Created
unfolding wait_instance
first_query a id (raised e) = raised (call_failed e)
first_query a id (ok p) = wait_instance 21 a id 1 p

unfoldable pub create_instance : CloudAnswers → Creation
unfolding first_query
create_instance a = elim a.request [
  | raised e ↦ (none, raised (call_failed e))
  | ok id ↦ elim a.operation [
    | some e ↦ (some id, raised (call_failed e))
    | none ↦ (some id, first_query a id (a.polls 0))
  ]
]
