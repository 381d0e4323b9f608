-- ===== src/Provision.antt =====
-- app/provisioning.py: configuring a machine and verifying it. What a machine answers is a
-- parameter: whether its ports open and its key is accepted, the exit code of the playbook, each
-- health check, and the readings of the monotonic clock, in seconds. Progress messages, and the text
-- of the error that ends failed checks, are not kept.
pub mod Admission
use t_pot_sensor_deployer.Prelude.{
  ℕ, zero, suc, String, ◌+◌, ◌/◌, Bool, true, false, not, ◌&&◌, List, [], ◌∷◌, ltb, ◌==◌, nat_key,
  if◌then◌else◌, Outcome, ok, raised,
}

-- What `deep_check` returns.
pub record Health : Type 0 where
  pub healthy : Bool
  pub warnings : List String

-- `checks n` is the n-th health check of the run. `clock n` is the n-th reading in the wait for the
-- Hive, which begins with the one that sets the deadline.
pub record Answers : Type 0 where
  pub admin_port_open : Bool
  pub port_22_open : Bool
  pub ssh_auth : Bool
  pub playbook_for : String → Bool
  pub exit_code : ℕ
  pub checks : ℕ → Health
  pub hive_admit_wait_seconds : ℕ
  pub clock : ℕ → ℕ

pub data ProvisionError : Type 0 where
  no_playbook ssh_unreachable auth_failed failed_checks : ProvisionError
  playbook_failed : ℕ → ProvisionError

abbrev pub hive_admit_poll_seconds : ℕ
hive_admit_poll_seconds = 45

abbrev pub health_attempts : ℕ
health_attempts = 3

unfoldable pub pick_ssh_port : Answers → ℕ → Outcome ProvisionError ℕ
pick_ssh_port a admin_ssh_port =
    if a.admin_port_open
    then ok admin_ssh_port
    else if a.port_22_open
    then ok 22
    else raised ssh_unreachable

abbrev pub is_any : List String → Bool
is_any [] = false
is_any (w ∷ ws) = true

-- The loop, on fuel: `i` rounds are over, the next health check is the n-th.
unfoldable pub admit : ℕ → Answers → ℕ → ℕ → ℕ → List String → List String
admit zero a deadline i n warnings = warnings
admit (suc fuel) a deadline i n warnings =
    elim (is_any warnings && ltb (a.clock (suc i)) deadline) [
      | false ↦ warnings
      | true ↦ elim (a.checks n).healthy [
        | false ↦ warnings
        | true ↦ admit fuel a deadline (suc i) (suc n) (a.checks n).warnings
      ]
    ]

abbrev pub deadline : Answers → ℕ
deadline a = a.clock 0 + a.hive_admit_wait_seconds

-- A round sleeps for `hive_admit_poll_seconds`.
abbrev pub rounds : Answers → ℕ
rounds a = a.hive_admit_wait_seconds / hive_admit_poll_seconds + 1

unfoldable pub wait_for_hive_admission : Answers → ℕ → Health → List String
unfolding admit
wait_for_hive_admission a n health = admit (rounds a) a (deadline a) 0 n health.warnings

-- The loop over the attempts that are left; the next check is the n-th.
unfoldable pub attempt : Answers → ℕ → ℕ → Outcome ProvisionError (List String)
unfolding wait_for_hive_admission
attempt a zero n = raised failed_checks
attempt a (suc left) n = elim (a.checks n).healthy [
  | true ↦ ok (wait_for_hive_admission a (suc n) (a.checks n))
  | false ↦ attempt a left (suc n)
]

unfoldable pub run_and_check :
    Answers → Outcome ProvisionError ℕ → Outcome ProvisionError (List String)
unfolding attempt
run_and_check a (raised e) = raised e
run_and_check a (ok ssh_port) =
    if not a.ssh_auth
    then raised auth_failed
    else if a.exit_code == 0
    then attempt a health_attempts 0
    else raised (playbook_failed a.exit_code)

-- The warnings that are left, or what ended the work.
unfoldable pub configure_and_verify : Answers → String → ℕ → Outcome ProvisionError (List String)
unfolding run_and_check pick_ssh_port
configure_and_verify a sensor_type admin_ssh_port =
    if a.playbook_for sensor_type
    then run_and_check a (pick_ssh_port a admin_ssh_port)
    else raised no_playbook
