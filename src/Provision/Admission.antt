-- ===== src/Provision/Admission.antt =====
-- That the waits end, and when configuring succeeds.
use t_pot_sensor_deployer.Prelude.{
  ℕ, zero, suc, String, ◌+◌, ◌*◌, ◌/◌, ◌≤◌, ◌<◌, Bool, false, ◌&&◌, ◌||◌, List, [], ◌∷◌, ◌≡◌, refl,
  ◌∙◌, ◌⊎◌, inl, inr, arith, ltb, ◌==◌, nat_key, Bool-cases, is_ok,
}
use t_pot_sensor_deployer.Provision.{
  Health, Answers, admit, deadline, rounds, wait_for_hive_admission, attempt, run_and_check,
  configure_and_verify, pick_ssh_port, hive_admit_poll_seconds,
}

-- `time.sleep` suspends for at least its argument, and the clock never goes back.
abbrev pub IsPaced : Answers → Type 0
IsPaced a =
    (a.clock 0 ≤ a.clock 1)
    × ((i : ℕ) → a.clock (suc i) + hive_admit_poll_seconds ≤ a.clock (suc (suc i)))

-- The warnings after k more checks, the first of them the n-th.
unfoldable pub warnings_after : Answers → ℕ → List String → ℕ → List String
warnings_after a n ws zero = ws
warnings_after a n ws (suc k) = (a.checks (n + k)).warnings

-- A test of the loop that ends it: no warning is left, the time is over, or the check fails.
abbrev pub Ends : Answers → ℕ → List String → ℕ → ℕ → Type 0
Ends a d ws i n = (ws ≡ []) ⊎ (d ≤ a.clock (suc i)) ⊎ ((a.checks n).healthy ≡ false)

-- The wait has made k checks, each healthy, and ended by a test of its own.
abbrev pub Waited : Answers → ℕ → ℕ → ℕ → List String → List String → ℕ → Type 0
Waited a d i n ws result k =
    (result ≡ warnings_after a n ws k) × ((j m : ℕ) → j ≡ i + k → m ≡ n + k → Ends a d result j m)

warnings_after-suc :
    (a : Answers) (n : ℕ) (ws : List String) (k : ℕ)
    → warnings_after a (suc n) (a.checks n).warnings k ≡ warnings_after a n ws (suc k)
unfolding warnings_after
warnings_after-suc a n ws zero = let e : n + 0 ≡ n = omega arith in rw (e, warnings_after) refl
warnings_after-suc a n ws (suc k) =
    let e : n + suc k ≡ suc n + k = omega arith in rw (e, warnings_after) refl

module _ (a : Answers) (d : ℕ) where
  -- A result that is the warnings it began with, for a test that ends the loop at once.
  stop :
      (fuel i n : ℕ) (ws r : List String)
      → r ≡ ws
      → Ends a d r i n
      → (k : ℕ) × (k ≤ fuel) × Waited a d i n ws r k
  unfolding warnings_after
  stop fuel i n ws r same ends = (
    0,
    omega arith,
    (
      same,
      λ j m e f. let e' : j ≡ i = omega arith in let f' : m ≡ n = omega arith in rw (e', f') ends,
    ),
  )

  admit-Ends :
      ((i : ℕ) → a.clock (suc i) + hive_admit_poll_seconds ≤ a.clock (suc (suc i)))
      → (fuel i n : ℕ) (ws : List String) → d < a.clock (suc i) + hive_admit_poll_seconds * fuel
      → (k : ℕ) × (k ≤ fuel) × Waited a d i n ws (admit fuel a d i n ws) k
  unfolding admit
  admit-Ends paced zero i n ws h = stop 0 i n ws ws refl (inr (inl (omega arith)))
  admit-Ends paced (suc fuel) i n [] h = stop (suc fuel) i n [] [] refl (inl refl)
  admit-Ends paced (suc fuel) i n (w ∷ ws) h = elim (Bool-cases (ltb (a.clock (suc i)) d)) [
    | inr late ↦
        stop (suc fuel) i n (w ∷ ws) (admit (suc fuel) a d i n (w ∷ ws)) (ground (arith, late))
          (inr (inl (ground (arith, late))))
    | inl early ↦ elim (Bool-cases (a.checks n).healthy) [
      | inr sick ↦
          stop (suc fuel) i n (w ∷ ws) (admit (suc fuel) a d i n (w ∷ ws))
            (ground (arith, early, sick)) (inr (inr sick))
      | inl fine ↦
          let (k, le, (same, ends)) =
            admit-Ends paced fuel (suc i) (suc n) (a.checks n).warnings (omega (arith, paced i)) in
          let next : admit (suc fuel) a d i n (w ∷ ws)
              ≡ admit fuel a d (suc i) (suc n) (a.checks n).warnings =
            ground (arith, early, fine) in
          (
            suc k,
            omega arith,
            (
              next ∙ same ∙ warnings_after-suc a n (w ∷ ws) k,
              λ j m e f. rw next (ends j m (omega arith) (omega arith)),
            ),
          )
    ]
  ]

-- The wait for the Hive ends by one of its own tests, after no more checks than the wait has polls.
pub wait_for_hive_admission_lem :
    (a : Answers) (n : ℕ) (health : Health)
    → IsPaced a
    → (k : ℕ) × (k ≤ a.hive_admit_wait_seconds / hive_admit_poll_seconds + 1)
      × Waited a (deadline a) 0 n health.warnings (wait_for_hive_admission a n health) k
unfolding wait_for_hive_admission
wait_for_hive_admission_lem a n health (first, paced) =
    admit-Ends a (deadline a) paced (rounds a) 0 n health.warnings (omega (arith, first))

-- What configuring needs: a playbook, a port, an accepted key, and a healthy machine.
unfoldable pub is_ready : Answers → String → Bool
is_ready a sensor_type =
    a.playbook_for sensor_type
    && (a.admin_port_open || a.port_22_open)
    && a.ssh_auth
    && a.exit_code == 0
    && ((a.checks 0).healthy || (a.checks 1).healthy || (a.checks 2).healthy)

-- Configuring succeeds exactly on a machine that is ready.
pub configure_and_verify_lem :
    (a : Answers) (sensor_type : String) (port : ℕ)
    → is_ok (configure_and_verify a sensor_type port) ≡ is_ready a sensor_type
unfolding configure_and_verify run_and_check pick_ssh_port attempt is_ready
configure_and_verify_lem a sensor_type port = ground arith
