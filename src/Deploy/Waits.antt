-- ===== src/Deploy/Waits.antt =====
-- The fuel of the waits for a new machine.
use t_pot_sensor_deployer.Prelude.{
  ℕ, zero, suc, ◌+◌, ◌*◌, ◌≤◌, true, false, ◌≡◌, refl, arith, inl, inr, ltb, lt→ltb, Outcome-cases,
}
use t_pot_sensor_deployer.Deploy.Create.{
  Poll, CloudAnswers, create_droplet_timeout, wait_droplet, wait_instance,
}

-- Each round sleeps for three seconds between two readings of the clock.
abbrev pub IsPaced : CloudAnswers → Type 0
IsPaced a = (a.clock 0 ≤ a.clock 1) × ((i : ℕ) → a.clock (suc i) + 3 ≤ a.clock (suc (suc i)))

le→not_ltb : (a b : ℕ) → b ≤ a → ltb a b ≡ false
le→not_ltb a b h = ground arith

passed : (a : CloudAnswers) (i : ℕ) → IsPaced a → a.clock 0 + 3 * i ≤ a.clock (suc i)
passed a zero (first, next) = omega (arith, first)
passed a (suc i) (first, next) = omega (arith, next i, passed a i (first, next))

enough-wait_droplet :
    (a : CloudAnswers) (id left more i : ℕ)
    → IsPaced a
    → i + left ≡ 101
    → left ≤ more
    → wait_droplet (suc more) a id i ≡ wait_droplet (suc left) a id i
unfolding wait_droplet
enough-wait_droplet a id zero more i paced all le =
    let late : ltb (a.clock 0 + create_droplet_timeout) (a.clock (suc i)) ≡ true =
      lt→ltb _ _ (omega (arith, passed a i paced, all)) in
    ground (arith, late)
enough-wait_droplet a id (suc left) zero i paced all le = absurd (omega (arith, le))
enough-wait_droplet a id (suc left) (suc more) i paced all le =
    let next =
      enough-wait_droplet a id left more (suc i) paced (omega (arith, all)) (omega (arith, le)) in
    ground (arith, next)

enough-wait_instance :
    (a : CloudAnswers) (id left more i : ℕ) (p : Poll)
    → IsPaced a
    → i + left ≡ 20
    → left ≤ more
    → wait_instance (suc more) a id (suc i) p ≡ wait_instance (suc left) a id (suc i) p
unfolding wait_instance
enough-wait_instance a id zero more i p paced all le =
    let late : ltb (a.clock (suc i)) (a.clock 0 + 60) ≡ false =
      le→not_ltb _ _ (omega (arith, passed a i paced, all)) in
    ground (arith, late)
enough-wait_instance a id (suc left) zero i p paced all le = absurd (omega (arith, le))
enough-wait_instance a id (suc left) (suc more) i p paced all le =
    elim (Outcome-cases (a.polls (suc i))) [
      | inl (e, failed) ↦ ground (arith, failed)
      | inr (p', answered) ↦
          let next =
            enough-wait_instance a id left more (suc i) p' paced (omega (arith, all))
              (omega (arith, le)) in
          ground (arith, answered, next)
    ]

-- With a clock that goes on by at least the three seconds of each sleep, the waits for a new droplet
-- and for the address of a new instance give the same with any more fuel than the jobs give them: they
-- end by an answer of the cloud or by their own deadline.
pub create-Enough :
    (a : CloudAnswers) (id more : ℕ) (p : Poll)
    → IsPaced a
    → (wait_droplet (102 + more) a id 0 ≡ wait_droplet 102 a id 0)
      × (wait_instance (21 + more) a id 1 p ≡ wait_instance 21 a id 1 p)
create-Enough a id more p paced = (
  (let same : 102 + more ≡ suc (101 + more) = omega arith in
      rw same (enough-wait_droplet a id 101 (101 + more) 0 paced refl (omega arith))),
  (let same : 21 + more ≡ suc (20 + more) = omega arith in
      rw same (enough-wait_instance a id 20 (20 + more) 0 p paced refl (omega arith))),
)
