-- ===== src/Campaign/Created.antt =====
-- The campaign that `create_schedule` gives, and the durations of PRESETS.
use t_pot_sensor_deployer.Prelude.{
  ℕ, String, ◌*◌, or_else, ◌≤◌, ◌≡◌, refl, ◌∙◌, Bool, not, ◌&&◌, ◌||◌, Option, none, some, arith,
  Bool-cases, Outcome-cases, inl, inr, string_key, find, put, find-put_self, Outcome, ok, raised,
}
use t_pot_sensor_deployer.Duration.{parse_duration, max_duration_seconds}
use t_pot_sensor_deployer.Duration.Decimal.{Text}
use t_pot_sensor_deployer.Duration.{unit_seconds}
use t_pot_sensor_deployer.Duration.RoundTrip.{parse_duration-decimal, decimal-Numeral}
use t_pot_sensor_deployer.Duration.Bounds.{parse_duration-le}
use t_pot_sensor_deployer.Fleet.{is_gcp}
use t_pot_sensor_deployer.Campaign.Records.{Mode, Timing, Schedule}
use t_pot_sensor_deployer.Campaign.World.{World, Env}
use t_pot_sensor_deployer.Campaign.Breaker.{IsSound}
use t_pot_sensor_deployer.Campaign.Create.{
  presets, Preset, preset, hours, first_text, preset_cooldown, Payload, CreateError,
  with_cooldown_max, with_cooldown_min, with_cooldown, with_active, resolve_timing, new_schedule,
  create_checked, create_schedule,
}

-- No duration of a campaign is over ten years.
pub record IsBounded (t : Timing) : Type 0 where
  pub active : t.active_duration_seconds ≤ max_duration_seconds
  pub cooldown : t.cooldown_duration_seconds ≤ max_duration_seconds
  pub least : t.cooldown_min_seconds ≤ max_duration_seconds
  pub most : t.cooldown_max_seconds ≤ max_duration_seconds

abbrev Resolved : Outcome CreateError Timing → Type 0
Resolved (ok t) = IsBounded t
Resolved (raised error) = Unit

with_cooldown_max-Resolved :
    (mode : Mode) (active cooldown least : ℕ) (most : Text)
    → active ≤ max_duration_seconds
    → cooldown ≤ max_duration_seconds
    → least ≤ max_duration_seconds
    → Resolved (with_cooldown_max mode active cooldown least (parse_duration most))
unfolding with_cooldown_max
with_cooldown_max-Resolved mode active cooldown least most ha hc hl =
    elim (Outcome-cases (parse_duration most)) [
      | inl (error, refused) ↦ simp refused tt
      | inr (n, read) ↦
          simp read (record {
            active = ha;
            cooldown = hc;
            least = hl;
            most = parse_duration-le most n read;
          })
    ]

with_cooldown_min-Resolved :
    (mode : Mode) (least most : Text) (active cooldown : ℕ)
    → active ≤ max_duration_seconds
    → cooldown ≤ max_duration_seconds
    → Resolved (with_cooldown_min mode most active cooldown (parse_duration least))
unfolding with_cooldown_min
with_cooldown_min-Resolved mode least most active cooldown ha hc =
    elim (Outcome-cases (parse_duration least)) [
      | inl (error, refused) ↦ simp refused tt
      | inr (n, read) ↦ simp read (
          with_cooldown_max-Resolved mode active cooldown n most ha hc
            (parse_duration-le least n read))
    ]

with_cooldown-Resolved :
    (mode : Mode) (cooldown least most : Text) (active : ℕ)
    → active ≤ max_duration_seconds
    → Resolved (with_cooldown mode least most active (parse_duration cooldown))
unfolding with_cooldown
with_cooldown-Resolved mode cooldown least most active ha =
    elim (Outcome-cases (parse_duration cooldown)) [
      | inl (error, refused) ↦ simp refused tt
      | inr (n, read) ↦ simp read (
          with_cooldown_min-Resolved mode least most active n ha
            (parse_duration-le cooldown n read))
    ]

with_active-Resolved :
    (mode : Mode) (window cooldown least most : Text)
    → Resolved (with_active mode cooldown least most (parse_duration window))
unfolding with_active
with_active-Resolved mode window cooldown least most =
    elim (Outcome-cases (parse_duration window)) [
      | inl (error, refused) ↦ simp refused tt
      | inr (n, read) ↦
          simp read
            (with_cooldown-Resolved mode cooldown least most n (parse_duration-le window n read))
    ]

resolve_timing-Resolved : (p : Payload) (pre : Option Preset) → Resolved (resolve_timing p pre)
unfolding resolve_timing
resolve_timing-Resolved p pre = with_active-Resolved _ _ _ _ _

-- What a creation that does not raise gives: a sound schedule whose durations are at most ten years,
-- which stands in the table under its id.
abbrev pub IsCreated : Outcome CreateError (Schedule × World) → Type 0
IsCreated (raised error) = Unit
IsCreated (ok (s, w)) = IsSound s × IsBounded s.timing × (find s.id w.schedules ≡ some s)

module _ (size_do size_gcp : String → String) where
  new_schedule-IsSound :
      (e : Env) (p : Payload) (pre : Option Preset) (t : Timing)
      → IsSound (new_schedule size_do size_gcp e p pre t)
  unfolding new_schedule
  new_schedule-IsSound e p pre t = ground arith

  create_checked-IsCreated :
      (e : Env) (p : Payload) (pre : Option Preset) (w : World)
      (timing : Outcome CreateError Timing)
      → Resolved timing
      → IsCreated (create_checked size_do size_gcp e p pre w timing)
  unfolding create_checked
  create_checked-IsCreated e p pre w (raised error) h = tt
  create_checked-IsCreated e p pre w (ok t) h =
      let s = new_schedule size_do size_gcp e p pre t in
      elim (Bool-cases (e.playbook_for s.config.sensor_type)) [
        | inr missing ↦ simp missing tt
        | inl found ↦
            elim (Bool-cases
              (is_gcp s.config.provider && (not e.gcp_project_id || not e.gcp_credentials))) [
                | inl refused ↦ simp (found, refused) tt
                | inr fine ↦
                    simp (found, fine)
                      (new_schedule-IsSound e p pre t, h, find-put_self s.id s w.schedules)
              ]
      ]

  create_checked-table :
      (e : Env) (p : Payload) (pre : Option Preset) (w w' : World) (c : Schedule)
      (timing : Outcome CreateError Timing)
      → create_checked size_do size_gcp e p pre w timing ≡ ok (c, w')
      → w'.schedules ≡ put c.id c w.schedules
  unfolding create_checked
  create_checked-table e p pre w w' c (raised error) made = absurd (ground (arith, made))
  create_checked-table e p pre w w' c (ok t) made = ground (arith, made)

  pub create_schedule-table :
      (e : Env) (p : Payload) (w w' : World) (c : Schedule)
      → create_schedule size_do size_gcp e p w ≡ ok (c, w')
      → w'.schedules ≡ put c.id c w.schedules
  unfolding create_schedule
  create_schedule-table e p w w' c made =
      create_checked-table e p (find p.preset_id presets) w w' c _ made

-- Creating a campaign, from any payload and preset, raises or gives a sound schedule whose
-- durations are at most ten years and which stands in the table under its id.
pub create_schedule-IsCreated :
    (size_do size_gcp : String → String) (e : Env) (p : Payload) (w : World)
    → IsCreated (create_schedule size_do size_gcp e p w)
unfolding create_schedule
create_schedule-IsCreated size_do size_gcp e p w =
    create_checked-IsCreated size_do size_gcp e p _ w (resolve_timing p _)
      (resolve_timing-Resolved p _)

-- Hours, up to ten years of them, are printed and read back.
hours_lem : (n : ℕ) → n ≤ 87600 → parse_duration (hours n) ≡ ok (n * 3600)
unfolding hours unit_seconds
hours_lem n h = parse_duration-decimal n b'h' 3600 refl ∙ ground arith

first_text-hours : (n : ℕ) (d : Text) → first_text none (some (hours n)) d ≡ hours n
unfolding first_text hours
first_text-hours n d = let (c, r, printed, digit, digits) = decimal-Numeral n in rw printed refl

-- With a preset of whole hours of at most ten years each, and a payload that names no duration,
-- the durations resolve to the hours of the preset, and to 144 hours where it has no cooldown.
pub resolve_timing-preset :
    (p : Payload) (mode : Mode) (sensor_type : String) (active : ℕ) (cooldown : Option ℕ)
    (least most : ℕ) (rotate : Bool)
    → p.active_duration ≡ none
    → p.cooldown_duration ≡ none
    → p.cooldown_min ≡ none
    → p.cooldown_max ≡ none
    → active ≤ 87600
    → or_else cooldown 144 ≤ 87600
    → least ≤ 87600
    → most ≤ 87600
    → resolve_timing p (some (preset mode sensor_type active cooldown least most rotate))
      ≡ ok (record {
        mode = or_else p.mode mode;
        active_duration_seconds = active * 3600;
        cooldown_duration_seconds = or_else cooldown 144 * 3600;
        cooldown_min_seconds = least * 3600;
        cooldown_max_seconds = most * 3600;
      })
unfolding resolve_timing preset with_active with_cooldown with_cooldown_min with_cooldown_max
    preset_cooldown
resolve_timing-preset p mode sensor_type active none least most rotate n1 n2 n3 n4 ha hc hl hm =
    simp
      (
        n1,
        n2,
        n3,
        n4,
        first_text-hours,
        hours_lem active ha,
        hours_lem 144 hc,
        hours_lem least hl,
        hours_lem most hm,
      )
      refl
resolve_timing-preset p mode sensor_type active (some c) least most rotate n1 n2 n3 n4 ha hc hl hm =
    simp
      (
        n1,
        n2,
        n3,
        n4,
        first_text-hours,
        hours_lem active ha,
        hours_lem c hc,
        hours_lem least hl,
        hours_lem most hm,
      )
      refl
