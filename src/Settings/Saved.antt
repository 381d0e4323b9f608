-- ===== src/Settings/Saved.antt =====
-- What saving the settings stores, loads and shows.
use t_pot_sensor_deployer.Prelude.{
  String, Bool, true, false, ◌&&◌, ◌||◌, not, none, some, ◌≡◌, refl, sym, ap, ◌∙◌, arith, inl, inr,
  Bool-cases, ◌==◌, if◌then◌else◌, string_key, Table, find, put, remove, keys, find-put,
  find-remove, is_some, Distinct, Outcome, ok,
}
use mathlib.Core.Path.{subst}
use t_pot_sensor_deployer.Settings.{
  Value, text, flag, is_set, defaults, is_known, only_known, put_all, Environment, load_config,
  attributes, saved, save_config, public_settings, overridden,
}
use t_pot_sensor_deployer.Settings.Updates.{
  find-only_known, stored_row, only_known-Distinct, put_all-Distinct, find-put_all,
}

-- The environment has its own value for the setting.
unfoldable pub is_overridden : Environment → String → Bool
is_overridden e k =
    (k == "hive_ip" && not (e.hive_ip == ""))
    || (k == "gcp_project_id" && not (e.gcp_project_id == ""))

find-overridden :
    (k j value : String) (cfg : Table String Value)
    → (j == k && not (value == "")) ≡ false
    → find k (overridden j value cfg) ≡ find k cfg
unfolding overridden
find-overridden k j value cfg own = ground (arith, own, find-put j k (text value) cfg)

-- A stored setting is loaded, but for what the environment overrides.
find-load_config :
    (e : Environment) (stored : Table String Value) (k : String) (v : Value)
    → Distinct (keys stored)
    → is_known k ≡ true
    → ("do_token" == k) ≡ false
    → is_overridden e k ≡ false
    → find k stored ≡ some v
    → find k (load_config e stored) ≡ some v
unfolding load_config is_overridden
find-load_config e stored k v apart known public own held =
    find-overridden k "gcp_project_id" e.gcp_project_id _ (
      ground (
        arith,
        own,
        string_key.is_same_iff "gcp_project_id" k,
        string_key.is_same_iff k "gcp_project_id",
      ))
    ∙ find-overridden k "hive_ip" e.hive_ip _ (
        ground (arith, own, string_key.is_same_iff "hive_ip" k, string_key.is_same_iff k "hive_ip"))
    ∙ find-put "do_token" k (text e.do_token) (put_all (only_known stored) defaults)
    ∙ simp public refl
    ∙ find-put_all k v (only_known stored) defaults (only_known-Distinct stored apart)
        (find-only_known k stored ∙ simp known held)

-- The token is no setting.
known_public : (k : String) → is_known k ≡ true → ("do_token" == k) ≡ false
unfolding is_known defaults find
known_public k known = elim (Bool-cases ("do_token" == k)) [
  | inr other ↦ other
  | inl same ↦
      let token : is_known "do_token" ≡ true =
        subst (λ i. is_known i ≡ true) (sym ((string_key.is_same_iff "do_token" k).0 same)) known in
      absurd (ground (arith, token))
]

token-public_settings :
    (path : String) (cfg : Table String Value) → find "do_token" (public_settings path cfg) ≡ none
unfolding public_settings
token-public_settings path cfg = ground (
  arith,
  find-put "do_token_path" "do_token" (text path)
      (put "do_token_set" (flag (is_set (find "do_token" cfg))) (remove "do_token" cfg)),
  find-put "do_token_set" "do_token" (flag (is_set (find "do_token" cfg))) (remove "do_token" cfg),
  find-remove "do_token" "do_token" cfg,
)

-- Saving settings that pass the check stores the checked value of every known setting that the request
-- or the table has, and no other, so nothing of the environment and never the token. The value of each
-- setting of the request is what is loaded then, if the environment does not override it, and what is
-- shown has no token.
pub save_config_lem :
    (E : Type 0) (settings : Table String Value → Outcome E (String → Value)) (e : Environment)
    (path : String) (updates stored : Table String Value) (valid : String → Value)
    → Distinct (keys stored)
    → settings (only_known (put_all (only_known updates) stored)) ≡ ok valid
    → (db : Table String Value) × (save_config E settings updates stored ≡ ok db)
      × ((k : String)
          → find k db ≡ (
              if is_known k && (is_some (find k updates) || is_some (find k stored))
              then some (valid k)
              else find k stored))
      × ((k : String)
          → is_known k ≡ true
          → is_some (find k updates) ≡ true
          → is_overridden e k ≡ false
          → find k (load_config e db) ≡ some (valid k))
      × (find "do_token" (public_settings path (load_config e db)) ≡ none)
unfolding save_config saved
save_config_lem E settings e path updates stored valid apart passes =
    let values : Table String Value = only_known (put_all (only_known updates) stored) in
    let db : Table String Value = put_all (attributes valid values) stored in
    (
      db,
      ap (saved E settings values stored) passes,
      λ k. stored_row valid k updates stored,
      λ k known asked own.
          find-load_config e db k (valid k)
            (put_all-Distinct (attributes valid values) stored apart) known (known_public k known)
            own (stored_row valid k updates stored ∙ simp (known, asked) refl),
      token-public_settings path (load_config e db),
    )
