-- ===== src/Settings.antt =====
-- The settings: app/config.py, their table in app/db.py, and `update_settings` of app/api.py. The
-- environment's variables and the DigitalOcean token, which is read from a
-- file, are arguments, with the empty text for one that is missing.
pub mod Updates
pub mod Saved
use t_pot_sensor_deployer.Prelude.{
  ℕ, String, Bool, true, false, not, Option, none, some, List, [], ◌∷◌, map, ◌==◌, if◌then◌else◌,
  string_key, nat_key, Table, find, put, remove, is_some, keep, Outcome, ok, raised,
}

pub data Value : Type 0 where
  text : String → Value
  flag : Bool → Value
  number : ℕ → Value

-- The fields of `Settings` with their defaults.
unfoldable pub defaults : Table String Value
defaults =
    ("region", text "nyc1")
    ∷ ("size", text "s-1vcpu-2gb")
    ∷ ("image", text "ubuntu-24-04-x64")
    ∷ ("default_tag", text "tpot-sensor")
    ∷ ("ttl", text "2h")
    ∷ ("attach_firewall", flag true)
    ∷ ("firewall_restrict_ssh", flag true)
    ∷ ("auto_register_hive", flag true)
    ∷ ("honeypot_type", text "cowrie")
    ∷ ("ssh_key_path", text "")
    ∷ ("hive_ip", text "")
    ∷ ("hive_port", number 64294)
    ∷ ("gcp_project_id", text "")
    ∷ ("gcp_zone", text "us-central1-a")
    ∷ ("gcp_machine_type", text "e2-small")
    ∷ ("gcp_image", text "projects/ubuntu-os-cloud/global/images/family/ubuntu-2404-lts-amd64")
    ∷ []

unfoldable pub is_known : String → Bool
unfolding defaults
is_known k = is_some (find k defaults)

-- `{k: v for k, v in t.items() if k in known}`
unfoldable pub only_known : Table String Value → Table String Value
only_known t = keep (λ r. is_known r.0) t

-- `t.update(values)`, and `db_save_settings(values)`
unfoldable pub put_all : Table String Value → Table String Value → Table String Value
put_all [] t = t
put_all ((k, v) ∷ values) t = put_all values (put k v t)

pub record Environment : Type 0 where
  pub hive_ip : String
  pub gcp_project_id : String
  pub do_token : String

overridden : String → String → Table String Value → Table String Value
overridden k value cfg = if value == "" then cfg else put k (text value) cfg

unfoldable pub load_config : Environment → Table String Value → Table String Value
unfolding overridden only_known put_all
load_config e stored = overridden "gcp_project_id" e.gcp_project_id (
    overridden "hive_ip" e.hive_ip
      (put "do_token" (text e.do_token) (put_all (only_known stored) defaults)))

-- `{k: getattr(valid, k) for k in stored if k in known}`
unfoldable pub attributes : (String → Value) → Table String Value → Table String Value
attributes valid t = map (λ r. (r.0, valid r.0)) t

-- `Settings(**values)` checks the values, and gives the attributes or raises.
module _ (E : Type 0) (settings : Table String Value → Outcome E (String → Value)) where
  unfoldable pub saved :
      Table String Value
      → Table String Value
      → Outcome E (String → Value)
      → Outcome E (Table String Value)
  unfolding attributes put_all
  saved values stored (raised e) = raised e
  saved values stored (ok valid) = ok (put_all (attributes valid values) stored)

  -- The settings table afterwards.
  unfoldable pub save_config :
      Table String Value → Table String Value → Outcome E (Table String Value)
  unfolding saved only_known put_all
  save_config updates stored =
      let values = only_known (put_all (only_known updates) stored) in
      saved values stored (settings values)

-- `bool(cfg.get("do_token"))`
unfoldable pub is_set : Option Value → Bool
is_set none = false
is_set (some (text s)) = not (s == "")
is_set (some (flag b)) = b
is_set (some (number n)) = not (n == 0)

-- `path` is where the token's file is.
unfoldable pub public_settings : String → Table String Value → Table String Value
unfolding is_set
public_settings path cfg =
    put "do_token_path" (text path)
      (put "do_token_set" (flag (is_set (find "do_token" cfg))) (remove "do_token" cfg))
