-- ===== src/Firewall.antt =====
-- `ensure_sensor_firewall` of app/do_client.py: the firewall of the sensors, which is found by its name
-- or tags and written whole. A call of the cloud that raises ends the method, and is not modelled.
pub mod Policy
pub mod Account
pub mod Gcp
use Prim.Native.String.{compare}
use Prim.Native.Nat.{Ordering}
use t_pot_sensor_deployer.Prelude.{
  ℕ, String, ◌+◌, ◌-◌, Bool, true, false, ◌&&◌, ◌||◌, not, List, [], ◌∷◌, ◌++◌, ◌==◌, if◌then◌else◌,
  string_key, any_of, map, order_by,
}

pub data Protocol : Type 0 where
  tcp udp icmp all : Protocol

-- "1-64294", or "64295" with both ends the same
pub record Ports : Type 0 where
  pub first : ℕ
  pub last : ℕ

-- "0.0.0.0/0", "::/0" and "<ip>/32"
pub data Range : Type 0 where
  any_v4 any_v6 : Range
  host : String → Range

-- A rule with no ports is for all of them.
pub record Rule : Type 0 where
  pub protocol : Protocol
  pub ports : List Ports
  pub sources : List Range

abbrev pub everywhere : List Range
everywhere = any_v4 ∷ any_v6 ∷ []

abbrev pub one_port : ℕ → Ports
one_port p = record { first = p; last = p }

-- `restrict_ssh and hive_ip`; a missing address is the empty text.
unfoldable pub is_restricted : Bool → String → Bool
is_restricted restrict_ssh hive_ip = restrict_ssh && not (hive_ip == "")

unfoldable pub admin_ssh_source : Bool → String → List Range
unfolding is_restricted
admin_ssh_source restrict_ssh hive_ip =
    if is_restricted restrict_ssh hive_ip then host hive_ip ∷ [] else everywhere

unfoldable pub open_rules : ℕ → List Range → List Rule
open_rules admin_ssh_port source =
    record {
      protocol = tcp;
      ports = record { first = 1; last = admin_ssh_port - 1 } ∷ [];
      sources = everywhere;
    }
    ∷ record {
      protocol = tcp;
      ports = record { first = admin_ssh_port + 1; last = 65535 } ∷ [];
      sources = everywhere;
    }
    ∷ record { protocol = tcp; ports = one_port admin_ssh_port ∷ []; sources = source }
    ∷ record {
      protocol = udp;
      ports = record { first = 1; last = 65535 } ∷ [];
      sources = everywhere;
    }
    ∷ record { protocol = icmp; ports = []; sources = everywhere }
    ∷ []

-- A port of a sensor type.
pub record SensorPort : Type 0 where
  pub port : ℕ
  pub proto : Protocol

unfoldable pub type_rules : List SensorPort → ℕ → List Range → List Rule
type_rules ports admin_ssh_port source =
    map (λ p. record { protocol = p.proto; ports = one_port p.port ∷ []; sources = everywhere })
      ports
    ++ record { protocol = tcp; ports = one_port admin_ssh_port ∷ []; sources = source }
      ∷ record { protocol = icmp; ports = []; sources = everywhere }
      ∷ []

unfoldable pub inbound_rules : Bool → List SensorPort → ℕ → List Range → List Rule
unfolding open_rules type_rules
inbound_rules open_all_ports ports admin_ssh_port source =
    if open_all_ports
    then open_rules admin_ssh_port source
    else type_rules ports admin_ssh_port source

pub record Firewall : Type 0 where
  pub id : String
  pub name : String
  pub inbound : List Rule
  pub tags : List String

before : String → String → Bool
before s t = elim (compare s t) [ Ordering.lt ↦ true | _ ↦ false ]

-- `list(set(...))`
unfoldable pub unique : List String → List String
unique [] = []
unique (t ∷ ts) = let rest = unique ts in if any_of (λ u. u == t) rest then rest else t ∷ rest

-- `sorted(list(set(...)))`
unfoldable pub sorted_set : List String → List String
unfolding before unique
sorted_set ts = order_by before (unique ts)

-- The arguments. `extra_tag` is `tag or f"tpot-{sensor_type}-sensor"`, and `old_name` is
-- f"tpot-{sensor_type}-sensor-fw".
pub record Request : Type 0 where
  pub fw_name : String
  pub extra_tag : String
  pub old_name : String
  pub type_ports : List SensorPort
  pub hive_ip : String
  pub restrict_ssh : Bool
  pub admin_ssh_port : ℕ
  pub open_all_ports : Bool

unfoldable pub fw_tags : Request → List String
unfolding sorted_set
fw_tags r = sorted_set ("tpot-sensor" ∷ "tpot-cowrie-sensor" ∷ r.extra_tag ∷ [])

unfoldable pub rules_of : Request → List Rule
unfolding inbound_rules admin_ssh_source
rules_of r =
    inbound_rules r.open_all_ports r.type_ports r.admin_ssh_port
      (admin_ssh_source r.restrict_ssh r.hive_ip)

unfoldable pub is_sensor_firewall : Request → Firewall → Bool
is_sensor_firewall r f =
    f.name == r.fw_name || any_of (λ t. t == "tpot-sensor") f.tags || f.name == r.old_name

-- `update_firewall` with the merged tags
unfoldable pub updated : Request → Firewall → Firewall
unfolding fw_tags rules_of
updated r f = record {
  id = f.id;
  name = if f.name == "" then r.fw_name else f.name;
  inbound = rules_of r;
  tags = sorted_set (f.tags ++ fw_tags r);
}

-- `create_firewall`; the cloud chooses the id.
unfoldable pub created : Request → String → Firewall
unfolding fw_tags rules_of
created r id = record { id = id; name = r.fw_name; inbound = rules_of r; tags = fw_tags r }

-- The firewalls of the account after the call, and what it returns.
unfoldable pub ensure_sensor_firewall : Request → String → List Firewall → List Firewall × String
unfolding updated created is_sensor_firewall
ensure_sensor_firewall r new_id [] = (created r new_id ∷ [], new_id)
ensure_sensor_firewall r new_id (f ∷ fws) =
    let (rest, id) = ensure_sensor_firewall r new_id fws in
    if is_sensor_firewall r f then (updated r f ∷ fws, f.id) else (f ∷ rest, id)
