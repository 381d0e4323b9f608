-- ===== src/Firewall/Gcp.antt =====
-- `ensure_sensor_firewall` of app/gcp_client.py: five rules of the dedicated network, each under its
-- own name. The network is there, since the method makes sure of it first.
use t_pot_sensor_deployer.Prelude.{
  ℕ, String, ◌+◌, ◌-◌, Bool, List, [], ◌∷◌, if◌then◌else◌, string_key, Table, put,
}
use t_pot_sensor_deployer.Firewall.{
  Rule, Range, any_v4, host, one_port, tcp, udp, icmp, all, is_restricted,
}

-- The ranges of a rule are its sources, or its destinations.
pub data Direction : Type 0 where
  ingress egress : Direction

pub record GcpRule : Type 0 where
  pub direction : Direction
  pub rule : Rule

unfoldable pub gcp_source : Bool → String → List Range
unfolding is_restricted
gcp_source restrict_ssh hive_ip =
    if is_restricted restrict_ssh hive_ip then host hive_ip ∷ [] else any_v4 ∷ []

unfoldable pub gcp_rules : ℕ → Bool → String → Table String GcpRule
unfolding gcp_source
gcp_rules admin_ssh_port restrict_ssh hive_ip =
    (
      "tpot-sensor-allow-admin-ssh",
      record {
        direction = ingress;
        rule = record {
          protocol = tcp;
          ports = one_port admin_ssh_port ∷ [];
          sources = gcp_source restrict_ssh hive_ip;
        };
      },
    )
    ∷ (
      "tpot-sensor-allow-tcp",
      record {
        direction = ingress;
        rule = record {
          protocol = tcp;
          ports =
              record { first = 1; last = admin_ssh_port - 1 }
              ∷ record { first = admin_ssh_port + 1; last = 65535 }
              ∷ [];
          sources = any_v4 ∷ [];
        };
      },
    )
    ∷ (
      "tpot-sensor-allow-udp",
      record {
        direction = ingress;
        rule = record {
          protocol = udp;
          ports = record { first = 1; last = 65535 } ∷ [];
          sources = any_v4 ∷ [];
        };
      },
    )
    ∷ (
      "tpot-sensor-allow-icmp",
      record {
        direction = ingress;
        rule = record { protocol = icmp; ports = []; sources = any_v4 ∷ [] };
      },
    )
    ∷ (
      "tpot-sensor-allow-egress",
      record {
        direction = egress;
        rule = record { protocol = all; ports = []; sources = any_v4 ∷ [] };
      },
    )
    ∷ []

-- `_ensure_firewall_rule` for each: an update of the rule with the name, or an insert.
unfoldable pub ensure_rules : Table String GcpRule → Table String GcpRule → Table String GcpRule
ensure_rules [] network = network
ensure_rules ((name, r) ∷ rules) network = ensure_rules rules (put name r network)

unfoldable pub ensure_gcp_firewall : ℕ → Bool → String → Table String GcpRule → Table String GcpRule
unfolding gcp_rules ensure_rules
ensure_gcp_firewall admin_ssh_port restrict_ssh hive_ip network =
    ensure_rules (gcp_rules admin_ssh_port restrict_ssh hive_ip) network
