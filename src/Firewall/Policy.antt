-- ===== src/Firewall/Policy.antt =====
-- What the firewalls of both clouds let in.
use t_pot_sensor_deployer.Prelude.{
  ℕ, String, ◌≤◌, Bool, true, false, ◌&&◌, List, [], ◌≡◌, refl, ap, ◌∙◌, arith, inl, inr, leb, ◌==◌,
  if◌then◌else◌, nat_key, string_key, Bool-cases, Table, put, any_of,
}
use t_pot_sensor_deployer.Firewall.{
  Protocol, tcp, udp, icmp, Ports, Range, any_v4, any_v6, host, Rule, is_restricted,
  admin_ssh_source, open_rules, inbound_rules, Request, rules_of,
}
use t_pot_sensor_deployer.Firewall.Gcp.{
  Direction, ingress, egress, GcpRule, gcp_source, gcp_rules, ensure_rules, ensure_gcp_firewall,
}

pub data Address : Type 0 where
  v4 v6 : String → Address

-- A connection to a TCP port, a datagram to a UDP port, or a ping.
pub data Traffic : Type 0 where
  to_tcp to_udp : ℕ → Traffic
  ping : Traffic

unfoldable pub in_range : Address → Range → Bool
in_range (v4 a) any_v4 = true
in_range (v4 a) any_v6 = false
in_range (v4 a) (host h) = a == h
in_range (v6 a) any_v6 = true
in_range (v6 a) any_v4 = false
in_range (v6 a) (host h) = false

abbrev in_ports : ℕ → Ports → Bool
in_ports n p = leb p.first n && leb n p.last

unfoldable matches : Traffic → Protocol → List Ports → Bool
matches (to_tcp n) tcp ports = any_of (in_ports n) ports
matches (to_udp n) udp ports = any_of (in_ports n) ports
matches ping icmp ports = true
matches _ _ ports = false

unfoldable pub admits : Address → Traffic → Rule → Bool
unfolding in_range matches
admits a t r = matches t r.protocol r.ports && any_of (in_range a) r.sources

-- Everything, but for the port of the admin, where only the Hive may be let in.
unfoldable pub policy : (restricted : Bool) → String → ℕ → Address → Traffic → Bool
unfolding in_range
policy restricted hive_ip admin a (to_tcp n) =
    if restricted && n == admin then in_range a (host hive_ip) else true
policy restricted hive_ip admin a _ = true

-- A port number, where there is one.
abbrev pub IsPort : Traffic → Type 0
IsPort (to_tcp n) = (1 ≤ n) × (n ≤ 65535)
IsPort (to_udp n) = (1 ≤ n) × (n ≤ 65535)
IsPort ping = Unit

open_rules-policy :
    (restrict : Bool) (hive : String) (admin : ℕ) (a : Address) (t : Traffic)
    → 1 ≤ admin
    → IsPort t
    → any_of (admits a t) (open_rules admin (admin_ssh_source restrict hive))
      ≡ policy (is_restricted restrict hive) hive admin a t
unfolding open_rules admin_ssh_source policy admits in_range matches
open_rules-policy restrict hive admin (v4 a) (to_tcp n) low (from, to) =
    elim (Bool-cases (is_restricted restrict hive)) [
      | inl only ↦ simp only (ground (arith, low, from, to))
      | inr free ↦ simp free (ground (arith, low, from, to))
    ]
open_rules-policy restrict hive admin (v6 a) (to_tcp n) low (from, to) =
    elim (Bool-cases (is_restricted restrict hive)) [
      | inl only ↦ simp only (ground (arith, low, from, to))
      | inr free ↦ simp free (ground (arith, low, from, to))
    ]
open_rules-policy restrict hive admin (v4 a) (to_udp n) low (from, to) = ground (arith, from, to)
open_rules-policy restrict hive admin (v6 a) (to_udp n) low (from, to) = ground (arith, from, to)
open_rules-policy restrict hive admin (v4 a) ping low port = refl
open_rules-policy restrict hive admin (v6 a) ping low port = refl

abbrev is_ingress : Direction → Bool
is_ingress ingress = true
is_ingress egress = false

-- What a network's rules let in.
unfoldable pub gcp_admits : Address → Traffic → Table String GcpRule → Bool
gcp_admits a t network = any_of (λ r. is_ingress r.1.direction && admits a t r.1.rule) network

gcp_rules-policy :
    (restrict : Bool) (hive : String) (admin : ℕ) (ip : String) (t : Traffic)
    → 1 ≤ admin
    → IsPort t
    → gcp_admits (v4 ip) t (gcp_rules admin restrict hive)
      ≡ policy (is_restricted restrict hive) hive admin (v4 ip) t
unfolding gcp_admits gcp_rules gcp_source policy admits in_range matches
gcp_rules-policy restrict hive admin ip (to_tcp n) low (from, to) =
    elim (Bool-cases (is_restricted restrict hive)) [
      | inl only ↦ simp only (ground (arith, low, from, to))
      | inr free ↦ simp free (ground (arith, low, from, to))
    ]
gcp_rules-policy restrict hive admin ip (to_udp n) low (from, to) = ground (arith, from, to)
gcp_rules-policy restrict hive admin ip ping low port = refl

-- The rules replace those that the method wrote before.
again :
    (restrict restrict' : Bool) (hive hive' : String) (admin admin' : ℕ)
    → ensure_gcp_firewall admin restrict hive (ensure_gcp_firewall admin' restrict' hive' [])
      ≡ gcp_rules admin restrict hive
unfolding ensure_gcp_firewall ensure_rules gcp_rules put
again restrict restrict' hive hive' admin admin' = refl

-- With all ports open and the port of the admin not 0, the rules that both clouds get let in every
-- ping and every TCP and UDP port from 1 to 65535 from everywhere, but for the TCP port of the admin:
-- where it is restricted and the Hive has an address, only that address is let in there. Google's
-- rules do so for IPv4, also where the method had written rules for other settings before.
pub ensure_sensor_firewall-policy :
    (r : Request) (a : Address) (t : Traffic)
    → r.open_all_ports ≡ true
    → 1 ≤ r.admin_ssh_port
    → IsPort t
    → (any_of (admits a t) (rules_of r)
        ≡ policy (is_restricted r.restrict_ssh r.hive_ip) r.hive_ip r.admin_ssh_port a t)
      × ((restrict : Bool) (hive ip : String) (admin : ℕ)
          → gcp_admits (v4 ip) t (
              ensure_gcp_firewall r.admin_ssh_port r.restrict_ssh r.hive_ip
                (ensure_gcp_firewall admin restrict hive []))
            ≡ policy (is_restricted r.restrict_ssh r.hive_ip) r.hive_ip r.admin_ssh_port (v4 ip) t)
unfolding rules_of inbound_rules
ensure_sensor_firewall-policy r a t every low port = (
  rw every (open_rules-policy r.restrict_ssh r.hive_ip r.admin_ssh_port a t low port),
  λ restrict hive ip admin.
      ap (gcp_admits (v4 ip) t)
        (again r.restrict_ssh restrict r.hive_ip hive r.admin_ssh_port admin)
      ∙ gcp_rules-policy r.restrict_ssh r.hive_ip r.admin_ssh_port ip t low port,
)
