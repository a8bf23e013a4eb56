-- ===== src/Firewall/Valid.antt =====
-- `validate` of internal/firewall/firewall.go against the valid tier configurations.
use zfw_dark.Common.{true, List, [], ◌∷◌, Option, none, some, ◌≡◌, ◌↔◌, refl, sym, ◌∙◌, arith, All}
use zfw_dark.Common.Int.{ℤ, Within}
use zfw_dark.Common.Result.{ok, require-ok, then-ok}
use zfw_dark.Common.Text.{Text, Std, Family, v4, v6, atoi}
use zfw_dark.Firewall.{
  TierConfig, in_v4, port_number, check_ports, check_sets, validate_config, lan_not_ipv4,
  host_ip_not_ipv4, invalid_port,
}

-- A text that `strconv.Atoi` reads as a port.
abbrev pub PortText : Text → Type 0
PortText p = (n : ℤ) × (atoi p ≡ some n) × Within 1 65535 n

pub record ValidConfig (std : Std) (c : TierConfig) : Type 0 where
  pub lan : std.parse_cidr c.lan ≡ some v4
  pub host_ip : std.parse_ip c.host_ip ≡ some v4
  pub host_tcp_lan : All PortText c.host_tcp_lan
  pub host_udp_lan : All PortText c.host_udp_lan
  pub docker_drop_lan : All PortText c.docker_drop_lan
  pub v6_drop : All PortText c.v6_drop

in_v4_iff : (f : Option Family) → (in_v4 f ≡ true) ↔ (f ≡ some v4)
in_v4_iff none = (λ h. cc, λ h. cc)
in_v4_iff (some v4) = (λ h. refl, λ h. refl)
in_v4_iff (some v6) = (λ h. cc, λ h. cc)

same_number : (n m : ℤ) → some n ≡ some m → Within 1 65535 m → port_number (some n) ≡ true
same_number n m e within = ground arith

port_number-PortText : (p : Text) (n : Option ℤ) → atoi p ≡ n → (port_number n ≡ true) ↔ PortText p
port_number-PortText p none e = (λ h. cc, λ (n, found, _). cc)
port_number-PortText p (some n) e =
    (λ h. (n, e, ground arith), λ (m, found, within). same_number n m (sym e ∙ found) within)

check_ports_iff : (ps : List Text) → (check_ports ps ≡ ok tt) ↔ All PortText ps
unfolding check_ports
check_ports_iff [] = (λ _. tt, λ _. refl)
check_ports_iff (p ∷ ps) =
    let (to, from) = require-ok (port_number (atoi p)) (invalid_port p) (check_ports ps) in
    let (gives, needs) = check_ports_iff ps in
    let (reads, back) = port_number-PortText p (atoi p) refl in
    (λ h. (reads (to h).0, gives (to h).1), λ (here, later). from (back here, needs later))

check_sets_iff : (pss : List (List Text)) → (check_sets pss ≡ ok tt) ↔ All (All PortText) pss
unfolding check_sets
check_sets_iff [] = (λ _. tt, λ _. refl)
check_sets_iff (ps ∷ pss) =
    let (to, from) = then-ok (check_ports ps) (check_sets pss) in
    let (gives, needs) = check_sets_iff pss in
    let (reads, back) = check_ports_iff ps in
    (λ h. (reads (to h).0, gives (to h).1), λ (here, later). from (back here, needs later))

-- validate accepts a configuration exactly when its network and its host are IPv4 and every text of
-- its four lists reads as a number from 1 to 65535.
pub validate_config_iff :
    (std : Std) (c : TierConfig) → (validate_config std c ≡ ok tt) ↔ ValidConfig std c
unfolding validate_config
validate_config_iff std c =
    let (to, from) = require-ok (in_v4 (std.parse_cidr c.lan)) lan_not_ipv4 _ in
    let (to1, from1) = require-ok (in_v4 (std.parse_ip c.host_ip)) host_ip_not_ipv4 _ in
    let (to2, from2) =
      check_sets_iff (c.host_tcp_lan ∷ c.host_udp_lan ∷ c.docker_drop_lan ∷ c.v6_drop ∷ []) in
    (
      λ h.
          let (lan, h1) = to h in
          let (host, h2) = to1 h1 in
          let (tcp, (udp, (docker, (six, _)))) = to2 h2 in
          record {
            lan = (in_v4_iff (std.parse_cidr c.lan)).0 lan;
            host_ip = (in_v4_iff (std.parse_ip c.host_ip)).0 host;
            host_tcp_lan = tcp;
            host_udp_lan = udp;
            docker_drop_lan = docker;
            v6_drop = six;
          },
      λ v. from (
        (in_v4_iff (std.parse_cidr c.lan)).1 v.lan,
        from1 (
          (in_v4_iff (std.parse_ip c.host_ip)).1 v.host_ip,
          from2 (v.host_tcp_lan, (v.host_udp_lan, (v.docker_drop_lan, (v.v6_drop, tt)))),
        ),
      ),
    )
