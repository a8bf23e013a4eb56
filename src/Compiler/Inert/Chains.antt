-- ===== src/Compiler/Inert/Chains.antt =====
-- The bytes of the lines that internal/compiler writes for a rule set.
use zfw_dark.Common.{◌≡◌, refl, Bool, ◌&&◌, not, List, [], some, inl, inr, ◌⊎◌, All}
use zfw_dark.Common.Int.{ℤ}
use zfw_dark.Common.Result.{ok}
use zfw_dark.Common.Addresses.{ParsesAddresses}
use zfw_dark.Common.Text.{Text, Std, v4, lit, ◌==◌, is_empty}
use zfw_dark.Compiler.Args.{is_ipv6_source}
use zfw_dark.Compiler.Chains.{
  in_fixed, in6_fixed, in6_protocols, docker_fixed, docker_vpn, out_fixed, out6_fixed, fwd_fixed,
  return_line, host_ip_lines, lan_lines, zfw_in_rules, docker_user_rules, zfw_in6_rules,
  zfw_out_rules, zfw_out6_rules, zfw_fwd_out_rules,
}
use zfw_dark.Compiler.Inert.Bytes.{
  Every, end, also, Every-append, Every-if, Every-of_All, is_inert, Inert, AllInert, lit-Inert,
}
use zfw_dark.Compiler.Inert.Outbound.{outbound_lines-AllInert, outbound_lines6-AllInert}
use zfw_dark.Compiler.Inert.Rules.{host_lines-AllInert, docker_lines-AllInert, host_lines6-AllInert}
use zfw_dark.Compiler.Inert.Sources.{address-Inert, ip_text, cidr_text}
use zfw_dark.Compiler.Outbound.{goes_out, from_host, from_docker}
use zfw_dark.Compiler.Sort.{sort_rules}
use zfw_dark.Rules.Model.{Rule, RuleSet, v6_ports}
use zfw_dark.Compiler.Inert.Plain.{PlainRule, All-Plain}
use zfw_dark.Rules.Valid.Rule.{validate_iff}
use zfw_dark.Rules.Validate.{validate}
use zfw_dark.Compiler.Inert.Parts.{
  lits-AllInert, SafeIface, map-AllInert, accept_iface-Inert, return_iface-Inert, v6_drops-AllInert,
  Every-sort_rules, lines_where-AllInert, in_default-AllInert, in6_default-AllInert,
}

module _ (std : Std) (laws : ParsesAddresses std) where
  host_ip_lines-AllInert :
      {ip : Text} → (ip ≡ []) ⊎ (std.parse_ip ip ≡ some v4) → AllInert (host_ip_lines ip)
  unfolding lit is_inert
  host_ip_lines-AllInert (inl e) = rw e end
  host_ip_lines-AllInert {ip} (inr h) =
      Every-if (not (is_empty ip))
        (also
          (Every-append (lit-Inert (lit "-s ") refl) (
            Every-append (address-Inert (ip_text std laws h))
              (Every-append (lit-Inert (lit " -j RETURN") refl) end)))
          end)
        end

  lan_text : {lan : Text} → (lan ≡ []) ⊎ (std.parse_cidr lan ≡ some v4) → Inert lan
  lan_text (inl e) = rw e end
  lan_text (inr h) = address-Inert (cidr_text std laws h)

  lan_lines-AllInert : (rs : RuleSet) → Inert rs.lan → AllInert (lan_lines rs)
  unfolding lit is_inert
  lan_lines-AllInert rs h =
      Every-if (rs.default_policy == lit "deny" && not (is_empty rs.lan))
        (also
          (Every-append (lit-Inert (lit "-s ") refl) (
            Every-append h (
              Every-append
                (lit-Inert
                  (lit
                    " -m conntrack --ctstate NEW -j LOG --log-prefix \"ZFW-DOCK-DROP \" --log-level 6")
                  refl)
                end)))
          (also
            (Every-append (lit-Inert (lit "-s ") refl)
              (Every-append h (Every-append (lit-Inert (lit " -j DROP") refl) end)))
            end))
        end

  module _ (rs : RuleSet) {rl : List Rule} {extra : List Text} (docker_ports : ℤ → Bool)
      (host_ip : (rs.host_ip ≡ []) ⊎ (std.parse_ip rs.host_ip ≡ some v4))
      (lan : (rs.lan ≡ []) ⊎ (std.parse_cidr rs.lan ≡ some v4)) (rules : Every (PlainRule std) rl)
      (ifaces : Every SafeIface extra) where
    zfw_in-AllInert : AllInert (zfw_in_rules std rs rl docker_ports extra)
    unfolding zfw_in_rules lit is_inert
    zfw_in-AllInert = Every-append (lits-AllInert in_fixed refl) (
        Every-append (map-AllInert accept_iface-Inert ifaces) (
          Every-append
            (lines_where-AllInert (λ r. r.enabled)
              (λ r v. host_lines-AllInert std laws r v docker_ports) rules)
            (in_default-AllInert rs.default_policy)))

    docker_user-AllInert : AllInert (docker_user_rules std rs rl docker_ports extra)
    unfolding docker_user_rules lit is_inert
    docker_user-AllInert = Every-append (lits-AllInert docker_fixed refl) (
        Every-append (host_ip_lines-AllInert host_ip) (
          Every-append (lits-AllInert docker_vpn refl) (
            Every-append (map-AllInert return_iface-Inert ifaces) (
              Every-append
                (lines_where-AllInert (λ r. r.enabled)
                  (λ r v. docker_lines-AllInert std laws r v docker_ports) rules)
                (Every-append (lan_lines-AllInert rs (lan_text lan))
                  (lits-AllInert return_line refl))))))

    zfw_in6-AllInert : AllInert (zfw_in6_rules std rs rl docker_ports extra)
    unfolding zfw_in6_rules lit is_inert
    zfw_in6-AllInert = Every-append (lits-AllInert in6_fixed refl) (
        Every-append (map-AllInert return_iface-Inert ifaces) (
          Every-append (lits-AllInert in6_protocols refl) (
            Every-append
              (lines_where-AllInert (λ r. r.enabled)
                (λ r v. host_lines6-AllInert std laws r v docker_ports) rules)
              (Every-append (v6_drops-AllInert (v6_ports rs))
                (in6_default-AllInert rs.default_policy)))))

  module _ {rl : List Rule} (rules : Every (PlainRule std) rl) where
    zfw_out-AllInert : AllInert (zfw_out_rules std rl)
    unfolding zfw_out_rules lit is_inert
    zfw_out-AllInert = Every-append (lits-AllInert out_fixed refl) (
        Every-append
          (lines_where-AllInert (λ r. goes_out r && from_host r && not (is_ipv6_source r.source))
            (outbound_lines-AllInert std laws) rules)
          (lits-AllInert return_line refl))

    zfw_out6-AllInert : AllInert (zfw_out6_rules std rl)
    unfolding zfw_out6_rules lit is_inert
    zfw_out6-AllInert = Every-append (lits-AllInert out6_fixed refl) (
        Every-append
          (lines_where-AllInert (λ r. goes_out r && from_host r) (outbound_lines6-AllInert std laws)
            rules)
          (lits-AllInert return_line refl))

    zfw_fwd_out-AllInert : AllInert (zfw_fwd_out_rules std rl)
    unfolding zfw_fwd_out_rules lit is_inert
    zfw_fwd_out-AllInert = Every-append (lits-AllInert fwd_fixed refl) (
        Every-append
          (lines_where-AllInert (λ r. goes_out r && from_docker r && not (is_ipv6_source r.source))
            (outbound_lines-AllInert std laws) rules)
          (lits-AllInert return_line refl))

-- Every line of the six chains is inert.
abbrev pub InertChains : Std → RuleSet → (ℤ → Bool) → List Text → Type 0
InertChains std rs docker_ports extra =
    AllInert (zfw_in_rules std rs (sort_rules rs.rules) docker_ports extra)
    × AllInert (docker_user_rules std rs (sort_rules rs.rules) docker_ports extra)
    × AllInert (zfw_in6_rules std rs (sort_rules rs.rules) docker_ports extra)
    × AllInert (zfw_out_rules std (sort_rules rs.rules))
    × AllInert (zfw_out6_rules std (sort_rules rs.rules))
    × AllInert (zfw_fwd_out_rules std (sort_rules rs.rules))

pub plain-InertChains :
    (std : Std) (laws : ParsesAddresses std) (rs : RuleSet) (docker_ports : ℤ → Bool)
    (extra : List Text)
    → (rs.host_ip ≡ []) ⊎ (std.parse_ip rs.host_ip ≡ some v4)
    → (rs.lan ≡ []) ⊎ (std.parse_cidr rs.lan ≡ some v4)
    → All (PlainRule std) rs.rules
    → All SafeIface extra
    → InertChains std rs docker_ports extra
plain-InertChains std laws rs docker_ports extra host_ip lan plain safe =
    let rules = Every-sort_rules (Every-of_All (PlainRule std) rs.rules plain) in
    let ifaces = Every-of_All SafeIface extra safe in
    (
      zfw_in-AllInert std laws rs docker_ports host_ip lan rules ifaces,
      docker_user-AllInert std laws rs docker_ports host_ip lan rules ifaces,
      zfw_in6-AllInert std laws rs docker_ports host_ip lan rules ifaces,
      zfw_out-AllInert std laws rules,
      zfw_out6-AllInert std laws rules,
      zfw_fwd_out-AllInert std laws rules,
    )

-- For a rule set that `Validate` accepts, and extra interfaces with safe names, every line of the
-- six chains is made of letters, digits, spaces and - _ . : / + , " only: no newline, and nothing
-- that bash expands or by which it ends a command.
pub chains-AllInert :
    (std : Std) (laws : ParsesAddresses std) (rs : RuleSet) (docker_ports : ℤ → Bool)
    (extra : List Text)
    → validate std rs ≡ ok tt
    → All SafeIface extra
    → AllInert (zfw_in_rules std rs (sort_rules rs.rules) docker_ports extra)
      × AllInert (docker_user_rules std rs (sort_rules rs.rules) docker_ports extra)
      × AllInert (zfw_in6_rules std rs (sort_rules rs.rules) docker_ports extra)
      × AllInert (zfw_out_rules std (sort_rules rs.rules))
      × AllInert (zfw_out6_rules std (sort_rules rs.rules))
      × AllInert (zfw_fwd_out_rules std (sort_rules rs.rules))
chains-AllInert std laws rs docker_ports extra accepted safe =
    let valid = (validate_iff std rs).0 accepted in
    plain-InertChains std laws rs docker_ports extra valid.host_ip valid.lan
      (All-Plain std rs.rules valid.rules) safe
