-- ===== src/Compiler/Agreement/V6.antt =====
-- `emitV6Chain` of internal/compiler/compiler.go and the lines of its chain in compiler_restore.go.
use zfw_dark.Common.{Bool, List, [], ◌∷◌, map, ◌≡◌, refl, inl, inr}
use zfw_dark.Common.{append_assoc, cat, flat_map, Bool-cases, if◌then◌else◌}
use zfw_dark.Common.Int.{ℤ}
use zfw_dark.Common.Text.{Text, Std, lit, ◌==◌}
use zfw_dark.Compiler.Agreement.{write_lines-append, write_rules-lines}
use zfw_dark.Compiler.Chains.{
  in6_default, in6_fixed, in6_protocols, return_iface, v6_drop_line, zfw_in6_rules,
}
use zfw_dark.Compiler.Script.{write_lines, write_iface, emit_v6_drop, emit_v6_chain}
use zfw_dark.Rules.Model.{Rule, RuleSet}

in6_fixed_lines :
    write_lines (lit "  $IPT6 -A ZFW-IN6 ") in6_fixed
    ≡ cat (
        lit "  $IPT6 -A ZFW-IN6 -m conntrack --ctstate ESTABLISHED,RELATED -j RETURN\n"
        ∷ lit "  $IPT6 -A ZFW-IN6 -m conntrack --ctstate INVALID -j DROP\n"
        ∷ lit "  $IPT6 -A ZFW-IN6 -i lo -j RETURN\n"
        ∷ lit "  $IPT6 -A ZFW-IN6 -i docker0 -j RETURN\n"
        ∷ lit "  $IPT6 -A ZFW-IN6 -i br-+ -j RETURN\n"
        ∷ lit "  $IPT6 -A ZFW-IN6 -i virbr0 -j RETURN\n"
        ∷ lit "  $IPT6 -A ZFW-IN6 -i tailscale0 -j RETURN\n"
        ∷ lit "  $IPT6 -A ZFW-IN6 -i zt+ -j RETURN\n"
        ∷ lit "  $IPT6 -A ZFW-IN6 -i wg+ -j RETURN\n"
        ∷ [])
unfolding write_lines lit
in6_fixed_lines = refl

in6_protocol_lines :
    write_lines (lit "  $IPT6 -A ZFW-IN6 ") in6_protocols
    ≡ cat (
        lit "  $IPT6 -A ZFW-IN6 -p ipv6-icmp -j RETURN\n"
        ∷ lit "  $IPT6 -A ZFW-IN6 -p udp --dport 546 -j RETURN\n"
        ∷ lit "  $IPT6 -A ZFW-IN6 -s fe80::/10 -j RETURN\n"
        ∷ lit "  $IPT6 -A ZFW-IN6 -s ff00::/8 -j RETURN\n"
        ∷ [])
unfolding write_lines lit
in6_protocol_lines = refl

in6_extra_lines :
    (extra : List Text)
    → write_lines (lit "  $IPT6 -A ZFW-IN6 ") (map return_iface extra)
      ≡ flat_map (write_iface (lit "  $IPT6 -A ZFW-IN6 -i ") (lit " -j RETURN\n")) extra
unfolding write_lines lit write_iface
in6_extra_lines [] = refl
in6_extra_lines (i ∷ extra) = simp (append_assoc, in6_extra_lines extra)

in6_drop_lines :
    (ps : List ℤ) → write_lines (lit "  $IPT6 -A ZFW-IN6 ") (map v6_drop_line ps) ≡ emit_v6_drop ps
unfolding write_lines lit emit_v6_drop
in6_drop_lines [] = refl
in6_drop_lines (p ∷ ps) = simp (append_assoc, in6_drop_lines ps)

in6_default_lines :
    (policy : Text)
    → write_lines (lit "  $IPT6 -A ZFW-IN6 ") (in6_default policy) ≡ (
        if policy == lit "allow"
        then lit "  $IPT6 -A ZFW-IN6 -j RETURN\n"
        else cat (
            lit
              "  $IPT6 -A ZFW-IN6 -m conntrack --ctstate NEW -j LOG --log-prefix \"ZFW-IN6-DROP \" --log-level 6\n"
            ∷ lit "  $IPT6 -A ZFW-IN6 -j DROP\n"
            ∷ []))
unfolding write_lines lit
in6_default_lines policy = elim (Bool-cases (policy == lit "allow")) [ inl e ↦ rw e | inr e ↦ rw e ]

ruleset in6_laws = (
  write_lines-append, write_rules-lines, in6_fixed_lines, in6_protocol_lines, in6_extra_lines,
  in6_drop_lines, in6_default_lines, append_assoc,
)

pub emit_v6_chain-lines :
    (std : Std) (rs : RuleSet) (rl : List Rule) (docker_ports : ℤ → Bool) (extra : List Text)
    → emit_v6_chain std rs rl docker_ports extra
      ≡ cat (
          lit "# ===== ZFW-IN6 (IPv6 INPUT — always emitted from v0.2.15) =====\n"
          ∷ lit "if [ -n \"$IPT6\" ]; then\n"
          ∷ lit "  $IPT6 -N ZFW-IN6 2>/dev/null || true\n"
          ∷ lit "  $IPT6 -F ZFW-IN6\n"
          ∷ write_lines (lit "  $IPT6 -A ZFW-IN6 ") (zfw_in6_rules std rs rl docker_ports extra)
          ∷ lit "  $IPT6 -C INPUT -j ZFW-IN6 2>/dev/null || $IPT6 -I INPUT 1 -j ZFW-IN6\n"
          ∷ lit "fi\n"
          ∷ [])
unfolding emit_v6_chain zfw_in6_rules
emit_v6_chain-lines std rs rl docker_ports extra = simp in6_laws
