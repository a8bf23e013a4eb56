-- ===== src/Compiler/Agreement.antt =====
-- The script of internal/compiler/compiler.go beside the chains of compiler_restore.go: each `emit…`
-- and the lines of its chain; here for the chains of the host and of Docker.
pub mod V6
pub mod Outbound
pub mod Whole
use zfw_dark.Common.{Bool, not, ◌&&◌, List, [], ◌∷◌, ◌++◌, map, ◌≡◌, refl, inl, inr}
use zfw_dark.Common.{append_assoc, cat, flat_map, flat_map-append, Bool-cases, if◌then◌else◌}
use zfw_dark.Common.Int.{ℤ}
use zfw_dark.Common.Text.{Text, Std, lit, ◌==◌, is_empty}
use zfw_dark.Compiler.Chains.{
  in_default, in6_default, in6_fixed, in6_protocols, lan_lines, host_ip_lines, return_iface,
  v6_drop_line, zfw_in_rules, docker_user_rules, zfw_in6_rules, zfw_out_rules, zfw_out6_rules,
  zfw_fwd_out_rules,
}
use zfw_dark.Compiler.Outbound.{lines_where}
use zfw_dark.Compiler.Script.{
  write_lines, write_rules, write_iface, emit_v6_drop, emit_host_chain, emit_docker_chain,
  emit_v6_chain, emit_host_out, emit_docker_out,
}
use zfw_dark.Rules.Model.{Rule, RuleSet}

pub write_lines-append :
    (front : Text) (xs ys : List Text)
    → write_lines front (xs ++ ys) ≡ write_lines front xs ++ write_lines front ys
unfolding write_lines
write_lines-append front xs ys = flat_map-append _ xs ys

pub write_rules-lines :
    (test : Rule → Bool) (front : Text) (f : Rule → List Text) (rl : List Rule)
    → write_lines front (lines_where test f rl) ≡ write_rules test front f rl
unfolding write_rules lines_where
write_rules-lines test front f [] = unfold write_lines in refl
write_rules-lines test front f (r ∷ rl) = elim (Bool-cases (test r)) [
  | inl on ↦ rw (on, write_lines-append, write_rules-lines test front f rl)
  | inr off ↦ rw off (write_rules-lines test front f rl)
]

in_default_lines :
    (policy : Text)
    → write_lines (lit "$IPT -A ZFW-IN ") (in_default policy) ≡ (
        if policy == lit "allow"
        then lit "$IPT -A ZFW-IN -j RETURN\n"
        else cat (
            lit
              "$IPT -A ZFW-IN -m conntrack --ctstate NEW -j LOG --log-prefix \"ZFW-IN-DROP \" --log-level 6\n"
            ∷ lit "$IPT -A ZFW-IN -j DROP\n"
            ∷ []))
unfolding write_lines lit
in_default_lines policy = elim (Bool-cases (policy == lit "allow")) [ inl e ↦ rw e | inr e ↦ rw e ]

pub emit_host_chain-lines :
    (std : Std) (rs : RuleSet) (rl : List Rule) (docker_ports : ℤ → Bool) (extra : List Text)
    → emit_host_chain std rs rl docker_ports extra
      ≡ cat (
          lit "# ===== ZFW-IN (host-native services) =====\n"
          ∷ lit "$IPT -N ZFW-IN 2>/dev/null || true\n"
          ∷ lit "$IPT -F ZFW-IN\n"
          ∷ write_lines (lit "$IPT -A ZFW-IN ") (zfw_in_rules std rs rl docker_ports extra)
          ∷ lit "$IPT -C INPUT -j ZFW-IN 2>/dev/null || $IPT -I INPUT 1 -j ZFW-IN\n\n"
          ∷ [])
unfolding emit_host_chain zfw_in_rules
emit_host_chain-lines std rs rl docker_ports extra =
    simp (write_lines-append, write_rules-lines, in_default_lines, append_assoc)

docker_fixed_lines :
    write_lines (lit "  $IPT -A DOCKER-USER ") (
      lit "-m conntrack --ctstate ESTABLISHED,RELATED -j RETURN"
      ∷ lit "-s 127.0.0.0/8 -j RETURN"
      ∷ [])
    ≡ lit "  $IPT -A DOCKER-USER -m conntrack --ctstate ESTABLISHED,RELATED -j RETURN\n"
      ++ lit "  $IPT -A DOCKER-USER -s 127.0.0.0/8 -j RETURN\n"
unfolding write_lines lit
docker_fixed_lines = refl

docker_vpn_lines :
    write_lines
      (lit "  $IPT -A DOCKER-USER ")
      (lit "-i tailscale0 -j RETURN" ∷ lit "-i zt+ -j RETURN" ∷ lit "-i wg+ -j RETURN" ∷ [])
    ≡ lit "  $IPT -A DOCKER-USER -i tailscale0 -j RETURN\n"
      ++ (lit "  $IPT -A DOCKER-USER -i zt+ -j RETURN\n"
          ++ lit "  $IPT -A DOCKER-USER -i wg+ -j RETURN\n")
unfolding write_lines lit
docker_vpn_lines = refl

docker_end_lines :
    write_lines (lit "  $IPT -A DOCKER-USER ") (lit "-j RETURN" ∷ [])
    ≡ lit "  $IPT -A DOCKER-USER -j RETURN\n"
unfolding write_lines lit
docker_end_lines = refl

docker_host_ip_lines :
    (ip : Text)
    → write_lines (lit "  $IPT -A DOCKER-USER ") (host_ip_lines ip) ≡ (
        if not (is_empty ip)
        then cat (lit "  $IPT -A DOCKER-USER -s " ∷ ip ∷ lit " -j RETURN\n" ∷ [])
        else [])
unfolding write_lines lit
docker_host_ip_lines [] = refl
docker_host_ip_lines (c ∷ ip) = simp append_assoc

docker_extra_lines :
    (extra : List Text)
    → write_lines (lit "  $IPT -A DOCKER-USER ") (map return_iface extra)
      ≡ flat_map (write_iface (lit "  $IPT -A DOCKER-USER -i ") (lit " -j RETURN\n")) extra
unfolding write_lines lit write_iface
docker_extra_lines [] = refl
docker_extra_lines (i ∷ extra) = simp (append_assoc, docker_extra_lines extra)

docker_lan_lines :
    (rs : RuleSet)
    → write_lines (lit "  $IPT -A DOCKER-USER ") (lan_lines rs) ≡ (
        if rs.default_policy == lit "deny" && not (is_empty rs.lan)
        then cat (
            lit "  $IPT -A DOCKER-USER -s "
            ∷ rs.lan
            ∷ lit
                " -m conntrack --ctstate NEW -j LOG --log-prefix \"ZFW-DOCK-DROP \" --log-level 6\n"
            ∷ lit "  $IPT -A DOCKER-USER -s "
            ∷ rs.lan
            ∷ lit " -j DROP\n"
            ∷ [])
        else [])
unfolding write_lines lit
docker_lan_lines rs = elim (Bool-cases (rs.default_policy == lit "deny" && not (is_empty rs.lan))) [
  | inl e ↦ rw e (simp append_assoc)
  | inr e ↦ rw e
]

ruleset docker_laws = (
  write_lines-append, write_rules-lines, docker_fixed_lines, docker_vpn_lines, docker_end_lines,
  docker_host_ip_lines, docker_extra_lines, docker_lan_lines, append_assoc,
)

pub emit_docker_chain-lines :
    (std : Std) (rs : RuleSet) (rl : List Rule) (docker_ports : ℤ → Bool) (extra : List Text)
    → emit_docker_chain std rs rl docker_ports extra
      ≡ cat (
          lit "# ===== DOCKER-USER (published container ports) =====\n"
          ∷ lit "if $IPT -L DOCKER-USER -n >/dev/null 2>&1; then\n"
          ∷ lit "  $IPT -F DOCKER-USER\n"
          ∷ write_lines
              (lit "  $IPT -A DOCKER-USER ")
              (docker_user_rules std rs rl docker_ports extra)
          ∷ lit "fi\n\n"
          ∷ [])
unfolding emit_docker_chain docker_user_rules
emit_docker_chain-lines std rs rl docker_ports extra = simp docker_laws
