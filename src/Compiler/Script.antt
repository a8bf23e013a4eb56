-- ===== src/Compiler/Script.antt =====
-- internal/compiler/compiler.go: `Compile` and what it calls. Each `emit…` is the text that the
-- function appends to its builder.
use zfw_dark.Common.{Bool, not, ◌&&◌, List, [], ◌∷◌, ◌++◌, map}
use zfw_dark.Common.{cat, flat_map, nat_eq, length, if◌then◌else◌}
use zfw_dark.Common.Int.{ℤ}
use zfw_dark.Common.Text.{Text, Std, lit, ◌==◌, is_empty, itoa, quote}
use zfw_dark.Compiler.Args.{is_ipv6_source}
use zfw_dark.Compiler.Lines.{host_lines, docker_lines, host_lines6}
use zfw_dark.Compiler.Outbound.{
  outbound_lines, outbound_lines6, goes_out, from_host, from_docker, outbound_zones,
}
use zfw_dark.Compiler.Sort.{TextMap, sort_rules, sort_texts, keys, at_key}
use zfw_dark.Rules.Model.{Rule, RuleSet, v6_ports}

-- `fmt.Fprintf(b, "<front>%s\n", line)` for each line.
unfoldable pub write_lines : Text → List Text → Text
write_lines front = flat_map (λ line. cat (front ∷ line ∷ lit "\n" ∷ []))

-- The same for the lines of each rule that a loop does not skip.
unfoldable pub write_rules : (Rule → Bool) → Text → (Rule → List Text) → List Rule → Text
write_rules test front f = flat_map (λ r. if test r then write_lines front (f r) else [])

unfoldable pub emit_header : Text
emit_header = cat (
    lit "#!/bin/bash\n"
    ∷ lit "# Generated by zfwd — DO NOT EDIT. Source of truth: rules.json\n"
    ∷ lit "set -eu\n"
    ∷ lit "IPT=\"$(command -v iptables-legacy 2>/dev/null || command -v iptables)\"\n"
    ∷ lit
        "IPT6=\"$(command -v ip6tables-legacy 2>/dev/null || command -v ip6tables 2>/dev/null || true)\"\n"
    ∷ lit "modprobe xt_LOG nf_log_syslog xt_recent xt_time 2>/dev/null || true\n\n"
    ∷ [])

-- `hostBypass`, without the extra interfaces.
abbrev pub host_bypass : List Text
host_bypass =
    lit "-m conntrack --ctstate ESTABLISHED,RELATED -j ACCEPT"
    ∷ lit "-m conntrack --ctstate INVALID -j DROP"
    ∷ lit "-i lo -j ACCEPT"
    ∷ lit "-i docker0 -j ACCEPT"
    ∷ lit "-i br-+ -j ACCEPT"
    ∷ lit "-i virbr0 -j ACCEPT"
    ∷ lit "-i tailscale0 -j ACCEPT"
    ∷ lit "-i zt+ -j ACCEPT"
    ∷ lit "-i wg+ -j ACCEPT"
    ∷ lit "-p icmp -j ACCEPT"
    ∷ lit "-p udp --dport 68 -j ACCEPT"
    ∷ lit "-p udp --dport 41641 -j ACCEPT"
    ∷ lit "-p udp --dport 9993 -j ACCEPT"
    ∷ []

unfoldable pub write_iface : Text → Text → Text → Text
write_iface front back iface = cat (front ∷ iface ∷ back ∷ [])

unfoldable pub emit_v6_drop : List ℤ → Text
emit_v6_drop =
    flat_map (λ p. cat (lit "  $IPT6 -A ZFW-IN6 -p tcp --dport " ∷ itoa p ∷ lit " -j DROP\n" ∷ []))

unfoldable pub geo_line : Std → TextMap → Text → Text
geo_line std files cc =
    let f = quote std (at_key cc files) in
    cat (lit "[ -r " ∷ f ∷ lit " ] && ipset restore -exist -f " ∷ f ∷ lit "\n" ∷ [])

module _ (std : Std) where
  unfoldable pub emit_geo_sets : TextMap → Text
  unfolding geo_line
  emit_geo_sets files =
      if nat_eq (length files) 0
      then []
      else cat (
          lit "# ===== geo country sets (ipset) =====\n"
          ∷ lit "modprobe ip_set ip_set_hash_net xt_set 2>/dev/null || true\n"
          ∷ flat_map (geo_line std files) (sort_texts (keys files))
          ∷ lit "\n"
          ∷ [])

  unfoldable pub emit_host_chain : RuleSet → List Rule → (ℤ → Bool) → List Text → Text
  emit_host_chain rs rl docker_ports extra = cat (
      lit "# ===== ZFW-IN (host-native services) =====\n"
      ∷ lit "$IPT -N ZFW-IN 2>/dev/null || true\n"
      ∷ lit "$IPT -F ZFW-IN\n"
      ∷ write_lines (lit "$IPT -A ZFW-IN ")
          (host_bypass ++ map (λ iface. cat (lit "-i " ∷ iface ∷ lit " -j ACCEPT" ∷ [])) extra)
      ∷ write_rules (λ r. r.enabled) (lit "$IPT -A ZFW-IN ") (λ r. host_lines std r docker_ports) rl
      ∷ (if rs.default_policy == lit "allow"
          then lit "$IPT -A ZFW-IN -j RETURN\n"
          else cat (
              lit
                "$IPT -A ZFW-IN -m conntrack --ctstate NEW -j LOG --log-prefix \"ZFW-IN-DROP \" --log-level 6\n"
              ∷ lit "$IPT -A ZFW-IN -j DROP\n"
              ∷ []))
      ∷ lit "$IPT -C INPUT -j ZFW-IN 2>/dev/null || $IPT -I INPUT 1 -j ZFW-IN\n\n"
      ∷ [])

  unfoldable pub emit_docker_chain : RuleSet → List Rule → (ℤ → Bool) → List Text → Text
  emit_docker_chain rs rl docker_ports extra = cat (
      lit "# ===== DOCKER-USER (published container ports) =====\n"
      ∷ lit "if $IPT -L DOCKER-USER -n >/dev/null 2>&1; then\n"
      ∷ lit "  $IPT -F DOCKER-USER\n"
      ∷ lit "  $IPT -A DOCKER-USER -m conntrack --ctstate ESTABLISHED,RELATED -j RETURN\n"
      ∷ lit "  $IPT -A DOCKER-USER -s 127.0.0.0/8 -j RETURN\n"
      ∷ (if not (is_empty rs.host_ip)
          then cat (lit "  $IPT -A DOCKER-USER -s " ∷ rs.host_ip ∷ lit " -j RETURN\n" ∷ [])
          else [])
      ∷ lit "  $IPT -A DOCKER-USER -i tailscale0 -j RETURN\n"
      ∷ lit "  $IPT -A DOCKER-USER -i zt+ -j RETURN\n"
      ∷ lit "  $IPT -A DOCKER-USER -i wg+ -j RETURN\n"
      ∷ flat_map (write_iface (lit "  $IPT -A DOCKER-USER -i ") (lit " -j RETURN\n")) extra
      ∷ write_rules (λ r. r.enabled) (lit "  $IPT -A DOCKER-USER ")
          (λ r. docker_lines std r docker_ports) rl
      ∷ (if rs.default_policy == lit "deny" && not (is_empty rs.lan)
          then cat (
              lit "  $IPT -A DOCKER-USER -s "
              ∷ rs.lan
              ∷ lit
                  " -m conntrack --ctstate NEW -j LOG --log-prefix \"ZFW-DOCK-DROP \" --log-level 6\n"
              ∷ lit "  $IPT -A DOCKER-USER -s "
              ∷ rs.lan
              ∷ lit " -j DROP\n"
              ∷ [])
          else [])
      ∷ lit "  $IPT -A DOCKER-USER -j RETURN\n"
      ∷ lit "fi\n\n"
      ∷ [])

  unfoldable pub emit_v6_chain : RuleSet → List Rule → (ℤ → Bool) → List Text → Text
  emit_v6_chain rs rl docker_ports extra = cat (
      lit "# ===== ZFW-IN6 (IPv6 INPUT — always emitted from v0.2.15) =====\n"
      ∷ lit "if [ -n \"$IPT6\" ]; then\n"
      ∷ lit "  $IPT6 -N ZFW-IN6 2>/dev/null || true\n"
      ∷ lit "  $IPT6 -F ZFW-IN6\n"
      ∷ lit "  $IPT6 -A ZFW-IN6 -m conntrack --ctstate ESTABLISHED,RELATED -j RETURN\n"
      ∷ lit "  $IPT6 -A ZFW-IN6 -m conntrack --ctstate INVALID -j DROP\n"
      ∷ lit "  $IPT6 -A ZFW-IN6 -i lo -j RETURN\n"
      ∷ lit "  $IPT6 -A ZFW-IN6 -i docker0 -j RETURN\n"
      ∷ lit "  $IPT6 -A ZFW-IN6 -i br-+ -j RETURN\n"
      ∷ lit "  $IPT6 -A ZFW-IN6 -i virbr0 -j RETURN\n"
      ∷ lit "  $IPT6 -A ZFW-IN6 -i tailscale0 -j RETURN\n"
      ∷ lit "  $IPT6 -A ZFW-IN6 -i zt+ -j RETURN\n"
      ∷ lit "  $IPT6 -A ZFW-IN6 -i wg+ -j RETURN\n"
      ∷ flat_map (write_iface (lit "  $IPT6 -A ZFW-IN6 -i ") (lit " -j RETURN\n")) extra
      ∷ lit "  $IPT6 -A ZFW-IN6 -p ipv6-icmp -j RETURN\n"
      ∷ lit "  $IPT6 -A ZFW-IN6 -p udp --dport 546 -j RETURN\n"
      ∷ lit "  $IPT6 -A ZFW-IN6 -s fe80::/10 -j RETURN\n"
      ∷ lit "  $IPT6 -A ZFW-IN6 -s ff00::/8 -j RETURN\n"
      ∷ write_rules (λ r. r.enabled) (lit "  $IPT6 -A ZFW-IN6 ")
          (λ r. host_lines6 std r docker_ports) rl
      ∷ emit_v6_drop (v6_ports rs)
      ∷ (if rs.default_policy == lit "allow"
          then lit "  $IPT6 -A ZFW-IN6 -j RETURN\n"
          else cat (
              lit
                "  $IPT6 -A ZFW-IN6 -m conntrack --ctstate NEW -j LOG --log-prefix \"ZFW-IN6-DROP \" --log-level 6\n"
              ∷ lit "  $IPT6 -A ZFW-IN6 -j DROP\n"
              ∷ []))
      ∷ lit "  $IPT6 -C INPUT -j ZFW-IN6 2>/dev/null || $IPT6 -I INPUT 1 -j ZFW-IN6\n"
      ∷ lit "fi\n"
      ∷ [])

  unfoldable pub emit_host_out : List Rule → Text
  emit_host_out rl = cat (
      lit "\n# ===== ZFW-OUT (host-initiated outbound, OUTPUT chain) =====\n"
      ∷ lit "$IPT -N ZFW-OUT 2>/dev/null || true\n"
      ∷ lit "$IPT -F ZFW-OUT\n"
      ∷ lit "$IPT -A ZFW-OUT -m conntrack --ctstate ESTABLISHED,RELATED -j ACCEPT\n"
      ∷ lit "$IPT -A ZFW-OUT -o lo -j ACCEPT\n"
      ∷ write_rules (λ r. goes_out r && from_host r && not (is_ipv6_source r.source))
          (lit "$IPT -A ZFW-OUT ") (outbound_lines std) rl
      ∷ lit "$IPT -A ZFW-OUT -j RETURN\n"
      ∷ lit "$IPT -C OUTPUT -j ZFW-OUT 2>/dev/null || $IPT -I OUTPUT 1 -j ZFW-OUT\n"
      ∷ lit "if [ -n \"$IPT6\" ]; then\n"
      ∷ lit "  $IPT6 -N ZFW-OUT6 2>/dev/null || true\n"
      ∷ lit "  $IPT6 -F ZFW-OUT6\n"
      ∷ lit "  $IPT6 -A ZFW-OUT6 -m conntrack --ctstate ESTABLISHED,RELATED -j RETURN\n"
      ∷ lit "  $IPT6 -A ZFW-OUT6 -o lo -j RETURN\n"
      ∷ write_rules (λ r. goes_out r && from_host r) (lit "  $IPT6 -A ZFW-OUT6 ")
          (outbound_lines6 std) rl
      ∷ lit "  $IPT6 -A ZFW-OUT6 -j RETURN\n"
      ∷ lit "  $IPT6 -C OUTPUT -j ZFW-OUT6 2>/dev/null || $IPT6 -I OUTPUT 1 -j ZFW-OUT6\n"
      ∷ lit "fi\n"
      ∷ [])

  unfoldable pub emit_docker_out : List Rule → Text
  emit_docker_out rl = cat (
      lit "\n# ===== ZFW-FWD-OUT (container-initiated outbound, FORWARD chain) =====\n"
      ∷ lit "$IPT -N ZFW-FWD-OUT 2>/dev/null || true\n"
      ∷ lit "$IPT -F ZFW-FWD-OUT\n"
      ∷ lit "$IPT -A ZFW-FWD-OUT -m conntrack --ctstate ESTABLISHED,RELATED -j RETURN\n"
      ∷ write_rules (λ r. goes_out r && from_docker r && not (is_ipv6_source r.source))
          (lit "$IPT -A ZFW-FWD-OUT ") (outbound_lines std) rl
      ∷ lit "$IPT -A ZFW-FWD-OUT -j RETURN\n"
      ∷ lit "$IPT -C FORWARD -j ZFW-FWD-OUT 2>/dev/null || $IPT -I FORWARD 1 -j ZFW-FWD-OUT\n"
      ∷ [])

  unfoldable pub emit_outbound_chains : List Rule → Text
  unfolding emit_host_out emit_docker_out
  emit_outbound_chains rl =
      let (has_host_out, has_docker_out) = outbound_zones rl in
      (if has_host_out then emit_host_out rl else [])
      ++ (if has_docker_out then emit_docker_out rl else [])

  unfoldable pub compile : RuleSet → (ℤ → Bool) → TextMap → List Text → Text
  compile rs docker_ports geo_files extra =
      let rl = sort_rules rs.rules in
      cat (
        emit_header
        ∷ emit_geo_sets geo_files
        ∷ emit_host_chain rs rl docker_ports extra
        ∷ emit_docker_chain rs rl docker_ports extra
        ∷ emit_v6_chain rs rl docker_ports extra
        ∷ emit_outbound_chains rl
        ∷ [])
