-- ===== src/Compiler/Chains.antt =====
-- internal/compiler/compiler_restore.go: the lines of each chain, `zfwInRules` to `zfwFwdOutRules`.
use zfw_dark.Common.{Bool, not, ◌&&◌, List, [], ◌∷◌, ◌++◌, map}
use zfw_dark.Common.{cat, if◌then◌else◌}
use zfw_dark.Common.Int.{ℤ}
use zfw_dark.Common.Text.{Text, Std, lit, ◌==◌, is_empty, itoa}
use zfw_dark.Compiler.Args.{is_ipv6_source}
use zfw_dark.Compiler.Lines.{host_lines, docker_lines, host_lines6}
use zfw_dark.Compiler.Outbound.{
  outbound_lines, outbound_lines6, goes_out, from_host, from_docker, lines_where,
}
use zfw_dark.Rules.Model.{Rule, RuleSet, v6_ports}

abbrev pub in_fixed : List Text
in_fixed =
    lit "-m conntrack --ctstate ESTABLISHED,RELATED -j ACCEPT"
    ∷ lit "-m conntrack --ctstate INVALID -j DROP"
    ∷ lit "-i lo -j ACCEPT"
    ∷ lit "-i docker0 -j ACCEPT"
    ∷ lit "-i br-+ -j ACCEPT"
    ∷ lit "-i virbr0 -j ACCEPT"
    ∷ lit "-i tailscale0 -j ACCEPT"
    ∷ lit "-i zt+ -j ACCEPT"
    ∷ lit "-i wg+ -j ACCEPT"
    ∷ lit "-p icmp -j ACCEPT"
    ∷ lit "-p udp --dport 68 -j ACCEPT"
    ∷ lit "-p udp --dport 41641 -j ACCEPT"
    ∷ lit "-p udp --dport 9993 -j ACCEPT"
    ∷ []

abbrev pub accept_iface : Text → Text
accept_iface iface = cat (lit "-i " ∷ iface ∷ lit " -j ACCEPT" ∷ [])

abbrev pub return_iface : Text → Text
return_iface iface = cat (lit "-i " ∷ iface ∷ lit " -j RETURN" ∷ [])

abbrev pub in_default : Text → List Text
in_default policy =
    if policy == lit "allow"
    then lit "-j RETURN" ∷ []
    else lit "-m conntrack --ctstate NEW -j LOG --log-prefix \"ZFW-IN-DROP \" --log-level 6"
      ∷ lit "-j DROP"
      ∷ []

abbrev pub in6_fixed : List Text
in6_fixed =
    lit "-m conntrack --ctstate ESTABLISHED,RELATED -j RETURN"
    ∷ lit "-m conntrack --ctstate INVALID -j DROP"
    ∷ lit "-i lo -j RETURN"
    ∷ lit "-i docker0 -j RETURN"
    ∷ lit "-i br-+ -j RETURN"
    ∷ lit "-i virbr0 -j RETURN"
    ∷ lit "-i tailscale0 -j RETURN"
    ∷ lit "-i zt+ -j RETURN"
    ∷ lit "-i wg+ -j RETURN"
    ∷ []

abbrev pub in6_protocols : List Text
in6_protocols =
    lit "-p ipv6-icmp -j RETURN"
    ∷ lit "-p udp --dport 546 -j RETURN"
    ∷ lit "-s fe80::/10 -j RETURN"
    ∷ lit "-s ff00::/8 -j RETURN"
    ∷ []

abbrev pub v6_drop_line : ℤ → Text
v6_drop_line p = cat (lit "-p tcp --dport " ∷ itoa p ∷ lit " -j DROP" ∷ [])

abbrev pub in6_default : Text → List Text
in6_default policy =
    if policy == lit "allow"
    then lit "-j RETURN" ∷ []
    else lit "-m conntrack --ctstate NEW -j LOG --log-prefix \"ZFW-IN6-DROP \" --log-level 6"
      ∷ lit "-j DROP"
      ∷ []

abbrev pub host_ip_lines : Text → List Text
host_ip_lines ip =
    if not (is_empty ip) then cat (lit "-s " ∷ ip ∷ lit " -j RETURN" ∷ []) ∷ [] else []

abbrev pub lan_lines : RuleSet → List Text
lan_lines rs =
    if rs.default_policy == lit "deny" && not (is_empty rs.lan)
    then cat (
        lit "-s "
        ∷ rs.lan
        ∷ lit " -m conntrack --ctstate NEW -j LOG --log-prefix \"ZFW-DOCK-DROP \" --log-level 6"
        ∷ [])
      ∷ cat (lit "-s " ∷ rs.lan ∷ lit " -j DROP" ∷ [])
      ∷ []
    else []

abbrev pub return_line : List Text
return_line = lit "-j RETURN" ∷ []

abbrev pub docker_fixed : List Text
docker_fixed =
    lit "-m conntrack --ctstate ESTABLISHED,RELATED -j RETURN" ∷ lit "-s 127.0.0.0/8 -j RETURN" ∷ []

abbrev pub docker_vpn : List Text
docker_vpn = lit "-i tailscale0 -j RETURN" ∷ lit "-i zt+ -j RETURN" ∷ lit "-i wg+ -j RETURN" ∷ []

abbrev pub out_fixed : List Text
out_fixed = lit "-m conntrack --ctstate ESTABLISHED,RELATED -j ACCEPT" ∷ lit "-o lo -j ACCEPT" ∷ []

abbrev pub out6_fixed : List Text
out6_fixed = lit "-m conntrack --ctstate ESTABLISHED,RELATED -j RETURN" ∷ lit "-o lo -j RETURN" ∷ []

abbrev pub fwd_fixed : List Text
fwd_fixed = lit "-m conntrack --ctstate ESTABLISHED,RELATED -j RETURN" ∷ []

module _ (std : Std) where
  unfoldable pub zfw_in_rules : RuleSet → List Rule → (ℤ → Bool) → List Text → List Text
  zfw_in_rules rs rl docker_ports extra =
      in_fixed
      ++ (map accept_iface extra
          ++ (lines_where (λ r. r.enabled) (λ r. host_lines std r docker_ports) rl
              ++ in_default rs.default_policy))

  unfoldable pub docker_user_rules : RuleSet → List Rule → (ℤ → Bool) → List Text → List Text
  docker_user_rules rs rl docker_ports extra =
      docker_fixed
      ++ (host_ip_lines rs.host_ip
          ++ (docker_vpn
              ++ (map return_iface extra
                  ++ (lines_where (λ r. r.enabled) (λ r. docker_lines std r docker_ports) rl
                      ++ (lan_lines rs ++ return_line)))))

  unfoldable pub zfw_in6_rules : RuleSet → List Rule → (ℤ → Bool) → List Text → List Text
  zfw_in6_rules rs rl docker_ports extra =
      in6_fixed
      ++ (map return_iface extra
          ++ (in6_protocols
              ++ (lines_where (λ r. r.enabled) (λ r. host_lines6 std r docker_ports) rl
                  ++ (map v6_drop_line (v6_ports rs) ++ in6_default rs.default_policy))))

  unfoldable pub zfw_out_rules : List Rule → List Text
  zfw_out_rules rl =
      out_fixed
      ++ (lines_where (λ r. goes_out r && from_host r && not (is_ipv6_source r.source))
            (outbound_lines std) rl
          ++ return_line)

  unfoldable pub zfw_out6_rules : List Rule → List Text
  zfw_out6_rules rl =
      out6_fixed
      ++ (lines_where (λ r. goes_out r && from_host r) (outbound_lines6 std) rl ++ return_line)

  unfoldable pub zfw_fwd_out_rules : List Rule → List Text
  zfw_fwd_out_rules rl =
      fwd_fixed
      ++ (lines_where (λ r. goes_out r && from_docker r && not (is_ipv6_source r.source))
            (outbound_lines std) rl
          ++ return_line)
