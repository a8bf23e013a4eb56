-- ===== src/Compiler/Agreement/Whole.antt =====
-- `Compile` of internal/compiler/compiler.go as a whole, by the chains of compiler_restore.go.
use zfw_dark.Common.{Bool, List, [], ◌∷◌, ◌≡◌, append_assoc, cat, if◌then◌else◌}
use zfw_dark.Common.Int.{ℤ}
use zfw_dark.Common.Text.{Text, Std, lit}
use zfw_dark.Compiler.Agreement.{emit_host_chain-lines, emit_docker_chain-lines}
use zfw_dark.Compiler.Agreement.Outbound.{emit_host_out-lines, emit_docker_out-lines}
use zfw_dark.Compiler.Agreement.V6.{emit_v6_chain-lines}
use zfw_dark.Compiler.Chains.{
  zfw_in_rules, docker_user_rules, zfw_in6_rules, zfw_out_rules, zfw_out6_rules, zfw_fwd_out_rules,
}
use zfw_dark.Compiler.Outbound.{outbound_zones}
use zfw_dark.Compiler.Script.{
  write_lines, emit_header, emit_geo_sets, emit_outbound_chains, compile,
}
use zfw_dark.Compiler.Sort.{TextMap, sort_rules}
use zfw_dark.Rules.Model.{RuleSet}

-- The text that fills one chain: what makes it ready, a line for each rule, what hooks it in.
abbrev pub host_block : List Text → Text
host_block lines = cat (
    lit "# ===== ZFW-IN (host-native services) =====\n"
    ∷ lit "$IPT -N ZFW-IN 2>/dev/null || true\n"
    ∷ lit "$IPT -F ZFW-IN\n"
    ∷ write_lines (lit "$IPT -A ZFW-IN ") lines
    ∷ lit "$IPT -C INPUT -j ZFW-IN 2>/dev/null || $IPT -I INPUT 1 -j ZFW-IN\n\n"
    ∷ [])

abbrev pub docker_block : List Text → Text
docker_block lines = cat (
    lit "# ===== DOCKER-USER (published container ports) =====\n"
    ∷ lit "if $IPT -L DOCKER-USER -n >/dev/null 2>&1; then\n"
    ∷ lit "  $IPT -F DOCKER-USER\n"
    ∷ write_lines (lit "  $IPT -A DOCKER-USER ") lines
    ∷ lit "fi\n\n"
    ∷ [])

abbrev pub v6_block : List Text → Text
v6_block lines = cat (
    lit "# ===== ZFW-IN6 (IPv6 INPUT — always emitted from v0.2.15) =====\n"
    ∷ lit "if [ -n \"$IPT6\" ]; then\n"
    ∷ lit "  $IPT6 -N ZFW-IN6 2>/dev/null || true\n"
    ∷ lit "  $IPT6 -F ZFW-IN6\n"
    ∷ write_lines (lit "  $IPT6 -A ZFW-IN6 ") lines
    ∷ lit "  $IPT6 -C INPUT -j ZFW-IN6 2>/dev/null || $IPT6 -I INPUT 1 -j ZFW-IN6\n"
    ∷ lit "fi\n"
    ∷ [])

abbrev pub host_out_block : List Text → List Text → Text
host_out_block lines lines6 = cat (
    lit "\n# ===== ZFW-OUT (host-initiated outbound, OUTPUT chain) =====\n"
    ∷ lit "$IPT -N ZFW-OUT 2>/dev/null || true\n"
    ∷ lit "$IPT -F ZFW-OUT\n"
    ∷ write_lines (lit "$IPT -A ZFW-OUT ") lines
    ∷ lit "$IPT -C OUTPUT -j ZFW-OUT 2>/dev/null || $IPT -I OUTPUT 1 -j ZFW-OUT\n"
    ∷ lit "if [ -n \"$IPT6\" ]; then\n"
    ∷ lit "  $IPT6 -N ZFW-OUT6 2>/dev/null || true\n"
    ∷ lit "  $IPT6 -F ZFW-OUT6\n"
    ∷ write_lines (lit "  $IPT6 -A ZFW-OUT6 ") lines6
    ∷ lit "  $IPT6 -C OUTPUT -j ZFW-OUT6 2>/dev/null || $IPT6 -I OUTPUT 1 -j ZFW-OUT6\n"
    ∷ lit "fi\n"
    ∷ [])

abbrev pub docker_out_block : List Text → Text
docker_out_block lines = cat (
    lit "\n# ===== ZFW-FWD-OUT (container-initiated outbound, FORWARD chain) =====\n"
    ∷ lit "$IPT -N ZFW-FWD-OUT 2>/dev/null || true\n"
    ∷ lit "$IPT -F ZFW-FWD-OUT\n"
    ∷ write_lines (lit "$IPT -A ZFW-FWD-OUT ") lines
    ∷ lit "$IPT -C FORWARD -j ZFW-FWD-OUT 2>/dev/null || $IPT -I FORWARD 1 -j ZFW-FWD-OUT\n"
    ∷ [])

-- The script is the header, the country sets, and a block for each chain, whose rule lines are those
-- of the documents for the atomic swap, in the same order; the outbound blocks stand where a rule
-- calls for them.
pub compile-chains :
    (std : Std) (rs : RuleSet) (docker_ports : ℤ → Bool) (geo_files : TextMap) (extra : List Text)
    → compile std rs docker_ports geo_files extra
      ≡ cat (
          emit_header
          ∷ emit_geo_sets std geo_files
          ∷ host_block (zfw_in_rules std rs (sort_rules rs.rules) docker_ports extra)
          ∷ docker_block (docker_user_rules std rs (sort_rules rs.rules) docker_ports extra)
          ∷ v6_block (zfw_in6_rules std rs (sort_rules rs.rules) docker_ports extra)
          ∷ (if (outbound_zones (sort_rules rs.rules)).0
              then host_out_block
                  (zfw_out_rules std (sort_rules rs.rules))
                  (zfw_out6_rules std (sort_rules rs.rules))
              else [])
          ∷ (if (outbound_zones (sort_rules rs.rules)).1
              then docker_out_block (zfw_fwd_out_rules std (sort_rules rs.rules))
              else [])
          ∷ [])
unfolding compile emit_outbound_chains
compile-chains std rs docker_ports geo_files extra =
    rw
      (
        emit_host_chain-lines std rs (sort_rules rs.rules) docker_ports extra,
        emit_docker_chain-lines std rs (sort_rules rs.rules) docker_ports extra,
        emit_v6_chain-lines std rs (sort_rules rs.rules) docker_ports extra,
        emit_host_out-lines std (sort_rules rs.rules),
        emit_docker_out-lines std (sort_rules rs.rules),
      )
      (simp append_assoc)
