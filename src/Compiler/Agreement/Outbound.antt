-- ===== src/Compiler/Agreement/Outbound.antt =====
-- `emitHostOut` and `emitDockerOut` of internal/compiler/compiler.go and the lines of their chains in
-- compiler_restore.go.
use zfw_dark.Common.{List, [], ◌∷◌, ◌++◌, ◌≡◌, refl}
use zfw_dark.Common.{append_assoc, cat}
use zfw_dark.Common.Text.{Std, lit}
use zfw_dark.Compiler.Agreement.{write_lines-append, write_rules-lines}
use zfw_dark.Compiler.Chains.{zfw_out_rules, zfw_out6_rules, zfw_fwd_out_rules}
use zfw_dark.Compiler.Script.{write_lines, emit_host_out, emit_docker_out}
use zfw_dark.Rules.Model.{Rule}

out_fixed_lines :
    write_lines
      (lit "$IPT -A ZFW-OUT ")
      (lit "-m conntrack --ctstate ESTABLISHED,RELATED -j ACCEPT" ∷ lit "-o lo -j ACCEPT" ∷ [])
    ≡ lit "$IPT -A ZFW-OUT -m conntrack --ctstate ESTABLISHED,RELATED -j ACCEPT\n"
      ++ lit "$IPT -A ZFW-OUT -o lo -j ACCEPT\n"
unfolding write_lines lit
out_fixed_lines = refl

out_end_lines :
    write_lines (lit "$IPT -A ZFW-OUT ") (lit "-j RETURN" ∷ []) ≡ lit "$IPT -A ZFW-OUT -j RETURN\n"
unfolding write_lines lit
out_end_lines = refl

out6_fixed_lines :
    write_lines
      (lit "  $IPT6 -A ZFW-OUT6 ")
      (lit "-m conntrack --ctstate ESTABLISHED,RELATED -j RETURN" ∷ lit "-o lo -j RETURN" ∷ [])
    ≡ lit "  $IPT6 -A ZFW-OUT6 -m conntrack --ctstate ESTABLISHED,RELATED -j RETURN\n"
      ++ lit "  $IPT6 -A ZFW-OUT6 -o lo -j RETURN\n"
unfolding write_lines lit
out6_fixed_lines = refl

out6_end_lines :
    write_lines (lit "  $IPT6 -A ZFW-OUT6 ") (lit "-j RETURN" ∷ [])
    ≡ lit "  $IPT6 -A ZFW-OUT6 -j RETURN\n"
unfolding write_lines lit
out6_end_lines = refl

fwd_fixed_lines :
    write_lines
      (lit "$IPT -A ZFW-FWD-OUT ")
      (lit "-m conntrack --ctstate ESTABLISHED,RELATED -j RETURN" ∷ [])
    ≡ lit "$IPT -A ZFW-FWD-OUT -m conntrack --ctstate ESTABLISHED,RELATED -j RETURN\n"
unfolding write_lines lit
fwd_fixed_lines = refl

fwd_end_lines :
    write_lines (lit "$IPT -A ZFW-FWD-OUT ") (lit "-j RETURN" ∷ [])
    ≡ lit "$IPT -A ZFW-FWD-OUT -j RETURN\n"
unfolding write_lines lit
fwd_end_lines = refl

ruleset out_laws = (
  write_lines-append, write_rules-lines, out_fixed_lines, out_end_lines, out6_fixed_lines,
  out6_end_lines, fwd_fixed_lines, fwd_end_lines, append_assoc,
)

pub emit_host_out-lines :
    (std : Std) (rl : List Rule)
    → emit_host_out std rl
      ≡ cat (
          lit "\n# ===== ZFW-OUT (host-initiated outbound, OUTPUT chain) =====\n"
          ∷ lit "$IPT -N ZFW-OUT 2>/dev/null || true\n"
          ∷ lit "$IPT -F ZFW-OUT\n"
          ∷ write_lines (lit "$IPT -A ZFW-OUT ") (zfw_out_rules std rl)
          ∷ lit "$IPT -C OUTPUT -j ZFW-OUT 2>/dev/null || $IPT -I OUTPUT 1 -j ZFW-OUT\n"
          ∷ lit "if [ -n \"$IPT6\" ]; then\n"
          ∷ lit "  $IPT6 -N ZFW-OUT6 2>/dev/null || true\n"
          ∷ lit "  $IPT6 -F ZFW-OUT6\n"
          ∷ write_lines (lit "  $IPT6 -A ZFW-OUT6 ") (zfw_out6_rules std rl)
          ∷ lit "  $IPT6 -C OUTPUT -j ZFW-OUT6 2>/dev/null || $IPT6 -I OUTPUT 1 -j ZFW-OUT6\n"
          ∷ lit "fi\n"
          ∷ [])
unfolding emit_host_out zfw_out_rules zfw_out6_rules
emit_host_out-lines std rl = simp out_laws

pub emit_docker_out-lines :
    (std : Std) (rl : List Rule)
    → emit_docker_out std rl
      ≡ cat (
          lit "\n# ===== ZFW-FWD-OUT (container-initiated outbound, FORWARD chain) =====\n"
          ∷ lit "$IPT -N ZFW-FWD-OUT 2>/dev/null || true\n"
          ∷ lit "$IPT -F ZFW-FWD-OUT\n"
          ∷ write_lines (lit "$IPT -A ZFW-FWD-OUT ") (zfw_fwd_out_rules std rl)
          ∷ lit "$IPT -C FORWARD -j ZFW-FWD-OUT 2>/dev/null || $IPT -I FORWARD 1 -j ZFW-FWD-OUT\n"
          ∷ [])
unfolding emit_docker_out zfw_fwd_out_rules
emit_docker_out-lines std rl = simp out_laws
