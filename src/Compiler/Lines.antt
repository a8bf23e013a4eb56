-- ===== src/Compiler/Lines.antt =====
-- The inbound lines of one rule: `hostLines`, `dockerLines` and `hostLines6` of
-- internal/compiler/compiler.go. A line is what follows "-A <chain> ".
pub mod Family
use zfw_dark.Common.{Bool, List, [], ◌∷◌, Option, none, some}
use zfw_dark.Common.{flat_map, if◌then◌else◌}
use zfw_dark.Common.Int.{ℤ}
use zfw_dark.Common.Text.{Text, Std, lit, ◌==◌, itoa}
use zfw_dark.Compiler.Args.{
  PortSpec, is_range, join_args, span, port_args, proto_list, is_ipv6_source, source6_arg,
  source_args, schedule_arg, wrap_emit,
}
use zfw_dark.Compiler.Zones.{host, docker, ports_for_zone}
use zfw_dark.Rules.Model.{Rule, is_outbound}

-- `allow` or `"DROP"`.
unfoldable pub target_of : Rule → Text → Text
target_of r allow = if r.action == lit "deny" then lit "DROP" else allow

-- `ps, ok := …; if !ok { return nil }`.
abbrev pub with_spec : (PortSpec → List Text) → Option PortSpec → List Text
with_spec f none = []
with_spec f (some ps) = f ps

module _ (std : Std) where
  -- The lines that match a source on every port.
  unfoldable pub all_port_lines : Rule → Text → Text → Text → List Text
  all_port_lines r sch target src =
      if r.protocol == lit "both"
      then wrap_emit std (join_args (src ∷ sch ∷ [])) r target
      else wrap_emit std (join_args (src ∷ lit "-p" ∷ r.protocol ∷ sch ∷ [])) r target

  -- The lines that match a source on the destination ports of a spec.
  unfoldable pub dport_lines : Rule → PortSpec → Text → Text → Text → List Text
  dport_lines r ps sch target src =
      flat_map
        (λ proto.
          flat_map
            (λ pa. wrap_emit std (join_args (src ∷ lit "-p" ∷ proto ∷ pa ∷ sch ∷ [])) r target)
            (port_args ps))
        (proto_list r.protocol)

  unfoldable pub ct_lines : Rule → Text → Text → Text → Text → Text → List Text
  ct_lines r sch target src proto port =
      wrap_emit std
        (join_args (
          src
          ∷ lit "-p"
          ∷ proto
          ∷ lit "-m"
          ∷ lit "conntrack"
          ∷ lit "--ctorigdstport"
          ∷ port
          ∷ sch
          ∷ []))
        r target

  -- The lines that match a source on the ports before Docker's translation.
  unfoldable pub origin_port_lines : Rule → PortSpec → Text → Text → Text → List Text
  unfolding ct_lines
  origin_port_lines r ps sch target src =
      flat_map
        (λ proto.
          if is_range ps
          then ct_lines r sch target src proto (span ps.from ps.to)
          else flat_map (λ p. ct_lines r sch target src proto (itoa p)) ps.list)
        (proto_list r.protocol)

  unfoldable pub host_spec_lines : Rule → PortSpec → List Text
  unfolding all_port_lines dport_lines
  host_spec_lines r ps =
      let target = target_of r (lit "ACCEPT") in
      let sch = schedule_arg std r.schedule in
      flat_map
        (λ src. if ps.all then all_port_lines r sch target src else dport_lines r ps sch target src)
        (source_args std r.source)

  unfoldable pub docker_spec_lines : Rule → PortSpec → List Text
  unfolding all_port_lines origin_port_lines
  docker_spec_lines r ps =
      let target = target_of r (lit "RETURN") in
      let sch = schedule_arg std r.schedule in
      flat_map
        (λ src.
          if ps.all then all_port_lines r sch target src else origin_port_lines r ps sch target src)
        (source_args std r.source)

  unfoldable pub host_spec_lines6 : Rule → PortSpec → Option Text → List Text
  unfolding all_port_lines dport_lines
  host_spec_lines6 r ps none = []
  host_spec_lines6 r ps (some src) =
      let target = target_of r (lit "RETURN") in
      let sch = schedule_arg std r.schedule in
      if ps.all then all_port_lines r sch target src else dport_lines r ps sch target src

  unfoldable pub host_lines : Rule → (ℤ → Bool) → List Text
  unfolding host_spec_lines
  host_lines r docker_ports =
      if is_outbound r
      then []
      else if is_ipv6_source r.source
      then []
      else with_spec (host_spec_lines r) (ports_for_zone r docker_ports host)

  unfoldable pub docker_lines : Rule → (ℤ → Bool) → List Text
  unfolding docker_spec_lines
  docker_lines r docker_ports =
      if is_outbound r
      then []
      else if is_ipv6_source r.source
      then []
      else with_spec (docker_spec_lines r) (ports_for_zone r docker_ports docker)

  unfoldable pub host_lines6 : Rule → (ℤ → Bool) → List Text
  unfolding host_spec_lines6
  host_lines6 r docker_ports =
      if is_outbound r
      then []
      else with_spec (λ ps. host_spec_lines6 r ps (source6_arg r.source))
          (ports_for_zone r docker_ports host)
