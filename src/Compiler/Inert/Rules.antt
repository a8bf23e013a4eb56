-- ===== src/Compiler/Inert/Rules.antt =====
-- The bytes of `hostLines`, `dockerLines`, `hostLines6` of internal/compiler/compiler.go.
use zfw_dark.Common.{refl, Bool, List, [], ◌∷◌, Option, none, some}
use zfw_dark.Common.Int.{ℤ}
use zfw_dark.Common.Addresses.{ParsesAddresses}
use zfw_dark.Common.Text.{Text, Std, lit, ◌==◌, itoa}
use zfw_dark.Compiler.Args.{
  PortSpec, is_range, proto_list, source6_arg, schedule_arg, is_ipv6_source,
}
use zfw_dark.Compiler.Inert.Bytes.{
  Every, end, also, Every-if, is_inert, Inert, AllInert, lit-Inert, itoa-Inert,
}
use zfw_dark.Compiler.Inert.Sources.{flat_map-AllInert, source_args-AllInert, source6_arg-Inert}
use zfw_dark.Compiler.Inert.Fragments.{
  join_args-Inert, span-Inert, port_args-AllInert, protocol-Inert, proto_list-AllInert,
  schedule_arg-Inert, wrap_emit-AllInert,
}
use zfw_dark.Compiler.Lines.{
  target_of, all_port_lines, dport_lines, ct_lines, origin_port_lines, host_spec_lines,
  docker_spec_lines, host_spec_lines6, with_spec, host_lines, docker_lines, host_lines6,
}
use zfw_dark.Compiler.Zones.{ports_for_zone, host, docker}
use zfw_dark.Rules.Model.{Rule, is_outbound}
use zfw_dark.Compiler.Inert.Plain.{PlainRule}
use zfw_dark.Rules.Valid.Rule.{ForSome}

target_of-Inert : (r : Rule) {t : Text} → Inert t → Inert (target_of r t)
unfolding target_of lit is_inert
target_of-Inert r h = Every-if (r.action == lit "deny") (lit-Inert (lit "DROP") refl) h

module _ (std : Std) (laws : ParsesAddresses std) (r : Rule) (v : PlainRule std r) where
  pub protos-AllInert : AllInert (proto_list r.protocol)
  protos-AllInert = proto_list-AllInert (protocol-Inert v.protocol)

  all_port_lines-AllInert :
      {sch target src : Text}
      → Inert sch
      → Inert target
      → Inert src
      → AllInert (all_port_lines std r sch target src)
  unfolding all_port_lines lit is_inert
  all_port_lines-AllInert hs ht h =
      Every-if (r.protocol == lit "both")
        (wrap_emit-AllInert std r v.id (join_args-Inert (also h (also hs end))) ht)
        (wrap_emit-AllInert std r v.id
          (join_args-Inert (
            also h
              (also (lit-Inert (lit "-p") refl) (also (protocol-Inert v.protocol) (also hs end)))))
          ht)

  dport_lines-AllInert :
      (ps : PortSpec) {sch target src : Text}
      → Inert sch
      → Inert target
      → Inert src
      → AllInert (dport_lines std r ps sch target src)
  unfolding dport_lines lit is_inert
  dport_lines-AllInert ps hs ht h =
      flat_map-AllInert
        (λ proto hp.
          flat_map-AllInert
            (λ pa ha.
              wrap_emit-AllInert std r v.id
                (join_args-Inert
                  (also h (also (lit-Inert (lit "-p") refl) (also hp (also ha (also hs end))))))
                ht)
            (port_args-AllInert ps))
        protos-AllInert

  ct_lines-AllInert :
      {sch target src proto port : Text}
      → Inert sch
      → Inert target
      → Inert src
      → Inert proto
      → Inert port
      → AllInert (ct_lines std r sch target src proto port)
  unfolding ct_lines lit is_inert
  ct_lines-AllInert hs ht h hp k =
      wrap_emit-AllInert std r v.id
        (join_args-Inert (
          also h (
            also (lit-Inert (lit "-p") refl) (
              also hp (
                also (lit-Inert (lit "-m") refl) (
                  also (lit-Inert (lit "conntrack") refl)
                    (also (lit-Inert (lit "--ctorigdstport") refl) (also k (also hs end)))))))))
        ht

  ports-Every : (ps : List ℤ) → Every (λ p. Inert (itoa p)) ps
  ports-Every [] = end
  ports-Every (p ∷ ps) = also (itoa-Inert p) (ports-Every ps)

  origin_port_lines-AllInert :
      (ps : PortSpec) {sch target src : Text}
      → Inert sch
      → Inert target
      → Inert src
      → AllInert (origin_port_lines std r ps sch target src)
  unfolding origin_port_lines
  origin_port_lines-AllInert ps hs ht h =
      flat_map-AllInert
        (λ proto hp.
          Every-if (is_range ps) (ct_lines-AllInert hs ht h hp (span-Inert ps.from ps.to))
            (flat_map-AllInert (λ p k. ct_lines-AllInert hs ht h hp k) (ports-Every ps.list)))
        protos-AllInert

  pub sch-Inert : Inert (schedule_arg std r.schedule)
  sch-Inert = schedule_arg-Inert std r.schedule v.schedule

  pub accept-Inert : Inert (target_of r (lit "ACCEPT"))
  unfolding lit is_inert
  accept-Inert = target_of-Inert r (lit-Inert (lit "ACCEPT") refl)

  return-Inert : Inert (target_of r (lit "RETURN"))
  unfolding lit is_inert
  return-Inert = target_of-Inert r (lit-Inert (lit "RETURN") refl)

  host_spec_lines-AllInert : (ps : PortSpec) → AllInert (host_spec_lines std r ps)
  unfolding host_spec_lines
  host_spec_lines-AllInert ps =
      flat_map-AllInert
        (λ src h.
          Every-if ps.all (all_port_lines-AllInert sch-Inert accept-Inert h)
            (dport_lines-AllInert ps sch-Inert accept-Inert h))
        (source_args-AllInert std laws r.source v.source)

  docker_spec_lines-AllInert : (ps : PortSpec) → AllInert (docker_spec_lines std r ps)
  unfolding docker_spec_lines
  docker_spec_lines-AllInert ps =
      flat_map-AllInert
        (λ src h.
          Every-if ps.all (all_port_lines-AllInert sch-Inert return-Inert h)
            (origin_port_lines-AllInert ps sch-Inert return-Inert h))
        (source_args-AllInert std laws r.source v.source)

  host_spec_lines6-AllInert :
      (ps : PortSpec) (o : Option Text) → ForSome Inert o → AllInert (host_spec_lines6 std r ps o)
  unfolding host_spec_lines6
  host_spec_lines6-AllInert ps none h = end
  host_spec_lines6-AllInert ps (some src) h =
      Every-if ps.all (all_port_lines-AllInert sch-Inert return-Inert h)
        (dport_lines-AllInert ps sch-Inert return-Inert h)

  with_spec-AllInert :
      {f : PortSpec → List Text} (o : Option PortSpec)
      → ((ps : PortSpec) → AllInert (f ps))
      → AllInert (with_spec f o)
  with_spec-AllInert none g = end
  with_spec-AllInert (some ps) g = g ps

  pub host_lines-AllInert : (docker_ports : ℤ → Bool) → AllInert (host_lines std r docker_ports)
  unfolding host_lines
  host_lines-AllInert docker_ports = Every-if (is_outbound r) end (
      Every-if (is_ipv6_source r.source) end
        (with_spec-AllInert (ports_for_zone r docker_ports host) host_spec_lines-AllInert))

  pub docker_lines-AllInert : (docker_ports : ℤ → Bool) → AllInert (docker_lines std r docker_ports)
  unfolding docker_lines
  docker_lines-AllInert docker_ports = Every-if (is_outbound r) end (
      Every-if (is_ipv6_source r.source) end
        (with_spec-AllInert (ports_for_zone r docker_ports docker) docker_spec_lines-AllInert))

  pub host_lines6-AllInert : (docker_ports : ℤ → Bool) → AllInert (host_lines6 std r docker_ports)
  unfolding host_lines6
  host_lines6-AllInert docker_ports = Every-if (is_outbound r) end (
      with_spec-AllInert (ports_for_zone r docker_ports host) (λ ps.
        host_spec_lines6-AllInert ps (source6_arg r.source)
          (source6_arg-Inert std laws r.source v.source)))
