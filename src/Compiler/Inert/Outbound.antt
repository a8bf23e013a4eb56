-- ===== src/Compiler/Inert/Outbound.antt =====
-- The bytes of `outboundLines` and `outboundLines6` of internal/compiler/compiler.go.
use zfw_dark.Common.{refl, ◌||◌, not, List, [], ◌∷◌, flat_map}
use zfw_dark.Common.Addresses.{ParsesAddresses}
use zfw_dark.Common.Text.{Text, Std, lit, ◌==◌, contains_byte}
use zfw_dark.Compiler.Args.{join_args, schedule_arg}
use zfw_dark.Compiler.Inert.Bytes.{
  Every, end, also, Every-if, Every-when, is_inert, Inert, AllInert, lit-Inert,
}
use zfw_dark.Compiler.Inert.Sources.{
  flat_map-AllInert, minus_d, address_value, country_codes, code-set_name,
}
use zfw_dark.Compiler.Inert.Rules.{protos-AllInert, sch-Inert, accept-Inert}
use zfw_dark.Compiler.Inert.Fragments.{
  join_args-Inert, dport_span-Inert, multiport-AllInert, protocol-Inert, wrap_emit-AllInert,
}
use zfw_dark.Compiler.Lines.{target_of}
use zfw_dark.Compiler.Outbound.{outbound_port_lines, outbound_lines, outbound_lines6, country_match}
use zfw_dark.Rules.Model.{Rule}
use zfw_dark.Rules.Valid.Parts.{CountryCode}
use zfw_dark.Compiler.Inert.Plain.{PlainRule}

module _ (std : Std) (laws : ParsesAddresses std) (r : Rule) (v : PlainRule std r) where
  outbound_port_lines-AllInert :
      {base target : Text}
      → Inert base
      → Inert target
      → AllInert (outbound_port_lines std r base target)
  unfolding outbound_port_lines lit is_inert
  outbound_port_lines-AllInert h ht =
      Every-if (r.ports.type == lit "all")
        (Every-if (r.protocol == lit "both") (wrap_emit-AllInert std r v.id h ht) (
          wrap_emit-AllInert std r v.id
            (join_args-Inert
              (also h (also (lit-Inert (lit "-p") refl) (also (protocol-Inert v.protocol) end))))
            ht))
        (Every-if (r.ports.type == lit "range")
          (flat_map-AllInert
            (λ proto hp.
              wrap_emit-AllInert std r v.id
                (join_args-Inert (
                  also h (
                    also (lit-Inert (lit "-p") refl)
                      (also hp (also (dport_span-Inert r.ports.from r.ports.to) end)))))
                ht)
            (protos-AllInert std laws r v))
          (flat_map-AllInert
            (λ proto hp.
              flat_map-AllInert
                (λ pa ha.
                  wrap_emit-AllInert std r v.id
                    (join_args-Inert
                      (also h (also (lit-Inert (lit "-p") refl) (also hp (also ha end)))))
                    ht)
                (multiport-AllInert r.ports.list))
            (protos-AllInert std laws r v)))

  base-Inert : {d : Text} → Inert d → Inert (join_args (d ∷ schedule_arg std r.schedule ∷ []))
  base-Inert h = join_args-Inert (also h (also (sch-Inert std laws r v) end))

  country_match-Inert :
      (cc : Text) → CountryCode cc → Inert (country_match std (schedule_arg std r.schedule) cc)
  unfolding lit is_inert
  country_match-Inert cc code = join_args-Inert (
      also (lit-Inert (lit "-m") refl) (
        also (lit-Inert (lit "set") refl) (
          also (lit-Inert (lit "--match-set") refl) (
            also (code-set_name std laws cc code)
              (also (lit-Inert (lit "dst") refl) (also (sch-Inert std laws r v) end))))))

  country_lines-AllInert :
      {cs : List Text}
      → Every CountryCode cs
      → AllInert (
          flat_map
            (λ cc.
              outbound_port_lines std r
                (country_match std (schedule_arg std r.schedule) cc)
                (target_of r (lit "ACCEPT")))
            cs)
  country_lines-AllInert h =
      flat_map-AllInert
        (λ cc code.
          outbound_port_lines-AllInert (country_match-Inert cc code) (accept-Inert std laws r v))
        h

  pub outbound_lines-AllInert : AllInert (outbound_lines std r)
  unfolding outbound_lines
  outbound_lines-AllInert =
      Every-when (r.source.type == lit "any")
        (λ _. outbound_port_lines-AllInert (base-Inert end) (accept-Inert std laws r v))
        (λ _.
          Every-when (r.source.type == lit "ip" || r.source.type == lit "range")
            (λ e.
              outbound_port_lines-AllInert
                (base-Inert (minus_d std laws (address_value std laws r.source v.source e)))
                (accept-Inert std laws r v))
            (λ _.
              Every-when (r.source.type == lit "country")
                (λ e. country_lines-AllInert (country_codes std laws r.source v.source e))
                (λ _. end)))

  pub outbound_lines6-AllInert : AllInert (outbound_lines6 std r)
  unfolding outbound_lines6
  outbound_lines6-AllInert =
      Every-when (r.source.type == lit "any")
        (λ _. outbound_port_lines-AllInert (base-Inert end) (accept-Inert std laws r v))
        (λ _.
          Every-when (r.source.type == lit "ip" || r.source.type == lit "range")
            (λ e. Every-if (not (contains_byte b':' r.source.value)) end (
              outbound_port_lines-AllInert
                (base-Inert (minus_d std laws (address_value std laws r.source v.source e)))
                (accept-Inert std laws r v)))
            (λ _. end))
