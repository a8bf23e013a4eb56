-- ===== src/Compiler/Inert/Fragments.antt =====
-- The bytes of the fragments of a line: internal/compiler/compiler.go, `joinArgs` to `scheduleArg`.
use zfw_dark.Common.{
  ℕ, zero, suc, ◌≡◌, refl, Bool, true, false, List, [], ◌∷◌, ◌++◌, map, Option, none, some, inl,
  inr, arith, nat_eq, length, take, drop, cat,
}
use zfw_dark.Common.Int.{ℤ}
use zfw_dark.Common.Text.{Text, Std, lit, ◌==◌, is_plain, itoa, to_lower}
use zfw_dark.Compiler.Args.{
  PortSpec, is_range, join_args, nonempty_parts, chunk_arg, multiport_from, multiport, span,
  port_args, proto_list, day_name, schedule_arg, rate_lines, log_lines, wrap_emit,
}
use zfw_dark.Compiler.Inert.Bytes.{
  Every, end, also, Every-append, Every-if, Every-of_All, Every-of_all, is_inert, Inert, AllInert,
  lit-Inert, join-Inert, itoa-Inert, quote-Inert,
}
use zfw_dark.Rules.Checks.{is_id_byte}
use zfw_dark.Rules.Model.{RateLimit, Schedule, Rule}
use zfw_dark.Rules.Valid.Parts.{
  ClockField, digits, plus, minus_zero, ClockTime, ValidSchedule, OneOf,
}
use zfw_dark.Rules.Valid.Rule.{SafeId, ForSome}

nonempty_parts-AllInert : {ps : List Text} → AllInert ps → AllInert (nonempty_parts ps)
unfolding nonempty_parts
nonempty_parts-AllInert end = end
nonempty_parts-AllInert (also end hs) = nonempty_parts-AllInert hs
nonempty_parts-AllInert (also (also p h) hs) = also (also p h) (nonempty_parts-AllInert hs)

pub join_args-Inert : {ps : List Text} → AllInert ps → Inert (join_args ps)
unfolding join_args lit is_inert
join_args-Inert h = join-Inert (lit-Inert (lit " ") refl) (nonempty_parts-AllInert h)

itoas-AllInert : (ps : List ℤ) → AllInert (map itoa ps)
itoas-AllInert [] = end
itoas-AllInert (p ∷ ps) = also (itoa-Inert p) (itoas-AllInert ps)

chunk_arg-Inert : (ps : List ℤ) → Inert (chunk_arg ps)
unfolding chunk_arg lit is_inert
chunk_arg-Inert (p ∷ []) = Every-append (lit-Inert (lit "--dport ") refl) (itoa-Inert p)
chunk_arg-Inert ps =
    Every-append (lit-Inert (lit "-m multiport --dports ") refl)
      (join-Inert (lit-Inert (lit ",") refl) (itoas-AllInert ps))

multiport_from-AllInert : (f : ℕ) (ps : List ℤ) → AllInert (multiport_from f ps)
unfolding multiport_from
multiport_from-AllInert zero ps = end
multiport_from-AllInert (suc f) [] = end
multiport_from-AllInert (suc f) (p ∷ ps) =
    also (chunk_arg-Inert (take 15 (p ∷ ps))) (multiport_from-AllInert f (drop 15 (p ∷ ps)))

pub multiport-AllInert : (ps : List ℤ) → AllInert (multiport ps)
unfolding multiport
multiport-AllInert ps = multiport_from-AllInert (length ps) ps

pub span-Inert : (from to : ℤ) → Inert (span from to)
unfolding span lit is_inert
span-Inert from to = Every-append (itoa-Inert from) (also refl (Every-append (itoa-Inert to) end))

pub dport_span-Inert : (from to : ℤ) → Inert (lit "--dport " ++ span from to)
unfolding lit is_inert
dport_span-Inert from to = Every-append (lit-Inert (lit "--dport ") refl) (span-Inert from to)

pub port_args-AllInert : (ps : PortSpec) → AllInert (port_args ps)
unfolding port_args
port_args-AllInert ps =
    Every-if (is_range ps) (also (dport_span-Inert ps.from ps.to) end) (multiport-AllInert ps.list)

pub protocol-Inert : {p : Text} → OneOf p (lit "tcp" ∷ lit "udp" ∷ lit "both" ∷ []) → Inert p
unfolding lit is_inert
protocol-Inert (inl e) = rw e (lit-Inert (lit "tcp") refl)
protocol-Inert (inr (inl e)) = rw e (lit-Inert (lit "udp") refl)
protocol-Inert (inr (inr (inl e))) = rw e (lit-Inert (lit "both") refl)
protocol-Inert (inr (inr (inr e))) = absurd e

pub proto_list-AllInert : {p : Text} → Inert p → AllInert (proto_list p)
unfolding proto_list lit is_inert
proto_list-AllInert {p} h =
    Every-if (p == lit "both")
      (also (lit-Inert (lit "tcp") refl) (also (lit-Inert (lit "udp") refl) end)) (also h end)

day_name-Inert : (d : Text) → Inert (day_name d)
unfolding day_name lit is_inert
day_name-Inert d = Every-if (d == lit "mon") (lit-Inert (lit "Mon") refl) (
    Every-if (d == lit "tue") (lit-Inert (lit "Tue") refl) (
      Every-if (d == lit "wed") (lit-Inert (lit "Wed") refl) (
        Every-if (d == lit "thu") (lit-Inert (lit "Thu") refl) (
          Every-if (d == lit "fri") (lit-Inert (lit "Fri") refl) (
            Every-if (d == lit "sat") (lit-Inert (lit "Sat") refl)
              (Every-if (d == lit "sun") (lit-Inert (lit "Sun") refl) end))))))

field-Inert : {most a b : ℕ} → ClockField most a b → (is_inert a ≡ true) × (is_inert b ≡ true)
unfolding is_inert
field-Inert (digits p q le) = ground arith
field-Inert (plus p q le) = ground arith
field-Inert (minus_zero p q) = ground arith

ClockTime-Inert : (s : Text) → ClockTime s → Inert s
ClockTime-Inert (a ∷ b ∷ c ∷ d ∷ e ∷ []) (colon, hours, minutes) =
    let (ha, hb) = field-Inert hours in
    let (hd, he) = field-Inert minutes in
    also ha (also hb (also (rw colon (unfold is_inert in refl)) (also hd (also he end))))
ClockTime-Inert _ h = absurd h

days-AllInert : (std : Std) (ds : List Text) → AllInert (map (λ d. day_name (to_lower std d)) ds)
days-AllInert std [] = end
days-AllInert std (d ∷ ds) = also (day_name-Inert (to_lower std d)) (days-AllInert std ds)

module _ (std : Std) where
  pub schedule_arg-Inert :
      (s : Option Schedule) → ForSome (ValidSchedule std) s → Inert (schedule_arg std s)
  unfolding schedule_arg
  schedule_arg-Inert none h = end
  schedule_arg-Inert (some s) v =
      let from = ClockTime-Inert s.from v.from in
      let to = ClockTime-Inert s.to v.to in
      Every-if (nat_eq (length s.days) 0) (out from to) (
        Every-append (out from to) (
          Every-append (lit-Inert (lit " --weekdays ") (unfold lit is_inert in refl)) (
            Every-append
              (join-Inert (lit-Inert (lit ",") (unfold lit is_inert in refl))
                (days-AllInert std s.days))
              end)))
    where
      out :
          {a b : Text}
          → Inert a
          → Inert b
          → Inert (
              cat
                (lit "-m time --timestart " ∷ a ∷ lit " --timestop " ∷ b ∷ lit " --kerneltz" ∷ []))
      out p q =
          Every-append (lit-Inert (lit "-m time --timestart ") (unfold lit is_inert in refl)) (
            Every-append p (
              Every-append (lit-Inert (lit " --timestop ") (unfold lit is_inert in refl)) (
                Every-append q (
                  Every-append (lit-Inert (lit " --kerneltz") (unfold lit is_inert in refl)) end))))

id-Inert : {s : Text} → Every (λ c. is_id_byte c ≡ true) s → Inert s
unfolding is_inert
id-Inert end = end
id-Inert (also h hs) = also (ground arith) (id-Inert hs)

id-plain : {s : Text} → Every (λ c. is_id_byte c ≡ true) s → Every (λ c. is_plain c ≡ true) s
unfolding is_plain
id-plain end = end
id-plain (also h hs) = also (ground arith) (id-plain hs)

rate_lines-AllInert :
    {match id : Text} (rl : Option RateLimit)
    → Inert match
    → Inert id
    → AllInert (rate_lines match id rl)
unfolding rate_lines lit is_inert
rate_lines-AllInert none h k = end
rate_lines-AllInert (some rl) h k =
    let name = Every-append (lit-Inert (lit "z") refl) k in
    Every-if _
      (also
        (join_args-Inert (
          also h (
            also (lit-Inert (lit "-m") refl) (
              also (lit-Inert (lit "recent") refl) (
                also (lit-Inert (lit "--set") refl)
                  (also (lit-Inert (lit "--name") refl) (also name end)))))))
        (also
          (join_args-Inert (
            also h (
              also (lit-Inert (lit "-m") refl) (
                also (lit-Inert (lit "recent") refl) (
                  also (lit-Inert (lit "--update") refl) (
                    also (lit-Inert (lit "--seconds") refl) (
                      also (itoa-Inert rl.seconds) (
                        also (lit-Inert (lit "--hitcount") refl) (
                          also (itoa-Inert rl.conn) (
                            also (lit-Inert (lit "--name") refl) (
                              also name (
                                also (lit-Inert (lit "-j") refl)
                                  (also (lit-Inert (lit "DROP") refl) end)))))))))))))
          end))
      end

log_lines-AllInert :
    (std : Std) {match id : Text} (log : Bool)
    → Inert match
    → Every (λ c. is_id_byte c ≡ true) id
    → AllInert (log_lines std match id log)
unfolding log_lines lit is_inert
log_lines-AllInert std false h k = end
log_lines-AllInert std true h k =
    let plain = Every-append (Every-of_all is_plain (lit "ZFW-RULE-") (unfold is_plain in refl)) (
      Every-append (id-plain k)
        (Every-append (Every-of_all is_plain (lit " ") (unfold is_plain in refl)) end)) in
    let inert =
      Every-append (lit-Inert (lit "ZFW-RULE-") refl)
        (Every-append (id-Inert k) (Every-append (lit-Inert (lit " ") refl) end)) in
    also
      (join_args-Inert (
        also h (
          also (lit-Inert (lit "-j") refl) (
            also (lit-Inert (lit "LOG") refl) (
              also (lit-Inert (lit "--log-prefix") refl) (
                also (quote-Inert std plain inert) (
                  also (lit-Inert (lit "--log-level") refl)
                    (also (lit-Inert (lit "6") refl) end))))))))
      end

pub wrap_emit-AllInert :
    (std : Std) {match target : Text} (r : Rule)
    → SafeId r.id
    → Inert match
    → Inert target
    → AllInert (wrap_emit std match r target)
unfolding wrap_emit
wrap_emit-AllInert std r (_, bytes) h k =
    let id = Every-of_All (λ c. is_id_byte c ≡ true) r.id bytes in
    Every-append (rate_lines-AllInert r.rate_limit h (id-Inert id)) (
      Every-append (log_lines-AllInert std r.log h id) (
        also
          (join_args-Inert
            (also h (also (lit-Inert (lit "-j") (unfold lit is_inert in refl)) (also k end))))
          end))
