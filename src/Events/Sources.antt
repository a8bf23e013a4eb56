-- ===== src/Events/Sources.antt =====
-- `Classify` of internal/events/events.go: the sources one after the other, against a count for each
-- event among the events of its own source.
use zfw_dark.Common.{
  Bool, true, false, ◌&&◌, ◌||◌, List, [], ◌∷◌, ◌++◌, ◌≡◌, refl, sym, ap, ap₂, ◌∙◌, subst, inl, inr,
  arith, Bool-cases, any, leb, All, All-map, if◌then◌else◌,
}
use zfw_dark.Common.Int.{◌≤ℤ◌}
use zfw_dark.Common.Text.{Text, lit, ◌==◌, ==_iff}
use zfw_dark.Events.{Event, is_target, has_port, threat_if, add_threat, classify}
use zfw_dark.Events.Agree.{classify_source-windows}
use zfw_dark.Events.Histogram.{occurs, distinct}
use zfw_dark.Events.Window.{recent, ports_of, weighed, judged_all, Ascending}

-- The events of one source.
unfoldable pub of_source : Text → List Event → List Event
of_source source [] = []
of_source source (e ∷ es) =
    let rest = of_source source es in if e.source == source then e ∷ rest else rest

of_source-snoc :
    (source : Text) (es : List Event) (e : Event)
    → of_source source (es ++ e ∷ [])
      ≡ (if e.source == source then of_source source es ++ e ∷ [] else of_source source es)
unfolding of_source
of_source-snoc source [] e = refl
of_source-snoc source (f ∷ es) e = elim (Bool-cases (f.source == source)) [
  | inl h ↦
      rw (h, of_source-snoc source es e)
        (elim (Bool-cases (e.source == source)) [ inl k ↦ rw k refl | inr k ↦ rw k refl ])
  | inr h ↦ rw (h, of_source-snoc source es e) refl
]

-- An event by the minute up to it, among the events of its source.
abbrev in_its_window : List Event → Event → Event
in_its_window seen e = weighed e (recent e (of_source e.source (seen ++ e ∷ [])))

-- Every event with the threats that a count from scratch gives it.
unfoldable pub classified : List Event → List Event → List Event
classified seen [] = []
classified seen (e ∷ es) = in_its_window seen e ∷ classified (seen ++ e ∷ []) es

-- The same for the sources that are done; the other events as they are.
abbrev judged_if : Bool → List Event → Event → Event
judged_if b seen e = if b then in_its_window seen e else e

unfoldable partly : (Text → Bool) → List Event → List Event → List Event
partly done seen [] = []
partly done seen (e ∷ es) = judged_if (done e.source) seen e ∷ partly done (seen ++ e ∷ []) es

-- An event with more threats.
abbrev Marked : Event → Event → Type 0
Marked e f = (f.source ≡ e.source) × (f.time ≡ e.time)

threat_if-Marked : (b : Bool) (t : Text) (e f : Event) → Marked e f → Marked e (threat_if b t f)
unfolding add_threat
threat_if-Marked false t e f m = m
threat_if-Marked true t e f m = elim (Bool-cases (any (λ x. x == t) f.threats)) [
  | inl h ↦ rw h m
  | inr h ↦ rw h m
]

weighed-Marked : (e : Event) (es : List Event) → Marked e (weighed e es)
weighed-Marked e es =
    let scanned = leb 10 (distinct (ports_of es)) in
    threat_if-Marked (has_port e && is_target e.port && leb 20 (occurs e.port (ports_of es)))
      (lit "brute_force") e (threat_if scanned (lit "port_scan") e)
      (threat_if-Marked scanned (lit "port_scan") e e (refl, refl))

judged_if-Marked : (b : Bool) (seen : List Event) (e : Event) → Marked e (judged_if b seen e)
judged_if-Marked false seen e = (refl, refl)
judged_if-Marked true seen e = weighed-Marked e (recent e (of_source e.source (seen ++ e ∷ [])))

-- The sources done, and one more.
abbrev with_source : Text → (Text → Bool) → Text → Bool
with_source source done s = s == source || done s

judged_all-mine :
    (source : Text) (seen es : List Event) (e : Event)
    → (e.source == source) ≡ true
    → judged_all source seen (e ∷ es)
      ≡ weighed e (recent e (seen ++ e ∷ [])) ∷ judged_all source (seen ++ e ∷ []) es
unfolding judged_all
judged_all-mine source seen es e h = rw h refl

judged_all-other :
    (source : Text) (seen es : List Event) (e : Event)
    → (e.source == source) ≡ false
    → judged_all source seen (e ∷ es) ≡ e ∷ judged_all source seen es
unfolding judged_all
judged_all-other source seen es e h = rw h refl

next_source :
    (source : Text) (done : Text → Bool) (seen es : List Event)
    → done source ≡ false
    → judged_all source (of_source source seen) (partly done seen es)
      ≡ partly (with_source source done) seen es
unfolding partly
next_source source done seen [] new = unfold judged_all in refl
next_source source done seen (e ∷ es) new =
    let rest = next_source source done (seen ++ e ∷ []) es new in
    let snoc = of_source-snoc source seen e in
    elim (Bool-cases (e.source == source)) [
      | inl mine ↦
          let same : e.source ≡ source = (==_iff e.source source).0 mine in
          let undone : done e.source ≡ false = ap done same ∙ new in
          let here : of_source source (seen ++ e ∷ []) ≡ of_source source seen ++ e ∷ [] =
            rw mine at snoc in
          let window : weighed e (recent e (of_source source seen ++ e ∷ []))
              ≡ in_its_window seen e =
            ap (λ q. weighed e (recent e q))
              (sym here ∙ ap (λ s. of_source s (seen ++ e ∷ [])) (sym same)) in
          rw (undone, mine)
            (judged_all-mine source (of_source source seen) (partly done (seen ++ e ∷ []) es) e mine
              ∙ ap₂ ◌∷◌ window (
                  ap (λ q. judged_all source q (partly done (seen ++ e ∷ []) es)) (sym here)
                  ∙ rest))
      | inr other ↦
          let there : of_source source (seen ++ e ∷ []) ≡ of_source source seen =
            rw other at snoc in
          let kept = (judged_if-Marked (done e.source) seen e).0 in
          rw other (
            judged_all-other source (of_source source seen) (partly done (seen ++ e ∷ []) es)
              (judged_if (done e.source) seen e) (ap (λ s. s == source) kept ∙ other)
            ∙ ap (λ x. judged_if (done e.source) seen e ∷ x)
                (ap (λ q. judged_all source q (partly done (seen ++ e ∷ []) es)) (sym there)
                  ∙ rest))
    ]

-- Nothing is done at first, and in the end everything is.
partly-none : (seen es : List Event) → partly (λ s. false) seen es ≡ es
unfolding partly
partly-none seen [] = refl
partly-none seen (e ∷ es) = ap (◌∷◌ e) (partly-none (seen ++ e ∷ []) es)

partly-classified :
    (done : Text → Bool) (seen es : List Event)
    → All (λ e. done e.source ≡ true) es
    → partly done seen es ≡ classified seen es
unfolding partly classified
partly-classified done seen [] h = refl
partly-classified done seen (e ∷ es) (here, h) =
    rw here (ap (◌∷◌ (in_its_window seen e)) (partly-classified done (seen ++ e ∷ []) es h))

after-partly :
    (e : Event) (done : Text → Bool) (seen es : List Event)
    → All (λ f. e.time ≤ℤ f.time) es
    → All (λ f. e.time ≤ℤ f.time) (partly done seen es)
unfolding partly
after-partly e done seen [] h = tt
after-partly e done seen (f ∷ es) (here, h) = (
  subst (λ t. e.time ≤ℤ t) (sym (judged_if-Marked (done f.source) seen f).1) here,
  after-partly e done (seen ++ f ∷ []) es h,
)

Ascending-partly :
    (done : Text → Bool) (seen es : List Event) → Ascending es → Ascending (partly done seen es)
unfolding partly
Ascending-partly done seen [] up = tt
Ascending-partly done seen (e ∷ es) (first, up) = (
  subst (λ t. All (λ f. t ≤ℤ f.time) (partly done (seen ++ e ∷ []) es))
      (sym (judged_if-Marked (done e.source) seen e).1)
      (after-partly e done (seen ++ e ∷ []) es first),
  Ascending-partly done (seen ++ e ∷ []) es up,
)

abbrev done_after : (Text → Bool) → List Text → Text → Bool
done_after done [] = done
done_after done (source ∷ order) = done_after (with_source source done) order

-- No source stands twice.
abbrev pub Once : List Text → Type 0
Once [] = Unit
Once (source ∷ order) = (any (λ s. s == source) order ≡ false) × Once order

abbrev Undone : (Text → Bool) → List Text → Type 0
Undone done order = All (λ s. done s ≡ false) order

Undone-next :
    (source : Text) (done : Text → Bool) (order : List Text)
    → any (λ s. s == source) order ≡ false
    → Undone done order
    → Undone (with_source source done) order
Undone-next source done [] other new = tt
Undone-next source done (s ∷ order) other (here, new) =
    (ground arith, Undone-next source done order (ground arith) new)

Undone-start : (order : List Text) → Undone (λ s. false) order
Undone-start [] = tt
Undone-start (source ∷ order) = (refl, Undone-start order)

done_after-kept :
    (done : Text → Bool) (order : List Text) (s : Text)
    → (done s || any (λ t. s == t) order) ≡ true
    → done_after done order s ≡ true
done_after-kept done [] s h = ground arith
done_after-kept done (source ∷ order) s h =
    done_after-kept (with_source source done) order s (ground arith)

first_source :
    (source : Text) (done : Text → Bool) (es : List Event)
    → done source ≡ false
    → judged_all source [] (partly done [] es) ≡ partly (with_source source done) [] es
unfolding of_source
first_source source done es new = next_source source done [] es new

classify-partly :
    (order : List Text) (done : Text → Bool) (es : List Event)
    → Ascending es
    → Once order
    → Undone done order
    → classify order (partly done [] es) ≡ partly (done_after done order) [] es
unfolding classify
classify-partly [] done es up once new = refl
classify-partly (source ∷ order) done es up (other, once) (fresh, new) =
    ap (classify order) (
      classify_source-windows source (partly done [] es) (Ascending-partly done [] es up)
      ∙ first_source source done es fresh)
    ∙ classify-partly order (with_source source done) es up once
        (Undone-next source done order other new)

-- On events in the order of time, Classify gives each event the threats that a count from scratch over
-- the minute up to it, among the events of its own source, gives: a port scan from 10 ports that
-- differ, an attack by force from 20 events with the event's own port if that is one of the targets.
-- This is so in whatever order the sources are visited, if each source of an event is visited once.
pub classify-classified :
    (order : List Text) (es : List Event)
    → Ascending es
    → Once order
    → All (λ e. any (λ s. e.source == s) order ≡ true) es
    → classify order es ≡ classified [] es
classify-classified order es up once visited =
    ap (classify order) (sym (partly-none [] es))
    ∙ classify-partly order (λ s. false) es up once (Undone-start order)
    ∙ partly-classified (done_after (λ s. false) order) [] es
        (All-map (λ e h. done_after-kept (λ s. false) order e.source h) es visited)
