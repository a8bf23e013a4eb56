-- ===== src/Events/Agree.antt =====
-- internal/events/events.go, `classifySource`: the running window against the minute up to an event.
use zfw_dark.Common.{
  ◌&&◌, List, [], ◌∷◌, ◌++◌, ◌≡◌, refl, sym, ap, ◌∙◌, subst, inl, inr, arith, Bool-cases, leb, All,
  All-right, All-append,
}
use zfw_dark.Common.Int.{◌≤ℤ◌}
use zfw_dark.Common.Text.{Text, lit, ◌==◌}
use zfw_dark.Events.{
  Event, Sliding, is_target, has_port, slide, threat_if, judge, classify_source, no_events,
}
use zfw_dark.Events.Histogram.{distinct, Counted-nil}
use zfw_dark.Events.Window.{
  recent, ports_of, weighed, judged_all, Ascending, Holds, slide-Holds, recent-snoc, recent-recent,
  Ascending-recent,
}

-- The state of the loop behind the events seen so far, for the events that are no earlier.
record Tracks (w : Sliding) (seen : List Event) : Type 0 where
  inside : List Event
  holds : Holds w inside
  up : Ascending inside
  ordered : Ascending seen
  later : (e : Event) → All (λ s. s.time ≤ℤ e.time) seen → recent e inside ≡ recent e seen

Ascending-snoc :
    (es : List Event) (e : Event)
    → Ascending es
    → All (λ s. s.time ≤ℤ e.time) es
    → Ascending (es ++ e ∷ [])
Ascending-snoc [] e up below = (tt, tt)
Ascending-snoc (f ∷ es) e (first, up) (h, below) =
    (All-append _ es (e ∷ []) first (h, tt), Ascending-snoc es e up below)

judge-weighed :
    (e : Event) (w : Sliding) (inside : List Event) → Holds w inside → judge e w ≡ weighed e inside
unfolding judge
judge-weighed e w inside h =
    rw (h.ports_counted.size, h.hits_counted.count e.port)
      (ap
        (λ b.
          threat_if (has_port e && is_target e.port && b) (lit "brute_force")
            (threat_if (leb 10 (distinct (ports_of inside))) (lit "port_scan") e))
        (ground arith))

-- No event of one list is later than one of another.
abbrev Before : List Event → List Event → Type 0
Before seen es = All (λ f. All (λ s. s.time ≤ℤ f.time) seen) es

slide-window :
    (w : Sliding) (seen : List Event) (e : Event)
    → Tracks w seen
    → All (λ s. s.time ≤ℤ e.time) seen
    → Holds (slide e w) (recent e (seen ++ e ∷ []))
slide-window w seen e t below =
    subst (λ q. Holds (slide e w) q)
      (ap (λ q. q ++ e ∷ []) (t.later e below) ∙ sym (recent-snoc e seen))
      (slide-Holds e w t.inside t.up t.holds)

Tracks-slide :
    (w : Sliding) (seen : List Event) (e : Event)
    → Tracks w seen
    → All (λ s. s.time ≤ℤ e.time) seen
    → Tracks (slide e w) (seen ++ e ∷ [])
Tracks-slide w seen e t below =
    let more = Ascending-snoc seen e t.ordered below in
    record {
      inside = recent e (seen ++ e ∷ []);
      holds = slide-window w seen e t below;
      up = Ascending-recent e (seen ++ e ∷ []) more;
      ordered = more;
      later = λ f h.
          recent-recent e f (seen ++ e ∷ []) (All-right (λ s. s.time ≤ℤ f.time) seen (e ∷ []) h).0;
    }

Before-snoc :
    (seen es : List Event) (e : Event)
    → Before seen es
    → All (λ f. e.time ≤ℤ f.time) es
    → Before (seen ++ e ∷ []) es
Before-snoc seen [] e h k = tt
Before-snoc seen (f ∷ es) e (h, hs) (k, ks) =
    (All-append (λ s. s.time ≤ℤ f.time) seen (e ∷ []) h (k, tt), Before-snoc seen es e hs ks)

-- A state that tracks what was seen judges the events behind by their windows.
classify_source-Tracks :
    (source : Text) (w : Sliding) (seen es : List Event)
    → Tracks w seen
    → Ascending es
    → Before seen es
    → classify_source source w es ≡ judged_all source seen es
unfolding classify_source judged_all
classify_source-Tracks source w seen [] t up before = refl
classify_source-Tracks source w seen (e ∷ es) t (first, up) (below, before) =
    elim (Bool-cases (e.source == source)) [
      | inl mine ↦
          let rest =
            classify_source-Tracks source (slide e w) (seen ++ e ∷ []) es
              (Tracks-slide w seen e t below) up (Before-snoc seen es e before first) in
          rw (mine, rest)
            (ap (λ x. x ∷ judged_all source (seen ++ e ∷ []) es)
              (judge-weighed e (slide e w) _ (slide-window w seen e t below)))
      | inr other ↦ rw (other, classify_source-Tracks source w seen es t up before) refl
    ]

Before-nil : (es : List Event) → Before [] es
Before-nil [] = tt
Before-nil (e ∷ es) = (tt, Before-nil es)

-- On events in the order of time, classifySource gives each event of its source the threats that a
-- count from scratch over the minute up to the event gives: a port scan from 10 ports that differ, an
-- attack by force from 20 events with the event's own port if that is one of the targets.
pub classify_source-windows :
    (source : Text) (es : List Event)
    → Ascending es
    → classify_source source no_events es ≡ judged_all source [] es
classify_source-windows source es up =
    classify_source-Tracks source no_events [] es
      (record {
        inside = [];
        holds = record {
          events = refl;
          ports_counted = unfold ports_of in Counted-nil;
          hits_counted = unfold ports_of in Counted-nil;
        };
        up = tt;
        ordered = tt;
        later = λ e h. refl;
      })
      up (Before-nil es)
