-- ===== src/Events/Window.antt =====
-- `classifySource` of internal/events/events.go against a count of each event's window from scratch.
use zfw_dark.Common.{
  true, false, ◌&&◌, List, [], ◌∷◌, ◌++◌, ◌≡◌, refl, sym, ap, subst, inl, inr, arith, Bool-cases,
  leb, if◌then◌else◌, All, append-nil,
}
use zfw_dark.Common.Int.{ℤ, ◌≤ℤ◌}
use zfw_dark.Common.Text.{Text, lit, ◌==◌}
use zfw_dark.Events.{
  Event, Counts, Sliding, is_target, has_port, fits, evict, let_in, shrink, slide, threat_if,
}
use zfw_dark.Events.Histogram.{occurs, distinct, Counted, Counted-up, Counted-down}

-- The events that are at most a minute older than another.
unfoldable pub recent : Event → List Event → List Event
recent e [] = []
recent e (l ∷ ls) = if fits e l then l ∷ recent e ls else recent e ls

-- The ports of events that have one.
unfoldable pub ports_of : List Event → List ℤ
ports_of [] = []
ports_of (e ∷ es) = if has_port e then e.port ∷ ports_of es else ports_of es

-- An event's threats by the events of its source in the minute up to it.
abbrev pub weighed : Event → List Event → Event
weighed e es =
    threat_if (has_port e && is_target e.port && leb 20 (occurs e.port (ports_of es)))
      (lit "brute_force") (threat_if (leb 10 (distinct (ports_of es))) (lit "port_scan") e)

unfoldable pub judged_all : Text → List Event → List Event → List Event
judged_all source seen [] = []
judged_all source seen (e ∷ es) =
    if e.source == source
    then weighed e (recent e (seen ++ e ∷ [])) ∷ judged_all source (seen ++ e ∷ []) es
    else e ∷ judged_all source seen es

-- The journal is in the order of time: no event is later than one behind it.
abbrev pub Ascending : List Event → Type 0
Ascending [] = Unit
Ascending (e ∷ es) = All (λ f. e.time ≤ℤ f.time) es × Ascending es

-- The state that the loop has behind events of the source, when the last one is at a time.
pub record Holds (w : Sliding) (inside : List Event) : Type 0 where
  pub events : w.inside ≡ inside
  pub ports_counted : Counted w.ports (ports_of inside)
  pub hits_counted : Counted w.hits (ports_of inside)

ports_of-snoc :
    (es : List Event) (e : Event)
    → ports_of (es ++ e ∷ []) ≡ ports_of es ++ (if has_port e then e.port ∷ [] else [])
unfolding ports_of
ports_of-snoc [] e = refl
ports_of-snoc (f ∷ es) e = ground (arith, ports_of-snoc es e)

Counted-evict :
    (e : Event) (m : Counts) (es : List Event)
    → Counted m (ports_of (e ∷ es))
    → Counted (evict e m) (ports_of es)
unfolding ports_of
Counted-evict e m es c = elim (Bool-cases (has_port e)) [
  | inl h ↦ rw h (Counted-down e.port m (ports_of es) (rw h at c))
  | inr h ↦ rw h (rw h at c)
]

Counted-let_in :
    (e : Event) (m : Counts) (es : List Event)
    → Counted m (ports_of es)
    → Counted (let_in e m) (ports_of (es ++ e ∷ []))
Counted-let_in e m es c = elim (Bool-cases (has_port e)) [
  | inl h ↦ rw (ports_of-snoc es e, h) (Counted-up e.port m (ports_of es) c)
  | inr h ↦
      rw (ports_of-snoc es e, h) (subst (λ ps. Counted m ps) (sym (append-nil (ports_of es))) c)
]

-- Behind an event that fits, all do.
recent-later :
    (e l : Event) (ls : List Event)
    → fits e l ≡ true
    → All (λ f. l.time ≤ℤ f.time) ls
    → recent e ls ≡ ls
unfolding recent
recent-later e l [] h k = refl
recent-later e l (f ∷ ls) h (here, k) =
    let fit : fits e f ≡ true = ground arith in rw fit (ap (◌∷◌ f) (recent-later e l ls h k))

shrink-Holds :
    (e : Event) (q : List Event) (ports hits : Counts)
    → Ascending q
    → Counted ports (ports_of q)
    → Counted hits (ports_of q)
    → Holds (shrink e q ports hits) (recent e q)
unfolding shrink recent
shrink-Holds e [] ports hits up c d = record { events = refl; ports_counted = c; hits_counted = d }
shrink-Holds e (l ∷ q) ports hits (first, up) c d = elim (Bool-cases (fits e l)) [
  | inl h ↦
      rw (h, recent-later e l q h first)
        (record { events = refl; ports_counted = c; hits_counted = d })
  | inr h ↦ rw h (shrink-Holds e q _ _ up (Counted-evict l ports q c) (Counted-evict l hits q d))
]

pub slide-Holds :
    (e : Event) (w : Sliding) (inside : List Event)
    → Ascending inside
    → Holds w inside
    → Holds (slide e w) (recent e inside ++ e ∷ [])
unfolding slide
slide-Holds e w inside up h =
    let k : Holds (shrink e w.inside w.ports w.hits) (recent e inside) =
      rw h.events (shrink-Holds e inside w.ports w.hits up h.ports_counted h.hits_counted) in
    record {
      events = ap (λ q. q ++ e ∷ []) k.events;
      ports_counted = Counted-let_in e _ _ k.ports_counted;
      hits_counted = Counted-let_in e _ _ k.hits_counted;
    }

fits_self : (e : Event) → fits e e ≡ true
fits_self e = ground arith

pub recent-snoc : (e : Event) (ls : List Event) → recent e (ls ++ e ∷ []) ≡ recent e ls ++ e ∷ []
unfolding recent
recent-snoc e [] = rw (fits_self e) refl
recent-snoc e (l ∷ ls) = elim (Bool-cases (fits e l)) [
  | inl h ↦ rw (h, recent-snoc e ls) refl
  | inr h ↦ rw (h, recent-snoc e ls) refl
]

pub recent-recent :
    (e f : Event) (ls : List Event) → e.time ≤ℤ f.time → recent f (recent e ls) ≡ recent f ls
unfolding recent
recent-recent e f [] h = refl
recent-recent e f (l ∷ ls) h = elim (Bool-cases (fits e l)) [
  | inl k ↦ rw (k, recent-recent e f ls h) refl
  | inr k ↦ let out : fits f l ≡ false = ground arith in rw (k, out) (recent-recent e f ls h)
]

pub Ascending-recent : (e : Event) (ls : List Event) → Ascending ls → Ascending (recent e ls)
unfolding recent
Ascending-recent e [] up = tt
Ascending-recent e (l ∷ ls) (first, up) = elim (Bool-cases (fits e l)) [
  | inl h ↦ rw (h, recent-later e l ls h first) (first, up)
  | inr h ↦ rw h (Ascending-recent e ls up)
]
