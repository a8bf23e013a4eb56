-- ===== src/Dockerwatch/Served.antt =====
-- internal/dockerwatch/dockerwatch.go: the events and the calls of `consume` while it runs.
use zfw_dark.Common.{
  ℕ, ◌+◌, ◌≤◌, Bool, true, false, ◌≡◌, ◌⊎◌, refl, sym, ◌∙◌, inl, inr, arith, Bool-cases,
}
use zfw_dark.Dockerwatch.{
  running, cancelled, Watch, scan_line, close_stream, fire, on_event, on_timer, on_done, on_cancel,
  Step, line, stream_end, event, timer, done, cancel, Reachable, begin, next,
}

abbrev one_if : Bool → ℕ
one_if true = 1
one_if false = 0

-- What holds at every step.
pub record Kept (w : Watch) : Type 0 where
  -- An event since the last recompile is in the channel or in the timer, unless the context was done.
  pub waiting :
      w.unserved ≡ true
      → (w.token ≡ true) ⊎ (w.armed ≡ true) × (w.mode ≡ running) ⊎ (w.mode ≡ cancelled)
  -- Each recompile is paid for by an event.
  pub paid : w.fired + one_if w.armed + one_if w.token ≤ w.scanned

Kept-Step : (v w : Watch) → Step v w → Kept v → Kept w
unfolding scan_line close_stream on_event on_timer on_done on_cancel fire
Kept-Step v w (line more) k = record {
  waiting = λ h. inl refl;
  paid = let p = k.paid in ground arith;
}
Kept-Step v w (stream_end more) k = record { waiting = k.waiting; paid = k.paid }
Kept-Step v w (event runs full) k = record {
  waiting = λ h. inr (inl (refl, runs));
  paid = let p = k.paid in ground arith;
}
Kept-Step v w (timer runs set) k = record {
  waiting = λ h. cc;
  paid = let p = k.paid in ground arith;
}
Kept-Step v w (done runs closed) k = elim (Bool-cases v.armed) [
  | inl set ↦ rw set (record { waiting = λ h. cc; paid = let p = k.paid in ground arith })
  | inr unset ↦ rw unset (record {
    waiting = λ h. elim (k.waiting h) [
      | inl full ↦ inl full
      | inr (inl (set, _)) ↦ let bad = sym unset ∙ set in cc
      | inr (inr over) ↦ let bad = sym runs ∙ over in cc
    ];
    paid = let p = k.paid in ground arith;
  })
]
Kept-Step v w (cancel runs) k = record {
  waiting = λ h. inr (inr refl);
  paid = let p = k.paid in ground arith;
}

-- However the scanner, the timer and the context are interleaved: an event that came since the last
-- recompile began is still in the channel, or has armed the timer of the running loop, or the context
-- was done; and there are no more recompiles than events.
pub Reachable-Kept : (w : Watch) → Reachable w → Kept w
Reachable-Kept w begin = record { waiting = λ h. cc; paid = omega arith }
Reachable-Kept w (next {v} r s) = Kept-Step v w s (Reachable-Kept v r)
