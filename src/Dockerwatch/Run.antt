-- ===== src/Dockerwatch/Run.antt =====
-- `Run` of internal/dockerwatch/dockerwatch.go: one call of `consume` after another, as steps.
use zfw_dark.Common.{ℕ, ◌+◌, ◌≤◌, ◌≡◌, ◌≢◌, arith}
use zfw_dark.Dockerwatch.{running, Watch, start, Step, Reachable, begin, next}
use zfw_dark.Dockerwatch.Served.{Reachable-Kept}

-- Where `Run` is: before `LookPath`, at the test of the loop, in `consume`, in the backoff, or back.
pub data Phase : Type 0 where
  looking ready waiting stopped : Phase
  watching : Watch → Phase

-- The events and the recompiles of the calls of `consume` that are over.
pub record Runner : Type 0 where
  pub phase : Phase
  pub scanned : ℕ
  pub fired : ℕ

abbrev pub runner : Runner
runner = record { phase = looking; scanned = 0; fired = 0 }

unfoldable pub move_to : Runner → Phase → Runner
move_to r p = record r { phase = p }

-- `consume` has returned, and `cmd.Wait`.
unfoldable pub consumed : Runner → Watch → Runner
consumed r w = record {
  phase = waiting;
  scanned = r.scanned + w.scanned;
  fired = r.fired + w.fired;
}

pub data RunStep (r : Runner) : Runner → Type 0 where
  no_docker : r.phase ≡ looking → RunStep r (move_to r stopped)
  has_docker : r.phase ≡ looking → RunStep r (move_to r ready)
  over : r.phase ≡ ready → RunStep r (move_to r stopped)
  started : r.phase ≡ ready → RunStep r (move_to r (watching start))
  not_started : r.phase ≡ ready → RunStep r (move_to r waiting)
  goes_on : (v w : Watch) → r.phase ≡ watching v → Step v w → RunStep r (move_to r (watching w))
  returns : (v : Watch) → r.phase ≡ watching v → v.mode ≢ running → RunStep r (consumed r v)
  cancelled : r.phase ≡ waiting → RunStep r (move_to r stopped)
  retried : r.phase ≡ waiting → RunStep r (move_to r ready)

pub data Running : Runner → Type 0 where
  from_start : Running runner
  and_then : {r t : Runner} → Running r → RunStep r t → Running t

abbrev InPhase : Phase → Type 0
InPhase looking = Unit
InPhase ready = Unit
InPhase waiting = Unit
InPhase stopped = Unit
InPhase (watching w) = Reachable w

-- What holds at every step of `Run`.
pub record Sparing (r : Runner) : Type 0 where
  pub watched : InPhase r.phase
  pub paid : r.fired ≤ r.scanned

fired-scanned : (w : Watch) → Reachable w → w.fired ≤ w.scanned
fired-scanned w h = let k = (Reachable-Kept w h).paid in omega arith

watched_at : (r : Runner) (v : Watch) → r.phase ≡ watching v → InPhase r.phase → Reachable v
watched_at r v at h = rw at at h

Sparing-RunStep : (r t : Runner) → RunStep r t → Sparing r → Sparing t
unfolding move_to consumed
Sparing-RunStep r t (no_docker at) s = record { watched = tt; paid = s.paid }
Sparing-RunStep r t (has_docker at) s = record { watched = tt; paid = s.paid }
Sparing-RunStep r t (over at) s = record { watched = tt; paid = s.paid }
Sparing-RunStep r t (started at) s = record { watched = begin; paid = s.paid }
Sparing-RunStep r t (not_started at) s = record { watched = tt; paid = s.paid }
Sparing-RunStep r t (goes_on v w at step) s = record {
  watched = next (watched_at r v at s.watched) step;
  paid = s.paid;
}
Sparing-RunStep r t (returns v at ended) s = record {
  watched = tt;
  paid = let more = fired-scanned v (watched_at r v at s.watched) in let p = s.paid in omega arith;
}
Sparing-RunStep r t (cancelled at) s = record { watched = tt; paid = s.paid }
Sparing-RunStep r t (retried at) s = record { watched = tt; paid = s.paid }

-- However often the stream of events ends and is opened again, there are no more recompiles than
-- events, and each call of `consume` takes steps that its own invariant covers.
pub Running-Sparing : (r : Runner) → Running r → Sparing r
Running-Sparing r from_start = record { watched = tt; paid = omega arith }
Running-Sparing r (and_then {r = u} h step) = Sparing-RunStep u r step (Running-Sparing u h)
