-- ===== src/Dockerwatch.antt =====
-- internal/dockerwatch/dockerwatch.go: `consume`, as the steps that its scanner and its loop take in
-- any order. How long the timer runs is left out: an armed timer may fire at any later step.
pub mod Served
pub mod Run
use zfw_dark.Common.{ℕ, suc, Bool, true, false, ◌≡◌}
use zfw_dark.Common.{if◌then◌else◌}

-- Whether `consume` still runs, and if not, by which case it returned.
pub data Mode : Type 0 where
  running returned cancelled : Mode

-- `token` and `closed` are the channels `events` and `done`, `armed` is `timerC != nil`. The rest
-- counts what happened: the events scanned, the recompiles, and whether an event has come since the
-- last recompile began.
pub record Watch : Type 0 where
  pub mode : Mode
  pub token : Bool
  pub closed : Bool
  pub armed : Bool
  pub scanned : ℕ
  pub fired : ℕ
  pub unserved : Bool

abbrev pub start : Watch
start = record {
  mode = running;
  token = false;
  closed = false;
  armed = false;
  scanned = 0;
  fired = 0;
  unserved = false;
}

-- A line: `select { case events <- struct{}{}: default: }`.
unfoldable pub scan_line : Watch → Watch
scan_line w = record w { token = true; scanned = suc w.scanned; unserved = true }

-- The end of the scanner: `close(done)`.
unfoldable pub close_stream : Watch → Watch
close_stream w = record w { closed = true }

-- `fire`.
unfoldable pub fire : Watch → Watch
fire w = record w { fired = suc w.fired; unserved = false }

-- `case <-events`: the timer is set or set again.
unfoldable pub on_event : Watch → Watch
on_event w = record w { token = false; armed = true }

-- `case <-timerC`.
unfoldable pub on_timer : Watch → Watch
unfolding fire
on_timer w = fire (record w { armed = false })

-- `case <-done`; the timer goes with the call.
unfoldable pub on_done : Watch → Watch
unfolding fire
on_done w = record (if w.armed then fire w else w) { mode = returned; armed = false }

-- `case <-ctx.Done()`.
unfoldable pub on_cancel : Watch → Watch
on_cancel w = record w { mode = cancelled; armed = false }

-- What may happen next. The loop takes any case of its `select` that is ready.
pub data Step (w : Watch) : Watch → Type 0 where
  line : w.closed ≡ false → Step w (scan_line w)
  stream_end : w.closed ≡ false → Step w (close_stream w)
  event : w.mode ≡ running → w.token ≡ true → Step w (on_event w)
  timer : w.mode ≡ running → w.armed ≡ true → Step w (on_timer w)
  done : w.mode ≡ running → w.closed ≡ true → Step w (on_done w)
  cancel : w.mode ≡ running → Step w (on_cancel w)

pub data Reachable : Watch → Type 0 where
  begin : Reachable start
  next : {v w : Watch} → Reachable v → Step v w → Reachable w
