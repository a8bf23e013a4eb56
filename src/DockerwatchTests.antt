-- ===== src/DockerwatchTests.antt =====
-- A run of internal/dockerwatch that loses its one event: the stream ends, and the loop takes the case
-- of the end before that of the event.
use zfw_dark.Common.{true, ◌≡◌, refl}
use zfw_dark.Dockerwatch.{
  Watch, returned, start, scan_line, close_stream, on_done, line, stream_end, done, Reachable,
  begin, next,
}
use zfw_dark.Dockerwatch.Served.{Kept, Reachable-Kept}

abbrev lost : Watch
unfolding scan_line close_stream on_done
lost = on_done (close_stream (scan_line start))

lost-Reachable : Reachable lost
unfolding scan_line close_stream on_done lost
lost-Reachable = next (next (next begin (line refl)) (stream_end refl)) (done refl refl)

lost-unserved : (lost.unserved ≡ true) × (lost.fired ≡ 0) × (lost.mode ≡ returned)
unfolding scan_line close_stream on_done
lost-unserved = (refl, refl, refl)

Reachable-Kept_example : Kept lost
Reachable-Kept_example = Reachable-Kept lost lost-Reachable
