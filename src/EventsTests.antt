-- ===== src/EventsTests.antt =====
-- The theorems on internal/events applied to a few drops.
use zfw_dark.Common.{ℕ, List, [], ◌∷◌, Option, some, ◌≡◌, refl, arith}
use zfw_dark.Common.Int.{pos}
use zfw_dark.Common.Text.{Text, lit, ◌==◌}
use zfw_dark.Events.{Event, classify}
use zfw_dark.Events.Sources.{classified, classify-classified}
use zfw_dark.Events.Reading.{collect, all_events, Newest, collect-Newest}
use zfw_dark.Events.Window.{Ascending}
use zfw_dark.Tests.{plain_std}

abbrev drop_at : ℕ → ℕ → Event
drop_at t p = record {
  time = pos t;
  source = lit "10.0.0.9";
  port = pos p;
  protocol = lit "tcp";
  zone = lit "host";
  threats = [];
}

abbrev drops : List Event
drops =
    drop_at 0 22
    ∷ record (drop_at 1000000 23) { source = lit "10.0.0.8" }
    ∷ drop_at 61500000 22
    ∷ []

in_order : Ascending drops
in_order = ((omega arith, (omega arith, tt)), ((omega arith, tt), (tt, tt)))

classify-classified_example :
    classify (lit "10.0.0.8" ∷ lit "10.0.0.9" ∷ []) drops ≡ classified [] drops
unfolding lit ◌==◌
classify-classified_example =
    classify-classified (lit "10.0.0.8" ∷ lit "10.0.0.9" ∷ []) drops in_order (refl, (refl, tt))
      (refl, (refl, (refl, tt)))

-- Every line is a message with an empty time stamp.
abbrev plain_line : Text → Option (Text × Text)
plain_line s = some (s, [])

abbrev journal : List Text
journal = lit "ZFW-IN-DROP: SRC=10.0.0.9 PROTO=TCP DPT=22" ∷ lit "usb 1-1: new device" ∷ []

collect-Newest_example :
    Newest plain_std plain_line
      (collect plain_std plain_line [] journal)
      (all_events plain_std plain_line journal)
collect-Newest_example = collect-Newest plain_std plain_line journal
