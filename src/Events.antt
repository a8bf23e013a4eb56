-- ===== src/Events.antt =====
-- internal/events/events.go: the firewall's lines in the kernel log, and the threats among them.
-- Times are microseconds since 1970; the lines of journalctl and their JSON are parameters.
pub mod Histogram
pub mod Window
pub mod Agree
pub mod Reading
pub mod Sources
use zfw_dark.Common.{
  ℕ, zero, suc, ◌-◌, ◌^◌, Bool, true, false, not, ◌&&◌, ◌||◌, List, [], ◌∷◌, ◌++◌, reverse, Option,
  none, some,
}
use zfw_dark.Common.{length, take, drop, any, ltb, leb, nat_eq, if◌then◌else◌}
use zfw_dark.Common.Int.{ℤ, pos, negsuc, ltb_ℤ, eq_ℤ, add_nat}
use zfw_dark.Common.Scan.{has_prefix, cut, fields, scan}
use zfw_dark.Common.Text.{Text, Std, lit, ◌==◌, is_empty, atoi, to_lower}

pub record Event : Type 0 where
  pub time : ℤ
  pub source : Text
  pub port : ℤ
  pub protocol : Text
  pub zone : Text
  pub threats : List Text

-- `portScanWindow`, which is `bruteForceWindow` too.
abbrev pub window : ℕ
window = 60000000

abbrev pub port_scan_threshold : ℕ
port_scan_threshold = 10

abbrev pub brute_force_threshold : ℕ
brute_force_threshold = 20

-- `bruteForceTargets[p]`.
unfoldable pub is_target : ℤ → Bool
is_target p = eq_ℤ p (pos 22) || eq_ℤ p (pos 445) || eq_ℤ p (pos 3389) || eq_ℤ p (pos 8888)

-- A `map[int]int`.
abbrev pub Counts : Type 0
Counts = List (ℤ × ℤ)

-- `m[p]`.
unfoldable pub count_of : ℤ → Counts → ℤ
count_of p [] = pos 0
count_of p ((q, n) ∷ m) = let rest = count_of p m in if eq_ℤ q p then n else rest

-- `m[p]++`.
unfoldable pub count_up : ℤ → Counts → Counts
count_up p [] = (p, pos 1) ∷ []
count_up p ((q, n) ∷ m) =
    let rest = count_up p m in if eq_ℤ q p then (q, add_nat n 1) ∷ m else (q, n) ∷ rest

abbrev pub minus_one : ℤ → ℤ
minus_one (pos zero) = negsuc 0
minus_one (pos (suc n)) = pos n
minus_one (negsuc n) = negsuc (suc n)

-- `m[p]--; if m[p] == 0 { delete(m, p) }`.
unfoldable pub count_down : ℤ → Counts → Counts
count_down p [] = (p, negsuc 0) ∷ []
count_down p ((q, n) ∷ m) =
    let rest = count_down p m in
    if eq_ℤ q p
    then (if eq_ℤ (minus_one n) (pos 0) then m else (q, minus_one n) ∷ m)
    else (q, n) ∷ rest

-- What `classifySource` keeps: the events from `left` on, and the two maps.
pub record Sliding : Type 0 where
  pub inside : List Event
  pub ports : Counts
  pub hits : Counts

abbrev pub has_port : Event → Bool
has_port e = ltb_ℤ (pos 0) e.port

-- `right.Time.Sub(left.Time) <= portScanWindow`.
abbrev pub fits : Event → Event → Bool
fits right left = not (ltb_ℤ (add_nat left.time window) right.time)

abbrev pub evict : Event → Counts → Counts
evict e m = if has_port e then count_down e.port m else m

-- The loop that moves `left`.
unfoldable pub shrink : Event → List Event → Counts → Counts → Sliding
shrink e [] ports hits = record { inside = []; ports = ports; hits = hits }
shrink e (l ∷ q) ports hits =
    let rest = shrink e q (evict l ports) (evict l hits) in
    if fits e l then record { inside = l ∷ q; ports = ports; hits = hits } else rest

abbrev pub let_in : Event → Counts → Counts
let_in e m = if has_port e then count_up e.port m else m

unfoldable pub slide : Event → Sliding → Sliding
unfolding shrink
slide e w =
    let s = shrink e w.inside w.ports w.hits in
    record { inside = s.inside ++ e ∷ []; ports = let_in e s.ports; hits = let_in e s.hits }

-- `addThreat`.
unfoldable pub add_threat : Text → Event → Event
add_threat t e =
    if any (λ x. x == t) e.threats then e else record e { threats = e.threats ++ t ∷ [] }

abbrev pub threat_if : Bool → Text → Event → Event
threat_if b t e = if b then add_threat t e else e

abbrev pub scans : Sliding → Bool
scans w = leb port_scan_threshold (length w.ports)

abbrev pub forces : Event → Sliding → Bool
forces e w =
    has_port e
    && is_target e.port
    && not (ltb_ℤ (count_of e.port w.hits) (pos brute_force_threshold))

unfoldable pub judge : Event → Sliding → Event
judge e w = threat_if (forces e w) (lit "brute_force") (threat_if (scans w) (lit "port_scan") e)

-- `classifySource`, over the events with its source; the others stay as they are.
unfoldable pub classify_source : Text → Sliding → List Event → List Event
unfolding slide judge
classify_source source w [] = []
classify_source source w (e ∷ es) =
    let next = slide e w in
    let mine = classify_source source next es in
    let other = classify_source source w es in
    if e.source == source then judge e next ∷ mine else e ∷ other

abbrev pub no_events : Sliding
no_events = record { inside = []; ports = []; hits = [] }

-- `Classify`; `order` are the sources, as a `range` over the map visits them.
unfoldable pub classify : List Text → List Event → List Event
classify [] events = events
classify (source ∷ order) events = classify order (classify_source source no_events events)
