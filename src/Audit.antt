-- ===== src/Audit.antt =====
-- internal/audit/history.go: the statuses that each audit finding has had. A `History` is what the map
-- holds for each id, nil for one that it lacks; `ts` is the text of the time of the call.
pub mod Bounded
pub mod Catalog
pub mod Settled
pub mod Stored
use zfw_dark.Common.{
  ℕ, ◌-◌, suc, Bool, true, false, not, ◌||◌, List, [], ◌∷◌, ◌++◌, Option, none, some,
}
use zfw_dark.Common.{length, drop, ltb, if◌then◌else◌}
use zfw_dark.Common.Text.{Text, ◌==◌}

pub record Entry : Type 0 where
  pub ts : Text
  pub status : Text

-- `Finding` of internal/audit/audit.go.
pub record Finding : Type 0 where
  pub id : Text
  pub sev : Text
  pub title : Text
  pub detail : Text
  pub status : Text

abbrev pub History : Type 0
History = Text → List Entry

abbrev pub max_history_per_finding : ℕ
max_history_per_finding = 20

-- `len(entries) > 0 && entries[len(entries)-1].Status == status`.
unfoldable pub last_is : Text → List Entry → Bool
last_is status [] = false
last_is status (e ∷ []) = e.status == status
last_is status (e ∷ next ∷ es) = last_is status (next ∷ es)

-- The newest entries, as many as are kept.
unfoldable pub keep_newest : List Entry → List Entry
keep_newest es =
    if ltb max_history_per_finding (length es)
    then drop (length es - max_history_per_finding) es
    else es

-- `h[id] = es`.
unfoldable pub record_entries : Text → List Entry → History → History
record_entries id es h i = if i == id then es else h i

-- One round of the loop: the history, and whether it changed.
unfoldable pub update_one : Text → Finding → History → History × Bool
update_one ts f h = if last_is f.status (h f.id) then (h, false) else (
  record_entries f.id (keep_newest (h f.id ++ record { ts = ts; status = f.status } ∷ [])) h,
  true,
)

unfoldable pub update : Text → List Finding → History → History × Bool
update ts [] h = (h, false)
update ts (f ∷ fs) h =
    let (next, changed) = update_one ts f h in
    let (out, dirty) = update ts fs next in (out, changed || dirty)

-- `FindingWithHistory`.
pub record FindingWithHistory : Type 0 where
  pub finding : Finding
  pub history : List Entry

-- `Attach`.
unfoldable pub attach : List Finding → History → List FindingWithHistory
attach [] h = []
attach (f ∷ fs) h = record { finding = f; history = h f.id } ∷ attach fs h
