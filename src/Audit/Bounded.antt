-- ===== src/Audit/Bounded.antt =====
-- What `Update` of internal/audit/history.go keeps of the timelines.
use zfw_dark.Common.{
  ◌-◌, ◌≤◌, Bool, true, false, ◌||◌, List, [], ◌∷◌, ◌≡◌, refl, ◌∙◌, inl, inr, arith, length,
  length-drop, ltb, Bool-cases,
}
use zfw_dark.Common.Text.{Text, ◌==◌}
use zfw_dark.Audit.{
  Entry, Finding, History, last_is, keep_newest, record_entries, update_one, update,
}

-- No timeline has more than 20 entries.
abbrev pub Bounded : History → Type 0
Bounded h = (i : Text) → length (h i) ≤ 20

keep_newest-short : (es : List Entry) → length (keep_newest es) ≤ 20
unfolding keep_newest
keep_newest-short es = elim (Bool-cases (ltb 20 (length es))) [
  | inl e ↦ rw e (omega (arith, length-drop (length es - 20) es))
  | inr e ↦ rw e (ground arith)
]

record_entries-Bounded :
    (id : Text) (es : List Entry) (h : History)
    → length es ≤ 20
    → Bounded h
    → Bounded (record_entries id es h)
unfolding record_entries
record_entries-Bounded id es h short bounded i = elim (Bool-cases (i == id)) [
  | inl e ↦ rw e short
  | inr e ↦ rw e (bounded i)
]

update_one-Bounded :
    (ts : Text) (f : Finding) (h : History) → Bounded h → Bounded (update_one ts f h).0
unfolding update_one
update_one-Bounded ts f h bounded = elim (Bool-cases (last_is f.status (h f.id))) [
  | inl e ↦ rw e bounded
  | inr e ↦ rw e (record_entries-Bounded f.id _ h (keep_newest-short _) bounded)
]

-- `Update` keeps every timeline within 20 entries, whatever findings it is given.
pub update-Bounded :
    (ts : Text) (fs : List Finding) (h : History) → Bounded h → Bounded (update ts fs h).0
unfolding update
update-Bounded ts [] h bounded = bounded
update-Bounded ts (f ∷ fs) h bounded =
    update-Bounded ts fs (update_one ts f h).0 (update_one-Bounded ts f h bounded)

changed-clean : true ≡ false → ⊥
changed-clean h = cc

update_one-clean :
    (ts : Text) (f : Finding) (h : History)
    → (update_one ts f h).1 ≡ false
    → (update_one ts f h).0 ≡ h
unfolding update_one
update_one-clean ts f h clean = elim (Bool-cases (last_is f.status (h f.id))) [
  | inl e ↦ rw e refl
  | inr e ↦ absurd (changed-clean (rw e at clean))
]

neither : (a b : Bool) → (a || b) ≡ false → (a ≡ false) × (b ≡ false)
neither a b h = ground arith

-- If `Update` says that nothing changed, then the history is as it was, so that not saving it loses
-- nothing.
pub update-clean :
    (ts : Text) (fs : List Finding) (h : History)
    → (update ts fs h).1 ≡ false
    → (update ts fs h).0 ≡ h
unfolding update
update-clean ts [] h clean = refl
update-clean ts (f ∷ fs) h clean =
    let (first, rest) = neither _ _ clean in
    update-clean ts fs (update_one ts f h).0 rest ∙ update_one-clean ts f h first
