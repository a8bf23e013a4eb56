-- ===== src/Audit/Settled.antt =====
-- Two calls of `Update` of internal/audit/history.go in a row on the findings of one state.
use zfw_dark.Common.{
  ℕ, zero, suc, ◌-◌, ◌<◌, Bool, true, false, List, [], ◌∷◌, ◌++◌, ◌≡◌, refl, ap, ◌∙◌, inl, inr,
  arith, length, drop, ltb, All, Bool-cases, not, ◌&&◌, all, All-map, all→All, and-parts,
}
use zfw_dark.Common.Text.{Text, lit, ◌==◌, ==_iff}
use zfw_dark.Audit.{
  Entry, Finding, History, last_is, keep_newest, record_entries, update_one, update,
}
use zfw_dark.Audit.Catalog.{findings}
use zfw_dark.Firewall.{TierConfig}
use zfw_dark.Firewall.Live.{Status}

-- No two findings have the same id.
abbrev pub Distinct : List Finding → Type 0
Distinct [] = Unit
Distinct (f ∷ fs) = All (λ g. (f.id == g.id) ≡ false) fs × Distinct fs

==-self : (s : Text) → (s == s) ≡ true
==-self s = (==_iff s s).1 refl

last_is-append :
    (status : Text) (es : List Entry) (e : Entry)
    → last_is status (es ++ e ∷ []) ≡ (e.status == status)
unfolding last_is
last_is-append status [] e = refl
last_is-append status (x ∷ []) e = refl
last_is-append status (x ∷ y ∷ es) e = last_is-append status (y ∷ es) e

last_is-drop :
    (status : Text) (n : ℕ) (es : List Entry)
    → n < length es
    → last_is status (drop n es) ≡ last_is status es
unfolding last_is
last_is-drop status zero es h = refl
last_is-drop status (suc n) [] h = absurd (omega arith)
last_is-drop status (suc n) (x ∷ []) h = absurd (omega arith)
last_is-drop status (suc n) (x ∷ y ∷ es) h = last_is-drop status n (y ∷ es) (omega arith)

keep_newest-last :
    (status : Text) (es : List Entry) → last_is status (keep_newest es) ≡ last_is status es
unfolding keep_newest
keep_newest-last status es = elim (Bool-cases (ltb 20 (length es))) [
  | inl e ↦ rw e (last_is-drop status (length es - 20) es (ground arith))
  | inr e ↦ rw e refl
]

-- After one round the timeline of its finding ends with its status.
update_one-last :
    (ts : Text) (f : Finding) (h : History) → last_is f.status ((update_one ts f h).0 f.id) ≡ true
unfolding update_one record_entries
update_one-last ts f h = elim (Bool-cases (last_is f.status (h f.id))) [
  | inl e ↦ rw e e
  | inr e ↦
      rw (e, ==-self f.id)
        (keep_newest-last f.status _ ∙ last_is-append f.status (h f.id) _ ∙ ==-self f.status)
]

update_one-other :
    (ts id : Text) (f : Finding) (h : History)
    → (id == f.id) ≡ false
    → (update_one ts f h).0 id ≡ h id
unfolding update_one record_entries
update_one-other ts id f h k = elim (Bool-cases (last_is f.status (h f.id))) [
  | inl e ↦ rw e refl
  | inr e ↦ rw (e, k) refl
]

update-other :
    (ts id : Text) (fs : List Finding) (h : History)
    → All (λ g. (id == g.id) ≡ false) fs
    → (update ts fs h).0 id ≡ h id
unfolding update
update-other ts id [] h k = refl
update-other ts id (f ∷ fs) h (k, ks) =
    update-other ts id fs (update_one ts f h).0 ks ∙ update_one-other ts id f h k

-- The timeline of every finding ends with its status.
abbrev Recorded : History → List Finding → Type 0
Recorded h fs = All (λ f. last_is f.status (h f.id) ≡ true) fs

update-Recorded :
    (ts : Text) (fs : List Finding) (h : History) → Distinct fs → Recorded (update ts fs h).0 fs
unfolding update
update-Recorded ts [] h k = tt
update-Recorded ts (f ∷ fs) h (apart, k) =
    let next : History = (update_one ts f h).0 in
    (
      ap (last_is f.status) (update-other ts f.id fs next apart) ∙ update_one-last ts f h,
      update-Recorded ts fs next k,
    )

Recorded-update :
    (ts : Text) (fs : List Finding) (h : History) → Recorded h fs → update ts fs h ≡ (h, false)
unfolding update update_one
Recorded-update ts [] h k = refl
Recorded-update ts (f ∷ fs) h (here, k) = rw (here, Recorded-update ts fs h k) refl

-- A test for it.
unfoldable has_distinct : List Finding → Bool
has_distinct [] = true
has_distinct (f ∷ fs) = all (λ g. not (f.id == g.id)) fs && has_distinct fs

negated : (b : Bool) → not b ≡ true → b ≡ false
negated b h = ground arith

has_distinct-Distinct : (fs : List Finding) → has_distinct fs ≡ true → Distinct fs
unfolding has_distinct
has_distinct-Distinct [] h = tt
has_distinct-Distinct (f ∷ fs) h =
    let (here, later) = and-parts _ _ h in
    (
      All-map (λ g. negated (f.id == g.id)) fs (all→All (λ g. not (f.id == g.id)) fs here),
      has_distinct-Distinct fs later,
    )

findings-has_distinct : (st : Status) (cfg : TierConfig) → has_distinct (findings st cfg) ≡ true
unfolding findings has_distinct lit ◌==◌
findings-has_distinct st cfg = refl

-- However the history was, and whatever the state of the firewall and the configuration are: after
-- an `Update` with the catalog, a later `Update` with the catalog of the same state leaves the
-- history as it is and says that nothing changed.
pub update-findings_settled :
    (ts later : Text) (st : Status) (cfg : TierConfig) (h : History)
    → update later (findings st cfg) (update ts (findings st cfg) h).0
      ≡ ((update ts (findings st cfg) h).0, false)
update-findings_settled ts later st cfg h = Recorded-update later (findings st cfg) _ (
    update-Recorded ts (findings st cfg) h (has_distinct-Distinct _ (findings-has_distinct st cfg)))
