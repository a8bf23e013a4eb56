-- ===== src/Update/Cache.antt =====
-- The cached status of internal/update/update.go over any number of checks.
use zfw_dark.Common.{ℕ, true, List, [], ◌∷◌, ◌≡◌, ◌≢◌, ◌↔◌, refl, inl, inr, Bool-cases}
use zfw_dark.Common.Int.{pos, ltb_ℤ}
use zfw_dark.Common.Text.{Text, is_empty}
use zfw_dark.Update.{
  Status, Checker, Reply, unanswered, answered, unreadable, manifest, compare, judged, check_once,
}

-- What `Available` says is true: a release is available exactly when one has been read and it comes
-- after the running version.
abbrev pub Truthful : Checker → Type 0
Truthful c =
    (c.last.available ≡ true)
    ↔ ((c.last.latest ≢ []) × (ltb_ℤ (compare c.current c.last.latest) (pos 0) ≡ true))

-- Checks one after the other, at their times.
unfoldable pub checks : Checker → List (ℕ × Reply) → Checker
checks c [] = c
checks c ((now, reply) ∷ rest) = checks (check_once c now reply) rest

is_empty-nil : (s : Text) → is_empty s ≡ true → s ≡ []
is_empty-nil [] h = refl
is_empty-nil (c ∷ s) h = cc

-- What a reply does to the cached release.
data Judged (current : Text) (s : Status) (reply : Reply) (out : Status) : Type 0 where
  kept :
      ((version notes : Text) → reply ≡ manifest version notes → version ≡ [])
      → out.latest ≡ s.latest
      → out.available ≡ s.available
      → out.notes ≡ s.notes
      → Judged current s reply out
  read :
      (version notes : Text)
      → version ≢ []
      → reply ≡ manifest version notes
      → out.latest ≡ version
      → out.notes ≡ notes
      → out.error ≡ s.error
      → out.available ≡ ltb_ℤ (compare current version) (pos 0)
      → Judged current s reply out

judged-Judged :
    (current : Text) (s : Status) (reply : Reply) → Judged current s reply (judged current s reply)
unfolding judged
judged-Judged current s (unanswered e) = kept (λ v n h. cc) refl refl refl
judged-Judged current s (answered code) = kept (λ v n h. cc) refl refl refl
judged-Judged current s (unreadable e) = kept (λ v n h. cc) refl refl refl
judged-Judged current s (manifest [] notes) = kept (λ v n h. cc) refl refl refl
judged-Judged current s (manifest (c ∷ v) notes) =
    read (c ∷ v) notes (λ e. cc) refl refl refl refl refl

-- A check that ends in an error keeps the release, its notes and the badge that an earlier one found;
-- a manifest with a version replaces them, clears the error, and sets the badge if the version comes
-- after the running one.
check_once-Judged :
    (c : Checker) (now : ℕ) (reply : Reply)
    → c.url ≢ []
    → Judged c.current
        (record c.last { checked_at = now; error = [] })
        reply
        (check_once c now reply).last
unfolding check_once
check_once-Judged c now reply h = elim (Bool-cases (is_empty c.url)) [
  | inl e ↦ absurd (h (is_empty-nil c.url e))
  | inr e ↦ rw e (judged-Judged c.current _ reply)
]
