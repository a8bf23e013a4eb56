-- ===== src/Common/Scan/Cuts.antt =====
-- What the cuts of a text say of it: Go's strings.HasSuffix, and strings.Index and LastIndex.
use mathlib.Core.List.{reverse, reverse-append, reverse-reverse}
use zfw_dark.Common.{
  ℕ, true, false, [], ◌∷◌, ◌++◌, Option, none, some, ◌≡◌, ◌≢◌, refl, sym, ap, ◌∙◌, subst, inl, inr,
  arith, All, nat_eq, drop, length, Bool-cases,
}
use zfw_dark.Common.Scan.{has_prefix, has_suffix, in_front, cut_last, cut_text}
use zfw_dark.Common.Text.{Text}

same_byte : (a c : ℕ) → nat_eq a c ≡ true → a ≡ c
same_byte a c h = ground arith

has_prefix-split : (p s : Text) → has_prefix p s ≡ true → (r : Text) × (s ≡ p ++ r)
unfolding has_prefix
has_prefix-split [] s h = (s, refl)
has_prefix-split (a ∷ p) [] h = absurd (cc)
has_prefix-split (a ∷ p) (c ∷ s) h =
    let first : nat_eq a c ≡ true = ground arith in
    let (r, e) = has_prefix-split p s (ground arith) in (r, rw (same_byte a c first) (ap (◌∷◌ c) e))

has_prefix-append : (p r : Text) → has_prefix p (p ++ r) ≡ true
unfolding has_prefix
has_prefix-append [] r = refl
has_prefix-append (a ∷ p) r =
    let here : nat_eq a a ≡ true = ground arith in rw (here, has_prefix-append p r) refl

pub has_suffix-split : (s t : Text) → has_suffix s t ≡ true → (r : Text) × (s ≡ r ++ t)
unfolding has_suffix
has_suffix-split s t h =
    let (r, e) = has_prefix-split (reverse t) (reverse s) h in
    (
      reverse r,
      sym (reverse-reverse s)
          ∙ ap reverse e
          ∙ reverse-append (reverse t) r
          ∙ ap (λ x. reverse r ++ x) (reverse-reverse t),
    )

pub has_suffix-append : (r t : Text) → has_suffix (r ++ t) t ≡ true
unfolding has_suffix
has_suffix-append r t = rw (reverse-append r t) (has_prefix-append (reverse t) (reverse r))

-- The last separator.
pub data CutLast (sep : ℕ) (s : Text) : Option (Text × Text) → Type 0 where
  absent : All (λ c. c ≢ sep) s → CutLast sep s none
  at_last :
      (before after : Text)
      → s ≡ before ++ sep ∷ after
      → All (λ c. c ≢ sep) after
      → CutLast sep s (some (before, after))

cut_last-step :
    (sep c : ℕ) (s : Text) (o : Option (Text × Text))
    → cut_last sep s ≡ o
    → CutLast sep s o
    → CutLast sep (c ∷ s) (cut_last sep (c ∷ s))
unfolding cut_last
cut_last-step sep c s (some (b, a)) e (at_last _ _ split none_behind) =
    rw e (at_last (c ∷ b) a (ap (◌∷◌ c) split) none_behind)
cut_last-step sep c s none e (absent others) = elim (Bool-cases (nat_eq c sep)) [
  | inl k ↦ rw (e, k) (at_last [] s (rw (same_byte c sep k) refl) others)
  | inr k ↦ rw (e, k) (absent (λ same. ground arith, others))
]

pub cut_last-CutLast : (sep : ℕ) (s : Text) → CutLast sep s (cut_last sep s)
unfolding cut_last
cut_last-CutLast sep [] = absent tt
cut_last-CutLast sep (c ∷ s) = cut_last-step sep c s (cut_last sep s) refl (cut_last-CutLast sep s)

cut_last-absent : (sep : ℕ) (s : Text) → All (λ c. c ≢ sep) s → cut_last sep s ≡ none
unfolding cut_last
cut_last-absent sep [] h = refl
cut_last-absent sep (c ∷ s) (here, h) =
    let other : nat_eq c sep ≡ false = ground arith in rw (cut_last-absent sep s h, other) refl

pub cut_last-append :
    (sep : ℕ) (before after : Text)
    → All (λ c. c ≢ sep) after
    → cut_last sep (before ++ sep ∷ after) ≡ some (before, after)
unfolding cut_last
cut_last-append sep [] after h =
    let same : nat_eq sep sep ≡ true = ground arith in rw (cut_last-absent sep after h, same) refl
cut_last-append sep (c ∷ before) after h = rw (cut_last-append sep before after h) refl

-- A text in which another occurs nowhere.
abbrev pub Avoids : Text → Text → Type 0
Avoids sub [] = Unit
Avoids sub (c ∷ s) = (has_prefix sub (c ∷ s) ≡ false) × Avoids sub s

drop-append : (p r : Text) → drop (length p) (p ++ r) ≡ r
drop-append [] r = refl
drop-append (c ∷ p) r = drop-append p r

-- A prefix of the front is one of the whole.
prefix_shorter : (p b rest : Text) → has_prefix p (b ++ rest) ≡ false → has_prefix p b ≡ false
unfolding has_prefix
prefix_shorter [] b rest h = absurd (cc)
prefix_shorter (a ∷ p) [] rest h = refl
prefix_shorter (a ∷ p) (c ∷ b) rest h = elim (Bool-cases (nat_eq a c)) [
  | inl e ↦ rw e (prefix_shorter p b rest (rw e at h))
  | inr e ↦ rw e refl
]

-- The first occurrence of a text that is not empty.
module _ (a : ℕ) (p : Text) where
  CutText : Text → Option (Text × Text) → Type 0
  CutText s none = Unit
  CutText s (some (before, after)) = (s ≡ before ++ ((a ∷ p) ++ after)) × Avoids (a ∷ p) before

  CutText-step :
      (c : ℕ) (s : Text) (o : Option (Text × Text))
      → has_prefix (a ∷ p) (c ∷ s) ≡ false
      → CutText s o
      → CutText (c ∷ s) (in_front c o)
  unfolding CutText in_front
  CutText-step c s none h k = tt
  CutText-step c s (some (before, after)) h (split, avoids) =
      let whole : c ∷ s ≡ (c ∷ before) ++ ((a ∷ p) ++ after) = ap (◌∷◌ c) split in
      (whole, (prefix_shorter (a ∷ p) (c ∷ before) ((a ∷ p) ++ after) (rw whole at h), avoids))

  cut_text-CutText : (s : Text) → CutText s (cut_text (a ∷ p) s)
  unfolding CutText cut_text has_prefix
  cut_text-CutText [] = tt
  cut_text-CutText (c ∷ s) = elim (Bool-cases (has_prefix (a ∷ p) (c ∷ s))) [
    | inl e ↦
        let (r, split) = has_prefix-split (a ∷ p) (c ∷ s) e in
        rw e (
          split
              ∙ ap (λ x. (a ∷ p) ++ x)
                  (sym (drop-append (a ∷ p) r) ∙ ap (drop (length (a ∷ p))) (sym split)),
          tt,
        )
    | inr e ↦ rw e (CutText-step c s (cut_text (a ∷ p) s) e (cut_text-CutText s))
  ]

  pub cut_text-split :
      (s before after : Text)
      → cut_text (a ∷ p) s ≡ some (before, after)
      → (s ≡ before ++ ((a ∷ p) ++ after)) × Avoids (a ∷ p) before
  unfolding CutText
  cut_text-split s before after h = subst (CutText s) h (cut_text-CutText s)

-- Two bytes that differ do not overlap with what stands in front of them.
two_apart :
    (x y c : ℕ) (b after : Text)
    → nat_eq y x ≡ false
    → has_prefix (x ∷ y ∷ []) (c ∷ b) ≡ false
    → has_prefix (x ∷ y ∷ []) (c ∷ b ++ x ∷ y ∷ after) ≡ false
unfolding has_prefix
two_apart x y c [] after apart h = ground arith
two_apart x y c (d ∷ b) after apart h = ground arith

pub cut_text-append :
    (x y : ℕ) (before after : Text)
    → nat_eq y x ≡ false
    → Avoids (x ∷ y ∷ []) before
    → cut_text (x ∷ y ∷ []) (before ++ x ∷ y ∷ after) ≡ some (before, after)
unfolding cut_text in_front
cut_text-append x y [] after apart h =
    rw (has_prefix-append (x ∷ y ∷ []) after)
      (ap (λ r. some ([], r)) (drop-append (x ∷ y ∷ []) after))
cut_text-append x y (c ∷ before) after apart (here, h) =
    rw (two_apart x y c before after apart here, cut_text-append x y before after apart h) refl
