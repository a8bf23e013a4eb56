-- ===== src/Common/Scan.antt =====
-- Cutting a text at its first separator, and reading it line by line with a `bufio.Scanner`.
pub mod Cuts
use Prim.Native.Nat.{◌-◌, ℕ, zero, suc}
use mathlib.Core.Bool.{Bool, true, false, ◌&&◌, ◌||◌}
use mathlib.Core.List.{List, [], ◌∷◌, ◌++◌, reverse, reverse-cons, reverse-reverse}
use mathlib.Core.Logic.{◌≢◌}
use mathlib.Core.Option.{Option, none, some}
use mathlib.Core.Path.{◌≡◌, refl, ap, ◌∙◌}
use native.Mathlib.Omega.{arith}
use zfw_dark.Common.Lists.{length, drop, All, All-append}
use zfw_dark.Common.Tests.{leb, nat_eq, if◌then◌else◌}
use zfw_dark.Common.Text.{
  Text, split, add_front, join, between, trim_space, trim_front, space1, space2, space3,
}

-- `strings.HasPrefix(s, p)`.
unfoldable pub has_prefix : Text → Text → Bool
has_prefix [] s = true
has_prefix (a ∷ p) [] = false
has_prefix (a ∷ p) (c ∷ s) = nat_eq a c && has_prefix p s

-- `strings.HasSuffix(s, t)`.
unfoldable pub has_suffix : Text → Text → Bool
unfolding has_prefix
has_suffix s t = has_prefix (reverse t) (reverse s)

-- `strings.Contains(s, sub)`.
unfoldable pub has_text : Text → Text → Bool
has_text sub [] = has_prefix sub []
has_text sub (c ∷ s) = has_prefix sub (c ∷ s) || has_text sub s

-- `strings.Cut(s, sep)` at a separator of one byte; `none` if there is none.
unfoldable in_front : ℕ → Option (Text × Text) → Option (Text × Text)
in_front c none = none
in_front c (some (before, after)) = some (c ∷ before, after)

unfoldable pub cut : ℕ → Text → Option (Text × Text)
unfolding in_front
cut sep [] = none
cut sep (c ∷ s) = let rest = cut sep s in if nat_eq c sep then some ([], s) else in_front c rest

-- What stands in front of the last separator and behind it.
unfoldable pub cut_last : ℕ → Text → Option (Text × Text)
unfolding in_front
cut_last sep [] = none
cut_last sep (c ∷ s) =
    let rest = cut_last sep s in
    elim rest [ none ↦ if nat_eq c sep then some ([], s) else none | some p ↦ in_front c (some p) ]

-- What stands in front of the first occurrence of a text and behind it.
unfoldable pub cut_text : Text → Text → Option (Text × Text)
unfolding in_front
cut_text sub [] = if has_prefix sub [] then some ([], []) else none
cut_text sub (c ∷ s) =
    let rest = cut_text sub s in
    if has_prefix sub (c ∷ s) then some ([], drop (length sub) (c ∷ s)) else in_front c rest

-- `strings.Trim`, `strings.TrimLeft` and `strings.TrimRight` by the bytes of a set.
unfoldable pub trim_left : (ℕ → Bool) → Text → Text
trim_left p [] = []
trim_left p (c ∷ s) = let rest = trim_left p s in if p c then rest else c ∷ s

unfoldable pub trim_right : (ℕ → Bool) → Text → Text
unfolding trim_left
trim_right p s = reverse (trim_left p (reverse s))

unfoldable pub trim_both : (ℕ → Bool) → Text → Text
unfolding trim_right
trim_both p s = trim_right p (trim_left p s)

-- The lines of a text: what follows the last newline is a line unless it is empty.
unfoldable pub lines : Text → List Text
unfolding add_front
lines [] = []
lines (c ∷ s) = let rest = lines s in if nat_eq c b'\n' then [] ∷ rest else add_front c rest

-- A line without the carriage return at its end.
unfoldable pub drop_cr : Text → Text
drop_cr [] = []
drop_cr (c ∷ []) = if nat_eq c b'\r' then [] else c ∷ []
drop_cr (c ∷ d ∷ s) = c ∷ drop_cr (d ∷ s)

-- What a scanner reads: the lines up to the first that does not fit its buffer, and whether there is
-- one (`ErrTooLong`).
unfoldable pub scanned : ℕ → List Text → List Text × Bool
scanned room [] = ([], false)
scanned room (l ∷ ls) =
    let (rest, too_long) = scanned room ls in
    if leb room (length l) then ([], true) else (drop_cr l ∷ rest, too_long)

unfoldable pub scan : ℕ → Text → List Text × Bool
scan room s = scanned room (lines s)

-- The length of the white-space character in front, 0 if there is none.
abbrev pub white : Text → ℕ
white [] = 0
white (a ∷ []) = if space1 a then 1 else 0
white (a ∷ b ∷ []) = if space1 a then 1 else if space2 a b then 2 else 0
white (a ∷ b ∷ c ∷ s) =
    if space1 a then 1 else if space2 a b then 2 else if space3 a b c then 3 else 0

abbrev word_then : Text → List Text → List Text
word_then [] rest = rest
word_then (c ∷ w) rest = (c ∷ w) ∷ rest

-- `strings.Fields`, with the bytes that a white-space character still has and the word so far.
unfoldable pub fields_from : ℕ → Text → Text → List Text
unfolding space1 space2 space3
fields_from skip word [] = word_then word []
fields_from (suc k) word (c ∷ s) = fields_from k word s
fields_from zero word (c ∷ s) =
    let inside = fields_from zero (word ++ c ∷ []) s in
    let behind = fields_from (white (c ∷ s) - 1) [] s in
    if nat_eq (white (c ∷ s)) 0 then inside else word_then word behind

unfoldable pub fields : Text → List Text
unfolding fields_from
fields s = fields_from 0 [] s

-- A printing byte of ASCII that is not the blank.
abbrev pub Solid : ℕ → Type 0
Solid c = between 33 126 c ≡ true

abbrev pub Without : ℕ → Text → Type 0
Without sep s = All (λ c. c ≢ sep) s

pub cut-append : (sep : ℕ) (k v : Text) → Without sep k → cut sep (k ++ sep ∷ v) ≡ some (k, v)
unfolding cut in_front
cut-append sep [] v h = ground arith
cut-append sep (c ∷ k) v (ne, h) = rw (cut-append sep k v h) (ground arith)

pub lines-append : (l s : Text) → Without b'\n' l → lines (l ++ b'\n' ∷ s) ≡ l ∷ lines s
unfolding lines add_front
lines-append [] s h = refl
lines-append (c ∷ l) s (ne, h) = rw (lines-append l s h) (ground arith)

pub split-append :
    (sep : ℕ) (l s : Text) → Without sep l → split sep (l ++ sep ∷ s) ≡ l ∷ split sep s
unfolding split add_front
split-append sep [] s h = ground arith
split-append sep (c ∷ l) s (ne, h) = rw (split-append sep l s h) (ground arith)

pub split-whole : (sep : ℕ) (l : Text) → Without sep l → split sep l ≡ l ∷ []
unfolding split add_front
split-whole sep [] h = refl
split-whole sep (c ∷ l) (ne, h) = rw (split-whole sep l h) (ground arith)

pub split-join :
    (sep : ℕ) (part : Text) (parts : List Text)
    → All (Without sep) (part ∷ parts)
    → split sep (join (sep ∷ []) (part ∷ parts)) ≡ part ∷ parts
unfolding join
split-join sep part [] (h, _) = split-whole sep part h
split-join sep part (next ∷ parts) (h, hs) =
    split-append sep part (join (sep ∷ []) (next ∷ parts)) h
    ∙ ap (◌∷◌ part) (split-join sep next parts hs)

pub drop_cr-Solid : (s : Text) → All Solid s → drop_cr s ≡ s
unfolding drop_cr
drop_cr-Solid [] h = refl
drop_cr-Solid (c ∷ []) (p, _) = ground arith
drop_cr-Solid (c ∷ d ∷ s) (p, h) = ap (◌∷◌ c) (drop_cr-Solid (d ∷ s) h)

pub trim_front-Solid :
    (back : Bool) (f c : ℕ) (s : Text) → Solid c → trim_front back f (c ∷ s) ≡ c ∷ s
unfolding trim_front space1 space2 space3
trim_front-Solid back zero c s h = refl
trim_front-Solid back (suc f) c [] h = ground arith
trim_front-Solid true (suc f) c (d ∷ []) h = ground arith
trim_front-Solid false (suc f) c (d ∷ []) h = ground arith
trim_front-Solid true (suc f) c (d ∷ e ∷ s) h = ground arith
trim_front-Solid false (suc f) c (d ∷ e ∷ s) h = ground arith

trim_front-Solids : (back : Bool) (f : ℕ) (s : Text) → All Solid s → trim_front back f s ≡ s
unfolding trim_front
trim_front-Solids back zero [] h = refl
trim_front-Solids back (suc f) [] h = refl
trim_front-Solids back f (c ∷ s) (p, h) = trim_front-Solid back f c s p

All-reverse : (s : Text) → All Solid s → All Solid (reverse s)
All-reverse [] h = tt
All-reverse (c ∷ s) (p, h) =
    rw (reverse-cons c s) (All-append Solid (reverse s) (c ∷ []) (All-reverse s h) (p, tt))

pub trim_space-Solid : (s : Text) → All Solid s → trim_space s ≡ s
unfolding trim_space
trim_space-Solid s h =
    rw
      (
        trim_front-Solids false (length s) s h,
        trim_front-Solids true (length s) (reverse s) (All-reverse s h),
      )
      (reverse-reverse s)
