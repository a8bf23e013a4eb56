-- ===== src/Compiler/Inert/Bytes.antt =====
-- Bytes that bash takes literally, inside and outside double quotes, and texts of such bytes.
-- No blank but the space, no newline, and none of ; & | $ ` ' \ < > ( ) { } [ ] # ! * ? ~ = % ^ @.
use zfw_dark.Common.{
  ℕ, zero, suc, ◌+◌, ◌%◌, ◌/◌, ◌<◌, Bool, true, false, ◌||◌, List, [], ◌∷◌, ◌++◌, map, reverse, ◌≡◌,
  refl, inl, inr, arith, all, nat_eq, ltb, All, Bool-cases, and-parts, if◌then◌else◌,
}
use mathlib.Core.List.{reverse-cons}
use zfw_dark.Common.Int.{ℤ, pos, negsuc}
use zfw_dark.Config.{set_name}
use zfw_dark.Common.Text.{
  Text, Std, lit, is_letter, is_digit, join, itoa, print_nat, digits_from, is_plain, quote,
  trim_front, trim_space, to_lower, lower_byte,
}

unfoldable pub is_inert : ℕ → Bool
is_inert c =
    is_letter c
    || is_digit c
    || nat_eq c b' '
    || nat_eq c b'-'
    || nat_eq c b'_'
    || nat_eq c b'.'
    || nat_eq c b':'
    || nat_eq c b'/'
    || nat_eq c b'+'
    || nat_eq c b','
    || nat_eq c b'"'

-- A family, so that what it is about can be read off a goal.
pub data Every {ℓ} {A : Type ℓ} (P : A → Type 0) : List A → Type ℓ where
  end : Every P []
  also : {x : A} {xs : List A} → P x → Every P xs → Every P (x ∷ xs)

pub Every-append {ℓ} :
    {A : Type ℓ} {P : A → Type 0} {xs ys : List A} → Every P xs → Every P ys → Every P (xs ++ ys)
Every-append end k = k
Every-append (also p h) k = also p (Every-append h k)

pub Every-map {ℓ} :
    {A : Type ℓ} {P Q : A → Type 0} {xs : List A} → ((x : A) → P x → Q x) → Every P xs → Every Q xs
Every-map f end = end
Every-map f (also p h) = also (f _ p) (Every-map f h)

pub Every-if {ℓ} :
    {A : Type ℓ} {P : A → Type 0} (b : Bool) {xs ys : List A}
    → Every P xs
    → Every P ys
    → Every P (if b then xs else ys)
Every-if true h k = h
Every-if false h k = k

-- Each side may use what its test says.
pub Every-when {ℓ} :
    {A : Type ℓ} {P : A → Type 0} (b : Bool) {xs ys : List A}
    → (b ≡ true → Every P xs)
    → (b ≡ false → Every P ys)
    → Every P (if b then xs else ys)
Every-when true h k = h refl
Every-when false h k = k refl

pub Every-of_all :
    (test : ℕ → Bool) (xs : Text) → all test xs ≡ true → Every (λ c. test c ≡ true) xs
Every-of_all test [] h = end
Every-of_all test (c ∷ s) h =
    let (here, later) = and-parts _ _ h in also here (Every-of_all test s later)

pub Every-of_All {ℓ} : {A : Type ℓ} (P : A → Type 0) (xs : List A) → All P xs → Every P xs
Every-of_All P [] h = end
Every-of_All P (x ∷ xs) (p, h) = also p (Every-of_All P xs h)

pub all-of_Every :
    {test : ℕ → Bool} {xs : Text} → Every (λ c. test c ≡ true) xs → all test xs ≡ true
all-of_Every end = refl
all-of_Every (also e h) = rw e (all-of_Every h)

abbrev pub IsInert : ℕ → Type 0
IsInert c = is_inert c ≡ true

abbrev pub Inert : Text → Type 0
Inert s = Every IsInert s

abbrev pub AllInert : List Text → Type 0
AllInert ls = Every Inert ls

pub lit-Inert : (t : Text) → all is_inert t ≡ true → Inert t
lit-Inert t h = Every-of_all is_inert t h

pub join-Inert :
    {sep : Text} {parts : List Text} → Inert sep → AllInert parts → Inert (join sep parts)
unfolding join
join-Inert h end = end
join-Inert h (also p end) = p
join-Inert h (also p (also q ps)) = Every-append p (Every-append h (join-Inert h (also q ps)))

digit-Inert : (n : ℕ) → n < 10 → is_inert (b'0' + n) ≡ true
unfolding is_inert
digit-Inert n h = ground arith

digits_from-Inert : (f n : ℕ) → Inert (digits_from f n)
unfolding digits_from
digits_from-Inert zero n = end
digits_from-Inert (suc f) n = elim (Bool-cases (ltb n 10)) [
  | inl small ↦ rw small (also (digit-Inert n (ground arith)) end)
  | inr big ↦
      rw big (
        Every-append (digits_from-Inert f (n / 10)) (also (digit-Inert (n % 10) (omega arith)) end))
]

minus-Inert : is_inert b'-' ≡ true
unfolding is_inert
minus-Inert = refl

quote_mark-Inert : is_inert b'"' ≡ true
unfolding is_inert
quote_mark-Inert = refl

pub itoa-Inert : (n : ℤ) → Inert (itoa n)
unfolding itoa print_nat
itoa-Inert (pos n) = digits_from-Inert (suc n) n
itoa-Inert (negsuc n) = also minus-Inert (digits_from-Inert (suc (suc n)) (suc n))

-- What holds of every byte of a text holds of the trimmed text.
module _ {P : ℕ → Type 0} where
  Every-reverse : {s : Text} → Every P s → Every P (reverse s)
  Every-reverse end = end
  Every-reverse (also p h) = rw reverse-cons (Every-append (Every-reverse h) (also p end))

  Every-trim_front : (back : Bool) (f : ℕ) {s : Text} → Every P s → Every P (trim_front back f s)
  unfolding trim_front
  Every-trim_front back zero h = h
  Every-trim_front back (suc f) end = end
  Every-trim_front back (suc f) (also p end) = Every-if _ end (also p end)
  Every-trim_front back (suc f) (also p (also q end)) =
      Every-if _ (Every-trim_front back f (also q end)) (Every-if _ end (also p (also q end)))
  Every-trim_front back (suc f) (also p (also q (also r h))) =
      Every-if _ (Every-trim_front back f (also q (also r h))) (
        Every-if _ (Every-trim_front back f (also r h))
          (Every-if _ (Every-trim_front back f h) (also p (also q (also r h)))))

  pub Every-trim_space : {s : Text} → Every P s → Every P (trim_space s)
  unfolding trim_space
  Every-trim_space h =
      Every-reverse (Every-trim_front true _ (Every-reverse (Every-trim_front false _ h)))

abbrev IsLetter : ℕ → Type 0
IsLetter c = is_letter c ≡ true

lower_byte-IsLetter : {s : Text} → Every IsLetter s → Every IsLetter (map lower_byte s)
unfolding lower_byte
lower_byte-IsLetter end = end
lower_byte-IsLetter (also l h) = also (ground arith) (lower_byte-IsLetter h)

letter-ascii : (c : ℕ) → is_letter c ≡ true → ltb c 0x80 ≡ true
letter-ascii c h = ground arith

-- A text of letters in lower case is a text of letters.
to_lower_byte-IsLetters :
    (std : Std) {s : Text} → Every IsLetter s → Every IsLetter (to_lower std s)
unfolding to_lower
to_lower_byte-IsLetters std {s} h =
    let ascii : all (λ c. ltb c 0x80) s ≡ true = all-of_Every (Every-map letter-ascii h) in
    rw ascii (lower_byte-IsLetter h)

letter-Inert : (c : ℕ) → is_letter c ≡ true → is_inert c ≡ true
unfolding is_inert
letter-Inert c h = ground arith

-- `geo.SetName` of a country code.
pub set_name-Inert : (std : Std) {cc : Text} → Every IsLetter cc → Inert (set_name std cc)
unfolding set_name lit is_inert
set_name-Inert std h =
    Every-append (lit-Inert (lit "zfw-cc-") refl)
      (Every-map letter-Inert (to_lower_byte-IsLetters std (Every-trim_space h)))

-- A text of plain bytes is only put between quotes.
pub quote-Inert :
    (std : Std) {s : Text} → Every (λ c. is_plain c ≡ true) s → Inert s → Inert (quote std s)
unfolding quote
quote-Inert std plain h =
    rw (all-of_Every plain) (also quote_mark-Inert (Every-append h (also quote_mark-Inert end)))
