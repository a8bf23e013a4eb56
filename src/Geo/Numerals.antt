-- ===== src/Geo/Numerals.antt =====
-- The decimal texts of `strconv.Itoa`: their bytes, and that they tell the number.
use zfw_dark.Common.{
  ℕ, zero, suc, ◌+◌, ◌-◌, ◌*◌, ◌/◌, ◌%◌, ◌<◌, ◌≤◌, false, [], ◌∷◌, ◌++◌, ◌≡◌, refl, sym, ap, ◌∙◌,
  inl, inr, arith, All, All-append, nat_eq, ltb, Bool-cases, append_assoc, append-nil,
  if◌then◌else◌,
}
use zfw_dark.Common.Int.{ℤ, pos, negsuc}
use zfw_dark.Common.Text.{Text, itoa, print_nat, digits_from}

-- The number that a text of digits stands for, and the integer of a text with a sign.
value : ℕ → Text → ℕ
value n [] = n
value n (c ∷ s) = value (n * 10 + (c - b'0')) s

signed_value : Text → ℤ
unfolding value
signed_value [] = pos 0
signed_value (c ∷ s) = if nat_eq c b'-' then negsuc (value 0 s - 1) else pos (value 0 (c ∷ s))

abbrev pub Digit : ℕ → Type 0
Digit c = (b'0' ≤ c) × (c ≤ b'9')

pub digits_from-Digit : (f n : ℕ) → All Digit (digits_from f n)
unfolding digits_from
digits_from-Digit zero n = tt
digits_from-Digit (suc f) n = elim (Bool-cases (ltb n 10)) [
  | inl e ↦ rw e ((omega arith, ground arith), tt)
  | inr e ↦ rw e (
      All-append Digit (digits_from f (n / 10)) _ (digits_from-Digit f (n / 10))
        ((omega arith, omega arith), tt))
]

value-digits_from : (f n : ℕ) (s : Text) → n < f → value 0 (digits_from f n ++ s) ≡ value n s
unfolding value digits_from
value-digits_from zero n s h = absurd (omega arith)
value-digits_from (suc f) n s h = elim (Bool-cases (ltb n 10)) [
  | inl e ↦
      let digit : 0 * 10 + ((b'0' + n) - b'0') ≡ n = omega arith in rw e (ap (λ m. value m s) digit)
  | inr e ↦
      let less : n / 10 < f = ground arith in
      let whole : n / 10 * 10 + ((b'0' + n % 10) - b'0') ≡ n = omega arith in
      rw e (
        ap (value 0) (append_assoc (digits_from f (n / 10)) ((b'0' + n % 10) ∷ []) s)
        ∙ value-digits_from f (n / 10) ((b'0' + n % 10) ∷ s) less
        ∙ ap (λ m. value m s) whole)
]

value-print_nat : (n : ℕ) → value 0 (print_nat n) ≡ n
unfolding print_nat value
value-print_nat n =
    ap (value 0) (sym (append-nil (digits_from (suc n) n)))
    ∙ value-digits_from (suc n) n [] (omega arith)

signed_value-Digit : (s : Text) → All Digit s → signed_value s ≡ pos (value 0 s)
unfolding signed_value
signed_value-Digit [] h = unfold value in refl
signed_value-Digit (c ∷ s) (digit, h) =
    let other : nat_eq c b'-' ≡ false = ground arith in rw other refl

signed_value-itoa : (n : ℤ) → signed_value (itoa n) ≡ n
unfolding itoa signed_value print_nat
signed_value-itoa (pos n) =
    signed_value-Digit (print_nat n) (digits_from-Digit (suc n) n) ∙ ap pos (value-print_nat n)
signed_value-itoa (negsuc n) =
    let n_back : suc n - 1 ≡ n = omega arith in
    ap (λ m. negsuc (m - 1)) (value-print_nat (suc n)) ∙ ap negsuc n_back

pub itoa-injective : (a b : ℤ) → itoa a ≡ itoa b → a ≡ b
itoa-injective a b h = sym (signed_value-itoa a) ∙ ap signed_value h ∙ signed_value-itoa b
