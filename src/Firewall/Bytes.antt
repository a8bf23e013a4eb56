-- ===== src/Firewall/Bytes.antt =====
-- The bytes of the values in a valid tier configuration of internal/firewall/firewall.go.
use zfw_dark.Common.{
  ℕ, zero, suc, ◌+◌, ◌-◌, ◌*◌, true, List, [], ◌∷◌, Option, none, some, ◌≡◌, ◌≢◌, refl, inl, inr,
  arith, All, All-map, All-append, Bool-cases, nat_eq,
}
use zfw_dark.Common.Addresses.{ParsesAddresses, is_address_byte}
use zfw_dark.Common.Int.{ℤ, Within}
use zfw_dark.Common.Scan.{Solid, Without}
use zfw_dark.Common.Text.{
  Text, Std, Family, is_digit, join, atoi, read_number, read_digits, to_pos, to_neg,
}
use zfw_dark.Firewall.Valid.{PortText}

-- A byte that a value may have: no blank, no newline, no number sign.
abbrev pub Value : ℕ → Type 0
Value c = Solid c × (c ≢ b'#')

-- A byte of a port.
abbrev pub Port : ℕ → Type 0
Port c = Value c × (c ≢ b',')

digit-Port : (c : ℕ) → is_digit c ≡ true → Port c
digit-Port c h = ((ground arith, λ e. ground arith), λ e. ground arith)

read_digits-Port : (n m : ℕ) (s : Text) → read_digits n s ≡ some m → All Port s
unfolding read_digits
read_digits-Port n m [] h = tt
read_digits-Port n m (c ∷ s) h = elim (Bool-cases (is_digit c)) [
  | inl e ↦ (digit-Port c e, read_digits-Port (n * 10 + (c - b'0')) m s (rw e at h))
  | inr e ↦ absurd (let bad : none ≡ some m = rw e at h in cc)
]

read_number-Port : (s : Text) (m : ℕ) → read_number s ≡ some m → All Port s
unfolding read_number
read_number-Port [] m h = tt
read_number-Port (c ∷ s) m h = read_digits-Port 0 m (c ∷ s) h

to_pos-number : (o : Option ℕ) (n : ℤ) → to_pos o ≡ some n → (m : ℕ) × (o ≡ some m)
unfolding to_pos
to_pos-number none n h = cc
to_pos-number (some m) n h = (m, refl)

to_neg-small : (o : Option ℕ) (n : ℤ) → to_neg o ≡ some n → ¬ Within 1 65535 n
unfolding to_neg
to_neg-small none n h within = cc
to_neg-small (some zero) n h within = ground arith
to_neg-small (some (suc m)) n h within = ground arith

read_pos-Port : (s : Text) (n : ℤ) → to_pos (read_number s) ≡ some n → All Port s
read_pos-Port s n h = let (m, e) = to_pos-number (read_number s) n h in read_number-Port s m e

-- A text that `strconv.Atoi` reads as a port is not empty, and its bytes are ports' bytes.
pub PortText-bytes : (p : Text) → PortText p → All Port p × (p ≢ [])
unfolding atoi
PortText-bytes [] (n, h, within) = cc
PortText-bytes (c ∷ s) (n, h, within) = (
  elim (Bool-cases (nat_eq c b'-')) [
    | inl e ↦ absurd (to_neg-small (read_number s) n (rw e at h) within)
    | inr e ↦ elim (Bool-cases (nat_eq c b'+')) [
      | inl plus ↦ (
        ((ground arith, λ k. ground arith), λ k. ground arith),
        read_pos-Port s n (rw (e, plus) at h),
      )
      | inr digit ↦ read_pos-Port (c ∷ s) n (rw (e, digit) at h)
    ]
  ],
  λ k. cc,
)

address-Value : (s : Text) → All (λ c. is_address_byte c ≡ true) s → All Value s
address-Value s h = All-map (λ c e. (ground arith, λ k. ground arith)) s h

pub join-Value : (ps : List Text) → All PortText ps → All Value (join (b',' ∷ []) ps)
unfolding join
join-Value [] h = tt
join-Value (p ∷ []) (h, _) = All-map (λ c k. k.0) p (PortText-bytes p h).0
join-Value (p ∷ next ∷ ps) (h, hs) =
    All-append Value p (b',' ∷ join (b',' ∷ []) (next ∷ ps))
      (All-map (λ c k. k.0) p (PortText-bytes p h).0)
      ((refl, λ e. ground arith), join-Value (next ∷ ps) hs)

pub Value-newline : (s : Text) → All Value s → Without b'\n' s
Value-newline s h = All-map (λ c v e. ground arith) s h

pub Value-Solid : (s : Text) → All Value s → All Solid s
Value-Solid s h = All-map (λ c v. v.0) s h

module _ (std : Std) (laws : ParsesAddresses std) where
  pub ip-Value : (s : Text) (f : Family) → std.parse_ip s ≡ some f → All Value s
  ip-Value s f h = address-Value s (laws.ip s f h)

  pub cidr-Value : (s : Text) (f : Family) → std.parse_cidr s ≡ some f → All Value s
  cidr-Value s f h = address-Value s (laws.cidr s f h)
