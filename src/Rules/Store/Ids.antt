-- ===== src/Rules/Store/Ids.antt =====
-- The ids that `Save` of internal/rules/rules.go fills in.
use zfw_dark.Common.{
  ℕ, ◌/◌, ◌%◌, ◌<◌, true, false, List, [], ◌∷◌, Option, none, some, ◌≡◌, inl, inr, refl, arith, All,
  ◌≤◌, ◌≢◌, ◌⊎◌, length, ltb, Bool-cases, ap,
}
use zfw_dark.Common.Text.{Text, lit, is_empty}
use zfw_dark.Rules.Checks.{is_id_byte, is_safe_rule_id}
use zfw_dark.Rules.Model.{Rule}
use zfw_dark.Rules.Store.{hex_digit, new_id, fill_id, fill_ids}

-- What `rand.Read` gives for a buffer of four bytes.
pub data Drawn : Option Text → Type 0 where
  failed : Drawn none
  four : {a b c d : ℕ} → a < 256 → b < 256 → c < 256 → d < 256 → Drawn (some (a ∷ b ∷ c ∷ d ∷ []))

-- Not empty, and accepted by `isSafeRuleID`.
abbrev pub UsableId : Text → Type 0
UsableId i = (is_empty i ≡ false) × (is_safe_rule_id i ≡ true)

hex_digit-safe : (n : ℕ) → n < 16 → is_id_byte (hex_digit n) ≡ true
unfolding hex_digit
hex_digit-safe n h = elim (Bool-cases (ltb n 10)) [
  | inl e ↦ rw e (ground arith)
  | inr e ↦ rw e (ground arith)
]

high : (b : ℕ) → b < 256 → is_id_byte (hex_digit (b / 16)) ≡ true
high b h = hex_digit-safe (b / 16) (omega arith)

low : (b : ℕ) → is_id_byte (hex_digit (b % 16)) ≡ true
low b = hex_digit-safe (b % 16) (omega arith)

pub new_id-UsableId : {o : Option Text} → Drawn o → UsableId (new_id o)
unfolding new_id is_safe_rule_id lit
new_id-UsableId failed = (refl, refl)
new_id-UsableId (four {a} {b} {c} {d} ha hb hc hd) =
    (refl, rw (high a ha, low a, high b hb, low b, high c hc, low c, high d hd, low d) refl)

fill_id-UsableId :
    (random : ℕ → Option Text) (n : ℕ) (r : Rule)
    → ((k : ℕ) → Drawn (random k))
    → is_safe_rule_id r.id ≡ true
    → UsableId (fill_id random n r).0.id
unfolding fill_id
fill_id-UsableId random n r drawn safe = elim (Bool-cases (is_empty r.id)) [
  | inl e ↦ rw e (new_id-UsableId (drawn n))
  | inr e ↦ rw e (e, safe)
]

-- A lower-case hexadecimal digit, and an id of `r` and eight of them.
abbrev pub HexDigit : ℕ → Type 0
HexDigit c = ((b'0' ≤ c) × (c ≤ b'9')) ⊎ ((b'a' ≤ c) × (c ≤ b'f'))

pub record HexId (i : Text) : Type 0 where
  pub digits : Text
  pub shape : i ≡ b'r' ∷ digits
  pub eight : length digits ≡ 8
  pub hexadecimal : All HexDigit digits

-- A rule that has an id as it was, and one that has none with such an id.
pub data FilledRule (r s : Rule) : Type 0 where
  had_one : r.id ≢ [] → s ≡ r → FilledRule r s
  got_one : r.id ≡ [] → (i : Text) → HexId i → s ≡ record r { id = i } → FilledRule r s

abbrev pub Filled : List Rule → List Rule → Type 0
Filled [] [] = Unit
Filled (r ∷ rs) (s ∷ ss) = FilledRule r s × Filled rs ss
Filled _ _ = ⊥

hex_digit-HexDigit : (n : ℕ) → n < 16 → HexDigit (hex_digit n)
unfolding hex_digit
hex_digit-HexDigit n h = elim (Bool-cases (ltb n 10)) [
  | inl e ↦ rw e (inl (omega arith, ground arith))
  | inr e ↦ rw e (inr (ground arith, omega arith))
]

byte-HexDigit :
    (s : Text) (b : ℕ)
    → b < 256
    → All HexDigit s
    → All HexDigit (hex_digit (b / 16) ∷ hex_digit (b % 16) ∷ s)
byte-HexDigit s b h rest =
    (hex_digit-HexDigit (b / 16) (omega arith), (hex_digit-HexDigit (b % 16) (omega arith), rest))

zero-HexDigit : HexDigit b'0'
zero-HexDigit = inl (omega arith, omega arith)

new_id-HexId : {o : Option Text} → Drawn o → HexId (new_id o)
unfolding new_id lit
new_id-HexId failed = record {
  digits = lit "00000000";
  shape = refl;
  eight = refl;
  hexadecimal = let z = zero-HexDigit in (z, (z, (z, (z, (z, (z, (z, (z, tt))))))));
}
new_id-HexId (four {a} {b} {c} {d} ha hb hc hd) = record {
  digits = _;
  shape = refl;
  eight = refl;
  hexadecimal =
      let last = byte-HexDigit [] d hd tt in
      let third = byte-HexDigit (hex_digit (d / 16) ∷ hex_digit (d % 16) ∷ []) c hc last in
      let second =
        byte-HexDigit
          (hex_digit (c / 16) ∷ hex_digit (c % 16) ∷ hex_digit (d / 16) ∷ hex_digit (d % 16) ∷ []) b
          hb third in
      byte-HexDigit
        (hex_digit (b / 16)
          ∷ hex_digit (b % 16)
          ∷ hex_digit (c / 16)
          ∷ hex_digit (c % 16)
          ∷ hex_digit (d / 16)
          ∷ hex_digit (d % 16)
          ∷ [])
        a ha second;
}

is_empty-cases : (s : Text) → ((is_empty s ≡ true) × (s ≡ [])) ⊎ ((is_empty s ≡ false) × (s ≢ []))
is_empty-cases [] = inl (refl, refl)
is_empty-cases (c ∷ s) = inr (refl, λ e. cc)

fill_id-FilledRule :
    (random : ℕ → Option Text) (n : ℕ) (r : Rule)
    → ((k : ℕ) → Drawn (random k))
    → FilledRule r (fill_id random n r).0
unfolding fill_id
fill_id-FilledRule random n r drawn = elim (is_empty-cases r.id) [
  | inl (e, none_yet) ↦ rw e (got_one none_yet (new_id (random n)) (new_id-HexId (drawn n)) refl)
  | inr (e, named) ↦ rw e (had_one named refl)
]

-- The loop of `Save` leaves every rule that has an id as it was, and gives each other one an id of `r`
-- and eight hexadecimal digits, and changes nothing else; so every rule has an id that is not empty and
-- of the bytes and the length that `Validate` accepts, if the ids that the rules had already are. This
-- takes that each call for random bytes gives four bytes or fails. That the ids differ is not said: two
-- calls may give the same bytes, and every call that fails gives r00000000.
pub fill_ids-UsableId :
    (random : ℕ → Option Text)
    → ((k : ℕ) → Drawn (random k))
    → (n : ℕ) (rs : List Rule) → All (λ r. is_safe_rule_id r.id ≡ true) rs
    → Filled rs (fill_ids random n rs) × All (λ r. UsableId r.id) (fill_ids random n rs)
unfolding fill_ids
fill_ids-UsableId random drawn n [] safe = (tt, tt)
fill_ids-UsableId random drawn n (r ∷ rs) (safe, rest) =
    let (filled, usable) = fill_ids-UsableId random drawn (fill_id random n r).1 rs rest in
    (
      (fill_id-FilledRule random n r drawn, filled),
      (fill_id-UsableId random n r drawn safe, usable),
    )

-- The loop changes nothing if every rule has an id.
pub fill_ids-named :
    (random : ℕ → Option Text) (n : ℕ) (rs : List Rule)
    → All (λ r. is_empty r.id ≡ false) rs
    → fill_ids random n rs ≡ rs
unfolding fill_ids fill_id
fill_ids-named random n [] h = refl
fill_ids-named random n (r ∷ rs) (here, h) = rw here (ap (◌∷◌ r) (fill_ids-named random n rs h))
