-- ===== src/Common/Text.antt =====
-- Texts as lists of bytes, and the functions of Go's `strings`, `strconv` and `fmt` that the
-- program calls.
use Prim.Native.Char.{code}
use Prim.Native.Nat.{ℕ, zero, suc, ◌+◌, ◌-◌, ◌*◌, ◌/◌, ◌%◌, ◌^◌}
use Prim.Native.String.{String}
use mathlib.Core.Bool.{Bool, true, false, not, ◌&&◌, ◌||◌}
use mathlib.Core.List.{List, [], ◌∷◌, ◌++◌, map, reverse}
use mathlib.Core.Logic.{◌↔◌}
use mathlib.Core.Option.{Option, none, some}
use mathlib.Core.Path.{◌≡◌}
use native.Mathlib.Omega.{arith}
use zfw_dark.Common.Int.{ℤ, pos, negsuc}
use zfw_dark.Common.Lists.{all, any, length}
use zfw_dark.Common.Tests.{ltb, leb, nat_eq, if◌then◌else◌}

abbrev pub Text : Type 0
Text = List ℕ

-- The bytes of a code point.
unfoldable pub utf8 : ℕ → Text
utf8 c =
    if ltb c 0x80
    then c ∷ []
    else if ltb c 0x800
    then (0xc0 + c / 64) ∷ (0x80 + c % 64) ∷ []
    else if ltb c 0x10000
    then (0xe0 + c / 4096) ∷ (0x80 + c / 64 % 64) ∷ (0x80 + c % 64) ∷ []
    else (0xf0 + c / 262144) ∷ (0x80 + c / 4096 % 64) ∷ (0x80 + c / 64 % 64) ∷ (0x80 + c % 64) ∷ []

-- A string literal. It stays shut in proofs, which read it as an unknown text.
unfoldable pub lit : String → Text
unfolding utf8
lit String.[] = []
lit (String.◌∷◌ c s) = utf8 (code c) ++ lit s

infix 50 ◌==◌
unfoldable pub ◌==◌ : Text → Text → Bool
[] == [] = true
(a ∷ s) == (b ∷ t) = nat_eq a b && (s == t)
_ == _ = false

pub ==_iff : (s t : Text) → ((s == t) ≡ true) ↔ (s ≡ t)
unfolding ◌==◌
==_iff (a ∷ s) (b ∷ t) = ground (arith, ==_iff s t)
==_iff _ _ = ground arith

-- `s == ""`.
abbrev pub is_empty : Text → Bool
is_empty [] = true
is_empty (_ ∷ _) = false

-- `a <= c && c <= z`.
abbrev pub between : ℕ → ℕ → ℕ → Bool
between a z c = leb a c && leb c z

abbrev pub is_letter : ℕ → Bool
is_letter c = between b'a' b'z' c || between b'A' b'Z' c

abbrev pub is_digit : ℕ → Bool
is_digit c = between b'0' b'9' c

-- `strings.Split(s, sep)` at a separator of one byte: always one part more than separators.
unfoldable pub add_front : ℕ → List Text → List Text
add_front c [] = (c ∷ []) ∷ []
add_front c (part ∷ parts) = (c ∷ part) ∷ parts

unfoldable pub split : ℕ → Text → List Text
unfolding add_front
split sep [] = [] ∷ []
split sep (c ∷ s) =
    let parts = split sep s in if nat_eq c sep then [] ∷ parts else add_front c parts

-- `strings.Join(parts, sep)`.
unfoldable pub join : Text → List Text → Text
join sep [] = []
join sep (part ∷ []) = part
join sep (part ∷ next ∷ parts) = part ++ (sep ++ join sep (next ∷ parts))

-- `strings.Contains(s, c)` at one byte.
unfoldable pub contains_byte : ℕ → Text → Bool
contains_byte c s = any (nat_eq c) s

-- The length of the white-space character in front, 0 if there is none: Unicode's White_Space in
-- UTF-8. The flag says that the bytes come last first, as `strings.TrimSpace` reads from the end.
unfoldable pub space3 : ℕ → ℕ → ℕ → Bool
space3 a b c =
    (nat_eq a 0xe1 && nat_eq b 0x9a && nat_eq c 0x80)
    || (nat_eq a 0xe2
        && nat_eq b 0x80
        && (between 0x80 0x8a c || between 0xa8 0xa9 c || nat_eq c 0xaf))
    || (nat_eq a 0xe2 && nat_eq b 0x81 && nat_eq c 0x9f)
    || (nat_eq a 0xe3 && nat_eq b 0x80 && nat_eq c 0x80)

unfoldable pub space2 : ℕ → ℕ → Bool
space2 a b = nat_eq a 0xc2 && (nat_eq b 0x85 || nat_eq b 0xa0)

unfoldable pub space1 : ℕ → Bool
space1 c = between 9 13 c || nat_eq c 32

unfoldable pub trim_front : Bool → ℕ → Text → Text
unfolding space1 space2 space3
trim_front back zero s = s
trim_front back (suc f) [] = []
trim_front back (suc f) (a ∷ []) = if space1 a then [] else a ∷ []
trim_front back (suc f) (a ∷ b ∷ []) =
    let one = trim_front back f (b ∷ []) in
    if space1 a then one else if (if back then space2 b a else space2 a b) then [] else a ∷ b ∷ []
trim_front back (suc f) (a ∷ b ∷ c ∷ s) =
    let one = trim_front back f (b ∷ c ∷ s) in
    let two = trim_front back f (c ∷ s) in
    let three = trim_front back f s in
    if space1 a
    then one
    else if (if back then space2 b a else space2 a b)
    then two
    else if (if back then space3 c b a else space3 a b c)
    then three
    else a ∷ b ∷ c ∷ s

-- `strings.TrimSpace`. Each round drops a byte, so that the length is fuel enough.
unfoldable pub trim_space : Text → Text
unfolding trim_front
trim_space s =
    let front = trim_front false (length s) s in
    reverse (trim_front true (length front) (reverse front))

-- Decimal digits, the last first removed.
unfoldable pub digits_from : ℕ → ℕ → Text
digits_from zero n = []
digits_from (suc f) n =
    let rest = digits_from f (n / 10) in
    if ltb n 10 then (b'0' + n) ∷ [] else rest ++ (b'0' + n % 10) ∷ []

unfoldable pub print_nat : ℕ → Text
unfolding digits_from
print_nat n = digits_from (suc n) n

-- `strconv.Itoa`, and `%d`.
unfoldable pub itoa : ℤ → Text
unfolding print_nat
itoa (pos n) = print_nat n
itoa (negsuc n) = b'-' ∷ print_nat (suc n)

-- The number that a text of digits stands for; `none` at another byte.
unfoldable pub read_digits : ℕ → Text → Option ℕ
read_digits n [] = some n
read_digits n (c ∷ s) =
    let rest = read_digits (n * 10 + (c - b'0')) s in if is_digit c then rest else none

unfoldable pub read_number : Text → Option ℕ
unfolding read_digits
read_number [] = none
read_number (c ∷ s) = read_digits 0 (c ∷ s)

unfoldable pub to_pos : Option ℕ → Option ℤ
to_pos none = none
to_pos (some n) = if ltb n (2 ^ 63) then some (pos n) else none

unfoldable pub to_neg : Option ℕ → Option ℤ
to_neg none = none
to_neg (some zero) = some (pos 0)
to_neg (some (suc n)) = if ltb n (2 ^ 63) then some (negsuc n) else none

-- `strconv.Atoi`: an optional sign and digits; `none` is a non-nil error.
unfoldable pub atoi : Text → Option ℤ
unfolding read_number to_pos to_neg
atoi [] = none
atoi (c ∷ s) =
    if nat_eq c b'-'
    then to_neg (read_number s)
    else if nat_eq c b'+'
    then to_pos (read_number s)
    else to_pos (read_number (c ∷ s))

unfoldable pub lower_byte : ℕ → ℕ
lower_byte c = if between b'A' b'Z' c then c + 32 else c

-- Whether `IsPrint` holds of an ASCII byte and `strconv.Quote` writes it as it is.
unfoldable pub is_plain : ℕ → Bool
is_plain c = between 0x20 0x7e c && not (nat_eq c b'"') && not (nat_eq c b'\\')

-- Whether an address belongs to IPv4: `ip.To4() != nil`.
pub data Family : Type 0 where
  v4 v6 : Family

-- What the standard library does by large tables and parsers: lower case and quoting beyond plain
-- ASCII, and the addresses that `net` accepts (with the family of the address, or of the network).
pub record Std : Type 0 where
  pub lower_unicode : Text → Text
  pub quote_other : Text → Text
  pub parse_ip : Text → Option Family
  pub parse_cidr : Text → Option Family

-- `strings.ToLower`, with its short way for ASCII.
unfoldable pub to_lower : Std → Text → Text
unfolding lower_byte
to_lower std s = if all (λ c. ltb c 0x80) s then map lower_byte s else std.lower_unicode s

-- `strconv.Quote`, and `%q`.
unfoldable pub quote : Std → Text → Text
unfolding is_plain
quote std s = if all is_plain s then b'"' ∷ (s ++ b'"' ∷ []) else std.quote_other s
