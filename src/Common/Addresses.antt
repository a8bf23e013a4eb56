-- ===== src/Common/Addresses.antt =====
-- The texts that `net.ParseIP` and `net.ParseCIDR` accept.
use mathlib.Core.Bool.{Bool, true, ◌||◌}
use mathlib.Core.Option.{some}
use mathlib.Core.Path.{◌≡◌}
use Prim.Native.Nat.{ℕ}
use zfw_dark.Common.Lists.{All}
use zfw_dark.Common.Tests.{nat_eq}
use zfw_dark.Common.Text.{Text, Std, Family, is_digit, between}

-- A byte of an address or a network: a hexadecimal digit, a dot, a colon or a slash.
abbrev pub is_address_byte : ℕ → Bool
is_address_byte c =
    is_digit c
    || between b'a' b'f' c
    || between b'A' b'F' c
    || nat_eq c b'.'
    || nat_eq c b':'
    || nat_eq c b'/'

-- What `net.ParseIP` and `net.ParseCIDR` document: the texts that they accept are dotted decimals
-- or IPv6 notation, with a slash and a number behind a network.
pub record ParsesAddresses (std : Std) : Type 0 where
  pub ip : (s : Text) (f : Family) → std.parse_ip s ≡ some f → All (λ c. is_address_byte c ≡ true) s
  pub cidr :
      (s : Text) (f : Family) → std.parse_cidr s ≡ some f → All (λ c. is_address_byte c ≡ true) s
