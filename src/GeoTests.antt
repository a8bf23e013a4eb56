-- ===== src/GeoTests.antt =====
-- The theorems on internal/geo applied to a directory of one zone file, where a network is an address.
use zfw_dark.Common.{
  ℕ, ◌<◌, Option, All, if◌then◌else◌, true, false, List, [], ◌∷◌, none, some, ◌≡◌, refl, ap, arith,
}
use zfw_dark.Common.Int.{pos, eq_ℤ}
use zfw_dark.Common.Text.{Text, lit, ◌==◌, split, trim_space}
use zfw_dark.Geo.{Networks, Directory, build_index, find_country, lookup, is_zone}
use zfw_dark.Geo.Confined.{Foreign, ensure-other}
use zfw_dark.Geo.Fingerprint.{Stamp, Clean, DirectoryTold}
use zfw_dark.Geo.Index.{after, lookup-fresh}
use zfw_dark.Geo.Ipset.{zone_path, ipset_path, ensure}
use zfw_dark.StoreTests.{memory, memory_laws, no_files}
use zfw_dark.Tests.{plain_std}

abbrev pub single : Networks
single = record {
  Network = Text;
  Ip = Text;
  parse_cidr = λ s. some s;
  parse_ip = λ s. some s;
  contains = λ n ip. n == ip;
}

abbrev zones : Directory
zones = some (
    record {
      name = lit "de.zone";
      is_dir = false;
      info = some (pos 18, pos 5);
      content = some (lit "# Germany\n1.2.3.4\n");
    }
    ∷ [])

-- The directory after the file was replaced.
abbrev newer : Directory
newer = some (
    record {
      name = lit "de.zone";
      is_dir = false;
      info = some (pos 8, pos 9);
      content = some (lit "5.6.7.8\n");
    }
    ∷ [])

abbrev content : Stamp → Option Text
content t =
    if eq_ℤ t.time (pos 5) then some (lit "# Germany\n1.2.3.4\n") else some (lit "5.6.7.8\n")

Clean-byte : (c : ℕ) → c < 123 → 58 < c → Clean c
Clean-byte c few many = (λ e. omega arith, λ e. omega arith)

file_name-Clean : All Clean (lit "de.zone")
unfolding lit
file_name-Clean = (
  Clean-byte b'd' (omega arith) (omega arith),
  (
    Clean-byte b'e' (omega arith) (omega arith),
    (
      (λ e. omega arith, λ e. omega arith),
      (
        Clean-byte b'z' (omega arith) (omega arith),
        (
          Clean-byte b'o' (omega arith) (omega arith),
          (
            Clean-byte b'n' (omega arith) (omega arith),
            (Clean-byte b'e' (omega arith) (omega arith), tt),
          ),
        ),
      ),
    ),
  ),
)

zones-DirectoryTold : DirectoryTold content zones
zones-DirectoryTold = (
  λ e. record { size = pos 18; time = pos 5; there = refl; clean = file_name-Clean; holds = refl },
  tt,
)

newer-DirectoryTold : DirectoryTold content newer
newer-DirectoryTold = (
  λ e. record { size = pos 8; time = pos 9; there = refl; clean = file_name-Clean; holds = refl },
  tt,
)

-- A lookup before the change and one after it.
lookup-fresh_example :
    (lookup single (after single (zones ∷ [])) newer newer (lit "5.6.7.8")).1
    ≡ find_country single (build_index single newer) (lit "5.6.7.8")
lookup-fresh_example =
    lookup-fresh single content (zones ∷ []) newer (lit "5.6.7.8") (zones-DirectoryTold, tt)
      newer-DirectoryTold

found : find_country single (build_index single newer) (lit "5.6.7.8") ≡ lit "de"
unfolding find_country build_index is_zone lit ◌==◌ split trim_space
found = refl

gone : find_country single (build_index single newer) (lit "1.2.3.4") ≡ []
unfolding find_country build_index is_zone lit ◌==◌ split trim_space
gone = refl

abbrev first_byte : Text → ℕ
first_byte [] = 0
first_byte (c ∷ s) = c

abbrev rules_file : Text
rules_file = b'r' ∷ []

rules-Foreign : (cc : Text) → Foreign plain_std single memory [] rules_file cc
unfolding zone_path ipset_path
rules-Foreign cc = record {
  not_zone = λ e. let h = ap first_byte e in omega arith;
  not_new_zone = λ e. let h = ap first_byte e in omega arith;
  not_ipset = λ e. let h = ap first_byte e in omega arith;
  not_new_ipset = λ e. let h = ap first_byte e in omega arith;
}

abbrev codes : List Text
codes = lit "DE" ∷ lit "../rules" ∷ []

ensure-other_example :
    memory.read_file rules_file
      (ensure plain_std single memory []
        (λ p s. none)
        (λ p s. some (lit "1.2.3.4\n"))
        true
        codes
        no_files).0
    ≡ memory.read_file rules_file no_files
ensure-other_example =
    ensure-other plain_std single memory [] memory_laws rules_file (λ p s. none)
      (λ p s. some (lit "1.2.3.4\n")) true codes no_files (λ cc h. rules-Foreign cc)
