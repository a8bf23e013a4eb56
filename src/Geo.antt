-- ===== src/Geo.antt =====
-- internal/geo/geo.go: the zone files of countries, the ipset files made of them, and the index that
-- tells an address's country. A directory is the list that `os.ReadDir` gives, with what `Info` and
-- `os.ReadFile` say of each entry; package net is a parameter.
pub mod Index
pub mod Fingerprint
pub mod Numerals
pub mod Ipset
pub mod Confined
use zfw_dark.Common.{
  ℕ, Bool, true, false, not, ◌&&◌, ◌||◌, List, [], ◌∷◌, ◌++◌, map, Option, none, some,
}
use zfw_dark.Common.{length, all, take, drop, ◌-◌, nat_eq, if◌then◌else◌}
use zfw_dark.Common.Files.{FileSystem, Replaced, whole, write_error, rename_error, replace_file}
use zfw_dark.Common.Int.{ℤ, pos}
use zfw_dark.Common.Scan.{has_prefix, has_suffix}
use zfw_dark.Common.Text.{
  Text, Std, lit, ◌==◌, is_empty, between, split, join, trim_space, to_lower, itoa,
}
use zfw_dark.Config.{set_name}

-- `isValidCC`. Only ASCII letters are accepted, so that a rune is a byte.
unfoldable pub is_valid_cc : Text → Bool
is_valid_cc cc = nat_eq (length cc) 2 && all (between b'a' b'z') cc

-- `strings.TrimSuffix(s, t)` of a text that ends in `t`.
unfoldable pub trim_suffix : Text → Text → Text
trim_suffix s t = take (length s - length t) s

-- What package net says: a network, if a text is one, and whether it contains an address.
pub record Networks : Type 1 where
  pub Network : Type 0
  pub Ip : Type 0
  pub parse_cidr : Text → Option Network
  pub parse_ip : Text → Option Ip
  pub contains : Network → Ip → Bool

-- An entry of the directory; `info` holds the size and the time of the last change.
pub record FileEntry : Type 0 where
  pub name : Text
  pub is_dir : Bool
  pub info : Option (ℤ × ℤ)
  pub content : Option Text

abbrev pub Directory : Type 0
Directory = Option (List FileEntry)

unfoldable pub is_zone : FileEntry → Bool
unfolding has_suffix
is_zone f = not f.is_dir && has_suffix f.name (lit ".zone")

-- `fmt.Sprintf("%s:%d:%d", …)`.
unfoldable pub print_part : Text → Option (ℤ × ℤ) → List Text → List Text
print_part name none rest = rest
print_part name (some (size, time)) rest =
    (name ++ lit ":" ++ itoa size ++ lit ":" ++ itoa time) ∷ rest

unfoldable pub fingerprint_parts : List FileEntry → List Text
unfolding is_zone print_part
fingerprint_parts [] = []
fingerprint_parts (f ∷ fs) =
    let rest = fingerprint_parts fs in if is_zone f then print_part f.name f.info rest else rest

-- `zoneFingerprint`.
unfoldable pub zone_fingerprint : Directory → Text
unfolding fingerprint_parts
zone_fingerprint none = []
zone_fingerprint (some fs) = join (lit "|") (fingerprint_parts fs)

-- A line of a zone file that is neither empty nor a comment.
unfoldable pub zone_lines : List Text → List Text
zone_lines [] = []
zone_lines (l ∷ ls) =
    let rest = zone_lines ls in
    if is_empty (trim_space l) || has_prefix (b'#' ∷ []) (trim_space l)
    then rest
    else trim_space l ∷ rest

module _ (net : Networks) where
  -- `indexEntry`.
  pub record IndexEntry : Type 0 where
    pub network : net.Network
    pub cc : Text

  abbrev pub entry_for : Text → Option net.Network → List IndexEntry → List IndexEntry
  entry_for cc none rest = rest
  entry_for cc (some n) rest = record { network = n; cc = cc } ∷ rest

  unfoldable pub index_lines : Text → List Text → List IndexEntry
  index_lines cc [] = []
  index_lines cc (l ∷ ls) = entry_for cc (net.parse_cidr l) (index_lines cc ls)

  unfoldable pub index_file : Text → Option Text → List IndexEntry
  unfolding index_lines zone_lines
  index_file cc none = []
  index_file cc (some b) =
      if nat_eq (length cc) 2 then index_lines cc (zone_lines (split b'\n' b)) else []

  -- `buildIndex`.
  unfoldable pub build_entries : List FileEntry → List IndexEntry
  unfolding index_file trim_suffix
  build_entries [] = []
  build_entries (f ∷ fs) =
      let rest = build_entries fs in
      if is_zone f then index_file (trim_suffix f.name (lit ".zone")) f.content ++ rest else rest

  unfoldable pub build_index : Directory → List IndexEntry
  unfolding build_entries
  build_index none = []
  build_index (some fs) = build_entries fs

  -- The fields of `Manager` that hold the index.
  pub record Manager : Type 0 where
    pub entries : List IndexEntry
    pub fingerprint : Text

  abbrev pub no_index : Manager
  no_index = record { entries = []; fingerprint = [] }

  -- `ensureIndex`, on the directory as it is when the fingerprint is taken and when the index is built.
  unfoldable pub ensure_index : Manager → Directory → Directory → Manager
  unfolding build_index
  ensure_index m at_test at_build =
      if zone_fingerprint at_test == m.fingerprint
      then m
      else record { entries = build_index at_build; fingerprint = zone_fingerprint at_test }

  -- The loop of `Lookup`: the country of the first network that contains the address.
  unfoldable pub find_country : List IndexEntry → net.Ip → Text
  find_country [] ip = []
  find_country (e ∷ es) ip =
      let rest = find_country es ip in if net.contains e.network ip then e.cc else rest

  -- `Lookup`.
  unfoldable pub lookup : Manager → Directory → Directory → net.Ip → Manager × Text
  unfolding ensure_index
  lookup m at_test at_build ip =
      let n = ensure_index m at_test at_build in (n, find_country n.entries ip)

  abbrev pub country_of : List IndexEntry → Option net.Ip → Text
  country_of es none = []
  country_of es (some ip) = find_country es ip

  -- `LookupBatch`: what the map that it returns holds for each text.
  unfoldable pub batch_entries : List IndexEntry → List Text → List (Text × Text)
  batch_entries es [] = []
  batch_entries es (raw ∷ raws) =
      (raw, country_of es (net.parse_ip (trim_space raw))) ∷ batch_entries es raws

  unfoldable pub lookup_batch :
      Manager → Directory → Directory → List Text → Manager × List (Text × Text)
  unfolding batch_entries
  lookup_batch m at_test at_build [] = (m, [])
  lookup_batch m at_test at_build (raw ∷ raws) =
      let n = ensure_index m at_test at_build in (n, batch_entries n.entries (raw ∷ raws))
