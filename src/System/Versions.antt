-- ===== src/System/Versions.antt =====
-- `Versions` of internal/system/system.go. /etc/os-release and the outputs of the programs are
-- parameters.
use zfw_dark.Common.{
  ℕ, ◌^◌, ◌-◌, Bool, false, ◌&&◌, ◌||◌, List, [], ◌∷◌, Option, none, some, nat_eq, ltb, get_elem?,
  if◌then◌else◌,
}
use zfw_dark.Common.Scan.{cut, cut_text, scan, trim_both, trim_left, trim_right, has_text}
use zfw_dark.Common.Text.{
  Text, lit, ◌==◌, is_empty, is_digit, split, add_front, trim_space, read_number,
}

-- `Component`.
pub record Component : Type 0 where
  pub name : Text
  pub version : Text
  pub note : Text
  pub level : Text

-- The outputs of `uname -r`, `docker --version`, `ssh -V`, and of the two iptables; the text of
-- /etc/os-release, none if it cannot be opened.
pub record Outputs : Type 0 where
  pub release : Option Text
  pub uname : Text
  pub docker : Text
  pub ssh : Text
  pub iptables_legacy : Text
  pub iptables : Text

unfoldable pub value_of : Text → Option (Text × Text) → Text → Text
value_of key none rest = rest
value_of key (some (k, v)) rest = if k == key then trim_both (nat_eq b'"') (trim_space v) else rest

unfoldable pub find_key : Text → List Text → Text
unfolding value_of
find_key key [] = []
find_key key (l ∷ ls) = value_of key (cut b'=' l) (find_key key ls)

unfoldable pub os_release : Text → Option Text → Text
unfolding find_key
os_release key none = []
os_release key (some s) = find_key key (scan 65536 s).0

-- What stands in front of the first byte of a kind.
unfoldable pub up_to : (ℕ → Bool) → Text → Text
up_to p [] = []
up_to p (c ∷ s) = let rest = c ∷ up_to p s in if p c then [] else rest

unfoldable pub first_line : Text → Text
unfolding up_to
first_line s = trim_space (up_to (nat_eq b'\n') s)

-- `strings.FieldsFunc`.
unfoldable pub split_by : (ℕ → Bool) → Text → List Text
split_by p [] = [] ∷ []
split_by p (c ∷ s) = let rest = split_by p s in if p c then [] ∷ rest else add_front c rest

unfoldable pub is_separator : ℕ → Bool
is_separator c = nat_eq c b' ' || nat_eq c b',' || nat_eq c b'\n' || nat_eq c b'\t' || nat_eq c b'('

unfoldable pub starts_digit : Text → Bool
starts_digit [] = false
starts_digit (c ∷ s) = is_digit c

-- The first word that has the form of a version.
unfoldable pub find_version : List Text → Text
unfolding starts_digit
find_version [] = []
find_version (word ∷ words) =
    let rest = find_version words in
    let t = trim_left (λ c. nat_eq c b'v' || nat_eq c b'V') word in
    if starts_digit t && has_text (lit ".") t
    then trim_right (λ c. nat_eq c b'.' || nat_eq c b',' || nat_eq c b')') t
    else rest

unfoldable pub extract_version : Text → Text
unfolding find_version split_by is_separator
extract_version s = find_version (split_by is_separator s)

unfoldable pub behind_name : Text → Option (Text × Text) → Text
behind_name s none = s
behind_name s (some (_, rest)) = rest

unfoldable pub openssh_version : Text → Text
unfolding first_line behind_name
openssh_version s =
    let line = first_line s in
    trim_space (
      up_to (λ c. nat_eq c b',' || nat_eq c b' ')
        (behind_name line (cut_text (lit "OpenSSH_") line)))

unfoldable pub or_dash : Text → Text
or_dash s = if is_empty s then lit "—" else s

unfoldable pub level_if : Bool → Text
level_if warn = if warn then lit "warn" else lit "ok"

unfoldable pub digits_in_front : Text → Text
digits_in_front [] = []
digits_in_front (c ∷ s) = let rest = c ∷ digits_in_front s in if is_digit c then rest else []

-- `strconv.Atoi` of digits: 0 with a syntax error, and the largest int with a range error.
unfoldable pub atoi_clamped : Option ℕ → ℕ
atoi_clamped none = 0
atoi_clamped (some n) = if ltb n (2 ^ 63) then n else 2 ^ 63 - 1

unfoldable pub number_at : List Text → ℕ → ℕ
unfolding digits_in_front atoi_clamped
number_at parts i = elim (get_elem? parts i) [
  | none ↦ 0
  | some part ↦ atoi_clamped (read_number (digits_in_front part))
]

-- `parseKernel`: the third part of `SplitN` and the third one of a full split have the same digits
-- in front.
unfoldable pub parse_kernel : Text → ℕ × ℕ × ℕ
unfolding number_at
parse_kernel s =
    let parts = split b'.' s in (number_at parts 0, number_at parts 1, number_at parts 2)

-- A 6.12 kernel before the patch 86.
unfoldable pub kernel_vulnerable : Text → Bool
unfolding parse_kernel
kernel_vulnerable kern =
    let (major, minor, patch) = parse_kernel kern in
    nat_eq major 6 && nat_eq minor 12 && ltb 0 patch && ltb patch 86

unfoldable pub docker_old : Text → Bool
unfolding parse_kernel
docker_old ver = let (major, _, _) = parse_kernel ver in ltb 0 major && ltb major 29

abbrev pub component : Text → Text → Text → Text → Component
component name version note level = record {
  name = name;
  version = or_dash version;
  note = note;
  level = level;
}

unfoldable pub kernel_component : Text → Component
unfolding kernel_vulnerable
kernel_component kern =
    if kernel_vulnerable kern
    then component (lit "Linux kernel") kern
        (lit "CVE-2026-31431 (Copy Fail) — local root; fix only in ~6.12.86, firmware update only")
        (lit "warn")
    else component (lit "Linux kernel") kern (lit "up to date") (lit "ok")

unfoldable pub iptables_version : Outputs → Text
unfolding extract_version
iptables_version o =
    let legacy = extract_version o.iptables_legacy in
    if is_empty legacy then extract_version o.iptables else legacy

-- `Versions` when nothing fresh is cached.
unfoldable pub versions : Outputs → List Component
unfolding kernel_component iptables_version
versions o =
    component (lit "ZimaOS") (os_release (lit "VERSION") o.release)
      (lit "All app-layer CVEs ≤1.5.3 are fixed") (lit "ok")
    ∷ kernel_component (first_line o.uname)
    ∷ (component (lit "Docker Engine") (extract_version o.docker)
        (lit "docker cp escapes < 29.3.1 (conditional)")
        (level_if (docker_old (extract_version o.docker))))
    ∷ (component (lit "OpenSSH") (openssh_version o.ssh)
        (lit "regreSSHion (CVE-2024-6387) not affected from 9.8p1 onward") (lit "ok"))
    ∷ (component (lit "iptables") (iptables_version o)
        (lit "Backend: iptables-legacy (Docker-compatible)") (lit "ok"))
    ∷ []
