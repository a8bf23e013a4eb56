-- ===== src/Geo/Ipset.antt =====
-- `renderIpset`, `fetch` and `Ensure` of internal/geo/geo.go. The download and the ages of files are
-- parameters.
use zfw_dark.Common.{ℕ, ◌*◌, ◌^◌, Bool, true, false, List, [], ◌∷◌, ◌++◌, Option, none, some}
use zfw_dark.Common.{take, ltb, if◌then◌else◌}
use zfw_dark.Common.Files.{FileSystem, Replaced, whole, write_error, rename_error, replace_file}
use zfw_dark.Common.Text.{Text, Std, lit, is_empty, split, trim_space, to_lower}
use zfw_dark.Config.{set_name}
use zfw_dark.Geo.{Networks, is_valid_cc, zone_lines}

pub data GeoError : Type 0 where
  no_directory no_zone no_entries not_written not_moved no_cache : GeoError
  bad_country : Text → GeoError

-- Nanoseconds: 30 days.
abbrev pub max_age : ℕ
max_age = 2592000000000000

abbrev pub result_of : Replaced → Option GeoError
result_of whole = none
result_of write_error = some not_written
result_of rename_error = some not_moved

module _ (std : Std) (net : Networks) (fs : FileSystem) (dir : Text) where
  -- `filepath.Join(m.dir, …)`, of a clean directory and a name without a slash.
  unfoldable pub zone_path : Text → Text
  zone_path cc = dir ++ b'/' ∷ (to_lower std cc ++ lit ".zone")

  unfoldable pub ipset_path : Text → Text
  ipset_path cc = dir ++ b'/' ∷ (to_lower std cc ++ lit ".ipset")

  abbrev pub add_then : Text → Text → Option net.Network → List Text → List Text
  add_then set l none rest = rest
  add_then set l (some n) rest = (lit "add " ++ set ++ b' ' ∷ l) ∷ rest

  -- The lines of the loop; each ends in a newline.
  unfoldable pub add_lines : Text → List Text → List Text
  add_lines set [] = []
  add_lines set (l ∷ ls) = add_then set l (net.parse_cidr l) (add_lines set ls)

  unfoldable pub print_lines : List Text → Text
  print_lines [] = []
  print_lines (l ∷ ls) = l ++ b'\n' ∷ print_lines ls

  unfoldable pub ipset_text : Text → List Text → Text
  unfolding print_lines
  ipset_text set adds = print_lines (
      (lit "create " ++ set ++ lit " hash:net family inet hashsize 4096 maxelem 262144 -exist")
      ∷ (lit "flush " ++ set)
      ∷ adds)

  unfoldable pub write_ipset : Text → List Text → fs.State → fs.State × Option GeoError
  unfolding ipset_text ipset_path
  write_ipset cc [] s = (s, some no_entries)
  write_ipset cc (a ∷ adds) s =
      let (t, how) = replace_file fs (ipset_path cc) (ipset_text (set_name std cc) (a ∷ adds)) s in
      (t, result_of how)

  unfoldable pub render_zone : Text → Option Text → fs.State → fs.State × Option GeoError
  unfolding write_ipset add_lines
  render_zone cc none s = (s, some no_zone)
  render_zone cc (some b) s =
      write_ipset cc (add_lines (set_name std cc) (zone_lines (split b'\n' b))) s

  -- `renderIpset`.
  unfoldable pub render_ipset : Text → fs.State → fs.State × Option GeoError
  unfolding render_zone zone_path
  render_ipset cc s = render_zone cc (fs.read_file (zone_path cc) s) s

  module _ (age : Text → fs.State → Option ℕ) (download : Text → fs.State → Option Text) where
    abbrev pub store_body : Text → Option Text → fs.State → fs.State × Bool
    store_body cc none s = (s, false)
    store_body cc (some []) s = (s, false)
    store_body cc (some (c ∷ b)) s =
        let (t, how) = replace_file fs (zone_path cc) (take (16 * 2 ^ 20) (c ∷ b)) s in
        (t, elim how [ whole ↦ true | write_error ↦ false | rename_error ↦ false ])

    -- `fetch`; whether it returned nil.
    unfoldable pub fetch : Text → fs.State → fs.State × Bool
    fetch cc s = store_body cc (download cc s) s

    abbrev pub is_fresh : Option ℕ → Bool
    is_fresh none = false
    is_fresh (some old) = ltb old max_age

    -- After a download that failed: an older file is good enough.
    abbrev pub render_cached : Text → Option ℕ → fs.State → fs.State × Option GeoError
    render_cached cc none s = (s, some no_cache)
    render_cached cc (some old) s = render_ipset cc s

    abbrev pub use_cache : Text → fs.State × Bool → fs.State × Option GeoError
    use_cache cc (s, true) = render_ipset cc s
    use_cache cc (s, false) = render_cached cc (age (zone_path cc) s) s

    unfoldable pub ensure_country : Text → fs.State → fs.State × Option GeoError
    unfolding fetch render_ipset
    ensure_country cc s =
        let updated = use_cache cc (fetch cc s) in
        if is_fresh (age (zone_path cc) s) then render_ipset cc s else updated

    abbrev pub unless_failed :
        fs.State × Option GeoError
        → (fs.State → fs.State × Option GeoError)
        → fs.State × Option GeoError
    unless_failed (s, some e) rest = (s, some e)
    unless_failed (s, none) rest = rest s

    -- The loop of `Ensure`, which ends at the first error.
    unfoldable pub ensure_all : List Text → fs.State → fs.State × Option GeoError
    unfolding ensure_country
    ensure_all [] s = (s, none)
    ensure_all (raw ∷ codes) s =
        let cc = to_lower std (trim_space raw) in
        let here = unless_failed (ensure_country cc s) (λ t. ensure_all codes t) in
        let rest = ensure_all codes s in
        if is_empty cc then rest else if is_valid_cc cc then here else (s, some (bad_country raw))

    -- `Ensure`, once the directory is made, or not.
    unfoldable pub ensure : Bool → List Text → fs.State → fs.State × Option GeoError
    unfolding ensure_all
    ensure made codes s = if made then ensure_all codes s else (s, some no_directory)
