-- ===== src/Firewall.antt =====
-- internal/firewall/firewall.go: the tier configuration in allowlist.conf, and the runs of the engine.
-- What a command of the host does is a parameter.
pub mod Valid
pub mod Bytes
pub mod Saved
pub mod RoundTrip
pub mod Engine
pub mod Live
use zfw_dark.Common.{
  ℕ, ◌/◌, ◌%◌, Bool, true, false, not, ◌&&◌, ◌||◌, List, [], ◌∷◌, ◌++◌, Option, none, some,
}
use zfw_dark.Common.{nat_eq, flat_map, if◌then◌else◌}
use zfw_dark.Common.Files.{FileSystem, Replaced, whole, write_error, rename_error, replace_file}
use zfw_dark.Common.Int.{ℤ, pos, ltb_ℤ}
use zfw_dark.Common.Result.{Result, ok, err, require, ◌>>◌, ◌>>=◌}
use zfw_dark.Common.Scan.{has_prefix, cut, scan}
use zfw_dark.Common.Text.{
  Text, Std, Family, v4, v6, lit, ◌==◌, is_empty, split, join, trim_space, atoi,
}

-- `Config`.
pub record TierConfig : Type 0 where
  pub lan : Text
  pub host_ip : Text
  pub host_tcp_lan : List Text
  pub host_udp_lan : List Text
  pub docker_drop_lan : List Text
  pub v6_drop : List Text

pub data ConfError : Type 0 where
  lan_not_ipv4 host_ip_not_ipv4 : ConfError
  invalid_port : Text → ConfError
  write_failed rename_failed : ConfError
  open_failed token_too_long : ConfError

abbrev pub in_v4 : Option Family → Bool
in_v4 (some v4) = true
in_v4 (some v6) = false
in_v4 none = false

-- `n, err := strconv.Atoi(p); err != nil || n < 1 || n > 65535`, denied.
abbrev pub port_number : Option ℤ → Bool
port_number none = false
port_number (some n) = not (ltb_ℤ n (pos 1) || ltb_ℤ (pos 65535) n)

unfoldable pub check_ports : List Text → Result ConfError (Unit {0})
check_ports [] = ok tt
check_ports (p ∷ ps) = do require (port_number (atoi p)) (invalid_port p); check_ports ps

unfoldable pub check_sets : List (List Text) → Result ConfError (Unit {0})
check_sets [] = ok tt
check_sets (ps ∷ pss) = do check_ports ps; check_sets pss

-- `validate`.
unfoldable pub validate_config : Std → TierConfig → Result ConfError (Unit {0})
unfolding check_sets
validate_config std c = do
  require (in_v4 (std.parse_cidr c.lan)) lan_not_ipv4
  require (in_v4 (std.parse_ip c.host_ip)) host_ip_not_ipv4
  check_sets (c.host_tcp_lan ∷ c.host_udp_lan ∷ c.docker_drop_lan ∷ c.v6_drop ∷ [])

-- The lines that `SaveConfig` writes.
unfoldable pub conf_lines : TierConfig → List Text
conf_lines c =
    lit "# ZFW Allowlist — managed by the zfw module UI."
    ∷ lit "# Hand edits are fine; the UI rewrites this file on save."
    ∷ []
    ∷ (lit "LAN" ++ b'=' ∷ c.lan)
    ∷ (lit "HOST_IP" ++ b'=' ∷ c.host_ip)
    ∷ (lit "HOST_TCP_LAN" ++ b'=' ∷ join (b',' ∷ []) c.host_tcp_lan)
    ∷ (lit "HOST_UDP_LAN" ++ b'=' ∷ join (b',' ∷ []) c.host_udp_lan)
    ∷ (lit "DOCKER_DROP_LAN" ++ b'=' ∷ join (b',' ∷ []) c.docker_drop_lan)
    ∷ (lit "V6_DROP" ++ b'=' ∷ join (b',' ∷ []) c.v6_drop)
    ∷ []

-- Each with its newline.
unfoldable pub written_lines : List Text → Text
written_lines [] = []
written_lines (l ∷ ls) = l ++ b'\n' ∷ written_lines ls

unfoldable pub write_result : Replaced → Result ConfError (Unit {0})
write_result whole = ok tt
write_result write_error = err write_failed
write_result rename_error = err rename_failed

-- `splitPorts`.
unfoldable pub keep_ports : List Text → List Text
keep_ports [] = []
keep_ports (p ∷ ps) =
    let rest = keep_ports ps in if is_empty (trim_space p) then rest else trim_space p ∷ rest

unfoldable pub split_ports : Text → List Text
unfolding keep_ports
split_ports v = keep_ports (split b',' v)

-- The `switch` of `LoadConfig`.
unfoldable pub set_key : TierConfig → Text → Text → TierConfig
set_key c k v =
    if k == lit "LAN"
    then record c { lan = trim_space v }
    else if k == lit "HOST_IP"
    then record c { host_ip = trim_space v }
    else if k == lit "HOST_TCP_LAN"
    then record c { host_tcp_lan = split_ports v }
    else if k == lit "HOST_UDP_LAN"
    then record c { host_udp_lan = split_ports v }
    else if k == lit "DOCKER_DROP_LAN"
    then record c { docker_drop_lan = split_ports v }
    else if k == lit "V6_DROP"
    then record c { v6_drop = split_ports v }
    else c

unfoldable pub set_pair : TierConfig → Option (Text × Text) → TierConfig
set_pair c none = c
set_pair c (some (k, v)) = set_key c (trim_space k) v

-- The body of its loop.
unfoldable pub read_line : TierConfig → Text → TierConfig
unfolding set_pair
read_line c line =
    let l = trim_space line in
    if is_empty l || has_prefix (b'#' ∷ []) l then c else set_pair c (cut b'=' l)

unfoldable pub read_lines : TierConfig → List Text → TierConfig
read_lines c [] = c
read_lines c (l ∷ ls) = read_lines (read_line c l) ls

abbrev pub no_config : TierConfig
no_config = record {
  lan = [];
  host_ip = [];
  host_tcp_lan = [];
  host_udp_lan = [];
  docker_drop_lan = [];
  v6_drop = [];
}

-- `bufio.MaxScanTokenSize`.
abbrev pub max_line : ℕ
max_line = 65536

unfoldable pub parse_config : Text → TierConfig × Option ConfError
unfolding read_lines
parse_config s =
    let (ls, too_long) = scan max_line s in
    (read_lines no_config ls, if too_long then some token_too_long else none)

unfoldable pub parse_found : Option Text → TierConfig × Option ConfError
parse_found none = (no_config, some open_failed)
parse_found (some s) = parse_config s

module _ (fs : FileSystem) where
  -- `LoadConfig`.
  unfoldable pub load_config : Text → fs.State → TierConfig × Option ConfError
  unfolding parse_found
  load_config conf s = parse_found (fs.read_file conf s)

  unfoldable pub write_valid :
      Text
      → TierConfig
      → fs.State
      → Result ConfError (Unit {0})
      → fs.State × Result ConfError (Unit {0})
  unfolding write_result
  write_valid conf c s (err e) = (s, err e)
  write_valid conf c s (ok _) =
      let (t, how) = replace_file fs conf (written_lines (conf_lines c)) s in (t, write_result how)

  -- `SaveConfig`.
  unfoldable pub save_config :
      Std → Text → TierConfig → fs.State → fs.State × Result ConfError (Unit {0})
  unfolding write_valid
  save_config std conf c s = write_valid conf c s (validate_config std c)
