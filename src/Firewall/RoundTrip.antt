-- ===== src/Firewall/RoundTrip.antt =====
-- `LoadConfig` of internal/firewall/firewall.go on what `SaveConfig` wrote.
use zfw_dark.Common.{
  ℕ, ◌<◌, Bool, true, false, not, ◌&&◌, List, [], ◌∷◌, ◌++◌, none, ◌≡◌, refl, ap, ◌∙◌, arith, All,
  All-map, All-append, all, all→All, nat_eq, leb, length, drop,
}
use zfw_dark.Common.Addresses.{ParsesAddresses}
use zfw_dark.Common.Files.{FileSystem, FileLaws}
use zfw_dark.Common.Result.{Result, ok}
use zfw_dark.Common.Scan.{
  Solid, Without, has_prefix, cut-append, lines, lines-append, scan, scanned, split-join,
  trim_space-Solid, drop_cr, drop_cr-Solid,
}
use zfw_dark.Common.Text.{Text, Std, lit, ◌==◌, between, is_empty, split, join, trim_space}
use zfw_dark.Firewall.{
  TierConfig, ConfError, conf_lines, written_lines, keep_ports, split_ports, set_key, set_pair,
  read_line, read_lines, no_config, max_line, parse_config, parse_found, load_config, save_config,
}
use zfw_dark.Firewall.Bytes.{Value, PortText-bytes, join-Value, Value-Solid, ip-Value, cidr-Value}
use zfw_dark.Firewall.Saved.{Saved, saved, unsaved, save_config-Saved}
use zfw_dark.Firewall.Valid.{PortText, ValidConfig, validate_config_iff}

keep_ports-PortText : (ps : List Text) → All PortText ps → keep_ports ps ≡ ps
unfolding keep_ports
keep_ports-PortText [] h = refl
keep_ports-PortText ([] ∷ ps) (p, h) = absurd ((PortText-bytes [] p).1 refl)
keep_ports-PortText ((c ∷ s) ∷ ps) (p, h) =
    rw (trim_space-Solid (c ∷ s) (All-map (λ d k. k.0.0) (c ∷ s) (PortText-bytes (c ∷ s) p).0))
      (ap (◌∷◌ (c ∷ s)) (keep_ports-PortText ps h))

no_comma : (ps : List Text) → All PortText ps → All (Without b',') ps
no_comma ps h = All-map (λ p k. All-map (λ c b. b.1) p (PortText-bytes p k).0) ps h

split_ports-join : (ps : List Text) → All PortText ps → split_ports (join (b',' ∷ []) ps) ≡ ps
unfolding split_ports
split_ports-join [] h = unfold split keep_ports join trim_space in refl
split_ports-join (p ∷ ps) h =
    ap keep_ports (split-join b',' p ps (no_comma (p ∷ ps) h)) ∙ keep_ports-PortText (p ∷ ps) h

-- A byte of a key.
is_key : ℕ → Bool
is_key c = between 33 126 c && not (nat_eq c b'=') && not (nat_eq c b'#')

abbrev Key : Text → Type 0
Key k = (all is_key k ≡ true) × (is_empty k ≡ false)

read_line-Key :
    (c : TierConfig) (k v : Text)
    → Key k
    → All Value v
    → read_line c (k ++ b'=' ∷ v) ≡ set_key c k v
unfolding read_line set_pair has_prefix is_key
read_line-Key c [] v (bytes, some_byte) value = cc
read_line-Key c (a ∷ k) v (bytes, some_byte) value =
    let keys = all→All is_key (a ∷ k) bytes in
    let solid : All Solid (a ∷ k) = All-map (λ d e. ground arith) (a ∷ k) keys in
    let apart : Without b'=' (a ∷ k) = All-map (λ d e f. ground arith) (a ∷ k) keys in
    let line : All Solid ((a ∷ k) ++ b'=' ∷ v) =
      All-append Solid (a ∷ k) (b'=' ∷ v) solid (refl, Value-Solid v value) in
    rw
      (
        trim_space-Solid ((a ∷ k) ++ b'=' ∷ v) line,
        cut-append b'=' (a ∷ k) v apart,
        trim_space-Solid (a ∷ k) solid,
      )
      (ground arith)

-- A line that the scanner gives back as it is.
abbrev Clean : Text → Type 0
Clean l = Without b'\n' l × (drop_cr l ≡ l)

pub lines-written_lines : (ls : List Text) → All Clean ls → lines (written_lines ls) ≡ ls
unfolding written_lines
lines-written_lines [] h = unfold lines in refl
lines-written_lines (l ∷ ls) (k, h) =
    lines-append l (written_lines ls) k.0 ∙ ap (◌∷◌ l) (lines-written_lines ls h)

abbrev pub Fits : Text → Type 0
Fits l = length l < 65536

scanned-Fits : (ls : List Text) → All Clean ls → All Fits ls → scanned max_line ls ≡ (ls, false)
unfolding scanned
scanned-Fits [] h fits = refl
scanned-Fits (l ∷ ls) ((_, same), h) (short, fits) =
    let small : leb max_line (length l) ≡ false = ground arith in
    rw (small, same, scanned-Fits ls h fits) refl

Clean-pair : (k v : Text) → Key k → All Value v → Clean (k ++ b'=' ∷ v)
unfolding is_key
Clean-pair k v (bytes, _) value =
    let keys = all→All is_key k bytes in
    let line : All Solid (k ++ b'=' ∷ v) =
      All-append Solid k (b'=' ∷ v) (All-map (λ d e. ground arith) k keys)
        (refl, Value-Solid v value) in
    (All-map (λ d s e. ground arith) (k ++ b'=' ∷ v) line, drop_cr-Solid (k ++ b'=' ∷ v) line)

not_newline : ℕ → Bool
not_newline c = not (nat_eq c b'\n')

Clean-text : (l : Text) → all not_newline l ≡ true → drop_cr l ≡ l → Clean l
unfolding not_newline
Clean-text l h same = (All-map (λ c e f. ground arith) l (all→All not_newline l h), same)

-- The values of a configuration are texts of values' bytes.
module _ (std : Std) (laws : ParsesAddresses std) (c : TierConfig) (valid : ValidConfig std c) where
  lan-Value : All Value c.lan
  lan-Value = cidr-Value std laws c.lan _ valid.lan

  host-Value : All Value c.host_ip
  host-Value = ip-Value std laws c.host_ip _ valid.host_ip

  conf_lines-Clean : All Clean (conf_lines c)
  unfolding conf_lines lit is_key drop_cr not_newline
  conf_lines-Clean = (
    Clean-text _ refl refl,
    (
      Clean-text _ refl refl,
      (
        Clean-text _ refl refl,
        (
          Clean-pair (lit "LAN") c.lan (refl, refl) lan-Value,
          (
            Clean-pair (lit "HOST_IP") c.host_ip (refl, refl) host-Value,
            (
              Clean-pair (lit "HOST_TCP_LAN") _ (refl, refl) (join-Value _ valid.host_tcp_lan),
              (
                Clean-pair (lit "HOST_UDP_LAN") _ (refl, refl) (join-Value _ valid.host_udp_lan),
                (
                  Clean-pair (lit "DOCKER_DROP_LAN") _ (refl, refl)
                      (join-Value _ valid.docker_drop_lan),
                  (Clean-pair (lit "V6_DROP") _ (refl, refl) (join-Value _ valid.v6_drop), tt),
                ),
              ),
            ),
          ),
        ),
      ),
    ),
  )

  read_comments :
      (ls : List Text)
      → read_lines no_config (
          lit "# ZFW Allowlist — managed by the zfw module UI."
          ∷ lit "# Hand edits are fine; the UI rewrites this file on save."
          ∷ []
          ∷ ls)
        ≡ read_lines no_config ls
  unfolding read_lines read_line lit has_prefix trim_space
  read_comments ls = refl

  read_conf_lines : read_lines no_config (conf_lines c) ≡ c
  unfolding conf_lines is_key lit set_key ◌==◌ read_lines
  read_conf_lines =
      read_comments (drop 3 (conf_lines c))
      ∙ rw
          (
            read_line-Key _ (lit "LAN") c.lan (refl, refl) lan-Value,
            read_line-Key _ (lit "HOST_IP") c.host_ip (refl, refl) host-Value,
            read_line-Key _ (lit "HOST_TCP_LAN") _ (refl, refl) (join-Value _ valid.host_tcp_lan),
            read_line-Key _ (lit "HOST_UDP_LAN") _ (refl, refl) (join-Value _ valid.host_udp_lan),
            read_line-Key _ (lit "DOCKER_DROP_LAN") _ (refl, refl)
                (join-Value _ valid.docker_drop_lan),
            read_line-Key _ (lit "V6_DROP") _ (refl, refl) (join-Value _ valid.v6_drop),
            trim_space-Solid c.lan (Value-Solid _ lan-Value),
            trim_space-Solid c.host_ip (Value-Solid _ host-Value),
            split_ports-join _ valid.host_tcp_lan,
            split_ports-join _ valid.host_udp_lan,
            split_ports-join _ valid.docker_drop_lan,
            split_ports-join _ valid.v6_drop,
          )
          refl

  pub parse_config-conf_lines :
      All Fits (conf_lines c) → parse_config (written_lines (conf_lines c)) ≡ (c, none)
  unfolding parse_config scan
  parse_config-conf_lines fits =
      rw
        (
          lines-written_lines (conf_lines c) conf_lines-Clean,
          scanned-Fits (conf_lines c) conf_lines-Clean fits,
          read_conf_lines,
        )
        refl

module _ (fs : FileSystem) (files : FileLaws fs) (std : Std) (laws : ParsesAddresses std) where
  Saved-load :
      (path : Text) (c : TierConfig) (s : fs.State) (out : fs.State × Result ConfError (Unit {0}))
      → Saved fs std path c s out
      → All Fits (conf_lines c)
      → out.1 ≡ ok tt
      → load_config fs path out.0 ≡ (c, none)
  unfolding load_config parse_found
  Saved-load path c s out (saved valid held) fits h =
      rw held (parse_config-conf_lines std laws c ((validate_config_iff std c).0 valid) fits)
  Saved-load path c s out (unsaved e failed same) fits h = cc

  -- After a SaveConfig that succeeds, of a configuration whose lines are shorter than 64 KiB,
  -- LoadConfig gives the configuration back, without an error.
  pub load_config-save_config :
      (path : Text) (c : TierConfig) (s : fs.State)
      → All Fits (conf_lines c)
      → (save_config fs std path c s).1 ≡ ok tt
      → load_config fs path (save_config fs std path c s).0 ≡ (c, none)
  load_config-save_config path c s fits h =
      Saved-load path c s _ (save_config-Saved fs files std path c s) fits h
