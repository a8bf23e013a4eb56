-- ===== src/Config.antt =====
-- internal/config: which extra interfaces may bypass the chains, and the ipset names of internal/geo.
-- The environment is a function, by the names of its variables.
pub mod Safe
use zfw_dark.Common.{Bool, true, false, not, ◌&&◌, ◌||◌, List, [], ◌∷◌, ◌++◌}
use zfw_dark.Common.{length, ltb, nat_eq, if◌then◌else◌}
use zfw_dark.Common.Text.{Text, Std, lit, ◌==◌, is_empty, split, trim_space, to_lower}
use zfw_dark.Rules.Checks.{is_id_byte}

-- The loop over the bytes; `+` may stand last only.
unfoldable pub iface_bytes : Text → Bool
iface_bytes [] = true
iface_bytes (c ∷ []) = is_id_byte c || nat_eq c b'+'
iface_bytes (c ∷ d ∷ s) = is_id_byte c && iface_bytes (d ∷ s)

unfoldable pub is_safe_iface_name : Text → Bool
unfolding iface_bytes
is_safe_iface_name s =
    if is_empty s || ltb 15 (length s) then false else if s == lit "+" then false else iface_bytes s

unfoldable keep_safe : List Text → List Text
keep_safe [] = []
keep_safe (p ∷ ps) =
    let t = trim_space p in
    let rest = keep_safe ps in if is_empty t || not (is_safe_iface_name t) then rest else t ∷ rest

unfoldable pub parse_iface_list : Text → List Text
unfolding keep_safe
parse_iface_list raw = if is_empty raw then [] else keep_safe (split b',' raw)

-- `geo.SetName`.
unfoldable pub set_name : Std → Text → Text
set_name std cc = lit "zfw-cc-" ++ to_lower std (trim_space cc)

-- `Config`.
pub record Settings : Type 0 where
  pub bind_addr : Text
  pub port : Text
  pub route_path : Text
  pub gateway_url_file : Text
  pub static_dir : Text
  pub zfw_bin : Text
  pub zfw_conf : Text
  pub rules_file : Text
  pub compiled_file : Text
  pub geo_dir : Text
  pub history_file : Text
  pub data_dir : Text
  pub jwks_url : Text
  pub update_url : Text
  pub peers_file : Text
  pub peer_token : Text
  pub extra_bypass_ifaces : List Text
  pub webhook_url : Text

module _ (getenv : Text → Text) where
  -- `env`.
  unfoldable pub env : Text → Text → Text
  env k default = if is_empty (getenv k) then default else getenv k

  -- `Load`.
  unfoldable pub load_settings : Settings
  unfolding env
  load_settings = record {
    bind_addr = env (lit "BIND_ADDR") (lit "127.0.0.1");
    port = env (lit "PORT") (lit "8489");
    route_path = env (lit "ROUTE_PATH") (lit "/v2/zfw");
    gateway_url_file = env (lit "GATEWAY_URL_FILE") (lit "/var/run/casaos/management.url");
    static_dir = env (lit "STATIC_DIR") (lit "/usr/share/casaos/www/modules/zfw");
    zfw_bin = env (lit "ZFW_BIN") (lit "/DATA/zfw/zfw");
    zfw_conf = env (lit "ZFW_CONF") (lit "/DATA/zfw/allowlist.conf");
    rules_file = env (lit "ZFW_RULES") (lit "/DATA/zfw/rules.json");
    compiled_file = env (lit "ZFW_COMPILED") (lit "/DATA/zfw/compiled.sh");
    geo_dir = env (lit "ZFW_GEO") (lit "/DATA/zfw/geo");
    history_file = env (lit "ZFW_HISTORY") (lit "/DATA/zfw/audit-history.json");
    data_dir = env (lit "DATA_DIR") (lit "/DATA/AppData/zfw");
    jwks_url = env (lit "ZFW_JWKS_URL") (lit "http://127.0.0.1:37815/.well-known/jwks.json");
    update_url = env (lit "ZFW_UPDATE_URL") [];
    peers_file = env (lit "ZFW_PEERS") (lit "/DATA/zfw/peers.json");
    peer_token = env (lit "ZFW_PEER_TOKEN") [];
    extra_bypass_ifaces = parse_iface_list (env (lit "ZFW_EXTRA_BYPASS_IFACES") []);
    webhook_url = env (lit "ZFW_WEBHOOK_URL") [];
  }
