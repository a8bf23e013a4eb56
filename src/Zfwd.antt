-- ===== src/Zfwd.antt =====
-- cmd/zfwd/main.go: the handler that `buildHandler` assembles, the tests of `sameOrigin`, the address
-- of the keys that `resolveJWKSURL` finds, the first rule set of `seedRulesIfMissing`, and its compile.
pub mod Front
pub mod Seeded
use zfw_dark.Common.{
  ℕ, Bool, true, false, not, ◌&&◌, ◌||◌, List, [], ◌∷◌, ◌++◌, Option, none, some, drop, length,
  nat_eq, ◌≡◌, refl, inl, inr, Bool-cases, if◌then◌else◌,
}
use zfw_dark.Common.Int.{ℤ}
use zfw_dark.Common.Result.{Result, ok, err}
use zfw_dark.Common.Scan.{has_prefix, has_text, trim_right}
use zfw_dark.Common.Text.{Text, lit, ◌==◌, is_empty}
use zfw_dark.Auth.{Library, Verifier, Moment, Jwk, GateReply, middleware, served}
use zfw_dark.Firewall.{TierConfig, ConfError}
use zfw_dark.Gateway.{GatewayError}
use zfw_dark.Handlers.Daemon.{Daemon, Inventory, PrefetchError, CompileError}
use zfw_dark.Handlers.Limiter.{Origin, Readings}
use zfw_dark.Handlers.Recompile.{Files, recompile}
use zfw_dark.Handlers.Routes.{Match, matched, moved, unmatched, Limits, Routing, route}
use zfw_dark.Redirect.{Net, Url, is_loopback_url}
use zfw_dark.Rules.Starter.{from_tiers, defaults}
use zfw_dark.Rules.Store.{StoreError, save}

-- What the handlers read of a request; absent headers are empty.
pub record WebRequest : Type 0 where
  pub method : Text
  pub path : Text
  pub host : Text
  pub origin_header : Text
  pub referer : Text
  pub authorization : Text
  pub client : Origin

-- The host that `url.Parse` gives, none for its error.
unfoldable pub host_is : Option Text → Text → Bool
host_is none host = false
host_is (some h) host = h == host

-- `sameOrigin`; `host_of` is `url.Parse`.
unfoldable pub same_origin : (Text → Option Text) → WebRequest → Bool
unfolding host_is
same_origin host_of r =
    if not (is_empty r.origin_header)
    then host_is (host_of r.origin_header) r.host
    else if not (is_empty r.referer)
    then host_is (host_of r.referer) r.host
    else false

abbrev pub is_changing : Text → Bool
is_changing method = method == lit "POST" || method == lit "PUT" || method == lit "DELETE"

-- The path without the prefix of the gateway's route.
unfoldable pub strip_route : Text → Text → Text
strip_route prefix path =
    if is_empty prefix
    then path
    else if path == prefix
    then lit "/"
    else if has_prefix (prefix ++ lit "/") path
    then drop (length prefix) path
    else path

-- The paths that `Middleware` lets pass without a token.
abbrev pub is_exempt : Text → Bool
is_exempt p = p == lit "/api/health" || p == lit "/api/peers/receive"

abbrev pub front_patterns : List Text
front_patterns = lit "/api/" ∷ lit "/" ∷ []

-- How the daemon answers: a refusal, a file of the UI, or what the routes of /api do.
pub data FrontReply : Type 0 where
  cross_origin forbidden file elsewhere nowhere : FrontReply
  denied : GateReply → FrontReply
  routed : Routing → FrontReply

-- The handler of "/".
unfoldable pub static_reply : Text → FrontReply
static_reply path = if has_text (lit "..") path then forbidden else file

-- `mux` stands for `http.ServeMux`.
module _ (lib : Library) (mux : List Text → Text → Match) where
  -- The keys and the limiters.
  abbrev pub Doors : Type 0
  Doors = Verifier lib × Limits

  -- What `Middleware` read, and the clocks of the limiters.
  module _ (t : Moment) (download : Option (List Jwk)) (now : ℤ) (readings : Readings) where
    unfoldable pub behind_gate :
        Limits → WebRequest → Text → Verifier lib × GateReply → Doors × FrontReply
    behind_gate k r path (v, served) =
        let (limits, routing) = route mux k r.method path r.client readings in
        ((v, limits), routed routing)
    behind_gate k r path (v, refused) = ((v, k), denied refused)

    unfoldable pub to_pattern : Doors → WebRequest → Text → Match → Doors × FrontReply
    unfolding behind_gate static_reply
    to_pattern (v, k) r path (matched pattern) =
        let gated =
          behind_gate k r path (middleware lib (is_exempt path) v t download now r.authorization) in
        if pattern == lit "/api/" then gated else ((v, k), static_reply path)
    to_pattern doors r path moved = (doors, elsewhere)
    to_pattern doors r path unmatched = (doors, nowhere)

    -- `buildHandler`, by the prefix of the gateway's route.
    unfoldable pub front : (Text → Option Text) → Text → Doors → WebRequest → Doors × FrontReply
    unfolding to_pattern same_origin strip_route
    front host_of prefix doors r =
        let path = strip_route prefix r.path in
        if is_changing r.method && not (same_origin host_of r)
        then (doors, cross_origin)
        else to_pattern doors r path (mux front_patterns path)

-- `resolveJWKSURL`, by what `LookupTarget` gives; `parse` is `url.Parse`. `isLoopbackURL` is
-- `httputil.IsLoopbackURL`, word for word.
unfoldable pub resolve_jwks_url : Net → (Text → Option Url) → Text → Result GatewayError Text → Text
resolve_jwks_url net parse configured (err e) = configured
resolve_jwks_url net parse configured (ok target) =
    let found = trim_right (nat_eq b'/') target ++ lit "/.well-known/jwks.json" in
    if is_loopback_url net (parse found) then found else configured

-- If the pinned address is on the host, then so is the address of the keys, whatever the gateway says.
resolve_jwks_url-on_host :
    (net : Net) (parse : Text → Option Url) (configured : Text) (found : Result GatewayError Text)
    → is_loopback_url net (parse configured) ≡ true
    → is_loopback_url net (parse (resolve_jwks_url net parse configured found)) ≡ true
unfolding resolve_jwks_url
resolve_jwks_url-on_host net parse configured (err e) h = h
resolve_jwks_url-on_host net parse configured (ok target) h =
    let url = trim_right (nat_eq b'/') target ++ lit "/.well-known/jwks.json" in
    elim (Bool-cases (is_loopback_url net (parse url))) [ inl e ↦ rw (e, e) refl | inr e ↦ rw e h ]

module _ (d : Daemon) where
  -- The order in which a `range` visits the published ports is that of the list.
  unfoldable pub seeded :
      Text × Text
      → List ℤ
      → TierConfig × Option ConfError
      → Files d
      → Files d × Result StoreError (Unit {0})
  seeded (lan, host_ip) ports (tier, none) s =
      save d.fs d.json d.random d.rules_path (from_tiers d.random tier ports) s
  seeded (lan, host_ip) ports (tier, some e) s =
      save d.fs d.json d.random d.rules_path (defaults d.random lan host_ip ports) s

  -- `seedRulesIfMissing`: `is_missing` is what `os.IsNotExist` says of the `Stat` of rules.json, then
  -- come what `DetectLAN`, `DockerPorts` and `LoadConfig` give.
  unfoldable pub seed_rules_if_missing :
      Bool
      → Text × Text
      → List ℤ
      → TierConfig × Option ConfError
      → Files d
      → Files d × Result StoreError (Unit {0})
  unfolding seeded
  seed_rules_if_missing is_missing lan ports found s =
      let seed = seeded lan ports found s in if is_missing then seed else (s, ok tt)

  -- The start of `main`: `Recompile` on what the seed leaves; `main` goes on after
  -- an error of either.
  unfoldable pub start_up :
      Bool
      → Text × Text
      → List ℤ
      → TierConfig × Option ConfError
      → Inventory
      → Files d
      → Files d × Result PrefetchError (Result CompileError (Unit {0}))
  unfolding seed_rules_if_missing
  start_up is_missing lan ports found i s =
      recompile d i (seed_rules_if_missing is_missing lan ports found s).0
