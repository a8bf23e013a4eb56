-- ===== src/Handlers/Routes.antt =====
-- `Routes` of internal/handlers/handlers.go: which endpoint answers a request, and the limiter that
-- stands in front of it. Which pattern `http.ServeMux` finds for a path is a parameter.
pub mod Passed
use zfw_dark.Common.{ℕ, List, [], ◌∷◌, Option, none, some, map, if◌then◌else◌}
use zfw_dark.Common.Text.{Text, lit, ◌==◌}
use zfw_dark.Handlers.Limiter.{
  Limiter, Readings, Origin, new_limiter, Verdict, handled, too_many_requests, rate_limited,
  rate_limited_get,
}

-- The handlers by their methods of `Server`.
pub data Endpoint : Type 0 where
  health status config rules rules_defaults rules_templates apply commit revert : Endpoint
  exposure audit versions update peers peers_push peers_receive geo_lookup events : Endpoint
  conntrack debug containers openapi : Endpoint

-- Bare, or behind `rateLimited` or `rateLimitedGet`.
pub data Guard : Type 0 where
  bare mutating reading : Guard

pub record Registration : Type 0 where
  pub pattern : Text
  pub guard : Guard
  pub endpoint : Endpoint

abbrev pub registration : Text → Guard → Endpoint → Registration
registration pattern guard endpoint = record {
  pattern = pattern;
  guard = guard;
  endpoint = endpoint;
}

-- The patterns of `Routes`.
abbrev pub registrations : List Registration
registrations =
    registration (lit "/api/health") bare health
    ∷ registration (lit "/api/status") reading status
    ∷ registration (lit "/api/config") mutating config
    ∷ registration (lit "/api/rules") mutating rules
    ∷ registration (lit "/api/rules/defaults") mutating rules_defaults
    ∷ registration (lit "/api/rules/templates") bare rules_templates
    ∷ registration (lit "/api/apply") mutating apply
    ∷ registration (lit "/api/commit") mutating commit
    ∷ registration (lit "/api/revert") mutating revert
    ∷ registration (lit "/api/exposure") reading exposure
    ∷ registration (lit "/api/audit") reading audit
    ∷ registration (lit "/api/versions") reading versions
    ∷ registration (lit "/api/update") bare update
    ∷ registration (lit "/api/peers") bare peers
    ∷ registration (lit "/api/peers/push") mutating peers_push
    ∷ registration (lit "/api/peers/receive") mutating peers_receive
    ∷ registration (lit "/api/geo/lookup") reading geo_lookup
    ∷ registration (lit "/api/events") reading events
    ∷ registration (lit "/api/conntrack") reading conntrack
    ∷ registration (lit "/api/debug") mutating debug
    ∷ registration (lit "/api/system/containers") bare containers
    ∷ registration (lit "/api/openapi.json") bare openapi
    ∷ registration (lit "/api/openapi.yaml") bare openapi
    ∷ []

abbrev pub patterns : List Text
patterns = map (λ e. e.pattern) registrations

-- What `http.ServeMux` does with a path: the handler of a pattern, a redirect to the path it cleans
-- this one to, or "not found".
pub data Match : Type 0 where
  matched : Text → Match
  moved unmatched : Match

unfoldable pub find_registration : Text → List Registration → Option Registration
find_registration pattern [] = none
find_registration pattern (e ∷ es) =
    let rest = find_registration pattern es in if e.pattern == pattern then some e else rest

-- The limiters `mutateRL` and `readRL`.
pub record Limits : Type 0 where
  pub mutate_limit : Limiter
  pub read_limit : Limiter

-- The limiters of `NewServer`.
unfoldable pub new_limits : ℕ → Limits
new_limits now = record {
  mutate_limit = new_limiter 1 10 3 30 now;
  read_limit = new_limiter 5 60 15 180 now;
}

pub data Routing : Type 0 where
  missing over_limit redirected : Routing
  run : Endpoint → Routing

abbrev pub after_limit : Endpoint → Verdict → Routing
after_limit e handled = run e
after_limit e too_many_requests = over_limit

unfoldable pub guarded : Limits → Text → Origin → Readings → Guard → Endpoint → Limits × Routing
guarded k method o t bare e = (k, run e)
guarded k method o t mutating e =
    let (m, verdict) = rate_limited k.mutate_limit method o t in
    (record k { mutate_limit = m }, after_limit e verdict)
guarded k method o t reading e =
    let (r, verdict) = rate_limited_get k.read_limit o t in
    (record k { read_limit = r }, after_limit e verdict)

unfoldable pub to_registration :
    Limits → Text → Origin → Readings → Option Registration → Limits × Routing
unfolding guarded
to_registration k method o t none = (k, missing)
to_registration k method o t (some e) = guarded k method o t e.guard e.endpoint

unfoldable pub to_match : Limits → Text → Origin → Readings → Match → Limits × Routing
unfolding to_registration find_registration
to_match k method o t (matched pattern) =
    to_registration k method o t (find_registration pattern registrations)
to_match k method o t moved = (k, redirected)
to_match k method o t unmatched = (k, missing)

-- The handler that `Routes` returns.
unfoldable pub route :
    (List Text → Text → Match) → Limits → Text → Text → Origin → Readings → Limits × Routing
unfolding to_match
route mux k method path o t = to_match k method o t (mux patterns path)
