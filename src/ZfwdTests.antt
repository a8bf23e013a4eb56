-- ===== src/ZfwdTests.antt =====
-- A request that is let through to the engine, with a small multiplexer, and the address of the keys.
use zfw_dark.Common.{
  Bool, true, false, ◌&&◌, List, [], ◌∷◌, Option, none, some, ◌≡◌, refl, sym, ap, ◌∙◌, inl, inr,
  ◌⊎◌, any, drop, arith, Bool-cases, if◌then◌else◌,
}
use zfw_dark.Common.Int.{pos}
use zfw_dark.Common.Result.{ok}
use zfw_dark.Common.Scan.{has_prefix, has_suffix, trim_right}
use zfw_dark.Common.Text.{Text, lit, ◌==◌, ==_iff, split, trim_space, lower_byte}
use zfw_dark.Auth.{no_verifier, middleware, verify, signed_parts, check_claims, bearer_token}
use zfw_dark.AuthTests.{trusting, key_set, soon, authorization}
use zfw_dark.Handlers.Limiter.{
  Origin, Readings, new_limiter, allow, client_key, rate_limited, enter, take_token,
}
use zfw_dark.Handlers.Routes.{
  apply, health, peers_receive, Match, matched, unmatched, Limits, new_limits, run, route,
}
use zfw_dark.Redirect.{Net, Url}
use zfw_dark.Zfwd.{
  WebRequest, routed, front, is_changing, strip_route, resolve_jwks_url, cross_origin, same_origin,
}
use zfw_dark.Handlers.Routes.Passed.{MuxLaws, Runs}
use zfw_dark.Zfwd.Front.{OwnOrigin, HasSession, front-Guarded}

abbrev holds : List Text → Text → Bool
holds ps q = any (λ p. p == q) ps

abbrev small_mux : List Text → Text → Match
small_mux ps path =
    if holds ps path
    then matched path
    else if holds ps (lit "/api/") && has_prefix (lit "/api/") path
    then matched (lit "/api/")
    else unmatched

abbrev is_subtree : Text → Text → Bool
is_subtree q p = has_suffix p (lit "/") && p == q

holds-subtree :
    (q : Text) (ps : List Text)
    → has_suffix q (lit "/") ≡ true
    → holds ps q ≡ true
    → any (is_subtree q) ps ≡ true
holds-subtree q [] slash h = h
holds-subtree q (p ∷ ps) slash h = elim (Bool-cases (p == q)) [
  | inl e ↦ rw (e, ap (λ x. has_suffix x (lit "/")) ((==_iff p q).0 e) ∙ slash) refl
  | inr e ↦ let rest = holds-subtree q ps slash (rw e at h) in ground arith
]

slash_ends : has_suffix (lit "/api/") (lit "/") ≡ true
unfolding has_suffix has_prefix lit
slash_ends = refl

abbrev Lawful : List Text → Text → Match → Type 0
Lawful ps path m = (q : Text) → m ≡ matched q → (q ≡ path) ⊎ (any (is_subtree q) ps ≡ true)

subtree-Lawful :
    (ps : List Text) (path : Text) (b c : Bool)
    → holds ps (lit "/api/") ≡ b
    → Lawful ps path (if b && c then matched (lit "/api/") else unmatched)
subtree-Lawful ps path true true h q e =
    let same : lit "/api/" ≡ q = cc in
    inr (rw (← same) (holds-subtree (lit "/api/") ps slash_ends h))
subtree-Lawful ps path true false h q e = absurd (cc)
subtree-Lawful ps path false c h q e = absurd (cc)

small_mux-Lawful :
    (ps : List Text) (path : Text) (b : Bool) (rest : Match)
    → Lawful ps path rest
    → Lawful ps path (if b then matched path else rest)
small_mux-Lawful ps path true rest h q e = inl (let same : path ≡ q = cc in sym same)
small_mux-Lawful ps path false rest h q e = h q e

small_laws : MuxLaws small_mux
small_laws = record {
  matches = λ ps path q.
      small_mux-Lawful ps path (holds ps path) _
        (subtree-Lawful ps path (holds ps (lit "/api/")) (has_prefix (lit "/api/") path) refl) q;
}

abbrev limits : Limits
limits = new_limits 0

abbrev clocks : Readings
clocks = record { made = 1; seen = 2; own = 3; shared = 4 }

-- A browser's POST of /v2/zfw/api/apply.
abbrev apply_request : WebRequest
apply_request = record {
  method = lit "POST";
  path = lit "/v2/zfw/api/apply";
  host = lit "zima.local";
  origin_header = lit "http://zima.local";
  referer = [];
  authorization = authorization;
  client = record {
    forwarded_for = [];
    remote_addr = lit "127.0.0.1:40000";
    host = some (lit "127.0.0.1");
  };
}

abbrev host_of : Text → Option Text
host_of url = if has_prefix (lit "http://") url then some (drop 7 url) else none

applied :
    (front trusting small_mux soon
      (some key_set)
      (pos 40)
      clocks
      host_of
      (lit "/v2/zfw")
      (no_verifier trusting, limits)
      apply_request).1
    ≡ routed (run apply)
unfolding front same_origin strip_route middleware verify signed_parts check_claims bearer_token
    route rate_limited allow client_key zfw_dark.Handlers.Limiter.find_client enter take_token
    new_limits new_limiter has_prefix trim_space lower_byte split lit ◌==◌
applied = refl

front-Guarded_example :
    (is_changing (lit "POST") ≡ true → OwnOrigin host_of apply_request)
    × Runs limits
        (lit "POST")
        (strip_route (lit "/v2/zfw") (lit "/v2/zfw/api/apply"))
        apply_request.client
        clocks
        apply
    × ((apply ≡ health)
        ⊎ (apply ≡ peers_receive)
        ⊎ HasSession small_mux small_laws trusting soon
            (some key_set)
            (pos 40)
            clocks
            (no_verifier trusting)
            apply_request)
front-Guarded_example =
    front-Guarded small_mux small_laws trusting soon (some key_set) (pos 40) clocks host_of
      (lit "/v2/zfw") (no_verifier trusting) limits apply_request apply applied

-- The same request from another page.
from_elsewhere :
    (front trusting small_mux soon
      (some key_set)
      (pos 40)
      clocks
      host_of
      (lit "/v2/zfw")
      (no_verifier trusting, limits)
      (record apply_request { origin_header = lit "http://evil.example" })).1
    ≡ cross_origin
unfolding front same_origin has_prefix lit ◌==◌
from_elsewhere = refl

abbrev localhost_only : Net
localhost_only = record { parse = λ s. none; lookup = λ s. none }

abbrev split_url : Text → Option Url
split_url u =
    if has_prefix (lit "http://localhost") u
    then some (record { scheme = lit "http"; host = lit "localhost" })
    else none

discovered :
    resolve_jwks_url localhost_only split_url
      (lit "http://127.0.0.1:37815/.well-known/jwks.json")
      (ok (lit "http://localhost/"))
    ≡ lit "http://localhost/.well-known/jwks.json"
unfolding resolve_jwks_url zfw_dark.Redirect.is_loopback_url trim_right has_prefix lit ◌==◌
discovered = refl

not_trusted :
    resolve_jwks_url localhost_only split_url
      (lit "http://127.0.0.1:37815/.well-known/jwks.json")
      (ok (lit "http://10.0.0.7:80"))
    ≡ lit "http://127.0.0.1:37815/.well-known/jwks.json"
unfolding resolve_jwks_url zfw_dark.Redirect.is_loopback_url trim_right has_prefix lit ◌==◌
not_trusted = refl
