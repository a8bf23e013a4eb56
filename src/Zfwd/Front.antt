-- ===== src/Zfwd/Front.antt =====
-- What a request has passed when a handler of `Routes` runs for it: cmd/zfwd/main.go, internal/auth,
-- and the limiters of internal/handlers.
use zfw_dark.Common.{
  true, false, List, Option, none, some, ◌≡◌, ◌≢◌, refl, sym, ap, ◌∙◌, inl, inr, ◌⊎◌, Bool-cases,
  or-parts,
}
use zfw_dark.Common.Int.{ℤ}
use zfw_dark.Common.Scan.{has_text}
use zfw_dark.Common.Text.{Text, lit, ◌==◌, ==_iff, is_empty}
use zfw_dark.Auth.{
  Library, Verifier, Moment, Jwk, KeyEntry, GateReply, middleware, served, no_token, invalid,
  current_keys, bearer_token,
}
use zfw_dark.Auth.Gate.{Genuine, middleware-served}
use zfw_dark.Handlers.Limiter.{Readings, Origin}
use zfw_dark.Handlers.Routes.{
  Endpoint, health, peers_receive, bare, mutating, Registration, registration, registrations, Match,
  matched, moved, unmatched, Limits, run, find_registration, route,
}
use zfw_dark.Handlers.Routes.Passed.{MuxLaws, Runs, runs, route-Runs}
use zfw_dark.Zfwd.{
  WebRequest, host_is, same_origin, is_changing, strip_route, is_exempt, routed, cross_origin,
  forbidden, file, static_reply, behind_gate, to_pattern, front,
}

-- The header Origin, or without one Referer, is a URL of the request's own host.
pub data OwnOrigin (host_of : Text → Option Text) (r : WebRequest) : Type 0 where
  by_origin :
      is_empty r.origin_header ≡ false → host_of r.origin_header ≡ some r.host → OwnOrigin host_of r
  by_referer :
      is_empty r.origin_header ≡ true
      → is_empty r.referer ≡ false
      → host_of r.referer ≡ some r.host
      → OwnOrigin host_of r

host_is-found : (found : Option Text) (host : Text) → host_is found host ≡ true → found ≡ some host
unfolding host_is
host_is-found none host h = cc
host_is-found (some found) host h = ap some ((==_iff found host).0 h)

same_origin-OwnOrigin :
    (host_of : Text → Option Text) (r : WebRequest)
    → same_origin host_of r ≡ true
    → OwnOrigin host_of r
unfolding same_origin
same_origin-OwnOrigin host_of r h = elim (Bool-cases (is_empty r.origin_header)) [
  | inr e ↦ by_origin e (host_is-found (host_of r.origin_header) r.host (rw e at h))
  | inl e ↦ elim (Bool-cases (is_empty r.referer)) [
    | inr k ↦ by_referer e k (host_is-found (host_of r.referer) r.host (rw (e, k) at h))
    | inl k ↦ let bad : false ≡ true = rw (e, k) at h in absurd (cc)
  ]
]

health-found :
    find_registration (lit "/api/health") registrations
    ≡ some (registration (lit "/api/health") bare health)
unfolding find_registration lit ◌==◌
health-found = refl

peers_receive-found :
    find_registration (lit "/api/peers/receive") registrations
    ≡ some (registration (lit "/api/peers/receive") mutating peers_receive)
unfolding find_registration lit ◌==◌
peers_receive-found = refl

same_registration :
    (found : Option Registration) (x y : Registration) → found ≡ some x → found ≡ some y → x ≡ y
same_registration found x y h k = let same = sym h ∙ k in cc

named-Runs :
    (k : Limits) (method path at_path : Text) (o : Origin) (t : Readings) (e : Endpoint)
    (y : Registration)
    → path ≡ at_path
    → find_registration at_path registrations ≡ some y
    → Runs k method path o t e
    → e ≡ y.endpoint
named-Runs k method path at_path o t e y here found (runs x f same paid) =
    sym same
    ∙ ap (λ z. z.endpoint)
        (same_registration (find_registration at_path registrations) x y (rw here at f) found)

exempt-Open :
    (k : Limits) (method path : Text) (o : Origin) (t : Readings) (e : Endpoint)
    → is_exempt path ≡ true
    → Runs k method path o t e
    → (e ≡ health) ⊎ (e ≡ peers_receive)
exempt-Open k method path o t e exempt r =
    elim (or-parts (path == lit "/api/health") (path == lit "/api/peers/receive") exempt) [
      | inl here ↦ inl (
          named-Runs k method path (lit "/api/health") o t e
            (registration (lit "/api/health") bare health)
            ((==_iff path (lit "/api/health")).0 here) health-found r)
      | inr here ↦ inr (
          named-Runs k method path (lit "/api/peers/receive") o t e
            (registration (lit "/api/peers/receive") mutating peers_receive)
            ((==_iff path (lit "/api/peers/receive")).0 here) peers_receive-found r)
    ]

static-not_routed : (path : Text) (e : Endpoint) → static_reply path ≢ routed (run e)
unfolding static_reply
static-not_routed path e h = elim (Bool-cases (has_text (lit "..") path)) [
  | inl up ↦ let bad : forbidden ≡ routed (run e) = rw up at h in cc
  | inr flat ↦ let bad : file ≡ routed (run e) = rw flat at h in cc
]

module _ (mux : List Text → Text → Match) (laws : MuxLaws mux) where
  module _ (lib : Library) (t : Moment) (download : Option (List Jwk)) (now : ℤ)
      (readings : Readings) where
    -- A session token that is genuine under the keys of the moment.
    abbrev pub HasSession : Verifier lib → WebRequest → Type 0
    HasSession v r =
        (keys : List (KeyEntry lib)) × ((current_keys lib v t download).1 ≡ some keys)
        × Genuine lib keys now (bearer_token r.authorization)

    -- What an endpoint takes: the table names it for the path, its limiter let the request pass, and
    -- it is open or there is a session.
    abbrev Let : Verifier lib → Limits → WebRequest → Text → Endpoint → Type 0
    Let v k r path e =
        Runs k r.method path r.client readings e
        × ((e ≡ health) ⊎ (e ≡ peers_receive) ⊎ HasSession v r)

    gate-Let :
        (v : Verifier lib) (k : Limits) (r : WebRequest) (path : Text) (e : Endpoint)
        (out : Verifier lib × GateReply)
        → middleware lib (is_exempt path) v t download now r.authorization ≡ out
        → (behind_gate lib mux t download now readings k r path out).1 ≡ routed (run e)
        → Let v k r path e
    unfolding behind_gate
    gate-Let v k r path e (w, served) f h =
        let routing : (route mux k r.method path r.client readings).1 ≡ run e = cc in
        let routed_to = route-Runs mux laws k r.method path r.client readings e routing in
        (
          routed_to,
          elim (middleware-served lib v t download now (is_exempt path) r.authorization
              (ap (λ x. x.1) f)) [
                | inl exempt ↦
                    elim (exempt-Open k r.method path r.client readings e exempt routed_to) [
                      | inl a ↦ inl a
                      | inr b ↦ inr (inl b)
                    ]
                | inr session ↦ inr (inr session)
              ],
        )
    gate-Let v k r path e (w, no_token) f h = absurd (cc)
    gate-Let v k r path e (w, invalid why) f h = absurd (cc)

    pattern-Let :
        (v : Verifier lib) (k : Limits) (r : WebRequest) (path : Text) (e : Endpoint) (m : Match)
        → (to_pattern lib mux t download now readings (v, k) r path m).1 ≡ routed (run e)
        → Let v k r path e
    unfolding to_pattern
    pattern-Let v k r path e (matched q) h = elim (Bool-cases (q == lit "/api/")) [
      | inl api ↦ gate-Let v k r path e _ refl (rw api at h)
      | inr other ↦ absurd (static-not_routed path e (rw other at h))
    ]
    pattern-Let v k r path e moved h = absurd (cc)
    pattern-Let v k r path e unmatched h = absurd (cc)

    -- An endpoint runs only if the table of `Routes` names it for the request's path, without the
    -- gateway's prefix; the limiter in front of it let the request pass; a POST, PUT or DELETE carries
    -- an Origin, or without one a Referer, of the host it was sent to; and the endpoint is health or
    -- peers_receive, or there is a token that is genuine under the current keys. This assumes what
    -- `http.ServeMux` documents.
    pub front-Guarded :
        (host_of : Text → Option Text) (prefix : Text) (v : Verifier lib) (k : Limits)
        (r : WebRequest) (e : Endpoint)
        → (front lib mux t download now readings host_of prefix (v, k) r).1 ≡ routed (run e)
        → (is_changing r.method ≡ true → OwnOrigin host_of r)
          × Runs k r.method (strip_route prefix r.path) r.client readings e
          × ((e ≡ health) ⊎ (e ≡ peers_receive) ⊎ HasSession v r)
    unfolding front
    front-Guarded host_of prefix v k r e h = elim (Bool-cases (is_changing r.method)) [
      | inr quiet ↦
          let (routed_to, allowed) =
            pattern-Let v k r (strip_route prefix r.path) e _ (rw quiet at h) in
          (
            λ changing. absurd (let bad : false ≡ true = sym quiet ∙ changing in cc),
            routed_to,
            allowed,
          )
      | inl changing ↦ elim (Bool-cases (same_origin host_of r)) [
        | inl own ↦
            let (routed_to, allowed) =
              pattern-Let v k r (strip_route prefix r.path) e _ (rw (changing, own) at h) in
            (λ _. same_origin-OwnOrigin host_of r own, routed_to, allowed)
        | inr foreign ↦
            absurd (let bad : cross_origin ≡ routed (run e) = rw (changing, foreign) at h in cc)
      ]
    ]
