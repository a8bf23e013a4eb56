-- ===== src/Handlers/Routes/Passed.antt =====
-- What a request has passed when `Routes` of internal/handlers/handlers.go runs an endpoint for it.
use zfw_dark.Common.{
  Bool, true, false, ◌&&◌, List, Option, none, some, ◌≡◌, refl, sym, ◌∙◌, inl, inr, ◌⊎◌, any,
  Bool-cases,
}
use zfw_dark.Common.Scan.{has_prefix, has_suffix}
use zfw_dark.Common.Text.{Text, lit, ◌==◌}
use zfw_dark.Handlers.Limiter.{
  Limiter, Readings, Origin, rate_limited, rate_limited_get, allow, client_key, verdict,
}
use zfw_dark.Handlers.Routes.{
  Endpoint, Guard, bare, mutating, reading, Registration, registrations, patterns, Match, matched,
  moved, unmatched, Limits, run, after_limit, find_registration, guarded, to_registration, to_match,
  route,
}

-- What package net/http documents: `http.ServeMux` gives the pattern that is the path, or one that
-- ends in a slash.
pub record MuxLaws (mux : List Text → Text → Match) : Type 0 where
  pub matches :
      (ps : List Text) (path q : Text)
      → mux ps path ≡ matched q
      → (q ≡ path) ⊎ (any (λ p. has_suffix p (lit "/") && p == q) ps ≡ true)

-- An endpoint behind the first limiter has paid with a token, unless the method is GET.
abbrev Paid : Limits → Text → Origin → Readings → Guard → Type 0
Paid k method o t bare = Unit
Paid k method o t mutating =
    ((method == lit "GET") ≡ true) ⊎ ((allow k.mutate_limit (client_key o) t).1 ≡ true)
Paid k method o t reading = (allow k.read_limit (client_key o) t).1 ≡ true

after_limit-run :
    (x e : Endpoint) (out : Limiter × Bool)
    → after_limit x (verdict out).1 ≡ run e
    → (x ≡ e) × (out.1 ≡ true)
after_limit-run x e (k, true) h = (cc, refl)
after_limit-run x e (k, false) h = absurd (cc)

guarded-run :
    (k : Limits) (method : Text) (o : Origin) (t : Readings) (g : Guard) (x e : Endpoint)
    → (guarded k method o t g x).1 ≡ run e
    → (x ≡ e) × Paid k method o t g
unfolding guarded rate_limited rate_limited_get
guarded-run k method o t bare x e h = (cc, tt)
guarded-run k method o t reading x e h = after_limit-run x e (allow k.read_limit (client_key o) t) h
guarded-run k method o t mutating x e h = elim (Bool-cases (method == lit "GET")) [
  | inl get ↦ (let same : run x ≡ run e = rw get at h in cc, inl get)
  | inr other ↦
      let (same, paid) =
        after_limit-run x e (allow k.mutate_limit (client_key o) t) (rw other at h) in
      (same, inr paid)
]

-- The endpoint is the one that the table has for the path, and its limiter let the request pass.
pub data Runs (k : Limits) (method path : Text) (o : Origin) (t : Readings) (e : Endpoint)
    : Type 0 where
  runs :
      (x : Registration)
      → find_registration path registrations ≡ some x
      → x.endpoint ≡ e
      → Paid k method o t x.guard
      → Runs k method path o t e

registration-Runs :
    (k : Limits) (method path : Text) (o : Origin) (t : Readings) (e : Endpoint)
    (found : Option Registration)
    → find_registration path registrations ≡ found
    → (to_registration k method o t found).1 ≡ run e
    → Runs k method path o t e
unfolding to_registration
registration-Runs k method path o t e none f h = absurd (cc)
registration-Runs k method path o t e (some x) f h =
    let (same, paid) = guarded-run k method o t x.guard x.endpoint e h in runs x f same paid

no_subtree : (q : Text) → any (λ p. has_suffix p (lit "/") && p == q) patterns ≡ false
unfolding has_suffix has_prefix lit
no_subtree q = refl

module _ (mux : List Text → Text → Match) (laws : MuxLaws mux) where
  match-Runs :
      (k : Limits) (method path : Text) (o : Origin) (t : Readings) (e : Endpoint) (m : Match)
      → mux patterns path ≡ m
      → (to_match k method o t m).1 ≡ run e
      → Runs k method path o t e
  unfolding to_match
  match-Runs k method path o t e (matched q) f h = elim (laws.matches patterns path q f) [
    | inl same ↦
        registration-Runs k method path o t e (find_registration path registrations) refl
          (rw same at h)
    | inr below ↦ let bad : false ≡ true = sym (no_subtree q) ∙ below in absurd (cc)
  ]
  match-Runs k method path o t e moved f h = absurd (cc)
  match-Runs k method path o t e unmatched f h = absurd (cc)

  pub route-Runs :
      (k : Limits) (method path : Text) (o : Origin) (t : Readings) (e : Endpoint)
      → (route mux k method path o t).1 ≡ run e
      → Runs k method path o t e
  unfolding route
  route-Runs k method path o t e h = match-Runs k method path o t e (mux patterns path) refl h
