-- ===== src/Auth/Keys.antt =====
-- internal/auth/auth.go: the key cache and its refresh.
use zfw_dark.Common.{
  ℕ, ◌+◌, ◌-◌, ◌≤◌, ◌<◌, true, List, [], ◌∷◌, Option, none, some, ◌≡◌, ◌⊎◌, refl, sym, ◌∙◌, inl,
  inr, arith, Bool-cases, ltb,
}
use zfw_dark.Auth.{
  Jwk, Library, KeyEntry, Verifier, no_verifier, Moment, jwks_ttl, jwks_max_stale, parse_keys,
  some_keys, refresh_keys, after_refresh, current_keys,
}

-- Calls of `currentKeys`, the last first, each with what its download gave.
abbrev pub Calls : Type 0
Calls = List (Moment × Option (List Jwk))

-- A set of keys was downloaded at a time.
pub data Downloaded (at : ℕ) (set : List Jwk) : Calls → Type 0 where
  now : {t : Moment} {cs : Calls} → at ≡ t.stored → Downloaded at set ((t, some set) ∷ cs)
  before :
      {t : Moment} {d : Option (List Jwk)} {cs : Calls}
      → Downloaded at set cs
      → Downloaded at set ((t, d) ∷ cs)

-- The clock does not go back during a call.
abbrev pub Forward : Moment → Type 0
Forward t = (t.asked ≤ t.stored) × (t.asked ≤ t.failed)

module _ (lib : Library) where
  abbrev pub after : Calls → Verifier lib
  after [] = no_verifier lib
  after ((t, d) ∷ cs) = (current_keys lib (after cs) t d).0

  -- Where the keys of a call come from.
  data From (v : Verifier lib) (t : Moment) (d : Option (List Jwk))
      (out : Verifier lib × Option (List (KeyEntry lib))) : Type 0 where
    cached :
        out ≡ (v, some v.keys)
        → some_keys lib v.keys ≡ true
        → (t.asked < v.fetched + jwks_max_stale) ⊎ (t.failed < v.fetched + jwks_max_stale)
        → From v t d out
    renewed :
        (set : List Jwk)
        → d ≡ some set
        → out
          ≡ (record { keys = parse_keys lib set; fetched = t.stored }, some (parse_keys lib set))
        → From v t d out
    closed : out ≡ (v, none) → From v t d out

  failed_refresh-From :
      (v : Verifier lib) (t : Moment) (d : Option (List Jwk))
      → From v t d (after_refresh lib v t none)
  failed_refresh-From v t d = elim (Bool-cases (some_keys lib v.keys)) [
    | inl e ↦ elim (Bool-cases (ltb (t.failed - v.fetched) jwks_max_stale)) [
      | inl young ↦ cached (rw (e, young) refl) e (inr (ground arith))
      | inr old ↦ closed (rw (e, old) refl)
    ]
    | inr e ↦ closed (rw e refl)
  ]

  refresh-From :
      (v : Verifier lib) (t : Moment) (d : Option (List Jwk))
      → From v t d (after_refresh lib v t (refresh_keys lib v t.stored d))
  unfolding refresh_keys
  refresh-From v t none = failed_refresh-From v t none
  refresh-From v t (some set) = elim (Bool-cases (some_keys lib (parse_keys lib set))) [
    | inl e ↦ renewed set refl (rw e refl)
    | inr e ↦ rw e (failed_refresh-From v t (some set))
  ]

  current_keys-From :
      (v : Verifier lib) (t : Moment) (d : Option (List Jwk)) → From v t d (current_keys lib v t d)
  unfolding current_keys
  current_keys-From v t d = elim (Bool-cases (some_keys lib v.keys)) [
    | inl e ↦ elim (Bool-cases (ltb (t.asked - v.fetched) jwks_ttl)) [
      | inl young ↦ cached (rw (e, young) refl) e (inl (ground arith))
      | inr old ↦ rw (e, old) (refresh-From v t d)
    ]
    | inr e ↦ rw e (refresh-From v t d)
  ]

  -- The keys that the cache holds were downloaded at the time it remembers.
  Known : Verifier lib → Calls → Type 0
  Known v cs =
      some_keys lib v.keys ≡ true
      → (set : List Jwk) × Downloaded v.fetched set cs × (v.keys ≡ parse_keys lib set)

  Known-From :
      (v : Verifier lib) (t : Moment) (d : Option (List Jwk)) (cs : Calls)
      (out : Verifier lib × Option (List (KeyEntry lib)))
      → Known v cs
      → From v t d out
      → Known out.0 ((t, d) ∷ cs)
  unfolding Known
  Known-From v t d cs out known (cached e some_key young) =
      rw e (λ h. let (set, log, same) = known h in (set, before log, same))
  Known-From v t d cs out known (renewed set e same) = rw (same, e) (λ h. (set, now refl, refl))
  Known-From v t d cs out known (closed e) =
      rw e (λ h. let (set, log, same) = known h in (set, before log, same))

  after-Known : (cs : Calls) → Known (after cs) cs
  unfolding Known
  after-Known [] = λ h. cc
  after-Known ((t, d) ∷ cs) =
      Known-From (after cs) t d cs _ (after-Known cs) (current_keys-From (after cs) t d)

  From-recent :
      (v : Verifier lib) (t : Moment) (d : Option (List Jwk)) (cs : Calls)
      (keys : List (KeyEntry lib)) (out : Verifier lib × Option (List (KeyEntry lib)))
      → Known v cs
      → Forward t
      → From v t d out
      → out.1 ≡ some keys
      → (at : ℕ) × (set : List Jwk) × Downloaded at set ((t, d) ∷ cs)
        × (keys ≡ parse_keys lib set)
        × (t.asked < at + 3600000000000)
  unfolding Known
  From-recent v t d cs keys out known forward (cached e some_key young) h =
      let (set, log, same) = known some_key in
      let mine : v.keys ≡ keys = cc in (v.fetched, set, before log, sym mine ∙ same, ground arith)
  From-recent v t d cs keys out known forward (renewed set e same) h =
      let mine : parse_keys lib set ≡ keys = cc in
      (t.stored, set, rw e (now refl), sym mine, ground arith)
  From-recent v t d cs keys out known forward (closed e) h = cc

  -- Whatever the downloads before gave, the keys that currentKeys returns were downloaded less than
  -- an hour before it was called.
  pub current_keys-recent :
      (cs : Calls) (t : Moment) (d : Option (List Jwk)) (keys : List (KeyEntry lib))
      → Forward t
      → (current_keys lib (after cs) t d).1 ≡ some keys
      → (at : ℕ) × (set : List Jwk) × Downloaded at set ((t, d) ∷ cs)
        × (keys ≡ parse_keys lib set)
        × (t.asked < at + 3600000000000)
  current_keys-recent cs t d keys forward h =
      From-recent (after cs) t d cs keys _ (after-Known cs) forward
        (current_keys-From (after cs) t d) h
