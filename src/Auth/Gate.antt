-- ===== src/Auth/Gate.antt =====
-- `Verify` and `Middleware` of internal/auth/auth.go: who gets past the gate.
use zfw_dark.Common.{
  Bool, true, false, List, Option, none, some, ◌≡◌, ◌⊎◌, ◌↔◌, refl, sym, ◌∙◌, inl, inr, Bool-cases,
}
use zfw_dark.Common.Int.{ℤ}
use zfw_dark.Common.Result.{Result, ok, err, then-ok, or_error-ok}
use zfw_dark.Common.Text.{Text, is_empty, split}
use zfw_dark.Auth.{
  Jwk, Claims, Library, AuthError, KeyEntry, Verifier, Moment, current_keys, Signed, signed_parts,
  any_verifies, check_signature, check_payload, verify_signed, verify, served, no_token, gate_of,
  bearer_token, middleware, no_match, bad_payload, unreadable_payload,
}
use zfw_dark.Auth.Session.{
  One, Current, Form, Signs, check_claims_iff, signed_parts_iff, any_verifies_iff, require-true,
}

module _ (lib : Library) where
  -- A payload that reads as the claims of a session.
  pub record Claimed (now : ℤ) (payload : Text) : Type 0 where
    pub raw : Text
    pub decodes : lib.decode payload ≡ some raw
    pub claims : Claims
    pub reads : lib.read_claims raw ≡ some claims
    pub current : Current now claims

  -- A token of the right form that one of the keys signed, for a session at a time.
  pub record Genuine (keys : List (KeyEntry lib)) (now : ℤ) (token : Text) : Type 0 where
    pub signed : Signed lib
    pub form : Form lib (split b'.' token) signed
    pub signer : One (Signs lib signed) keys
    pub payload : Claimed now signed.payload

  check_payload_iff :
      (now : ℤ) (payload : Text) → (check_payload lib now payload ≡ ok tt) ↔ Claimed now payload
  unfolding check_payload
  check_payload_iff now payload = (
    λ h.
        let (raw, decodes, h1) = (or_error-ok (lib.decode payload) bad_payload _ tt).0 h in
        let (claims, reads, h2) =
          (or_error-ok (lib.read_claims raw) unreadable_payload _ tt).0 h1 in
        record {
          raw = raw;
          decodes = decodes;
          claims = claims;
          reads = reads;
          current = (check_claims_iff now claims).0 h2;
        },
    λ k. (or_error-ok (lib.decode payload) bad_payload _ tt).1 (
      k.raw,
      k.decodes,
      (or_error-ok (lib.read_claims k.raw) unreadable_payload _ tt).1
          (k.claims, k.reads, (check_claims_iff now k.claims).1 k.current),
    ),
  )

  check_signature_iff :
      (o : Option (List (KeyEntry lib))) (t : Signed lib)
      → (check_signature lib o t ≡ ok tt)
        ↔ ((keys : List (KeyEntry lib)) × (o ≡ some keys) × One (Signs lib t) keys)
  unfolding check_signature
  check_signature_iff none t = (λ h. cc, λ (keys, h, _). cc)
  check_signature_iff (some keys) t = (
    λ h. (
      keys,
      refl,
      (any_verifies_iff lib t keys).0 ((require-true (any_verifies lib t keys) no_match).0 h),
    ),
    λ (ks, same, one).
        let mine : keys ≡ ks = cc in
        (require-true (any_verifies lib t keys) no_match).1
          ((any_verifies_iff lib t keys).1 (rw mine one)),
  )

  module _ (v : Verifier lib) (t : Moment) (download : Option (List Jwk)) (now : ℤ) where
    verify_signed_iff :
        (token : Text) (r : Result AuthError (Signed lib))
        → signed_parts lib (split b'.' token) ≡ r
        → ((verify_signed lib v t download now r).1 ≡ ok tt) ↔ (
            (keys : List (KeyEntry lib)) × ((current_keys lib v t download).1 ≡ some keys)
            × Genuine keys now token)
    unfolding verify_signed
    verify_signed_iff token (err e) form = (
      λ h. cc,
      λ (keys, _, genuine).
          let bad = sym form ∙ (signed_parts_iff lib _ genuine.signed).1 genuine.form in cc,
    )
    verify_signed_iff token (ok signed) form =
        let (to, from) =
          then-ok (check_signature lib (current_keys lib v t download).1 signed)
            (check_payload lib now signed.payload) in
        let (keyed, unkeyed) = check_signature_iff (current_keys lib v t download).1 signed in
        let (claimed, unclaimed) = check_payload_iff now signed.payload in
        (
          λ h.
              let (a, b) = to h in
              let (keys, given, signer) = keyed a in
              (
                keys,
                given,
                record {
                  signed = signed;
                  form = (signed_parts_iff lib _ signed).0 form;
                  signer = signer;
                  payload = claimed b;
                },
              ),
          λ (keys, given, g).
              let found = (signed_parts_iff lib _ g.signed).1 g.form in
              let same : g.signed ≡ signed =
                let both : ok g.signed ≡ ok signed = sym found ∙ form in cc in
              from (unkeyed (keys, given, rw same at g.signer), unclaimed (rw same at g.payload)),
        )

    -- Verify accepts a token exactly when currentKeys gives keys and the token is genuine under them: a
    -- header that says ES256, a signature of 64 bytes that an eligible key verifies, and a payload
    -- issued for a web session that ends after now and began at most 60 seconds after it.
    pub verify_iff :
        (token : Text)
        → ((verify lib v t download now token).1 ≡ ok tt) ↔ (
            (keys : List (KeyEntry lib)) × ((current_keys lib v t download).1 ≡ some keys)
            × Genuine keys now token)
    unfolding verify
    verify_iff token = verify_signed_iff token (signed_parts lib (split b'.' token)) refl

    gate_of-served :
        (out : Verifier lib × Result AuthError (Unit {0}))
        → ((gate_of lib out).1 ≡ served) ↔ (out.1 ≡ ok tt)
    gate_of-served (w, ok _) = (λ h. refl, λ h. refl)
    gate_of-served (w, err e) = (λ h. cc, λ h. cc)

    -- A handler runs only on an exempt path, or for a bearer token that is genuine under the current
    -- keys.
    pub middleware-served :
        (exempt : Bool) (header : Text)
        → (middleware lib exempt v t download now header).1 ≡ served
        → (exempt ≡ true)
          ⊎ ((keys : List (KeyEntry lib)) × ((current_keys lib v t download).1 ≡ some keys)
              × Genuine keys now (bearer_token header))
    unfolding middleware
    middleware-served true header h = inl refl
    middleware-served false header h = elim (Bool-cases (is_empty (bearer_token header))) [
      | inl e ↦ let bad : no_token ≡ served = rw e at h in cc
      | inr e ↦ inr ((verify_iff (bearer_token header)).0 ((gate_of-served _).0 (rw e at h)))
    ]
