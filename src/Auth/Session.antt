-- ===== src/Auth/Session.antt =====
-- internal/auth/auth.go: `Verify` and `Middleware`.
use zfw_dark.Common.{
  Bool, true, false, not, ◌&&◌, ◌||◌, List, [], ◌∷◌, ◌++◌, some, ◌≡◌, ◌≢◌, ◌⊎◌, ◌↔◌, refl, sym, ap,
  inl, inr, arith, Bool-cases, nat_eq, length, take, drop, nat_eq_iff,
}
use zfw_dark.Common.Int.{ℤ, pos, ltb_ℤ, eq_ℤ, ◌≤ℤ◌, add_nat}
use zfw_dark.Common.Result.{Result, ok, require, require-ok, require-then, or_error-ok}
use zfw_dark.Common.Text.{Text, lit, ◌==◌, ==_iff, is_empty}
use zfw_dark.Auth.{
  Header, Claims, Library, AuthError, KeyEntry, clock_skew, Signed, signed_parts, eligible,
  any_verifies, check_claims, bad_header, unreadable_header, bad_alg, bad_signature, bad_issuer,
  no_expiry, expired, not_yet,
}

module _ {ℓ} {A : Type ℓ} (P : A → Type 0) where
  -- One of the elements has the property.
  abbrev pub One : List A → Type 0
  One [] = ⊥
  One (x ∷ xs) = P x ⊎ One xs

-- A payload for a web session that has begun and has not ended.
pub record Current (now : ℤ) (c : Claims) : Type 0 where
  pub issuer : c.iss ≡ lit "casaos"
  pub some_end : c.exp ≢ pos 0
  pub not_ended : ltb_ℤ now c.exp ≡ true
  pub begun : (c.nbf ≡ pos 0) ⊎ (c.nbf ≤ℤ add_nat now 60)

same_value : {A : Type 0} (a b : A) (r : Result AuthError A) → r ≡ ok a → r ≡ ok b → a ≡ b
same_value a b r h k = let both : ok a ≡ r = sym h in cc

choice_iff :
    {P Q R : Type 0} (a b c v : Bool)
    → (a ≡ true) ↔ P
    → (b ≡ true) ↔ Q
    → (c ≡ true) ↔ R
    → (((a || b || c) && v) ≡ true) ↔ ((P ⊎ Q ⊎ R) × (v ≡ true))
choice_iff true b c v p q r = (λ h. (inl (p.0 refl), h), λ h. h.1)
choice_iff false true c v p q r = (λ h. (inr (inl (q.0 refl)), h), λ h. h.1)
choice_iff false false true v p q r = (λ h. (inr (inr (r.0 refl)), h), λ h. h.1)
choice_iff false false false v p q r = (
  λ h. cc,
  λ h. elim h.0 [
    | inl k ↦ let bad = p.1 k in cc
    | inr (inl k) ↦ let bad = q.1 k in cc
    | inr (inr k) ↦ let bad = r.1 k in cc
  ],
)

empty_iff : (s : Text) → (is_empty s ≡ true) ↔ (s ≡ [])
empty_iff [] = (λ h. refl, λ h. refl)
empty_iff (c ∷ s) = (λ h. cc, λ h. cc)

or_iff : (a b : Bool) → ((a || b) ≡ true) ↔ ((a ≡ true) ⊎ (b ≡ true))
or_iff a b = ground arith

pub require-true : (b : Bool) (e : AuthError) → (require b e ≡ ok tt) ↔ (b ≡ true)
require-true b e = ground arith

not_zero_iff : (n : ℤ) → (not (eq_ℤ n (pos 0)) ≡ true) ↔ (n ≢ pos 0)
not_zero_iff n = ground arith

begun_iff :
    (now nbf : ℤ)
    → ((eq_ℤ nbf (pos 0) || not (ltb_ℤ (add_nat now clock_skew) nbf)) ≡ true)
      ↔ ((nbf ≡ pos 0) ⊎ (nbf ≤ℤ add_nat now 60))
begun_iff now nbf = ground arith

pub check_claims_iff : (now : ℤ) (c : Claims) → (check_claims now c ≡ ok tt) ↔ Current now c
unfolding check_claims
check_claims_iff now c =
    let (to, from) = require-ok (c.iss == lit "casaos") (bad_issuer c.iss) _ in
    let (to1, from1) = require-ok (not (eq_ℤ c.exp (pos 0))) no_expiry _ in
    let (to2, from2) = require-ok (ltb_ℤ now c.exp) expired _ in
    let (text, untext) = ==_iff c.iss (lit "casaos") in
    let (begins, unbegins) = begun_iff now c.nbf in
    let (ends, unends) = not_zero_iff c.exp in
    (
      λ h.
          let (a, h1) = to h in
          let (b, h2) = to1 h1 in
          let (d, h3) = to2 h2 in
          record {
            issuer = text a;
            some_end = ends b;
            not_ended = d;
            begun = begins ((require-true _ not_yet).0 h3);
          },
      λ k. from (
        untext k.issuer,
        from1
            (unends k.some_end, from2 (k.not_ended, (require-true _ not_yet).1 (unbegins k.begun))),
      ),
    )

module _ (lib : Library) where
  -- What the three parts of a token of the right form say.
  pub record Form (ps : List Text) (t : Signed lib) : Type 0 where
    pub header : Text
    pub payload : Text
    pub signature : Text
    pub three : ps ≡ header ∷ payload ∷ signature ∷ []
    pub raw : Text
    pub decodes : lib.decode header ≡ some raw
    pub fields : Header
    pub reads : lib.read_header raw ≡ some fields
    pub algorithm : fields.alg ≡ lit "ES256"
    pub bytes : Text
    pub signs : lib.decode signature ≡ some bytes
    pub whole : length bytes ≡ 64
    pub result : t ≡ record {
      kid = fields.kid;
      input = header ++ b'.' ∷ payload;
      payload = payload;
      signature = bytes;
    }

  pub signed_parts_iff :
      (ps : List Text) (t : Signed lib) → (signed_parts lib ps ≡ ok t) ↔ Form ps t
  unfolding signed_parts
  signed_parts_iff [] t = (λ h. cc, λ k. let bad = k.three in cc)
  signed_parts_iff (a ∷ []) t = (λ h. cc, λ k. let bad = k.three in cc)
  signed_parts_iff (a ∷ b ∷ []) t = (λ h. cc, λ k. let bad = k.three in cc)
  signed_parts_iff (a ∷ b ∷ c ∷ d ∷ ps) t = (λ h. cc, λ k. let bad = k.three in cc)
  signed_parts_iff (h ∷ p ∷ s ∷ []) t = (
    λ e.
        let (raw, decodes, e1) = (or_error-ok (lib.decode h) bad_header _ t).0 e in
        let (fields, reads, e2) = (or_error-ok (lib.read_header raw) unreadable_header _ t).0 e1 in
        let (alg, e3) = (require-then (fields.alg == lit "ES256") (bad_alg fields.alg) _ t).0 e2 in
        let (bytes, signs, e4) = (or_error-ok (lib.decode s) bad_signature _ t).0 e3 in
        let (size, e5) = (require-then (nat_eq (length bytes) 64) bad_signature _ t).0 e4 in
        record {
          header = h;
          payload = p;
          signature = s;
          three = refl;
          raw = raw;
          decodes = decodes;
          fields = fields;
          reads = reads;
          algorithm = (==_iff fields.alg (lit "ES256")).0 alg;
          bytes = bytes;
          signs = signs;
          whole = (nat_eq_iff (length bytes) 64).0 size;
          result = same_value t _ (ok t) refl (sym e5);
        },
    λ k.
        let header : k.header ≡ h = let same = k.three in cc in
        let payload : k.payload ≡ p = let same = k.three in cc in
        let signature : k.signature ≡ s = let same = k.three in cc in
        let named : ok t
            ≡ ok (record {
              kid = k.fields.kid;
              input = h ++ b'.' ∷ p;
              payload = p;
              signature = k.bytes;
            }) =
          ap ok (rw (header, payload) at k.result) in
        (or_error-ok (lib.decode h) bad_header _ t).1 (
          k.raw,
          rw header at k.decodes,
          (or_error-ok (lib.read_header k.raw) unreadable_header _ t).1 (
            k.fields,
            k.reads,
            (require-then (k.fields.alg == lit "ES256") (bad_alg k.fields.alg) _ t).1 (
              (==_iff k.fields.alg (lit "ES256")).1 k.algorithm,
              (or_error-ok (lib.decode s) bad_signature _ t).1 (
                k.bytes,
                rw signature at k.signs,
                (require-then (nat_eq (length k.bytes) 64) bad_signature _ t).1
                    ((nat_eq_iff (length k.bytes) 64).1 k.whole, sym named),
              ),
            ),
          ),
        ),
  )

  -- A key whose id the token's does not rule out, and that verifies its signature.
  abbrev pub Signs : Signed lib → KeyEntry lib → Type 0
  Signs t k =
      ((t.kid ≡ []) ⊎ (k.kid ≡ []) ⊎ (k.kid ≡ t.kid))
      × (lib.verifies k.key (lib.digest t.input) (take 32 t.signature) (drop 32 t.signature) ≡ true)

  Signs-iff :
      (t : Signed lib) (k : KeyEntry lib)
      → ((eligible lib t.kid k
            && lib.verifies k.key (lib.digest t.input) (take 32 t.signature) (drop 32 t.signature))
          ≡ true)
        ↔ Signs t k
  Signs-iff t k =
      choice_iff (is_empty t.kid) (is_empty k.kid) (k.kid == t.kid) _ (empty_iff t.kid)
        (empty_iff k.kid) (==_iff k.kid t.kid)

  pub any_verifies_iff :
      (t : Signed lib) (ks : List (KeyEntry lib))
      → (any_verifies lib t ks ≡ true) ↔ One (Signs t) ks
  unfolding any_verifies
  any_verifies_iff t [] = (λ h. cc, λ h. absurd h)
  any_verifies_iff t (k ∷ ks) =
      let (this, unthis) = Signs-iff t k in
      let (rest, unrest) = any_verifies_iff t ks in
      elim (Bool-cases (
        eligible lib t.kid k
        && lib.verifies k.key (lib.digest t.input) (take 32 t.signature) (drop 32 t.signature))) [
          | inl e ↦ (λ h. inl (this e), λ h. rw e refl)
          | inr e ↦ (
            λ h. inr (rest (rw e at h)),
            λ h. elim h [ inl k ↦ let bad = unthis k in cc | inr k ↦ rw e (unrest k) ],
          )
        ]
