-- ===== src/Auth.antt =====
-- internal/auth/auth.go: the key cache, the checks of a session token, and the gate in front of the
-- handlers. Base64, JSON, SHA-256, ECDSA and the download of the keys are parameters.
pub mod Keys
pub mod Session
pub mod Gate
use zfw_dark.Common.{
  ℕ, ◌+◌, ◌-◌, ◌*◌, Bool, true, false, not, ◌&&◌, ◌||◌, List, [], ◌∷◌, ◌++◌, map, Option, none,
  some,
}
use zfw_dark.Common.{length, take, drop, ltb, leb, nat_eq, if◌then◌else◌}
use zfw_dark.Common.Int.{ℤ, pos, ltb_ℤ, eq_ℤ, add_nat}
use zfw_dark.Common.Result.{Result, ok, err, require, or_error, ◌>>=◌, ◌>>◌}
use zfw_dark.Common.Text.{Text, lit, ◌==◌, is_empty, split, trim_space, lower_byte}

-- One JSON Web Key of the downloaded set.
pub record Jwk : Type 0 where
  pub kty : Text
  pub crv : Text
  pub kid : Text
  pub x : Text
  pub y : Text

-- The fields that `Verify` reads of a token's header, and of its payload.
pub record Header : Type 0 where
  pub alg : Text
  pub kid : Text

pub record Claims : Type 0 where
  pub iss : Text
  pub exp : ℤ
  pub nbf : ℤ

-- The libraries: a public key is made of two coordinates, and a signature's halves are its numbers.
pub record Library : Type 1 where
  pub Key : Type 0
  pub decode : Text → Option Text
  pub read_header : Text → Option Header
  pub read_claims : Text → Option Claims
  pub make_key : Text → Text → Key
  pub digest : Text → Text
  pub verifies : Key → Text → Text → Text → Bool

pub data AuthError : Type 0 where
  not_three_parts bad_header unreadable_header bad_signature no_keys no_match : AuthError
  bad_payload unreadable_payload no_expiry expired not_yet : AuthError
  bad_alg bad_issuer : Text → AuthError

-- Nanoseconds.
abbrev pub jwks_ttl : ℕ
jwks_ttl = 600000000000

abbrev pub jwks_max_stale : ℕ
jwks_max_stale = 3600000000000

-- Seconds.
abbrev pub clock_skew : ℕ
clock_skew = 60

-- What the monotonic clock reads in `currentKeys`: at the first test, when a new set is stored, and
-- after a failed download.
pub record Moment : Type 0 where
  pub asked : ℕ
  pub stored : ℕ
  pub failed : ℕ

-- The last part of `Verify`, on the payload; `now` is the time in seconds.
unfoldable pub check_claims : ℤ → Claims → Result AuthError (Unit {0})
check_claims now c = do
  require (c.iss == lit "casaos") (bad_issuer c.iss)
  require (not (eq_ℤ c.exp (pos 0))) no_expiry
  require (ltb_ℤ now c.exp) expired
  require (eq_ℤ c.nbf (pos 0) || not (ltb_ℤ (add_nat now clock_skew) c.nbf)) not_yet

-- `Middleware`: the handler runs, or the reply is 401 with a reason.
pub data GateReply : Type 0 where
  served no_token : GateReply
  invalid : AuthError → GateReply

-- `bearerToken` of the Authorization header.
unfoldable pub bearer_token : Text → Text
bearer_token h =
    if ltb 7 (length h) && map lower_byte (take 7 h) == lit "bearer "
    then trim_space (drop 7 h)
    else []

module _ (lib : Library) where
  pub record KeyEntry : Type 0 where
    pub kid : Text
    pub key : lib.Key

  -- `Verifier`.
  pub record Verifier : Type 0 where
    pub keys : List KeyEntry
    pub fetched : ℕ

  abbrev pub no_verifier : Verifier
  no_verifier = record { keys = []; fetched = 0 }

  abbrev pub entry_then : Text → Option Text → Option Text → List KeyEntry → List KeyEntry
  entry_then kid (some x) (some y) rest = record { kid = kid; key = lib.make_key x y } ∷ rest
  entry_then kid (some x) none rest = rest
  entry_then kid none y rest = rest

  -- The loop of `refreshKeys`: the keys on P-256 whose coordinates decode.
  unfoldable pub parse_keys : List Jwk → List KeyEntry
  parse_keys [] = []
  parse_keys (k ∷ ks) =
      let rest = parse_keys ks in
      let more = entry_then k.kid (lib.decode k.x) (lib.decode k.y) rest in
      if k.kty == lit "EC" && k.crv == lit "P-256" then more else rest

  abbrev pub some_keys : List KeyEntry → Bool
  some_keys [] = false
  some_keys (k ∷ ks) = true

  -- `refreshKeys` with what the download gave; `none` is any of its errors.
  unfoldable pub refresh_keys : Verifier → ℕ → Option (List Jwk) → Option Verifier
  unfolding parse_keys
  refresh_keys v now none = none
  refresh_keys v now (some set) =
      if some_keys (parse_keys set)
      then some (record { keys = parse_keys set; fetched = now })
      else none

  abbrev pub after_refresh : Verifier → Moment → Option Verifier → Verifier × Option (List KeyEntry)
  after_refresh v t (some new) = (new, some new.keys)
  after_refresh v t none =
      if some_keys v.keys && ltb (t.failed - v.fetched) jwks_max_stale
      then (v, some v.keys)
      else (v, none)

  -- `currentKeys`.
  unfoldable pub current_keys :
      Verifier → Moment → Option (List Jwk) → Verifier × Option (List KeyEntry)
  unfolding refresh_keys
  current_keys v t download =
      let refreshed = after_refresh v t (refresh_keys v t.stored download) in
      if some_keys v.keys && ltb (t.asked - v.fetched) jwks_ttl then (v, some v.keys) else refreshed

  -- A token whose form is right: its key id, what is signed, its payload and its signature.
  pub record Signed : Type 0 where
    pub kid : Text
    pub input : Text
    pub payload : Text
    pub signature : Text

  unfoldable pub signed_parts : List Text → Result AuthError Signed
  signed_parts (h ∷ p ∷ s ∷ []) = do
    raw ← or_error (lib.decode h) bad_header
    header ← or_error (lib.read_header raw) unreadable_header
    require (header.alg == lit "ES256") (bad_alg header.alg)
    signature ← or_error (lib.decode s) bad_signature
    require (nat_eq (length signature) 64) bad_signature
    ok (record { kid = header.kid; input = h ++ b'.' ∷ p; payload = p; signature = signature })
  signed_parts _ = err not_three_parts

  -- A key whose id the token's does not rule out.
  abbrev pub eligible : Text → KeyEntry → Bool
  eligible kid k = is_empty kid || is_empty k.kid || k.kid == kid

  unfoldable pub any_verifies : Signed → List KeyEntry → Bool
  any_verifies t [] = false
  any_verifies t (k ∷ ks) =
      let rest = any_verifies t ks in
      let this =
        lib.verifies k.key (lib.digest t.input) (take 32 t.signature) (drop 32 t.signature) in
      if eligible t.kid k && this then true else rest

  -- The keys that `currentKeys` gives, or its error.
  unfoldable pub check_signature : Option (List KeyEntry) → Signed → Result AuthError (Unit {0})
  unfolding any_verifies
  check_signature none t = err no_keys
  check_signature (some keys) t = require (any_verifies t keys) no_match

  unfoldable pub check_payload : ℤ → Text → Result AuthError (Unit {0})
  unfolding check_claims
  check_payload now payload = do
    raw ← or_error (lib.decode payload) bad_payload
    claims ← or_error (lib.read_claims raw) unreadable_payload
    check_claims now claims

  -- `Verify` behind the form of the token: the keys are only asked for a token whose form is right.
  unfoldable pub verify_signed :
      Verifier
      → Moment
      → Option (List Jwk)
      → ℤ
      → Result AuthError Signed
      → Verifier × Result AuthError (Unit {0})
  unfolding check_signature check_payload current_keys
  verify_signed v t download now (err e) = (v, err e)
  verify_signed v t download now (ok signed) =
      let (next, keys) = current_keys v t download in
      (next, check_signature keys signed >> check_payload now signed.payload)

  -- `Verify`.
  unfoldable pub verify :
      Verifier → Moment → Option (List Jwk) → ℤ → Text → Verifier × Result AuthError (Unit {0})
  unfolding verify_signed signed_parts
  verify v t download now token = verify_signed v t download now (signed_parts (split b'.' token))

  abbrev pub gate_of : Verifier × Result AuthError (Unit {0}) → Verifier × GateReply
  gate_of (v, ok _) = (v, served)
  gate_of (v, err e) = (v, invalid e)

  -- `Middleware`.
  unfoldable pub middleware :
      Bool → Verifier → Moment → Option (List Jwk) → ℤ → Text → Verifier × GateReply
  unfolding verify bearer_token
  middleware exempt v t download now header =
      let checked = gate_of (verify v t download now (bearer_token header)) in
      if exempt
      then (v, served)
      else if is_empty (bearer_token header)
      then (v, no_token)
      else checked
