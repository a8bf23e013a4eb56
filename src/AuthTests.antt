-- ===== src/AuthTests.antt =====
-- The theorems on internal/auth applied to a token that one key signs, with libraries that accept
-- every signature of a key whose first coordinate is not empty.
use zfw_dark.Common.{
  ℕ, zero, suc, ◌<◌, ◌+◌, false, not, List, [], ◌∷◌, none, some, ◌≡◌, refl, arith,
}
use zfw_dark.Common.Int.{pos}
use zfw_dark.Common.Result.{ok}
use zfw_dark.Common.Text.{Text, lit, ◌==◌, is_empty, split, trim_space, lower_byte}
use zfw_dark.Auth.{
  Jwk, Library, KeyEntry, no_verifier, Moment, parse_keys, current_keys, verify, bearer_token,
  middleware, served, signed_parts, check_claims,
}
use zfw_dark.Auth.Gate.{Genuine, verify_iff}
use zfw_dark.Auth.Keys.{Calls, Downloaded, after, current_keys-recent}

abbrev bytes : ℕ → Text
bytes zero = []
bytes (suc n) = 7 ∷ bytes n

abbrev pub trusting : Library
trusting = record {
  Key = Text;
  decode = λ s. some (bytes 64);
  read_header = λ s. some (record { alg = lit "ES256"; kid = [] });
  read_claims = λ s. some (record { iss = lit "casaos"; exp = pos 100; nbf = pos 90 });
  make_key = λ x y. x;
  digest = λ s. s;
  verifies = λ k d r s. not (is_empty k);
}

abbrev pub key_set : List Jwk
key_set = record { kty = lit "EC"; crv = lit "P-256"; kid = []; x = b'x' ∷ []; y = b'y' ∷ [] } ∷ []

abbrev pub soon : Moment
soon = record { asked = 5; stored = 6; failed = 7 }

abbrev token : Text
token = b'a' ∷ b'.' ∷ b'b' ∷ b'.' ∷ b'c' ∷ []

accepted : (verify trusting (no_verifier trusting) soon (some key_set) (pos 40) token).1 ≡ ok tt
unfolding verify split signed_parts check_claims lit ◌==◌
accepted = refl

verify_iff_example :
    (keys : List (KeyEntry trusting)) × ((current_keys trusting
        (no_verifier trusting)
        soon
        (some key_set)).1
      ≡ some keys)
    × Genuine trusting keys (pos 40) token
verify_iff_example =
    (verify_iff trusting (no_verifier trusting) soon (some key_set) (pos 40) token).0 accepted

abbrev pub authorization : Text
authorization = b'b' ∷ b'E' ∷ b'a' ∷ b'r' ∷ b'e' ∷ b'r' ∷ b' ' ∷ token

let_in :
    (middleware trusting false (no_verifier trusting) soon (some key_set) (pos 40) authorization).1
    ≡ served
unfolding middleware bearer_token verify split signed_parts check_claims lit ◌==◌ trim_space
    lower_byte
let_in = refl

-- A download, and a failed one half an hour later.
abbrev earlier : Calls
earlier = (soon, some key_set) ∷ []

abbrev later : Moment
later = record { asked = 1800000000000; stored = 1800000000001; failed = 1800000000002 }

abbrev kept : List (KeyEntry trusting)
kept = record { kid = []; key = bytes 64 } ∷ []

still_kept : (current_keys trusting (after trusting earlier) later none).1 ≡ some kept
unfolding current_keys parse_keys lit ◌==◌
still_kept = refl

current_keys-recent_example :
    (at : ℕ) × (set : List Jwk) × Downloaded at set ((later, none) ∷ earlier)
    × (kept ≡ parse_keys trusting set)
    × (1800000000000 < at + 3600000000000)
current_keys-recent_example =
    current_keys-recent trusting earlier later none kept (omega arith, omega arith) still_kept
