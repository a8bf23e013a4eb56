-- ===== src/Config/Safe.antt =====
-- What `parseIfaceList` of internal/config/config.go lets through.
use zfw_dark.Common.{
  ℕ, ◌≤◌, true, List, [], ◌∷◌, ◌≡◌, ◌≢◌, inl, inr, arith, length, nat_eq_iff, All, Bool-cases,
}
use zfw_dark.Common.Text.{Text, lit, ◌==◌, is_empty, split, trim_space}
use zfw_dark.Config.{iface_bytes, is_safe_iface_name, keep_safe, parse_iface_list}
use zfw_dark.Rules.Checks.{is_id_byte}

-- Bytes of names, of which the last may be a plus sign.
pub data IfaceBytes : Text → Type 0 where
  empty : IfaceBytes []
  wildcard : IfaceBytes (b'+' ∷ [])
  also : {c : ℕ} {s : Text} → is_id_byte c ≡ true → IfaceBytes s → IfaceBytes (c ∷ s)

-- A name that may stand in the script: 1 to 15 bytes, and not the plus sign alone, which would
-- match every interface.
pub record SafeName (s : Text) : Type 0 where
  pub some_byte : s ≢ []
  pub short : length s ≤ 15
  pub not_every : s ≢ (b'+' ∷ [])
  pub bytes : IfaceBytes s

iface_bytes-IfaceBytes : (s : Text) → iface_bytes s ≡ true → IfaceBytes s
unfolding iface_bytes
iface_bytes-IfaceBytes [] h = empty
iface_bytes-IfaceBytes (c ∷ []) h = elim (Bool-cases (is_id_byte c)) [
  | inl e ↦ also e empty
  | inr n ↦ rw ((nat_eq_iff c b'+').0 (ground arith)) wildcard
]
iface_bytes-IfaceBytes (c ∷ d ∷ s) h =
    also (ground arith) (iface_bytes-IfaceBytes (d ∷ s) (ground arith))

not_empty : (s : Text) → s ≡ [] → ¬ (is_safe_iface_name s ≡ true)
unfolding is_safe_iface_name
not_empty s e = rw e (λ h. cc)

not_plus : (s : Text) → s ≡ (b'+' ∷ []) → ¬ (is_safe_iface_name s ≡ true)
unfolding is_safe_iface_name lit ◌==◌
not_plus s e = rw e (λ h. cc)

is_safe_iface_name-SafeName : (s : Text) → is_safe_iface_name s ≡ true → SafeName s
unfolding is_safe_iface_name lit ◌==◌
is_safe_iface_name-SafeName s h = record {
  some_byte = λ e. not_empty s e h;
  short = ground arith;
  not_every = λ e. not_plus s e h;
  bytes = iface_bytes-IfaceBytes s (ground arith);
}

keep_safe-All : (ps : List Text) → All SafeName (keep_safe ps)
unfolding keep_safe
keep_safe-All [] = tt
keep_safe-All (p ∷ ps) = elim (Bool-cases (is_safe_iface_name (trim_space p))) [
  | inl e ↦ elim (Bool-cases (is_empty (trim_space p))) [
    | inl e0 ↦ rw e0 (keep_safe-All ps)
    | inr e1 ↦ rw (e1, e) (is_safe_iface_name-SafeName (trim_space p) e, keep_safe-All ps)
  ]
  | inr n ↦ elim (Bool-cases (is_empty (trim_space p))) [
    | inl e0 ↦ rw e0 (keep_safe-All ps)
    | inr e1 ↦ rw (e1, n) (keep_safe-All ps)
  ]
]

-- Every interface that the environment's list adds has a safe name.
pub parse_iface_list-SafeName : (raw : Text) → All SafeName (parse_iface_list raw)
unfolding parse_iface_list
parse_iface_list-SafeName [] = tt
parse_iface_list-SafeName (c ∷ raw) = keep_safe-All (split b',' (c ∷ raw))
