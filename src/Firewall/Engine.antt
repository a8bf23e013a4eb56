-- ===== src/Firewall/Engine.antt =====
-- The runs of the engine: `Apply`, `Commit`, `Revert` and `secureRootFile` of
-- internal/firewall/firewall.go. What the commands of the host do, and what `os.Stat` says of the
-- script, are parameters.
use zfw_dark.Common.{
  ℕ, ◌/◌, ◌%◌, Bool, true, false, ◌&&◌, List, [], ◌∷◌, Option, none, some, ◌≡◌, refl, sym, ap, ◌∙◌,
  ◌↔◌, inl, inr, arith, Bool-cases,
}
use zfw_dark.Common.{nat_eq, if◌then◌else◌}
use zfw_dark.Common.Result.{Result, ok, err, require, ◌>>◌, then-ok}
use zfw_dark.Common.Text.{Text, lit}

-- `os.FileInfo`: the owner, if the system tells it, and the permission bits.
pub record FileInfo : Type 0 where
  pub uid : Option ℕ
  pub perm : ℕ

-- What `run` gives: the output, and whether the command ended without an error.
pub record Host : Type 1 where
  pub State : Type 0
  pub stat : Text → State → Option FileInfo
  pub run : Text → List Text → State → State × (Text × Bool)

pub data EngineError : Type 0 where
  no_file : EngineError
  not_root : ℕ → EngineError
  writable : ℕ → EngineError
  failed : EngineError

abbrev owner_check : Option ℕ → Result EngineError (Unit {0})
owner_check none = ok tt
owner_check (some uid) = require (nat_eq uid 0) (not_root uid)

-- `perm & 0o022 == 0`.
abbrev closed_to_others : ℕ → Bool
closed_to_others perm = nat_eq (perm / 16 % 2) 0 && nat_eq (perm / 2 % 2) 0

unfoldable pub secure_info : Option FileInfo → Result EngineError (Unit {0})
secure_info none = err no_file
secure_info (some fi) = do owner_check fi.uid; require (closed_to_others fi.perm) (writable fi.perm)

abbrev pub apply_args : Bool → List Text
apply_args safe = if safe then lit "apply" ∷ lit "--safe" ∷ [] else lit "apply" ∷ []

-- The words that follow the script's name.
pub data Words : Bool → List Text → Type 0 where
  plain : Words false (lit "apply" ∷ [])
  rolled_back : Words true (lit "apply" ∷ lit "--safe" ∷ [])

module _ (host : Host) where
  -- `secureRootFile`.
  unfoldable pub secure_root_file : Text → host.State → Result EngineError (Unit {0})
  unfolding secure_info
  secure_root_file path s = secure_info (host.stat path s)

  unfoldable pub run_secure :
      Text
      → Bool
      → Result EngineError (Unit {0})
      → host.State
      → host.State × (Text × Option EngineError)
  run_secure bin safe (err e) s = (s, ([], some e))
  run_secure bin safe (ok _) s =
      let (t, (out, fine)) = host.run bin (apply_args safe) s in
      (t, (out, if fine then none else some failed))

  -- `Apply`.
  unfoldable pub apply : Text → Bool → host.State → host.State × (Text × Option EngineError)
  unfolding run_secure
  apply bin safe s = run_secure bin safe (secure_root_file bin s) s

  unfoldable pub run_command : Text → Text → host.State → host.State × (Text × Option EngineError)
  run_command bin command s =
      let (t, (out, fine)) = host.run bin (command ∷ []) s in
      (t, (out, if fine then none else some failed))

  -- `Commit` and `Revert`, which do not look at the script's owner.
  unfoldable pub commit : Text → host.State → host.State × (Text × Option EngineError)
  unfolding run_command
  commit bin s = run_command bin (lit "commit") s

  unfoldable pub revert : Text → host.State → host.State × (Text × Option EngineError)
  unfolding run_command
  revert bin s = run_command bin (lit "revert") s

  -- A script that is there, is root's if the system tells the owner, and that neither its group nor
  -- others may write.
  pub record Secure (path : Text) (s : host.State) : Type 0 where
    pub info : FileInfo
    pub there : host.stat path s ≡ some info
    pub root : (uid : ℕ) → info.uid ≡ some uid → uid ≡ 0
    pub group_write : info.perm / 16 % 2 ≡ 0
    pub other_write : info.perm / 2 % 2 ≡ 0

  -- The engine is run once, or not at all.
  pub data Applied (bin : Text) (safe : Bool) (s : host.State)
      (out : host.State × (Text × Option EngineError)) : Type 0 where
    refused :
        ¬ Secure bin s → out.0 ≡ s → (e : EngineError) → out.1.1 ≡ some e → Applied bin safe s out
    ran :
        Secure bin s
        → (words : List Text) → Words safe words
        → out.0 ≡ (host.run bin words s).0
        → out.1.0 ≡ (host.run bin words s).1.0
        → (out.1.1 ≡ none) ↔ ((host.run bin words s).1.1 ≡ true)
        → Applied bin safe s out

apply_args-Words : (safe : Bool) → Words safe (apply_args safe)
apply_args-Words false = plain
apply_args-Words true = rolled_back

owner_check_iff : (o : Option ℕ) → (owner_check o ≡ ok tt) ↔ ((uid : ℕ) → o ≡ some uid → uid ≡ 0)
owner_check_iff none = (λ h uid e. cc, λ h. refl)
owner_check_iff (some uid) = elim (Bool-cases (nat_eq uid 0)) [
  | inl e ↦ (λ h v k. ground arith, λ h. rw e refl)
  | inr e ↦ (
    λ h v k. absurd (let bad : err (not_root uid) ≡ ok tt = rw e at h in cc),
    λ h. absurd (let k = h uid refl in ground arith),
  )
]

closed_iff :
    (perm : ℕ) → (closed_to_others perm ≡ true) ↔ ((perm / 16 % 2 ≡ 0) × (perm / 2 % 2 ≡ 0))
closed_iff perm = ground arith

closed_require :
    (perm : ℕ) (e : EngineError)
    → (require (closed_to_others perm) e ≡ ok tt) ↔ (closed_to_others perm ≡ true)
closed_require perm e = ground arith

module _ (host : Host) where
  info-Secure :
      (path : Text) (s : host.State) (o : Option FileInfo)
      → host.stat path s ≡ o
      → (secure_info o ≡ ok tt) ↔ Secure host path s
  unfolding secure_info
  info-Secure path s none h = (λ e. cc, λ k. let bad = sym h ∙ k.there in cc)
  info-Secure path s (some fi) h =
      let (to, from) =
        then-ok (owner_check fi.uid) (require (closed_to_others fi.perm) (writable fi.perm)) in
      let (owned, disowned) = owner_check_iff fi.uid in
      let (closed, opened) = closed_require fi.perm (writable fi.perm) in
      let (bits, unbits) = closed_iff fi.perm in
      (
        λ e.
            let (own, mode) = to e in
            let (group, other) = bits (closed mode) in
            record {
              info = fi;
              there = h;
              root = owned own;
              group_write = group;
              other_write = other;
            },
        λ k.
            let same : some k.info ≡ some fi = sym k.there ∙ h in
            let info : k.info ≡ fi = cc in
            from (
              disowned (λ uid e. k.root uid (ap (λ i. i.uid) info ∙ e)),
              opened (unbits (rw info at k.group_write, rw info at k.other_write)),
            ),
      )

  run_secure-Applied :
      (bin : Text) (safe : Bool) (r : Result EngineError (Unit {0})) (s : host.State)
      → (r ≡ ok tt) ↔ Secure host bin s
      → Applied host bin safe s (run_secure host bin safe r s)
  unfolding run_secure
  run_secure-Applied bin safe (err e) s (to, from) =
      refused (λ k. let bad = from k in cc) refl e refl
  run_secure-Applied bin safe (ok _) s (to, from) =
      ran (to refl) (apply_args safe) (apply_args-Words safe) refl refl (ground arith)

  -- Apply runs the engine once, when the script is there, root's, and not writable by its group or
  -- others: with the words "apply --safe" if it is asked for the timer, and "apply" alone if not. It
  -- gives what the engine printed, and an error exactly if the engine failed. Otherwise it runs nothing
  -- and returns an error.
  pub apply-Applied :
      (bin : Text) (safe : Bool) (s : host.State) → Applied host bin safe s (apply host bin safe s)
  unfolding apply secure_root_file
  apply-Applied bin safe s =
      run_secure-Applied bin safe _ s (info-Secure bin s (host.stat bin s) refl)
