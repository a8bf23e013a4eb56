-- ===== src/Rules/Store/Reload.antt =====
-- `Load` of internal/rules/rules.go, after a `Save`, and on a file of an older schema.
use zfw_dark.Common.{
  ℕ, Bool, true, false, Option, none, some, ◌≡◌, inl, inr, refl, sym, ap, ◌∙◌, arith, Option-cases,
}
use zfw_dark.Common.Files.{FileSystem, FileLaws}
use zfw_dark.Common.Int.{ℤ, pos, ltb_ℤ, Within}
use zfw_dark.Common.Result.{Result, ok, err}
use zfw_dark.Common.Text.{Text}
use zfw_dark.Rules.Migrate.{migrate}
use zfw_dark.Rules.Model.{RuleSet}
use zfw_dark.Rules.Store.{
  Json, StoreError, backup_path, write_bytes, write_atomic, save, stamp, load, upgrade, written,
  backed_up, already,
}
use zfw_dark.Rules.Store.Atomic.{
  replaced, kept, write_atomic-AllOrNothing, write_atomic-other, path-backup, backup-tmp,
}

not_ok : {A : Type 0} {e : StoreError} {a : A} → err e ≡ ok a → ⊥
not_ok h = cc

migrate-stamp :
    (random : ℕ → Option Text) (rs : RuleSet)
    → migrate (stamp random rs) ≡ ok (stamp random rs, false)
unfolding migrate stamp
migrate-stamp random rs = refl

module _ (fs : FileSystem) (laws : FileLaws fs) (json : Json) where
  write_atomic-encoded :
      (path : Text) (rs : RuleSet) (s : fs.State)
      → (write_atomic fs json path rs s).1 ≡ ok tt
      → (b : Text) × (json.encode rs ≡ some b)
  unfolding write_atomic write_bytes
  write_atomic-encoded path rs s h = elim (Option-cases (json.encode rs)) [
    | inl e ↦ absurd (not_ok (rw e at h))
    | inr found ↦ found
  ]

  write_atomic-read :
      (path : Text) (rs : RuleSet) (s : fs.State)
      → (write_atomic fs json path rs s).1 ≡ ok tt
      → fs.read_file path (write_atomic fs json path rs s).0 ≡ json.encode rs
  write_atomic-read path rs s h = elim (write_atomic-AllOrNothing fs laws json path rs s) [
    | replaced _ e ↦ e
    | kept e failed same ↦ absurd (not_ok (sym failed ∙ h))
  ]

  -- A `Load` after a `Save` that returned nil gives the rule set that was saved, with its ids and
  -- the current version, and changes no file, if decoding gives back what was encoded of it.
  pub load-save :
      (random : ℕ → Option Text) (path : Text) (rs : RuleSet) (others : fs.State → fs.State)
      (s : fs.State)
      → ((b : Text)
          → json.encode (stamp random rs) ≡ some b
          → json.decode b ≡ some (stamp random rs))
      → (save fs json random path rs s).1 ≡ ok tt
      → load fs json path others (save fs json random path rs s).0
        ≡ ((save fs json random path rs s).0, ok (stamp random rs))
  unfolding load save
  load-save random path rs others s decodes saved =
      let (b, encoded) = write_atomic-encoded path (stamp random rs) s saved in
      rw
        (
          write_atomic-read path (stamp random rs) s saved,
          encoded,
          decodes b encoded,
          migrate-stamp random rs,
        )
        refl

  written-ok :
      (rs out : RuleSet) (w : fs.State × Result StoreError (Unit {0}))
      → (written fs json rs w).1 ≡ ok out
      → (w.1 ≡ ok tt) × (out ≡ rs) × ((written fs json rs w).0 ≡ w.0)
  unfolding written
  written-ok rs out (s, ok tt) h = (refl, cc, refl)
  written-ok rs out (s, err e) h = absurd (not_ok h)

  backed_up-ok :
      (path b : Text) (version : ℤ) (rs out : RuleSet) (s : fs.State) (wrote : Bool)
      → (wrote ≡ true → fs.read_file (backup_path path version) s ≡ some b)
      → (backed_up fs json path rs (s, wrote)).1 ≡ ok out
      → (out ≡ rs)
        × (fs.read_file (backup_path path version) (backed_up fs json path rs (s, wrote)).0
            ≡ some b)
        × (fs.read_file path (backed_up fs json path rs (s, wrote)).0 ≡ json.encode rs)
  unfolding backed_up
  backed_up-ok path b version rs out s false kept_bytes h = absurd (not_ok h)
  backed_up-ok path b version rs out s true kept_bytes h =
      let (done, same, at) = written-ok rs out (write_atomic fs json path rs s) h in
      (
        same,
        ap (fs.read_file (backup_path path version)) at
            ∙ write_atomic-other fs laws json path (backup_path path version) rs s
                (λ e. path-backup path version (sym e)) (backup-tmp path version)
            ∙ kept_bytes refl,
        ap (fs.read_file path) at ∙ write_atomic-read path rs s done,
      )

  migrate-older :
      (rs : RuleSet) → Within 0 2 rs.version → migrate rs ≡ ok (record rs { version = pos 3 }, true)
  unfolding migrate
  migrate-older rs h = ground arith

  already-older :
      (b : Text) (rs : RuleSet)
      → json.decode b ≡ some rs
      → Within 0 2 rs.version
      → already fs json (some b) ≡ none
  unfolding already
  already-older b rs decoded older =
      let below : ltb_ℤ rs.version (pos 3) ≡ true = ground arith in rw (decoded, below) refl

  load-upgrade :
      (path b : Text) (rs : RuleSet) (s : fs.State)
      → fs.read_file path s ≡ some b
      → json.decode b ≡ some rs
      → Within 0 2 rs.version
      → load fs json path (λ t. t) s
        ≡ upgrade fs json path b rs.version (record rs { version = pos 3 }) none s
  unfolding load
  load-upgrade path b rs s found decoded older =
      rw (found, decoded, migrate-older rs older, found, already-older b rs decoded older) refl

  -- A `Load` of a file of version 0, 1 or 2 that returns no error gives the same rule set at version
  -- 3, keeps the bytes it found under the name of the backup, and leaves the upgraded rule set in
  -- the file, if no other `Load` is at work.
  pub load-older :
      (path b : Text) (rs out : RuleSet) (s : fs.State)
      → fs.read_file path s ≡ some b
      → json.decode b ≡ some rs
      → Within 0 2 rs.version
      → (load fs json path (λ t. t) s).1 ≡ ok out
      → (out ≡ record rs { version = pos 3 })
        × (fs.read_file (backup_path path rs.version) (load fs json path (λ t. t) s).0 ≡ some b)
        × (fs.read_file path (load fs json path (λ t. t) s).0
            ≡ json.encode (record rs { version = pos 3 }))
  unfolding upgrade
  load-older path b rs out s found decoded older loaded =
      let same = load-upgrade path b rs s found decoded older in
      rw same (
        backed_up-ok path b rs.version (record rs { version = pos 3 }) out _ _
          (laws.write_done (backup_path path rs.version) b s) (rw same at loaded))
