-- ===== src/Rules/Store/Atomic.antt =====
-- What a reader of rules.json finds after `writeAtomic`, `Save` and `Load` of internal/rules/rules.go.
use zfw_dark.Common.{
  Bool, true, false, [], ◌∷◌, ◌++◌, Option, none, some, ◌≡◌, ◌≢◌, inl, inr, refl, ap, ◌∙◌, arith,
  drop, length-append, Bool-cases, Option-cases,
}
use zfw_dark.Common.Files.{FileSystem, FileLaws, tmp_path, longer, path-tmp}
use zfw_dark.Common.Int.{ℤ}
use zfw_dark.Common.Result.{Result, ok, err}
use zfw_dark.Common.Text.{Text, lit, itoa}
use zfw_dark.Rules.Model.{RuleSet}
use zfw_dark.Rules.Store.{
  Json, StoreError, rename_failed, backup_path, move_in, write_bytes, write_atomic,
}

pub path-backup : (p : Text) (n : ℤ) → p ≢ backup_path p n
unfolding lit
path-backup p n e =
    let h = longer p (lit ".bak.v" ++ (itoa n ++ [])) e in
    omega (arith, length-append (lit ".bak.v") (itoa n ++ []))

pub backup-tmp : (p : Text) (n : ℤ) → backup_path p n ≢ tmp_path p
unfolding lit
backup-tmp [] n e = cc
backup-tmp (x ∷ p) n e = backup-tmp p n (ap (drop 1) e)

-- A file is replaced whole, or the result is an error and the file is as it was.
pub data AllOrNothing (fs : FileSystem) (path : Text) (old new : Option Text)
    (out : fs.State × Result StoreError (Unit {0})) : Type 0 where
  replaced : out.1 ≡ ok tt → fs.read_file path out.0 ≡ new → AllOrNothing fs path old new out
  kept :
      (e : StoreError)
      → out.1 ≡ err e
      → fs.read_file path out.0 ≡ old
      → AllOrNothing fs path old new out

module _ (fs : FileSystem) (laws : FileLaws fs) (json : Json) where
  move_in-AllOrNothing :
      (path b : Text) (s : fs.State) (old : Option Text) (wrote : Bool)
      → fs.read_file path s ≡ old
      → (wrote ≡ true → fs.read_file (tmp_path path) s ≡ some b)
      → AllOrNothing fs path old (some b) (move_in fs json path (s, wrote))
  unfolding move_in
  move_in-AllOrNothing path b s old false before new = kept _ refl before
  move_in-AllOrNothing path b s old true before new =
      elim (Bool-cases (fs.rename (tmp_path path) path s).1) [
        | inl moved ↦ replaced (rw moved refl) (laws.rename_done _ path s moved ∙ new refl)
        | inr failed ↦
            kept rename_failed (rw failed refl) (laws.rename_failed _ path path s failed ∙ before)
      ]

  write_bytes-AllOrNothing :
      (path : Text) (o : Option Text) (s : fs.State)
      → AllOrNothing fs path (fs.read_file path s) o (write_bytes fs json path o s)
  unfolding write_bytes
  write_bytes-AllOrNothing path none s = kept _ refl refl
  write_bytes-AllOrNothing path (some b) s =
      move_in-AllOrNothing path b (fs.write_file (tmp_path path) b s).0 (fs.read_file path s)
        (fs.write_file (tmp_path path) b s).1
        (laws.write_other (tmp_path path) path b s (path-tmp path))
        (laws.write_done (tmp_path path) b s)

  -- Whichever call fails, `writeAtomic` leaves the file as it was, and if it returns nil, the file
  -- holds the whole encoding of the rule set.
  pub write_atomic-AllOrNothing :
      (path : Text) (rs : RuleSet) (s : fs.State)
      → AllOrNothing fs path (fs.read_file path s) (json.encode rs) (write_atomic fs json path rs s)
  unfolding write_atomic
  write_atomic-AllOrNothing path rs s = write_bytes-AllOrNothing path (json.encode rs) s

  move_in-other :
      (path q : Text) (s : fs.State) (wrote : Bool)
      → q ≢ path
      → q ≢ tmp_path path
      → fs.read_file q (move_in fs json path (s, wrote)).0 ≡ fs.read_file q s
  unfolding move_in
  move_in-other path q s false p t = refl
  move_in-other path q s true p t = laws.rename_other (tmp_path path) path q s t p

  -- `writeAtomic` touches no file but its own and the temporary one.
  pub write_atomic-other :
      (path q : Text) (rs : RuleSet) (s : fs.State)
      → q ≢ path
      → q ≢ tmp_path path
      → fs.read_file q (write_atomic fs json path rs s).0 ≡ fs.read_file q s
  unfolding write_atomic write_bytes
  write_atomic-other path q rs s p t = elim (Option-cases (json.encode rs)) [
    | inl e ↦ rw e refl
    | inr (b, e) ↦ rw e (
        move_in-other path q (fs.write_file (tmp_path path) b s).0
          (fs.write_file (tmp_path path) b s).1 p t
        ∙ laws.write_other (tmp_path path) q b s t)
  ]
