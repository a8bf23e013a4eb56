-- ===== src/Common/Files.antt =====
-- Files as package os shows them, and the idiom by which the program replaces one: write the new
-- content beside it, and rename.
use mathlib.Core.Bool.{Bool, true, false}
use mathlib.Core.List.{◌++◌}
use mathlib.Core.Logic.{◌≢◌, inl, inr}
use mathlib.Core.Option.{Option, some}
use mathlib.Core.Path.{◌≡◌, refl, ap, ◌∙◌}
use native.Mathlib.Omega.{arith}
use zfw_dark.Common.Lists.{length, length-append}
use zfw_dark.Common.Tests.{Bool-cases, if◌then◌else◌}
use zfw_dark.Common.Text.{Text, lit}

-- What package os does: `write_file` and `rename` say whether they returned nil.
pub record FileSystem : Type 1 where
  pub State : Type 0
  pub read_file : Text → State → Option Text
  pub write_file : Text → Text → State → State × Bool
  pub rename : Text → Text → State → State × Bool

abbrev pub tmp_path : Text → Text
tmp_path path = path ++ lit ".tmp"

-- What package os documents of its calls on the files of one directory: a write touches one file,
-- and holds the data if it succeeds; a rename that succeeds replaces its target by the source, and
-- one that fails changes nothing.
pub record FileLaws (fs : FileSystem) : Type 0 where
  pub write_other :
      (p q b : Text) (s : fs.State)
      → q ≢ p
      → fs.read_file q (fs.write_file p b s).0 ≡ fs.read_file q s
  pub write_done :
      (p b : Text) (s : fs.State)
      → (fs.write_file p b s).1 ≡ true
      → fs.read_file p (fs.write_file p b s).0 ≡ some b
  pub rename_other :
      (a p q : Text) (s : fs.State)
      → q ≢ a
      → q ≢ p
      → fs.read_file q (fs.rename a p s).0 ≡ fs.read_file q s
  pub rename_done :
      (a p : Text) (s : fs.State)
      → (fs.rename a p s).1 ≡ true
      → fs.read_file p (fs.rename a p s).0 ≡ fs.read_file a s
  pub rename_failed :
      (a p q : Text) (s : fs.State)
      → (fs.rename a p s).1 ≡ false
      → fs.read_file q (fs.rename a p s).0 ≡ fs.read_file q s

pub longer : (p x : Text) → p ≡ p ++ x → length x ≡ 0
longer p x e = let h = ap length e in omega (arith, length-append p x)

pub path-tmp : (p : Text) → p ≢ tmp_path p
unfolding lit
path-tmp p e = let h = longer p (lit ".tmp") e in omega arith

-- How `os.WriteFile` to the temporary name, and `os.Rename`, ended.
pub data Replaced : Type 0 where
  whole write_error rename_error : Replaced

module _ (fs : FileSystem) where
  unfoldable renamed : Text → fs.State × Bool → fs.State × Replaced
  renamed path (s, false) = (s, write_error)
  renamed path (s, true) =
      let (t, moved) = fs.rename (tmp_path path) path s in
      (t, if moved then whole else rename_error)

  unfoldable pub replace_file : Text → Text → fs.State → fs.State × Replaced
  unfolding renamed
  replace_file path b s = renamed path (fs.write_file (tmp_path path) b s)

-- The file holds the whole content, or there is an error and the file is as it was.
pub data Whole (fs : FileSystem) (path b : Text) (s : fs.State) (out : fs.State × Replaced)
    : Type 0 where
  new : out.1 ≡ whole → fs.read_file path out.0 ≡ some b → Whole fs path b s out
  old : out.1 ≢ whole → fs.read_file path out.0 ≡ fs.read_file path s → Whole fs path b s out

module _ (fs : FileSystem) (laws : FileLaws fs) where
  renamed-Whole :
      (path b : Text) (s before : fs.State) (wrote : Bool)
      → fs.read_file path s ≡ fs.read_file path before
      → (wrote ≡ true → fs.read_file (tmp_path path) s ≡ some b)
      → Whole fs path b before (renamed fs path (s, wrote))
  unfolding renamed
  renamed-Whole path b s before false same held = old (λ e. cc) same
  renamed-Whole path b s before true same held =
      elim (Bool-cases (fs.rename (tmp_path path) path s).1) [
        | inl moved ↦ new (rw moved refl) (laws.rename_done _ path s moved ∙ held refl)
        | inr failed ↦ old (rw failed (λ e. cc)) (laws.rename_failed _ path path s failed ∙ same)
      ]

  pub replace_file-Whole :
      (path b : Text) (s : fs.State) → Whole fs path b s (replace_file fs path b s)
  unfolding replace_file
  replace_file-Whole path b s =
      renamed-Whole path b (fs.write_file (tmp_path path) b s).0 s
        (fs.write_file (tmp_path path) b s).1
        (laws.write_other (tmp_path path) path b s (path-tmp path))
        (laws.write_done (tmp_path path) b s)

  renamed-other :
      (path q : Text) (s : fs.State) (wrote : Bool)
      → q ≢ path
      → q ≢ tmp_path path
      → fs.read_file q (renamed fs path (s, wrote)).0 ≡ fs.read_file q s
  unfolding renamed
  renamed-other path q s false h k = refl
  renamed-other path q s true h k = laws.rename_other (tmp_path path) path q s k h

  pub replace_file-other :
      (path q b : Text) (s : fs.State)
      → q ≢ path
      → q ≢ tmp_path path
      → fs.read_file q (replace_file fs path b s).0 ≡ fs.read_file q s
  unfolding replace_file
  replace_file-other path q b s h k =
      renamed-other path q (fs.write_file (tmp_path path) b s).0
        (fs.write_file (tmp_path path) b s).1 h k
      ∙ laws.write_other (tmp_path path) q b s k
