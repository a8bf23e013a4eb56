-- ===== src/Firewall/Saved.antt =====
-- What `SaveConfig` of internal/firewall/firewall.go does to allowlist.conf.
use zfw_dark.Common.{some, ◌≡◌, ◌⊎◌, refl, inl, inr}
use zfw_dark.Common.Files.{
  FileSystem, FileLaws, Replaced, whole, write_error, rename_error, Whole, new, old, replace_file,
  replace_file-Whole,
}
use zfw_dark.Common.Result.{Result, ok, err}
use zfw_dark.Common.Text.{Text, Std}
use zfw_dark.Firewall.{
  TierConfig, ConfError, write_failed, rename_failed, validate_config, conf_lines, written_lines,
  write_result, write_valid, save_config,
}

-- The file holds the whole new text of a valid configuration, or there is an error and it is as it
-- was.
pub data Saved (fs : FileSystem) (std : Std) (path : Text) (c : TierConfig) (s : fs.State)
    (out : fs.State × Result ConfError (Unit {0})) : Type 0 where
  saved :
      validate_config std c ≡ ok tt
      → fs.read_file path out.0 ≡ some (written_lines (conf_lines c))
      → Saved fs std path c s out
  unsaved :
      (e : ConfError)
      → out.1 ≡ err e
      → fs.read_file path out.0 ≡ fs.read_file path s
      → Saved fs std path c s out

write_result-cases :
    (how : Replaced) → (how ≡ whole) ⊎ ((e : ConfError) × (write_result how ≡ err e))
unfolding write_result
write_result-cases whole = inl refl
write_result-cases write_error = inr (write_failed, refl)
write_result-cases rename_error = inr (rename_failed, refl)

module _ (fs : FileSystem) (files : FileLaws fs) (std : Std) where
  replaced-Saved :
      (path : Text) (c : TierConfig) (s : fs.State)
      → validate_config std c ≡ ok tt
      → Whole fs path
          (written_lines (conf_lines c))
          s
          (replace_file fs path (written_lines (conf_lines c)) s)
      → Saved fs std path c s (write_valid fs path c s (ok tt))
  unfolding write_valid
  replaced-Saved path c s valid (new done held) = saved valid held
  replaced-Saved path c s valid (old failed same) =
      elim (write_result-cases (replace_file fs path (written_lines (conf_lines c)) s).1) [
        | inl e ↦ absurd (failed e)
        | inr (e, h) ↦ unsaved e h same
      ]

  write_valid-Saved :
      (path : Text) (c : TierConfig) (s : fs.State) (r : Result ConfError (Unit {0}))
      → validate_config std c ≡ r
      → Saved fs std path c s (write_valid fs path c s r)
  unfolding write_valid
  write_valid-Saved path c s (err e) h = unsaved e refl refl
  write_valid-Saved path c s (ok _) h =
      replaced-Saved path c s h (replace_file-Whole fs files path _ s)

  -- SaveConfig either leaves the whole text of a configuration that validate accepts in the file, or
  -- returns an error and the file is as it was.
  pub save_config-Saved :
      (path : Text) (c : TierConfig) (s : fs.State)
      → Saved fs std path c s (save_config fs std path c s)
  unfolding save_config
  save_config-Saved path c s = write_valid-Saved path c s (validate_config std c) refl
