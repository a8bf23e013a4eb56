-- ===== src/Rules/Store.antt =====
-- internal/rules/rules.go: `Load`, `Save`, `writeAtomic` and `NewID`. The file system, the JSON
-- encoding and the random bytes are parameters.
pub mod Atomic
pub mod Reload
pub mod Ids
use zfw_dark.Common.{
  ℕ, ◌+◌, ◌-◌, ◌/◌, ◌%◌, suc, Bool, true, false, not, List, [], ◌∷◌, ◌++◌, Option, none, some,
}
use zfw_dark.Common.{flat_map, ltb, cat, if◌then◌else◌}
use zfw_dark.Common.Files.{FileSystem, tmp_path}
use zfw_dark.Common.Int.{ℤ, ltb_ℤ}
use zfw_dark.Common.Result.{Result, ok, err}
use zfw_dark.Common.Text.{Text, lit, is_empty, itoa}
use zfw_dark.Rules.Errors.{Error}
use zfw_dark.Rules.Migrate.{migrate, current_schema}
use zfw_dark.Rules.Model.{Rule, RuleSet}

-- `json.MarshalIndent` and `json.Unmarshal` on rule sets; `none` is an error.
pub record Json : Type 0 where
  pub encode : RuleSet → Option Text
  pub decode : Text → Option RuleSet

pub data StoreError : Type 0 where
  read_failed parse_failed encode_failed write_failed rename_failed backup_failed : StoreError
  migration : Error → StoreError
  migration_write : StoreError → StoreError

-- `%x`.
unfoldable hex_digit : ℕ → ℕ
hex_digit n = if ltb n 10 then b'0' + n else b'a' + (n - 10)

-- `NewID` by what `rand.Read` gave: four bytes, or none on an error.
unfoldable pub new_id : Option Text → Text
unfolding hex_digit
new_id none = lit "r00000000"
new_id (some bytes) = b'r' ∷ flat_map (λ b. hex_digit (b / 16) ∷ hex_digit (b % 16) ∷ []) bytes

-- One round of the loop of `Save`, and how many ids it has drawn: call `n` of `rand.Read` gives
-- `random n`.
unfoldable fill_id : (ℕ → Option Text) → ℕ → Rule → Rule × ℕ
fill_id random n r = if is_empty r.id then (record r { id = new_id (random n) }, suc n) else (r, n)

unfoldable pub fill_ids : (ℕ → Option Text) → ℕ → List Rule → List Rule
unfolding fill_id
fill_ids random n [] = []
fill_ids random n (r ∷ rs) =
    let (filled, next) = fill_id random n r in filled ∷ fill_ids random next rs

-- What `Save` writes.
unfoldable pub stamp : (ℕ → Option Text) → RuleSet → RuleSet
stamp random rs = record rs {
  version = current_schema;
  v6_drop = some (elim rs.v6_drop [ none ↦ [] | some ps ↦ ps ]);
  rules = fill_ids random 0 rs.rules;
}

abbrev pub backup_path : Text → ℤ → Text
backup_path path version = cat (path ∷ lit ".bak.v" ∷ itoa version ∷ [])

module _ (fs : FileSystem) (json : Json) where
  unfoldable move_in : Text → fs.State × Bool → fs.State × Result StoreError (Unit {0})
  move_in path (s, false) = (s, err write_failed)
  move_in path (s, true) =
      let (t, moved) = fs.rename (tmp_path path) path s in
      (t, if moved then ok tt else err rename_failed)

  unfoldable write_bytes : Text → Option Text → fs.State → fs.State × Result StoreError (Unit {0})
  unfolding move_in
  write_bytes path none s = (s, err encode_failed)
  write_bytes path (some b) s = move_in path (fs.write_file (tmp_path path) b s)

  unfoldable pub write_atomic : Text → RuleSet → fs.State → fs.State × Result StoreError (Unit {0})
  unfolding write_bytes
  write_atomic path rs s = write_bytes path (json.encode rs) s

  unfoldable pub save :
      (ℕ → Option Text) → Text → RuleSet → fs.State → fs.State × Result StoreError (Unit {0})
  save random path rs s = write_atomic path (stamp random rs) s

  unfoldable up_to_date : Option RuleSet → Option RuleSet
  up_to_date none = none
  up_to_date (some rs) = if ltb_ℤ rs.version current_schema then none else some rs

  -- The rule set of the file, if another `Load` has already written the current schema.
  unfoldable already : Option Text → Option RuleSet
  unfolding up_to_date
  already none = none
  already (some b) = up_to_date (json.decode b)

  unfoldable written :
      RuleSet → fs.State × Result StoreError (Unit {0}) → fs.State × Result StoreError RuleSet
  written rs (s, ok tt) = (s, ok rs)
  written rs (s, err e) = (s, err (migration_write e))

  unfoldable backed_up : Text → RuleSet → fs.State × Bool → fs.State × Result StoreError RuleSet
  unfolding written
  backed_up path rs (s, false) = (s, err backup_failed)
  backed_up path rs (s, true) = written rs (write_atomic path rs s)

  -- From the lock on: `b` are the bytes read before it, `version` their version.
  unfoldable pub upgrade :
      Text → Text → ℤ → RuleSet → Option RuleSet → fs.State → fs.State × Result StoreError RuleSet
  unfolding backed_up
  upgrade path b version rs (some found) s = (s, ok found)
  upgrade path b version rs none s =
      backed_up path rs (fs.write_file (backup_path path version) b s)

  unfoldable lift :
      Text
      → Text
      → ℤ
      → (fs.State → fs.State)
      → Result Error (RuleSet × Bool)
      → fs.State
      → fs.State × Result StoreError RuleSet
  unfolding already
  lift path b version others (err e) s = (s, err (migration e))
  lift path b version others (ok (rs, false)) s = (s, ok rs)
  lift path b version others (ok (rs, true)) s =
      upgrade path b version rs (already (fs.read_file path (others s))) (others s)

  unfoldable parse :
      Text
      → Text
      → (fs.State → fs.State)
      → Option RuleSet
      → fs.State
      → fs.State × Result StoreError RuleSet
  unfolding lift
  parse path b others none s = (s, err parse_failed)
  parse path b others (some rs) s = lift path b rs.version others (migrate rs) s

  unfoldable read_then :
      Text → (fs.State → fs.State) → Option Text → fs.State → fs.State × Result StoreError RuleSet
  unfolding parse
  read_then path others none s = (s, err read_failed)
  read_then path others (some b) s = parse path b others (json.decode b) s

  -- `Load`; `others` is what other callers do until this one holds the lock.
  unfoldable pub load :
      Text → (fs.State → fs.State) → fs.State → fs.State × Result StoreError RuleSet
  unfolding read_then
  load path others s = read_then path others (fs.read_file path s) s
