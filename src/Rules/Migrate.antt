-- ===== src/Rules/Migrate.antt =====
-- `migrate` of internal/rules/rules.go.
pub mod Total
use zfw_dark.Common.{ℕ, zero, suc, Bool, true, false, if◌then◌else◌}
use zfw_dark.Common.Int.{ℤ, pos, ltb_ℤ, eq_ℤ}
use zfw_dark.Common.Result.{Result, ok, err, ◌>>=◌}
use zfw_dark.Rules.Errors.{Error, newer_schema, no_migration, out_of_fuel}
use zfw_dark.Rules.Model.{RuleSet}

abbrev pub current_schema : ℤ
current_schema = pos 3

-- One round of the `switch`, at a version below the current one.
migrate_step : RuleSet → Result Error RuleSet
migrate_step rs =
    if eq_ℤ rs.version (pos 0)
    then ok (record rs { version = pos 1 })
    else if eq_ℤ rs.version (pos 1)
    then ok (record rs { version = pos 2 })
    else if eq_ℤ rs.version (pos 2)
    then ok (record rs { version = pos 3 })
    else err (no_migration rs.version)

-- `for rs.Version < CurrentSchema`. Three rounds and the last test are all that it can take.
migrate_loop : ℕ → RuleSet → Result Error RuleSet
migrate_loop zero rs = err out_of_fuel
migrate_loop (suc fuel) rs =
    let rest = migrate_step rs >>= λ next. migrate_loop fuel next in
    if ltb_ℤ rs.version current_schema then rest else ok rs

-- The rule set, and whether it changed.
unfoldable pub migrate : RuleSet → Result Error (RuleSet × Bool)
unfolding migrate_loop migrate_step
migrate rs =
    if ltb_ℤ current_schema rs.version
    then err (newer_schema rs.version)
    else if eq_ℤ rs.version current_schema
    then ok (rs, false)
    else migrate_loop 4 rs >>= λ next. ok (next, true)
