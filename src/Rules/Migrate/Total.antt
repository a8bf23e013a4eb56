-- ===== src/Rules/Migrate/Total.antt =====
-- `migrate` of internal/rules/rules.go on every version.
use zfw_dark.Common.{◌≡◌, arith, not, if◌then◌else◌}
use zfw_dark.Common.Int.{pos, ltb_ℤ, eq_ℤ}
use zfw_dark.Common.Result.{ok, err}
use zfw_dark.Rules.Errors.{newer_schema, no_migration}
use zfw_dark.Rules.Migrate.{migrate}
use zfw_dark.Rules.Model.{RuleSet}

-- `migrate` ends on every rule set, whatever its version: a version above 3 is refused as newer, a
-- negative one as unknown, and any other becomes 3 with every other field as it was; the flag says
-- whether the version was another.
pub migrate_total :
    (rs : RuleSet)
    → migrate rs ≡ (
        if ltb_ℤ (pos 3) rs.version
        then err (newer_schema rs.version)
        else if ltb_ℤ rs.version (pos 0)
        then err (no_migration rs.version)
        else ok (record rs { version = pos 3 }, not (eq_ℤ rs.version (pos 3))))
unfolding migrate
migrate_total rs = ground arith
