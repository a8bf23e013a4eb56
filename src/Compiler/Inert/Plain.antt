-- ===== src/Compiler/Inert/Plain.antt =====
-- The fields of a rule from which internal/compiler/compiler.go takes texts for its lines.
use zfw_dark.Common.{List, [], ◌∷◌, All, All-map}
use zfw_dark.Common.Text.{Std, lit}
use zfw_dark.Rules.Model.{Rule}
use zfw_dark.Rules.Valid.Parts.{OneOf, ValidSource, ValidSchedule}
use zfw_dark.Rules.Valid.Rule.{SafeId, ForSome, ValidRule}

-- These are valid, whatever the ports are.
pub record PlainRule (std : Std) (r : Rule) : Type 0 where
  pub id : SafeId r.id
  pub source : ValidSource std r.source
  pub protocol : OneOf r.protocol (lit "tcp" ∷ lit "udp" ∷ lit "both" ∷ [])
  pub schedule : ForSome (ValidSchedule std) r.schedule

Valid-Plain : (std : Std) (r : Rule) → ValidRule std r → PlainRule std r
Valid-Plain std r v = record {
  id = v.id;
  source = v.source;
  protocol = v.protocol;
  schedule = v.schedule;
}

pub All-Plain : (std : Std) (rs : List Rule) → All (ValidRule std) rs → All (PlainRule std) rs
All-Plain std rs h = All-map (Valid-Plain std) rs h
