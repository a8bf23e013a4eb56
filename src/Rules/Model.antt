-- ===== src/Rules/Model.antt =====
-- The data of internal/rules/rules.go: a rule set and its parts. A Go slice is a list (a nil slice
-- and an empty one are told apart only in `v6_drop`, where `Save` does); a nil pointer is `none`.
use zfw_dark.Common.{List, Option, Bool, some, none}
use zfw_dark.Common.Int.{ℤ}
use zfw_dark.Common.Text.{Text, lit, ◌==◌}

pub record Source : Type 0 where
  pub type : Text
  pub value : Text

pub record Ports : Type 0 where
  pub type : Text
  pub list : List ℤ
  pub from : ℤ
  pub to : ℤ

pub record RateLimit : Type 0 where
  pub conn : ℤ
  pub seconds : ℤ

pub record Schedule : Type 0 where
  pub from : Text
  pub to : Text
  pub days : List Text

pub record Rule : Type 0 where
  pub id : Text
  pub order : ℤ
  pub enabled : Bool
  pub name : Text
  pub action : Text
  pub source : Source
  pub ports : Ports
  pub protocol : Text
  pub zone : Text
  pub notes : Text
  pub schedule : Option Schedule
  pub log : Bool
  pub rate_limit : Option RateLimit
  pub direction : Text
  pub container_id : Text

pub record RuleSet : Type 0 where
  pub version : ℤ
  pub lan : Text
  pub host_ip : Text
  pub default_policy : Text
  pub v6_drop : Option (List ℤ)
  pub rules : List Rule

-- The ports that `range rs.V6Drop` visits.
abbrev pub v6_ports : RuleSet → List ℤ
v6_ports rs = elim rs.v6_drop [ none ↦ List.[] | some ps ↦ ps ]

unfoldable pub is_outbound : Rule → Bool
is_outbound r = r.direction == lit "outbound"
