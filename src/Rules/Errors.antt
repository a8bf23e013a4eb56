-- ===== src/Rules/Errors.antt =====
-- The errors of internal/rules, one constructor for each message, with the values it prints.
use zfw_dark.Common.{ℕ}
use zfw_dark.Common.Int.{ℤ}
use zfw_dark.Common.Result.{Result}
use zfw_dark.Common.Text.{Text}

pub data Error : Type 0 where
  bad_default_policy : Error
  too_many_rules too_many_v6_drop too_many_ports too_many_countries notes_too_long : ℕ → Error
  lan_not_ipv4 host_ip_not_ipv4 : Error
  v6_drop_port invalid_port : ℤ → Error
  in_rule : Text → Error → Error
  duplicate_id : Text → Error
  bad_id bad_container_id bad_direction bad_country bad_from bad_to bad_day : Text → Error
  name_required bad_action bad_protocol bad_zone : Error
  bad_source_ip bad_source_range bad_source_type no_country : Error
  empty_ports bad_ports_type : Error
  range_from range_to : ℤ → Error
  range_reversed : ℤ → ℤ → Error
  in_schedule in_rate_limit : Error → Error
  bad_conn bad_seconds : ℤ → Error
  too_many_days : Error
  newer_schema no_migration : ℤ → Error
  -- Only the model returns this: a loop that spends its fuel.
  out_of_fuel : Error

-- A check that returns `nil` or an error.
abbrev pub Check : Type 0
Check = Result Error (Unit {0})
