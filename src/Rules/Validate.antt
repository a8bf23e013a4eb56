-- ===== src/Rules/Validate.antt =====
-- `Validate` of internal/rules/rules.go and the checks that it calls, in the order of the source.
use zfw_dark.Common.{ℕ, Bool, true, false, not, ◌&&◌, ◌||◌, List, [], ◌∷◌, Option, none, some}
use zfw_dark.Common.{any, length, leb, nat_eq, if◌then◌else◌}
use zfw_dark.Common.Int.{ℤ, pos, ltb_ℤ}
use zfw_dark.Common.Result.{ok, err, ◌>>◌, require, wrap_error}
use zfw_dark.Common.Text.{Text, Std, Family, v4, v6, lit, ◌==◌, is_empty, to_lower}
use zfw_dark.Rules.Checks.{
  is_safe_container_id, is_safe_rule_id, split_countries, is_alpha, is_hhmm,
}
use zfw_dark.Rules.Errors.{
  Error, Check, bad_default_policy, too_many_rules, too_many_v6_drop, too_many_ports,
  too_many_countries, notes_too_long, lan_not_ipv4, host_ip_not_ipv4, v6_drop_port, invalid_port,
  in_rule, duplicate_id, bad_id, bad_container_id, bad_direction, bad_country, bad_from, bad_to,
  bad_day, name_required, bad_action, bad_protocol, bad_zone, bad_source_ip, bad_source_range,
  bad_source_type, no_country, empty_ports, bad_ports_type, range_from, range_to, range_reversed,
  in_schedule, in_rate_limit, bad_conn, bad_seconds, too_many_days,
}
use zfw_dark.Rules.Model.{Source, Ports, RateLimit, Schedule, Rule, RuleSet, v6_ports}

abbrev pub max_rules : ℕ
max_rules = 256

abbrev pub max_ports_per_rule : ℕ
max_ports_per_rule = 128

abbrev pub max_v6_drop_ports : ℕ
max_v6_drop_ports = 128

abbrev pub max_rule_countries : ℕ
max_rule_countries = 32

abbrev pub max_note_len : ℕ
max_note_len = 256

-- `p >= 1 && p <= 65535`.
abbrev pub is_port : ℤ → Bool
is_port p = not (ltb_ℤ p (pos 1) || ltb_ℤ (pos 65535) p)

-- `for _, x := range xs { if !test(x) { return fail(x) } }`.
unfoldable pub each {ℓ} : {A : Type ℓ} → (A → Bool) → (A → Error) → List A → Check
each test fail [] = ok tt
each test fail (x ∷ xs) = do require (test x) (fail x); each test fail xs

abbrev pub is_some {ℓ} : {A : Type ℓ} → Option A → Bool
is_some none = false
is_some (some _) = true

-- `err == nil && ip.To4() != nil`.
abbrev pub is_v4 : Option Family → Bool
is_v4 (some v4) = true
is_v4 (some v6) = false
is_v4 none = false

-- `scheduleDays`.
abbrev pub schedule_days : List Text
schedule_days =
    lit "mon" ∷ lit "tue" ∷ lit "wed" ∷ lit "thu" ∷ lit "fri" ∷ lit "sat" ∷ lit "sun" ∷ []

unfoldable pub is_day : Text → Bool
is_day d = any (λ day. d == day) schedule_days

unfoldable pub validate_ports : Ports → Check
validate_ports p =
    if p.type == lit "all"
    then ok tt
    else if p.type == lit "list"
    then (do
      require (not (nat_eq (length p.list) 0)) empty_ports
      require (leb (length p.list) max_ports_per_rule) (too_many_ports (length p.list))
      each is_port invalid_port p.list)
    else if p.type == lit "range"
    then (do
      require (is_port p.from) (range_from p.from)
      require (is_port p.to) (range_to p.to)
      require (not (ltb_ℤ p.to p.from)) (range_reversed p.from p.to))
    else err bad_ports_type

unfoldable pub validate_rate_limit : RateLimit → Check
validate_rate_limit rl = do
  require (not (ltb_ℤ rl.conn (pos 1) || ltb_ℤ (pos 1000) rl.conn)) (bad_conn rl.conn)
  require (not (ltb_ℤ rl.seconds (pos 1) || ltb_ℤ (pos 3600) rl.seconds)) (bad_seconds rl.seconds)

-- `if r.Schedule != nil`, `if r.RateLimit != nil`.
abbrev pub validate_optional {ℓ} : {A : Type ℓ} → (A → Check) → (Error → Error) → Option A → Check
validate_optional check f none = ok tt
validate_optional check f (some x) = wrap_error f (check x)

module _ (std : Std) where
  unfoldable pub validate_source : Source → Check
  validate_source s =
      if s.type == lit "any"
      then ok tt
      else if s.type == lit "ip"
      then require (is_some (std.parse_ip s.value)) bad_source_ip
      else if s.type == lit "range"
      then require (is_some (std.parse_cidr s.value)) bad_source_range
      else if s.type == lit "country"
      then (do
        let codes = split_countries s.value
        require (not (nat_eq (length codes) 0)) no_country
        require (leb (length codes) max_rule_countries) (too_many_countries (length codes))
        each (λ c. nat_eq (length c) 2 && is_alpha c) bad_country codes)
      else err bad_source_type

  unfoldable pub validate_schedule : Schedule → Check
  validate_schedule s = do
    require (is_hhmm s.from) (bad_from s.from)
    require (is_hhmm s.to) (bad_to s.to)
    require (leb (length s.days) 7) too_many_days
    each (λ d. is_day (to_lower std d)) bad_day s.days

  unfoldable pub validate_rule : Rule → Check
  validate_rule r = do
    require (is_safe_rule_id r.id) (bad_id r.id)
    require (is_empty r.container_id || is_safe_container_id r.container_id)
        (bad_container_id r.container_id)
    require (not (is_empty r.name)) name_required
    require (r.action == lit "allow" || r.action == lit "deny") bad_action
    require (leb (length r.notes) max_note_len) (notes_too_long (length r.notes))
    validate_source r.source
    validate_ports r.ports
    require (r.protocol == lit "tcp" || r.protocol == lit "udp" || r.protocol == lit "both")
        bad_protocol
    require (r.zone == lit "auto" || r.zone == lit "host" || r.zone == lit "docker") bad_zone
    validate_optional validate_schedule in_schedule r.schedule
    validate_optional validate_rate_limit in_rate_limit r.rate_limit
    require (is_empty r.direction || r.direction == lit "inbound" || r.direction == lit "outbound")
        (bad_direction r.direction)

  -- The loop over the rules; `seen` holds the keys of `seenID`.
  unfoldable pub validate_rules : List Text → List Rule → Check
  validate_rules seen [] = ok tt
  validate_rules seen (r ∷ rs) = do
    wrap_error (in_rule r.name) (validate_rule r)
    require (is_empty r.id || not (any (λ i. i == r.id) seen)) (in_rule r.name (duplicate_id r.id))
    validate_rules (if is_empty r.id then seen else r.id ∷ seen) rs

  unfoldable pub validate : RuleSet → Check
  validate rs = do
    require (rs.default_policy == lit "deny" || rs.default_policy == lit "allow") bad_default_policy
    require (leb (length rs.rules) max_rules) (too_many_rules (length rs.rules))
    require (leb (length (v6_ports rs)) max_v6_drop_ports) (too_many_v6_drop (length (v6_ports rs)))
    require (is_empty rs.lan || is_v4 (std.parse_cidr rs.lan)) lan_not_ipv4
    require (is_empty rs.host_ip || is_v4 (std.parse_ip rs.host_ip)) host_ip_not_ipv4
    each is_port v6_drop_port (v6_ports rs)
    validate_rules [] rs.rules
