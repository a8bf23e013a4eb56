-- ===== src/Rules/Valid/Rule.antt =====
-- What `Validate` of internal/rules/rules.go accepts: every field of every rule, and distinct ids.
use zfw_dark.Common.{
  ℕ, ◌≤◌, Bool, true, not, ◌||◌, List, [], ◌∷◌, Option, none, some, ◌≡◌, refl, ◌≢◌, ◌↔◌, ◌⊎◌, inl,
  arith, length, any, all→All, All→all, nat_eq, leb, leb_iff, All, All-map, if◌then◌else◌,
}
use zfw_dark.Common.Int.{Within}
use zfw_dark.Common.Result.{ok, err, ◌>>◌, wrap_error, require-ok}
use zfw_dark.Common.Text.{Text, Std, Family, v4, lit, ◌==◌, ==_iff, is_empty}
use zfw_dark.Rules.Checks.{is_id_byte, is_safe_rule_id, is_safe_container_id}
use zfw_dark.Rules.Errors.{
  Error, Check, in_rule, in_schedule, in_rate_limit, v6_drop_port, duplicate_id,
}
use zfw_dark.Rules.Model.{Rule, RuleSet, v6_ports}
use zfw_dark.Rules.Valid.Parts.{
  each-ok, OneOf, ValidPorts, ValidSource, ValidSchedule, ValidRateLimit, is_port-Within,
  is_port-of_Within, validate_ports_iff, validate_source_iff, validate_schedule_iff,
  validate_rate_limit_iff,
}
use zfw_dark.Rules.Validate.{
  is_port, is_v4, validate_ports, validate_source, validate_schedule, validate_rate_limit,
  validate_optional, validate_rule, validate_rules, validate,
}

-- At most 16 bytes of letters, digits, `-` and `_`; it may be empty.
abbrev pub SafeId : Text → Type 0
SafeId s = (length s ≤ 16) × All (λ c. is_id_byte c ≡ true) s

pub is_safe_rule_id_iff : (s : Text) → (is_safe_rule_id s ≡ true) ↔ SafeId s
unfolding is_safe_rule_id
is_safe_rule_id_iff [] = ground arith
is_safe_rule_id_iff (c ∷ s) = (
  λ h. (ground arith, all→All is_id_byte (c ∷ s) (ground arith)),
  λ (few, bytes). ground (arith, All→all is_id_byte (c ∷ s) bytes),
)

-- At most 64 bytes of letters, digits, `-`, `_` and `.`.
abbrev pub SafeContainerId : Text → Type 0
SafeContainerId s = (length s ≤ 64) × All (λ c. (is_id_byte c || nat_eq c b'.') ≡ true) s

is_safe_container_id_iff : (s : Text) → (is_safe_container_id s ≡ true) ↔ SafeContainerId s
unfolding is_safe_container_id
is_safe_container_id_iff s =
    let test = λ (c : ℕ). is_id_byte c || nat_eq c b'.' in
    (
      λ h. (ground arith, all→All test s (ground arith)),
      λ (few, bytes). ground (arith, All→all test s bytes),
    )

abbrev pub ForSome {ℓ} : {A : Type ℓ} → (A → Type 0) → Option A → Type 0
ForSome P none = Unit
ForSome P (some x) = P x

pub record ValidRule (std : Std) (r : Rule) : Type 0 where
  pub id : SafeId r.id
  pub container_id : (r.container_id ≡ []) ⊎ SafeContainerId r.container_id
  pub name : r.name ≢ []
  pub action : OneOf r.action (lit "allow" ∷ lit "deny" ∷ [])
  pub notes : length r.notes ≤ 256
  pub source : ValidSource std r.source
  pub ports : ValidPorts r.ports
  pub protocol : OneOf r.protocol (lit "tcp" ∷ lit "udp" ∷ lit "both" ∷ [])
  pub zone : OneOf r.zone (lit "auto" ∷ lit "host" ∷ lit "docker" ∷ [])
  pub schedule : ForSome (ValidSchedule std) r.schedule
  pub rate_limit : ForSome ValidRateLimit r.rate_limit
  pub direction : (r.direction ≡ []) ⊎ OneOf r.direction (lit "inbound" ∷ lit "outbound" ∷ [])

-- The tests of `validateRule`, all passed.
abbrev Passed : Std → Rule → Type 0
Passed std r =
    (is_safe_rule_id r.id ≡ true)
    × ((is_empty r.container_id || is_safe_container_id r.container_id) ≡ true)
    × (not (is_empty r.name) ≡ true)
    × ((r.action == lit "allow" || r.action == lit "deny") ≡ true)
    × (leb (length r.notes) 256 ≡ true)
    × (validate_source std r.source ≡ ok tt)
    × (validate_ports r.ports ≡ ok tt)
    × ((r.protocol == lit "tcp" || r.protocol == lit "udp" || r.protocol == lit "both") ≡ true)
    × ((r.zone == lit "auto" || r.zone == lit "host" || r.zone == lit "docker") ≡ true)
    × (validate_optional (validate_schedule std) in_schedule r.schedule ≡ ok tt)
    × (validate_optional validate_rate_limit in_rate_limit r.rate_limit ≡ ok tt)
    × ((is_empty r.direction || r.direction == lit "inbound" || r.direction == lit "outbound")
        ≡ true)

module _ (std : Std) (r : Rule) where
  validate_rule-Passed : validate_rule std r ≡ ok tt → Passed std r
  unfolding validate_rule
  validate_rule-Passed h = ground arith

  Passed-validate_rule : Passed std r → validate_rule std r ≡ ok tt
  unfolding validate_rule
  Passed-validate_rule p = ground arith

OneOf-two : (t x y : Text) → ((t == x || t == y) ≡ true) ↔ OneOf t (x ∷ y ∷ [])
OneOf-two t x y = ground (arith, ==_iff t x, ==_iff t y)

OneOf-three : (t x y z : Text) → ((t == x || t == y || t == z) ≡ true) ↔ OneOf t (x ∷ y ∷ z ∷ [])
OneOf-three t x y z = ground (arith, ==_iff t x, ==_iff t y, ==_iff t z)

empty_or {κ} :
    {P : Type κ} (t : Text) (b : Bool)
    → (b ≡ true) ↔ P
    → ((is_empty t || b) ≡ true) ↔ ((t ≡ []) ⊎ P)
empty_or [] b p = (λ _. inl refl, λ _. refl)
empty_or (c ∷ t) b p = ground arith

nonempty_iff : (t : Text) → (not (is_empty t) ≡ true) ↔ (t ≢ [])
nonempty_iff [] = ground arith
nonempty_iff (c ∷ t) = ground arith

module _ {A : Type 0} {P : A → Type 0} (check : A → Check) (f : Error → Error) where
  optional_iff :
      ((x : A) → (check x ≡ ok tt) ↔ P x)
      → (o : Option A) → (validate_optional check f o ≡ ok tt) ↔ ForSome P o
  optional_iff each_iff none = (λ _. tt, λ _. refl)
  optional_iff each_iff (some x) =
      (λ h. (each_iff x).0 (ground arith), λ p. ground (arith, (each_iff x).1 p))

direction_iff :
    (d : Text)
    → ((is_empty d || d == lit "inbound" || d == lit "outbound") ≡ true)
      ↔ ((d ≡ []) ⊎ OneOf d (lit "inbound" ∷ lit "outbound" ∷ []))
direction_iff [] = (λ _. inl refl, λ _. refl)
direction_iff (c ∷ d) =
    ground (arith, ==_iff (c ∷ d) (lit "inbound"), ==_iff (c ∷ d) (lit "outbound"))

module _ (std : Std) (r : Rule) where
  validate_rule-valid : validate_rule std r ≡ ok tt → ValidRule std r
  validate_rule-valid h =
      let (id, container, name, action, notes, source, ports, proto, zone, sched, rate, dir) =
        validate_rule-Passed std r h in
      record {
        id = (is_safe_rule_id_iff r.id).0 id;
        container_id = (empty_or _ _ (is_safe_container_id_iff r.container_id)).0 container;
        name = (nonempty_iff r.name).0 name;
        action = (OneOf-two _ _ _).0 action;
        notes = (leb_iff _ _).0 notes;
        source = (validate_source_iff std r.source).0 source;
        ports = (validate_ports_iff r.ports).0 ports;
        protocol = (OneOf-three _ _ _ _).0 proto;
        zone = (OneOf-three _ _ _ _).0 zone;
        schedule = (optional_iff _ _ (validate_schedule_iff std) r.schedule).0 sched;
        rate_limit = (optional_iff _ _ validate_rate_limit_iff r.rate_limit).0 rate;
        direction = (direction_iff r.direction).0 dir;
      }

  valid-validate_rule : ValidRule std r → validate_rule std r ≡ ok tt
  valid-validate_rule v = Passed-validate_rule std r (
    (is_safe_rule_id_iff r.id).1 v.id,
    (empty_or _ _ (is_safe_container_id_iff r.container_id)).1 v.container_id,
    (nonempty_iff r.name).1 v.name,
    (OneOf-two _ _ _).1 v.action,
    (leb_iff _ _).1 v.notes,
    (validate_source_iff std r.source).1 v.source,
    (validate_ports_iff r.ports).1 v.ports,
    (OneOf-three _ _ _ _).1 v.protocol,
    (OneOf-three _ _ _ _).1 v.zone,
    (optional_iff _ _ (validate_schedule_iff std) r.schedule).1 v.schedule,
    (optional_iff _ _ validate_rate_limit_iff r.rate_limit).1 v.rate_limit,
    (direction_iff r.direction).1 v.direction,
  )

-- `validateRule` accepts exactly the valid rules.
pub validate_rule_iff : (std : Std) (r : Rule) → (validate_rule std r ≡ ok tt) ↔ ValidRule std r
validate_rule_iff std r = (validate_rule-valid std r, valid-validate_rule std r)

-- The ids of a list of rules, without the empty ones.
abbrev pub ids : List Rule → List Text
ids [] = []
ids (r ∷ rs) = if is_empty r.id then ids rs else r.id ∷ ids rs

-- No id of the second list stands twice in it, or in the first list.
abbrev pub Fresh : List Text → List Text → Type 0
Fresh seen [] = Unit
Fresh seen (i ∷ is) = ¬ OneOf i seen × Fresh (i ∷ seen) is

pub record ValidRuleSet (std : Std) (rs : RuleSet) : Type 0 where
  pub policy : OneOf rs.default_policy (lit "deny" ∷ lit "allow" ∷ [])
  pub rule_count : length rs.rules ≤ 256
  pub v6_count : length (v6_ports rs) ≤ 128
  pub lan : (rs.lan ≡ []) ⊎ (std.parse_cidr rs.lan ≡ some v4)
  pub host_ip : (rs.host_ip ≡ []) ⊎ (std.parse_ip rs.host_ip ≡ some v4)
  pub v6_ports_valid : All (Within 1 65535) (v6_ports rs)
  pub rules : All (ValidRule std) rs.rules
  pub distinct : Fresh [] (ids rs.rules)

is_v4_iff : (o : Option Family) → (is_v4 o ≡ true) ↔ (o ≡ some v4)
is_v4_iff o = ground arith

seen_iff : (i : Text) (seen : List Text) → (not (any (λ s. s == i) seen) ≡ true) ↔ (¬ OneOf i seen)
seen_iff i [] = (λ _ x. x, λ _. refl)
seen_iff i (s ∷ seen) = ground (arith, ==_iff s i, seen_iff i seen)

Fresh-step :
    (i : Text) (seen is : List Text)
    → (((is_empty i || not (any (λ s. s == i) seen)) ≡ true)
        × Fresh (if is_empty i then seen else i ∷ seen) is)
      ↔ Fresh seen (if is_empty i then is else i ∷ is)
Fresh-step [] seen is = (λ h. h.1, λ h. (refl, h))
Fresh-step (c ∷ i) seen is =
    let known = seen_iff (c ∷ i) seen in (λ (n, h). (known.0 n, h), λ (n, h). (known.1 n, h))

wrap_ok :
    (f : Error → Error) (m k : Check)
    → ((wrap_error f m >> k) ≡ ok tt) ↔ ((m ≡ ok tt) × (k ≡ ok tt))
wrap_ok f (ok tt) k = (λ h. (refl, h), λ h. h.1)
wrap_ok f (err e) k = ground arith

module _ (std : Std) where
  validate_rules_iff :
      (seen : List Text) (rs : List Rule)
      → (validate_rules std seen rs ≡ ok tt) ↔ (All (ValidRule std) rs × Fresh seen (ids rs))
  unfolding validate_rules
  validate_rules_iff seen [] = (λ _. (tt, tt), λ _. refl)
  validate_rules_iff seen (r ∷ rs) =
      let later = validate_rules_iff (if is_empty r.id then seen else r.id ∷ seen) rs in
      let first = wrap_ok (in_rule r.name) (validate_rule std r) _ in
      let next = require-ok _ (in_rule r.name (duplicate_id r.id)) _ in
      let id = Fresh-step r.id seen (ids rs) in
      (
        λ h.
            let (valid, more) = first.0 h in
            let (new, rest) = next.0 more in
            let (all_valid, fresh) = later.0 rest in
            (((validate_rule_iff std r).0 valid, all_valid), id.0 (new, fresh)),
        λ ((valid, all_valid), fresh).
            let (new, rest) = id.1 fresh in
            first.1 ((validate_rule_iff std r).1 valid, next.1 (new, later.1 (all_valid, rest))),
      )

  validate-valid : (rs : RuleSet) → validate std rs ≡ ok tt → ValidRuleSet std rs
  unfolding validate
  validate-valid rs h =
      let ports = each-ok is_port v6_drop_port (v6_ports rs) in
      record {
        policy = (OneOf-two _ _ _).0 (ground arith);
        rule_count = ground arith;
        v6_count = ground arith;
        lan = (empty_or _ _ (is_v4_iff (std.parse_cidr rs.lan))).0 (ground arith);
        host_ip = (empty_or _ _ (is_v4_iff (std.parse_ip rs.host_ip))).0 (ground arith);
        v6_ports_valid = All-map is_port-Within (v6_ports rs) (ports.0 (ground arith));
        rules = ((validate_rules_iff [] rs.rules).0 (ground arith)).0;
        distinct = ((validate_rules_iff [] rs.rules).0 (ground arith)).1;
      }

  valid-validate : (rs : RuleSet) → ValidRuleSet std rs → validate std rs ≡ ok tt
  unfolding validate
  valid-validate rs v = ground (
    arith,
    (OneOf-two rs.default_policy (lit "deny") (lit "allow")).1 v.policy,
    (leb_iff (length rs.rules) 256).1 v.rule_count,
    (leb_iff (length (v6_ports rs)) 128).1 v.v6_count,
    (empty_or _ _ (is_v4_iff (std.parse_cidr rs.lan))).1 v.lan,
    (empty_or _ _ (is_v4_iff (std.parse_ip rs.host_ip))).1 v.host_ip,
    (each-ok is_port v6_drop_port (v6_ports rs)).1
        (All-map is_port-of_Within (v6_ports rs) v.v6_ports_valid),
    (validate_rules_iff [] rs.rules).1 (v.rules, v.distinct),
  )

  -- `Validate` accepts exactly the valid rule sets: the declared policy, the caps, IPv4 for the
  -- network and the host, every rule valid, and no two rules with one id.
  pub validate_iff : (rs : RuleSet) → (validate std rs ≡ ok tt) ↔ ValidRuleSet std rs
  validate_iff rs = (validate-valid rs, valid-validate rs)
