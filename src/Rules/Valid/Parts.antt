-- ===== src/Rules/Valid/Parts.antt =====
-- What `validatePorts`, `validateRateLimit`, `validateSource` and `validateSchedule` of
-- internal/rules/rules.go accept.
use zfw_dark.Common.{
  ℕ, ◌+◌, ◌-◌, ◌*◌, ◌≤◌, ◌<◌, Bool, true, ◌&&◌, List, [], ◌∷◌, some, ◌≡◌, refl, ◌≢◌, ◌↔◌, ◌⊎◌, inl,
  inr, arith, length, any, nat_eq, nat_eq_iff, leb_iff, and-parts, All, All-map, Bool-cases,
  Option-cases,
}
use zfw_dark.Common.Int.{ℤ, Within, ◌≤ℤ◌}
use zfw_dark.Common.Result.{ok, require-ok}
use zfw_dark.Common.Text.{Text, Std, Family, lit, ◌==◌, ==_iff, is_letter, is_digit, to_lower, atoi}
use zfw_dark.Rules.Checks.{split_countries, is_alpha, is_hhmm, clock_part}
use zfw_dark.Rules.Errors.{Error, invalid_port, bad_country, bad_day}
use zfw_dark.Rules.Model.{Source, Ports, RateLimit, Schedule}
use zfw_dark.Rules.Validate.{
  each, is_port, is_day, schedule_days, validate_ports, validate_rate_limit, validate_source,
  validate_schedule,
}

pub each-ok {ℓ} :
    {A : Type ℓ} (test : A → Bool) (fail : A → Error) (xs : List A)
    → (each test fail xs ≡ ok tt) ↔ All (λ x. test x ≡ true) xs
unfolding each
each-ok test fail [] = (λ _. tt, λ _. refl)
each-ok test fail (x ∷ xs) =
    let (to, from) = require-ok (test x) (fail x) (each test fail xs) in
    let (gives, needs) = each-ok test fail xs in
    (λ h. ((to h).0, gives (to h).1), λ (e, h). from (e, needs h))

-- The three kinds of port selectors.
pub data ValidPorts (p : Ports) : Type 0 where
  every : p.type ≡ lit "all" → ValidPorts p
  listed :
      p.type ≡ lit "list"
      → p.list ≢ []
      → length p.list ≤ 128
      → All (Within 1 65535) p.list
      → ValidPorts p
  spanned :
      p.type ≡ lit "range"
      → Within 1 65535 p.from
      → Within 1 65535 p.to
      → p.from ≤ℤ p.to
      → ValidPorts p

pub is_port-Within : (p : ℤ) → is_port p ≡ true → Within 1 65535 p
is_port-Within p h = ground arith

pub is_port-of_Within : (p : ℤ) → Within 1 65535 p → is_port p ≡ true
is_port-of_Within p h = ground arith

validate_ports-valid : (p : Ports) → validate_ports p ≡ ok tt → ValidPorts p
unfolding validate_ports
validate_ports-valid p h = elim (Bool-cases (p.type == lit "all")) [
  | inl e ↦ every ((==_iff _ _).0 e)
  | inr n ↦ elim (Bool-cases (p.type == lit "list")) [
    | inl e ↦
        listed ((==_iff _ _).0 e) (ground arith) (ground arith)
          (All-map is_port-Within p.list ((each-ok is_port invalid_port p.list).0 (ground arith)))
    | inr m ↦
        spanned (ground (arith, ==_iff p.type (lit "range"))) (ground arith) (ground arith)
          (ground arith)
  ]
]

validate_ports-ok : (p : Ports) → ValidPorts p → validate_ports p ≡ ok tt
unfolding validate_ports lit ◌==◌
validate_ports-ok p (every e) = rw e
validate_ports-ok p (listed e ne few ports) = rw e (
    ground
      (arith, (each-ok is_port invalid_port p.list).1 (All-map is_port-of_Within p.list ports)))
validate_ports-ok p (spanned e from to le) = rw e (ground arith)

-- `validatePorts` accepts exactly the valid selectors.
pub validate_ports_iff : (p : Ports) → (validate_ports p ≡ ok tt) ↔ ValidPorts p
validate_ports_iff p = (validate_ports-valid p, validate_ports-ok p)

-- 1..1000 connections in 1..3600 seconds.
pub record ValidRateLimit (rl : RateLimit) : Type 0 where
  pub conn : Within 1 1000 rl.conn
  pub seconds : Within 1 3600 rl.seconds

pub validate_rate_limit_iff :
    (rl : RateLimit) → (validate_rate_limit rl ≡ ok tt) ↔ ValidRateLimit rl
unfolding validate_rate_limit
validate_rate_limit_iff rl = (λ h. ground arith, λ v. ground arith)

-- A two-byte field of a clock time: two digits up to `most`, or what `strconv.Atoi` takes besides,
-- a plus sign and a digit, or "-0".
pub data ClockField (most a b : ℕ) : Type 0 where
  digits :
      is_digit a ≡ true
      → is_digit b ≡ true
      → (a - b'0') * 10 + (b - b'0') ≤ most
      → ClockField most a b
  plus : a ≡ b'+' → is_digit b ≡ true → b - b'0' ≤ most → ClockField most a b
  minus_zero : a ≡ b'-' → b ≡ b'0' → ClockField most a b

abbrev pub ClockTime : Text → Type 0
ClockTime (a ∷ b ∷ c ∷ d ∷ e ∷ []) = (c ≡ b':') × ClockField 23 a b × ClockField 59 d e
ClockTime _ = ⊥

clock_part-field : (most a b : ℕ) → clock_part most (atoi (a ∷ b ∷ [])) ≡ true → ClockField most a b
unfolding atoi
clock_part-field most a b h = elim (Bool-cases (nat_eq a b'-')) [
  | inl m ↦ minus_zero (ground arith) (ground arith)
  | inr n ↦ elim (Bool-cases (nat_eq a b'+')) [
    | inl p ↦ plus (ground arith) (ground arith) (ground arith)
    | inr q ↦ digits (ground arith) (ground arith) (ground arith)
  ]
]

field-clock_part :
    (most a b : ℕ) → most < 100 → ClockField most a b → clock_part most (atoi (a ∷ b ∷ [])) ≡ true
unfolding atoi
field-clock_part most a b small (digits p q le) = ground arith
field-clock_part most a b small (plus p q le) = ground arith
field-clock_part most a b small (minus_zero p q) = ground arith

-- `isHHMM` accepts exactly five bytes with a colon in the middle and two fields up to 23 and 59,
-- each two digits, a plus sign and a digit, or "-0".
pub is_hhmm_iff : (s : Text) → (is_hhmm s ≡ true) ↔ ClockTime s
unfolding is_hhmm
is_hhmm_iff (a ∷ b ∷ c ∷ d ∷ e ∷ []) = (
  λ h.
      let (hc, he) = and-parts _ _ h in
      let (colon, hours) = and-parts _ _ hc in
      ((nat_eq_iff c b':').0 colon, clock_part-field 23 a b hours, clock_part-field 59 d e he),
  λ (colon, hours, minutes). ground (
    arith,
    field-clock_part 23 a b (omega arith) hours,
    field-clock_part 59 d e (omega arith) minutes,
  ),
)
is_hhmm_iff _ = (λ h. cc, λ h. absurd h)

-- The text is in the list.
abbrev pub OneOf : Text → List Text → Type 0
OneOf t [] = ⊥
OneOf t (x ∷ xs) = (t ≡ x) ⊎ OneOf t xs

pub any_iff_OneOf : (t : Text) (xs : List Text) → (any (λ x. t == x) xs ≡ true) ↔ OneOf t xs
any_iff_OneOf t [] = (λ h. cc, λ h. absurd h)
any_iff_OneOf t (x ∷ xs) = ground (arith, ==_iff t x, any_iff_OneOf t xs)

abbrev pub CountryCode : Text → Type 0
CountryCode c = (length c ≡ 2) × All (λ b. is_letter b ≡ true) c

is_alpha-CountryCode : (c : Text) → ((nat_eq (length c) 2 && is_alpha c) ≡ true) ↔ CountryCode c
unfolding is_alpha
is_alpha-CountryCode (a ∷ b ∷ []) = ground arith
is_alpha-CountryCode _ = ground arith

module _ (std : Std) where
  -- The four kinds of source selectors.
  pub data ValidSource (s : Source) : Type 0 where
    anywhere : s.type ≡ lit "any" → ValidSource s
    address : {f : Family} → s.type ≡ lit "ip" → std.parse_ip s.value ≡ some f → ValidSource s
    network : {f : Family} → s.type ≡ lit "range" → std.parse_cidr s.value ≡ some f → ValidSource s
    countries :
        s.type ≡ lit "country"
        → split_countries s.value ≢ []
        → length (split_countries s.value) ≤ 32
        → All CountryCode (split_countries s.value)
        → ValidSource s

  pub record ValidSchedule (s : Schedule) : Type 0 where
    pub from : ClockTime s.from
    pub to : ClockTime s.to
    pub few : length s.days ≤ 7
    pub days : All (λ d. OneOf (to_lower std d) schedule_days) s.days

  validate_source-valid : (s : Source) → validate_source std s ≡ ok tt → ValidSource s
  unfolding validate_source
  validate_source-valid s h = elim (Bool-cases (s.type == lit "any")) [
    | inl e ↦ anywhere ((==_iff _ _).0 e)
    | inr n ↦ elim (Bool-cases (s.type == lit "ip")) [
      | inl e ↦ elim (Option-cases (std.parse_ip s.value)) [
        | inl bad ↦ ground arith
        | inr (f, parsed) ↦ address ((==_iff _ _).0 e) parsed
      ]
      | inr m ↦ elim (Bool-cases (s.type == lit "range")) [
        | inl e ↦ elim (Option-cases (std.parse_cidr s.value)) [
          | inl bad ↦ ground arith
          | inr (f, parsed) ↦ network ((==_iff _ _).0 e) parsed
        ]
        | inr k ↦
            countries (ground (arith, ==_iff s.type (lit "country"))) (ground arith) (ground arith)
              (All-map (λ c. (is_alpha-CountryCode c).0) (split_countries s.value)
                ((each-ok (λ c. nat_eq (length c) 2 && is_alpha c) bad_country
                    (split_countries s.value)).0
                  (ground arith)))
      ]
    ]
  ]

  validate_source-ok : (s : Source) → ValidSource s → validate_source std s ≡ ok tt
  unfolding validate_source lit ◌==◌
  validate_source-ok s (anywhere e) = rw e
  validate_source-ok s (address e p) = rw (e, p)
  validate_source-ok s (network e p) = rw (e, p)
  validate_source-ok s (countries e ne few codes) = rw e (
      ground (
        arith,
        (each-ok (λ c. nat_eq (length c) 2 && is_alpha c) bad_country (split_countries s.value)).1
            (All-map (λ c. (is_alpha-CountryCode c).1) (split_countries s.value) codes),
      ))

  -- `validateSource` accepts exactly the valid sources.
  pub validate_source_iff : (s : Source) → (validate_source std s ≡ ok tt) ↔ ValidSource s
  validate_source_iff s = (validate_source-valid s, validate_source-ok s)

  day_iff : (d : Text) → (is_day (to_lower std d) ≡ true) ↔ OneOf (to_lower std d) schedule_days
  unfolding is_day
  day_iff d = any_iff_OneOf (to_lower std d) schedule_days

  -- `validateSchedule` accepts exactly two clock times with at most seven names of weekdays.
  pub validate_schedule_iff : (s : Schedule) → (validate_schedule std s ≡ ok tt) ↔ ValidSchedule s
  unfolding validate_schedule
  validate_schedule_iff s =
      let days = each-ok (λ d. is_day (to_lower std d)) bad_day s.days in
      (
        λ h. record {
          from = (is_hhmm_iff s.from).0 (ground arith);
          to = (is_hhmm_iff s.to).0 (ground arith);
          few = ground arith;
          days = All-map (λ d. (day_iff d).0) s.days (days.0 (ground arith));
        },
        λ v. ground (
          arith,
          (is_hhmm_iff s.from).1 v.from,
          (is_hhmm_iff s.to).1 v.to,
          (leb_iff (length s.days) 7).1 v.few,
          days.1 (All-map (λ d. (day_iff d).1) s.days v.days),
        ),
      )
