-- ===== src/Compiler/Args.antt =====
-- The fragments of an iptables line: internal/compiler/compiler.go, `joinArgs` to `scheduleArg`.
pub mod Multiport
use zfw_dark.Common.{
  ℕ, zero, suc, Bool, true, false, not, List, [], ◌∷◌, ◌++◌, map, Option, none, some,
}
use zfw_dark.Common.{cat, length, take, drop, nat_eq, if◌then◌else◌}
use zfw_dark.Common.Int.{ℤ, pos, eq_ℤ, ltb_ℤ}
use zfw_dark.Common.Text.{
  Text, Std, lit, ◌==◌, is_empty, join, itoa, quote, to_lower, contains_byte,
}
use zfw_dark.Config.{set_name}
use zfw_dark.Rules.Checks.{split_countries}
use zfw_dark.Rules.Model.{Source, RateLimit, Schedule, Rule}

unfoldable pub nonempty_parts : List Text → List Text
nonempty_parts [] = []
nonempty_parts (p ∷ ps) = let rest = nonempty_parts ps in if is_empty p then rest else p ∷ rest

unfoldable pub join_args : List Text → Text
unfolding nonempty_parts
join_args parts = join (lit " ") (nonempty_parts parts)

abbrev pub max_multiport_ports : ℕ
max_multiport_ports = 15

-- The fragment for one chunk of at most 15 ports.
unfoldable pub chunk_arg : List ℤ → Text
chunk_arg (p ∷ []) = lit "--dport " ++ itoa p
chunk_arg ps = lit "-m multiport --dports " ++ join (lit ",") (map itoa ps)

-- The loop of `multiport` over what is left of the ports; `end` stops at their number.
unfoldable pub multiport_from : ℕ → List ℤ → List Text
multiport_from zero ports = []
multiport_from (suc fuel) [] = []
multiport_from (suc fuel) (p ∷ ports) =
    chunk_arg (take max_multiport_ports (p ∷ ports))
    ∷ multiport_from fuel (drop max_multiport_ports (p ∷ ports))

-- Each round takes a port at least, so that their number is fuel enough.
unfoldable pub multiport : List ℤ → List Text
unfolding multiport_from chunk_arg
multiport ports = multiport_from (length ports) ports

-- `portSpec`.
pub record PortSpec : Type 0 where
  pub all : Bool
  pub list : List ℤ
  pub from : ℤ
  pub to : ℤ

abbrev pub is_range : PortSpec → Bool
is_range ps = not (eq_ℤ ps.from (pos 0))

-- `fmt.Sprintf("%d:%d", from, to)`.
unfoldable pub span : ℤ → ℤ → Text
span from to = cat (itoa from ∷ lit ":" ∷ itoa to ∷ [])

unfoldable pub port_args : PortSpec → List Text
unfolding multiport span
port_args ps =
    if is_range ps then (lit "--dport " ++ span ps.from ps.to) ∷ [] else multiport ps.list

unfoldable pub proto_list : Text → List Text
proto_list p = if p == lit "both" then lit "tcp" ∷ lit "udp" ∷ [] else p ∷ []

unfoldable pub is_ipv6_source : Source → Bool
is_ipv6_source s =
    if s.type == lit "ip"
    then contains_byte b':' s.value
    else if s.type == lit "range"
    then contains_byte b':' s.value
    else false

-- `source6Arg`; `none` is the result "skip".
unfoldable pub source6_arg : Source → Option Text
source6_arg s =
    if s.type == lit "any"
    then some []
    else if (if s.type == lit "ip" then true else s.type == lit "range")
    then (if contains_byte b':' s.value then some (lit "-s " ++ s.value) else none)
    else none

-- `scheduleDayMap[day]`, "" for a day that is not in the map.
unfoldable pub day_name : Text → Text
day_name d =
    if d == lit "mon"
    then lit "Mon"
    else if d == lit "tue"
    then lit "Tue"
    else if d == lit "wed"
    then lit "Wed"
    else if d == lit "thu"
    then lit "Thu"
    else if d == lit "fri"
    then lit "Fri"
    else if d == lit "sat"
    then lit "Sat"
    else if d == lit "sun"
    then lit "Sun"
    else []

-- The lines of a rate limit in front of the action: none unless both numbers are positive.
unfoldable pub rate_lines : Text → Text → Option RateLimit → List Text
rate_lines match id none = []
rate_lines match id (some rl) =
    let name = lit "z" ++ id in
    if (if ltb_ℤ (pos 0) rl.conn then ltb_ℤ (pos 0) rl.seconds else false)
    then join_args (match ∷ lit "-m" ∷ lit "recent" ∷ lit "--set" ∷ lit "--name" ∷ name ∷ [])
      ∷ join_args (
          match
          ∷ lit "-m"
          ∷ lit "recent"
          ∷ lit "--update"
          ∷ lit "--seconds"
          ∷ itoa rl.seconds
          ∷ lit "--hitcount"
          ∷ itoa rl.conn
          ∷ lit "--name"
          ∷ name
          ∷ lit "-j"
          ∷ lit "DROP"
          ∷ [])
      ∷ []
    else []

module _ (std : Std) where
  -- One fragment for each country, and one that matches all if there is none.
  unfoldable pub country_args : List Text → List Text
  country_args [] = [] ∷ []
  country_args (c ∷ cs) =
      map (λ cc. cat (lit "-m set --match-set " ∷ set_name std cc ∷ lit " src" ∷ [])) (c ∷ cs)

  unfoldable pub source_args : Source → List Text
  unfolding country_args
  source_args s =
      if (if s.type == lit "ip" then true else s.type == lit "range")
      then (lit "-s " ++ s.value) ∷ []
      else if s.type == lit "country"
      then country_args (split_countries s.value)
      else [] ∷ []

  unfoldable pub schedule_arg : Option Schedule → Text
  schedule_arg none = []
  schedule_arg (some s) =
      let out = cat (
        lit "-m time --timestart " ∷ s.from ∷ lit " --timestop " ∷ s.to ∷ lit " --kerneltz" ∷ []) in
      if nat_eq (length s.days) 0
      then out
      else cat (
          out
          ∷ lit " --weekdays "
          ∷ join (lit ",") (map (λ d. day_name (to_lower std d)) s.days)
          ∷ [])

  unfoldable pub log_lines : Text → Text → Bool → List Text
  log_lines match id false = []
  log_lines match id true =
      join_args (
        match
        ∷ lit "-j"
        ∷ lit "LOG"
        ∷ lit "--log-prefix"
        ∷ quote std (cat (lit "ZFW-RULE-" ∷ id ∷ lit " " ∷ []))
        ∷ lit "--log-level"
        ∷ lit "6"
        ∷ [])
      ∷ []

  unfoldable pub wrap_emit : Text → Rule → Text → List Text
  unfolding rate_lines log_lines
  wrap_emit match r target =
      rate_lines match r.id r.rate_limit
      ++ (log_lines match r.id r.log ++ join_args (match ∷ lit "-j" ∷ target ∷ []) ∷ [])
