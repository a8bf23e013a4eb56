-- ===== src/Rules/Starter.antt =====
-- The first rule set of a system: `Defaults` of internal/rules/rules.go, from what runs on it, and
-- `FromTiers` of internal/rules/migrate.go, from the older allowlist.conf.
pub mod Kept
pub mod Accepted
use zfw_dark.Common.{
  ℕ, suc, ◌+◌, ◌-◌, ◌*◌, ◌%◌, ◌^◌, Bool, true, false, not, List, [], ◌∷◌, ◌++◌, Option, none, some,
}
use zfw_dark.Common.{any, ltb, if◌then◌else◌}
use zfw_dark.Common.Int.{ℤ, pos, negsuc, ltb_ℤ, eq_ℤ}
use zfw_dark.Common.Text.{Text, lit, is_empty, is_digit, itoa}
use zfw_dark.Firewall.{TierConfig}
use zfw_dark.Rules.Model.{Source, Ports, Rule, RuleSet}
use zfw_dark.Rules.Store.{new_id}

-- `n = n*10 + int(c-'0')` on 64 bits, for as long as the bytes are digits.
unfoldable pub wrapped_digits : ℕ → Text → Option ℕ
wrapped_digits n [] = some n
wrapped_digits n (c ∷ s) =
    let rest = wrapped_digits ((n * 10 + (c - b'0')) % 2 ^ 64) s in
    if is_digit c then rest else none

-- The `int` of 64 bits.
abbrev pub signed : ℕ → ℤ
signed n = if ltb n (2 ^ 63) then pos n else negsuc (2 ^ 64 - 1 - n)

unfoldable pub keep_number : Option ℕ → List ℤ → List ℤ
keep_number none rest = rest
keep_number (some n) rest = signed n ∷ rest

unfoldable pub atoi_list : List Text → List ℤ
unfolding wrapped_digits keep_number
atoi_list [] = []
atoi_list (s ∷ ss) =
    let rest = atoi_list ss in if is_empty s then rest else keep_number (wrapped_digits 0 s) rest

-- A slice that was only appended to: nil if it is empty.
abbrev pub appended : List ℤ → Option (List ℤ)
appended [] = none
appended (p ∷ ps) = some (p ∷ ps)

-- The rules so far, the order of the next one, and how many ids are drawn.
pub record Draft : Type 0 where
  pub rules : List Rule
  pub order : ℕ
  pub drawn : ℕ

-- The rules that both functions write: "allow" on a list of ports.
unfoldable pub allow_rule : Text → ℕ → Text → Source → Text → Text → List ℤ → Rule
allow_rule id order name source protocol zone ports = record {
  id = id;
  order = pos order;
  enabled = true;
  name = name;
  action = lit "allow";
  source = source;
  ports = record { type = lit "list"; list = ports; from = pos 0; to = pos 0 };
  protocol = protocol;
  zone = zone;
  notes = [];
  schedule = none;
  log = false;
  rate_limit = none;
  direction = [];
  container_id = [];
}

unfoldable pub not_dropped : List ℤ → List ℤ → List ℤ
not_dropped drop [] = []
not_dropped drop (p ∷ ps) =
    let rest = not_dropped drop ps in if any (eq_ℤ p) drop then rest else p ∷ rest

-- `sort.Ints`.
unfoldable pub insert_int : ℤ → List ℤ → List ℤ
insert_int p [] = p ∷ []
insert_int p (q ∷ qs) = let rest = insert_int p qs in if ltb_ℤ q p then q ∷ rest else p ∷ q ∷ qs

unfoldable pub sort_ints : List ℤ → List ℤ
sort_ints [] = []
sort_ints (p ∷ ps) = insert_int p (sort_ints ps)

-- `any`, or the LAN if there is one.
abbrev tier_source : Text → Source
tier_source [] = record { type = lit "any"; value = [] }
tier_source (c ∷ lan) = record { type = lit "range"; value = c ∷ lan }

module _ (random : ℕ → Option Text) where
  -- The closure `add` of `FromTiers`.
  unfoldable pub add_rule : Source → Text → Text → Text → List ℤ → Draft → Draft
  add_rule source name protocol zone [] d = d
  add_rule source name protocol zone (p ∷ ps) d = record {
    rules =
        d.rules
        ++ allow_rule (new_id (random d.drawn)) d.order name source protocol zone (p ∷ ps) ∷ [];
    order = d.order + 10;
    drawn = suc d.drawn;
  }

  unfoldable pub from_tiers : TierConfig → List ℤ → RuleSet
  from_tiers cfg docker_listening =
      let source = tier_source cfg.lan in
      let docker_allow = not_dropped (atoi_list cfg.docker_drop_lan) docker_listening in
      let start : Draft = record { rules = []; order = 10; drawn = 0 } in
      let tcp =
        add_rule source (lit "Host TCP ports (migrated)") (lit "tcp") (lit "host")
          (atoi_list cfg.host_tcp_lan) start in
      let udp =
        add_rule source (lit "Host UDP ports (migrated)") (lit "udp") (lit "host")
          (atoi_list cfg.host_udp_lan) tcp in
      let all_added =
        add_rule source (lit "Docker apps (migrated)") (lit "tcp") (lit "docker") docker_allow
          udp in
      record {
        version = pos 0;
        lan = cfg.lan;
        host_ip = cfg.host_ip;
        default_policy = lit "deny";
        v6_drop = appended (atoi_list cfg.v6_drop);
        rules = all_added.rules;
      }

  -- The rules of `Defaults` for the published ports, from order 60 and the sixth id on.
  unfoldable pub app_rules : Source → ℕ → ℕ → List ℤ → List Rule
  app_rules source order drawn [] = []
  app_rules source order drawn (p ∷ ps) =
      allow_rule (new_id (random drawn)) order (lit "Docker app on :" ++ itoa p) source (lit "tcp")
        (lit "docker") (p ∷ [])
      ∷ app_rules source (order + 10) (suc drawn) ps

  -- `docker_ports` are the keys of the map, in any order.
  unfoldable pub defaults : Text → Text → List ℤ → RuleSet
  unfolding app_rules
  defaults lan host_ip docker_ports =
      let source : Source = record { type = lit "range"; value = lan } in
      let host : ℕ → Text → Text → List ℤ → Rule = λ n name protocol ports.
        allow_rule (new_id (random n)) (suc n * 10) name source protocol (lit "host") ports in
      record {
        version = pos 0;
        lan = lan;
        host_ip = host_ip;
        default_policy = lit "deny";
        v6_drop = none;
        rules =
            host 0 (lit "ZimaOS Web UI") (lit "tcp") (pos 80 ∷ pos 443 ∷ [])
            ∷ host 1 (lit "SSH (admin)") (lit "tcp") (pos 22 ∷ [])
            ∷ host 2 (lit "Samba file sharing (TCP)") (lit "tcp") (pos 139 ∷ pos 445 ∷ [])
            ∷ host 3 (lit "Samba file sharing (UDP)") (lit "udp") (pos 137 ∷ pos 138 ∷ [])
            ∷ host 4 (lit "mDNS discovery") (lit "udp") (pos 5353 ∷ [])
            ∷ app_rules source 60 5 (sort_ints docker_ports);
      }
