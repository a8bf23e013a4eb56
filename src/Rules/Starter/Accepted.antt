-- ===== src/Rules/Starter/Accepted.antt =====
-- internal/rules/rules.go: the starter rules of `Defaults` and `Validate`.
use zfw_dark.Common.{
  ℕ, zero, suc, ◌+◌, ◌*◌, ◌≤◌, ◌<◌, true, false, List, [], ◌∷◌, ◌++◌, Option, some, ◌≡◌, ◌≢◌, refl,
  sym, ap, ◌∙◌, inl, inr, ◌⊎◌, arith, All, All-map, length, Bool-cases,
}
use zfw_dark.Common.Int.{ℤ, pos, Within, ltb_ℤ}
use zfw_dark.Common.Result.{ok}
use zfw_dark.Common.Text.{Text, Std, v4, lit, ◌==◌, is_empty, itoa}
use zfw_dark.Rules.Model.{Source, Ports, RuleSet}
use zfw_dark.Rules.Starter.{allow_rule, app_rules, insert_int, sort_ints, defaults}
use zfw_dark.Rules.Store.{new_id, stamp}
use zfw_dark.Rules.Store.Ids.{Drawn, UsableId, new_id-UsableId, fill_ids-named}
use zfw_dark.Rules.Valid.Parts.{
  is_port-of_Within, OneOf, ValidSource, validate_source_iff, validate_ports_iff,
}
use zfw_dark.Rules.Valid.Rule.{
  is_safe_rule_id_iff, ValidRule, ids, Fresh, ValidRuleSet, validate_iff,
}
use zfw_dark.Rules.Checks.{is_safe_rule_id}
use zfw_dark.Rules.Validate.{validate, validate_source, validate_ports, each}

abbrev ArePorts : List ℤ → Type 0
ArePorts ps = All (Within 1 65535) ps

insert_int-ArePorts :
    (p : ℤ) (qs : List ℤ) → Within 1 65535 p → ArePorts qs → ArePorts (insert_int p qs)
unfolding insert_int
insert_int-ArePorts p [] here h = (here, tt)
insert_int-ArePorts p (q ∷ qs) here (first, h) = elim (Bool-cases (ltb_ℤ q p)) [
  | inl e ↦ rw e (first, insert_int-ArePorts p qs here h)
  | inr e ↦ rw e (here, (first, h))
]

sort_ints-ArePorts : (ps : List ℤ) → ArePorts ps → ArePorts (sort_ints ps)
unfolding sort_ints
sort_ints-ArePorts [] h = tt
sort_ints-ArePorts (p ∷ ps) (here, h) =
    insert_int-ArePorts p (sort_ints ps) here (sort_ints-ArePorts ps h)

length-insert_int : (p : ℤ) (qs : List ℤ) → length (insert_int p qs) ≡ suc (length qs)
unfolding insert_int
length-insert_int p [] = refl
length-insert_int p (q ∷ qs) = ground (arith, length-insert_int p qs)

length-sort_ints : (ps : List ℤ) → length (sort_ints ps) ≡ length ps
unfolding sort_ints
length-sort_ints [] = refl
length-sort_ints (p ∷ ps) = length-insert_int p (sort_ints ps) ∙ ap suc (length-sort_ints ps)

length-app_rules :
    (random : ℕ → Option Text) (source : Source) (order drawn : ℕ) (ps : List ℤ)
    → length (app_rules random source order drawn ps) ≡ length ps
unfolding app_rules
length-app_rules random source order drawn [] = refl
length-app_rules random source order drawn (p ∷ ps) =
    ap suc (length-app_rules random source (order + 10) (suc drawn) ps)

listed_ports : List ℤ → Ports
listed_ports ps = record { type = lit "list"; list = ps; from = pos 0; to = pos 0 }

module _ (std : Std) where
  allow-ValidRule :
      (id : Text) (order : ℕ) (name : Text) (source : Source) (protocol zone : Text) (ps : List ℤ)
      → is_safe_rule_id id ≡ true
      → name ≢ []
      → ValidSource std source
      → validate_ports (listed_ports ps) ≡ ok tt
      → (protocol ≡ lit "tcp") ⊎ (protocol ≡ lit "udp")
      → (zone ≡ lit "host") ⊎ (zone ≡ lit "docker")
      → ValidRule std (allow_rule id order name source protocol zone ps)
  unfolding allow_rule listed_ports
  allow-ValidRule id order name source protocol zone ps safe named from to how where_to = record {
    id = (is_safe_rule_id_iff id).0 safe;
    container_id = inl refl;
    name = named;
    action = inl refl;
    notes = omega arith;
    source = from;
    ports = (validate_ports_iff (listed_ports ps)).0 to;
    protocol = elim how [ inl e ↦ inl e | inr e ↦ inr (inl e) ];
    zone = elim where_to [ inl e ↦ inr (inl e) | inr e ↦ inr (inr (inl e)) ];
    schedule = tt;
    rate_limit = tt;
    direction = inl refl;
  }

  one_port-accepted : (p : ℤ) → Within 1 65535 p → validate_ports (listed_ports (p ∷ [])) ≡ ok tt
  unfolding validate_ports listed_ports each lit ◌==◌
  one_port-accepted p h = let e = is_port-of_Within p h in rw e refl

  module _ (random : ℕ → Option Text) (drawn : (n : ℕ) → Drawn (random n)) where
    abbrev id_of : ℕ → Text
    id_of n = new_id (random n)

    named : (n : ℕ) → UsableId (id_of n)
    named n = new_id-UsableId (drawn n)

    app_rules-Valid :
        (source : Source) (order n : ℕ) (ps : List ℤ)
        → ValidSource std source
        → ArePorts ps
        → All (ValidRule std) (app_rules random source order n ps)
    unfolding app_rules
    app_rules-Valid source order n [] from h = tt
    app_rules-Valid source order n (p ∷ ps) from (here, h) = (
      allow-ValidRule (id_of n) order (lit "Docker app on :" ++ itoa p) source (lit "tcp")
          (lit "docker") (p ∷ []) (named n).1 (unfold lit in λ e. cc) from
          (one_port-accepted p here) (inl refl) (inr refl),
      app_rules-Valid source (order + 10) (suc n) ps from h,
    )

    -- The ids of the first `bound` draws differ.
    abbrev pub Distinct : ℕ → Type 0
    Distinct bound = (m n : ℕ) → m < n → n < bound → id_of m ≢ id_of n

    -- Ids of the first draws.
    abbrev Below : ℕ → List Text → Type 0
    Below n is = All (λ i. (m : ℕ) × (m < n) × (i ≡ id_of m)) is

    Below-more : (n : ℕ) (is : List Text) → Below n is → Below (suc n) (id_of n ∷ is)
    Below-more n is h =
        ((n, omega arith, refl), All-map (λ i (m, less, e). (m, omega arith, e)) is h)

    new_among :
        (bound n : ℕ) (is : List Text)
        → Distinct bound
        → n < bound
        → Below n is
        → ¬ OneOf (id_of n) is
    new_among bound n [] distinct less h k = k
    new_among bound n (i ∷ is) distinct less ((m, below, e), h) (inl same) =
        distinct m n below less (sym e ∙ sym same)
    new_among bound n (i ∷ is) distinct less (first, h) (inr k) =
        new_among bound n is distinct less h k

    -- The ids of so many draws from one on.
    abbrev drawn_from : ℕ → ℕ → List Text
    drawn_from n zero = []
    drawn_from n (suc k) = id_of n ∷ drawn_from (suc n) k

    drawn_from-Fresh :
        (bound n k : ℕ) (seen : List Text)
        → Distinct bound
        → n + k ≤ bound
        → Below n seen
        → Fresh seen (drawn_from n k)
    drawn_from-Fresh bound n zero seen distinct room h = tt
    drawn_from-Fresh bound n (suc k) seen distinct room h = (
      new_among bound n seen distinct (omega arith) h,
      drawn_from-Fresh bound (suc n) k (id_of n ∷ seen) distinct (omega arith)
          (Below-more n seen h),
    )

    ids-app_rules :
        (source : Source) (order n : ℕ) (ps : List ℤ)
        → ids (app_rules random source order n ps) ≡ drawn_from n (length ps)
    unfolding app_rules allow_rule
    ids-app_rules source order n [] = refl
    ids-app_rules source order n (p ∷ ps) =
        rw (named n).0 (ap (◌∷◌ (id_of n)) (ids-app_rules source (order + 10) (suc n) ps))

    module _ (lan host_ip : Text) (docker_ports : List ℤ) where
      abbrev starter : RuleSet
      starter = defaults random lan host_ip docker_ports

      host_ports-accepted :
          (validate_ports (listed_ports (pos 80 ∷ pos 443 ∷ [])) ≡ ok tt)
          × (validate_ports (listed_ports (pos 22 ∷ [])) ≡ ok tt)
          × (validate_ports (listed_ports (pos 139 ∷ pos 445 ∷ [])) ≡ ok tt)
          × (validate_ports (listed_ports (pos 137 ∷ pos 138 ∷ [])) ≡ ok tt)
          × (validate_ports (listed_ports (pos 5353 ∷ [])) ≡ ok tt)
      unfolding validate_ports listed_ports each lit ◌==◌
      host_ports-accepted = (refl, refl, refl, refl, refl)

      starter-rules :
          ValidSource std (record { type = lit "range"; value = lan })
          → ArePorts docker_ports
          → All (ValidRule std) starter.rules
      unfolding defaults
      starter-rules from h =
          let (web, ssh, smb, nmb, mdns) = host_ports-accepted in
          let host : (n : ℕ) (name protocol : Text) (ps : List ℤ)
              → name ≢ []
              → validate_ports (listed_ports ps) ≡ ok tt
              → (protocol ≡ lit "tcp") ⊎ (protocol ≡ lit "udp")
              → ValidRule std (
                  allow_rule (id_of n) (suc n * 10) name
                    (record { type = lit "range"; value = lan }) protocol (lit "host") ps) =
            λ n name protocol ps some_name to how.
              allow-ValidRule (id_of n) (suc n * 10) name _ protocol (lit "host") ps (named n).1
                some_name from to how (inl refl) in
          (
            host 0 (lit "ZimaOS Web UI") (lit "tcp") (pos 80 ∷ pos 443 ∷ []) (unfold lit in λ e. cc)
                web (inl refl),
            (
              host 1 (lit "SSH (admin)") (lit "tcp") (pos 22 ∷ []) (unfold lit in λ e. cc) ssh
                  (inl refl),
              (
                host 2 (lit "Samba file sharing (TCP)") (lit "tcp") (pos 139 ∷ pos 445 ∷ [])
                    (unfold lit in λ e. cc) smb (inl refl),
                (
                  host 3 (lit "Samba file sharing (UDP)") (lit "udp") (pos 137 ∷ pos 138 ∷ [])
                      (unfold lit in λ e. cc) nmb (inr refl),
                  (
                    host 4 (lit "mDNS discovery") (lit "udp") (pos 5353 ∷ [])
                        (unfold lit in λ e. cc) mdns (inr refl),
                    app_rules-Valid _ 60 5 (sort_ints docker_ports) from
                        (sort_ints-ArePorts docker_ports h),
                  ),
                ),
              ),
            ),
          )

      ids-starter :
          ids starter.rules
          ≡ id_of 0 ∷ id_of 1 ∷ id_of 2 ∷ id_of 3 ∷ id_of 4 ∷ drawn_from 5 (length docker_ports)
      unfolding defaults allow_rule
      ids-starter =
          rw ((named 0).0, (named 1).0, (named 2).0, (named 3).0, (named 4).0)
            (ap (λ is. id_of 0 ∷ id_of 1 ∷ id_of 2 ∷ id_of 3 ∷ id_of 4 ∷ is)
              (ids-app_rules (record { type = lit "range"; value = lan }) 60 5
                  (sort_ints docker_ports)
                ∙ ap (drawn_from 5) (length-sort_ints docker_ports)))

      starter-Fresh : Distinct (5 + length docker_ports) → Fresh [] (ids starter.rules)
      starter-Fresh distinct = rw ids-starter (
          drawn_from-Fresh (5 + length docker_ports) 0
            (suc (suc (suc (suc (suc (length docker_ports)))))) [] distinct (omega arith) tt)

      starter-length : length starter.rules ≡ 5 + length docker_ports
      unfolding defaults
      starter-length =
          let apps =
            length-app_rules random (record { type = lit "range"; value = lan }) 60 5
              (sort_ints docker_ports) in
          let same = length-sort_ints docker_ports in omega arith

      starter-ValidRuleSet :
          (std.parse_cidr lan ≡ some v4)
          → (host_ip ≡ []) ⊎ (std.parse_ip host_ip ≡ some v4)
          → ArePorts docker_ports
          → length docker_ports ≤ 251
          → Distinct (5 + length docker_ports)
          → ValidSource std (record { type = lit "range"; value = lan })
          → ValidRuleSet std starter
      starter-ValidRuleSet net host h few distinct from = record {
        policy = unfold defaults in inl refl;
        rule_count = let n = starter-length in omega arith;
        v6_count = unfold defaults in omega arith;
        lan = unfold defaults in inr net;
        host_ip = unfold defaults in host;
        v6_ports_valid = unfold defaults in tt;
        rules = starter-rules from h;
        distinct = starter-Fresh distinct;
      }

      lan-ValidSource :
          std.parse_cidr lan ≡ some v4
          → ValidSource std (record { type = lit "range"; value = lan })
      unfolding validate_source lit ◌==◌
      lan-ValidSource net = (validate_source_iff std _).0 (rw net refl)

      app_rules-named :
          (source : Source) (order n : ℕ) (ps : List ℤ)
          → All (λ r. is_empty r.id ≡ false) (app_rules random source order n ps)
      unfolding app_rules allow_rule
      app_rules-named source order n [] = tt
      app_rules-named source order n (p ∷ ps) =
          ((named n).0, app_rules-named source (order + 10) (suc n) ps)

      starter-named : All (λ r. is_empty r.id ≡ false) starter.rules
      unfolding defaults allow_rule
      starter-named = (
        (named 0).0,
        (
          (named 1).0,
          (
            (named 2).0,
            (
              (named 3).0,
              (
                (named 4).0,
                app_rules-named (record { type = lit "range"; value = lan }) 60 5
                    (sort_ints docker_ports),
              ),
            ),
          ),
        ),
      )

      stamp-ValidRuleSet : ValidRuleSet std starter → ValidRuleSet std (stamp random starter)
      unfolding stamp
      stamp-ValidRuleSet v =
          let same = fill_ids-named random 0 starter.rules starter-named in
          record {
            policy = v.policy;
            rule_count = rw same v.rule_count;
            v6_count = unfold defaults in omega arith;
            lan = v.lan;
            host_ip = v.host_ip;
            v6_ports_valid = unfold defaults in tt;
            rules = rw same v.rules;
            distinct = rw same v.distinct;
          }

      -- What the starter rules take: the LAN is an IPv4 network, the host's address is unknown or IPv4,
      -- the published ports are port numbers and at most 251, and the ids of the rules differ.
      pub record Fitting : Type 0 where
        pub net : std.parse_cidr lan ≡ some v4
        pub host : (host_ip ≡ []) ⊎ (std.parse_ip host_ip ≡ some v4)
        pub are_ports : All (Within 1 65535) docker_ports
        pub few : length docker_ports ≤ 251
        pub distinct : Distinct (5 + length docker_ports)

      fitting-ValidRuleSet : Fitting → ValidRuleSet std starter
      fitting-ValidRuleSet f =
          starter-ValidRuleSet f.net f.host f.are_ports f.few f.distinct (lan-ValidSource f.net)

      -- The starter rules are valid for Validate, as Defaults gives them and as Save writes them, if the
      -- LAN is an IPv4 network, the host's address is unknown or IPv4, the published ports are port
      -- numbers and at most 251, every call for random bytes gives four bytes or fails, and the ids of
      -- the rules differ.
      pub defaults-accepted :
          Fitting
          → (validate std (defaults random lan host_ip docker_ports) ≡ ok tt)
            × (validate std (stamp random (defaults random lan host_ip docker_ports)) ≡ ok tt)
      defaults-accepted f = (
        (validate_iff std starter).1 (fitting-ValidRuleSet f),
        (validate_iff std (stamp random starter)).1 (stamp-ValidRuleSet (fitting-ValidRuleSet f)),
      )
