-- ===== src/System/Published.antt =====
-- `parseDockerPorts` of internal/system/system.go: the ports that it lists.
use zfw_dark.Common.{
  Bool, true, false, ◌||◌, List, [], ◌∷◌, Option, none, some, ◌≡◌, refl, ap, ◌↔◌, ◌∙◌, inl, inr,
  arith, All, any, Bool-cases,
}
use zfw_dark.Common.Int.{ℤ, pos, eq_ℤ, eq_ℤ_iff, ltb_ℤ, Within}
use zfw_dark.Common.Scan.{cut_last, cut_text, has_suffix}
use zfw_dark.Common.Some.{Some, any-Some}
use zfw_dark.Common.Text.{Text, lit, split, atoi, trim_space}
use zfw_dark.System.Docker.{
  port_in_range, behind_colon, host_port, parse_mapping, add_port, collect_ports,
  parse_docker_ports,
}
use zfw_dark.Rules.Starter.{sort_ints}
use zfw_dark.System.Entries.{Maps, parse_mapping_iff}
use zfw_dark.System.Sorted.{Ascending, Distinct, sort_ints-All, any-sort_ints, sort_ints-Ascending}

-- Whether an entry maps this port.
abbrev maps : ℤ → Option ℤ → Bool
maps n none = false
maps n (some p) = eq_ℤ p n

abbrev InRange : Option ℤ → Type 0
InRange none = Unit
InRange (some n) = Within 1 65535 n

port_in_range-InRange : (o : Option ℤ) → InRange (port_in_range o)
unfolding port_in_range
port_in_range-InRange none = tt
port_in_range-InRange (some n) = elim (Bool-cases (ltb_ℤ n (pos 1) || ltb_ℤ (pos 65535) n)) [
  | inl e ↦ rw e tt
  | inr e ↦ rw e (ground arith)
]

behind_colon-InRange : (o : Option (Text × Text)) → InRange (behind_colon o)
unfolding behind_colon
behind_colon-InRange none = tt
behind_colon-InRange (some (_, digits)) = port_in_range-InRange (atoi digits)

host_port-InRange : (o : Option (Text × Text)) → InRange (host_port o)
unfolding host_port
host_port-InRange none = tt
host_port-InRange (some (before, _)) = behind_colon-InRange (cut_last b':' before)

parse_mapping-InRange : (e : Text) → InRange (parse_mapping e)
unfolding parse_mapping
parse_mapping-InRange e = elim (Bool-cases (has_suffix (trim_space e) (lit "/tcp"))) [
  | inl k ↦ rw k (host_port-InRange (cut_text (lit "->") (trim_space e)))
  | inr k ↦ rw k tt
]

any-All : (n : ℤ) (ps : List ℤ) → any (λ p. eq_ℤ p n) ps ≡ false → All (λ p. eq_ℤ n p ≡ false) ps
any-All n [] h = tt
any-All n (p ∷ ps) h = (ground arith, any-All n ps (ground arith))

module _ (ps : List ℤ) where
  add_port-Distinct : (o : Option ℤ) → Distinct ps → Distinct (add_port ps o)
  unfolding add_port
  add_port-Distinct none h = h
  add_port-Distinct (some n) h = elim (Bool-cases (any (λ p. eq_ℤ p n) ps)) [
    | inl e ↦ rw e h
    | inr e ↦ rw e (any-All n ps e, h)
  ]

  add_port-All :
      (o : Option ℤ) → InRange o → All (Within 1 65535) ps → All (Within 1 65535) (add_port ps o)
  unfolding add_port
  add_port-All none here h = h
  add_port-All (some n) here h = elim (Bool-cases (any (λ p. eq_ℤ p n) ps)) [
    | inl e ↦ rw e h
    | inr e ↦ rw e (here, h)
  ]

same_test :
    (a b n : ℤ) (x : Bool) → eq_ℤ a b ≡ true → (eq_ℤ a n || x) ≡ (eq_ℤ b n || (eq_ℤ a n || x))
same_test a b n x h = ground arith

any-known :
    (n m : ℤ) (ps : List ℤ)
    → any (λ p. eq_ℤ p n) ps ≡ true
    → any (λ p. eq_ℤ p m) ps ≡ (eq_ℤ n m || any (λ p. eq_ℤ p m) ps)
any-known n m [] h = cc
any-known n m (p ∷ ps) h = elim (Bool-cases (eq_ℤ p n)) [
  | inl e ↦ same_test p n m (any (λ q. eq_ℤ q m) ps) e
  | inr e ↦ ground (arith, any-known n m ps (rw e at h))
]

any-add_port :
    (m : ℤ) (ps : List ℤ) (o : Option ℤ)
    → any (λ p. eq_ℤ p m) (add_port ps o) ≡ (maps m o || any (λ p. eq_ℤ p m) ps)
unfolding add_port
any-add_port m ps none = refl
any-add_port m ps (some n) = elim (Bool-cases (any (λ p. eq_ℤ p n) ps)) [
  | inl e ↦ rw e (any-known n m ps e)
  | inr e ↦ rw e refl
]

-- The ports collected so far.
record Collected (ps : List ℤ) : Type 0 where
  distinct : Distinct ps
  in_range : All (Within 1 65535) ps

collect_ports-Collected :
    (ps : List ℤ) (es : List Text) → Collected ps → Collected (collect_ports ps es)
unfolding collect_ports
collect_ports-Collected ps [] c = c
collect_ports-Collected ps (e ∷ es) c =
    collect_ports-Collected (add_port ps (parse_mapping e)) es (record {
      distinct = add_port-Distinct ps (parse_mapping e) c.distinct;
      in_range = add_port-All ps (parse_mapping e) (parse_mapping-InRange e) c.in_range;
    })

any-collect_ports :
    (m : ℤ) (ps : List ℤ) (es : List Text)
    → any (λ p. eq_ℤ p m) (collect_ports ps es)
      ≡ (any (λ e. maps m (parse_mapping e)) es || any (λ p. eq_ℤ p m) ps)
unfolding collect_ports
any-collect_ports m ps [] = refl
any-collect_ports m ps (e ∷ es) = ground (
  arith,
  any-collect_ports m (add_port ps (parse_mapping e)) es,
  any-add_port m ps (parse_mapping e),
)

maps_iff : (n : ℤ) (o : Option ℤ) → (maps n o ≡ true) ↔ (o ≡ some n)
maps_iff n none = (λ h. absurd (cc), λ h. absurd (cc))
maps_iff n (some p) =
    let (to, from) = eq_ℤ_iff p n in
    (λ h. ap some (to h), λ h. from (let same : p ≡ n = cc in same))

parse_mapping-Maps : (n : ℤ) (e : Text) → (maps n (parse_mapping e) ≡ true) ↔ Maps n e
parse_mapping-Maps n e =
    let (to, from) = maps_iff n (parse_mapping e) in
    let (shape, found) = parse_mapping_iff n e in (λ h. shape (to h), λ m. from (found m))

-- The ports that parseDockerPorts gives ascend without repetition and lie in 1..65535, and a port is
-- among them exactly when an entry between the commas, without the spaces around it, ends in "/tcp" and
-- reads host:port->target, where the arrow is the first one and the colon the last in front of it. An
-- entry for a range of ports, such as 0.0.0.0:8000-8001->8000-8001/tcp, is none of these, so that its
-- ports are left out.
pub parse_docker_ports-listed :
    (s : Text)
    → Ascending (parse_docker_ports s)
      × All (Within 1 65535) (parse_docker_ports s)
      × ((n : ℤ)
          → (any (λ p. eq_ℤ p n) (parse_docker_ports s) ≡ true) ↔ Some (Maps n) (split b',' s))
unfolding parse_docker_ports
parse_docker_ports-listed s =
    let ports : List ℤ = collect_ports [] (split b',' s) in
    let c = collect_ports-Collected [] (split b',' s) (record { distinct = tt; in_range = tt }) in
    (
      sort_ints-Ascending ports c.distinct,
      sort_ints-All (Within 1 65535) ports c.in_range,
      λ n.
          let found : any (λ p. eq_ℤ p n) (sort_ints ports)
              ≡ any (λ e. maps n (parse_mapping e)) (split b',' s) =
            any-sort_ints (λ p. eq_ℤ p n) ports
            ∙ any-collect_ports n [] (split b',' s)
            ∙ ground arith in
          rw found (any-Some _ (Maps n) (parse_mapping-Maps n) (split b',' s)),
    )
