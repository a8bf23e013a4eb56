-- ===== src/Rules/Templates/Accepted.antt =====
-- internal/rules/templates.go: the rules of the catalog and `Validate`.
use zfw_dark.Common.{
  ℕ, true, List, [], Option, some, ◌≡◌, refl, inl, inr, ◌⊎◌, All, All-map, flat_map, Bool-cases,
}
use zfw_dark.Common.Result.{ok}
use zfw_dark.Common.Text.{Text, Std, v4, lit, ◌==◌, is_empty}
use zfw_dark.Rules.Checks.{is_safe_rule_id, is_safe_container_id}
use zfw_dark.Rules.Model.{Rule}
use zfw_dark.Rules.Store.{new_id}
use zfw_dark.Rules.Store.Ids.{Drawn, new_id-UsableId}
use zfw_dark.Rules.Templates.{Template, from_any, lan_source, templates}
use zfw_dark.Rules.Valid.Parts.{validate_source_iff}
use zfw_dark.Rules.Valid.Rule.{is_safe_rule_id_iff, validate_rule_iff}
use zfw_dark.Rules.Validate.{validate_rule, validate_source, validate_ports, each}

-- The rules of the catalog.
abbrev pub rules_of : List Template → List Rule
rules_of = flat_map (λ t. t.rules)

module _ (std : Std) (r : Rule) where
  -- A rule is valid if it is so with another id and another source, and these are valid too.
  with_parts :
      validate_rule std (record r { id = []; source = from_any }) ≡ ok tt
      → is_safe_rule_id r.id ≡ true
      → validate_source std r.source ≡ ok tt
      → validate_rule std r ≡ ok tt
  with_parts plain id source =
      let v = (validate_rule_iff std (record r { id = []; source = from_any })).0 plain in
      (validate_rule_iff std r).1 (record {
        id = (is_safe_rule_id_iff r.id).0 id;
        container_id = v.container_id;
        name = v.name;
        action = v.action;
        notes = v.notes;
        source = (validate_source_iff std r.source).0 source;
        ports = v.ports;
        protocol = v.protocol;
        zone = v.zone;
        schedule = v.schedule;
        rate_limit = v.rate_limit;
        direction = v.direction;
      })

module _ (std : Std) (random : ℕ → Option Text) (lan : Text) where
  from_any-accepted : validate_source std from_any ≡ ok tt
  unfolding validate_source lit ◌==◌
  from_any-accepted = refl

  lan_source-accepted :
      (lan ≡ []) ⊎ (std.parse_cidr lan ≡ some v4) → validate_source std (lan_source lan) ≡ ok tt
  unfolding lan_source validate_source lit ◌==◌
  lan_source-accepted (inl e) = rw e refl
  lan_source-accepted (inr e) = elim (Bool-cases (is_empty lan)) [
    | inl k ↦ rw k refl
    | inr k ↦ rw (k, e) refl
  ]

  -- How the catalog fills a rule.
  abbrev Filled : Rule → Type 0
  Filled r =
      (n : ℕ) × (r.id ≡ new_id (random n))
      × ((r.source ≡ from_any) ⊎ (r.source ≡ lan_source lan))
      × (validate_rule std (record r { id = []; source = from_any }) ≡ ok tt)

  templates-Filled : All Filled (rules_of (templates random lan))
  unfolding templates validate_rule validate_source validate_ports each is_safe_rule_id
      is_safe_container_id lit ◌==◌
  templates-Filled = (
    (0, refl, inl refl, refl),
    (
      (1, refl, inl refl, refl),
      (
        (2, refl, inl refl, refl),
        (
          (3, refl, inr refl, refl),
          (
            (4, refl, inr refl, refl),
            (
              (5, refl, inr refl, refl),
              (
                (6, refl, inr refl, refl),
                (
                  (7, refl, inr refl, refl),
                  (
                    (8, refl, inr refl, refl),
                    (
                      (9, refl, inr refl, refl),
                      (
                        (10, refl, inr refl, refl),
                        (
                          (11, refl, inr refl, refl),
                          (
                            (12, refl, inr refl, refl),
                            (
                              (13, refl, inr refl, refl),
                              (
                                (14, refl, inr refl, refl),
                                (
                                  (15, refl, inr refl, refl),
                                  (
                                    (16, refl, inr refl, refl),
                                    (
                                      (17, refl, inr refl, refl),
                                      (
                                        (18, refl, inr refl, refl),
                                        (
                                          (19, refl, inr refl, refl),
                                          (
                                            (20, refl, inr refl, refl),
                                            (
                                              (21, refl, inr refl, refl),
                                              (
                                                (22, refl, inr refl, refl),
                                                ((23, refl, inr refl, refl), tt),
                                              ),
                                            ),
                                          ),
                                        ),
                                      ),
                                    ),
                                  ),
                                ),
                              ),
                            ),
                          ),
                        ),
                      ),
                    ),
                  ),
                ),
              ),
            ),
          ),
        ),
      ),
    ),
  )

  Filled-accepted :
      ((n : ℕ) → Drawn (random n))
      → (lan ≡ []) ⊎ (std.parse_cidr lan ≡ some v4)
      → (r : Rule) → Filled r
      → validate_rule std r ≡ ok tt
  Filled-accepted drawn valid_lan r (n, id, source, plain) =
      with_parts std r plain (rw id (new_id-UsableId (drawn n)).1) (elim source [
        | inl e ↦ rw e from_any-accepted
        | inr e ↦ rw e (lan_source-accepted valid_lan)
      ])

  -- Every rule of the catalog is one that `Validate` accepts, if the LAN is unknown or an IPv4 network,
  -- and each call for random bytes gives four bytes or fails.
  pub templates-accepted :
      ((n : ℕ) → Drawn (random n))
      → (lan ≡ []) ⊎ (std.parse_cidr lan ≡ some v4)
      → All (λ r. validate_rule std r ≡ ok tt) (rules_of (templates random lan))
  templates-accepted drawn valid_lan =
      All-map (Filled-accepted drawn valid_lan) (rules_of (templates random lan)) templates-Filled
