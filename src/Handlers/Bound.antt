-- ===== src/Handlers/Bound.antt =====
-- The rules that are bound to containers, in `recompileLocked` of internal/handlers/handlers.go.
use zfw_dark.Common.{
  Bool, true, false, List, [], ◌∷◌, ◌++◌, Option, none, some, map, ◌≡◌, ◌≢◌, refl, sym, ap, ◌∙◌,
  All, if◌then◌else◌,
}
use zfw_dark.Common.Int.{ℤ, pos}
use zfw_dark.Common.Text.{Text, lit, ◌==◌, ==_iff, is_empty}
use zfw_dark.Handlers.Recompile.{
  find_ports, id_or_name, bound_ports, with_ports, bind_rule, bind_rules,
}
use zfw_dark.Rules.Model.{Rule, RuleSet}
use zfw_dark.System.Docker.{Container}

-- No container has this key, or one has it and none behind it.
abbrev Absent : (Container → Text) → Text → List Container → Type 0
Absent key cid = All (λ c. key c ≢ cid)

record Last (key : Container → Text) (cid : Text) (cs : List Container) (ports : List ℤ)
    : Type 0 where
  before : List Container
  container : Container
  after : List Container
  split_up : cs ≡ before ++ container ∷ after
  keyed : key container ≡ cid
  last : Absent key cid after
  publishes : container.ports ≡ ports

-- What a rule that is bound to `cid` takes: the ports of the last container with that id, or without
-- one, of the last container with that name.
data Resolved (cs : List Container) (cid : Text) : List ℤ → Type 0 where
  by_id : {ports : List ℤ} → Last (λ c. c.id) cid cs ports → Resolved cs cid ports
  by_name :
      {ports : List ℤ}
      → Absent (λ c. c.id) cid cs
      → Last (λ c. c.name) cid cs ports
      → Resolved cs cid ports
  unknown : Absent (λ c. c.id) cid cs → Absent (λ c. c.name) cid cs → Resolved cs cid []

-- A rule as it is compiled.
data BoundRule (cs : List Container) (r s : Rule) : Type 0 where
  unbound : r.container_id ≡ [] → s ≡ r → BoundRule cs r s
  unpublished : r.container_id ≢ [] → Resolved cs r.container_id [] → s ≡ r → BoundRule cs r s
  rebound :
      (p : ℤ) (ps : List ℤ)
      → r.container_id ≢ []
      → Resolved cs r.container_id (p ∷ ps)
      → s
        ≡ record r { ports = record { type = lit "list"; list = p ∷ ps; from = pos 0; to = pos 0 } }
      → BoundRule cs r s

abbrev BoundRules : List Container → List Rule → List Rule → Type 0
BoundRules cs [] [] = Unit
BoundRules cs (r ∷ rs) (s ∷ ss) = BoundRule cs r s × BoundRules cs rs ss
BoundRules cs _ _ = ⊥

-- A rule set as it is compiled: that of the file, but for the ports of the rules that are bound.
pub record Bound (cs : List Container) (given compiled : RuleSet) : Type 0 where
  rest : compiled ≡ record given { rules = compiled.rules }
  rules : BoundRules cs given.rules compiled.rules

data Found (key : Container → Text) (cid : Text) (cs : List Container)
    : Option (List ℤ) → Type 0 where
  absent : Absent key cid cs → Found key cid cs none
  last_one : {ports : List ℤ} → Last key cid cs ports → Found key cid cs (some ports)

found_behind :
    (key : Container → Text) (cid : Text) (c : Container) (cs : List Container) (ports : List ℤ)
    → Last key cid cs ports
    → Last key cid (c ∷ cs) ports
found_behind key cid c cs ports l = record {
  before = c ∷ l.before;
  container = l.container;
  after = l.after;
  split_up = ap (◌∷◌ c) l.split_up;
  keyed = l.keyed;
  last = l.last;
  publishes = l.publishes;
}

if_last :
    (key : Container → Text) (cid : Text) (c : Container) (cs : List Container) (b : Bool)
    → (key c == cid) ≡ b
    → Absent key cid cs
    → Found key cid (c ∷ cs) (if b then some c.ports else none)
if_last key cid c cs true e others = last_one (record {
  before = [];
  container = c;
  after = cs;
  split_up = refl;
  keyed = (==_iff (key c) cid).0 e;
  last = others;
  publishes = refl;
})
if_last key cid c cs false e others =
    absent (λ k. absurd (let bad = (==_iff (key c) cid).1 k in cc), others)

Found-next :
    (key : Container → Text) (cid : Text) (c : Container) (cs : List Container)
    (o : Option (List ℤ))
    → find_ports key cid cs ≡ o
    → Found key cid cs o
    → Found key cid (c ∷ cs) (find_ports key cid (c ∷ cs))
unfolding find_ports
Found-next key cid c cs none e (absent others) =
    rw e (if_last key cid c cs (key c == cid) refl others)
Found-next key cid c cs (some ports) e (last_one l) =
    rw e (last_one (found_behind key cid c cs ports l))

find_ports-Found :
    (key : Container → Text) (cid : Text) (cs : List Container)
    → Found key cid cs (find_ports key cid cs)
unfolding find_ports
find_ports-Found key cid [] = absent tt
find_ports-Found key cid (c ∷ cs) =
    Found-next key cid c cs (find_ports key cid cs) refl (find_ports-Found key cid cs)

abbrev ports_or_none : Option (List ℤ) → List ℤ
ports_or_none none = []
ports_or_none (some ports) = ports

Resolved-by :
    (cid : Text) (cs : List Container) (o n : Option (List ℤ))
    → Found (λ c. c.id) cid cs o
    → Found (λ c. c.name) cid cs n
    → Resolved cs cid (ports_or_none (id_or_name o n))
Resolved-by cid cs (some ports) n (last_one l) _ = by_id l
Resolved-by cid cs none (some ports) (absent a) (last_one l) = by_name a l
Resolved-by cid cs none none (absent a) (absent b) = unknown a b

bound_ports-Resolved :
    (cid : Text) (cs : List Container) → Resolved cs cid (ports_or_none (bound_ports cid cs))
unfolding bound_ports
bound_ports-Resolved cid cs =
    Resolved-by cid cs _ _ (find_ports-Found (λ c. c.id) cid cs)
      (find_ports-Found (λ c. c.name) cid cs)

with_ports-BoundRule :
    (cs : List Container) (r : Rule) (o : Option (List ℤ))
    → r.container_id ≢ []
    → Resolved cs r.container_id (ports_or_none o)
    → BoundRule cs r (with_ports r o)
unfolding with_ports
with_ports-BoundRule cs r none named found = unpublished named found refl
with_ports-BoundRule cs r (some []) named found = unpublished named found refl
with_ports-BoundRule cs r (some (p ∷ ps)) named found = rebound p ps named found refl

bind-cases :
    (cs : List Container) (r : Rule) (cid : Text)
    → r.container_id ≡ cid
    → BoundRule cs r (if is_empty cid then r else with_ports r (bound_ports cid cs))
bind-cases cs r [] e = unbound e refl
bind-cases cs r (c ∷ s) e =
    with_ports-BoundRule cs r (bound_ports (c ∷ s) cs) (λ k. let bad = sym e ∙ k in cc)
      (rw e (bound_ports-Resolved (c ∷ s) cs))

map-BoundRules : (cs : List Container) (rs : List Rule) → BoundRules cs rs (map (bind_rule cs) rs)
unfolding bind_rule
map-BoundRules cs [] = tt
map-BoundRules cs (r ∷ rs) = (bind-cases cs r r.container_id refl, map-BoundRules cs rs)

pub bind_rules-Bound : (cs : List Container) (rs : RuleSet) → Bound cs rs (bind_rules cs rs)
unfolding bind_rules
bind_rules-Bound cs rs = record { rest = refl; rules = map-BoundRules cs rs.rules }
