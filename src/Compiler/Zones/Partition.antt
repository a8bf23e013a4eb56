-- ===== src/Compiler/Zones/Partition.antt =====
-- `portsForZone` of internal/compiler/compiler.go: the ports of the two chains.
use mathlib.Core.List.{Perm, perm_middle}
use mathlib.Core.List.Perm
use zfw_dark.Common.{
  Bool, true, false, List, [], ◌∷◌, ◌++◌, Option, none, some, ◌≡◌, refl, inl, inr,
}
use zfw_dark.Common.{All, Bool-cases}
use zfw_dark.Common.Int.{ℤ}
use zfw_dark.Common.Text.{lit, ◌==◌}
use zfw_dark.Compiler.Args.{PortSpec}
use zfw_dark.Compiler.Zones.{host, docker, published, unpublished, some_list, ports_for_zone}
use zfw_dark.Rules.Model.{Rule}

-- The ports that a chain's part lists.
abbrev pub listed_ports : Option PortSpec → List ℤ
listed_ports none = []
listed_ports (some ps) = ps.list

listed_ports-some_list : (ps : List ℤ) → listed_ports (some_list ps) ≡ ps
unfolding some_list
listed_ports-some_list [] = refl
listed_ports-some_list (p ∷ ps) = refl

module _ (docker_ports : ℤ → Bool) where
  published-All : (ps : List ℤ) → All (λ p. docker_ports p ≡ true) (published docker_ports ps)
  unfolding published
  published-All [] = tt
  published-All (p ∷ ps) = elim (Bool-cases (docker_ports p)) [
    | inl e ↦ rw e (e, published-All ps)
    | inr e ↦ rw e (published-All ps)
  ]

  unpublished-All : (ps : List ℤ) → All (λ p. docker_ports p ≡ false) (unpublished docker_ports ps)
  unfolding unpublished
  unpublished-All [] = tt
  unpublished-All (p ∷ ps) = elim (Bool-cases (docker_ports p)) [
    | inl e ↦ rw e (unpublished-All ps)
    | inr e ↦ rw e (e, unpublished-All ps)
  ]

  split_perm : (ps : List ℤ) → Perm (unpublished docker_ports ps ++ published docker_ports ps) ps
  unfolding published unpublished
  split_perm [] = Perm.refl []
  split_perm (p ∷ ps) = elim (Bool-cases (docker_ports p)) [
    | inl e ↦ rw e (Perm.trans (perm_middle _ _) (Perm.cons p (split_perm ps)))
    | inr e ↦ rw e (Perm.cons p (split_perm ps))
  ]

-- The port list of a rule in zone "auto" is split between the host chain and the Docker chain:
-- together they hold its ports, as often; those published by a container go to Docker's, all
-- others to the host's.
pub ports_for_zone_partition :
    (r : Rule) (docker_ports : ℤ → Bool)
    → r.zone ≡ lit "auto"
    → r.ports.type ≡ lit "list"
    → Perm
        (listed_ports (ports_for_zone r docker_ports host)
          ++ listed_ports (ports_for_zone r docker_ports docker))
        r.ports.list
      × All (λ p. docker_ports p ≡ false) (listed_ports (ports_for_zone r docker_ports host))
      × All (λ p. docker_ports p ≡ true) (listed_ports (ports_for_zone r docker_ports docker))
unfolding ports_for_zone lit ◌==◌
ports_for_zone_partition r docker_ports zone list =
    rw (zone, list, listed_ports-some_list, listed_ports-some_list)
      (
        split_perm docker_ports r.ports.list,
        unpublished-All docker_ports r.ports.list,
        published-All docker_ports r.ports.list,
      )
