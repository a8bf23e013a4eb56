-- ===== src/Compiler/Zones.antt =====
-- `portsForZone` of internal/compiler/compiler.go: which of a rule's ports go to which chain.
pub mod Partition
use zfw_dark.Common.{Bool, true, false, List, [], ◌∷◌, Option, none, some, if◌then◌else◌}
use zfw_dark.Common.Int.{ℤ, pos}
use zfw_dark.Common.Text.{lit, ◌==◌}
use zfw_dark.Compiler.Args.{PortSpec}
use zfw_dark.Rules.Model.{Ports, Rule}

-- The chain that is asked for: "host" or "docker".
pub data Zone : Type 0 where
  host docker : Zone

abbrev pub all_spec : PortSpec
all_spec = record { all = true; list = []; from = pos 0; to = pos 0 }

abbrev pub list_spec : List ℤ → PortSpec
list_spec ps = record { all = false; list = ps; from = pos 0; to = pos 0 }

abbrev pub range_spec : ℤ → ℤ → PortSpec
range_spec from to = record { all = false; list = []; from = from; to = to }

-- All of a rule's ports.
unfoldable pub whole : Ports → PortSpec
whole p =
    if p.type == lit "all"
    then all_spec
    else if p.type == lit "range"
    then range_spec p.from p.to
    else list_spec p.list

-- The ports that are published by a container, and the others, in their order.
unfoldable pub published : (ℤ → Bool) → List ℤ → List ℤ
published docker_ports [] = []
published docker_ports (p ∷ ps) =
    let rest = published docker_ports ps in if docker_ports p then p ∷ rest else rest

unfoldable pub unpublished : (ℤ → Bool) → List ℤ → List ℤ
unpublished docker_ports [] = []
unpublished docker_ports (p ∷ ps) =
    let rest = unpublished docker_ports ps in if docker_ports p then rest else p ∷ rest

-- `if len(ps) == 0 { return portSpec{}, false }`.
unfoldable pub some_list : List ℤ → Option PortSpec
some_list [] = none
some_list (p ∷ ps) = some (list_spec (p ∷ ps))

abbrev pub only_host : Zone → PortSpec → Option PortSpec
only_host host ps = some ps
only_host docker ps = none

abbrev pub only_docker : Zone → PortSpec → Option PortSpec
only_docker host ps = none
only_docker docker ps = some ps

unfoldable pub auto_list : (ℤ → Bool) → List ℤ → Zone → Option PortSpec
unfolding some_list
auto_list docker_ports ps host = some_list (unpublished docker_ports ps)
auto_list docker_ports ps docker = some_list (published docker_ports ps)

-- `none` is the result `portSpec{}, false`.
unfoldable pub ports_for_zone : Rule → (ℤ → Bool) → Zone → Option PortSpec
unfolding whole auto_list
ports_for_zone r docker_ports want =
    if r.zone == lit "host"
    then only_host want (whole r.ports)
    else if r.zone == lit "docker"
    then only_docker want (whole r.ports)
    else if r.ports.type == lit "all"
    then only_host want all_spec
    else if r.ports.type == lit "range"
    then only_host want (range_spec r.ports.from r.ports.to)
    else auto_list docker_ports r.ports.list want
