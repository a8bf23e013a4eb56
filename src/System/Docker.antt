-- ===== src/System/Docker.antt =====
-- `DockerContainers` and `parseDockerPorts` of internal/system/system.go. The output of `docker ps`
-- is a parameter.
use zfw_dark.Common.{◌||◌, List, [], ◌∷◌, Option, none, some, any, if◌then◌else◌}
use zfw_dark.Common.Int.{ℤ, pos, eq_ℤ, ltb_ℤ}
use zfw_dark.Common.Scan.{cut, cut_last, cut_text, has_suffix}
use zfw_dark.Common.Text.{Text, lit, is_empty, split, trim_space, atoi}
use zfw_dark.Rules.Starter.{sort_ints}

-- `DockerContainer`.
pub record Container : Type 0 where
  pub id : Text
  pub name : Text
  pub image : Text
  pub ports : List ℤ

unfoldable pub port_in_range : Option ℤ → Option ℤ
port_in_range none = none
port_in_range (some n) = if ltb_ℤ n (pos 1) || ltb_ℤ (pos 65535) n then none else some n

unfoldable pub behind_colon : Option (Text × Text) → Option ℤ
unfolding port_in_range
behind_colon none = none
behind_colon (some (_, digits)) = port_in_range (atoi digits)

unfoldable pub host_port : Option (Text × Text) → Option ℤ
unfolding behind_colon
host_port none = none
host_port (some (before, _)) = behind_colon (cut_last b':' before)

-- The port of the host that an entry maps to a TCP port of the container.
unfoldable pub parse_mapping : Text → Option ℤ
unfolding host_port
parse_mapping entry =
    let p = trim_space entry in
    if has_suffix p (lit "/tcp") then host_port (cut_text (lit "->") p) else none

unfoldable pub add_port : List ℤ → Option ℤ → List ℤ
add_port ports none = ports
add_port ports (some n) = if any (λ p. eq_ℤ p n) ports then ports else n ∷ ports

-- The loop, with the ports in the reverse of their order; they are sorted next.
unfoldable pub collect_ports : List ℤ → List Text → List ℤ
unfolding add_port
collect_ports ports [] = ports
collect_ports ports (e ∷ es) = collect_ports (add_port ports (parse_mapping e)) es

unfoldable pub parse_docker_ports : Text → List ℤ
parse_docker_ports s = sort_ints (collect_ports [] (split b',' s))

-- The image and the ports of a line, by its rest and what a third tab divides it into.
unfoldable pub image_and_ports : Text → Option (Text × Text) → Text × List ℤ
image_and_ports rest none = (rest, parse_docker_ports [])
image_and_ports rest (some (image, field)) = (image, parse_docker_ports field)

unfoldable pub named : Text → Option (Text × Text) → List Container → List Container
unfolding image_and_ports
named id none others = others
named id (some (name, rest)) others =
    let (image, ports) = image_and_ports rest (cut b'\t' rest) in
    record { id = id; name = name; image = image; ports = ports } ∷ others

-- A line has two tabs at least: id, name, image, and the ports if there is a third one.
unfoldable pub container_of : Option (Text × Text) → List Container → List Container
unfolding named
container_of none others = others
container_of (some (id, rest)) others = named id (cut b'\t' rest) others

unfoldable pub containers_of : List Text → List Container
unfolding container_of
containers_of [] = []
containers_of (line ∷ lines) =
    let others = containers_of lines in
    if is_empty (trim_space line) then others else container_of (cut b'\t' (trim_space line)) others

-- `DockerContainers`, by the output of `docker ps`.
unfoldable pub docker_containers : Text → List Container
unfolding containers_of
docker_containers out = containers_of (split b'\n' out)
