-- ===== src/System.antt =====
-- internal/system/system.go: the listening sockets. The output of `ss` is a parameter.
pub mod Docker
pub mod Versions
pub mod Lan
pub mod Tells
pub mod Sockets
pub mod Published
pub mod Entries
pub mod Sorted
use zfw_dark.Common.{
  ℕ, Bool, true, false, ◌||◌, List, [], ◌∷◌, Option, none, some, get_elem?, any, nat_eq,
  if◌then◌else◌,
}
use zfw_dark.Common.Int.{ℤ, eq_ℤ, ltb_ℤ}
use zfw_dark.Common.Scan.{cut, cut_last, cut_text, fields, scan, trim_both, trim_left, trim_right}
use zfw_dark.Common.Text.{Text, lit, ◌==◌, is_empty, atoi}

-- `Socket`; `is_local` is the scope "local", and its denial the scope "all".
pub record Socket : Type 0 where
  pub port : ℤ
  pub bind : Text
  pub proc : Text
  pub is_local : Bool

-- `users:(("` and the name up to the next quote.
unfoldable pub proc_name : Option (Text × Text) → Text
proc_name none = []
proc_name (some (_, rest)) = elim (cut b'"' rest) [ none ↦ [] | some (name, _) ↦ name ]

unfoldable pub is_bracket : ℕ → Bool
is_bracket c = nat_eq c b'[' || nat_eq c b']'

unfoldable pub socket_at : Text → Text → Option ℤ → Option Socket
unfolding proc_name
socket_at line host none = none
socket_at line host (some port) = some (record {
  port = port;
  bind = host;
  proc = proc_name (cut_text (lit "users:((\"") line);
  is_local = host == lit "127.0.0.1" || host == lit "::1";
})

unfoldable pub local_address : Text → Option (Text × Text) → Option Socket
unfolding socket_at is_bracket
local_address line none = none
local_address line (some (host, port)) = socket_at line (trim_both is_bracket host) (atoi port)

-- By the fourth field of the line.
unfoldable pub socket_of : Text → Option Text → Option Socket
unfolding local_address
socket_of line none = none
socket_of line (some address) = local_address line (cut_last b':' address)

-- The socket that a line of `ss` tells, if it tells one.
unfoldable pub parse_socket : Text → Option Socket
unfolding socket_of
parse_socket line = socket_of line (get_elem? (fields line) 3)

-- A bind on the LAN outweighs one on the loopback, and a known process an unknown one.
unfoldable pub merge : Socket → Socket → Socket
merge sk old = record sk {
  is_local = if old.is_local then sk.is_local else false;
  proc = if is_empty sk.proc then old.proc else sk.proc;
}

-- `seen[port] = …`: the sockets by their ports.
unfoldable pub put_socket : Socket → List Socket → List Socket
unfolding merge
put_socket sk [] = sk ∷ []
put_socket sk (x ∷ xs) =
    let rest = put_socket sk xs in if eq_ℤ x.port sk.port then merge sk x ∷ xs else x ∷ rest

unfoldable pub see : Option Socket → List Socket → List Socket
unfolding put_socket
see none seen = seen
see (some sk) seen = put_socket sk seen

unfoldable pub collect_sockets : List Socket → List Text → List Socket
unfolding see
collect_sockets seen [] = seen
collect_sockets seen (l ∷ ls) = collect_sockets (see (parse_socket l) seen) ls

-- `sort.Slice` by the port, of ports that differ.
unfoldable pub insert_socket : Socket → List Socket → List Socket
insert_socket sk [] = sk ∷ []
insert_socket sk (x ∷ xs) =
    let rest = insert_socket sk xs in if ltb_ℤ x.port sk.port then x ∷ rest else sk ∷ x ∷ xs

unfoldable pub sort_sockets : List Socket → List Socket
unfolding insert_socket
sort_sockets [] = []
sort_sockets (x ∷ xs) = insert_socket x (sort_sockets xs)

-- `Listening`, by the output of `ss`, none on an error. A scanner's lines end at 64 KiB.
unfoldable pub listening : Option Text → Option (List Socket)
listening none = none
listening (some out) = some (sort_sockets (collect_sockets [] (scan 65536 out).0))

unfoldable pub published_ports : List Socket → List ℤ
published_ports [] = []
published_ports (sk ∷ sks) =
    let rest = published_ports sks in if sk.proc == lit "docker-proxy" then sk.port ∷ rest else rest

-- The keys of the map of `DockerPorts`.
unfoldable pub docker_ports : Option Text → List ℤ
unfolding published_ports
docker_ports out = elim (listening out) [ none ↦ [] | some socks ↦ published_ports socks ]

-- `dockerPorts[port]`.
unfoldable pub is_docker_port : Option Text → ℤ → Bool
is_docker_port out port = any (λ p. eq_ℤ p port) (docker_ports out)
