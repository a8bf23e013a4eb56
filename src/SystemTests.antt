-- ===== src/SystemTests.antt =====
-- The output of `ss` and of `docker ps` on a small host.
use zfw_dark.Common.{true, false, [], ◌∷◌, ◌++◌, List, some, ◌≡◌, refl, any, ◌↔◌}
use zfw_dark.Common.Int.{pos, eq_ℤ}
use zfw_dark.Common.Scan.{
  has_prefix, has_suffix, has_text, cut, cut_last, cut_text, fields, scan, scanned, drop_cr, lines,
  trim_both, trim_left, trim_right,
}
use zfw_dark.Common.Some.{Some}
use zfw_dark.Common.Text.{
  Text, lit, ◌==◌, split, add_front, atoi, trim_space, trim_front, space1, space2, space3,
  read_number,
}
use zfw_dark.Rules.Starter.{insert_int, sort_ints}
use zfw_dark.System.{Socket, listening, collect_sockets, see, parse_socket, sort_sockets}
use zfw_dark.System.Docker.{parse_docker_ports, collect_ports, parse_mapping}
use zfw_dark.System.Entries.{Maps}
use zfw_dark.System.Published.{parse_docker_ports-listed}
use zfw_dark.System.Sockets.{listening-told}
use zfw_dark.System.Tells.{on_lan, TellsOutside}
use zfw_dark.System.Versions.{extract_version, openssh_version, kernel_vulnerable, docker_old}

-- Port 80 on the LAN and then on the loopback, port 53 on the loopback.
abbrev ss_output : Text
ss_output =
    lit "LISTEN 0 4096 0.0.0.0:80 0.0.0.0:* users:((\"docker-proxy\",pid=7,fd=4))\n"
    ++ (lit "LISTEN 0 128 127.0.0.1:80 0.0.0.0:*\n" ++ lit "LISTEN 0 128 [::1]:53 [::]:*\n")

abbrev two_sockets : List Socket
two_sockets =
    record { port = pos 53; bind = lit "::1"; proc = []; is_local = true }
    ∷ record { port = pos 80; bind = lit "127.0.0.1"; proc = lit "docker-proxy"; is_local = false }
    ∷ []

two_listed : listening (some ss_output) ≡ some two_sockets
unfolding listening scan collect_sockets see parse_socket fields cut_last cut_text cut trim_both
    trim_right trim_left sort_sockets atoi lit ◌==◌ has_prefix lines scanned drop_cr
two_listed = refl

listening-told_example :
    (any (on_lan (pos 80)) two_sockets ≡ true)
    ↔ Some (TellsOutside (pos 80)) (scan 65536 ss_output).0
listening-told_example = (listening-told ss_output two_sockets two_listed).2 (pos 80)

lan_80 : any (on_lan (pos 80)) two_sockets ≡ true
lan_80 = refl

local_53 : any (on_lan (pos 53)) two_sockets ≡ false
local_53 = refl

-- The entry of the range of ports is left out.
ranges-skipped :
    parse_docker_ports (
      lit
        "0.0.0.0:9000->9000/tcp, :::9000->9000/tcp, 0.0.0.0:80->8080/tcp, 0.0.0.0:8000-8001->8000-8001/tcp")
    ≡ pos 80 ∷ pos 9000 ∷ []
unfolding parse_docker_ports collect_ports parse_mapping split add_front trim_space trim_front
    space1 space2 space3 has_suffix has_prefix cut_text cut_last atoi lit sort_ints insert_int
ranges-skipped = refl

abbrev three_entries : Text
three_entries = lit "0.0.0.0:53->53/udp, :::9000->9000/tcp, 0.0.0.0:80->8080/tcp"

parse_docker_ports-listed_example :
    (any (λ p. eq_ℤ p (pos 80)) (parse_docker_ports three_entries) ≡ true)
    ↔ Some (Maps (pos 80)) (split b',' three_entries)
parse_docker_ports-listed_example = (parse_docker_ports-listed three_entries).2 (pos 80)

listed_80 : any (λ p. eq_ℤ p (pos 80)) (parse_docker_ports three_entries) ≡ true
unfolding parse_docker_ports collect_ports parse_mapping split add_front trim_space trim_front
    space1 space2 space3 has_suffix has_prefix cut_text cut_last atoi lit sort_ints insert_int
listed_80 = refl

udp_left_out : any (λ p. eq_ℤ p (pos 53)) (parse_docker_ports three_entries) ≡ false
unfolding parse_docker_ports collect_ports parse_mapping split add_front trim_space trim_front
    space1 space2 space3 has_suffix has_prefix cut_text cut_last atoi lit sort_ints insert_int
udp_left_out = refl

versions_read : extract_version (lit "Docker version v27.5.1, build 9f9e405") ≡ lit "27.5.1"
unfolding extract_version lit add_front trim_left trim_right has_text has_prefix
versions_read = refl

ssh_read : openssh_version (lit "OpenSSH_9.9p2, OpenSSL 3.4.3\n") ≡ lit "9.9p2"
unfolding openssh_version lit cut_text has_prefix trim_space trim_front space1 space2 space3
ssh_read = refl

old_kernel : kernel_vulnerable (lit "6.12.25-zima") ≡ true
unfolding kernel_vulnerable lit split add_front read_number
old_kernel = refl

old_docker : docker_old (lit "27.5.1") ≡ true
unfolding docker_old lit split add_front read_number
old_docker = refl
