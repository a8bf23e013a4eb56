-- ===== src/ConntrackTests.antt =====
-- The theorems on internal/conntrack applied to lines of the kernel's table.
use zfw_dark.Common.{◌^◌, ◌∷◌, ◌++◌, some, ◌≡◌, refl}
use zfw_dark.Common.Int.{pos}
use zfw_dark.Common.Scan.{fields, scan, cut}
use zfw_dark.Common.Text.{Text, lit, ◌==◌, atoi}
use zfw_dark.Conntrack.{finished, parse_line, parse_stream, is_state_token}
use zfw_dark.Conntrack.Stream.{capped, entries, never, parse_stream-capped}

abbrev web_line : Text
web_line =
    lit
      "ipv4 2 tcp 6 431999 ESTABLISHED src=10.0.0.2 dst=10.0.0.1 sport=5000 dport=443 src=10.0.0.1 dst=10.0.0.2 sport=443 dport=5000 [ASSURED]"

web_line-entry :
    parse_line web_line
    ≡ some (record {
      protocol = lit "tcp";
      state = lit "ESTABLISHED";
      src_ip = lit "10.0.0.2";
      src_port = pos 5000;
      dst_ip = lit "10.0.0.1";
      dst_port = pos 443;
      age_sec = pos 431999;
    })
unfolding parse_line is_state_token fields lit ◌==◌ cut atoi
web_line-entry = refl

abbrev table : Text
table = web_line ++ b'\n' ∷ lit "short\n" ++ web_line ++ b'\n' ∷ web_line

parse_stream-capped_example :
    parse_stream never (pos 2) table ≡ (capped (pos 2) (entries (scan (2 ^ 20) table).0), finished)
parse_stream-capped_example = parse_stream-capped (pos 2) table
