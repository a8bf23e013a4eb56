-- ===== src/StarterTests.antt =====
-- The first rule sets on a small system.
use zfw_dark.Common.{ℕ, [], ◌∷◌, Option, none, ◌≡◌, refl}
use zfw_dark.Common.Int.{pos}
use zfw_dark.Common.Text.{Text, lit}
use zfw_dark.Firewall.{TierConfig}
use zfw_dark.Rules.Starter.{atoi_list}

abbrev no_random : ℕ → Option Text
no_random n = none

abbrev old_config : TierConfig
old_config = record {
  lan = lit "192.168.1.0/24";
  host_ip = lit "192.168.1.10";
  host_tcp_lan = lit "22" ∷ lit "80" ∷ lit "x1" ∷ [];
  host_udp_lan = [];
  docker_drop_lan = lit "9000" ∷ [];
  v6_drop = [];
}

old_ports : atoi_list (lit "22" ∷ lit "80" ∷ lit "x1" ∷ []) ≡ pos 22 ∷ pos 80 ∷ []
unfolding atoi_list lit
old_ports = refl
