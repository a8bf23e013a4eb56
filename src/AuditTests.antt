-- ===== src/AuditTests.antt =====
-- The audit history, its catalog, and the status of a small host.
use zfw_dark.Audit.{Finding, History}
use zfw_dark.Audit.Catalog.{contains, host_blocked, docker_blocked}
use zfw_dark.Common.{ℕ, suc, true, false, [], ◌∷◌, none, ◌≡◌, refl, nat_eq, if◌then◌else◌}
use zfw_dark.Common.Scan.{has_prefix, has_text}
use zfw_dark.Common.Text.{
  lit, ◌==◌, split, add_front, trim_space, trim_front, space1, space2, space3,
}
use zfw_dark.Firewall.{TierConfig}
use zfw_dark.Firewall.Engine.{Host}
use zfw_dark.Firewall.Live.{Status, status, count_lines}

abbrev ssh_open : Finding
ssh_open = record {
  id = lit "ssh";
  sev = lit "HIGH";
  title = lit "SSH";
  detail = [];
  status = lit "open";
}

abbrev nothing_yet : History
nothing_yet i = []

abbrev open_already : History
open_already i = record { ts = lit "2026-05-22T10:00:00Z"; status = lit "open" } ∷ []

-- SSH's port is on the list of the host, and noVNC's is dropped for the containers.
abbrev filtered : Status
filtered = record {
  active = true;
  hooked = true;
  input_rules = 12;
  docker_drops = 1;
  ipv6_active = true;
  deadman = false;
  service_enabled = true;
}

abbrev vnc_dropped : TierConfig
vnc_dropped = record {
  lan = lit "192.168.1.0/24";
  host_ip = lit "192.168.1.2";
  host_tcp_lan = lit "8717" ∷ [];
  host_udp_lan = [];
  docker_drop_lan = lit "15800" ∷ [];
  v6_drop = [];
}

allowed-open : host_blocked filtered vnc_dropped (lit "8717") ≡ lit "open"
unfolding host_blocked contains lit ◌==◌
allowed-open = refl

dropped-mitigated : docker_blocked filtered vnc_dropped (lit "15800") ≡ lit "mitigated"
unfolding docker_blocked contains lit ◌==◌
dropped-mitigated = refl

-- `systemctl is-active` of the rollback timer, and two lines of the Docker chain.
abbrev two_drops : Host
two_drops = record {
  State = ℕ;
  stat = λ path s. none;
  run = λ bin args s. (
    suc s,
    (
      if nat_eq s 2
          then lit "-A DOCKER-USER --ctorigdstport 80\n-A DOCKER-USER --ctorigdstport 81\n"
          else if nat_eq s 4
          then lit "active\n"
          else [],
      true,
    ),
  );
}

two-counted : (status two_drops (lit "iptables") (lit "ip6tables") 0).1.docker_drops ≡ 2
unfolding status count_lines has_text has_prefix split add_front lit
two-counted = refl

timer-armed : (status two_drops (lit "iptables") (lit "ip6tables") 0).1.deadman ≡ true
unfolding status trim_space trim_front space1 space2 space3 lit ◌==◌
timer-armed = refl
