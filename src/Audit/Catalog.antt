-- ===== src/Audit/Catalog.antt =====
-- `Findings` of internal/audit/audit.go: the catalog, with statuses from the live firewall and the
-- tier configuration.
use zfw_dark.Common.{Bool, not, ◌&&◌, List, [], ◌∷◌}
use zfw_dark.Common.{any, if◌then◌else◌}
use zfw_dark.Common.Text.{Text, lit, ◌==◌}
use zfw_dark.Audit.{Finding}
use zfw_dark.Firewall.{TierConfig}
use zfw_dark.Firewall.Live.{Status}

-- `contains`.
unfoldable pub contains : List Text → Text → Bool
contains set port = any (λ p. p == port) set

unfoldable pub host_blocked : Status → TierConfig → Text → Text
host_blocked st cfg port =
    if st.active && not (contains cfg.host_tcp_lan port) then lit "mitigated" else lit "open"

unfoldable pub docker_blocked : Status → TierConfig → Text → Text
docker_blocked st cfg port =
    if st.active && contains cfg.docker_drop_lan port then lit "mitigated" else lit "open"

-- `m1`.
unfoldable pub filter_status : Status → Text
filter_status st = if st.active then lit "fixed" else lit "open"

abbrev pub item : Text → Text → Text → Text → Text → Finding
item id sev title detail status = record {
  id = id;
  sev = sev;
  title = title;
  detail = detail;
  status = status;
}

-- `Findings`.
unfoldable pub findings : Status → TierConfig → List Finding
findings st cfg =
    (item (lit "M1") (lit "MED") (lit "No host firewall")
      (lit "ZimaOS ships without a packet filter — resolved by ZFW.") (filter_status st))
    ∷ (item (lit "H1") (lit "HIGH") (lit "zimaos-mcp: privileged & no auth")
        (lit "MCP API :8717, container privileged+host-net+docker.sock → LAN path to host root.")
        (host_blocked st cfg (lit "8717")))
    ∷ (item (lit "H2") (lit "HIGH") (lit "xpkg-desktop: remote desktop without auth")
        (lit "noVNC :15800/:15900, WEB_AUTHENTICATION=0, empty VNC password.")
        (docker_blocked st cfg (lit "15800")))
    ∷ (item (lit "H3") (lit "HIGH") (lit "ZVM VNC without password")
        (lit "qemu console :5900/:5700 with no passwd — IceWhale disclosure in progress.")
        (host_blocked st cfg (lit "5900")))
    ∷ (item (lit "H4") (lit "HIGH") (lit "SSH root login open")
        (lit "PermitRootLogin yes + password auth + root has a password. sshd_config fix required.")
        (lit "open"))
    ∷ (item (lit "M2") (lit "MED") (lit "dozzle without authentication")
        (lit ":8888 no auth + docker.sock → all container logs readable LAN-wide.")
        (docker_blocked st cfg (lit "8888")))
    ∷ (item (lit "M3") (lit "MED") (lit "Docker apps bypass the gateway")
        (lit "~12 apps publish directly on 0.0.0.0 instead of via the gateway route.") (lit "open"))
    ∷ (item (lit "M4") (lit "MED") (lit "Outdated container images")
        (lit "postgres:14.2 (~4y, EOL); many :latest tags.") (lit "open"))
    ∷ (item (lit "M5") (lit "MED") (lit "Kernel CVE 2026-31431")
        (lit "Kernel 6.12.25 — local root; patchable only via a ZimaOS firmware update.")
        (lit "open"))
    ∷ (item (lit "M6") (lit "MED") (lit "NFS/RPC LAN-exposed")
        (lit "nfsd :2049 + rpcbind :111 open, but no exports configured.")
        (host_blocked st cfg (lit "2049")))
    ∷ (item (lit "M7") (lit "MED") (lit "Docker Engine 27.5.1")
        (lit "< 29.3.1 → docker cp host-root escapes conditionally applicable.") (lit "open"))
    ∷ (item (lit "M8") (lit "MED") (lit "SSH password auth + full sudo")
        (lit "PasswordAuthentication yes; Holgi (ALL:ALL) ALL → SSH password = root.") (lit "open"))
    ∷ (item (lit "L1") (lit "LOW") (lit "ttyd web terminal LAN-open")
        (lit ":7681 login-gated but brute-forceable, no rate limit.")
        (host_blocked st cfg (lit "7681")))
    ∷ (item (lit "L2") (lit "LOW") (lit "zima-cron-watchdog failed")
        (lit "Watchdog looks for zima-cron.service (does not exist; unit is named cron.service).")
        (lit "open"))
    ∷ (item (lit "L3") (lit "LOW") (lit "/DATA shares 0777")
        (lit "AppData/Backup/Documents and others are world-writable.") (lit "open"))
    ∷ (item (lit "L4") (lit "LOW") (lit "rclone rcd --rc-no-auth")
        (lit "Unix socket only, not LAN-exposed — low risk.") (lit "open"))
    ∷ (item (lit "L5") (lit "LOW") (lit "/var/run/casaos world-readable")
        (lit "Caddyfile + message-bus.db mode 644 — minor info leak.") (lit "open"))
    ∷ []
