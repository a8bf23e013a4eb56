-- ===== src/Rules/Templates.antt =====
-- internal/rules/templates.go: the catalog of rules that a user can add. Call `n` of `rand.Read`
-- gives `random n`.
pub mod Accepted
use zfw_dark.Common.{ℕ, Bool, true, false, List, [], ◌∷◌, ◌++◌, Option, none, if◌then◌else◌}
use zfw_dark.Common.Int.{ℤ, pos}
use zfw_dark.Common.Text.{Text, lit, is_empty}
use zfw_dark.Rules.Model.{Source, Ports, Rule}
use zfw_dark.Rules.Store.{new_id}

-- `Template`.
pub record Template : Type 0 where
  pub id : Text
  pub name : Text
  pub description : Text
  pub category : Text
  pub rules : List Rule

abbrev pub from_any : Source
from_any = record { type = lit "any"; value = [] }

unfoldable pub lan_source : Text → Source
lan_source lan = if is_empty lan then from_any else record { type = lit "range"; value = lan }

abbrev pub template : Text → Text → Text → Text → List Rule → Template
template id name description category rules = record {
  id = id;
  name = name;
  description = description;
  category = category;
  rules = rules;
}

-- The fields that the literals of the catalog set; the others are zero.
abbrev pub rule_with : Text → Text → Text → Source → Ports → Text → Text → Rule
rule_with id name action source ports protocol zone = record {
  id = id;
  order = pos 0;
  enabled = true;
  name = name;
  action = action;
  source = source;
  ports = ports;
  protocol = protocol;
  zone = zone;
  notes = [];
  schedule = none;
  log = false;
  rate_limit = none;
  direction = [];
  container_id = [];
}

module _ (random : ℕ → Option Text) where
  -- The literals that deny.
  unfoldable pub deny : ℕ → Text → Text → Ports → Rule
  deny n name protocol ports =
      rule_with (new_id (random n)) name (lit "deny") from_any ports protocol (lit "host")

  module _ (lan : Text) where
    -- The closure `allow`.
    unfoldable pub allow_lan : ℕ → Text → Text → List ℤ → Rule
    allow_lan n name protocol ports =
        rule_with (new_id (random n)) name (lit "allow") (lan_source lan)
          (record { type = lit "list"; list = ports; from = pos 0; to = pos 0 }) protocol
          (lit "auto")

    -- The first part of `Templates`.
    unfoldable pub security_templates : List Template
    unfolding deny
    security_templates =
        template (lit "block-vnc-consoles") (lit "Block VNC consoles (5900-5999)")
          (lit
            "Deny the full VNC TCP port range. ZimaOS VM consoles ship passwordless on 0.0.0.0 by default — this template closes that footgun on the LAN without enumerating 100 individual ports.")
          (lit "security")
          ((deny 0 (lit "Block VNC consoles") (lit "tcp")
              (record { type = lit "range"; list = []; from = pos 5900; to = pos 5999 }))
            ∷ [])
        ∷ template (lit "block-nfs-rpc") (lit "Block NFS / rpcbind (111, 2049, 20048)")
            (lit
              "Deny the NFS + rpcbind stack on both TCP and UDP. NFS exposes file shares without authentication and rpcbind on port 111 is a well-known reflection/amplification vector and information-disclosure source.")
            (lit "security")
            ((deny 1 (lit "Block NFS / rpcbind (TCP)") (lit "tcp") (record {
              type = lit "list";
              list = pos 111 ∷ pos 2049 ∷ pos 20048 ∷ [];
              from = pos 0;
              to = pos 0;
            }))
              ∷ (deny 2 (lit "Block NFS / rpcbind (UDP)") (lit "udp") (record {
                type = lit "list";
                list = pos 111 ∷ pos 2049 ∷ pos 20048 ∷ [];
                from = pos 0;
                to = pos 0;
              }))
              ∷ [])
        ∷ []

    -- The second part.
    unfoldable pub service_templates : List Template
    unfolding allow_lan
    service_templates =
        template (lit "allow-plex") (lit "Allow Plex Media Server (32400)")
          (lit
            "Allow Plex's TCP port from the LAN. Useful when Plex runs as a Docker app and the auto-detected starter set has not picked it up — e.g. because the container was stopped at install time.")
          (lit "service") ((allow_lan 3 (lit "Allow Plex") (lit "tcp") (pos 32400 ∷ [])) ∷ [])
        ∷ template (lit "allow-termina") (lit "Allow Termina / ttyd (7681)")
            (lit
              "Allow the ZimaOS Termina web-terminal app (ttyd) on its default port. ZimaOS ships this as a stock Mod-Store entry; the rule opens it from the LAN so the dashboard tile is reachable from your other devices.")
            (lit "service")
            ((allow_lan 4 (lit "Allow Termina / ttyd") (lit "tcp") (pos 7681 ∷ [])) ∷ [])
        ∷ template (lit "allow-portainer") (lit "Allow Portainer (9000, 9443)")
            (lit
              "Allow the Portainer container-management UI on both the HTTP (9000) and HTTPS (9443) defaults. Standard ZimaOS Mod-Store entry — drop this template in if you want to reach Portainer from anywhere on the LAN.")
            (lit "service")
            ((allow_lan 5 (lit "Allow Portainer") (lit "tcp") (pos 9000 ∷ pos 9443 ∷ [])) ∷ [])
        ∷ template (lit "allow-jellyfin") (lit "Allow Jellyfin (8096, 8920, 7359/udp, 1900/udp)")
            (lit
              "Allow Jellyfin Media Server's HTTP (8096), HTTPS (8920), client auto-discovery (7359/udp) and DLNA (1900/udp) ports from the LAN. Covers both a stock Docker install and the ZimaOS Mod-Store entry.")
            (lit "service")
            ((allow_lan 6 (lit "Allow Jellyfin (HTTP/HTTPS)") (lit "tcp")
                (pos 8096 ∷ pos 8920 ∷ []))
              ∷ (allow_lan 7 (lit "Allow Jellyfin (discovery)") (lit "udp")
                  (pos 7359 ∷ pos 1900 ∷ []))
              ∷ [])
        ∷ template (lit "allow-immich") (lit "Allow Immich (2283)")
            (lit
              "Allow the Immich self-hosted photo & video backup app on its default web port. Stock ZimaOS Mod-Store entry — pair with Immich's mobile-app backup if you want LAN devices to reach it without a tunnel.")
            (lit "service") ((allow_lan 8 (lit "Allow Immich") (lit "tcp") (pos 2283 ∷ [])) ∷ [])
        ∷ template (lit "allow-home-assistant") (lit "Allow Home Assistant (8123)")
            (lit
              "Allow Home Assistant's web UI on its default port from the LAN. Mod-Store staple — opens the dashboard to your phone / tablet on the same network without needing the HA Companion app via a tunnel.")
            (lit "service")
            ((allow_lan 9 (lit "Allow Home Assistant") (lit "tcp") (pos 8123 ∷ [])) ∷ [])
        ∷ template (lit "allow-adguard-home") (lit "Allow AdGuard Home (3000 + 53)")
            (lit
              "Allow AdGuard Home's initial-setup port (3000) and DNS (53 TCP+UDP) from the LAN so client devices can resolve through it. Skip port 80 — that conflicts with the ZimaOS gateway by default. Keep AdGuard's admin on 3000 or pick a different port and edit the rule.")
            (lit "service")
            ((allow_lan 10 (lit "Allow AdGuard (admin + DNS/TCP)") (lit "tcp")
                (pos 3000 ∷ pos 53 ∷ []))
              ∷ (allow_lan 11 (lit "Allow AdGuard (DNS/UDP)") (lit "udp") (pos 53 ∷ []))
              ∷ [])
        ∷ template (lit "allow-vaultwarden") (lit "Allow Vaultwarden (8222)")
            (lit
              "Allow the Vaultwarden self-hosted Bitwarden-compatible password manager on its conventional Docker-Compose port (8222). If you remapped the container, edit the rule's port list after adding.")
            (lit "service")
            ((allow_lan 12 (lit "Allow Vaultwarden") (lit "tcp") (pos 8222 ∷ [])) ∷ [])
        ∷ template (lit "allow-syncthing") (lit "Allow Syncthing (8384 + 22000 + 21027/udp)")
            (lit
              "Allow Syncthing's web UI (8384), peer-sync TCP (22000), QUIC (22000/udp) and discovery broadcasts (21027/udp). Required for both LAN-pairing and ongoing peer sync.")
            (lit "service")
            ((allow_lan 13 (lit "Allow Syncthing (UI + sync TCP)") (lit "tcp")
                (pos 8384 ∷ pos 22000 ∷ []))
              ∷ (allow_lan 14 (lit "Allow Syncthing (QUIC + discovery)") (lit "udp")
                  (pos 22000 ∷ pos 21027 ∷ []))
              ∷ [])
        ∷ template (lit "allow-nextcloud") (lit "Allow Nextcloud (8080)")
            (lit
              "Allow Nextcloud's web UI on the Docker-AIO default port (8080). If your install uses a different port (Apache image on 80, custom remap, etc.), edit the rule's port list after adding.")
            (lit "service")
            ((allow_lan 15 (lit "Allow Nextcloud") (lit "tcp") (pos 8080 ∷ [])) ∷ [])
        ∷ template (lit "allow-photoprism") (lit "Allow PhotoPrism (2342)")
            (lit
              "Allow the PhotoPrism AI-powered photo library on its default web port. Common ZimaOS Mod-Store entry.")
            (lit "service")
            ((allow_lan 16 (lit "Allow PhotoPrism") (lit "tcp") (pos 2342 ∷ [])) ∷ [])
        ∷ template (lit "allow-arr-stack")
            (lit "Allow *arr stack (Sonarr / Radarr / Lidarr / Readarr / Bazarr / Prowlarr)")
            (lit
              "Allow the full six-app media-management *arr stack on default ports: Sonarr 8989, Radarr 7878, Lidarr 8686, Readarr 8787, Bazarr 6767, Prowlarr 9696. One template add covers the canonical homelab automation suite — pair with qBittorrent / SABnzbd as the actual downloader.")
            (lit "service")
            ((allow_lan 17 (lit "Allow *arr stack") (lit "tcp")
                (pos 8989 ∷ pos 7878 ∷ pos 8686 ∷ pos 8787 ∷ pos 6767 ∷ pos 9696 ∷ []))
              ∷ [])
        ∷ template (lit "allow-qbittorrent") (lit "Allow qBittorrent (8080)")
            (lit
              "Allow the qBittorrent web UI on its canonical default port. NOTE: 8080 also defaults for Nextcloud AIO, Dozzle and OpenWebUI — if multiple of those run on the same host you'll need to remap one (qBittorrent supports `-c` or env-var override).")
            (lit "service")
            ((allow_lan 18 (lit "Allow qBittorrent") (lit "tcp") (pos 8080 ∷ [])) ∷ [])
        ∷ template (lit "allow-paperless-ngx") (lit "Allow Paperless-NGX (8000)")
            (lit
              "Allow the Paperless-NGX self-hosted document-management app on its default web port. Standard ZimaOS Mod-Store entry; pair with the consumer-folder watcher to scan-and-upload from your devices on the LAN.")
            (lit "service")
            ((allow_lan 19 (lit "Allow Paperless-NGX") (lit "tcp") (pos 8000 ∷ [])) ∷ [])
        ∷ template (lit "allow-mealie") (lit "Allow Mealie (9000)")
            (lit
              "Allow the Mealie self-hosted recipe-management app on its default web port. NOTE: 9000 also defaults for Portainer — if both apps run on the same host you'll need to remap one.")
            (lit "service") ((allow_lan 20 (lit "Allow Mealie") (lit "tcp") (pos 9000 ∷ [])) ∷ [])
        ∷ template (lit "allow-dozzle") (lit "Allow Dozzle (8080)")
            (lit
              "Allow the Dozzle live-Docker-log web UI on its default port. NOTE: 8080 conflicts with qBittorrent / Nextcloud AIO / OpenWebUI defaults — remap one of them if collocated; Dozzle accepts `--port` or `DOZZLE_BASE` to move.")
            (lit "service") ((allow_lan 21 (lit "Allow Dozzle") (lit "tcp") (pos 8080 ∷ [])) ∷ [])
        ∷ template (lit "allow-n8n") (lit "Allow n8n (5678)")
            (lit
              "Allow the n8n workflow-automation web UI on its default port. Typical ZimaOS Mod-Store entry — opens the editor from your other LAN devices without needing a tunnel.")
            (lit "service") ((allow_lan 22 (lit "Allow n8n") (lit "tcp") (pos 5678 ∷ [])) ∷ [])
        ∷ template (lit "allow-openwebui") (lit "Allow OpenWebUI (3000)")
            (lit
              "Allow the OpenWebUI (Ollama / LLM frontend) web UI on its canonical Docker-Compose default port (host:3000 → container:8080). NOTE: 3000 also defaults for AdGuard Home's initial setup — those scenarios are typically not concurrent, but remap if needed.")
            (lit "service")
            ((allow_lan 23 (lit "Allow OpenWebUI") (lit "tcp") (pos 3000 ∷ [])) ∷ [])
        ∷ []

    -- `Templates`.
    unfoldable pub templates : List Template
    unfolding security_templates service_templates
    templates = security_templates ++ service_templates
