-- ===== src/GatewayTests.antt =====
-- The gateway's routes, the watchdog's units, the settings, and the requests that report.
use zfw_dark.Common.{true, false, [], ◌∷◌, All, inl, none, some, ◌≡◌, refl, sym, ap}
use zfw_dark.Common.Result.{ok}
use zfw_dark.Common.Scan.{has_prefix, trim_right, trim_left}
use zfw_dark.Common.Text.{Text, lit, ◌==◌, is_empty, trim_space, trim_front, space1, space2, space3}
use zfw_dark.Audit.{History, attach, update}
use zfw_dark.Audit.Catalog.{findings}
use zfw_dark.Audit.Stored.{
  HistoryJson, no_history, load_history, save_history, write_history, history_read, history_result,
}
use zfw_dark.Common.Files.{replace_file}
use zfw_dark.Config.{load_settings}
use zfw_dark.Firewall.{TierConfig}
use zfw_dark.Firewall.Live.{Status}
use zfw_dark.Gateway.{mgmt_url, retry_delays}
use zfw_dark.Handlers.Audits.{audit-Again}
use zfw_dark.Handlers.Reads.{audit, audited, answer_loaded, answer_updated, answer_saved}
use zfw_dark.StoreTests.{memory, memory_laws, no_files}
use zfw_dark.Tests.{plain_std}
use zfw_dark.Rules.Store.Ids.{failed}
use zfw_dark.Rules.Templates.{templates}
use zfw_dark.Rules.Templates.Accepted.{rules_of, templates-accepted}
use zfw_dark.Rules.Validate.{validate_rule}
use zfw_dark.Watchdog.{svc_unit, timer_unit, install, done}

url-read : mgmt_url (some (lit " 127.0.0.1:8080/\n")) ≡ ok (lit "http://127.0.0.1:8080")
unfolding mgmt_url lit has_prefix trim_right trim_left trim_space trim_front space1 space2 space3
url-read = refl

waits :
    retry_delays 2 (false ∷ false ∷ false ∷ false ∷ false ∷ false ∷ true ∷ [])
    ≡ 2 ∷ 4 ∷ 8 ∷ 16 ∷ 32 ∷ 32 ∷ []
unfolding retry_delays
waits = refl

units-installed : (install memory false (svc_unit ∷ timer_unit ∷ []) no_files).1 ≡ done true
unfolding install lit ◌==◌
units-installed = refl

port-default : (load_settings (λ k. [])).port ≡ lit "8489"
unfolding load_settings
port-default = refl

templates-accepted_example :
    All (λ r. validate_rule plain_std r ≡ ok tt) (rules_of (templates (λ n. none) []))
templates-accepted_example = templates-accepted plain_std (λ n. none) [] (λ n. failed) (inl refl)

-- A host whose firewall has no rules, and two requests a minute apart.
abbrev unfiltered : Status
unfiltered = record {
  active = false;
  hooked = false;
  input_rules = 0;
  docker_drops = 0;
  ipv6_active = false;
  deadman = false;
  service_enabled = false;
}

abbrev no_tiers : TierConfig
no_tiers = record {
  lan = [];
  host_ip = [];
  host_tcp_lan = [];
  host_udp_lan = [];
  docker_drop_lan = [];
  v6_drop = [];
}

abbrev first_seen : History
first_seen = (update (lit "2026-05-23T10:00:00Z") (findings unfiltered no_tiers) no_history).0

abbrev history_json : HistoryJson
history_json = record { encode = λ h. some []; decode = λ b. some first_seen }

abbrev history_path : Text
history_path = lit "/h"

path_named : is_empty history_path ≡ false
unfolding lit
path_named = refl

nothing-held :
    (h : History)
    → load_history memory history_json true history_path no_files ≡ ok h
    → (update (lit "2026-05-23T10:00:00Z") (findings unfiltered no_tiers) h).0 ≡ first_seen
unfolding load_history history_read
nothing-held h held =
    ap (λ k. (update (lit "2026-05-23T10:00:00Z") (findings unfiltered no_tiers) k).0)
      (let same : no_history ≡ h = cc in sym same)

first-said :
    (audit memory history_json
      (λ p s. true)
      history_path
      (lit "2026-05-23T10:00:00Z")
      unfiltered
      no_tiers
      no_files).1
    ≡ audited (attach (findings unfiltered no_tiers) first_seen)
unfolding audit answer_loaded answer_updated answer_saved load_history history_read save_history
    write_history history_result replace_file update lit findings zfw_dark.Audit.update_one
    zfw_dark.Audit.last_is
first-said = refl

audit-Again_example :
    audit memory history_json
      (λ p s. true)
      history_path
      (lit "2026-05-23T10:01:00Z")
      unfiltered
      no_tiers
      (audit memory history_json
        (λ p s. true)
        history_path
        (lit "2026-05-23T10:00:00Z")
        unfiltered
        no_tiers
        no_files).0
    ≡ (
      (audit memory history_json
          (λ p s. true)
          history_path
          (lit "2026-05-23T10:00:00Z")
          unfiltered
          no_tiers
          no_files).0,
      audited (attach (findings unfiltered no_tiers) first_seen),
    )
audit-Again_example =
    audit-Again memory memory_laws history_json (λ p s. true) history_path unfiltered no_tiers
      (lit "2026-05-23T10:01:00Z") path_named (lit "2026-05-23T10:00:00Z") no_files
      (λ h held b written. ap some (sym (nothing-held h held)))
      (attach (findings unfiltered no_tiers) first_seen) first-said
