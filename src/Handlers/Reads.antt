-- ===== src/Handlers/Reads.antt =====
-- The handlers of internal/handlers/handlers.go that report: `auditHandler`, `exposure`,
-- `rulesTemplates`, `rules` (GET), `peersList`, and the bounds of `events` and `geoLookup`.
use zfw_dark.Common.{
  Bool, true, false, not, ◌&&◌, List, [], Option, none, some, map, take, if◌then◌else◌,
}
use zfw_dark.Common.Files.{FileSystem}
use zfw_dark.Common.Int.{ℤ, pos, ltb_ℤ}
use zfw_dark.Common.Result.{Result, ok, err}
use zfw_dark.Common.Text.{Text, lit, ◌==◌, is_empty, split, itoa, atoi}
use zfw_dark.Audit.{Finding, FindingWithHistory, History, attach, update}
use zfw_dark.Audit.Catalog.{findings, contains}
use zfw_dark.Audit.Stored.{HistoryJson, HistoryError, no_history, load_history, save_history}
use zfw_dark.Firewall.{TierConfig}
use zfw_dark.Firewall.Live.{Status}
use zfw_dark.Handlers.Daemon.{Daemon}
use zfw_dark.Handlers.Recompile.{Files, no_rule_set, not_exist}
use zfw_dark.Rules.Model.{RuleSet}
use zfw_dark.Rules.Store.{StoreError, load}
use zfw_dark.Rules.Templates.{Template, templates}
use zfw_dark.System.{Socket, listening}

-- The answer of the audit: a failure, or the findings with their histories.
pub data AuditAnswer : Type 0 where
  unloaded unsaved : HistoryError → AuditAnswer
  audited : List FindingWithHistory → AuditAnswer

module _ (fs : FileSystem) (json : HistoryJson) where
  unfoldable pub answer_saved :
      List Finding → History → fs.State × Result HistoryError (Unit {0}) → fs.State × AuditAnswer
  answer_saved found h (s, err e) = (s, unsaved e)
  answer_saved found h (s, ok _) = (s, audited (attach found h))

  unfoldable pub answer_updated :
      Text → List Finding → History × Bool → fs.State → fs.State × AuditAnswer
  unfolding answer_saved
  answer_updated path found (h, true) s = answer_saved found h (save_history fs json path h s)
  answer_updated path found (h, false) s = (s, audited (attach found h))

  unfoldable pub answer_loaded :
      Text → Text → List Finding → Result HistoryError History → fs.State → fs.State × AuditAnswer
  unfolding answer_updated
  answer_loaded ts path found (err e) s = (s, unloaded e)
  answer_loaded ts path found (ok h) s = answer_updated path found (update ts found h) s

  -- `auditHandler` at a time, by the status and the configuration that it is given; `missing` is what
  -- `os.IsNotExist` says of a read that failed.
  unfoldable pub audit :
      (Text → fs.State → Bool)
      → Text
      → Text
      → Status
      → TierConfig
      → fs.State
      → fs.State × AuditAnswer
  unfolding answer_loaded
  audit missing path ts st cfg s =
      let found = findings st cfg in
      if is_empty path
      then (s, audited (attach found no_history))
      else answer_loaded ts path found (load_history fs json (missing path s) path s) s

-- Where a socket can be reached from, by `exposure`.
unfoldable pub reach_of : Status → TierConfig → Socket → Text
reach_of st cfg sk =
    if sk.is_local
    then lit "local"
    else if st.active && sk.proc == lit "docker-proxy"
    then (if contains cfg.docker_drop_lan (itoa sk.port) then lit "blocked" else lit "lan")
    else if st.active
    then (if contains cfg.host_tcp_lan (itoa sk.port) then lit "lan" else lit "blocked")
    else lit "lan"

-- `exposure`, by the output of `ss`; none is the failure.
unfoldable pub exposure : Status → TierConfig → Option Text → Option (List (Socket × Text))
unfolding reach_of
exposure st cfg out = elim (listening out) [
  | none ↦ none
  | some socks ↦ some (map (λ sk. (sk, reach_of st cfg sk)) socks)
]

-- The limit of `events` by the text of its parameter, 200 by default.
unfoldable pub limit_of : Option ℤ → ℤ
limit_of none = pos 200
limit_of (some n) = if ltb_ℤ (pos 0) n && not (ltb_ℤ (pos 5000) n) then n else pos 200

unfoldable pub events_limit : Text → ℤ
unfolding limit_of
events_limit v = if is_empty v then pos 200 else limit_of (atoi v)

-- The times of `events` in seconds: an hour ago, or the parameter, and at most a week ago.
unfoldable pub events_since : ℤ → Option ℤ → ℤ → ℤ
events_since hour_ago given week_ago =
    let since : ℤ = elim given [ none ↦ hour_ago | some t ↦ t ] in
    if ltb_ℤ since week_ago then week_ago else since

-- The addresses that `geoLookup` looks up.
unfoldable pub lookup_ips : Text → List Text
lookup_ips raw = if is_empty raw then [] else take 500 (split b',' raw)

module _ (d : Daemon) where
  -- What the GET of `rules` gives: a rule set, or the error of `Load`.
  unfoldable pub rules_read :
      Files d → Files d × Result StoreError RuleSet → Files d × Result StoreError RuleSet
  rules_read before (s, ok rs) = (s, ok rs)
  rules_read before (s, err e) = (
    s,
    if not_exist d e before then ok (record no_rule_set { default_policy = lit "deny" }) else err e,
  )

  unfoldable pub get_rules : Files d → Files d × Result StoreError RuleSet
  unfolding rules_read
  get_rules s = rules_read s (load d.fs d.json d.rules_path d.migrate_others s)

  unfoldable pub templates_for :
      Text → Files d × Result StoreError RuleSet → Files d × List Template
  templates_for detected (s, err e) = (s, templates d.random detected)
  templates_for detected (s, ok rs) =
      (s, templates d.random (if is_empty rs.lan then detected else rs.lan))

  -- `rulesTemplates`, by the network that `DetectLAN` gives.
  unfoldable pub rules_templates : Text → Files d → Files d × List Template
  unfolding templates_for
  rules_templates detected s =
      templates_for detected (load d.fs d.json d.rules_path d.migrate_others s)
