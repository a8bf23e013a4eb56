-- ===== src/Handlers/Daemon.antt =====
-- What `Server` of internal/handlers/handlers.go works with: its paths, its files, and the packages
-- that it calls.
use zfw_dark.Common.{ℕ, Bool, List, Option, ◌++◌, if◌then◌else◌}
use zfw_dark.Common.Files.{FileSystem}
use zfw_dark.Common.Text.{Text, Std, lit, is_empty}
use zfw_dark.Geo.{Networks, trim_suffix}
use zfw_dark.Geo.Ipset.{GeoError}
use zfw_dark.Peers.{LoadError, PushResult}
use zfw_dark.Rules.Errors.{Error}
use zfw_dark.Rules.Model.{RuleSet}
use zfw_dark.Rules.Store.{Json, StoreError}

-- Package path/filepath.
pub record Paths : Type 0 where
  pub dir : Text → Text
  pub base : Text → Text
  pub ext : Text → Text
  pub join : Text → Text → Text

-- `restorePathFor`.
unfoldable pub restore_path_for : Paths → Text → Text
restore_path_for paths compiled =
    let base = paths.base compiled in
    let ext = paths.ext base in
    paths.join (paths.dir compiled) (
      if is_empty ext
      then base ++ lit ".restore"
      else trim_suffix base ext ++ lit ".restore" ++ ext)

-- The daemon as one request finds it. `is_missing` is what `os.IsNotExist` says of a failed read and
-- `geo_missing` of an error of `Ensure`, `migrate_others` what other callers of `Load` do until one
-- holds its lock, `meanwhile` what other requests do until this one holds the server's, `visit` the
-- order in which a `range` visits the keys of a map.
pub record Daemon : Type 1 where
  pub std : Std
  pub net : Networks
  pub fs : FileSystem
  pub json : Json
  pub paths : Paths
  pub rules_path : Text
  pub compiled_path : Text
  pub geo_dir : Text
  pub peer_token : Text
  pub extra_bypass : List Text
  pub is_missing : Text → fs.State → Bool
  pub geo_missing : GeoError → Bool
  pub migrate_others : fs.State → fs.State
  pub meanwhile : fs.State → fs.State
  pub geo_dir_made : Bool
  pub age : Text → fs.State → Option ℕ
  pub download : Text → fs.State → Option Text
  pub visit : List Text → List Text
  pub random : ℕ → Option Text

-- What `docker ps` and `ss` print for one call of `prefetchForCompile`.
pub record Inventory : Type 0 where
  pub docker_ps : Text
  pub ss : Option Text

pub data PrefetchError : Type 0 where
  plan_unread : StoreError → PrefetchError
  too_many_countries : ℕ → PrefetchError
  geo_failed : GeoError → PrefetchError

pub data CompileError : Type 0 where
  rules_unread : StoreError → CompileError
  rules_invalid : Error → CompileError
  script_unwritten : CompileError

-- What a failure tells.
pub data Reason : Type 0 where
  post_required unconfirmed bad_json no_rules peer_disabled bad_token : Reason
  invalid defaults_invalid : Error → Reason
  prepare : PrefetchError → Reason
  unsaved : StoreError → Reason
  uncompiled : CompileError → Reason
  unapplied : Text → Reason
  engine_failed : Reason
  peers_unloaded : LoadError → Reason

-- `fail` with its status, or a body with the status 200.
pub data Answer : Type 0 where
  fail : ℕ → Reason → Answer
  saved received : Answer
  defaulted : RuleSet → Answer
  applied committed reverted : Text → Answer
  pushed : List PushResult → Answer

-- The webhooks that `emitEvent` sends.
pub data Webhook : Type 0 where
  rules_saved rules_defaulted : ℕ → Webhook
  firewall_applied : Bool → Webhook
  firewall_committed firewall_reverted : Webhook
  peers_pushed : ℕ → ℕ → ℕ → Webhook
