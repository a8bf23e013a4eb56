-- ===== src/Handlers/Views.antt =====
-- The small handlers of internal/handlers/handlers.go: `status`, `config`, `systemContainers`,
-- `conntrack`, `events`, `peersList`, `updateStatus`, `debugLevel`, and its `portsEqual`.
use zfw_dark.Common.{
  ℕ, Bool, true, false, not, ◌&&◌, List, [], ◌∷◌, Option, none, some, ◌≡◌, ◌↔◌, arith,
  if◌then◌else◌,
}
use zfw_dark.Common.Files.{FileSystem}
use zfw_dark.Common.Int.{ℤ, pos, eq_ℤ, eq_ℤ_iff}
use zfw_dark.Common.Result.{Result, ok, err}
use zfw_dark.Common.Text.{Text, Std, is_empty}
use zfw_dark.Conntrack.{Entry, read}
use zfw_dark.Events.{Event}
use zfw_dark.Firewall.{TierConfig, ConfError, no_config, save_config}
use zfw_dark.Firewall.Live.{Status}
use zfw_dark.Handlers.Reads.{events_since, events_limit}
use zfw_dark.Peers.{Peer, Public, LoadError, sanitize}
use zfw_dark.System.Docker.{Container, docker_containers}
use zfw_dark.Update.{Checker, new_checker}

-- `status`: the version, the firewall's status, and its configuration, empty if it is not read.
unfoldable pub status_view :
    Text → Status → TierConfig × Option ConfError → Text × Status × TierConfig
status_view version st (cfg, none) = (version, st, cfg)
status_view version st (cfg, some e) = (version, st, no_config)

-- The answers of `config`, with their statuses.
pub data ConfigAnswer : Type 0 where
  config_post_required config_bad_json config_saved : ConfigAnswer
  config_refused : ConfError → ConfigAnswer

unfoldable pub config_answer : Result ConfError (Unit {0}) → ConfigAnswer
config_answer (ok _) = config_saved
config_answer (err e) = config_refused e

module _ (std : Std) (fs : FileSystem) where
  unfoldable pub store_config : Text → Option TierConfig → fs.State → fs.State × ConfigAnswer
  unfolding config_answer
  store_config conf none s = (s, config_bad_json)
  store_config conf (some c) s = let (t, r) = save_config fs std conf c s in (t, config_answer r)

  -- `config`, by the method and the decoded body.
  unfoldable pub post_config : Bool → Text → Option TierConfig → fs.State → fs.State × ConfigAnswer
  unfolding store_config
  post_config is_post conf body s =
      if is_post then store_config conf body s else (s, config_post_required)

unfoldable pub shown : Option (List Entry) → List Entry
shown none = []
shown (some out) = out

-- `conntrack`: an error of `Read` is no connections.
unfoldable pub list_conntrack :
    Bool → (ℕ → Bool) → (ℕ → Bool) → Option Text → Option Text → Option (List Entry)
unfolding shown
list_conntrack is_get done_file done_tool file tool =
    if is_get then some (shown (read done_file done_tool (pos 500) file tool)) else none

-- `systemContainers`, by the output of `docker ps`; none is "GET required".
unfoldable pub system_containers : Bool → Text → Option (List Container)
system_containers is_get out = if is_get then some (docker_containers out) else none

pub data EventsAnswer : Type 0 where
  events_get_required events_unread : EventsAnswer
  events_listed : List Event → EventsAnswer

unfoldable pub events_answer : Option (List Event) → EventsAnswer
events_answer none = events_unread
events_answer (some es) = events_listed es

-- `events`, by the method, the parameters `since`, as a number, and `limit`, the time so many seconds
-- ago, and `Read`, by the start and the limit; none for its error.
unfoldable pub list_events :
    Bool → Option ℤ → Text → (ℕ → ℤ) → (ℤ → ℤ → Option (List Event)) → EventsAnswer
unfolding events_answer
list_events is_get since limit ago read =
    if is_get
    then events_answer (read (events_since (ago 3600) since (ago 604800)) (events_limit limit))
    else events_get_required

-- `updateStatus`, by the method, the version, and the checker, none for a nil one: the answer is the
-- `current` and the `last` of a checker. None is "GET required".
unfoldable pub update_status : Bool → Text → Option Checker → Option Checker
unfolding new_checker
update_status is_get version none = if is_get then some (new_checker version []) else none
update_status is_get version (some c) = if is_get then some c else none

pub data PeersAnswer : Type 0 where
  peers_get_required : PeersAnswer
  peers_unlisted : LoadError → PeersAnswer
  peers_listed : List Public → PeersAnswer

unfoldable pub peers_loaded : Result LoadError (List Peer) → PeersAnswer
peers_loaded (err e) = peers_unlisted e
peers_loaded (ok ps) = peers_listed (sanitize ps)

-- `peersList`, by the method, the path, and what `Load` gives.
unfoldable pub peers_list : Bool → Text → Result LoadError (List Peer) → PeersAnswer
unfolding peers_loaded
peers_list is_get path loaded =
    if not is_get
    then peers_get_required
    else if is_empty path
    then peers_listed []
    else peers_loaded loaded

-- `debugLevel`: whether the level is Debug, the answer's status and flag, and the webhook sent.
pub data DebugRequest : Type 0 where
  debug_get debug_malformed debug_other : DebugRequest
  debug_post : Bool → DebugRequest

pub data DebugAnswer : Type 0 where
  debug_fail : ℕ → DebugAnswer
  debug_is : Bool → DebugAnswer

unfoldable pub set_level : Bool → DebugRequest → Bool × DebugAnswer × Option Bool
set_level level debug_get = (level, debug_is level, none)
set_level level (debug_post enabled) = (enabled, debug_is enabled, some enabled)
set_level level debug_malformed = (level, debug_fail 400, none)
set_level level debug_other = (level, debug_fail 405, none)

-- By whether `SetLogLevel` was called.
unfoldable pub debug_level : Bool → Bool → DebugRequest → Bool × DebugAnswer × Option Bool
unfolding set_level
debug_level is_wired level r = if is_wired then set_level level r else (level, debug_fail 503, none)

-- `portsEqual`.
unfoldable pub ports_equal : List ℤ → List ℤ → Bool
ports_equal [] [] = true
ports_equal (x ∷ xs) (y ∷ ys) = eq_ℤ x y && ports_equal xs ys
ports_equal _ _ = false

-- It is the equality of the lists.
ports_equal_iff : (xs ys : List ℤ) → (ports_equal xs ys ≡ true) ↔ (xs ≡ ys)
unfolding ports_equal
ports_equal_iff [] [] = ground arith
ports_equal_iff [] (y ∷ ys) = ground arith
ports_equal_iff (x ∷ xs) [] = ground arith
ports_equal_iff (x ∷ xs) (y ∷ ys) =
    let (to, from) = eq_ℤ_iff x y in
    let (down, up) = ports_equal_iff xs ys in ground (arith, to, from, down, up)
