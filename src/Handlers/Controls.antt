-- ===== src/Handlers/Controls.antt =====
-- `commit`, `revert` and `peersPush` of internal/handlers/handlers.go.
use zfw_dark.Common.{
  ℕ, ◌+◌, Bool, true, false, List, [], ◌∷◌, Option, none, some, length, if◌then◌else◌,
}
use zfw_dark.Common.Result.{Result, ok, err}
use zfw_dark.Common.Text.{Text}
use zfw_dark.Firewall.Engine.{Host, EngineError, commit, revert}
use zfw_dark.Handlers.Daemon.{
  Daemon, post_required, no_rules, engine_failed, peers_unloaded, Answer, fail, committed, reverted,
  pushed, Webhook, firewall_committed, firewall_reverted, peers_pushed,
}
use zfw_dark.Handlers.Recompile.{Files}
use zfw_dark.Peers.{Peer, PushResult, Client, LoadError, push}
use zfw_dark.Rules.Model.{RuleSet}
use zfw_dark.Rules.Store.{StoreError, load}

module _ (host : Host) where
  unfoldable pub answer_engine :
      (Text → Answer)
      → Webhook
      → host.State × (Text × Option EngineError)
      → host.State × Answer × List Webhook
  answer_engine done event (h, (out, some e)) = (h, fail 500 engine_failed, [])
  answer_engine done event (h, (out, none)) = (h, done out, event ∷ [])

  -- `commit`, by the engine's path and the method.
  unfoldable pub commit_rules : Text → Bool → host.State → host.State × Answer × List Webhook
  unfolding answer_engine
  commit_rules bin is_post h =
      if is_post
      then answer_engine committed firewall_committed (commit host bin h)
      else (h, fail 405 post_required, [])

  -- `revert`.
  unfoldable pub revert_rules : Text → Bool → host.State → host.State × Answer × List Webhook
  unfolding answer_engine
  revert_rules bin is_post h =
      if is_post
      then answer_engine reverted firewall_reverted (revert host bin h)
      else (h, fail 405 post_required, [])

unfoldable pub count_ok : List PushResult → ℕ
count_ok [] = 0
count_ok (r ∷ rs) = (if r.is_ok then 1 else 0) + count_ok rs

unfoldable pub count_failed : List PushResult → ℕ
count_failed [] = 0
count_failed (r ∷ rs) = (if r.is_ok then 0 else 1) + count_failed rs

module _ (d : Daemon) (client : Client) (encode : RuleSet → Text) where
  -- The files, the peers, the answer, and the webhooks sent.
  abbrev pub Pushed : Type 0
  Pushed = Files d × client.State × Answer × List Webhook

  unfoldable pub answer_pushed : List Peer → Files d → client.State × List PushResult → Pushed
  unfolding count_ok count_failed
  answer_pushed ps s (c, results) = (
    s,
    c,
    pushed results,
    peers_pushed (length ps) (count_ok results) (count_failed results) ∷ [],
  )

  unfoldable pub push_loaded :
      List Peer → client.State → Files d × Result StoreError RuleSet → Pushed
  unfolding answer_pushed
  push_loaded ps c (s, err e) = (s, c, fail 400 no_rules, [])
  push_loaded ps c (s, ok rs) = answer_pushed ps s (push client ps (encode rs) c)

  unfoldable pub push_to : Result LoadError (List Peer) → client.State → Files d → Pushed
  unfolding push_loaded
  push_to (err e) c s = (s, c, fail 500 (peers_unloaded e), [])
  push_to (ok []) c s = (s, c, pushed [], [])
  push_to (ok (p ∷ ps)) c s =
      push_loaded (p ∷ ps) c (load d.fs d.json d.rules_path d.migrate_others s)

  -- `peersPush`, by the method and what `peers.Load` gives, none if no path is set. `encode` is
  -- `json.Marshal`, which accepts every rule set that it decoded.
  unfoldable pub peers_push :
      Bool → Option (Result LoadError (List Peer)) → client.State → Files d → Pushed
  unfolding push_to
  peers_push false peers c s = (s, c, fail 405 post_required, [])
  peers_push true none c s = (s, c, pushed [], [])
  peers_push true (some peers) c s = push_to peers c s
