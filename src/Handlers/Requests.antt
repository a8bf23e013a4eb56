-- ===== src/Handlers/Requests.antt =====
-- The handlers of internal/handlers/handlers.go that change the rules or apply them. A decoded body
-- is given, none for one that is not JSON.
use zfw_dark.Common.{
  Bool, true, false, not, ◌||◌, List, [], ◌∷◌, Option, none, some, length, drop, nat_eq,
  if◌then◌else◌,
}
use zfw_dark.Common.Int.{ℤ}
use zfw_dark.Common.Result.{Result, ok, err}
use zfw_dark.Common.Scan.{has_prefix}
use zfw_dark.Common.Text.{Text, lit, ◌==◌, is_empty}
use zfw_dark.Firewall.Engine.{Host, EngineError, apply}
use zfw_dark.Handlers.Daemon.{
  Daemon, Inventory, PrefetchError, geo_failed, CompileError, rules_unread, post_required,
  unconfirmed, bad_json, no_rules, peer_disabled, bad_token, invalid, defaults_invalid, prepare,
  unsaved, uncompiled, unapplied, Answer, fail, saved, received, defaulted, applied, Webhook,
  rules_saved, rules_defaulted, firewall_applied,
}
use zfw_dark.Handlers.Recompile.{Files, prefetch, recompile_locked, not_exist}
use zfw_dark.Rules.Errors.{Error}
use zfw_dark.Rules.Model.{RuleSet}
use zfw_dark.Rules.Starter.{defaults}
use zfw_dark.Rules.Store.{StoreError, load, save}
use zfw_dark.Rules.Validate.{validate}
use zfw_dark.System.{docker_ports}
use zfw_dark.System.Docker.{Container}

module _ (d : Daemon) where
  -- The files, the answer, and the webhooks sent.
  abbrev pub Outcome : Type 0
  Outcome = Files d × Answer × List Webhook

  unfoldable pub answer_compiled :
      Answer → List Webhook → Files d × Result CompileError (Unit {0}) → Outcome
  answer_compiled done events (s, err e) = (s, fail 500 (uncompiled e), [])
  answer_compiled done events (s, ok _) = (s, done, events)

  unfoldable pub compile_saved :
      Answer
      → List Webhook
      → List Container
      → (ℤ → Bool)
      → Files d × Result StoreError (Unit {0})
      → Outcome
  unfolding answer_compiled
  compile_saved done events cs ports (s, err e) = (s, fail 500 (unsaved e), [])
  compile_saved done events cs ports (s, ok _) =
      answer_compiled done events (recompile_locked d cs ports s)

  unfoldable pub save_fetched :
      Answer
      → List Webhook
      → RuleSet
      → Files d × Result PrefetchError (List Container × (ℤ → Bool))
      → Outcome
  unfolding compile_saved
  save_fetched done events rs (s, err e) = (s, fail 500 (prepare e), [])
  save_fetched done events rs (s, ok (cs, ports)) =
      compile_saved done events cs ports (save d.fs d.json d.random d.rules_path rs (d.meanwhile s))

  -- What the three handlers that save do once the rule set is valid.
  unfoldable pub store : Answer → List Webhook → Inventory → RuleSet → Files d → Outcome
  unfolding save_fetched
  store done events i rs s = save_fetched done events rs (prefetch d i (some rs) s)

  unfoldable pub store_valid :
      (Error → Answer)
      → Answer
      → List Webhook
      → Inventory
      → RuleSet
      → Result Error (Unit {0})
      → Files d
      → Outcome
  store_valid refuse done events i rs (err e) s = (s, refuse e, [])
  store_valid refuse done events i rs (ok _) s = store done events i rs s

  -- The POST of `rules`.
  unfoldable pub post_rules : Inventory → Option RuleSet → Files d → Outcome
  unfolding store_valid
  post_rules i none s = (s, fail 400 bad_json, [])
  post_rules i (some rs) s =
      store_valid (λ e. fail 400 (invalid e)) saved (rules_saved (length rs.rules) ∷ []) i rs
        (validate d.std rs) s

  unfoldable pub saved_lan :
      Text × Text → Files d × Result StoreError RuleSet → Files d × (Text × Text)
  saved_lan detected (s, err e) = (s, detected)
  saved_lan detected (s, ok rs) = (s, if is_empty rs.lan then detected else (rs.lan, rs.host_ip))

  unfoldable pub store_defaults : Inventory → Option Text → Files d × (Text × Text) → Outcome
  unfolding store_valid
  store_defaults i ss (s, (lan, host_ip)) =
      let rs = defaults d.random lan host_ip (docker_ports ss) in
      store_valid (λ e. fail 500 (defaults_invalid e)) (defaulted rs)
        (rules_defaulted (length rs.rules) ∷ []) i rs (validate d.std rs) s

  -- `rulesDefaults`, by the method, `confirm`, what `DetectLAN` gives, and the first output of `ss`.
  unfoldable pub rules_defaults :
      Bool → Text → Text × Text → Option Text → Inventory → Files d → Outcome
  unfolding store_defaults saved_lan
  rules_defaults is_post confirm detected ss i s =
      if not is_post
      then (s, fail 405 post_required, [])
      else if not (confirm == lit "1")
      then (s, fail 400 unconfirmed, [])
      else store_defaults i ss
          (saved_lan detected (load d.fs d.json d.rules_path d.migrate_others s))

  unfoldable pub receive_body : Inventory → Option RuleSet → Files d → Outcome
  unfolding store_valid
  receive_body i none s = (s, fail 400 bad_json, [])
  receive_body i (some rs) s =
      store_valid (λ e. fail 400 (invalid e)) received [] i rs (validate d.std rs) s

  -- `peersReceive`, by the method and the header Authorization.
  unfoldable pub peers_receive : Bool → Text → Inventory → Option RuleSet → Files d → Outcome
  unfolding receive_body
  peers_receive is_post auth i body s =
      let provided = drop (length (lit "Bearer ")) auth in
      if not is_post
      then (s, fail 405 post_required, [])
      else if is_empty d.peer_token
      then (s, fail 403 peer_disabled, [])
      else if not (has_prefix (lit "Bearer ") auth)
      then (s, fail 401 bad_token, [])
      else if not (nat_eq (length provided) (length d.peer_token)) || not (provided == d.peer_token)
      then (s, fail 401 bad_token, [])
      else receive_body i body s

-- The body of `apply`: an empty one leaves `safe` false.
pub data ApplyBody : Type 0 where
  malformed empty : ApplyBody
  safe_is : Bool → ApplyBody

module _ (d : Daemon) (host : Host) where
  -- The files and the host, the answer, and the webhooks sent.
  abbrev pub Run : Type 0
  Run = Files d × host.State × Answer × List Webhook

  unfoldable pub answer_applied : Bool → Files d → host.State × (Text × Option EngineError) → Run
  answer_applied safe s (h, (out, some e)) = (s, h, fail 500 (unapplied out), [])
  answer_applied safe s (h, (out, none)) = (s, h, applied out, firewall_applied safe ∷ [])

  unfoldable pub is_no_rules : CompileError → Files d → Bool
  is_no_rules (rules_unread e) s = not_exist d e s
  is_no_rules e s = false

  -- `before` are the files that `recompileLocked` found.
  unfoldable pub apply_compiled :
      Text → Bool → Files d → host.State → Files d × Result CompileError (Unit {0}) → Run
  unfolding answer_applied is_no_rules
  apply_compiled bin safe before h (s, err e) =
      (s, h, if is_no_rules e before then fail 400 no_rules else fail 500 (uncompiled e), [])
  apply_compiled bin safe before h (s, ok _) = answer_applied safe s (apply host bin safe h)

  unfoldable pub is_geo_missing : PrefetchError → Bool
  is_geo_missing (geo_failed e) = d.geo_missing e
  is_geo_missing e = false

  unfoldable pub apply_fetched :
      Text → Bool → host.State → Files d × Result PrefetchError (List Container × (ℤ → Bool)) → Run
  unfolding apply_compiled is_geo_missing
  apply_fetched bin safe h (s, err e) =
      (s, h, if is_geo_missing e then fail 400 no_rules else fail 500 (prepare e), [])
  apply_fetched bin safe h (s, ok (cs, ports)) =
      apply_compiled bin safe (d.meanwhile s) h (recompile_locked d cs ports (d.meanwhile s))

  -- `apply`, by the engine's path, the method and the body.
  unfoldable pub apply_rules : Text → Bool → ApplyBody → Inventory → Files d → host.State → Run
  unfolding apply_fetched
  apply_rules bin false body i s h = (s, h, fail 405 post_required, [])
  apply_rules bin true malformed i s h = (s, h, fail 400 bad_json, [])
  apply_rules bin true empty i s h = apply_fetched bin false h (prefetch d i none s)
  apply_rules bin true (safe_is safe) i s h = apply_fetched bin safe h (prefetch d i none s)
