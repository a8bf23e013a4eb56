-- ===== src/Handlers/Runs.antt =====
-- `apply` of internal/handlers/handlers.go: when the engine runs, and on which script.
use zfw_dark.Common.{Bool, true, false, List, Option, none, some, ◌≡◌, refl}
use zfw_dark.Common.Int.{ℤ}
use zfw_dark.Common.Result.{Result, ok, err}
use zfw_dark.Common.Text.{Text}
use zfw_dark.Compiler.Inert.Chains.{InertChains}
use zfw_dark.Firewall.Engine.{Host, EngineError, apply}
use zfw_dark.Handlers.Daemon.{Daemon, Inventory, PrefetchError, CompileError}
use zfw_dark.Handlers.Published.{
  Sound, rejected, torn, published, Recompiled, unread, checked, recompile_locked-Recompiled,
}
use zfw_dark.Handlers.Recompile.{Files, bind_rules, script_of, prefetch}
use zfw_dark.Handlers.Requests.{
  ApplyBody, malformed, empty, safe_is, Run, answer_applied, apply_compiled, apply_fetched,
  apply_rules,
}
use zfw_dark.Rules.Model.{RuleSet}
use zfw_dark.Rules.Store.{StoreError}
use zfw_dark.Rules.Validate.{validate}
use zfw_dark.System.Docker.{Container}

-- Whether a body asks for the dead-man's timer; a malformed one asks for no run.
pub data Asks : ApplyBody → Bool → Type 0 where
  by_default : Asks empty false
  by_flag : (safe : Bool) → Asks (safe_is safe) safe

-- The engine was left alone, or it ran once, on the script of a valid rule set.
pub data Engaged (d : Daemon) (host : Host) (bin : Text) (body : ApplyBody) (h : host.State)
    (out : Run d host) : Type 0 where
  idle : out.1 ≡ h → Engaged d host bin body h out
  ran :
      (safe : Bool) (rs : RuleSet) (cs : List Container) (ports : ℤ → Bool)
      → Asks body safe
      → validate d.std rs ≡ ok tt
      → d.fs.read_file d.compiled_path out.0 ≡ some (script_of d (bind_rules cs rs) ports)
      → InertChains d.std (bind_rules cs rs) ports d.extra_bypass
      → out.1 ≡ (apply host bin safe h).0
      → Engaged d host bin body h out

module _ (d : Daemon) (sound : Sound d) (host : Host) (bin : Text) (body : ApplyBody) (safe : Bool)
    (asks : Asks body safe) (h : host.State) where
  answer_applied-Engaged :
      (s : Files d) (o : host.State × (Text × Option EngineError)) (rs : RuleSet)
      (cs : List Container) (ports : ℤ → Bool)
      → apply host bin safe h ≡ o
      → validate d.std rs ≡ ok tt
      → d.fs.read_file d.compiled_path s ≡ some (script_of d (bind_rules cs rs) ports)
      → InertChains d.std (bind_rules cs rs) ports d.extra_bypass
      → Engaged d host bin body h (answer_applied d host safe s o)
  unfolding answer_applied
  answer_applied-Engaged s (g, (t, none)) rs cs ports e valid script inert =
      ran safe rs cs ports asks valid script inert (rw e refl)
  answer_applied-Engaged s (g, (t, some x)) rs cs ports e valid script inert =
      ran safe rs cs ports asks valid script inert (rw e refl)

  apply_compiled-Engaged :
      (cs : List Container) (ports : ℤ → Bool) (before : Files d)
      (loaded : Files d × Result StoreError RuleSet)
      (out : Files d × Result CompileError (Unit {0}))
      → Recompiled d sound cs ports loaded out
      → Engaged d host bin body h (apply_compiled d host bin safe before h out)
  unfolding apply_compiled
  apply_compiled-Engaged cs ports before loaded (s, err e) r = idle refl
  apply_compiled-Engaged cs ports before loaded (s, ok tt) (unread _ _ _ bad) = absurd (cc)
  apply_compiled-Engaged cs ports before loaded (s, ok tt) (checked rs _ (rejected _ _ bad)) =
      absurd (cc)
  apply_compiled-Engaged cs ports before loaded (s, ok tt) (checked rs _ (torn _ bad _)) =
      absurd (cc)
  apply_compiled-Engaged cs ports before loaded (s, ok tt)
        (checked rs _ (published valid _ script inert _)) =
      answer_applied-Engaged s (apply host bin safe h) rs cs ports refl valid script inert

  apply_fetched-Engaged :
      (fetched : Files d × Result PrefetchError (List Container × (ℤ → Bool)))
      → Engaged d host bin body h (apply_fetched d host bin safe h fetched)
  unfolding apply_fetched
  apply_fetched-Engaged (s, err e) = idle refl
  apply_fetched-Engaged (s, ok (cs, ports)) =
      apply_compiled-Engaged cs ports (d.meanwhile s) _ _
        (recompile_locked-Recompiled d sound cs ports (d.meanwhile s))

module _ (d : Daemon) (sound : Sound d) (host : Host) (bin : Text) where
  -- A request to apply either leaves the engine alone, or runs it as `Apply` does, with the timer
  -- exactly if the body asks for it and never for a malformed body, after the script in its place has
  -- become that of a rule set that Validate accepts, with inert lines only.
  pub apply_rules-Engaged :
      (is_post : Bool) (body : ApplyBody) (i : Inventory) (s : Files d) (h : host.State)
      → Engaged d host bin body h (apply_rules d host bin is_post body i s h)
  unfolding apply_rules
  apply_rules-Engaged false body i s h = idle refl
  apply_rules-Engaged true malformed i s h = idle refl
  apply_rules-Engaged true empty i s h =
      apply_fetched-Engaged d sound host bin empty false by_default h (prefetch d i none s)
  apply_rules-Engaged true (safe_is safe) i s h =
      apply_fetched-Engaged d sound host bin (safe_is safe) safe (by_flag safe) h
        (prefetch d i none s)
