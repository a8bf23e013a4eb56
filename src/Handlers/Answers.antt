-- ===== src/Handlers/Answers.antt =====
-- The answers of the handlers of internal/handlers/handlers.go and what the files are then.
use zfw_dark.Common.{Bool, List, [], ◌∷◌, Option, none, some, ◌≡◌, length}
use zfw_dark.Common.Int.{ℤ}
use zfw_dark.Common.Result.{Result, ok, err}
use zfw_dark.Common.Text.{Text}
use zfw_dark.Compiler.Inert.Chains.{InertChains}
use zfw_dark.Handlers.Bound.{Bound}
use zfw_dark.Handlers.Daemon.{
  Daemon, Inventory, PrefetchError, CompileError, prepare, unsaved, uncompiled, Answer, fail,
  Webhook, bad_json, invalid, saved, rules_saved,
}
use zfw_dark.Handlers.Published.{Sound}
use zfw_dark.Handlers.Recompile.{Files, script_of, prefetch}
use zfw_dark.Handlers.Requests.{Outcome}
use zfw_dark.Rules.Errors.{Error}
use zfw_dark.Rules.Model.{RuleSet}
use zfw_dark.Rules.Store.{StoreError, save, stamp}
use zfw_dark.Rules.Validate.{validate}
use zfw_dark.System.Docker.{Container}

module _ (d : Daemon) (done : Answer) (events : List Webhook) (rs : RuleSet) where
  abbrev pub given : RuleSet
  given = stamp d.random rs

  -- What an answer says of the files: `before` are those that the lock was taken on.
  pub data Saved (cs : List Container) (ports : ℤ → Bool) (before : Files d) (out : Outcome d)
      : Type 0 where
    not_saved :
        (e : StoreError)
        → out.1 ≡ fail 500 (unsaved e)
        → out.2 ≡ []
        → d.fs.read_file d.rules_path out.0 ≡ d.fs.read_file d.rules_path before
        → Saved cs ports before out
    not_compiled :
        (e : CompileError)
        → out.1 ≡ fail 500 (uncompiled e)
        → out.2 ≡ []
        → d.fs.read_file d.rules_path out.0 ≡ d.json.encode given
        → Saved cs ports before out
    stored :
        out.1 ≡ done
        → out.2 ≡ events
        → d.fs.read_file d.rules_path out.0 ≡ d.json.encode given
        → (compiled : RuleSet) → Bound cs given compiled
        → d.fs.read_file d.compiled_path out.0 ≡ some (script_of d compiled ports)
        → validate d.std given ≡ ok tt
        → InertChains d.std compiled ports d.extra_bypass
        → Saved cs ports before out

  pub data Stored (fetched : Files d × Result PrefetchError (List Container × (ℤ → Bool)))
      (out : Outcome d) : Type 0 where
    not_prepared :
        (e : PrefetchError)
        → fetched.1 ≡ err e
        → out ≡ (fetched.0, fail 500 (prepare e), [])
        → Stored fetched out
    prepared :
        (cs : List Container) (ports : ℤ → Bool)
        → fetched.1 ≡ ok (cs, ports)
        → Saved cs ports (d.meanwhile fetched.0) out
        → Stored fetched out

module _ (d : Daemon) (sound : Sound d) (done : Answer) (events : List Webhook) (rs : RuleSet) where
  module _
      (decodes : (b : Text)
        → d.json.encode (given d done events rs) ≡ some b
        → d.json.decode b ≡ some (given d done events rs))
      (cs : List Container) (ports : ℤ → Bool) (before : Files d) where
    abbrev SavedAs : Files d × Result StoreError (Unit {0}) → Type 0
    SavedAs w = save d.fs d.json d.random d.rules_path rs before ≡ w

-- What the POST of the rules answers for a body.
pub data Posted (d : Daemon) (i : Inventory) (s : Files d)
    : Option RuleSet → Outcome d → Type 0 where
  not_json : {out : Outcome d} → out ≡ (s, fail 400 bad_json, []) → Posted d i s none out
  not_valid :
      {rs : RuleSet} {out : Outcome d} (e : Error)
      → validate d.std rs ≡ err e
      → out ≡ (s, fail 400 (invalid e), [])
      → Posted d i s (some rs) out
  was_valid :
      {rs : RuleSet} {out : Outcome d}
      → validate d.std rs ≡ ok tt
      → Stored d saved (rules_saved (length rs.rules) ∷ []) rs (prefetch d i (some rs) s) out
      → Posted d i s (some rs) out
