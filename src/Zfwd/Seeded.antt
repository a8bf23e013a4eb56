-- ===== src/Zfwd/Seeded.antt =====
-- The first start on a host without rules: `seedRulesIfMissing` of cmd/zfwd/main.go, and
-- `recompileLocked` of internal/handlers/handlers.go on what it leaves.
use zfw_dark.Common.{ℕ, Bool, true, false, List, some, ◌≡◌, ◌≢◌, refl, ap, ◌∙◌, subst}
use zfw_dark.Common.Int.{ℤ}
use zfw_dark.Common.Result.{Result, ok, err}
use zfw_dark.Common.Text.{Text}
use zfw_dark.Compiler.Inert.Chains.{InertChains}
use zfw_dark.Firewall.{TierConfig, ConfError}
use zfw_dark.Handlers.Daemon.{Daemon, CompileError, rules_invalid, script_unwritten}
use zfw_dark.Handlers.Published.{Sound, Checked, rejected, torn, published, compile_checked-Checked}
use zfw_dark.Handlers.Recompile.{
  Files, bind_rules, script_of, write_restore, compile_checked, compile_loaded, recompile_locked,
}
use zfw_dark.Rules.Errors.{Error}
use zfw_dark.Rules.Model.{RuleSet}
use zfw_dark.Rules.Starter.{defaults}
use zfw_dark.Rules.Starter.Accepted.{Fitting, defaults-accepted}
use zfw_dark.Rules.Store.{StoreError, save, stamp, load}
use zfw_dark.Rules.Store.Atomic.{AllOrNothing, replaced, kept, write_atomic-AllOrNothing}
use zfw_dark.Rules.Store.Ids.{Drawn}
use zfw_dark.Rules.Store.Reload.{load-save}
use zfw_dark.Rules.Validate.{validate}
use zfw_dark.System.Docker.{Container}
use zfw_dark.Zfwd.{seeded, seed_rules_if_missing}

module _ (d : Daemon) (given : RuleSet) (cs : List Container) (ports : ℤ → Bool) where
  -- What rules.json and the script are after the seed and after the compiler: the seed fails and
  -- leaves rules.json, or rules.json holds the rules, and the script is theirs or is not written.
  pub data Started (before : Files d) (seed : Files d × Result StoreError (Unit {0}))
      (out : Files d × Result CompileError (Unit {0})) : Type 0 where
    unseeded :
        (e : StoreError)
        → seed.1 ≡ err e
        → d.fs.read_file d.rules_path seed.0 ≡ d.fs.read_file d.rules_path before
        → Started before seed out
    unwritten :
        seed.1 ≡ ok tt
        → d.fs.read_file d.rules_path out.0 ≡ d.json.encode given
        → out.1 ≡ err script_unwritten
        → Started before seed out
    compiled :
        seed.1 ≡ ok tt
        → d.fs.read_file d.rules_path out.0 ≡ d.json.encode given
        → out.1 ≡ ok tt
        → d.fs.read_file d.compiled_path out.0 ≡ some (script_of d (bind_rules cs given) ports)
        → InertChains d.std (bind_rules cs given) ports d.extra_bypass
        → Started before seed out

module _ (d : Daemon) (sound : Sound d) (cs : List Container) (ports : ℤ → Bool) where
  written-not_invalid :
      (rs : RuleSet) (t : Files d) (wrote : Bool) (e : Error)
      → (write_restore d rs ports (t, wrote)).1 ≢ err (rules_invalid e)
  unfolding write_restore
  written-not_invalid rs t true e h = cc
  written-not_invalid rs t false e h = cc

  checked-Started :
      (given : RuleSet) (before s : Files d) (out : Files d × Result CompileError (Unit {0}))
      → ((e : Error) → out.1 ≢ err (rules_invalid e))
      → d.fs.read_file d.rules_path s ≡ d.json.encode given
      → Checked d sound cs ports given s out
      → Started d given cs ports before (s, ok tt) out
  checked-Started given before s out accepted found (rejected e _ bad) = absurd (accepted e bad)
  checked-Started given before s out accepted found (torn _ bad same) =
      unwritten refl (same d.rules_path sound.rules_apart ∙ found) bad
  checked-Started given before s out accepted found (published _ good script inert same) =
      compiled refl (same d.rules_path sound.rules_apart sound.rules_restore ∙ found) good script
        inert

  valid-Started :
      (given : RuleSet) (before s : Files d) (r : Result Error (Unit {0}))
      → validate d.std given ≡ r
      → r ≡ ok tt
      → d.fs.read_file d.rules_path s ≡ d.json.encode given
      → Started d given cs ports before (s, ok tt) (compile_checked d cs ports given r s)
  valid-Started given before s (err e) f bad found = absurd (cc)
  valid-Started given before s (ok tt) f valid found =
      checked-Started given before s (compile_checked d cs ports given (ok tt) s)
        (unfold compile_checked in written-not_invalid (bind_rules cs given) _ _) found
        (compile_checked-Checked d sound cs ports given (ok tt) s f)

  saved-Started :
      (rs : RuleSet) (before : Files d) (seed : Files d × Result StoreError (Unit {0}))
      → save d.fs d.json d.random d.rules_path rs before ≡ seed
      → ((b : Text)
          → d.json.encode (stamp d.random rs) ≡ some b
          → d.json.decode b ≡ some (stamp d.random rs))
      → validate d.std (stamp d.random rs) ≡ ok tt
      → AllOrNothing d.fs d.rules_path
          (d.fs.read_file d.rules_path before)
          (d.json.encode (stamp d.random rs))
          seed
      → Started d (stamp d.random rs) cs ports before seed (recompile_locked d cs ports seed.0)
  unfolding recompile_locked compile_loaded
  saved-Started rs before (s, err e) f decodes valid (replaced bad _) = absurd (cc)
  saved-Started rs before (s, err e) f decodes valid (kept _ _ same) = unseeded e refl same
  saved-Started rs before (s, ok tt) f decodes valid (kept e bad _) = absurd (cc)
  saved-Started rs before (s, ok tt) f decodes valid (replaced _ found) =
      let loaded : load d.fs d.json d.rules_path d.migrate_others s ≡ (s, ok (stamp d.random rs)) =
        subst
          (λ w. load d.fs d.json d.rules_path d.migrate_others w.0 ≡ (w.0, ok (stamp d.random rs)))
          f
          (load-save d.fs sound.files d.json d.random d.rules_path rs d.migrate_others before
            decodes (ap (λ o. o.1) f)) in
      rw loaded (valid-Started (stamp d.random rs) before s _ refl valid found)

  saved-AllOrNothing :
      (rs : RuleSet) (s : Files d)
      → AllOrNothing d.fs d.rules_path
          (d.fs.read_file d.rules_path s)
          (d.json.encode (stamp d.random rs))
          (save d.fs d.json d.random d.rules_path rs s)
  unfolding save
  saved-AllOrNothing rs s =
      write_atomic-AllOrNothing d.fs sound.files d.json d.rules_path (stamp d.random rs) s

  -- The first start of the daemon on a host with neither rules.json nor allowlist.conf: if the starter
  -- rules cannot be saved, rules.json is as it was. Otherwise rules.json holds them, Validate accepts
  -- them, so that the compiler does not refuse them, and the engine's script is theirs, every line of its
  -- chains inert, unless that file cannot be written. This takes what makes the starter rules valid, and
  -- that they decode to what is encoded of them.
  pub seed_rules_if_missing-Started :
      (drawn : (n : ℕ) → Drawn (d.random n)) (lan host_ip : Text) (docker_ports : List ℤ)
      (tier : TierConfig) (unread : ConfError) (s : Files d)
      → Fitting d.std d.random drawn lan host_ip docker_ports
      → ((b : Text)
          → d.json.encode (stamp d.random (defaults d.random lan host_ip docker_ports)) ≡ some b
          → d.json.decode b ≡ some (stamp d.random (defaults d.random lan host_ip docker_ports)))
      → Started d
          (stamp d.random (defaults d.random lan host_ip docker_ports))
          cs
          ports
          s
          (seed_rules_if_missing d true (lan, host_ip) docker_ports (tier, some unread) s)
          (recompile_locked d cs ports
            (seed_rules_if_missing d true (lan, host_ip) docker_ports (tier, some unread) s).0)
  unfolding seed_rules_if_missing seeded
  seed_rules_if_missing-Started drawn lan host_ip docker_ports tier unread s fitting decodes =
      let rs = defaults d.random lan host_ip docker_ports in
      saved-Started rs s (save d.fs d.json d.random d.rules_path rs s) refl decodes
        (defaults-accepted d.std d.random drawn lan host_ip docker_ports fitting).1
        (saved-AllOrNothing rs s)
