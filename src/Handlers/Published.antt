-- ===== src/Handlers/Published.antt =====
-- The script that `recompileLocked` of internal/handlers/handlers.go writes.
use zfw_dark.Common.{
  Bool, true, false, List, [], ◌∷◌, Option, none, some, map, ◌≡◌, ◌≢◌, refl, ◌∙◌, inl, inr, All,
  Bool-cases,
}
use zfw_dark.Common.Addresses.{ParsesAddresses}
use zfw_dark.Common.Files.{FileLaws}
use zfw_dark.Common.Int.{ℤ}
use zfw_dark.Common.Result.{Result, ok, err}
use zfw_dark.Common.Text.{Text, Std, is_empty}
use zfw_dark.Compiler.Inert.Chains.{InertChains, plain-InertChains}
use zfw_dark.Compiler.Inert.Parts.{SafeIface}
use zfw_dark.Compiler.Inert.Plain.{PlainRule, All-Plain}
use zfw_dark.Compiler.Restore.{compile_restore_script}
use zfw_dark.Handlers.Daemon.{
  Daemon, CompileError, rules_unread, rules_invalid, script_unwritten, restore_path_for,
}
use zfw_dark.Handlers.Recompile.{
  Files, with_ports, bound_ports, bind_rule, bind_rules, script_of, geo_files, write_restore,
  compile_checked, compile_loaded, recompile_locked,
}
use zfw_dark.Rules.Errors.{Error}
use zfw_dark.Rules.Model.{Rule, RuleSet}
use zfw_dark.Rules.Store.{StoreError, load}
use zfw_dark.Rules.Valid.Rule.{validate_iff}
use zfw_dark.Rules.Validate.{validate}
use zfw_dark.System.Docker.{Container}

-- What the theorems suppose of the packages that the daemon calls and of its paths: rules.json and
-- the two scripts are different files, and the extra interfaces are those that `parseIfaceList` lets
-- through.
pub record Sound (d : Daemon) : Type 0 where
  pub files : FileLaws d.fs
  pub addresses : ParsesAddresses d.std
  pub ifaces : All SafeIface d.extra_bypass
  pub restore_apart : d.compiled_path ≢ restore_path_for d.paths d.compiled_path
  pub rules_apart : d.rules_path ≢ d.compiled_path
  pub rules_restore : d.rules_path ≢ restore_path_for d.paths d.compiled_path

module _ (std : Std) (cs : List Container) where
  with_ports-Plain :
      (r : Rule) (o : Option (List ℤ)) → PlainRule std r → PlainRule std (with_ports r o)
  unfolding with_ports
  with_ports-Plain r none p = p
  with_ports-Plain r (some []) p = p
  with_ports-Plain r (some (n ∷ ns)) p = record {
    id = p.id;
    source = p.source;
    protocol = p.protocol;
    schedule = p.schedule;
  }

  bind_rule-Plain : (r : Rule) → PlainRule std r → PlainRule std (bind_rule cs r)
  unfolding bind_rule
  bind_rule-Plain r p = elim (Bool-cases (is_empty r.container_id)) [
    | inl e ↦ rw e p
    | inr e ↦ rw e (with_ports-Plain r (bound_ports r.container_id cs) p)
  ]

  bind_rule-All_Plain :
      (rs : List Rule) → All (PlainRule std) rs → All (PlainRule std) (map (bind_rule cs) rs)
  bind_rule-All_Plain [] h = tt
  bind_rule-All_Plain (r ∷ rs) (p, h) = (bind_rule-Plain r p, bind_rule-All_Plain rs h)

module _ (d : Daemon) (sound : Sound d) (cs : List Container) (ports : ℤ → Bool) where
  -- Whatever ports the containers publish.
  bound-InertChains :
      (rs : RuleSet)
      → validate d.std rs ≡ ok tt
      → InertChains d.std (bind_rules cs rs) ports d.extra_bypass
  unfolding bind_rules
  bound-InertChains rs accepted =
      let valid = (validate_iff d.std rs).0 accepted in
      plain-InertChains d.std sound.addresses (bind_rules cs rs) ports d.extra_bypass valid.host_ip
        valid.lan (bind_rule-All_Plain d.std cs rs.rules (All-Plain d.std rs.rules valid.rules))
        sound.ifaces

  -- The rule set is invalid and nothing is written, the script cannot be written, or it is the script
  -- of the rule set with the ports of the containers; no other file but the second script changes.
  pub data Checked (rs : RuleSet) (s : Files d) (out : Files d × Result CompileError (Unit {0}))
      : Type 0 where
    rejected : (e : Error) → out.0 ≡ s → out.1 ≡ err (rules_invalid e) → Checked rs s out
    torn :
        validate d.std rs ≡ ok tt
        → out.1 ≡ err script_unwritten
        → ((q : Text) → q ≢ d.compiled_path → d.fs.read_file q out.0 ≡ d.fs.read_file q s)
        → Checked rs s out
    published :
        validate d.std rs ≡ ok tt
        → out.1 ≡ ok tt
        → d.fs.read_file d.compiled_path out.0 ≡ some (script_of d (bind_rules cs rs) ports)
        → InertChains d.std (bind_rules cs rs) ports d.extra_bypass
        → ((q : Text)
            → q ≢ d.compiled_path
            → q ≢ restore_path_for d.paths d.compiled_path
            → d.fs.read_file q out.0 ≡ d.fs.read_file q s)
        → Checked rs s out

  write_restore-Checked :
      (rs : RuleSet) (s t : Files d) (wrote : Bool)
      → validate d.std rs ≡ ok tt
      → (wrote ≡ true
          → d.fs.read_file d.compiled_path t ≡ some (script_of d (bind_rules cs rs) ports))
      → ((q : Text) → q ≢ d.compiled_path → d.fs.read_file q t ≡ d.fs.read_file q s)
      → Checked rs s (write_restore d (bind_rules cs rs) ports (t, wrote))
  unfolding write_restore
  write_restore-Checked rs s t false valid new same = torn valid refl same
  write_restore-Checked rs s t true valid new same =
      let path = restore_path_for d.paths d.compiled_path in
      let text =
        compile_restore_script d.std (bind_rules cs rs) ports
          (geo_files d (bind_rules cs rs).rules []) d.extra_bypass in
      published valid refl
        (sound.files.write_other path d.compiled_path text t sound.restore_apart ∙ new refl)
        (bound-InertChains rs valid) (λ q h k. sound.files.write_other path q text t k ∙ same q h)

  pub compile_checked-Checked :
      (rs : RuleSet) (r : Result Error (Unit {0})) (s : Files d)
      → validate d.std rs ≡ r
      → Checked rs s (compile_checked d cs ports rs r s)
  unfolding compile_checked
  compile_checked-Checked rs (err e) s h = rejected e refl refl
  compile_checked-Checked rs (ok tt) s h =
      let text = script_of d (bind_rules cs rs) ports in
      write_restore-Checked rs s (d.fs.write_file d.compiled_path text s).0
        (d.fs.write_file d.compiled_path text s).1 h (sound.files.write_done d.compiled_path text s)
        (λ q k. sound.files.write_other d.compiled_path q text s k)

  -- The rule set of the file cannot be read, and no file changes but by `Load`, or it is compiled.
  pub data Recompiled (loaded : Files d × Result StoreError RuleSet)
      (out : Files d × Result CompileError (Unit {0})) : Type 0 where
    unread :
        (e : StoreError)
        → loaded.1 ≡ err e
        → out.0 ≡ loaded.0
        → out.1 ≡ err (rules_unread e)
        → Recompiled loaded out
    checked : (rs : RuleSet) → loaded.1 ≡ ok rs → Checked rs loaded.0 out → Recompiled loaded out

  compile_loaded-Recompiled :
      (loaded : Files d × Result StoreError RuleSet)
      → Recompiled loaded (compile_loaded d cs ports loaded)
  unfolding compile_loaded
  compile_loaded-Recompiled (s, err e) = unread e refl refl refl
  compile_loaded-Recompiled (s, ok rs) =
      checked rs refl (compile_checked-Checked rs (validate d.std rs) s refl)

  -- Whatever the files and the containers are, recompileLocked either ends in an error and leaves the
  -- engine's script as `Load` left it, or that script cannot be written, or it is the script of the
  -- rule set that `Load` gave, which Validate accepts, with the ports of the bound containers, and
  -- every line of its six chains is inert, also where a container publishes more ports than a rule may
  -- list.
  pub recompile_locked-Recompiled :
      (s : Files d)
      → Recompiled
          (load d.fs d.json d.rules_path d.migrate_others s)
          (recompile_locked d cs ports s)
  unfolding recompile_locked
  recompile_locked-Recompiled s =
      compile_loaded-Recompiled (load d.fs d.json d.rules_path d.migrate_others s)
