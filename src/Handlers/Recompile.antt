-- ===== src/Handlers/Recompile.antt =====
-- `prefetchForCompile`, `recompileLocked` and `Recompile` of internal/handlers/handlers.go.
use zfw_dark.Common.{
  ℕ, Bool, true, false, ◌&&◌, List, [], ◌∷◌, Option, none, some, map, length, any, ltb, nat_eq,
  if◌then◌else◌,
}
use zfw_dark.Common.Int.{ℤ, pos}
use zfw_dark.Common.Result.{Result, ok, err}
use zfw_dark.Common.Text.{Text, lit, ◌==◌, is_empty, to_lower}
use zfw_dark.Compiler.Restore.{compile_restore_script}
use zfw_dark.Compiler.Script.{compile}
use zfw_dark.Compiler.Sort.{TextMap}
use zfw_dark.Geo.Ipset.{GeoError, ensure, ipset_path}
use zfw_dark.Handlers.Daemon.{
  Daemon, Inventory, PrefetchError, plan_unread, too_many_countries, geo_failed, CompileError,
  rules_unread, rules_invalid, script_unwritten, restore_path_for,
}
use zfw_dark.Rules.Checks.{split_countries}
use zfw_dark.Rules.Errors.{Error}
use zfw_dark.Rules.Model.{Rule, RuleSet}
use zfw_dark.Rules.Store.{StoreError, read_failed, load}
use zfw_dark.Rules.Validate.{validate}
use zfw_dark.System.{is_docker_port}
use zfw_dark.System.Docker.{Container, docker_containers}

abbrev pub max_geo_countries : ℕ
max_geo_countries = 40

-- `byID[…]` and `byName[…]` of a key that is not empty: the last container with it counts.
unfoldable pub find_ports : (Container → Text) → Text → List Container → Option (List ℤ)
find_ports key cid [] = none
find_ports key cid (c ∷ cs) = elim (find_ports key cid cs) [
  | some ports ↦ some ports
  | none ↦ if key c == cid then some c.ports else none
]

abbrev pub id_or_name : Option (List ℤ) → Option (List ℤ) → Option (List ℤ)
id_or_name none by_name = by_name
id_or_name (some ports) by_name = some ports

unfoldable pub bound_ports : Text → List Container → Option (List ℤ)
unfolding find_ports
bound_ports cid cs = id_or_name (find_ports (λ c. c.id) cid cs) (find_ports (λ c. c.name) cid cs)

unfoldable pub with_ports : Rule → Option (List ℤ) → Rule
with_ports r none = r
with_ports r (some []) = r
with_ports r (some (p ∷ ps)) = record r {
  ports = record { type = lit "list"; list = p ∷ ps; from = pos 0; to = pos 0 };
}

-- A rule that is bound to a container takes the ports that this publishes, if it publishes any.
unfoldable pub bind_rule : List Container → Rule → Rule
unfolding with_ports
bind_rule cs r = if is_empty r.container_id then r else with_ports r (bound_ports r.container_id cs)

unfoldable pub bind_rules : List Container → RuleSet → RuleSet
unfolding bind_rule
bind_rules cs rs = record rs { rules = map (bind_rule cs) rs.rules }

-- The zero value of a rule set.
abbrev pub no_rule_set : RuleSet
no_rule_set = record {
  version = pos 0;
  lan = [];
  host_ip = [];
  default_policy = [];
  v6_drop = none;
  rules = [];
}

module _ (d : Daemon) where
  abbrev pub Files : Type 0
  Files = d.fs.State

  unfoldable pub add_code : Text → List Text → List Text
  add_code cc codes = if any (λ c. c == cc) codes then codes else cc ∷ codes

  unfoldable pub add_codes : List Text → List Text → List Text
  unfolding add_code
  add_codes [] codes = codes
  add_codes (cc ∷ ccs) codes = add_codes ccs (add_code (to_lower d.std cc) codes)

  -- The keys of `ccSet`.
  unfoldable pub country_codes : List Rule → List Text → List Text
  unfolding add_codes
  country_codes [] codes = codes
  country_codes (r ∷ rs) codes = country_codes rs (
      if r.source.type == lit "country"
      then add_codes (split_countries r.source.value) codes
      else codes)

  unfoldable pub ensured :
      Inventory
      → Files × Option GeoError
      → Files × Result PrefetchError (List Container × (ℤ → Bool))
  ensured i (s, some e) = (s, err (geo_failed e))
  ensured i (s, none) = (s, ok (docker_containers i.docker_ps, is_docker_port i.ss))

  unfoldable pub ensure_codes :
      Inventory → List Text → Files → Files × Result PrefetchError (List Container × (ℤ → Bool))
  unfolding ensured
  ensure_codes i codes s =
      let fetched =
        ensured i
          (ensure d.std d.net d.fs d.geo_dir d.age d.download d.geo_dir_made (d.visit codes) s) in
      if ltb max_geo_countries (length codes)
      then (s, err (too_many_countries (length codes)))
      else if nat_eq (length codes) 0
      then (s, ok (docker_containers i.docker_ps, is_docker_port i.ss))
      else fetched

  abbrev is_read_failed : StoreError → Bool
  is_read_failed read_failed = true
  is_read_failed e = false

  -- `err != nil && !os.IsNotExist(err)`, for an error of `Load` on these files.
  unfoldable pub not_exist : StoreError → Files → Bool
  not_exist e s = is_read_failed e && d.is_missing d.rules_path s

  unfoldable pub plan :
      Inventory
      → Bool
      → Files × Result StoreError RuleSet
      → Files × Result PrefetchError (List Container × (ℤ → Bool))
  unfolding ensure_codes
  plan i missing (s, ok rs) = ensure_codes i (country_codes rs.rules []) s
  plan i true (s, err e) = ensure_codes i (country_codes no_rule_set.rules []) s
  plan i false (s, err e) = (s, err (plan_unread e))

  abbrev missing_of : Files → Files × Result StoreError RuleSet → Bool
  missing_of before (s, ok rs) = false
  missing_of before (s, err e) = not_exist e before

  -- `prefetchForCompile`.
  unfoldable pub prefetch :
      Inventory
      → Option RuleSet
      → Files
      → Files × Result PrefetchError (List Container × (ℤ → Bool))
  unfolding plan not_exist
  prefetch i (some rs) s = ensure_codes i (country_codes rs.rules []) s
  prefetch i none s =
      let loaded = load d.fs d.json d.rules_path d.migrate_others s in
      plan i (missing_of s loaded) loaded

  unfoldable pub add_file : Text → TextMap → TextMap
  add_file cc files =
      if any (λ f. f.0 == cc) files
      then files
      else (cc, ipset_path d.std d.net d.fs d.geo_dir cc) ∷ files

  unfoldable pub add_files : List Text → TextMap → TextMap
  unfolding add_file
  add_files [] files = files
  add_files (cc ∷ ccs) files = add_files ccs (add_file (to_lower d.std cc) files)

  -- `geoFiles`.
  unfoldable pub geo_files : List Rule → TextMap → TextMap
  unfolding add_files
  geo_files [] files = files
  geo_files (r ∷ rs) files = geo_files rs (
      if r.source.type == lit "country"
      then add_files (split_countries r.source.value) files
      else files)

  -- What the engine is given for a rule set.
  unfoldable pub script_of : RuleSet → (ℤ → Bool) → Text
  script_of rs ports = compile d.std rs ports (geo_files rs.rules []) d.extra_bypass

  unfoldable pub write_restore :
      RuleSet → (ℤ → Bool) → Files × Bool → Files × Result CompileError (Unit {0})
  write_restore rs ports (s, false) = (s, err script_unwritten)
  write_restore rs ports (s, true) = (
    (d.fs.write_file (restore_path_for d.paths d.compiled_path)
        (compile_restore_script d.std rs ports (geo_files rs.rules []) d.extra_bypass) s).0,
    ok tt,
  )

  unfoldable pub compile_checked :
      List Container
      → (ℤ → Bool)
      → RuleSet
      → Result Error (Unit {0})
      → Files
      → Files × Result CompileError (Unit {0})
  unfolding write_restore bind_rules
  compile_checked cs ports rs (err e) s = (s, err (rules_invalid e))
  compile_checked cs ports rs (ok _) s =
      let bound = bind_rules cs rs in
      write_restore bound ports (d.fs.write_file d.compiled_path (script_of bound ports) s)

  unfoldable pub compile_loaded :
      List Container
      → (ℤ → Bool)
      → Files × Result StoreError RuleSet
      → Files × Result CompileError (Unit {0})
  unfolding compile_checked
  compile_loaded cs ports (s, err e) = (s, err (rules_unread e))
  compile_loaded cs ports (s, ok rs) = compile_checked cs ports rs (validate d.std rs) s

  -- `recompileLocked`.
  unfoldable pub recompile_locked :
      List Container → (ℤ → Bool) → Files → Files × Result CompileError (Unit {0})
  unfolding compile_loaded
  recompile_locked cs ports s =
      compile_loaded cs ports (load d.fs d.json d.rules_path d.migrate_others s)

  unfoldable pub recompile_fetched :
      Files × Result PrefetchError (List Container × (ℤ → Bool))
      → Files × Result PrefetchError (Result CompileError (Unit {0}))
  recompile_fetched (s, err e) = (s, err e)
  recompile_fetched (s, ok (cs, ports)) =
      let (t, r) = recompile_locked cs ports (d.meanwhile s) in (t, ok r)

  -- `Recompile`.
  unfoldable pub recompile :
      Inventory → Files → Files × Result PrefetchError (Result CompileError (Unit {0}))
  unfolding recompile_fetched
  recompile i s = recompile_fetched (prefetch i none s)
