-- ===== src/SeedTests.antt =====
-- The first start of a small daemon on a host without rules.
use zfw_dark.Common.{
  ℕ, zero, suc, ◌+◌, ◌<◌, Bool, true, false, List, [], ◌∷◌, Option, none, some, ◌≡◌, ◌≢◌, refl, sym,
  ap, ◌∙◌, inl, inr, arith, length, ltb, drop, Bool-cases, if◌then◌else◌,
}
use zfw_dark.Common.Text.{Text, lit}
use zfw_dark.Firewall.{no_config, open_failed}
use zfw_dark.Handlers.Daemon.{Daemon, restore_path_for}
use zfw_dark.Handlers.Published.{Sound}
use zfw_dark.Handlers.Recompile.{recompile_locked}
use zfw_dark.HandlersTests.{daemon}
use zfw_dark.Rules.Model.{RuleSet}
use zfw_dark.Rules.Starter.{defaults}
use zfw_dark.Rules.Starter.Accepted.{Fitting}
use zfw_dark.Rules.Store.{new_id, stamp}
use zfw_dark.Rules.Store.Ids.{Drawn, failed, four}
use zfw_dark.StoreTests.{memory_laws, no_files}
use zfw_dark.Tests.{plain_std, plain_laws}
use zfw_dark.Zfwd.{seed_rules_if_missing}
use zfw_dark.Zfwd.Seeded.{Started, seed_rules_if_missing-Started}

-- Random bytes that count.
abbrev counting : ℕ → Option Text
counting n = if ltb n 256 then some (n ∷ 0 ∷ 0 ∷ 0 ∷ []) else none

counting-Drawn : (n : ℕ) → Drawn (counting n)
counting-Drawn n = elim (Bool-cases (ltb n 256)) [
  | inl e ↦ rw e (four (ground arith) (omega arith) (omega arith) (omega arith))
  | inr e ↦ rw e failed
]

counted_id : (n : ℕ) → n < 5 → new_id (counting n) ≡ b'r' ∷ b'0' ∷ (b'0' + n) ∷ lit "000000"
unfolding new_id lit
counted_id zero h = refl
counted_id (suc zero) h = refl
counted_id (suc (suc zero)) h = refl
counted_id (suc (suc (suc zero))) h = refl
counted_id (suc (suc (suc (suc zero)))) h = refl
counted_id (suc (suc (suc (suc (suc n))))) h = absurd (omega arith)

-- The third byte of an id.
abbrev third : Text → ℕ
third (a ∷ b ∷ c ∷ s) = c
third s = 0

counted-distinct : (m n : ℕ) → m < n → n < 5 → new_id (counting m) ≢ new_id (counting n)
counted-distinct m n less few same =
    let digits : b'0' + m ≡ b'0' + n =
      ap third (sym (counted_id m (omega arith)) ∙ same ∙ counted_id n few) in
    omega arith

counting-Fitting : Fitting plain_std counting counting-Drawn (lit "10.0.0.0/8") (lit "10.0.0.1") []
unfolding lit zfw_dark.Common.Text.contains_byte
counting-Fitting = record {
  net = refl;
  host = inr refl;
  are_ports = tt;
  few = omega arith;
  distinct = λ m n less few. counted-distinct m n less few;
}

abbrev starter : RuleSet
starter = defaults counting (lit "10.0.0.0/8") (lit "10.0.0.1") []

abbrev fresh_daemon : Daemon
fresh_daemon = record daemon {
  random = counting;
  json = record { encode = λ rs. some (b'j' ∷ []); decode = λ b. some (stamp counting starter) };
}

fresh_daemon-Sound : Sound fresh_daemon
unfolding restore_path_for lit
fresh_daemon-Sound = record {
  files = memory_laws;
  addresses = plain_laws;
  ifaces = tt;
  restore_apart = λ e. let h = ap length e in omega arith;
  rules_apart = λ e. let h = ap length e in omega arith;
  rules_restore = λ e. let h = ap length e in omega arith;
}

seed_rules_if_missing-Started_example :
    Started fresh_daemon
      (stamp counting starter)
      []
      (λ p. false)
      no_files
      (seed_rules_if_missing fresh_daemon true
        (lit "10.0.0.0/8", lit "10.0.0.1")
        []
        (no_config, some open_failed)
        no_files)
      (recompile_locked fresh_daemon []
        (λ p. false)
        (seed_rules_if_missing fresh_daemon true
          (lit "10.0.0.0/8", lit "10.0.0.1")
          []
          (no_config, some open_failed)
          no_files).0)
seed_rules_if_missing-Started_example =
    seed_rules_if_missing-Started fresh_daemon fresh_daemon-Sound [] (λ p. false) counting-Drawn
      (lit "10.0.0.0/8") (lit "10.0.0.1") [] no_config open_failed no_files counting-Fitting
      (λ b e. refl)
