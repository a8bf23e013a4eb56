-- ===== src/Firewall/Live.antt =====
-- `New` and `Status` of internal/firewall/firewall.go: the programs that a manager uses, and what the
-- commands of the host say of the live firewall.
use zfw_dark.Common.{ℕ, ◌+◌, Bool, ◌&&◌, List, [], ◌∷◌}
use zfw_dark.Common.{if◌then◌else◌}
use zfw_dark.Common.Scan.{has_prefix, has_text}
use zfw_dark.Common.Text.{Text, lit, ◌==◌, split, trim_space}
use zfw_dark.Firewall.Engine.{Host}

-- `Manager`.
pub record Manager : Type 0 where
  pub bin : Text
  pub conf : Text
  pub ipt_bin : Text
  pub ipt6 : Text

-- `pick` of `New`, by the programs that `LookPath` finds.
unfoldable pub prefer : (Text → Bool) → Text → Text → Text
prefer is_found legacy standard = if is_found legacy then legacy else standard

-- `New`.
unfoldable pub new_manager : (Text → Bool) → Text → Text → Manager
unfolding prefer
new_manager is_found bin conf = record {
  bin = bin;
  conf = conf;
  ipt_bin = prefer is_found (lit "iptables-legacy") (lit "iptables");
  ipt6 = prefer is_found (lit "ip6tables-legacy") (lit "ip6tables");
}

-- `Status`.
pub record Status : Type 0 where
  pub active : Bool
  pub hooked : Bool
  pub input_rules : ℕ
  pub docker_drops : ℕ
  pub ipv6_active : Bool
  pub deadman : Bool
  pub service_enabled : Bool

unfoldable pub count_lines : (Text → Bool) → List Text → ℕ
count_lines p [] = 0
count_lines p (l ∷ ls) = (if p l then 1 else 0) + count_lines p ls

module _ (host : Host) where
  -- `run(ctx, bin, "-S", chain)`.
  abbrev list_chain : Text → Text → host.State → host.State × (Text × Bool)
  list_chain bin chain s = host.run bin (lit "-S" ∷ chain ∷ []) s

  abbrev ask_systemctl : Text → Text → host.State → host.State × (Text × Bool)
  ask_systemctl verb name s = host.run (lit "systemctl") (verb ∷ name ∷ []) s

  -- `Status` of the manager with these programs for `iptBin` and `ipt6`.
  unfoldable pub status : Text → Text → host.State → host.State × Status
  status ipt_bin ipt6 s0 =
      let (s1, (rules, ruled)) = list_chain ipt_bin (lit "ZFW-IN") s0 in
      let (s2, (input, entered)) = list_chain ipt_bin (lit "INPUT") s1 in
      let (s3, (docker, docked)) = list_chain ipt_bin (lit "DOCKER-USER") s2 in
      let (s4, (rules6, ruled6)) = list_chain ipt6 (lit "ZFW-IN6") s3 in
      let (s5, (timer, _)) = ask_systemctl (lit "is-active") (lit "zfw-deadman.timer") s4 in
      let (s6, (unit, _)) = ask_systemctl (lit "is-enabled") (lit "zfw.service") s5 in
      (
        s6,
        record {
          active = ruled;
          hooked = entered && has_text (lit "-j ZFW-IN") input;
          input_rules =
              if ruled then count_lines (has_prefix (lit "-A ZFW-IN")) (split b'\n' rules) else 0;
          docker_drops =
              if docked
              then count_lines (has_text (lit "ctorigdstport")) (split b'\n' docker)
              else 0;
          ipv6_active = ruled6 && has_text (lit "-A ZFW-IN6") rules6;
          deadman = trim_space timer == lit "active";
          service_enabled = trim_space unit == lit "enabled";
        },
      )
