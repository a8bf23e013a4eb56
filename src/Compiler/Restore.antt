-- ===== src/Compiler/Restore.antt =====
-- internal/compiler/compiler_restore.go: the documents for `iptables-restore --noflush`, and the
-- script that tests and swaps them in.
use zfw_dark.Common.{Bool, List, [], ◌∷◌, ◌++◌}
use zfw_dark.Common.{cat, flat_map, nat_eq, length, if◌then◌else◌}
use zfw_dark.Common.Int.{ℤ}
use zfw_dark.Common.Text.{Text, Std, lit}
use zfw_dark.Compiler.Chains.{
  zfw_in_rules, docker_user_rules, zfw_in6_rules, zfw_out_rules, zfw_out6_rules, zfw_fwd_out_rules,
}
use zfw_dark.Compiler.Outbound.{outbound_zones}
use zfw_dark.Compiler.Script.{geo_line}
use zfw_dark.Compiler.Sort.{TextMap, sort_rules, sort_texts, keys}
use zfw_dark.Rules.Model.{Rule, RuleSet}

-- `writeChain`.
unfoldable pub write_chain : Text → List Text → Text
write_chain chain = flat_map (λ a. cat (lit "-A " ∷ chain ∷ lit " " ∷ a ∷ lit "\n" ∷ []))

-- `for _, c := range chains`.
unfoldable pub declare_chains : List Text → Text
declare_chains = flat_map (λ c. cat (lit ":" ∷ c ∷ lit " - [0:0]\n" ∷ []))

pub record RestoreScript : Type 0 where
  pub v4 : Text
  pub v6 : Text

module _ (std : Std) where
  unfoldable pub restore_v4 : RuleSet → List Rule → (ℤ → Bool) → List Text → Text
  unfolding write_chain declare_chains
  restore_v4 rs rl docker_ports extra =
      let (has_host_out, has_docker_out) = outbound_zones rl in
      cat (
        lit "*filter\n"
        ∷ declare_chains (
            (lit "ZFW-IN" ∷ lit "DOCKER-USER" ∷ [])
            ++ ((if has_host_out then lit "ZFW-OUT" ∷ [] else [])
                ++ (if has_docker_out then lit "ZFW-FWD-OUT" ∷ [] else [])))
        ∷ write_chain (lit "ZFW-IN") (zfw_in_rules std rs rl docker_ports extra)
        ∷ write_chain (lit "DOCKER-USER") (docker_user_rules std rs rl docker_ports extra)
        ∷ (if has_host_out then write_chain (lit "ZFW-OUT") (zfw_out_rules std rl) else [])
        ∷ (if has_docker_out
            then write_chain (lit "ZFW-FWD-OUT") (zfw_fwd_out_rules std rl)
            else [])
        ∷ lit "COMMIT\n"
        ∷ [])

  unfoldable pub restore_v6 : RuleSet → List Rule → (ℤ → Bool) → List Text → Text
  unfolding write_chain declare_chains
  restore_v6 rs rl docker_ports extra =
      let (has_host_out, _) = outbound_zones rl in
      cat (
        lit "*filter\n"
        ∷ declare_chains
            ((lit "ZFW-IN6" ∷ []) ++ (if has_host_out then lit "ZFW-OUT6" ∷ [] else []))
        ∷ write_chain (lit "ZFW-IN6") (zfw_in6_rules std rs rl docker_ports extra)
        ∷ (if has_host_out then write_chain (lit "ZFW-OUT6") (zfw_out6_rules std rl) else [])
        ∷ lit "COMMIT\n"
        ∷ [])

  unfoldable pub compile_restore : RuleSet → (ℤ → Bool) → List Text → RestoreScript
  unfolding restore_v4 restore_v6
  compile_restore rs docker_ports extra =
      let rl = sort_rules rs.rules in
      record { v4 = restore_v4 rs rl docker_ports extra; v6 = restore_v6 rs rl docker_ports extra }

  unfoldable pub compile_restore_script : RuleSet → (ℤ → Bool) → TextMap → List Text → Text
  unfolding restore_v4 restore_v6 geo_line
  compile_restore_script rs docker_ports geo_files extra =
      let rl = sort_rules rs.rules in
      let (has_host_out, has_docker_out) = outbound_zones rl in
      cat (
        lit "#!/bin/bash\n"
        ∷ lit "# Generated by zfwd — DO NOT EDIT. Source of truth: rules.json\n"
        ∷ lit "# Atomic-apply variant (B4): ZFW chains are swapped via iptables-restore.\n"
        ∷ lit "set -eu\n"
        ∷ lit "IPT=\"$(command -v iptables-legacy 2>/dev/null || command -v iptables)\"\n"
        ∷ lit
            "IPTR=\"$(command -v iptables-legacy-restore 2>/dev/null || command -v iptables-restore)\"\n"
        ∷ lit
            "IPT6=\"$(command -v ip6tables-legacy 2>/dev/null || command -v ip6tables 2>/dev/null || true)\"\n"
        ∷ lit
            "IPT6R=\"$(command -v ip6tables-legacy-restore 2>/dev/null || command -v ip6tables-restore 2>/dev/null || true)\"\n"
        ∷ lit "modprobe xt_LOG nf_log_syslog xt_recent xt_time 2>/dev/null || true\n"
        ∷ (if nat_eq (length geo_files) 0
            then []
            else lit "modprobe ip_set ip_set_hash_net xt_set 2>/dev/null || true\n"
              ++ flat_map (geo_line std geo_files) (sort_texts (keys geo_files)))
        ∷ lit "\n# ===== IPv4 filter (atomic restore) =====\n"
        ∷ lit "T4=\"$(mktemp)\"\n"
        ∷ lit "cat > \"$T4\" <<'ZFW_RESTORE_V4'\n"
        ∷ restore_v4 rs rl docker_ports extra
        ∷ lit "ZFW_RESTORE_V4\n"
        ∷ lit "\"$IPTR\" --test --noflush \"$T4\"\n"
        ∷ lit "\"$IPTR\" --noflush \"$T4\"\n"
        ∷ lit "rm -f \"$T4\"\n"
        ∷ lit "\n# ===== IPv6 filter (atomic restore) =====\n"
        ∷ lit "if [ -n \"$IPT6R\" ]; then\n"
        ∷ lit "  T6=\"$(mktemp)\"\n"
        ∷ lit "  cat > \"$T6\" <<'ZFW_RESTORE_V6'\n"
        ∷ restore_v6 rs rl docker_ports extra
        ∷ lit "ZFW_RESTORE_V6\n"
        ∷ lit "  \"$IPT6R\" --test --noflush \"$T6\"\n"
        ∷ lit "  \"$IPT6R\" --noflush \"$T6\"\n"
        ∷ lit "  rm -f \"$T6\"\n"
        ∷ lit "fi\n"
        ∷ lit "\n# ===== chain jumps (idempotent) =====\n"
        ∷ lit "$IPT -C INPUT -j ZFW-IN 2>/dev/null || $IPT -I INPUT 1 -j ZFW-IN\n"
        ∷ lit
            "if [ -n \"$IPT6\" ]; then $IPT6 -C INPUT -j ZFW-IN6 2>/dev/null || $IPT6 -I INPUT 1 -j ZFW-IN6; fi\n"
        ∷ (if has_host_out
            then cat (
                lit "$IPT -C OUTPUT -j ZFW-OUT 2>/dev/null || $IPT -I OUTPUT 1 -j ZFW-OUT\n"
                ∷ lit
                    "if [ -n \"$IPT6\" ]; then $IPT6 -C OUTPUT -j ZFW-OUT6 2>/dev/null || $IPT6 -I OUTPUT 1 -j ZFW-OUT6; fi\n"
                ∷ [])
            else [])
        ∷ (if has_docker_out
            then lit
                "$IPT -C FORWARD -j ZFW-FWD-OUT 2>/dev/null || $IPT -I FORWARD 1 -j ZFW-FWD-OUT\n"
            else [])
        ∷ [])
