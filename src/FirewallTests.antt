-- ===== src/FirewallTests.antt =====
-- The theorems on internal/firewall applied to a small configuration, on files kept in a function,
-- and to a host whose one script is root's.
use zfw_dark.Common.{ℕ, suc, true, [], ◌∷◌, none, some, ◌≡◌, refl, arith, All}
use zfw_dark.Common.Files.{replace_file}
use zfw_dark.Common.Result.{ok}
use zfw_dark.Common.Text.{Text, lit, ◌==◌, atoi, join, contains_byte}
use zfw_dark.Firewall.{
  TierConfig, validate_config, conf_lines, check_sets, check_ports, save_config, load_config,
}
use zfw_dark.Firewall.Engine.{Host, Applied, apply, apply-Applied}
use zfw_dark.Firewall.RoundTrip.{load_config-save_config, Fits}
use zfw_dark.Firewall.Saved.{Saved, save_config-Saved}
use zfw_dark.StoreTests.{memory, memory_laws, no_files}
use zfw_dark.Tests.{plain_std, plain_laws}

abbrev small : TierConfig
small = record {
  lan = lit "192.168.1.0/24";
  host_ip = lit "192.168.1.2";
  host_tcp_lan = (b'2' ∷ b'2' ∷ []) ∷ (b'8' ∷ b'0' ∷ []) ∷ [];
  host_udp_lan = [];
  docker_drop_lan = (b'+' ∷ b'9' ∷ []) ∷ [];
  v6_drop = [];
}

abbrev conf_path : Text
conf_path = b'c' ∷ []

small-accepted : validate_config plain_std small ≡ ok tt
unfolding validate_config check_sets check_ports atoi lit ◌==◌ contains_byte
small-accepted = refl

save_config-Saved_example :
    Saved memory plain_std conf_path small no_files
      (save_config memory plain_std conf_path small no_files)
save_config-Saved_example = save_config-Saved memory memory_laws plain_std conf_path small no_files

small-Fits : All Fits (conf_lines small)
unfolding conf_lines lit join
small-Fits = (
  omega arith,
  (
    omega arith,
    (
      omega arith,
      (omega arith, (omega arith, (omega arith, (omega arith, (omega arith, (omega arith, tt)))))),
    ),
  ),
)

small-saved : (save_config memory plain_std conf_path small no_files).1 ≡ ok tt
unfolding save_config validate_config check_sets check_ports atoi lit ◌==◌ contains_byte
    replace_file
small-saved = refl

load_config-save_config_example :
    load_config memory conf_path (save_config memory plain_std conf_path small no_files).0
    ≡ (small, none)
load_config-save_config_example =
    load_config-save_config memory memory_laws plain_std plain_laws conf_path small no_files
      small-Fits small-saved

abbrev pub one_script : Host
one_script = record {
  State = ℕ;
  stat = λ p n. some (record { uid = some 0; perm = 493 });
  run = λ p args n. (suc n, ([], true));
}

apply-Applied_example : Applied one_script conf_path true 0 (apply one_script conf_path true 0)
apply-Applied_example = apply-Applied one_script conf_path true 0
