-- ===== src/HandlersTests.antt =====
-- The theorems on internal/handlers applied to a daemon whose files are kept in a function and which
-- has one set of rules: port 9 for a container that publishes port 80.
use zfw_dark.Common.{true, false, [], ◌∷◌, none, some, ◌≡◌, refl, ap, arith, length}
use zfw_dark.Common.Int.{pos}
use zfw_dark.Common.Scan.{has_prefix}
use zfw_dark.Common.Text.{lit, ◌==◌}
use zfw_dark.FirewallTests.{one_script}
use zfw_dark.GeoTests.{single}
use zfw_dark.Handlers.Daemon.{Daemon, Inventory, saved, received, restore_path_for}
use zfw_dark.Handlers.Peers.{Received, peers_receive-Received}
use zfw_dark.Handlers.Published.{Sound}
use zfw_dark.Handlers.Recompile.{prefetch, country_codes, ensure_codes, recompile_locked}
use zfw_dark.Handlers.Requests.{post_rules, store, peers_receive, apply_rules, safe_is}
use zfw_dark.Handlers.Runs.{Engaged, apply_rules-Engaged}
use zfw_dark.Rules.Checks.{is_safe_rule_id, is_safe_container_id}
use zfw_dark.Rules.Migrate.{migrate}
use zfw_dark.Rules.Model.{Rule, RuleSet}
use zfw_dark.Rules.Store.{stamp, fill_ids, load, save, write_atomic}
use zfw_dark.Rules.Validate.{
  validate, validate_rules, validate_rule, validate_source, validate_ports, each,
}
use zfw_dark.StoreTests.{memory, memory_laws, no_files}
use zfw_dark.Tests.{plain_std, plain_laws}

abbrev bound_rule : Rule
bound_rule = record {
  id = lit "r1";
  order = pos 10;
  enabled = true;
  name = lit "web";
  action = lit "allow";
  source = record { type = lit "any"; value = [] };
  ports = record { type = lit "list"; list = pos 9 ∷ []; from = pos 0; to = pos 0 };
  protocol = lit "tcp";
  zone = lit "host";
  notes = [];
  schedule = none;
  log = false;
  rate_limit = none;
  direction = [];
  container_id = lit "web";
}

abbrev one_rule : RuleSet
one_rule = record {
  version = pos 3;
  lan = [];
  host_ip = [];
  default_policy = lit "deny";
  v6_drop = some [];
  rules = bound_rule ∷ [];
}

abbrev pub daemon : Daemon
daemon = record {
  std = plain_std;
  net = single;
  fs = memory;
  json = record { encode = λ rs. some (b'j' ∷ []); decode = λ b. some one_rule };
  paths = record { dir = λ p. []; base = λ p. p; ext = λ p. []; join = λ a b. b };
  rules_path = b'r' ∷ b's' ∷ [];
  compiled_path = b'c' ∷ [];
  geo_dir = b'g' ∷ [];
  peer_token = b't' ∷ [];
  extra_bypass = [];
  is_missing = λ p s. true;
  geo_missing = λ e. false;
  migrate_others = λ s. s;
  meanwhile = λ s. s;
  geo_dir_made = true;
  age = λ p s. none;
  download = λ cc s. none;
  visit = λ codes. codes;
  random = λ n. none;
}

abbrev inventory : Inventory
inventory = record { docker_ps = lit "5f0c\tweb\tnginx\t0.0.0.0:80->80/tcp"; ss = none }

pub daemon-Sound : Sound daemon
unfolding restore_path_for lit
daemon-Sound = record {
  files = memory_laws;
  addresses = plain_laws;
  ifaces = tt;
  restore_apart = λ e. let h = ap length e in omega arith;
  rules_apart = λ e. let h = ap length e in omega arith;
  rules_restore = λ e. let h = ap length e in omega arith;
}

rule-saved : (post_rules daemon inventory (some one_rule) no_files).1 ≡ saved
unfolding post_rules validate validate_rules validate_rule validate_source validate_ports each
    is_safe_rule_id is_safe_container_id store prefetch country_codes ensure_codes save write_atomic
    stamp fill_ids recompile_locked load migrate lit ◌==◌
rule-saved = refl

apply_rules-Engaged_example : Engaged daemon one_script (b'z' ∷ []) (safe_is true) 0 (
    apply_rules daemon one_script
      (b'z' ∷ [])
      true
      (safe_is true)
      inventory
      (post_rules daemon inventory (some one_rule) no_files).0
      0)
apply_rules-Engaged_example =
    apply_rules-Engaged daemon daemon-Sound one_script (b'z' ∷ []) true (safe_is true) inventory
      (post_rules daemon inventory (some one_rule) no_files).0 0

peers_receive-Received_example :
    Received daemon true
      (lit "Bearer t")
      inventory
      (some one_rule)
      no_files
      (peers_receive daemon true (lit "Bearer t") inventory (some one_rule) no_files)
peers_receive-Received_example =
    peers_receive-Received daemon (lit "Bearer t") inventory (some one_rule) no_files true

push-received :
    (peers_receive daemon true (lit "Bearer t") inventory (some one_rule) no_files).1 ≡ received
unfolding peers_receive has_prefix validate validate_rules validate_rule validate_source
    validate_ports each is_safe_rule_id is_safe_container_id store prefetch country_codes
    ensure_codes save write_atomic stamp fill_ids recompile_locked load migrate lit ◌==◌
push-received = refl
