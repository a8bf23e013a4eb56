-- ===== src/Tests.antt =====
-- Small runs of the definitions, and the theorems applied to a rule set like those of the
-- repository's own tests. `plain_std` stands for the parts of the standard library that are
-- parameters: it takes every text of address bytes for an address.
use zfw_dark.Common.{
  Bool, true, false, not, ◌&&◌, [], ◌∷◌, Option, none, some, ◌≡◌, refl, map, ◌≢◌, ◌++◌, cat, All,
  all, all→All, arith, if◌then◌else◌,
}
use zfw_dark.Common.Int.{ℤ, pos, eq_ℤ}
use zfw_dark.Common.Result.{ok}
use zfw_dark.Common.Addresses.{is_address_byte, ParsesAddresses}
use zfw_dark.Common.Text.{
  Text, Std, Family, v4, v6, lit, ◌==◌, is_empty, contains_byte, split, trim_space, atoi, to_lower,
}
use zfw_dark.Compiler.Agreement.Whole.{
  compile-chains, host_block, docker_block, v6_block, host_out_block, docker_out_block,
}
use zfw_dark.Compiler.Args.{
  chunk_arg, multiport, port_args, proto_list, is_ipv6_source, source6_arg, source_args,
  schedule_arg, wrap_emit,
}
use zfw_dark.Compiler.Args.Multiport.{Chunked, multiport_chunks}
use zfw_dark.Compiler.Chains.{
  zfw_in_rules, docker_user_rules, zfw_in6_rules, zfw_out_rules, zfw_out6_rules, zfw_fwd_out_rules,
}
use zfw_dark.Compiler.Inert.Bytes.{AllInert}
use zfw_dark.Compiler.Inert.Chains.{chains-AllInert}
use zfw_dark.Compiler.Lines.{
  host_lines, host_lines6, host_spec_lines, host_spec_lines6, dport_lines, target_of,
}
use zfw_dark.Compiler.Script.{emit_header, emit_geo_sets, compile}
use zfw_dark.Compiler.Outbound.{outbound_zones}
use zfw_dark.Compiler.Sort.{sort_rules}
use zfw_dark.Compiler.Sort.Stable.{IsSorted, of_order, sort_rules_stable}
use zfw_dark.Compiler.Zones.{host, docker, ports_for_zone, whole}
use zfw_dark.Compiler.Zones.Partition.{listed_ports, ports_for_zone_partition}
use zfw_dark.Config.{is_safe_iface_name, parse_iface_list}
use zfw_dark.Config.Safe.{SafeName, parse_iface_list-SafeName}
use zfw_dark.Rules.Migrate.{migrate}
use zfw_dark.Rules.Migrate.Total.{migrate_total}
use zfw_dark.Rules.Valid.Rule.{ValidRuleSet, validate_iff}
use mathlib.Core.List.{Perm}
use zfw_dark.Rules.Model.{Rule, RuleSet, Schedule, is_outbound}
use zfw_dark.Rules.Checks.{
  is_safe_rule_id, is_safe_container_id, split_countries, is_alpha, is_hhmm,
}
use zfw_dark.Rules.Validate.{
  validate, validate_rules, validate_rule, validate_source, validate_schedule, validate_ports,
  validate_rate_limit, each, is_day,
}

abbrev plain_address : Text → Option Family
plain_address s =
    if not (is_empty s) && all is_address_byte s
    then (if contains_byte b':' s then some v6 else some v4)
    else none

abbrev pub plain_std : Std
plain_std = record {
  lower_unicode = λ s. s;
  quote_other = λ s. s;
  parse_ip = plain_address;
  parse_cidr = plain_address;
}

plain_address-bytes :
    (s : Text) (f : Family) → plain_address s ≡ some f → all is_address_byte s ≡ true
plain_address-bytes s f h = ground arith

pub plain_laws : ParsesAddresses plain_std
plain_laws = record {
  ip = λ s f h. all→All is_address_byte s (plain_address-bytes s f h);
  cidr = λ s f h. all→All is_address_byte s (plain_address-bytes s f h);
}

abbrev web : Rule
web = record {
  id = lit "r1";
  order = pos 20;
  enabled = true;
  name = lit "web";
  action = lit "allow";
  source = record { type = lit "range"; value = lit "192.168.1.0/24" };
  ports = record {
    type = lit "list";
    list = pos 80 ∷ pos 443 ∷ pos 8080 ∷ [];
    from = pos 0;
    to = pos 0;
  };
  protocol = lit "tcp";
  zone = lit "auto";
  notes = [];
  schedule = some (record { from = lit "08:00"; to = lit "22:00"; days = lit "mon" ∷ [] });
  log = true;
  rate_limit = some (record { conn = pos 10; seconds = pos 60 });
  direction = [];
  container_id = [];
}

abbrev ssh : Rule
ssh = record web {
  id = lit "r2";
  order = pos 10;
  name = lit "ssh";
  source = record { type = lit "any"; value = [] };
  ports = record { type = lit "range"; list = []; from = pos 22; to = pos 23 };
  zone = lit "host";
  schedule = none;
  rate_limit = none;
}

abbrev abroad : Rule
abroad = record ssh {
  id = lit "r3";
  action = lit "deny";
  source = record { type = lit "country"; value = lit "CN, RU" };
  zone = lit "auto";
  direction = lit "outbound";
}

abbrev home : RuleSet
home = record {
  version = pos 3;
  lan = lit "192.168.1.0/24";
  host_ip = lit "192.168.1.10";
  default_policy = lit "deny";
  v6_drop = some (pos 3389 ∷ []);
  rules = web ∷ ssh ∷ abroad ∷ [];
}

abbrev published_80 : ℤ → Bool
published_80 p = eq_ℤ p (pos 80)

home-accepted : validate plain_std home ≡ ok tt
unfolding validate validate_rules validate_rule validate_source validate_schedule validate_ports
    validate_rate_limit each is_day is_safe_rule_id is_safe_container_id split_countries is_alpha
    is_hhmm lit ◌==◌ contains_byte split trim_space atoi to_lower
home-accepted = refl

validate_iff_example : ValidRuleSet plain_std home
validate_iff_example = (validate_iff plain_std home).0 home-accepted

wg1-safe : is_safe_iface_name (lit "wg1+") ≡ true
unfolding is_safe_iface_name lit ◌==◌
wg1-safe = refl

chains-AllInert_example :
    AllInert (zfw_in_rules plain_std home (sort_rules home.rules) published_80 (lit "wg1+" ∷ []))
    × AllInert
        (docker_user_rules plain_std home (sort_rules home.rules) published_80 (lit "wg1+" ∷ []))
    × AllInert (zfw_in6_rules plain_std home (sort_rules home.rules) published_80 (lit "wg1+" ∷ []))
    × AllInert (zfw_out_rules plain_std (sort_rules home.rules))
    × AllInert (zfw_out6_rules plain_std (sort_rules home.rules))
    × AllInert (zfw_fwd_out_rules plain_std (sort_rules home.rules))
chains-AllInert_example =
    chains-AllInert plain_std plain_laws home published_80 (lit "wg1+" ∷ []) home-accepted
      (wg1-safe, tt)

compile-chains_example :
    compile plain_std home published_80 [] []
    ≡ cat (
        emit_header
        ∷ emit_geo_sets plain_std []
        ∷ host_block (zfw_in_rules plain_std home (sort_rules home.rules) published_80 [])
        ∷ docker_block (docker_user_rules plain_std home (sort_rules home.rules) published_80 [])
        ∷ v6_block (zfw_in6_rules plain_std home (sort_rules home.rules) published_80 [])
        ∷ (if (outbound_zones (sort_rules home.rules)).0
            then host_out_block
                (zfw_out_rules plain_std (sort_rules home.rules))
                (zfw_out6_rules plain_std (sort_rules home.rules))
            else [])
        ∷ (if (outbound_zones (sort_rules home.rules)).1
            then docker_out_block (zfw_fwd_out_rules plain_std (sort_rules home.rules))
            else [])
        ∷ [])
compile-chains_example = compile-chains plain_std home published_80 [] []

ports_for_zone_partition_example :
    Perm
      (listed_ports (ports_for_zone web published_80 host)
        ++ listed_ports (ports_for_zone web published_80 docker))
      (pos 80 ∷ pos 443 ∷ pos 8080 ∷ [])
    × All (λ p. published_80 p ≡ false) (listed_ports (ports_for_zone web published_80 host))
    × All (λ p. published_80 p ≡ true) (listed_ports (ports_for_zone web published_80 docker))
ports_for_zone_partition_example = ports_for_zone_partition web published_80 refl refl

sort_rules_stable_example :
    IsSorted (sort_rules (web ∷ ssh ∷ abroad ∷ []))
    × Perm (sort_rules (web ∷ ssh ∷ abroad ∷ [])) (web ∷ ssh ∷ abroad ∷ [])
    × ((k : ℤ)
        → of_order k (sort_rules (web ∷ ssh ∷ abroad ∷ [])) ≡ of_order k (web ∷ ssh ∷ abroad ∷ []))
sort_rules_stable_example = sort_rules_stable (web ∷ ssh ∷ abroad ∷ [])

multiport_chunks_example :
    (c : Chunked (pos 80 ∷ pos 443 ∷ [])) × (multiport (pos 80 ∷ pos 443 ∷ [])
      ≡ map chunk_arg c.chunks)
multiport_chunks_example = multiport_chunks (pos 80 ∷ pos 443 ∷ [])

ssh-v4 : host_lines plain_std ssh published_80 ≢ []
unfolding host_lines host_spec_lines dport_lines target_of source_args schedule_arg port_args
    proto_list wrap_emit ports_for_zone whole is_ipv6_source is_outbound lit ◌==◌
ssh-v4 = λ e. cc

ssh-v6 : host_lines6 plain_std ssh published_80 ≢ []
unfolding host_lines6 host_spec_lines6 dport_lines target_of source6_arg schedule_arg port_args
    proto_list wrap_emit ports_for_zone whole is_outbound lit ◌==◌
ssh-v6 = λ e. cc

migrate_total_example : migrate (record home { version = pos 1 }) ≡ ok (home, true)
migrate_total_example = migrate_total (record home { version = pos 1 })

parse_iface_list-SafeName_example : All SafeName (parse_iface_list (lit "wg1+, eth0; reboot"))
parse_iface_list-SafeName_example = parse_iface_list-SafeName (lit "wg1+, eth0; reboot")

web-accepted : validate_rule plain_std web ≡ ok tt
unfolding validate_rule validate_source validate_schedule validate_ports validate_rate_limit each
    is_day is_safe_rule_id is_safe_container_id split_countries is_alpha is_hhmm lit ◌==◌
    contains_byte split trim_space atoi to_lower
web-accepted = refl

web-ports : validate_ports web.ports ≡ ok tt
unfolding validate_ports each lit ◌==◌
web-ports = refl

web-source : validate_source plain_std web.source ≡ ok tt
unfolding validate_source lit ◌==◌ contains_byte
web-source = refl

abbrev evening : Schedule
evening = record { from = lit "18:00"; to = lit "23:59"; days = lit "fri" ∷ lit "Sat" ∷ [] }

evening-accepted : validate_schedule plain_std evening ≡ ok tt
unfolding validate_schedule each is_day is_hhmm lit ◌==◌ atoi to_lower
evening-accepted = refl

signs-accepted : is_hhmm (lit "+5:-0") ≡ true
unfolding is_hhmm lit atoi
signs-accepted = refl
