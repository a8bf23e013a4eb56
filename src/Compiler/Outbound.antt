-- ===== src/Compiler/Outbound.antt =====
-- The outbound lines of one rule: `outboundLines`, `outboundLines6` and `emitOutboundPortLines` of
-- internal/compiler/compiler.go, and which rules they are taken from.
use zfw_dark.Common.{Bool, not, ◌&&◌, ◌||◌, List, [], ◌∷◌, ◌++◌}
use zfw_dark.Common.{flat_map, any, if◌then◌else◌}
use zfw_dark.Common.Text.{Text, Std, lit, ◌==◌, quote, contains_byte}
use zfw_dark.Compiler.Args.{join_args, span, multiport, proto_list, schedule_arg, wrap_emit}
use zfw_dark.Compiler.Lines.{target_of}
use zfw_dark.Config.{set_name}
use zfw_dark.Rules.Checks.{split_countries}
use zfw_dark.Rules.Model.{Rule, is_outbound}

module _ (std : Std) where
  unfoldable pub outbound_port_lines : Rule → Text → Text → List Text
  outbound_port_lines r base target =
      if r.ports.type == lit "all"
      then (if r.protocol == lit "both"
          then wrap_emit std base r target
          else wrap_emit std (join_args (base ∷ lit "-p" ∷ r.protocol ∷ [])) r target)
      else if r.ports.type == lit "range"
      then flat_map
          (λ proto.
            wrap_emit std
              (join_args
                (base ∷ lit "-p" ∷ proto ∷ (lit "--dport " ++ span r.ports.from r.ports.to) ∷ []))
              r target)
          (proto_list r.protocol)
      else flat_map
          (λ proto.
            flat_map (λ pa. wrap_emit std (join_args (base ∷ lit "-p" ∷ proto ∷ pa ∷ [])) r target)
              (multiport r.ports.list))
          (proto_list r.protocol)

  abbrev pub country_match : Text → Text → Text
  country_match sch cc =
      join_args (lit "-m" ∷ lit "set" ∷ lit "--match-set" ∷ set_name std cc ∷ lit "dst" ∷ sch ∷ [])

  unfoldable pub outbound_lines : Rule → List Text
  outbound_lines r =
      let target = target_of r (lit "ACCEPT") in
      let sch = schedule_arg std r.schedule in
      if r.source.type == lit "any"
      then outbound_port_lines r (join_args ([] ∷ sch ∷ [])) target
      else if r.source.type == lit "ip" || r.source.type == lit "range"
      then outbound_port_lines r (join_args ((lit "-d " ++ quote std r.source.value) ∷ sch ∷ []))
          target
      else if r.source.type == lit "country"
      then flat_map (λ cc. outbound_port_lines r (country_match sch cc) target)
          (split_countries r.source.value)
      else []

  unfoldable pub outbound_lines6 : Rule → List Text
  outbound_lines6 r =
      let target = target_of r (lit "ACCEPT") in
      let sch = schedule_arg std r.schedule in
      if r.source.type == lit "any"
      then outbound_port_lines r (join_args ([] ∷ sch ∷ [])) target
      else if r.source.type == lit "ip" || r.source.type == lit "range"
      then (if not (contains_byte b':' r.source.value)
          then []
          else outbound_port_lines r
              (join_args ((lit "-d " ++ quote std r.source.value) ∷ sch ∷ [])) target)
      else []

-- The rules that the loops over the outbound chains do not skip.
unfoldable pub goes_out : Rule → Bool
goes_out r = r.enabled && is_outbound r

unfoldable pub from_host : Rule → Bool
from_host r = r.zone == lit "host" || r.zone == lit "auto"

unfoldable pub from_docker : Rule → Bool
from_docker r = r.zone == lit "docker" || r.zone == lit "auto"

-- `hasHostOut`, `hasDockerOut`: the loops of `emitOutboundChains` and of `outboundZones`.
unfoldable pub outbound_zones : List Rule → Bool × Bool
outbound_zones rl =
    (any (λ r. goes_out r && from_host r) rl, any (λ r. goes_out r && from_docker r) rl)

-- The lines of the rules for which a test holds, in their order.
unfoldable pub lines_where : (Rule → Bool) → (Rule → List Text) → List Rule → List Text
lines_where test f = flat_map (λ r. if test r then f r else [])
