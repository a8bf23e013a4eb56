-- ===== src/Compiler/Lines/Family.antt =====
-- The two address families of the inbound lines of internal/compiler/compiler.go.
use zfw_dark.Common.{
  Bool, false, [], ◌≡◌, ◌≢◌, refl, inl, inr, arith, Bool-cases, Option-cases, Option, none, some,
}
use zfw_dark.Common.Int.{ℤ}
use zfw_dark.Common.Text.{Text, Std, lit, ==_iff}
use zfw_dark.Compiler.Args.{PortSpec, is_ipv6_source, source6_arg}
use zfw_dark.Compiler.Lines.{with_spec, host_spec_lines6, host_lines, host_lines6}
use zfw_dark.Rules.Model.{Source, Rule, is_outbound}

-- A source that is not left out of the IPv4 chains, and has an IPv6 fragment, is "any".
both_families-any :
    (s : Source) (src : Text)
    → is_ipv6_source s ≡ false
    → source6_arg s ≡ some src
    → s.type ≡ lit "any"
unfolding is_ipv6_source source6_arg
both_families-any s src v4 v6 = ground (arith, ==_iff s.type (lit "any"))

with_spec-none :
    (r : Rule) (std : Std) (o : Option PortSpec)
    → with_spec (λ ps. host_spec_lines6 std r ps none) o ≡ []
unfolding host_spec_lines6
with_spec-none r std none = refl
with_spec-none r std (some ps) = refl

-- A rule that writes lines both to the host's IPv4 chain and to its IPv6 chain has the source
-- "any".
pub host_lines-families :
    (std : Std) (r : Rule) (docker_ports : ℤ → Bool)
    → host_lines std r docker_ports ≢ []
    → host_lines6 std r docker_ports ≢ []
    → r.source.type ≡ lit "any"
unfolding host_lines host_lines6
host_lines-families std r docker_ports v4 v6 = elim (Bool-cases (is_outbound r)) [
  | inl out ↦ absurd (v4 (rw out refl))
  | inr inbound ↦ elim (Bool-cases (is_ipv6_source r.source)) [
    | inl e ↦ absurd (v4 (rw (inbound, e) refl))
    | inr e ↦ elim (Option-cases (source6_arg r.source)) [
      | inl n ↦ absurd (v6 (rw (inbound, n) (with_spec-none r std _)))
      | inr (src, p) ↦ both_families-any r.source src e p
    ]
  ]
]
