-- ===== src/Compiler/Inert/Parts.antt =====
-- The bytes of the parts that the chains of internal/compiler share: interfaces, denials, defaults,
-- and the lines of the rules that a test lets through.
use zfw_dark.Common.{◌≡◌, refl, Bool, true, List, [], ◌∷◌, map, arith, all, and-parts}
use zfw_dark.Common.Int.{ℤ}
use zfw_dark.Common.Text.{Text, lit, ◌==◌}
use zfw_dark.Compiler.Chains.{
  return_line, in_default, in6_default, accept_iface, return_iface, v6_drop_line,
}
use zfw_dark.Compiler.Inert.Bytes.{
  Every, end, also, Every-append, Every-if, is_inert, Inert, AllInert, lit-Inert, itoa-Inert,
}
use zfw_dark.Compiler.Outbound.{lines_where}
use zfw_dark.Compiler.Sort.{insert_rule, sort_rules}
use zfw_dark.Config.{iface_bytes, is_safe_iface_name}
use zfw_dark.Rules.Model.{Rule}

pub lits-AllInert : (ls : List Text) → all (all is_inert) ls ≡ true → AllInert ls
lits-AllInert [] h = end
lits-AllInert (l ∷ ls) h =
    let (here, later) = and-parts _ _ h in also (lit-Inert l here) (lits-AllInert ls later)

pub iface_bytes-Inert : (s : Text) → iface_bytes s ≡ true → Inert s
unfolding iface_bytes is_inert
iface_bytes-Inert [] h = end
iface_bytes-Inert (c ∷ []) h = also (ground arith) end
iface_bytes-Inert (c ∷ d ∷ s) h = also (ground arith) (iface_bytes-Inert (d ∷ s) (ground arith))

abbrev pub SafeIface : Text → Type 0
SafeIface s = is_safe_iface_name s ≡ true

pub iface-Inert : (s : Text) → SafeIface s → Inert s
unfolding is_safe_iface_name
iface-Inert s h = iface_bytes-Inert s (unfold is_safe_iface_name in ground arith)

pub map-AllInert :
    {A : Type 0} {P : A → Type 0} {f : A → Text} {xs : List A}
    → ((x : A) → P x → Inert (f x))
    → Every P xs
    → AllInert (map f xs)
map-AllInert g end = end
map-AllInert g (also p h) = also (g _ p) (map-AllInert g h)

pub accept_iface-Inert : (s : Text) → SafeIface s → Inert (accept_iface s)
unfolding lit is_inert
accept_iface-Inert s h =
    Every-append (lit-Inert (lit "-i ") refl)
      (Every-append (iface-Inert s h) (Every-append (lit-Inert (lit " -j ACCEPT") refl) end))

pub return_iface-Inert : (s : Text) → SafeIface s → Inert (return_iface s)
unfolding lit is_inert
return_iface-Inert s h =
    Every-append (lit-Inert (lit "-i ") refl)
      (Every-append (iface-Inert s h) (Every-append (lit-Inert (lit " -j RETURN") refl) end))

pub v6_drop_line-Inert : (p : ℤ) → Inert (v6_drop_line p)
unfolding lit is_inert
v6_drop_line-Inert p =
    Every-append (lit-Inert (lit "-p tcp --dport ") refl)
      (Every-append (itoa-Inert p) (Every-append (lit-Inert (lit " -j DROP") refl) end))

pub v6_drops-AllInert : (ps : List ℤ) → AllInert (map v6_drop_line ps)
v6_drops-AllInert [] = end
v6_drops-AllInert (p ∷ ps) = also (v6_drop_line-Inert p) (v6_drops-AllInert ps)

pub Every-insert_rule :
    {P : Rule → Type 0} (r : Rule) {rs : List Rule} → P r → Every P rs → Every P (insert_rule r rs)
unfolding insert_rule
Every-insert_rule r p end = also p end
Every-insert_rule r p (also q h) = Every-if _ (also q (Every-insert_rule r p h)) (also p (also q h))

pub Every-sort_rules : {P : Rule → Type 0} {rs : List Rule} → Every P rs → Every P (sort_rules rs)
unfolding sort_rules
Every-sort_rules end = end
Every-sort_rules (also {x = r} p h) = Every-insert_rule r p (Every-sort_rules h)

pub lines_where-AllInert :
    {P : Rule → Type 0} (test : Rule → Bool) {f : Rule → List Text} {rl : List Rule}
    → ((r : Rule) → P r → AllInert (f r))
    → Every P rl
    → AllInert (lines_where test f rl)
unfolding lines_where
lines_where-AllInert test g end = end
lines_where-AllInert test g (also {x = r} p h) =
    Every-append (Every-if (test r) (g r p) end) (lines_where-AllInert test g h)

pub in_default-AllInert : (policy : Text) → AllInert (in_default policy)
unfolding lit is_inert
in_default-AllInert policy = Every-if (policy == lit "allow") (lits-AllInert return_line refl) (
    lits-AllInert
      (lit "-m conntrack --ctstate NEW -j LOG --log-prefix \"ZFW-IN-DROP \" --log-level 6"
        ∷ lit "-j DROP"
        ∷ [])
      refl)

pub in6_default-AllInert : (policy : Text) → AllInert (in6_default policy)
unfolding lit is_inert
in6_default-AllInert policy = Every-if (policy == lit "allow") (lits-AllInert return_line refl) (
    lits-AllInert
      (lit "-m conntrack --ctstate NEW -j LOG --log-prefix \"ZFW-IN6-DROP \" --log-level 6"
        ∷ lit "-j DROP"
        ∷ [])
      refl)
