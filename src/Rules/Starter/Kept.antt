-- ===== src/Rules/Starter/Kept.antt =====
-- The ports that `FromTiers` and `Defaults` of internal/rules keep open.
use mathlib.Core.List.{Perm}
use mathlib.Core.List.Perm
use zfw_dark.Common.{
  ℕ, ◌+◌, ◌≤◌, true, false, not, any, ◌⊎◌, suc, ◌&&◌, List, [], ◌∷◌, Option, ◌≡◌, refl, ap, inl,
  inr, flat_map, Bool-cases, if◌then◌else◌,
}
use zfw_dark.Common.Int.{ℤ, pos, ltb_ℤ, eq_ℤ}
use zfw_dark.Common.Text.{Text, lit, ◌==◌, is_digit, itoa}
use zfw_dark.Rules.Model.{Source, Rule}
use zfw_dark.Rules.Starter.{insert_int, sort_ints, allow_rule, app_rules, defaults}

-- The ports that a rule set allows by the lists of a zone and a protocol.
abbrev pub allowed_ports : Text → Text → List Rule → List ℤ
allowed_ports zone protocol = flat_map (λ r.
    if r.action == lit "allow" && r.enabled && r.zone == zone && r.protocol == protocol
    then r.ports.list
    else [])

-- The ports of a list of texts: their decimal texts are numbers, and a text that is empty or has another
-- byte than a digit is none.
pub data Numbers : List Text → List ℤ → Type 0 where
  no_more : Numbers [] []
  a_port :
      {ts : List Text} {ps : List ℤ} (n : ℕ)
      → n ≤ 65535
      → Numbers ts ps
      → Numbers (itoa (pos n) ∷ ts) (pos n ∷ ps)
  no_number :
      {ts : List Text} {ps : List ℤ} (t : Text)
      → (t ≡ []) ⊎ (any (λ c. not (is_digit c)) t ≡ true)
      → Numbers ts ps
      → Numbers (t ∷ ts) ps

-- The ports that are not among those that are dropped, in their order.
pub data Undropped (drop : List ℤ) : List ℤ → List ℤ → Type 0 where
  none_left : Undropped drop [] []
  stays :
      {ps qs : List ℤ} (p : ℤ)
      → any (eq_ℤ p) drop ≡ false
      → Undropped drop ps qs
      → Undropped drop (p ∷ ps) (p ∷ qs)
  goes :
      {ps qs : List ℤ} (p : ℤ)
      → any (eq_ℤ p) drop ≡ true
      → Undropped drop ps qs
      → Undropped drop (p ∷ ps) qs

allowed_ports-app_rules :
    (random : ℕ → Option Text) (source : Source) (order drawn : ℕ) (ps : List ℤ)
    → allowed_ports (lit "docker") (lit "tcp") (app_rules random source order drawn ps) ≡ ps
unfolding app_rules allow_rule lit ◌==◌
allowed_ports-app_rules random source order drawn [] = refl
allowed_ports-app_rules random source order drawn (p ∷ ps) =
    ap (◌∷◌ p) (allowed_ports-app_rules random source (order + 10) (suc drawn) ps)

no_host-app_rules :
    (random : ℕ → Option Text) (protocol : Text) (source : Source) (order drawn : ℕ) (ps : List ℤ)
    → allowed_ports (lit "host") protocol (app_rules random source order drawn ps) ≡ []
unfolding app_rules allow_rule lit ◌==◌
no_host-app_rules random protocol source order drawn [] = refl
no_host-app_rules random protocol source order drawn (p ∷ ps) =
    no_host-app_rules random protocol source (order + 10) (suc drawn) ps

insert_int-Perm : (p : ℤ) (ps : List ℤ) → Perm (insert_int p ps) (p ∷ ps)
unfolding insert_int
insert_int-Perm p [] = Perm.refl (p ∷ [])
insert_int-Perm p (q ∷ qs) = elim (Bool-cases (ltb_ℤ q p)) [
  | inl e ↦ rw e (Perm.trans (Perm.cons q (insert_int-Perm p qs)) (Perm.swap p q qs))
  | inr e ↦ rw e (Perm.refl (p ∷ q ∷ qs))
]

sort_ints-Perm : (ps : List ℤ) → Perm (sort_ints ps) ps
unfolding sort_ints
sort_ints-Perm [] = Perm.refl []
sort_ints-Perm (p ∷ ps) =
    Perm.trans (insert_int-Perm p (sort_ints ps)) (Perm.cons p (sort_ints-Perm ps))

-- The starter rules open the published ports of the containers, as often as they are given, and of the
-- host TCP 80, 443, 22, 139 and 445 and UDP 137, 138 and 5353 alone.
pub defaults-kept :
    (random : ℕ → Option Text) (lan host_ip : Text) (docker_ports : List ℤ)
    → Perm
        (allowed_ports (lit "docker") (lit "tcp") (defaults random lan host_ip docker_ports).rules)
        docker_ports
      × (allowed_ports (lit "host") (lit "tcp") (defaults random lan host_ip docker_ports).rules
          ≡ pos 80 ∷ pos 443 ∷ pos 22 ∷ pos 139 ∷ pos 445 ∷ [])
      × (allowed_ports (lit "host") (lit "udp") (defaults random lan host_ip docker_ports).rules
          ≡ pos 137 ∷ pos 138 ∷ pos 5353 ∷ [])
unfolding defaults allow_rule lit ◌==◌
defaults-kept random lan host_ip docker_ports =
    let source : Source = record { type = lit "range"; value = lan } in
    let apps = sort_ints docker_ports in
    (
      rw (allowed_ports-app_rules random source 60 5 apps) (sort_ints-Perm docker_ports),
      rw (no_host-app_rules random (lit "tcp") source 60 5 apps) refl,
      rw (no_host-app_rules random (lit "udp") source 60 5 apps) refl,
    )
