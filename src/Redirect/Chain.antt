-- ===== src/Redirect/Chain.antt =====
-- The redirects that a client with the callback of internal/httputil/redirect.go follows.
use zfw_dark.Common.{
  ℕ, suc, ◌≤◌, Bool, true, false, ◌&&◌, List, [], ◌∷◌, ◌++◌, Option, none, some, ◌≡◌, ◌≢◌, ◌↔◌,
  subst, refl, sym, ap, ◌∙◌, inl, inr, arith, Bool-cases, Option-cases, leb, length, length-append,
  append-nil, append_assoc, All,
}
use zfw_dark.Common.Text.{Text, lit, ◌==◌, ==_iff}
use zfw_dark.Redirect.{
  Address, Net, Url, Refusal, ip_is_public, all_public, name_is_public, host_is_public, next_check,
  public_check, check_redirect, too_many, downgrade,
}

abbrev pub go_on : Option Refusal → List Url → List Url → List Url
go_on none further via = further
go_on (some e) further via = via

-- The requests that the client makes: the callback is asked before each redirect, with what package
-- net says at that time, and the first that it refuses ends them.
unfoldable pub follow : ℕ → List Url → List (Net × Url) → List Url
follow max_hops via [] = via
follow max_hops via ((net, next) ∷ targets) =
    go_on (check_redirect net max_hops next via) (follow max_hops (via ++ next ∷ []) targets) via

-- An address in none of the ranges that package net names, and a host that stands for such ones only.
abbrev pub Outside : Address → Type 0
Outside a =
    (a.loopback ≡ false)
    × (a.private ≡ false)
    × (a.link_local ≡ false)
    × (a.link_local_multicast ≡ false)
    × (a.interface_local_multicast ≡ false)
    × (a.multicast ≡ false)
    × (a.unspecified ≡ false)

pub data Public (net : Net) (host : Text) : Type 0 where
  literal :
      host ≢ []
      → host ≢ lit "localhost"
      → (a : Address) → net.parse host ≡ some a
      → Outside a
      → Public net host
  resolved :
      host ≢ []
      → host ≢ lit "localhost"
      → net.parse host ≡ none
      → (found : List Address) → net.lookup host ≡ some found
      → found ≢ []
      → All Outside found
      → Public net host

Outside-iff : (a : Address) → (ip_is_public a ≡ true) ↔ Outside a
unfolding ip_is_public
Outside-iff a = ground arith

all_public_iff : (found : List Address) → (all_public found ≡ true) ↔ All Outside found
unfolding all_public
all_public_iff [] = (λ h. tt, λ h. refl)
all_public_iff (a ∷ rest) =
    let (to, from) = Outside-iff a in
    let (tos, froms) = all_public_iff rest in
    (λ h. (to (ground arith), tos (ground arith)), λ (here, rest). rw (from here, froms rest) refl)

name_is_public_iff :
    (net : Net) (host : Text) (o : Option Address) (found : Option (List Address))
    → host ≢ []
    → host ≢ lit "localhost"
    → net.parse host ≡ o
    → net.lookup host ≡ found
    → (name_is_public o found ≡ some true) ↔ Public net host
name_is_public_iff net host (some a) found named far parsed looked = (
  λ h.
      literal named far a parsed
        ((Outside-iff a).0 (let e : some (ip_is_public a) ≡ some true = h in cc)),
  λ p. elim p [
    | literal _ _ b there out ↦
        let same : some b ≡ some a = sym there ∙ parsed in
        let b_a : b ≡ a = cc in rw ((Outside-iff a).1 (subst Outside b_a out)) refl
    | resolved _ _ gone _ _ _ _ ↦ absurd (let bad : none ≡ some a = sym gone ∙ parsed in cc)
  ],
)
name_is_public_iff net host none none named far parsed looked = (
  λ h. absurd (cc),
  λ p. elim p [
    | literal _ _ b there _ ↦ absurd (let bad : some b ≡ none = sym there ∙ parsed in cc)
    | resolved _ _ _ found there _ _ ↦
        absurd (let bad : some found ≡ none = sym there ∙ looked in cc)
  ],
)
name_is_public_iff net host none (some []) named far parsed looked = (
  λ h. absurd (cc),
  λ p. elim p [
    | literal _ _ b there _ ↦ absurd (let bad : some b ≡ none = sym there ∙ parsed in cc)
    | resolved _ _ _ found there more _ ↦
        absurd (more (let same : some found ≡ some [] = sym there ∙ looked in cc))
  ],
)
name_is_public_iff net host none (some (a ∷ rest)) named far parsed looked = (
  λ h.
      resolved named far parsed (a ∷ rest) looked (λ e. cc)
        ((all_public_iff (a ∷ rest)).0
          (let e : some (all_public (a ∷ rest)) ≡ some true = h in cc)),
  λ p. elim p [
    | literal _ _ b there _ ↦ absurd (let bad : some b ≡ none = sym there ∙ parsed in cc)
    | resolved _ _ _ found there _ out ↦
        let same : some found ≡ some (a ∷ rest) = sym there ∙ looked in
        let as_all : found ≡ a ∷ rest = cc in
        rw ((all_public_iff (a ∷ rest)).1 (subst (All Outside) as_all out)) refl
  ],
)

-- The checks of `hostIsPublic` tell the public hosts.
host_is_public_iff :
    (net : Net) (host : Text) → (host_is_public net host ≡ some true) ↔ Public net host
unfolding host_is_public
host_is_public_iff net [] = (
  λ h. absurd (cc),
  λ p. elim p [
    | literal named _ _ _ _ ↦ absurd (named refl)
    | resolved named _ _ _ _ _ _ ↦ absurd (named refl)
  ],
)
host_is_public_iff net (c ∷ s) = elim (Bool-cases (c ∷ s == lit "localhost")) [
  | inl e ↦ (
    λ h. absurd (let bad : some false ≡ some true = rw e at h in cc),
    λ p. elim p [
      | literal _ far _ _ _ ↦ absurd (far ((==_iff (c ∷ s) (lit "localhost")).0 e))
      | resolved _ far _ _ _ _ _ ↦ absurd (far ((==_iff (c ∷ s) (lit "localhost")).0 e))
    ],
  )
  | inr e ↦
      let (to, from) =
        name_is_public_iff net (c ∷ s) (net.parse (c ∷ s)) (net.lookup (c ∷ s)) (λ k. cc)
          (λ k. absurd (let bad = (==_iff (c ∷ s) (lit "localhost")).1 k in cc)) refl refl in
      (λ h. to (rw e at h), λ p. rw e (from p))
]

-- A redirect that neither gives up TLS nor leads from a public original to a host that is not public.
abbrev pub Safe : Url → Net × Url → Type 0
Safe orig (net, next) =
    (orig.scheme ≡ lit "https" → next.scheme ≢ lit "http")
    × (Public net orig.host → Public net next.host)

next_check-public : (o : Option Bool) → next_check o ≡ none → o ≡ some true
next_check-public none h = cc
next_check-public (some true) h = refl
next_check-public (some false) h = cc

public_check-public : (o n : Option Bool) → public_check o n ≡ none → o ≡ some true → n ≡ some true
public_check-public none n h k = cc
public_check-public (some true) n h k = next_check-public n h
public_check-public (some false) n h k = let bad : some false ≡ some true = k in cc

both_schemes :
    (orig next : Url)
    → (orig.scheme == lit "https" && next.scheme == lit "http") ≡ false
    → orig.scheme ≡ lit "https"
    → next.scheme ≢ lit "http"
both_schemes orig next h a b =
    let first = (==_iff orig.scheme (lit "https")).1 a in
    let last = (==_iff next.scheme (lit "http")).1 b in ground arith

check_redirect-Safe :
    (net : Net) (max_hops : ℕ) (next orig : Url) (via : List Url)
    → check_redirect net max_hops next (orig ∷ via) ≡ none
    → (suc (suc (length via)) ≤ max_hops) × Safe orig (net, next)
unfolding check_redirect
check_redirect-Safe net max_hops next orig via h =
    elim (Bool-cases (leb max_hops (suc (length via)))) [
      | inl e ↦ let bad : some too_many ≡ none = rw e at h in cc
      | inr few ↦ elim (Bool-cases (orig.scheme == lit "https" && next.scheme == lit "http")) [
        | inl e ↦ let bad : some downgrade ≡ none = rw (few, e) at h in cc
        | inr e ↦ (
          ground arith,
          (
            both_schemes orig next e,
            λ p. (host_is_public_iff net next.host).0 (
                public_check-public _ _ (rw (few, e) at h)
                  ((host_is_public_iff net orig.host).1 p)),
          ),
        )
      ]
    ]

abbrev urls : List (Net × Url) → List Url
urls [] = []
urls ((net, next) ∷ ts) = next ∷ urls ts

-- The requests are those so far and the first of the targets, each of them safe.
pub record Followed (max_hops : ℕ) (orig : Url) (via : List Url) (targets : List (Net × Url))
    (out : List Url) : Type 0 where
  pub taken : List (Net × Url)
  pub left : List (Net × Url)
  pub in_order : targets ≡ taken ++ left
  pub made : out ≡ (orig ∷ via) ++ urls taken
  pub few : length out ≤ max_hops
  pub safe : All (Safe orig) taken

stop :
    (max_hops : ℕ) (orig : Url) (via : List Url) (targets : List (Net × Url))
    → suc (length via) ≤ max_hops
    → Followed max_hops orig via targets (orig ∷ via)
stop max_hops orig via targets few = record {
  taken = [];
  left = targets;
  in_order = refl;
  made = ap (◌∷◌ orig) (sym (append-nil via));
  few = few;
  safe = tt;
}

follow-from :
    (max_hops : ℕ) (orig : Url) (via : List Url) (targets : List (Net × Url))
    → suc (length via) ≤ max_hops
    → Followed max_hops orig via targets (follow max_hops (orig ∷ via) targets)
unfolding follow
follow-from max_hops orig via [] few = stop max_hops orig via [] few
follow-from max_hops orig via ((net, next) ∷ targets) few =
    elim (Option-cases (check_redirect net max_hops next (orig ∷ via))) [
      | inl e ↦
          let (more, safe) = check_redirect-Safe net max_hops next orig via e in
          let rest =
            follow-from max_hops orig (via ++ next ∷ []) targets
              (omega (arith, length-append via (next ∷ []))) in
          rw e (record {
            taken = (net, next) ∷ rest.taken;
            left = rest.left;
            in_order = ap (◌∷◌ (net, next)) rest.in_order;
            made = rest.made ∙ ap (◌∷◌ orig) (append_assoc via (next ∷ []) (urls rest.taken));
            few = rest.few;
            safe = (safe, rest.safe);
          })
      | inr (reason, e) ↦ rw e (stop max_hops orig via ((net, next) ∷ targets) few)
    ]

-- Of any redirects that the servers ask for, a client follows the first ones, in order: it makes at
-- most as many requests as the bound, none of its redirects goes from a secure original to plain http,
-- and while the original is public, each goes to a host that is public when it is followed: its
-- addresses are there, and package net counts none of them as loopback, private, link-local, multicast
-- or unspecified. The ranges for documentation are not among these.
pub follow-Followed :
    (max_hops : ℕ) (orig : Url) (targets : List (Net × Url))
    → 1 ≤ max_hops
    → Followed max_hops orig [] targets (follow max_hops (orig ∷ []) targets)
follow-Followed max_hops orig targets few = follow-from max_hops orig [] targets few
