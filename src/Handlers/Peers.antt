-- ===== src/Handlers/Peers.antt =====
-- `peersReceive` of internal/handlers/handlers.go: who may push rules.
use zfw_dark.Common.{
  ℕ, Bool, true, false, not, ◌||◌, [], ◌∷◌, ◌++◌, Option, ◌≡◌, ◌≢◌, refl, ap, ◌∙◌, inl, inr, arith,
  length, drop, nat_eq, Bool-cases,
}
use zfw_dark.Common.Scan.{has_prefix}
use zfw_dark.Common.Text.{Text, lit, ◌==◌, ==_iff, is_empty}
use zfw_dark.Handlers.Daemon.{
  Daemon, Inventory, Reason, post_required, peer_disabled, bad_token, fail,
}
use zfw_dark.Handlers.Recompile.{Files}
use zfw_dark.Handlers.Requests.{Outcome, receive_body, peers_receive}
use zfw_dark.Rules.Model.{RuleSet}

has_prefix-split : (p s : Text) → has_prefix p s ≡ true → s ≡ p ++ drop (length p) s
unfolding has_prefix
has_prefix-split [] s h = refl
has_prefix-split (a ∷ p) [] h = cc
has_prefix-split (a ∷ p) (c ∷ s) h =
    let rest = has_prefix-split p s (ground arith) in let same : c ≡ a = ground arith in cc

has_prefix-append : (p s : Text) → has_prefix p (p ++ s) ≡ true
unfolding has_prefix
has_prefix-append [] s = refl
has_prefix-append (a ∷ p) s = ground (arith, has_prefix-append p s)

drop-append : (p s : Text) → drop (length p) (p ++ s) ≡ s
drop-append [] s = refl
drop-append (a ∷ p) s = drop-append p s

-- The request is a POST that carries the token, where one is set.
pub record Trusted (d : Daemon) (is_post : Bool) (auth : Text) : Type 0 where
  pub post : is_post ≡ true
  pub enabled : d.peer_token ≢ []
  pub bearer : auth ≡ lit "Bearer " ++ d.peer_token

pub data Received (d : Daemon) (is_post : Bool) (auth : Text) (i : Inventory)
    (body : Option RuleSet) (s : Files d) (out : Outcome d) : Type 0 where
  trusted :
      Trusted d is_post auth → out ≡ receive_body d i body s → Received d is_post auth i body s out
  refused :
      (code : ℕ) (why : Reason)
      → ¬ Trusted d is_post auth
      → out ≡ (s, fail code why, [])
      → Received d is_post auth i body s out

abbrev wrong_token : Daemon → Text → Bool
wrong_token d auth =
    not (nat_eq (length (drop (length (lit "Bearer ")) auth)) (length d.peer_token))
    || not (drop (length (lit "Bearer ")) auth == d.peer_token)

empty-nil : (t : Text) → is_empty t ≡ true → t ≡ []
empty-nil [] h = refl
empty-nil (c ∷ t) h = cc

module _ (d : Daemon) (auth : Text) (i : Inventory) (body : Option RuleSet) (s : Files d) where
  bearer-refused :
      {is_post : Bool} → has_prefix (lit "Bearer ") auth ≡ false → ¬ Trusted d is_post auth
  bearer-refused h t = absurd (
      let yes_prefix = has_prefix-append (lit "Bearer ") d.peer_token in
      let same : has_prefix (lit "Bearer ") auth ≡ true =
        ap (has_prefix (lit "Bearer ")) t.bearer ∙ yes_prefix in
      cc)

  token_of :
      {is_post : Bool} → Trusted d is_post auth → drop (length (lit "Bearer ")) auth ≡ d.peer_token
  token_of t =
      ap (drop (length (lit "Bearer "))) t.bearer ∙ drop-append (lit "Bearer ") d.peer_token

  no_token : is_empty d.peer_token ≡ true → d.peer_token ≢ [] → ⊥
  no_token e h = h (empty-nil d.peer_token e)

  not_empty : is_empty d.peer_token ≡ false → d.peer_token ≢ []
  not_empty e h = let bad : is_empty d.peer_token ≡ true = ap (λ t. is_empty t) h in cc

  wrong-refused : wrong_token d auth ≡ true → drop (length (lit "Bearer ")) auth ≡ d.peer_token → ⊥
  wrong-refused w e =
      let same = (==_iff (drop (length (lit "Bearer ")) auth) d.peer_token).1 e in
      let long = ap length e in ground arith

  right_token : wrong_token d auth ≡ false → drop (length (lit "Bearer ")) auth ≡ d.peer_token
  right_token w = (==_iff (drop (length (lit "Bearer ")) auth) d.peer_token).0 (ground arith)

  -- A push is taken exactly when the request is a POST whose Authorization is "Bearer " and the token
  -- of this host, and such a token is set; any other request changes nothing and sends no webhook.
  pub peers_receive-Received :
      (is_post : Bool) → Received d is_post auth i body s (peers_receive d is_post auth i body s)
  unfolding peers_receive
  peers_receive-Received false = refused 405 post_required (λ t. let p = t.post in cc) refl
  peers_receive-Received true = elim (Bool-cases (is_empty d.peer_token)) [
    | inl e ↦ rw e (refused 403 peer_disabled (λ t. no_token e t.enabled) refl)
    | inr e ↦ elim (Bool-cases (has_prefix (lit "Bearer ") auth)) [
      | inr k ↦ rw (e, k) (refused 401 bad_token (bearer-refused k) refl)
      | inl k ↦ elim (Bool-cases (wrong_token d auth)) [
        | inl w ↦ rw (e, k, w) (refused 401 bad_token (λ t. wrong-refused w (token_of t)) refl)
        | inr w ↦
            rw (e, k, w)
              (trusted
                (record {
                  post = refl;
                  enabled = not_empty e;
                  bearer =
                      has_prefix-split (lit "Bearer ") auth k
                      ∙ ap (λ t. lit "Bearer " ++ t) (right_token w);
                })
                refl)
      ]
    ]
  ]
