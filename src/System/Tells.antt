-- ===== src/System/Tells.antt =====
-- The lines of `ss` that `Listening` of internal/system/system.go reads: their shape.
use zfw_dark.Common.{
  Bool, true, false, not, ◌&&◌, ◌||◌, ◌∷◌, ◌++◌, Option, none, some, ◌≡◌, ◌≢◌, ◌↔◌, refl, ap, ◌∙◌,
  inl, inr, arith, All, get_elem?, nat_eq, Bool-cases,
}
use zfw_dark.Common.Int.{ℤ, eq_ℤ, eq_ℤ_iff}
use zfw_dark.Common.Scan.{fields, cut_last, trim_both}
use zfw_dark.Common.Scan.Cuts.{CutLast, absent, at_last, cut_last-CutLast, cut_last-append}
use zfw_dark.Common.Text.{Text, lit, ◌==◌, ==_iff, atoi}
use zfw_dark.System.{Socket, is_bracket, socket_at, local_address, socket_of, parse_socket}

-- A socket of this port, and one that the LAN reaches.
abbrev pub on_port : ℤ → Socket → Bool
on_port p sk = eq_ℤ sk.port p

abbrev pub on_lan : ℤ → Socket → Bool
on_lan p sk = eq_ℤ sk.port p && not sk.is_local

abbrev pub told : (Socket → Bool) → Option Socket → Bool
told test none = false
told test (some sk) = test sk

-- A line whose fourth field is `host:port`, where the colon is the last one.
pub record Tells (p : ℤ) (line : Text) : Type 0 where
  pub host : Text
  pub digits : Text
  pub fourth : get_elem? (fields line) 3 ≡ some (host ++ b':' ∷ digits)
  pub last_colon : All (λ c. c ≢ b':') digits
  pub number : atoi digits ≡ some p

-- A host in its brackets that is neither of the two addresses.
abbrev pub OutsideHost : Text → Type 0
OutsideHost host =
    (trim_both (λ c. nat_eq c b'[' || nat_eq c b']') host ≢ lit "127.0.0.1")
    × (trim_both (λ c. nat_eq c b'[' || nat_eq c b']') host ≢ lit "::1")

pub record TellsOutside (p : ℤ) (line : Text) : Type 0 where
  pub tells : Tells p line
  pub outside : OutsideHost tells.host

parse_socket-at :
    (p : ℤ) (line : Text) (t : Tells p line)
    → parse_socket line ≡ socket_at line (trim_both is_bracket t.host) (some p)
unfolding parse_socket socket_of local_address
parse_socket-at p line t =
    rw (t.fourth, cut_last-append b':' t.host t.digits t.last_colon, t.number) refl

not_loopback :
    (bind : Text)
    → (not (bind == lit "127.0.0.1" || bind == lit "::1") ≡ true)
      ↔ ((bind ≢ lit "127.0.0.1") × (bind ≢ lit "::1"))
not_loopback bind =
    let (v4, v4_back) = ==_iff bind (lit "127.0.0.1") in
    let (v6, v6_back) = ==_iff bind (lit "::1") in
    (
      λ h. ((λ e. let k = v4_back e in ground arith), (λ e. let k = v6_back e in ground arith)),
      λ (far4, far6). elim (Bool-cases (bind == lit "127.0.0.1")) [
        | inl e ↦ absurd (far4 (v4 e))
        | inr e ↦ elim (Bool-cases (bind == lit "::1")) [
          | inl k ↦ absurd (far6 (v6 k))
          | inr k ↦ rw (e, k) refl
        ]
      ],
    )

-- A line with a socket tells its port, which the LAN reaches only if the host is outside.
socket-Tells :
    (line host digits : Text) (p : ℤ) (o : Option ℤ)
    → get_elem? (fields line) 3 ≡ some (host ++ b':' ∷ digits)
    → All (λ c. c ≢ b':') digits
    → atoi digits ≡ o
    → told (on_port p) (socket_at line (trim_both is_bracket host) o) ≡ true
    → Tells p line
      × (told (on_lan p) (socket_at line (trim_both is_bracket host) o) ≡ true
          → TellsOutside p line)
unfolding socket_at is_bracket
socket-Tells line host digits p none fourth last number h = absurd (cc)
socket-Tells line host digits p (some n) fourth last number h =
    let same : n ≡ p = (eq_ℤ_iff n p).0 h in
    let t : Tells p line = record {
      host = host;
      digits = digits;
      fourth = fourth;
      last_colon = last;
      number = number ∙ ap some same;
    } in
    (
      t,
      λ k. record {
        tells = t;
        outside =
            (not_loopback (trim_both (λ c. nat_eq c b'[' || nat_eq c b']') host)).0 (ground arith);
      },
    )

address-Tells :
    (line address : Text) (p : ℤ) (o : Option (Text × Text))
    → get_elem? (fields line) 3 ≡ some address
    → CutLast b':' address o
    → told (on_port p) (local_address line o) ≡ true
    → Tells p line × (told (on_lan p) (local_address line o) ≡ true → TellsOutside p line)
unfolding local_address
address-Tells line address p none fourth (absent _) h = absurd (cc)
address-Tells line address p (some (host, digits)) fourth (at_last _ _ split last) h =
    socket-Tells line host digits p (atoi digits) (fourth ∙ ap some split) last refl h

field-Tells :
    (line : Text) (p : ℤ) (o : Option Text)
    → get_elem? (fields line) 3 ≡ o
    → told (on_port p) (socket_of line o) ≡ true
    → Tells p line × (told (on_lan p) (socket_of line o) ≡ true → TellsOutside p line)
unfolding socket_of
field-Tells line p none fourth h = absurd (cc)
field-Tells line p (some address) fourth h =
    address-Tells line address p (cut_last b':' address) fourth (cut_last-CutLast b':' address) h

line-Tells :
    (line : Text) (p : ℤ)
    → told (on_port p) (parse_socket line) ≡ true
    → Tells p line × (told (on_lan p) (parse_socket line) ≡ true → TellsOutside p line)
unfolding parse_socket
line-Tells line p h = field-Tells line p (get_elem? (fields line) 3) refl h

lan_on_port : (p : ℤ) (o : Option Socket) → told (on_lan p) o ≡ true → told (on_port p) o ≡ true
lan_on_port p none h = cc
lan_on_port p (some sk) h = ground arith

pub on_port-Tells :
    (line : Text) (p : ℤ) → (told (on_port p) (parse_socket line) ≡ true) ↔ Tells p line
on_port-Tells line p = (
  λ h. (line-Tells line p h).0,
  λ t. rw (parse_socket-at p line t) (unfold socket_at in (eq_ℤ_iff p p).1 refl),
)

pub on_lan-TellsOutside :
    (line : Text) (p : ℤ) → (told (on_lan p) (parse_socket line) ≡ true) ↔ TellsOutside p line
unfolding socket_at is_bracket
on_lan-TellsOutside line p = (
  λ h. (line-Tells line p (lan_on_port p (parse_socket line) h)).1 h,
  λ t.
      let here : eq_ℤ p p ≡ true = (eq_ℤ_iff p p).1 refl in
      let far =
        (not_loopback (trim_both (λ c. nat_eq c b'[' || nat_eq c b']') t.tells.host)).1 t.outside in
      rw (parse_socket-at p line t.tells) (rw (here, far) refl),
)
