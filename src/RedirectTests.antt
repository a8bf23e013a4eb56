-- ===== src/RedirectTests.antt =====
-- The theorem on internal/httputil applied to a chain of two redirects, of which one is refused.
use zfw_dark.Common.{Bool, true, false, [], ◌∷◌, Option, none, some, ◌≡◌, refl, arith}
use zfw_dark.Common.Text.{lit, ◌==◌}
use zfw_dark.Redirect.{Address, Net, Url, check_redirect, private}
use zfw_dark.Redirect.Chain.{follow, Followed, follow-Followed}

abbrev outside : Address
outside = record {
  loopback = false;
  private = false;
  link_local = false;
  link_local_multicast = false;
  interface_local_multicast = false;
  multicast = false;
  unspecified = false;
}

abbrev on_host : Address
on_host = record outside { loopback = true }

abbrev if_loopback : Bool → Option Address
if_loopback true = some on_host
if_loopback false = none

-- Names that resolve outside, and one address on the host.
abbrev names : Net
names = record {
  parse = λ h. if_loopback (h == lit "127.0.0.1");
  lookup = λ h. some (outside ∷ []);
}

-- No name resolves.
abbrev no_names : Net
no_names = record names { lookup = λ h. none }

abbrev site : Url
site = record { scheme = lit "https"; host = lit "example.org" }

abbrev mirror : Url
mirror = record { scheme = lit "https"; host = lit "mirror.example.org" }

abbrev inside : Url
inside = record { scheme = lit "https"; host = lit "127.0.0.1" }

inside-refused : check_redirect names 5 inside (site ∷ []) ≡ some private
unfolding check_redirect lit ◌==◌
inside-refused = refl

-- The name of the original does not resolve when the redirect is checked: the host's own address is
-- let through.
inside-followed : check_redirect no_names 5 inside (site ∷ []) ≡ none
unfolding check_redirect lit ◌==◌
inside-followed = refl

follow-Followed_example :
    Followed 5 site []
      ((names, mirror) ∷ (names, inside) ∷ [])
      (follow 5 (site ∷ []) ((names, mirror) ∷ (names, inside) ∷ []))
follow-Followed_example =
    follow-Followed 5 site ((names, mirror) ∷ (names, inside) ∷ []) (omega arith)
