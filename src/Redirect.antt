-- ===== src/Redirect.antt =====
-- internal/httputil/redirect.go: which redirects the clients of the daemon follow. What package net
-- says of an address and of a name, and the parts of a URL, are parameters.
pub mod Chain
use zfw_dark.Common.{
  ℕ, zero, suc, Bool, true, false, not, ◌&&◌, ◌||◌, List, [], ◌∷◌, ◌++◌, Option, none, some,
}
use zfw_dark.Common.{length, leb, ltb, if◌then◌else◌}
use zfw_dark.Common.Int.{ℤ, pos, negsuc}
use zfw_dark.Common.Text.{Text, lit, ◌==◌, is_empty}

-- The tests of `net.IP`.
pub record Address : Type 0 where
  pub loopback : Bool
  pub private : Bool
  pub link_local : Bool
  pub link_local_multicast : Bool
  pub interface_local_multicast : Bool
  pub multicast : Bool
  pub unspecified : Bool

-- `net.ParseIP` and `net.LookupIP`; `none` is nil, or an error.
pub record Net : Type 0 where
  pub parse : Text → Option Address
  pub lookup : Text → Option (List Address)

pub record Url : Type 0 where
  pub scheme : Text
  pub host : Text

-- `ipIsPublic`, of an address that is there.
unfoldable pub ip_is_public : Address → Bool
ip_is_public a = not (
    a.loopback || a.private || a.link_local || a.link_local_multicast || a.interface_local_multicast
    || a.multicast || a.unspecified)

unfoldable pub all_public : List Address → Bool
unfolding ip_is_public
all_public [] = true
all_public (a ∷ rest) = ip_is_public a && all_public rest

abbrev pub answers_public : Option (List Address) → Option Bool
answers_public none = none
answers_public (some []) = none
answers_public (some (a ∷ rest)) = some (all_public (a ∷ rest))

abbrev pub name_is_public : Option Address → Option (List Address) → Option Bool
name_is_public (some a) found = some (ip_is_public a)
name_is_public none found = answers_public found

-- `hostIsPublic`; `none` is its error.
unfoldable pub host_is_public : Net → Text → Option Bool
unfolding all_public
host_is_public net host =
    if is_empty host
    then none
    else if host == lit "localhost"
    then some false
    else name_is_public (net.parse host) (net.lookup host)

pub data Refusal : Type 0 where
  too_many downgrade unresolvable private : Refusal

abbrev pub next_check : Option Bool → Option Refusal
next_check none = some unresolvable
next_check (some true) = none
next_check (some false) = some private

abbrev pub public_check : Option Bool → Option Bool → Option Refusal
public_check (some true) next = next_check next
public_check (some false) next = none
public_check none next = none

-- The callback of `SafeCheckRedirect` on the requests so far, the original first; `none` is nil.
unfoldable pub check_redirect : Net → ℕ → Url → List Url → Option Refusal
unfolding host_is_public
check_redirect net max_hops next [] = if leb max_hops 0 then some too_many else none
check_redirect net max_hops next (orig ∷ via) =
    if leb max_hops (suc (length via))
    then some too_many
    else if orig.scheme == lit "https" && next.scheme == lit "http"
    then some downgrade
    else public_check (host_is_public net orig.host) (host_is_public net next.host)

-- The bound that `SafeCheckRedirect` uses for the one it is given.
abbrev pub hops : ℤ → ℕ
hops (pos zero) = 5
hops (pos (suc n)) = suc n
hops (negsuc n) = 5

abbrev pub loopback_host : Text → Option Address → Bool
loopback_host host none = host == lit "localhost"
loopback_host host (some a) = host == lit "localhost" || a.loopback

-- `IsLoopbackURL`; `url` is what `url.Parse` gives.
unfoldable pub is_loopback_url : Net → Option Url → Bool
is_loopback_url net none = false
is_loopback_url net (some u) =
    (u.scheme == lit "http" || u.scheme == lit "https") && loopback_host u.host (net.parse u.host)
