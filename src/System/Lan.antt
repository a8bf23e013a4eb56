-- ===== src/System/Lan.antt =====
-- `DetectLAN` and `DetectLAN6` of internal/system/system.go, and the caches of `DetectLAN` and of
-- `Versions`. What package net says of addresses and interfaces is a parameter.
use zfw_dark.Common.{
  ℕ, ◌+◌, ◌-◌, ◌<◌, Bool, List, [], ◌∷◌, Option, none, some, ◌≡◌, refl, inl, inr, ◌⊎◌, arith, ltb,
  Bool-cases, if◌then◌else◌,
}
use zfw_dark.Common.Text.{Text, lit}
use zfw_dark.System.Versions.{Component, Outputs, versions}

-- Of `net.IP`: `Equal`, `String`, and whether `To4` is not nil.
pub record Addresses : Type 1 where
  pub Ip : Type 0
  pub equal : Ip → Ip → Bool
  pub print : Ip → Text
  pub is_v4 : Ip → Bool

module _ (a : Addresses) where
  -- A `*net.IPNet`: its address, and the network that `net.ParseCIDR` gives of its text.
  pub record IpNet : Type 0 where
    pub ip : a.Ip
    pub network : Option Text

  -- An interface's addresses, none for an error of `Addrs`; an address is none if it is no `*net.IPNet`.
  abbrev pub Interfaces : Type 0
  Interfaces = List (Option (List (Option IpNet)))

  -- The loop over the addresses of one interface: the network of the first one that is `local`.
  unfoldable pub net_among : a.Ip → List (Option IpNet) → Option (Option Text)
  net_among local [] = none
  net_among local (none ∷ rest) = net_among local rest
  net_among local (some n ∷ rest) =
      let later = net_among local rest in if a.equal n.ip local then some n.network else later

  abbrev pub found_or : Option (Option Text) → Option Text → Option Text
  found_or (some network) later = network
  found_or none later = later

  -- The loop over the interfaces, which the first address that is `local` ends.
  unfoldable pub local_net : a.Ip → Interfaces → Option Text
  unfolding net_among
  local_net local [] = none
  local_net local (none ∷ rest) = local_net local rest
  local_net local (some addrs ∷ rest) = found_or (net_among local addrs) (local_net local rest)

  abbrev pub network_or : Text → Option Text → Text
  network_or default none = default
  network_or default (some network) = network

  unfoldable pub lan_of : Text → a.Ip → Option Interfaces → Text × Text
  unfolding local_net
  lan_of default local none = (default, a.print local)
  lan_of default local (some ifs) = (network_or default (local_net local ifs), a.print local)

  -- `detectLANUncached`, by the local address of the dialed connection, none if there is none, and the
  -- interfaces, none for an error.
  unfoldable pub detect_lan_uncached : Option a.Ip → Option Interfaces → Text × Text
  unfolding lan_of
  detect_lan_uncached none ifs = (lit "192.168.1.0/24", [])
  detect_lan_uncached (some local) ifs = lan_of (lit "192.168.1.0/24") local ifs

  -- `DetectLAN6`.
  unfoldable pub detect_lan6 : Option a.Ip → Option Interfaces → Text × Text
  unfolding lan_of
  detect_lan6 none ifs = ([], [])
  detect_lan6 (some local) ifs = if a.is_v4 local then ([], []) else lan_of [] local ifs

-- A minute, in the nanoseconds of the monotonic clock.
abbrev pub lan_ttl : ℕ
lan_ttl = 60000000000

abbrev pub ver_ttl : ℕ
ver_ttl = 60000000000

-- `lanCacheLAN`, `lanCacheIP` and `lanCached`; none for the zero time.
abbrev pub LanCache : Type 0
LanCache = Option ((Text × Text) × ℕ)

-- `DetectLAN`: what the clock reads at the test and when the answer is stored, and what
-- `detectLANUncached` would give.
unfoldable pub detect_lan : LanCache → ℕ → ℕ → Text × Text → LanCache × (Text × Text)
detect_lan none asked stored fresh = (some (fresh, stored), fresh)
detect_lan (some (kept, at)) asked stored fresh =
    if ltb (asked - at) lan_ttl then (some (kept, at), kept) else (some (fresh, stored), fresh)

-- `verCache` and `verCached`.
abbrev pub VersionCache : Type 0
VersionCache = Option (List Component × ℕ)

-- `Versions`.
unfoldable pub versions_cached : VersionCache → ℕ → ℕ → Outputs → VersionCache × List Component
versions_cached none asked stored o = (some (versions o, stored), versions o)
versions_cached (some (kept, at)) asked stored o =
    if ltb (asked - at) ver_ttl
    then (some (kept, at), kept)
    else (some (versions o, stored), versions o)

-- The calls of `DetectLAN`, the last first: when each asked and stored, and what it would detect.
pub record LanCall : Type 0 where
  pub asked : ℕ
  pub stored : ℕ
  pub fresh : Text × Text

abbrev pub lan_after : List LanCall → LanCache
lan_after [] = none
lan_after (c ∷ calls) = (detect_lan (lan_after calls) c.asked c.stored c.fresh).0

-- A detection that one of the calls stored at a time.
pub data Detected (lan : Text × Text) (at : ℕ) : List LanCall → Type 0 where
  now :
      (c : LanCall) (calls : List LanCall)
      → c.fresh ≡ lan
      → c.stored ≡ at
      → Detected lan at (c ∷ calls)
  before :
      (c : LanCall) (calls : List LanCall) → Detected lan at calls → Detected lan at (c ∷ calls)

abbrev FromCalls : LanCache → List LanCall → Type 0
FromCalls none calls = Unit
FromCalls (some (lan, at)) calls = Detected lan at calls

FromCalls-before :
    (cache : LanCache) (c : LanCall) (calls : List LanCall)
    → FromCalls cache calls
    → FromCalls cache (c ∷ calls)
FromCalls-before none c calls h = tt
FromCalls-before (some (lan, at)) c calls h = before c calls h

detect_lan-FromCalls :
    (cache : LanCache) (c : LanCall) (calls : List LanCall)
    → FromCalls cache calls
    → FromCalls (detect_lan cache c.asked c.stored c.fresh).0 (c ∷ calls)
unfolding detect_lan
detect_lan-FromCalls none c calls h = now c calls refl refl
detect_lan-FromCalls (some (kept, at)) c calls h = elim (Bool-cases (ltb (c.asked - at) lan_ttl)) [
  | inl e ↦ rw e (before c calls h)
  | inr e ↦ rw e (now c calls refl refl)
]

after-FromCalls : (calls : List LanCall) → FromCalls (lan_after calls) calls
after-FromCalls [] = tt
after-FromCalls (c ∷ calls) = detect_lan-FromCalls (lan_after calls) c calls (after-FromCalls calls)

-- The answer is fresh, or one that an earlier call stored less than a minute before.
abbrev pub Recent : LanCache → LanCall → List LanCall → Type 0
Recent cache c calls =
    ((detect_lan cache c.asked c.stored c.fresh).1 ≡ c.fresh)
    ⊎ ((at : ℕ) × Detected (detect_lan cache c.asked c.stored c.fresh).1 at calls
        × (c.asked < at + 60000000000))

answer-Recent :
    (cache : LanCache) (c : LanCall) (calls : List LanCall)
    → FromCalls cache calls
    → Recent cache c calls
unfolding detect_lan
answer-Recent none c calls h = inl refl
answer-Recent (some (kept, at)) c calls h = elim (Bool-cases (ltb (c.asked - at) lan_ttl)) [
  | inl e ↦ inr (at, rw e h, ground arith)
  | inr e ↦ inl (rw e refl)
]

-- After any calls, DetectLAN answers with what it detects now, or with what an earlier call detected
-- and stored less than a minute before.
pub detect_lan-Recent : (calls : List LanCall) (c : LanCall) → Recent (lan_after calls) c calls
detect_lan-Recent calls c = answer-Recent (lan_after calls) c calls (after-FromCalls calls)
