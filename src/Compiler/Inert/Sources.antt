-- ===== src/Compiler/Inert/Sources.antt =====
-- The bytes of `sourceArgs` and `source6Arg` of internal/compiler/compiler.go.
use zfw_dark.Common.{
  ◌≡◌, refl, true, ◌||◌, List, [], ◌∷◌, ◌++◌, map, none, some, inl, inr, arith, All, Bool-cases,
  flat_map, cat, if◌then◌else◌,
}
use zfw_dark.Common.Addresses.{is_address_byte, ParsesAddresses}
use zfw_dark.Common.Text.{Text, Std, Family, lit, ◌==◌, is_letter, is_plain, quote, contains_byte}
use zfw_dark.Compiler.Args.{source_args, country_args, source6_arg}
use zfw_dark.Compiler.Inert.Bytes.{
  Every, end, also, Every-append, Every-of_All, is_inert, Inert, AllInert, lit-Inert,
  set_name-Inert, quote-Inert,
}
use zfw_dark.Config.{set_name}
use zfw_dark.Rules.Checks.{split_countries}
use zfw_dark.Rules.Model.{Source}
use zfw_dark.Rules.Valid.Parts.{ValidSource, anywhere, address, network, countries, CountryCode}
use zfw_dark.Rules.Valid.Rule.{ForSome}

abbrev pub AddressText : Text → Type 0
AddressText s = Every (λ c. is_address_byte c ≡ true) s

pub address-Inert : {s : Text} → AddressText s → Inert s
unfolding is_inert
address-Inert end = end
address-Inert (also h hs) = also (ground arith) (address-Inert hs)

address-plain : {s : Text} → AddressText s → Every (λ c. is_plain c ≡ true) s
unfolding is_plain
address-plain end = end
address-plain (also h hs) = also (ground arith) (address-plain hs)

pub flat_map-AllInert :
    {A : Type 0} {P : A → Type 0} {f : A → List Text} {xs : List A}
    → ((x : A) → P x → AllInert (f x))
    → Every P xs
    → AllInert (flat_map f xs)
flat_map-AllInert g end = end
flat_map-AllInert g (also p h) = Every-append (g _ p) (flat_map-AllInert g h)

module _ (std : Std) (laws : ParsesAddresses std) where
  pub ip_text : {s : Text} {f : Family} → std.parse_ip s ≡ some f → AddressText s
  ip_text {s} {f} h = Every-of_All (λ c. is_address_byte c ≡ true) s (laws.ip s f h)

  pub cidr_text : {s : Text} {f : Family} → std.parse_cidr s ≡ some f → AddressText s
  cidr_text {s} {f} h = Every-of_All (λ c. is_address_byte c ≡ true) s (laws.cidr s f h)

  minus_s : {v : Text} → AddressText v → Inert (lit "-s " ++ v)
  unfolding lit is_inert
  minus_s h = Every-append (lit-Inert (lit "-s ") refl) (address-Inert h)

  pub minus_d : {v : Text} → AddressText v → Inert (lit "-d " ++ quote std v)
  unfolding lit is_inert
  minus_d h =
      Every-append (lit-Inert (lit "-d ") refl)
        (quote-Inert std (address-plain h) (address-Inert h))

  codes-Every : (cs : List Text) → All CountryCode cs → Every CountryCode cs
  codes-Every cs h = Every-of_All CountryCode cs h

  pub code-set_name : (cc : Text) → CountryCode cc → Inert (set_name std cc)
  code-set_name cc (_, letters) =
      set_name-Inert std (Every-of_All (λ b. is_letter b ≡ true) cc letters)

  match_sets :
      (cs : List Text)
      → Every CountryCode cs
      → AllInert
          (map (λ cc. cat (lit "-m set --match-set " ∷ set_name std cc ∷ lit " src" ∷ [])) cs)
  unfolding lit is_inert
  match_sets _ end = end
  match_sets _ (also {x = cc} p h) =
      also
        (Every-append (lit-Inert (lit "-m set --match-set ") refl)
          (Every-append (code-set_name cc p) (Every-append (lit-Inert (lit " src") refl) end)))
        (match_sets _ h)

  country_args-AllInert : {cs : List Text} → Every CountryCode cs → AllInert (country_args std cs)
  unfolding country_args
  country_args-AllInert end = also end end
  country_args-AllInert (also p h) = match_sets _ (also p h)

  pub source_args-AllInert : (s : Source) → ValidSource std s → AllInert (source_args std s)
  unfolding source_args lit ◌==◌
  source_args-AllInert s (anywhere e) = rw e (also end end)
  source_args-AllInert s (address e h) = rw e (also (minus_s (ip_text h)) end)
  source_args-AllInert s (network e h) = rw e (also (minus_s (cidr_text h)) end)
  source_args-AllInert s (countries e ne few codes) =
      rw e (country_args-AllInert (codes-Every _ codes))

  -- The fragment of a source for IPv6, where there is one.
  colon_arg :
      {v : Text}
      → AddressText v
      → ForSome Inert (if contains_byte b':' v then some (lit "-s " ++ v) else none)
  colon_arg {v} h = elim (Bool-cases (contains_byte b':' v)) [
    | inl e ↦ rw e (minus_s h)
    | inr e ↦ rw e tt
  ]

  pub source6_arg-Inert : (s : Source) → ValidSource std s → ForSome Inert (source6_arg s)
  unfolding source6_arg lit ◌==◌
  source6_arg-Inert s (anywhere e) = rw e end
  source6_arg-Inert s (address e h) = rw e (colon_arg (ip_text h))
  source6_arg-Inert s (network e h) = rw e (colon_arg (cidr_text h))
  source6_arg-Inert s (countries e ne few codes) = rw e tt

  pub address_value :
      (s : Source)
      → ValidSource std s
      → (s.type == lit "ip" || s.type == lit "range") ≡ true
      → AddressText s.value
  unfolding lit ◌==◌
  address_value s (anywhere e) h = let no = rw e at h in cc
  address_value s (address e p) h = ip_text p
  address_value s (network e p) h = cidr_text p
  address_value s (countries e ne few codes) h = let no = rw e at h in cc

  pub country_codes :
      (s : Source)
      → ValidSource std s
      → (s.type == lit "country") ≡ true
      → Every CountryCode (split_countries s.value)
  unfolding lit ◌==◌
  country_codes s (anywhere e) h = let no = rw e at h in cc
  country_codes s (address e p) h = let no = rw e at h in cc
  country_codes s (network e p) h = let no = rw e at h in cc
  country_codes s (countries e ne few codes) h = codes-Every _ codes
