-- ===== src/System/Entries.antt =====
-- The entries of `docker ps` that `parseDockerPorts` of internal/system/system.go reads: their shape.
use zfw_dark.Common.{
  true, ◌||◌, [], ◌∷◌, ◌++◌, Option, none, some, ◌≡◌, ◌≢◌, ◌↔◌, refl, ap, ◌∙◌, subst, inl, inr,
  arith, All, Bool-cases,
}
use zfw_dark.Common.Int.{ℤ, pos, ltb_ℤ, Within}
use zfw_dark.Common.Scan.{cut_last, cut_text, has_suffix}
use zfw_dark.Common.Scan.Cuts.{
  Avoids, CutLast, absent, at_last, has_suffix-split, has_suffix-append, cut_last-CutLast,
  cut_last-append, cut_text-split, cut_text-append,
}
use zfw_dark.Common.Text.{Text, lit, split, atoi, trim_space}
use zfw_dark.System.Docker.{port_in_range, behind_colon, host_port, parse_mapping}

-- An entry, without the spaces around it, that is `host:n->…/tcp` for a port n. The colon is the last
-- one in front of the first arrow.
pub record Maps (n : ℤ) (entry : Text) : Type 0 where
  pub host : Text
  pub digits : Text
  pub target : Text
  pub start : Text
  pub shape : trim_space entry ≡ (host ++ b':' ∷ digits) ++ b'-' ∷ b'>' ∷ target
  pub tcp : trim_space entry ≡ start ++ lit "/tcp"
  pub last_colon : All (λ c. c ≢ b':') digits
  pub first_arrow : Avoids (b'-' ∷ b'>' ∷ []) (host ++ b':' ∷ digits)
  pub number : atoi digits ≡ some n
  pub in_range : Within 1 65535 n

port_in_range_iff :
    (o : Option ℤ) (n : ℤ) → (port_in_range o ≡ some n) ↔ ((o ≡ some n) × Within 1 65535 n)
unfolding port_in_range
port_in_range_iff none n = (λ h. absurd (cc), λ (h, k). absurd (cc))
port_in_range_iff (some m) n = elim (Bool-cases (ltb_ℤ m (pos 1) || ltb_ℤ (pos 65535) m)) [
  | inl e ↦ (
    λ h. absurd (let bad : none ≡ some n = rw e at h in cc),
    λ (h, k). absurd (
        let same : m ≡ n = cc in
        let out : (ltb_ℤ n (pos 1) || ltb_ℤ (pos 65535) n) ≡ true = rw same at e in ground arith),
  )
  | inr e ↦ (
    λ h.
        let same : some m ≡ some n = rw e at h in
        let m_n : m ≡ n = cc in (same, subst (Within 1 65535) m_n (ground arith)),
    λ (h, k). rw e h,
  )
]

module _ (n : ℤ) (entry : Text) where
  from_colon :
      (start before target : Text) (o : Option (Text × Text))
      → trim_space entry ≡ start ++ lit "/tcp"
      → trim_space entry ≡ before ++ b'-' ∷ b'>' ∷ target
      → Avoids (b'-' ∷ b'>' ∷ []) before
      → CutLast b':' before o
      → behind_colon o ≡ some n
      → Maps n entry
  unfolding behind_colon
  from_colon start before target none tcp arrow first (absent _) h = absurd (cc)
  from_colon start before target (some (host, digits)) tcp arrow first (at_last _ _ split last) h =
      let (number, in_range) = (port_in_range_iff (atoi digits) n).0 h in
      record {
        host = host;
        digits = digits;
        target = target;
        start = start;
        shape = arrow ∙ ap (λ b. b ++ b'-' ∷ b'>' ∷ target) split;
        tcp = tcp;
        last_colon = last;
        first_arrow = subst (Avoids (b'-' ∷ b'>' ∷ [])) split first;
        number = number;
        in_range = in_range;
      }

  from_arrow :
      (start : Text) (o : Option (Text × Text))
      → trim_space entry ≡ start ++ lit "/tcp"
      → cut_text (b'-' ∷ b'>' ∷ []) (trim_space entry) ≡ o
      → host_port o ≡ some n
      → Maps n entry
  unfolding host_port
  from_arrow start none tcp e h = absurd (cc)
  from_arrow start (some (before, target)) tcp e h =
      let (arrow, first) = cut_text-split b'-' (b'>' ∷ []) (trim_space entry) before target e in
      from_colon start before target (cut_last b':' before) tcp arrow first
        (cut_last-CutLast b':' before) h

  mapped-Maps : parse_mapping entry ≡ some n → Maps n entry
  unfolding parse_mapping lit
  mapped-Maps h = elim (Bool-cases (has_suffix (trim_space entry) (lit "/tcp"))) [
    | inl e ↦
        let (start, tcp) = has_suffix-split (trim_space entry) (lit "/tcp") e in
        from_arrow start _ tcp refl (rw e at h)
    | inr e ↦ absurd (let bad : none ≡ some n = rw e at h in cc)
  ]

  Maps-mapped : Maps n entry → parse_mapping entry ≡ some n
  unfolding parse_mapping host_port behind_colon lit
  Maps-mapped m =
      let tcp : has_suffix (trim_space entry) (lit "/tcp") ≡ true =
        rw m.tcp (has_suffix-append m.start (lit "/tcp")) in
      let arrow : cut_text (b'-' ∷ b'>' ∷ []) (trim_space entry)
          ≡ some (m.host ++ b':' ∷ m.digits, m.target) =
        rw m.shape
          (cut_text-append b'-' b'>' (m.host ++ b':' ∷ m.digits) m.target refl m.first_arrow) in
      rw (tcp, arrow, cut_last-append b':' m.host m.digits m.last_colon)
        ((port_in_range_iff (atoi m.digits) n).1 (m.number, m.in_range))

-- The code finds a port in an entry exactly if the entry has this shape.
pub parse_mapping_iff : (n : ℤ) (entry : Text) → (parse_mapping entry ≡ some n) ↔ Maps n entry
parse_mapping_iff n entry = (mapped-Maps n entry, Maps-mapped n entry)
