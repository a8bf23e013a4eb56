-- ===== src/Geo/Fingerprint.antt =====
-- `zoneFingerprint` of internal/geo/geo.go tells the names, sizes and times of the zone files.
use zfw_dark.Common.{
  ℕ, suc, true, false, List, [], ◌∷◌, ◌++◌, map, Option, none, some, ◌≡◌, ◌≢◌, refl, sym, ap, ap₂,
  ◌∙◌, inl, inr, arith, All, All-append, All-map, Bool-cases, append_assoc, if◌then◌else◌,
}
use zfw_dark.Common.Int.{ℤ, pos, negsuc}
use zfw_dark.Common.Scan.{Without, cut, cut-append, split-join}
use zfw_dark.Common.Text.{Text, lit, join, split, is_empty, itoa, print_nat}
use zfw_dark.Geo.Numerals.{Digit, digits_from-Digit, itoa-injective}
use zfw_dark.Geo.{FileEntry, Directory, is_zone, print_part, fingerprint_parts, zone_fingerprint}

-- Neither a colon nor a bar.
abbrev pub Clean : ℕ → Type 0
Clean c = (c ≢ b':') × (c ≢ b'|')

Digit-Clean : (c : ℕ) → Digit c → Clean c
Digit-Clean c h = (λ e. omega arith, λ e. omega arith)

itoa-Clean : (n : ℤ) → All Clean (itoa n)
unfolding itoa print_nat
itoa-Clean (pos n) = All-map Digit-Clean (print_nat n) (digits_from-Digit (suc n) n)
itoa-Clean (negsuc n) = (
  (λ e. omega arith, λ e. omega arith),
  All-map Digit-Clean (print_nat (suc n)) (digits_from-Digit (suc (suc n)) (suc n)),
)

-- A zone file's name, size and time.
pub record Stamp : Type 0 where
  pub name : Text
  pub size : ℤ
  pub time : ℤ

print : Stamp → Text
print t = t.name ++ lit ":" ++ itoa t.size ++ lit ":" ++ itoa t.time

print-shape : (t : Stamp) → print t ≡ t.name ++ b':' ∷ (itoa t.size ++ b':' ∷ itoa t.time)
unfolding print lit
print-shape t = simp append_assoc

no_colon : (c : ℕ) → Clean c → c ≢ b':'
no_colon c h = h.0

no_bar : (c : ℕ) → Clean c → c ≢ b'|'
no_bar c h = h.1

abbrev front : Option (Text × Text) → Text
front none = []
front (some (k, v)) = k

abbrev behind : Option (Text × Text) → Text
behind none = []
behind (some (k, v)) = v

cut_parts :
    (k v l w : Text) → All Clean k → All Clean l → k ++ b':' ∷ v ≡ l ++ b':' ∷ w → (k ≡ l) × (v ≡ w)
cut_parts k v l w p q h =
    let same : some (k, v) ≡ some (l, w) =
      sym (cut-append b':' k v (All-map no_colon k p))
      ∙ ap (cut b':') h
      ∙ cut-append b':' l w (All-map no_colon l q) in
    (ap front same, ap behind same)

print-injective : (t u : Stamp) → All Clean t.name → All Clean u.name → print t ≡ print u → t ≡ u
print-injective t u p q h =
    let (names, rest) = cut_parts t.name _ u.name _ p q (sym (print-shape t) ∙ h ∙ print-shape u) in
    let (sizes, times) =
      cut_parts (itoa t.size) _ (itoa u.size) _ (itoa-Clean t.size) (itoa-Clean u.size) rest in
    let size = itoa-injective t.size u.size sizes in
    let time = itoa-injective t.time u.time times in cc

-- The stamps of the zone files of a directory.
unfoldable pub stamped : FileEntry → Option (ℤ × ℤ) → List Stamp → List Stamp
stamped f none rest = rest
stamped f (some (size, time)) rest = record { name = f.name; size = size; time = time } ∷ rest

unfoldable pub stamps : List FileEntry → List Stamp
unfolding stamped
stamps [] = []
stamps (f ∷ fs) = let rest = stamps fs in if is_zone f then stamped f f.info rest else rest

-- What a zone file holds is told by its name, size and time, and its name has neither colon nor bar.
pub record Told (content : Stamp → Option Text) (f : FileEntry) : Type 0 where
  pub size : ℤ
  pub time : ℤ
  pub there : f.info ≡ some (size, time)
  pub clean : All Clean f.name
  pub holds : f.content ≡ content (record { name = f.name; size = size; time = time })

abbrev pub AllTold : (Stamp → Option Text) → List FileEntry → Type 0
AllTold content = All (λ f. is_zone f ≡ true → Told content f)

info-stamps :
    (f : FileEntry) (o : Option (ℤ × ℤ)) (parts : List Text) (ts : List Stamp)
    → parts ≡ map print ts
    → print_part f.name o parts ≡ map print (stamped f o ts)
unfolding print_part stamped print
info-stamps f none parts ts h = h
info-stamps f (some (size, time)) parts ts h =
    ap (◌∷◌ (print (record { name = f.name; size = size; time = time }))) h

fingerprint_parts-stamps : (fs : List FileEntry) → fingerprint_parts fs ≡ map print (stamps fs)
unfolding fingerprint_parts stamps
fingerprint_parts-stamps [] = refl
fingerprint_parts-stamps (f ∷ fs) = elim (Bool-cases (is_zone f)) [
  | inl e ↦
      rw e (info-stamps f f.info (fingerprint_parts fs) (stamps fs) (fingerprint_parts-stamps fs))
  | inr e ↦ rw e (fingerprint_parts-stamps fs)
]

abbrev AllClean : List Stamp → Type 0
AllClean = All (λ t. All Clean t.name)

stamped-AllClean :
    (content : Stamp → Option Text) (f : FileEntry) (o : Option (ℤ × ℤ)) (ts : List Stamp)
    → Told content f
    → AllClean ts
    → AllClean (stamped f o ts)
unfolding stamped
stamped-AllClean content f none ts told h = h
stamped-AllClean content f (some (size, time)) ts told h = (told.clean, h)

stamps-AllClean :
    (content : Stamp → Option Text) (fs : List FileEntry)
    → AllTold content fs
    → AllClean (stamps fs)
unfolding stamps
stamps-AllClean content [] h = tt
stamps-AllClean content (f ∷ fs) (told, h) = elim (Bool-cases (is_zone f)) [
  | inl e ↦
      rw e (stamped-AllClean content f f.info (stamps fs) (told e) (stamps-AllClean content fs h))
  | inr e ↦ rw e (stamps-AllClean content fs h)
]

print-Without : (t : Stamp) → All Clean t.name → Without b'|' (print t)
print-Without t h =
    let numbers =
      All-append (λ c. c ≢ b'|') (itoa t.size) (b':' ∷ itoa t.time)
        (All-map no_bar (itoa t.size) (itoa-Clean t.size))
        ((λ e. omega arith), All-map no_bar (itoa t.time) (itoa-Clean t.time)) in
    rw (print-shape t) (
      All-append (λ c. c ≢ b'|') t.name (b':' ∷ (itoa t.size ++ b':' ∷ itoa t.time))
        (All-map no_bar t.name h) ((λ e. omega arith), numbers))

prints-Without : (ts : List Stamp) → AllClean ts → All (Without b'|') (map print ts)
prints-Without [] h = tt
prints-Without (t ∷ ts) (here, h) = (print-Without t here, prints-Without ts h)

is_empty-in_front : (k s : Text) (c : ℕ) → is_empty (k ++ c ∷ s) ≡ false
is_empty-in_front [] s c = refl
is_empty-in_front (d ∷ k) s c = refl

is_empty-longer : (k s : Text) → is_empty k ≡ false → is_empty (k ++ s) ≡ false
is_empty-longer [] s h = absurd (cc)
is_empty-longer (c ∷ k) s h = refl

is_empty-print : (t : Stamp) → is_empty (print t) ≡ false
is_empty-print t =
    ap is_empty (print-shape t) ∙ is_empty-in_front t.name (itoa t.size ++ b':' ∷ itoa t.time) b':'

is_empty-join :
    (p : Text) (ps : List Text) → is_empty p ≡ false → is_empty (join (b'|' ∷ []) (p ∷ ps)) ≡ false
unfolding join
is_empty-join p [] h = h
is_empty-join p (q ∷ ps) h = is_empty-longer p _ h

-- The parts of a fingerprint.
parts_of : Text → List Text
parts_of s = if is_empty s then [] else split b'|' s

parts_of-join :
    (ts : List Stamp) → AllClean ts → parts_of (join (b'|' ∷ []) (map print ts)) ≡ map print ts
unfolding parts_of
parts_of-join [] h = unfold join in refl
parts_of-join (t ∷ ts) (here, h) =
    rw (is_empty-join (print t) (map print ts) (is_empty-print t))
      (split-join b'|' (print t) (map print ts) (prints-Without (t ∷ ts) (here, h)))

tail_of : List Text → List Text
tail_of [] = []
tail_of (p ∷ ps) = ps

head_of : List Text → Text
head_of [] = []
head_of (p ∷ ps) = p

map_print-injective :
    (ts us : List Stamp) → AllClean ts → AllClean us → map print ts ≡ map print us → ts ≡ us
map_print-injective [] [] p q h = refl
map_print-injective [] (u ∷ us) p q h = absurd (cc)
map_print-injective (t ∷ ts) [] p q h = absurd (cc)
map_print-injective (t ∷ ts) (u ∷ us) (p, ps) (q, qs) h =
    ap₂ (◌∷◌) (print-injective t u p q (unfold head_of in ap head_of h))
      (map_print-injective ts us ps qs (unfold tail_of in ap tail_of h))

join-stamps :
    (fs : List FileEntry) → zone_fingerprint (some fs) ≡ join (b'|' ∷ []) (map print (stamps fs))
unfolding zone_fingerprint lit
join-stamps fs = ap (join (b'|' ∷ [])) (fingerprint_parts-stamps fs)

abbrev pub stamps_of : Directory → List Stamp
stamps_of none = []
stamps_of (some fs) = stamps fs

abbrev pub DirectoryTold : (Stamp → Option Text) → Directory → Type 0
DirectoryTold content none = Unit
DirectoryTold content (some fs) = AllTold content fs

-- The stamps, read back from the fingerprint.
parts-stamps :
    (content : Stamp → Option Text) (d : Directory)
    → DirectoryTold content d
    → (parts_of (zone_fingerprint d) ≡ map print (stamps_of d)) × AllClean (stamps_of d)
parts-stamps content none told = (unfold zone_fingerprint parts_of in refl, tt)
parts-stamps content (some fs) told =
    let clean = stamps-AllClean content fs told in
    (ap parts_of (join-stamps fs) ∙ parts_of-join (stamps fs) clean, clean)

-- Directories with one fingerprint have one list of stamps.
pub zone_fingerprint-stamps :
    (content : Stamp → Option Text) (d e : Directory)
    → DirectoryTold content d
    → DirectoryTold content e
    → zone_fingerprint d ≡ zone_fingerprint e
    → stamps_of d ≡ stamps_of e
zone_fingerprint-stamps content d e p q h =
    let (of_d, clean_d) = parts-stamps content d p in
    let (of_e, clean_e) = parts-stamps content e q in
    map_print-injective (stamps_of d) (stamps_of e) clean_d clean_e
      (sym of_d ∙ ap parts_of h ∙ of_e)
