-- ===== src/Conntrack/First.antt =====
-- internal/conntrack/conntrack.go, `parseLine`: the tokens of a line and the first occurrence of a key.
use zfw_dark.Common.{
  Bool, true, false, not, List, [], ◌∷◌, Option, none, some, ◌≡◌, if◌then◌else◌, length, ◌<◌, ◌≢◌,
}
use zfw_dark.Common.Int.{ℤ, pos}
use zfw_dark.Common.Scan.{cut}
use zfw_dark.Common.Text.{Text, lit, ◌==◌, is_empty, atoi}
use zfw_dark.Conntrack.{Entry, Seen, is_state_token, number_or_zero, complete}

abbrev value_in : Text → Option (Text × Text) → Option Text → Option Text
value_in k none rest = rest
value_in k (some (j, v)) rest = if j == k then some v else rest

-- The value of the first field that has the key.
unfoldable pub first_value : Text → List Text → Option Text
first_value k [] = none
first_value k (f ∷ fs) = value_in k (cut b'=' f) (first_value k fs)

abbrev state_in : Text → Option (Text × Text) → Option Text → Option Text
state_in f none rest = if is_state_token f then some f else rest
state_in f (some _) rest = rest

-- The first field without an equals sign that looks like a state.
unfoldable pub first_state : List Text → Option Text
first_state [] = none
first_state (f ∷ fs) = state_in f (cut b'=' f) (first_state fs)

abbrev pub or_empty : Option Text → Text
or_empty none = []
or_empty (some v) = v

abbrev pub or_zero : Option Text → ℤ
or_zero none = pos 0
or_zero (some v) = number_or_zero (atoi v)

-- The connection that the fields describe.
abbrev pub entry_of : Text → Text → List Text → Entry
entry_of protocol age fs = record {
  protocol = protocol;
  state = or_empty (first_state fs);
  src_ip = or_empty (first_value (lit "src") fs);
  src_port = or_zero (first_value (lit "sport") fs);
  dst_ip = or_empty (first_value (lit "dst") fs);
  dst_port = or_zero (first_value (lit "dport") fs);
  age_sec = number_or_zero (atoi age);
}

abbrev pub entry_in : List Text → Option Entry
entry_in (protocol ∷ number ∷ age ∷ next ∷ fs) =
    complete (entry_of protocol age (protocol ∷ number ∷ age ∷ next ∷ fs))
entry_in _ = none

abbrev pick : {A : Type 0} → Bool → A → (Text → A) → Option Text → A
pick true old f o = old
pick false old f none = old
pick false old f (some v) = f v

abbrev port : Text → ℤ
port v = number_or_zero (atoi v)

-- What the loop makes of an entry when these are the first values behind.
abbrev filled : Seen → Option Text → Option Text → Option Text → Option Text → Option Text → Entry
filled s src dst sport dport state = record {
  protocol = s.entry.protocol;
  state = pick (not (is_empty s.entry.state)) s.entry.state (λ v. v) state;
  src_ip = pick s.src s.entry.src_ip (λ v. v) src;
  src_port = pick s.sport s.entry.src_port port sport;
  dst_ip = pick s.dst s.entry.dst_ip (λ v. v) dst;
  dst_port = pick s.dport s.entry.dst_port port dport;
  age_sec = s.entry.age_sec;
}

-- The keys that `parseLine` asks for.
data KeyCase (k : Text) : Type 0 where
  src_key : k ≡ lit "src" → KeyCase k
  dst_key : k ≡ lit "dst" → KeyCase k
  sport_key : k ≡ lit "sport" → KeyCase k
  dport_key : k ≡ lit "dport" → KeyCase k
  other_key :
      (k == lit "src") ≡ false
      → (k == lit "dst") ≡ false
      → (k == lit "sport") ≡ false
      → (k == lit "dport") ≡ false
      → KeyCase k

module _ (s : Seen) (src dst sport dport state : Option Text) where
  -- The first values behind a field, and from the field on.
  abbrev filled_in : Text → Option (Text × Text) → Entry
  filled_in f o =
      filled s (value_in (lit "src") o src) (value_in (lit "dst") o dst)
        (value_in (lit "sport") o sport) (value_in (lit "dport") o dport) (state_in f o state)

-- The fields that describe the connection: those behind the name and the number of the network protocol,
-- or all of them if they do not begin with such a name, or are too few.
pub data Described (fs gs : List Text) : Type 0 where
  behind_ipv4 : (number : Text) → fs ≡ lit "ipv4" ∷ number ∷ gs → gs ≢ [] → Described fs gs
  behind_ipv6 : (number : Text) → fs ≡ lit "ipv6" ∷ number ∷ gs → gs ≢ [] → Described fs gs
  from_protocol :
      (protocol : Text) (rest : List Text)
      → fs ≡ protocol ∷ rest
      → protocol ≢ lit "ipv4"
      → protocol ≢ lit "ipv6"
      → gs ≡ fs
      → Described fs gs
  too_few : length fs < 3 → gs ≡ fs → Described fs gs
