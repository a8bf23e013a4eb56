-- ===== src/Conntrack.antt =====
-- internal/conntrack/conntrack.go: the kernel's table of connections, line by line. The file and the
-- output of the conntrack tool are texts; `Read` takes the one that can be had.
pub mod First
pub mod Stream
use zfw_dark.Common.{
  ℕ, suc, ◌-◌, ◌^◌, Bool, true, false, not, ◌&&◌, ◌||◌, List, [], ◌∷◌, ◌++◌, Option, none, some,
}
use zfw_dark.Common.{length, all, any, ltb, leb, nat_eq, if◌then◌else◌}
use zfw_dark.Common.Int.{ℤ, pos, ltb_ℤ}
use zfw_dark.Common.Scan.{cut, fields, scan}
use zfw_dark.Common.Text.{Text, lit, ◌==◌, is_empty, between, atoi}

pub record Entry : Type 0 where
  pub protocol : Text
  pub state : Text
  pub src_ip : Text
  pub src_port : ℤ
  pub dst_ip : Text
  pub dst_port : ℤ
  pub age_sec : ℤ

-- The variables of the loop of `parseLine`.
pub record Seen : Type 0 where
  pub entry : Entry
  pub src : Bool
  pub dst : Bool
  pub sport : Bool
  pub dport : Bool

-- `isStateToken`.
unfoldable pub is_state_token : Text → Bool
is_state_token s =
    not (is_empty s)
    && not (any (λ c. nat_eq c b'=' || nat_eq c b'[' || nat_eq c b']') s)
    && all (λ c. between b'A' b'Z' c || nat_eq c b'_') s

-- `if p, err := strconv.Atoi(v); err == nil`, of a field that is 0.
abbrev pub number_or_zero : Option ℤ → ℤ
number_or_zero none = pos 0
number_or_zero (some n) = n

unfoldable pub see_src : Seen → Text → Seen
see_src s v = if s.src then s else record s { entry = record s.entry { src_ip = v }; src = true }

unfoldable pub see_dst : Seen → Text → Seen
see_dst s v = if s.dst then s else record s { entry = record s.entry { dst_ip = v }; dst = true }

unfoldable pub see_sport : Seen → Text → Seen
see_sport s v =
    if s.sport
    then s
    else record s { entry = record s.entry { src_port = number_or_zero (atoi v) }; sport = true }

unfoldable pub see_dport : Seen → Text → Seen
see_dport s v =
    if s.dport
    then s
    else record s { entry = record s.entry { dst_port = number_or_zero (atoi v) }; dport = true }

unfoldable pub see_pair : Seen → Text → Text → Seen
unfolding see_src see_dst see_sport see_dport
see_pair s k v =
    if k == lit "src"
    then see_src s v
    else if k == lit "dst"
    then see_dst s v
    else if k == lit "sport"
    then see_sport s v
    else if k == lit "dport"
    then see_dport s v
    else s

-- A field without an equals sign: the first that looks like a state is one.
unfoldable pub see_bare : Seen → Text → Seen
see_bare s f =
    if is_empty s.entry.state && is_state_token f
    then record s { entry = record s.entry { state = f } }
    else s

unfoldable pub see_cut : Seen → Text → Option (Text × Text) → Seen
unfolding see_pair see_bare
see_cut s f none = see_bare s f
see_cut s f (some (k, v)) = see_pair s k v

unfoldable pub see_fields : Seen → List Text → Seen
unfolding see_cut
see_fields s [] = s
see_fields s (f ∷ fs) = see_fields (see_cut s f (cut b'=' f)) fs

-- Without the name and the number of the network protocol.
abbrev pub strip_l3 : List Text → List Text
strip_l3 (a ∷ b ∷ c ∷ fs) = if a == lit "ipv4" || a == lit "ipv6" then c ∷ fs else a ∷ b ∷ c ∷ fs
strip_l3 fs = fs

abbrev pub unseen : Text → ℤ → Seen
unseen protocol age = record {
  entry = record {
    protocol = protocol;
    state = [];
    src_ip = [];
    src_port = pos 0;
    dst_ip = [];
    dst_port = pos 0;
    age_sec = age;
  };
  src = false;
  dst = false;
  sport = false;
  dport = false;
}

abbrev pub complete : Entry → Option Entry
complete e = if is_empty e.src_ip || is_empty e.dst_ip then none else some e

unfoldable pub parse_fields : List Text → Option Entry
unfolding see_fields
parse_fields (protocol ∷ number ∷ age ∷ next ∷ fs) =
    complete
      (see_fields (unseen protocol (number_or_zero (atoi age)))
        (protocol ∷ number ∷ age ∷ next ∷ fs)).entry
parse_fields _ = none

-- `parseLine`.
unfoldable pub parse_line : Text → Option Entry
unfolding parse_fields
parse_line line = parse_fields (strip_l3 (fields line))

-- How `parseStream` ends.
pub data StreamEnd : Type 0 where
  finished cancelled : StreamEnd

abbrev pub reached : ℤ → List Entry → Bool
reached limit out = ltb_ℤ (pos 0) limit && not (ltb_ℤ (pos (length out)) limit)

-- What a line adds: `done` says what the context says, `rest` is the loop on the lines behind.
unfoldable pub line_read :
    Bool
    → ℤ
    → List Entry
    → Option Entry
    → (List Entry → List Entry × StreamEnd)
    → List Entry × StreamEnd
line_read true limit out o rest = (out, cancelled)
line_read false limit out none rest = rest out
line_read false limit out (some e) rest =
    let more = out ++ e ∷ [] in
    let behind = rest more in if reached limit more then (more, finished) else behind

-- The loop of `parseStream`, at the line of an index and with the entries so far.
unfoldable pub read_stream : (ℕ → Bool) → ℤ → ℕ → List Entry → List Text → List Entry × StreamEnd
unfolding line_read
read_stream done limit i out [] = (out, finished)
read_stream done limit i out (line ∷ ls) =
    line_read (done i) limit out (parse_line line) (λ more. read_stream done limit (suc i) more ls)

-- `parseStream`. The error of the scanner is not asked for.
unfoldable pub parse_stream : (ℕ → Bool) → ℤ → Text → List Entry × StreamEnd
unfolding read_stream
parse_stream done limit s = read_stream done limit 0 [] (scan (2 ^ 20) s).0

-- `readProc` and `readCmd`: what their stream holds, if it can be had.
abbrev pub stream_result : List Entry × StreamEnd → Option (List Entry)
stream_result (out, finished) = some out
stream_result (out, cancelled) = none

unfoldable pub read_source : (ℕ → Bool) → ℤ → Option Text → Option (List Entry)
unfolding parse_stream
read_source done limit none = none
read_source done limit (some s) = stream_result (parse_stream done limit s)

-- `Read`: the tool is asked if the file gives an error; `none` is an error of both.
unfoldable pub read : (ℕ → Bool) → (ℕ → Bool) → ℤ → Option Text → Option Text → Option (List Entry)
read done_file done_tool limit file tool = elim (read_source done_file limit file) [
  | some out ↦ some out
  | none ↦ read_source done_tool limit tool
]
