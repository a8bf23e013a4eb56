-- ===== src/Events/Reading.antt =====
-- `Read` and `parseDropLine` of internal/events/events.go. The text is what journalctl writes, and
-- `decode` reads the message and the time stamp of a line of JSON.
use zfw_dark.Common.{
  ℕ, zero, suc, ◌≤◌, ◌^◌, true, not, ◌&&◌, List, [], ◌∷◌, ◌++◌, reverse, Option, none, some, ◌≡◌,
  ◌⊎◌, refl, sym, ap, subst, ◌∙◌, inl, inr, arith, Bool-cases,
}
use zfw_dark.Common.{
  length, take, drop, leb, if◌then◌else◌, length-append, length-drop, take-append-drop, leb_iff,
  append-nil, append_assoc,
}
use zfw_dark.Common.Int.{ℤ, pos, negsuc}
use zfw_dark.Common.Scan.{has_prefix, cut, fields, scan}
use zfw_dark.Common.Text.{Text, Std, lit, ◌==◌, is_empty, atoi, to_lower}
use zfw_dark.Events.{Event, classify}

abbrev pub field_then : Text → Text → Option (Text × Text) → Text
field_then k old none = old
field_then k old (some (j, v)) = if j == k && not (is_empty v) then v else old

-- `fields[k]`: the value of the last field with the key.
unfoldable pub field_value : Text → Text → List Text → Text
field_value k old [] = old
field_value k old (f ∷ fs) = field_value k (field_then k old (cut b'=' f)) fs

-- The `switch` on the prefix.
unfoldable pub zone_of : Text → Option Text
zone_of msg =
    if has_prefix (lit "ZFW-IN6-DROP") msg
    then some (lit "host6")
    else if has_prefix (lit "ZFW-IN-DROP") msg
    then some (lit "host")
    else if has_prefix (lit "ZFW-DOCK-DROP") msg
    then some (lit "docker")
    else none

-- A `time.Time` that is not set: the year 1.
abbrev pub zero_time : ℤ
zero_time = negsuc 62135596799999999

abbrev pub number_or : ℤ → Option ℤ → ℤ
number_or d none = d
number_or d (some n) = n

unfoldable pub drop_event : Std → Text → Text → Option Text → Option Event
unfolding field_value
drop_event std msg ts none = none
drop_event std msg ts (some zone) = some (record {
  time = number_or zero_time (atoi ts);
  source = field_value (lit "SRC") [] (fields msg);
  port = number_or (pos 0) (atoi (field_value (lit "DPT") [] (fields msg)));
  protocol = to_lower std (field_value (lit "PROTO") [] (fields msg));
  zone = zone;
  threats = [];
})

-- `parseDropLine`.
unfoldable pub parse_drop_line : Std → Text → Text → Option Event
unfolding zone_of drop_event
parse_drop_line std msg ts = drop_event std msg ts (zone_of msg)

abbrev pub max_raw_events : ℕ
max_raw_events = 50000

-- `out = append(out[:0], out[maxRawEvents/2:]...)` when it is full, and the new event.
unfoldable pub append_event : List Event → Event → List Event
append_event out e = (if leb max_raw_events (length out) then drop 25000 out else out) ++ e ∷ []

module _ (std : Std) (decode : Text → Option (Text × Text)) where
  unfoldable pub parse_entry : Option (Text × Text) → Option Event
  unfolding parse_drop_line
  parse_entry none = none
  parse_entry (some (msg, ts)) = parse_drop_line std msg ts

  abbrev pub append_found : List Event → Option Event → List Event
  append_found out none = out
  append_found out (some e) = append_event out e

  -- The loop of `Read`.
  unfoldable pub collect : List Event → List Text → List Event
  unfolding parse_entry append_event
  collect out [] = out
  collect out (line ∷ ls) = collect (append_found out (parse_entry (decode line))) ls

  abbrev pub limited : ℤ → List Event → List Event
  limited (pos zero) es = es
  limited (pos (suc n)) es = take (suc n) es
  limited (negsuc n) es = es

  -- `Read`, once journalctl has started; `order` is that of `Classify`.
  unfoldable pub read_events : (List Event → List Text) → ℤ → Text → List Event
  unfolding collect
  read_events order limit s =
      let out = collect [] (scan (2 ^ 20) s).0 in limited limit (reverse (classify (order out) out))

  -- The events of all the lines, oldest first.
  abbrev found_then : Option Event → List Event → List Event
  found_then none rest = rest
  found_then (some e) rest = e ∷ rest

  unfoldable pub all_events : List Text → List Event
  all_events [] = []
  all_events (line ∷ ls) = found_then (parse_entry (decode line)) (all_events ls)

  -- What is kept is the end of all, and all of it unless there are more than fit.
  pub record Newest (out all : List Event) : Type 0 where
    pub dropped : List Event
    pub split_up : all ≡ dropped ++ out
    pub bounded : length out ≤ 50000
    pub enough : (dropped ≡ []) ⊎ (25001 ≤ length out)

  half_size :
      (out : List Event) (e : Event)
      → leb max_raw_events (length out) ≡ true
      → length out ≤ 50000
      → (25001 ≤ length (drop 25000 out ++ e ∷ [])) × (length (drop 25000 out ++ e ∷ []) ≤ 50000)
  half_size out e full bound =
      let at_least : 50000 ≤ length out = (leb_iff 50000 (length out)).0 full in
      (
        omega (arith, length-append (drop 25000 out) (e ∷ []), length-drop 25000 out),
        omega (arith, length-append (drop 25000 out) (e ∷ []), length-drop 25000 out),
      )

  append_event-Newest :
      (out all : List Event) (e : Event)
      → Newest out all
      → Newest (append_event out e) (all ++ e ∷ [])
  unfolding append_event
  append_event-Newest out all e n = elim (Bool-cases (leb max_raw_events (length out))) [
    | inl full ↦
        let (low, high) = half_size out e full n.bounded in
        rw full (record {
          dropped = n.dropped ++ take 25000 out;
          split_up =
              ap (λ es. es ++ e ∷ [])
                (n.split_up
                  ∙ ap (λ es. n.dropped ++ es) (sym (take-append-drop 25000 out))
                  ∙ sym (append_assoc n.dropped (take 25000 out) (drop 25000 out)))
              ∙ append_assoc (n.dropped ++ take 25000 out) (drop 25000 out) (e ∷ []);
          bounded = high;
          enough = inr low;
        })
    | inr room ↦
        let size = length-append out (e ∷ []) in
        rw room (record {
          dropped = n.dropped;
          split_up = ap (λ es. es ++ e ∷ []) n.split_up ∙ append_assoc n.dropped out (e ∷ []);
          bounded = ground arith;
          enough = elim n.enough [
            | inl none_dropped ↦ inl none_dropped
            | inr many ↦ inr (omega arith)
          ];
        })
  ]

  append_found-Newest :
      (out all : List Event) (o : Option Event)
      → Newest out all
      → Newest (append_found out o) (all ++ found_then o [])
  append_found-Newest out all none n = rw (append-nil all) n
  append_found-Newest out all (some e) n = append_event-Newest out all e n

  found_then-append :
      (all : List Event) (o : Option Event) (rest : List Event)
      → (all ++ found_then o []) ++ rest ≡ all ++ found_then o rest
  found_then-append all none rest = rw (append-nil all) refl
  found_then-append all (some e) rest = append_assoc all (e ∷ []) rest

  collect-kept :
      (out all : List Event) (ls : List Text)
      → Newest out all
      → Newest (collect out ls) (all ++ all_events ls)
  unfolding collect all_events
  collect-kept out all [] n = rw (append-nil all) n
  collect-kept out all (line ∷ ls) n =
      subst (λ es. Newest (collect (append_found out (parse_entry (decode line))) ls) es)
        (found_then-append all (parse_entry (decode line)) (all_events ls))
        (collect-kept (append_found out (parse_entry (decode line))) _ ls
          (append_found-Newest out all (parse_entry (decode line)) n))

  -- The loop of Read keeps the newest events of the firewall, in their order: never more than 50,000,
  -- and all of them or at least 25,001.
  pub collect-Newest : (ls : List Text) → Newest (collect [] ls) (all_events ls)
  collect-Newest ls =
      collect-kept [] [] ls
        (record { dropped = []; split_up = refl; bounded = omega arith; enough = inl refl })
