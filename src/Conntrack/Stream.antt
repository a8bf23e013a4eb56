-- ===== src/Conntrack/Stream.antt =====
-- internal/conntrack/conntrack.go, `parseStream`: the entries over the lines of a stream.
use zfw_dark.Common.{
  ℕ, zero, suc, ◌^◌, Bool, true, false, List, [], ◌∷◌, ◌++◌, Option, none, some, ◌≡◌, refl, sym, ap,
  ◌∙◌, inl, inr, arith, Bool-cases, Option-cases, length-append, take, take-short, take-exact,
  append-nil, append_assoc,
}
use zfw_dark.Common.Int.{ℤ, pos, negsuc}
use zfw_dark.Common.Scan.{scan}
use zfw_dark.Common.Text.{Text}
use zfw_dark.Conntrack.{Entry, finished, parse_line, reached, read_stream, parse_stream}

abbrev pub entry_then : Option Entry → List Entry → List Entry
entry_then none rest = rest
entry_then (some e) rest = e ∷ rest

-- The entries of all the lines.
unfoldable pub entries : List Text → List Entry
entries [] = []
entries (line ∷ ls) = entry_then (parse_line line) (entries ls)

-- At most as many as the limit; 0 and less is no limit.
abbrev pub capped : ℤ → List Entry → List Entry
capped (pos zero) es = es
capped (pos (suc n)) es = take (suc n) es
capped (negsuc n) es = es

-- There is no limit, or the entries so far have not reached it.
abbrev Open : ℤ → List Entry → Type 0
Open limit out = reached limit out ≡ false

abbrev pub never : ℕ → Bool
never i = false

capped-Open : (limit : ℤ) (out : List Entry) → Open limit out → capped limit out ≡ out
capped-Open (pos zero) out h = refl
capped-Open (pos (suc n)) out h = take-short (suc n) out (ground arith)
capped-Open (negsuc n) out h = refl

capped-reached :
    (limit : ℤ) (out behind : List Entry) (e : Entry)
    → Open limit out
    → reached limit (out ++ e ∷ []) ≡ true
    → capped limit ((out ++ e ∷ []) ++ behind) ≡ out ++ e ∷ []
capped-reached (pos zero) out behind e h k = cc
capped-reached (pos (suc n)) out behind e h k =
    let size = length-append out (e ∷ []) in
    take-exact (suc n) (out ++ e ∷ []) behind (ground (arith, size))
capped-reached (negsuc n) out behind e h k = ground arith

-- The loop gives the entries so far and those of the lines behind, up to the limit.
read_stream-capped :
    (limit : ℤ) (i : ℕ) (out : List Entry) (ls : List Text)
    → Open limit out
    → read_stream never limit i out ls ≡ (capped limit (out ++ entries ls), finished)
unfolding read_stream entries
read_stream-capped limit i out [] h = rw (append-nil out, capped-Open limit out h) refl
read_stream-capped limit i out (line ∷ ls) h = elim (Option-cases (parse_line line)) [
  | inl e ↦ rw e (read_stream-capped limit (suc i) out ls h)
  | inr (entry, e) ↦ elim (Bool-cases (reached limit (out ++ entry ∷ []))) [
    | inl full ↦
        rw (e, full)
          (ap (λ es. (es, finished))
            (sym (
              ap (capped limit) (sym (append_assoc out (entry ∷ []) (entries ls)))
              ∙ capped-reached limit out (entries ls) entry h full)))
    | inr room ↦
        rw (e, room)
          (read_stream-capped limit (suc i) (out ++ entry ∷ []) ls room
            ∙ ap (λ es. (capped limit es, finished)) (append_assoc out (entry ∷ []) (entries ls)))
  ]
]

-- While the context is not done, parseStream gives the entries of the lines that the scanner reads, in
-- order, and no more of them than a positive limit.
pub parse_stream-capped :
    (limit : ℤ) (s : Text)
    → parse_stream never limit s ≡ (capped limit (entries (scan (2 ^ 20) s).0), finished)
unfolding parse_stream
parse_stream-capped limit s = read_stream-capped limit 0 [] (scan (2 ^ 20) s).0 (ground arith)
