-- ===== src/Events/Histogram.antt =====
-- internal/events/events.go, `classifySource`: the maps that count the ports of a window.
use zfw_dark.Common.{
  ℕ, suc, ◌+◌, true, false, List, [], ◌∷◌, ◌++◌, ◌≡◌, refl, sym, ◌∙◌, inl, inr, arith, Bool-cases,
  nat_eq, length, if◌then◌else◌,
}
use zfw_dark.Common.Int.{ℤ, pos, eq_ℤ, eq_ℤ_iff, ◌≤ℤ◌, add_nat}
use zfw_dark.Events.{Counts, count_of, count_up, count_down, minus_one}

-- How often a port is in a list.
unfoldable pub occurs : ℤ → List ℤ → ℕ
occurs p [] = 0
occurs p (q ∷ ps) = if eq_ℤ q p then suc (occurs p ps) else occurs p ps

-- How many ports are in a list, each counted once.
unfoldable pub distinct : List ℤ → ℕ
unfolding occurs
distinct [] = 0
distinct (p ∷ ps) = if nat_eq (occurs p ps) 0 then suc (distinct ps) else distinct ps

pub occurs-snoc :
    (p q : ℤ) (ps : List ℤ) → occurs q (ps ++ p ∷ []) ≡ occurs q ps + (if eq_ℤ p q then 1 else 0)
unfolding occurs
occurs-snoc p q [] = ground arith
occurs-snoc p q (r ∷ ps) = ground (arith, occurs-snoc p q ps)

same_ℤ : (p q : ℤ) → eq_ℤ p q ≡ true → p ≡ q
same_ℤ p q h = (eq_ℤ_iff p q).0 h

eq_ℤ_swap : (p q : ℤ) → eq_ℤ p q ≡ eq_ℤ q p
eq_ℤ_swap p q = ground arith

eq_ℤ_same : (p : ℤ) → eq_ℤ p p ≡ true
eq_ℤ_same p = (eq_ℤ_iff p p).1 refl

pub distinct-snoc :
    (p : ℤ) (ps : List ℤ)
    → distinct (ps ++ p ∷ []) ≡ (if nat_eq (occurs p ps) 0 then suc (distinct ps) else distinct ps)
unfolding distinct occurs
distinct-snoc p [] = refl
distinct-snoc p (q ∷ ps) = elim (Bool-cases (eq_ℤ q p)) [
  | inl e ↦
      let same : q ≡ p = same_ℤ q p e in
      rw (same, eq_ℤ_same p, occurs-snoc p p ps, distinct-snoc p ps) (ground (arith, eq_ℤ_same p))
  | inr e ↦
      let apart : eq_ℤ p q ≡ false = eq_ℤ_swap p q ∙ e in
      rw (e, occurs-snoc p q ps, apart, distinct-snoc p ps) (ground arith)
]

-- Every entry counts something, and no port has two.
abbrev Good : Counts → Type 0
Good [] = Unit
Good ((q, n) ∷ m) = (pos 1 ≤ℤ n) × (count_of q m ≡ pos 0) × Good m

count_of-count_up :
    (p q : ℤ) (m : Counts)
    → count_of q (count_up p m) ≡ (if eq_ℤ p q then add_nat (count_of q m) 1 else count_of q m)
unfolding count_of count_up
count_of-count_up p q [] = ground arith
count_of-count_up p q ((r, n) ∷ m) = elim (Bool-cases (eq_ℤ r p)) [
  | inl e ↦ let same : r ≡ p = same_ℤ r p e in rw (same, eq_ℤ_same p) (ground arith)
  | inr e ↦ elim (Bool-cases (eq_ℤ r q)) [
    | inl f ↦
        let same : r ≡ q = same_ℤ r q f in
        let apart : eq_ℤ p q ≡ false = eq_ℤ_swap p q ∙ rw same at e in rw (e, f, apart) refl
    | inr f ↦ rw (e, f, count_of-count_up p q m) refl
  ]
]

Good-count_up : (p : ℤ) (m : Counts) → Good m → Good (count_up p m)
unfolding count_up count_of
Good-count_up p [] h = (omega arith, refl, tt)
Good-count_up p ((q, n) ∷ m) (some_one, fresh, h) = elim (Bool-cases (eq_ℤ q p)) [
  | inl e ↦ rw e (ground arith, fresh, h)
  | inr e ↦
      let apart : eq_ℤ p q ≡ false = eq_ℤ_swap p q ∙ e in
      rw e (some_one, rw (count_of-count_up p q m, apart) fresh, Good-count_up p m h)
]

length-count_up :
    (p : ℤ) (m : Counts)
    → Good m
    → length (count_up p m) ≡ (if eq_ℤ (count_of p m) (pos 0) then suc (length m) else length m)
unfolding count_up count_of
length-count_up p [] h = refl
length-count_up p ((q, n) ∷ m) (some_one, fresh, h) = ground (arith, length-count_up p m h)

count_of-count_down :
    (p q : ℤ) (m : Counts)
    → Good m
    → count_of q (count_down p m) ≡ (if eq_ℤ p q then minus_one (count_of q m) else count_of q m)
unfolding count_of count_down
count_of-count_down p q [] h = ground arith
count_of-count_down p q ((r, n) ∷ m) (some_one, fresh, h) = elim (Bool-cases (eq_ℤ r p)) [
  | inl e ↦
      let same : r ≡ p = same_ℤ r p e in
      elim (Bool-cases (eq_ℤ (minus_one n) (pos 0))) [
        | inl last ↦ elim (Bool-cases (eq_ℤ p q)) [
          | inl f ↦
              let mine : p ≡ q = same_ℤ p q f in
              let none_left : count_of q m ≡ pos 0 = rw (same, mine) at fresh in
              rw (same, eq_ℤ_same p, last, f) (none_left ∙ sym (same_ℤ _ _ last))
          | inr f ↦ rw (same, eq_ℤ_same p, last, f) refl
        ]
        | inr more ↦ rw (same, eq_ℤ_same p, more) (ground arith)
      ]
  | inr e ↦ elim (Bool-cases (eq_ℤ r q)) [
    | inl f ↦
        let same : r ≡ q = same_ℤ r q f in
        let apart : eq_ℤ p q ≡ false = eq_ℤ_swap p q ∙ rw same at e in rw (e, f, apart) refl
    | inr f ↦ rw (e, f, count_of-count_down p q m h) refl
  ]
]

Good-count_down : (p : ℤ) (m : Counts) → Good m → pos 1 ≤ℤ count_of p m → Good (count_down p m)
unfolding count_down count_of
Good-count_down p [] h some_p = absurd (omega arith)
Good-count_down p ((q, n) ∷ m) (some_one, fresh, h) some_p = elim (Bool-cases (eq_ℤ q p)) [
  | inl e ↦ elim (Bool-cases (eq_ℤ (minus_one n) (pos 0))) [
    | inl last ↦ rw (e, last) h
    | inr more ↦ rw (e, more) (ground arith, fresh, h)
  ]
  | inr e ↦
      let apart : eq_ℤ p q ≡ false = eq_ℤ_swap p q ∙ e in
      rw e (
        some_one,
        rw (count_of-count_down p q m h, apart) fresh,
        Good-count_down p m h (rw e at some_p),
      )
]

length-count_down :
    (p : ℤ) (m : Counts)
    → pos 1 ≤ℤ count_of p m
    → length m ≡ (
        if eq_ℤ (count_of p m) (pos 1)
        then suc (length (count_down p m))
        else length (count_down p m))
unfolding count_down count_of
length-count_down p [] h = absurd (omega arith)
length-count_down p ((q, n) ∷ m) h = ground (arith, length-count_down p m)

-- A map counts the ports of a list.
pub record Counted (m : Counts) (ps : List ℤ) : Type 0 where
  pub good : Good m
  pub count : (p : ℤ) → count_of p m ≡ pos (occurs p ps)
  pub size : length m ≡ distinct ps

pub Counted-nil : Counted [] []
unfolding count_of occurs distinct
Counted-nil = record { good = tt; count = λ p. refl; size = refl }

pub Counted-up :
    (p : ℤ) (m : Counts) (ps : List ℤ) → Counted m ps → Counted (count_up p m) (ps ++ p ∷ [])
Counted-up p m ps c = record {
  good = Good-count_up p m c.good;
  count = λ q. rw (count_of-count_up p q m, occurs-snoc p q ps, c.count q) (ground arith);
  size = rw (length-count_up p m c.good, distinct-snoc p ps, c.count p, c.size) (ground arith);
}

pub Counted-down :
    (p : ℤ) (m : Counts) (ps : List ℤ) → Counted m (p ∷ ps) → Counted (count_down p m) ps
unfolding occurs distinct
Counted-down p m ps c =
    let here : count_of p m ≡ pos (suc (occurs p ps)) = c.count p ∙ rw (eq_ℤ_same p) refl in
    let some_p : pos 1 ≤ℤ count_of p m = rw here (omega arith) in
    let len = rw here at (length-count_down p m some_p) in
    let size = c.size in
    let shorter : length (count_down p m) ≡ distinct ps = ground arith in
    record {
      good = Good-count_down p m c.good some_p;
      count = λ q. rw (count_of-count_down p q m c.good, c.count q) (ground arith);
      size = shorter;
    }
