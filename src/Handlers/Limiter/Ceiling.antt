-- ===== src/Handlers/Limiter/Ceiling.antt =====
-- How many requests the buckets of internal/handlers/middleware.go can let through in a time.
use zfw_dark.Common.{
  ℕ, ◌+◌, ◌-◌, ◌*◌, ◌≤◌, suc, Bool, true, false, List, [], ◌∷◌, ◌≡◌, inl, inr, refl, ap, subst, ◌∙◌,
  arith, Bool-cases, if◌then◌else◌,
}
use zfw_dark.Common.Text.{Text}
use zfw_dark.Handlers.Limiter.{
  second, Bucket, Limiter, Readings, take_token, enter, ask_aggregate, allow,
}

-- Time times rate is additive.
span_mul : (a b r : ℕ) → (a + b) * r ≡ a * r + b * r
span_mul a b r = grind arith

-- A call takes what it lets through from what was there and what flowed in.
pub take_token-paid :
    (b : Bucket) (now : ℕ)
    → (if (take_token b now).1 then second else 0) + (take_token b now).0.tokens
      ≤ b.tokens + (now - b.last) * b.rate
unfolding take_token
take_token-paid b now = ground arith

pub take_token-fixed :
    (b : Bucket) (now : ℕ)
    → ((take_token b now).0.last ≡ now)
      × ((take_token b now).0.rate ≡ b.rate)
      × ((take_token b now).0.capacity ≡ b.capacity)
unfolding take_token
take_token-fixed b now = ground arith

-- What `capacity` is for: no call finds more.
pub take_token-le-capacity : (b : Bucket) (now : ℕ) → (take_token b now).0.tokens ≤ b.capacity
unfolding take_token
take_token-le-capacity b now = ground arith

-- After a quiet time in which one token flows in, a call is let through.
pub take_token-after_quiet :
    (b : Bucket) (now : ℕ)
    → second ≤ b.capacity
    → second ≤ (now - b.last) * b.rate
    → (take_token b now).1 ≡ true
unfolding take_token
take_token-after_quiet b now room quiet = ground arith

-- A call either is refused and leaves the aggregate alone, or is what the aggregate's own call is.
data Asked (k : Limiter) (now : ℕ) (out : Limiter × Bool) : Type 0 where
  refused : out.1 ≡ false → out.0.aggregate ≡ k.aggregate → Asked k now out
  asked :
      out.1 ≡ (take_token k.aggregate now).1
      → out.0.aggregate ≡ (take_token k.aggregate now).0
      → Asked k now out

ask_aggregate-Asked : (k : Limiter) (own : Bool) (now : ℕ) → Asked k now (ask_aggregate k own now)
unfolding ask_aggregate
ask_aggregate-Asked k false now = refused refl refl
ask_aggregate-Asked k true now = asked refl refl

allow-Asked : (k : Limiter) (key : Text) (t : Readings) → Asked k t.shared (allow k key t)
unfolding allow
allow-Asked k key t =
    elim (ask_aggregate-Asked _ (take_token (enter k key t.made).0.bucket t.own).1 t.shared) [
      | refused r a ↦ refused r a
      | asked r a ↦ asked r a
    ]

-- The requests that come in, and how many of them are let through.
unfoldable pub admit : Limiter → List (Text × Readings) → Limiter × ℕ
admit k [] = (k, 0)
admit k ((key, t) ∷ requests) =
    let (next, allowed) = allow k key t in
    let (out, n) = admit next requests in (out, if allowed then suc n else n)

-- The aggregate's readings of the clock do not go back, from one time to another.
abbrev pub InOrder : ℕ → List (Text × Readings) → ℕ → Type 0
InOrder from [] to = from ≤ to
InOrder from ((key, t) ∷ requests) to = (from ≤ t.shared) × InOrder t.shared requests to

InOrder-le :
    (from : ℕ) (requests : List (Text × Readings)) (to : ℕ) → InOrder from requests to → from ≤ to
InOrder-le from [] to order = order
InOrder-le from ((key, t) ∷ requests) to (later, order) =
    omega (arith, InOrder-le t.shared requests to order)

-- What was let through, and what is left, came from what was there and what flowed in.
abbrev Paid : Bucket → ℕ → ℕ → Bucket → Type 0
Paid b n to out = n * second + out.tokens ≤ b.tokens + (to - b.last) * b.rate

-- Of requests that a bucket is asked one after the other.
Paid-take_token :
    (b out : Bucket) (n now to : ℕ)
    → b.last ≤ now
    → now ≤ to
    → Paid (take_token b now).0 n to out
    → Paid b (if (take_token b now).1 then suc n else n) to out
Paid-take_token b out n now to started later rest =
    let (last, rate, _) = take_token-fixed b now in
    let whole : (to - b.last) * b.rate ≡ (now - b.last) * b.rate + (to - now) * b.rate =
      ap (λ t. t * b.rate) (omega arith) ∙ span_mul (now - b.last) (to - now) b.rate in
    let here = take_token-paid b now in
    let left : (to - (take_token b now).0.last) * (take_token b now).0.rate ≡ (to - now) * b.rate =
      rw (last, rate) refl in
    elim (Bool-cases (take_token b now).1) [
      | inl e ↦ let paid = rw e at here in rw e (omega arith)
      | inr e ↦ let paid = rw e at here in rw e (omega arith)
    ]

admit-Paid :
    (k : Limiter) (requests : List (Text × Readings)) (from to : ℕ)
    → k.aggregate.last ≤ from
    → InOrder from requests to
    → Paid k.aggregate (admit k requests).1 to (admit k requests).0.aggregate
unfolding admit
admit-Paid k [] from to started order = omega arith
admit-Paid k ((key, t) ∷ requests) from to started (later, order) = elim (allow-Asked k key t) [
  | refused r a ↦
      let same = ap (λ (b : Bucket). b.last) a in
      let rest = admit-Paid (allow k key t).0 requests t.shared to (omega arith) order in
      rw r (
        subst
          (λ b.
            Paid b (admit (allow k key t).0 requests).1 to
              (admit (allow k key t).0 requests).0.aggregate)
          a rest)
  | asked r a ↦
      let same = ap (λ (b : Bucket). b.last) a in
      let (last, _, _) = take_token-fixed k.aggregate t.shared in
      let rest = admit-Paid (allow k key t).0 requests t.shared to (omega arith) order in
      rw r (
        Paid-take_token k.aggregate (admit (allow k key t).0 requests).0.aggregate
          (admit (allow k key t).0 requests).1 t.shared to (omega arith)
          (InOrder-le t.shared requests to order)
          (subst
            (λ b.
              Paid b (admit (allow k key t).0 requests).1 to
                (admit (allow k key t).0 requests).0.aggregate)
            a rest))
]

-- Whatever keys the requests carry, no more of them are let through than the aggregate holds at
-- first and what flows into it until the last one.
pub admit-ceiling :
    (k : Limiter) (requests : List (Text × Readings)) (to : ℕ)
    → InOrder k.aggregate.last requests to
    → (admit k requests).1 * second
      ≤ k.aggregate.tokens + (to - k.aggregate.last) * k.aggregate.rate
admit-ceiling k requests to order =
    let paid = admit-Paid k requests k.aggregate.last to (omega arith) order in omega arith
