-- ===== src/LimiterTests.antt =====
-- The theorems on internal/handlers/middleware.go applied to the limiter of mutating requests, as
-- `NewServer` makes it.
use zfw_dark.Common.{ℕ, ◌+◌, ap, ◌≤◌, ◌*◌, true, List, [], ◌∷◌, ◌≡◌, ◌≢◌, arith}
use zfw_dark.Common.{length}
use zfw_dark.Common.Text.{Text}
use zfw_dark.Handlers.Limiter.{
  second, Bucket, Limiter, Readings, new_bucket, new_limiter, take_token, allow,
}
use zfw_dark.Handlers.Limiter.Ceiling.{take_token-after_quiet, admit, admit-ceiling}
use zfw_dark.Handlers.Limiter.Clients.{allow-table_bounded}

abbrev mutating : Limiter
unfolding new_limiter new_bucket
mutating = new_limiter 1 10 3 30 0

abbrev at : ℕ → Readings
at t = record { made = t; seen = t; own = t; shared = t }

abbrev first : Text
first = b'a' ∷ []

abbrev second_key : Text
second_key = b'a' ∷ b'b' ∷ []

abbrev drained : Bucket
drained = record { tokens = 0; capacity = 10 * second; rate = 1; last = 5 * second }

take_token-after_quiet_example : (take_token drained (7 * second)).1 ≡ true
take_token-after_quiet_example =
    take_token-after_quiet drained (7 * second) (omega arith) (omega arith)

abbrev flood : List (Text × Readings)
flood = (first, at second) ∷ (second_key, at (2 * second)) ∷ (first, at (2 * second)) ∷ []

admit-ceiling_example : (admit mutating flood).1 * second ≤ 30 * second + 4 * second * 3
unfolding new_limiter new_bucket
admit-ceiling_example =
    admit-ceiling mutating flood (4 * second)
      (omega arith, (omega arith, (omega arith, omega arith)))

allow-table_bounded_example : length (allow mutating first (at second)).0.clients ≤ 4096
unfolding new_limiter
allow-table_bounded_example = allow-table_bounded mutating first (at second) (omega arith)

differ : second_key ≢ first
differ e = let h = ap length e in omega arith
