-- ===== src/Gateway.antt =====
-- internal/gateway/gateway.go: the route of the daemon at the gateway. The requests and the JSON of
-- the routes are parameters.
use zfw_dark.Common.{
  ℕ, ◌*◌, ◌/◌, Bool, true, false, ◌||◌, List, [], ◌∷◌, ◌++◌, Option, none, some, ◌≡◌, ◌≤◌, ◌⊎◌,
  arith, All, nat_eq, ltb, if◌then◌else◌,
}
use zfw_dark.Common.Result.{Result, ok, err}
use zfw_dark.Common.Scan.{has_prefix, trim_right}
use zfw_dark.Common.Text.{Text, lit, ◌==◌, is_empty, trim_space}

-- `route`.
pub record Route : Type 0 where
  pub path : Text
  pub target : Text

pub data GatewayError : Type 0 where
  url_unread url_empty no_response bad_routes not_registered : GatewayError
  bad_status : ℕ → GatewayError

unfoldable pub normal_url : Text → Result GatewayError Text
normal_url u =
    let full =
      if has_prefix (lit "http://") u || has_prefix (lit "https://") u
      then u
      else lit "http://" ++ u in
    if is_empty u then err url_empty else ok (trim_right (nat_eq b'/') full)

-- `mgmtURL`, by what `os.ReadFile` gives.
unfoldable pub mgmt_url : Option Text → Result GatewayError Text
unfolding normal_url
mgmt_url none = err url_unread
mgmt_url (some b) = normal_url (trim_space b)

abbrev routes_url : Text → Text
routes_url base = base ++ lit "/v1/gateway/routes"

unfoldable pub judge_status : Option ℕ → Result GatewayError (Unit {0})
judge_status none = err no_response
judge_status (some code) = if nat_eq (code / 100) 2 then ok tt else err (bad_status code)

-- `Register`: `post` gives the status of a POST of the route, none if it gets no response.
unfoldable pub register :
    (Text → Route → Option ℕ) → Route → Result GatewayError Text → Result GatewayError (Unit {0})
unfolding judge_status
register post route (err e) = err e
register post route (ok base) = judge_status (post (routes_url base) route)

unfoldable pub find_target : Text → List Route → Result GatewayError Text
find_target path [] = err not_registered
find_target path (r ∷ rs) =
    let rest = find_target path rs in if r.path == path then ok r.target else rest

unfoldable pub target_in : Text → Option (List Route) → Result GatewayError Text
unfolding find_target
target_in path none = err bad_routes
target_in path (some routes) = find_target path routes

unfoldable pub routes_of : Text → Option (ℕ × Option (List Route)) → Result GatewayError Text
unfolding target_in
routes_of path none = err no_response
routes_of path (some (code, routes)) =
    if nat_eq (code / 100) 2 then target_in path routes else err (bad_status code)

-- `LookupTarget`: `get` gives the status and the routes that the body decodes to.
unfoldable pub lookup_target :
    (Text → Option (ℕ × Option (List Route)))
    → Text
    → Result GatewayError Text
    → Result GatewayError Text
unfolding routes_of
lookup_target get path (err e) = err e
lookup_target get path (ok base) = routes_of path (get (routes_url base))

-- The waits in seconds of the first loop of `RegisterWithRetry`, by whether each attempt succeeds, as
-- far as the context lasts.
unfoldable pub retry_delays : ℕ → List Bool → List ℕ
retry_delays delay [] = []
retry_delays delay (true ∷ rest) = []
retry_delays delay (false ∷ rest) =
    delay ∷ retry_delays (if ltb delay 30 then delay * 2 else delay) rest

-- The waits of doublings from 2 seconds on.
abbrev Doubled : ℕ → Type 0
Doubled d = (d ≡ 2) ⊎ (d ≡ 4) ⊎ (d ≡ 8) ⊎ (d ≡ 16) ⊎ (d ≡ 32)

-- From 2 seconds on every wait is a doubling of it, up to 32 seconds.
retry_delays-Doubled :
    (delay : ℕ) (attempts : List Bool) → Doubled delay → All Doubled (retry_delays delay attempts)
unfolding retry_delays
retry_delays-Doubled delay [] h = tt
retry_delays-Doubled delay (true ∷ rest) h = tt
retry_delays-Doubled delay (false ∷ rest) h =
    (h, retry_delays-Doubled (if ltb delay 30 then delay * 2 else delay) rest (ground arith))

-- Where `RegisterWithRetry` is: in its first loop, with the next wait in seconds, or at its ticker.
pub data Turn : Type 0 where
  retrying : ℕ → Turn
  renewing : Turn

-- The wait after an attempt, by whether it succeeded.
unfoldable pub wait_of : Turn → Bool → ℕ
wait_of (retrying delay) false = delay
wait_of (retrying delay) true = 300
wait_of renewing registered = 300

unfoldable pub next_turn : Turn → Bool → Turn
next_turn (retrying delay) false = retrying (if ltb delay 30 then delay * 2 else delay)
next_turn (retrying delay) true = renewing
next_turn renewing registered = renewing

-- The waits of `RegisterWithRetry`, from `retrying 2`, as far as the context lasts.
unfoldable pub register_waits : Turn → List Bool → List ℕ
unfolding wait_of next_turn
register_waits turn [] = []
register_waits turn (registered ∷ rest) =
    wait_of turn registered ∷ register_waits (next_turn turn registered) rest

abbrev Timely : Turn → Type 0
Timely (retrying delay) = Doubled delay
Timely renewing = Unit

wait_of-Timely :
    (turn : Turn) (registered : Bool)
    → Timely turn
    → (wait_of turn registered ≤ 300) × Timely (next_turn turn registered)
unfolding wait_of next_turn
wait_of-Timely (retrying delay) false h = (ground arith, ground arith)
wait_of-Timely (retrying delay) true h = (omega arith, tt)
wait_of-Timely renewing registered h = (omega arith, tt)

-- Whatever the attempts give, no wait is longer than five minutes.
register_waits-Timely :
    (turn : Turn) (attempts : List Bool)
    → Timely turn
    → All (λ w. w ≤ 300) (register_waits turn attempts)
unfolding register_waits
register_waits-Timely turn [] h = tt
register_waits-Timely turn (registered ∷ rest) h =
    let (short, timely) = wait_of-Timely turn registered h in
    (short, register_waits-Timely (next_turn turn registered) rest timely)
