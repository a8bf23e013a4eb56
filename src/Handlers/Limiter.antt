-- ===== src/Handlers/Limiter.antt =====
-- internal/handlers/middleware.go: `rateBucket`, `keyedLimiter` and the wrappers of the handlers.
-- Times are nanoseconds of the monotonic clock. A token counts 10^9, so that the tokens which flow in
-- while time passes are a whole number: `elapsed * rate`. The source computes with float64 instead,
-- whose rounding is left out.
pub mod Ceiling
pub mod Clients
use zfw_dark.Common.{
  ℕ, ◌+◌, ◌-◌, ◌*◌, Bool, true, false, not, ◌||◌, List, [], ◌∷◌, Option, none, some,
}
use zfw_dark.Common.{length, leb, ltb, nat_eq, if◌then◌else◌}
use zfw_dark.Common.Text.{Text, lit, ◌==◌, is_empty, split, trim_space}

-- The units of one token, and the nanoseconds of a second.
abbrev pub second : ℕ
second = 1000000000

pub record Bucket : Type 0 where
  pub tokens : ℕ
  pub capacity : ℕ
  pub rate : ℕ
  pub last : ℕ

unfoldable pub new_bucket : ℕ → ℕ → ℕ → Bucket
new_bucket rate capacity now = record {
  tokens = capacity * second;
  capacity = capacity * second;
  rate = rate;
  last = now;
}

-- What the bucket holds when `allow` looks.
abbrev pub refilled : Bucket → ℕ → ℕ
refilled b now =
    let filled = b.tokens + (now - b.last) * b.rate in
    if ltb b.capacity filled then b.capacity else filled

-- `rateBucket.allow`; `now` is what its clock reads under the lock.
unfoldable pub take_token : Bucket → ℕ → Bucket × Bool
take_token b now =
    if ltb (refilled b now) second
    then (record b { tokens = refilled b now; last = now }, false)
    else (record b { tokens = refilled b now - second; last = now }, true)

abbrev pub max_tracked_clients : ℕ
max_tracked_clients = 4096

-- `clientBucket`, with its key.
pub record Client : Type 0 where
  pub key : Text
  pub bucket : Bucket
  pub seen : ℕ

-- `keyedLimiter`. The clients stand in the order in which a `range` over the map visits them.
pub record Limiter : Type 0 where
  pub clients : List Client
  pub aggregate : Bucket
  pub rate : ℕ
  pub capacity : ℕ

unfoldable pub new_limiter : ℕ → ℕ → ℕ → ℕ → ℕ → Limiter
unfolding new_bucket
new_limiter rate capacity aggregate_rate aggregate_capacity now = record {
  clients = [];
  aggregate = new_bucket aggregate_rate aggregate_capacity now;
  rate = rate;
  capacity = capacity;
}

unfoldable pub find_client : Text → List Client → Option Client
find_client key [] = none
find_client key (c ∷ cs) = let rest = find_client key cs in if c.key == key then some c else rest

-- `k.clients[key] = c`, for a key that is there.
unfoldable pub put_client : Client → List Client → List Client
put_client c [] = []
put_client c (d ∷ ds) = let rest = put_client c ds in if d.key == c.key then c ∷ ds else d ∷ rest

-- `cb.seen.Before(oldest)`.
unfoldable pub older : Client → Client → Client
older best c = if ltb c.seen best.seen then c else best

-- The loop of `evictOldestLocked`: the first client with the least `seen`.
unfoldable pub oldest : Client → List Client → Client
unfolding older
oldest best [] = best
oldest best (c ∷ cs) = oldest (older best c) cs

unfoldable pub delete_client : Text → List Client → List Client
delete_client key [] = []
delete_client key (c ∷ cs) =
    let rest = delete_client key cs in if c.key == key then cs else c ∷ rest

unfoldable pub evict_oldest : List Client → List Client
evict_oldest [] = []
evict_oldest (c ∷ cs) = delete_client (oldest c cs).key (c ∷ cs)

-- What the clock reads in one call of `allow`: for a new bucket, for `seen`, and under the locks of
-- the client's bucket and of the aggregate.
pub record Readings : Type 0 where
  pub made : ℕ
  pub seen : ℕ
  pub own : ℕ
  pub shared : ℕ

-- `k.clients[key]`, made if it is not there.
unfoldable pub entered : Limiter → Text → ℕ → Option Client → Client × List Client
unfolding new_bucket
entered k key now (some c) = (c, k.clients)
entered k key now none =
    let room =
      if leb max_tracked_clients (length k.clients) then evict_oldest k.clients else k.clients in
    let c : Client = record { key = key; bucket = new_bucket k.rate k.capacity now; seen = 0 } in
    (c, c ∷ room)

unfoldable pub enter : Limiter → Text → ℕ → Client × List Client
unfolding entered
enter k key now = entered k key now (find_client key k.clients)

-- The end of `allow`: the aggregate is asked only if the client's own bucket had a token.
unfoldable pub ask_aggregate : Limiter → Bool → ℕ → Limiter × Bool
ask_aggregate k false now = (k, false)
ask_aggregate k true now =
    let (aggregate, allowed) = take_token k.aggregate now in
    (record k { aggregate = aggregate }, allowed)

-- `keyedLimiter.allow`.
unfoldable pub allow : Limiter → Text → Readings → Limiter × Bool
unfolding enter ask_aggregate
allow k key t =
    let (c, clients) = enter k key t.made in
    let (bucket, own) = take_token c.bucket t.own in
    ask_aggregate
      (record k { clients = put_client (record c { bucket = bucket; seen = t.seen }) clients }) own
      t.shared

-- What `clientKey` reads of a request. `host` is the host part of its remote address, if
-- `net.SplitHostPort` finds one.
pub record Origin : Type 0 where
  pub forwarded_for : Text
  pub remote_addr : Text
  pub host : Option Text

-- The text in front of a comma.
abbrev first_part : Text → List Text → Text
first_part s [] = s
first_part s (part ∷ parts) = part

abbrev pub remote_host : Origin → Text
remote_host o = elim o.host [ some host ↦ host | none ↦ o.remote_addr ]

unfoldable pub client_key : Origin → Text
client_key o =
    let first = trim_space (first_part o.forwarded_for (split b',' o.forwarded_for)) in
    if is_empty o.forwarded_for || is_empty first then remote_host o else first

pub data Verdict : Type 0 where
  handled too_many_requests : Verdict

abbrev pub verdict : Limiter × Bool → Limiter × Verdict
verdict (k, allowed) = (k, if allowed then handled else too_many_requests)

-- `rateLimited`: on anything but GET.
unfoldable pub rate_limited : Limiter → Text → Origin → Readings → Limiter × Verdict
rate_limited k method o t =
    if method == lit "GET" then (k, handled) else verdict (allow k (client_key o) t)

-- `rateLimitedGet`.
unfoldable pub rate_limited_get : Limiter → Origin → Readings → Limiter × Verdict
rate_limited_get k o t = verdict (allow k (client_key o) t)
