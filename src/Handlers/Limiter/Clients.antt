-- ===== src/Handlers/Limiter/Clients.antt =====
-- The table of clients of internal/handlers/middleware.go: its size, and what one client's request
-- does to the others.
use zfw_dark.Common.{
  ℕ, ◌≤◌, ◌<◌, suc, Bool, true, false, List, [], ◌∷◌, Option, none, some, ◌≡◌, ◌≢◌, ◌⊎◌, inl, inr,
  refl, sym, ◌∙◌, arith, length, leb, ltb, Bool-cases, if◌then◌else◌,
}
use zfw_dark.Common.Text.{Text, ==_iff}
use zfw_dark.Handlers.Limiter.{
  Client, Limiter, Readings, take_token, find_client, put_client, oldest, delete_client,
  evict_oldest, older, entered, enter, ask_aggregate, allow,
}

length-put_client : (c : Client) (cs : List Client) → length (put_client c cs) ≡ length cs
unfolding put_client
length-put_client c [] = refl
length-put_client c (d ∷ ds) = ground (arith, length-put_client c ds)

-- Some client has the key.
data Has (key : Text) : List Client → Type 0 where
  here : {c : Client} {cs : List Client} → c.key ≡ key → Has key (c ∷ cs)
  there : {c : Client} {cs : List Client} → Has key cs → Has key (c ∷ cs)

Has-insert :
    {key : Text} {b : Client} {cs : List Client} (c : Client)
    → Has key (b ∷ cs)
    → Has key (b ∷ c ∷ cs)
Has-insert c (here e) = here e
Has-insert c (there h) = there (there h)

length-delete_client :
    (key : Text) (cs : List Client) → Has key cs → suc (length (delete_client key cs)) ≡ length cs
unfolding delete_client
length-delete_client key [] h = elim h [ ]
length-delete_client key (c ∷ cs) (here e) = rw ((==_iff c.key key).1 e) refl
length-delete_client key (c ∷ cs) (there h) = ground (arith, length-delete_client key cs h)

older-cases : (best c : Client) → (older best c ≡ c) ⊎ (older best c ≡ best)
unfolding older
older-cases best c = elim (Bool-cases (ltb c.seen best.seen)) [
  | inl e ↦ inl (rw e refl)
  | inr e ↦ inr (rw e refl)
]

oldest-Has : (best : Client) (cs : List Client) → Has (oldest best cs).key (best ∷ cs)
unfolding oldest
oldest-Has best [] = here refl
oldest-Has best (c ∷ cs) = elim (older-cases best c) [
  | inl e ↦ rw (e, oldest) (there (oldest-Has c cs))
  | inr e ↦ rw (e, oldest) (Has-insert c (oldest-Has best cs))
]

length-evict_oldest : (c : Client) (cs : List Client) → length (evict_oldest (c ∷ cs)) ≡ length cs
unfolding evict_oldest
length-evict_oldest c cs =
    omega (arith, length-delete_client (oldest c cs).key (c ∷ cs) (oldest-Has c cs))

length-room :
    (cs : List Client)
    → length cs ≤ 4096
    → length (if leb 4096 (length cs) then evict_oldest cs else cs) < 4096
length-room [] h = omega arith
length-room (c ∷ cs) h = ground (arith, length-evict_oldest c cs)

length-entered :
    (k : Limiter) (key : Text) (now : ℕ) (found : Option Client)
    → length k.clients ≤ 4096
    → length (entered k key now found).1 ≤ 4096
unfolding entered
length-entered k key now none h = omega (arith, length-room k.clients h)
length-entered k key now (some c) h = h

ask_aggregate-clients :
    (k : Limiter) (own : Bool) (now : ℕ) → (ask_aggregate k own now).0.clients ≡ k.clients
unfolding ask_aggregate
ask_aggregate-clients k false now = refl
ask_aggregate-clients k true now = refl

-- No flood of keys makes the table hold more than 4096 clients.
pub allow-table_bounded :
    (k : Limiter) (key : Text) (t : Readings)
    → length k.clients ≤ 4096
    → length (allow k key t).0.clients ≤ 4096
unfolding allow enter
allow-table_bounded k key t h =
    let table = length-entered k key t.made (find_client key k.clients) h in
    rw (ask_aggregate-clients _ _ t.shared, length-put_client) table

find_client-key :
    (key : Text) (cs : List Client) (c : Client) → find_client key cs ≡ some c → c.key ≡ key
unfolding find_client
find_client-key key [] c e = cc
find_client-key key (d ∷ ds) c e = ground (arith, ==_iff d.key key, find_client-key key ds c)

find_client-put_client :
    (other : Text) (c : Client) (cs : List Client)
    → c.key ≢ other
    → find_client other (put_client c cs) ≡ find_client other cs
unfolding find_client put_client
find_client-put_client other c [] ne = refl
find_client-put_client other c (d ∷ ds) ne = ground (
  arith,
  ==_iff d.key c.key,
  ==_iff d.key other,
  ==_iff c.key other,
  find_client-put_client other c ds ne,
)

-- The client that a request enters, and where the others stand.
entered_lem :
    (k : Limiter) (key other : Text) (now : ℕ) (found : Option Client)
    → length k.clients < 4096
    → other ≢ key
    → find_client key k.clients ≡ found
    → ((entered k key now found).0.key ≡ key)
      × (find_client other (entered k key now found).1 ≡ find_client other k.clients)
unfolding entered find_client
entered_lem k key other now none room ne e = ground (arith, ==_iff key other)
entered_lem k key other now (some c) room ne e = (find_client-key key k.clients c e, refl)

-- While the table has room, a client's request leaves every other client's bucket as it is.
pub allow-others :
    (k : Limiter) (key other : Text) (t : Readings)
    → length k.clients < 4096
    → other ≢ key
    → find_client other (allow k key t).0.clients ≡ find_client other k.clients
unfolding allow enter
allow-others k key other t room ne =
    let (mine, rest) = entered_lem k key other t.made (find_client key k.clients) room ne refl in
    rw (ask_aggregate-clients _ _ t.shared)
      (find_client-put_client other _ _ (λ e. ne (sym e ∙ mine)) ∙ rest)

-- A request that its client's own bucket refuses takes nothing from the aggregate.
pub allow-refused_own :
    (k : Limiter) (key : Text) (t : Readings)
    → (take_token (enter k key t.made).0.bucket t.own).1 ≡ false
    → ((allow k key t).1 ≡ false) × ((allow k key t).0.aggregate ≡ k.aggregate)
unfolding allow ask_aggregate
allow-refused_own k key t h = rw h (refl, refl)
