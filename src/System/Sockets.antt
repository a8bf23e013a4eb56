-- ===== src/System/Sockets.antt =====
-- `Listening` of internal/system/system.go: the sockets that it tells, and their scopes.
use zfw_dark.Common.{
  Bool, true, false, ◌||◌, List, [], ◌∷◌, map, Option, none, some, ◌≡◌, refl, ap, ◌∙◌, ◌↔◌, inl,
  inr, arith, All, any, Bool-cases,
}
use zfw_dark.Common.Int.{ℤ, eq_ℤ, ltb_ℤ}
use zfw_dark.Common.Scan.{scan}
use zfw_dark.Common.Some.{Some, any-Some}
use zfw_dark.Common.Text.{Text}
use zfw_dark.Rules.Starter.{insert_int, sort_ints}
use zfw_dark.System.{
  Socket, parse_socket, merge, put_socket, see, collect_sockets, insert_socket, sort_sockets,
  listening,
}
use zfw_dark.System.Tells.{
  on_port, on_lan, told, Tells, TellsOutside, on_port-Tells, on_lan-TellsOutside,
}
use zfw_dark.System.Sorted.{Ascending, Distinct, sort_ints-Ascending}

abbrev pub ports : List Socket → List ℤ
ports = map (λ sk. sk.port)

-- A test that a socket which is merged passes if one of the two does.
abbrev Merges : (Socket → Bool) → Type 0
Merges test = (sk x : Socket) → eq_ℤ x.port sk.port ≡ true → test (merge sk x) ≡ (test sk || test x)

on_port-Merges : (p : ℤ) → Merges (on_port p)
unfolding merge
on_port-Merges p sk x h = ground arith

on_lan-Merges : (p : ℤ) → Merges (on_lan p)
unfolding merge
on_lan-Merges p sk x h = ground arith

module _ (test : Socket → Bool) (merges : Merges test) where
  any-put_socket :
      (sk : Socket) (xs : List Socket) → any test (put_socket sk xs) ≡ (test sk || any test xs)
  unfolding put_socket
  any-put_socket sk [] = refl
  any-put_socket sk (x ∷ xs) = elim (Bool-cases (eq_ℤ x.port sk.port)) [
    | inl e ↦ rw (e, merges sk x e) (ground arith)
    | inr e ↦ rw e (ground (arith, any-put_socket sk xs))
  ]

  any-see :
      (o : Option Socket) (xs : List Socket) → any test (see o xs) ≡ (told test o || any test xs)
  unfolding see
  any-see none xs = refl
  any-see (some sk) xs = any-put_socket sk xs

  any-collect_sockets :
      (xs : List Socket) (ls : List Text)
      → any test (collect_sockets xs ls) ≡ (any (λ l. told test (parse_socket l)) ls || any test xs)
  unfolding collect_sockets
  any-collect_sockets xs [] = refl
  any-collect_sockets xs (l ∷ ls) =
      ground (arith, any-collect_sockets (see (parse_socket l) xs) ls, any-see (parse_socket l) xs)

  any-insert_socket :
      (sk : Socket) (xs : List Socket) → any test (insert_socket sk xs) ≡ (test sk || any test xs)
  unfolding insert_socket
  any-insert_socket sk [] = refl
  any-insert_socket sk (x ∷ xs) = ground (arith, any-insert_socket sk xs)

  any-sort_sockets : (xs : List Socket) → any test (sort_sockets xs) ≡ any test xs
  unfolding sort_sockets
  any-sort_sockets [] = refl
  any-sort_sockets (x ∷ xs) =
      ground (arith, any-insert_socket x (sort_sockets xs), any-sort_sockets xs)

  any-listed :
      (ls : List Text)
      → any test (sort_sockets (collect_sockets [] ls)) ≡ any (λ l. told test (parse_socket l)) ls
  any-listed ls =
      ground (arith, any-sort_sockets (collect_sockets [] ls), any-collect_sockets [] ls)

module _ (p : ℤ) where
  put_socket-apart :
      (sk : Socket) (xs : List Socket)
      → eq_ℤ p sk.port ≡ false
      → All (λ y. eq_ℤ p y ≡ false) (ports xs)
      → All (λ y. eq_ℤ p y ≡ false) (ports (put_socket sk xs))
  unfolding put_socket merge
  put_socket-apart sk [] h k = (h, tt)
  put_socket-apart sk (x ∷ xs) h (first, k) = elim (Bool-cases (eq_ℤ x.port sk.port)) [
    | inl e ↦ rw e (h, k)
    | inr e ↦ rw e (first, put_socket-apart sk xs h k)
  ]

same_port :
    (a b : ℤ) (ys : List ℤ)
    → eq_ℤ a b ≡ true
    → All (λ y. eq_ℤ a y ≡ false) ys
    → All (λ y. eq_ℤ b y ≡ false) ys
same_port a b [] e h = tt
same_port a b (y ∷ ys) e (here, h) = (ground arith, same_port a b ys e h)

put_socket-Distinct :
    (sk : Socket) (xs : List Socket) → Distinct (ports xs) → Distinct (ports (put_socket sk xs))
unfolding put_socket merge
put_socket-Distinct sk [] h = (tt, tt)
put_socket-Distinct sk (x ∷ xs) (apart, h) = elim (Bool-cases (eq_ℤ x.port sk.port)) [
  | inl e ↦ rw e (same_port x.port sk.port (ports xs) e apart, h)
  | inr e ↦ rw e (put_socket-apart x.port sk xs e apart, put_socket-Distinct sk xs h)
]

see-Distinct :
    (o : Option Socket) (xs : List Socket) → Distinct (ports xs) → Distinct (ports (see o xs))
unfolding see
see-Distinct none xs h = h
see-Distinct (some sk) xs h = put_socket-Distinct sk xs h

collect_sockets-Distinct :
    (xs : List Socket) (ls : List Text)
    → Distinct (ports xs)
    → Distinct (ports (collect_sockets xs ls))
unfolding collect_sockets
collect_sockets-Distinct xs [] h = h
collect_sockets-Distinct xs (l ∷ ls) h =
    collect_sockets-Distinct (see (parse_socket l) xs) ls (see-Distinct (parse_socket l) xs h)

ports-insert_socket :
    (sk : Socket) (xs : List Socket) → ports (insert_socket sk xs) ≡ insert_int sk.port (ports xs)
unfolding insert_socket insert_int
ports-insert_socket sk [] = refl
ports-insert_socket sk (x ∷ xs) = elim (Bool-cases (ltb_ℤ x.port sk.port)) [
  | inl e ↦ rw e (ap (λ l. x.port ∷ l) (ports-insert_socket sk xs))
  | inr e ↦ rw e refl
]

ports-sort_sockets : (xs : List Socket) → ports (sort_sockets xs) ≡ sort_ints (ports xs)
unfolding sort_sockets sort_ints
ports-sort_sockets [] = refl
ports-sort_sockets (x ∷ xs) =
    ports-insert_socket x (sort_sockets xs) ∙ ap (insert_int x.port) (ports-sort_sockets xs)

-- When `ss` gives an output, Listening tells its sockets in the order of their ports, one for each: a
-- port is told exactly when the fourth field of a line is a host and the port behind its last colon, and
-- as one that the LAN reaches exactly when a line has such a field whose host, without brackets, is
-- neither 127.0.0.1 nor ::1, in whatever order the lines stand. So a socket on another address of the
-- loopback, such as 127.0.0.53, is told as one that the LAN reaches.
pub listening-told :
    (out : Text) (socks : List Socket)
    → listening (some out) ≡ some socks
    → Ascending (ports socks)
      × ((p : ℤ) → (any (on_port p) socks ≡ true) ↔ Some (Tells p) (scan 65536 out).0)
      × ((p : ℤ) → (any (on_lan p) socks ≡ true) ↔ Some (TellsOutside p) (scan 65536 out).0)
unfolding listening
listening-told out socks h =
    let ls : List Text = (scan 65536 out).0 in
    let found : sort_sockets (collect_sockets [] ls) ≡ socks = cc in
    rw (← found) (
      rw (ports-sort_sockets (collect_sockets [] ls))
          (sort_ints-Ascending (ports (collect_sockets [] ls)) (collect_sockets-Distinct [] ls tt)),
      λ p.
          rw (any-listed (on_port p) (on_port-Merges p) ls)
            (any-Some _ (Tells p) (λ l. on_port-Tells l p) ls),
      λ p.
          rw (any-listed (on_lan p) (on_lan-Merges p) ls)
            (any-Some _ (TellsOutside p) (λ l. on_lan-TellsOutside l p) ls),
    )
