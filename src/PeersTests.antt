-- ===== src/PeersTests.antt =====
-- A push to three peers, of which one has no token and one answers with an error.
use zfw_dark.Common.{
  ℕ, suc, true, false, [], ◌∷◌, none, some, ◌≡◌, ◌++◌, refl, map, nat_eq, if◌then◌else◌,
}
use zfw_dark.Common.Text.{Text, lit}
use zfw_dark.Peers.{Peer, Client, answered, push, push_one, send_to, result_for}

abbrev peer : Text → Text → Peer
peer name token = record { name = name; url = lit "https://" ++ name; token = token }

-- The first request is answered with 200, and any later one with 403.
abbrev one_taken : Client
one_taken = record {
  State = ℕ;
  request_error = λ url. none;
  parse_url = λ url. some (lit "https", url);
  send = λ request n. (suc n, if nat_eq n 0 then answered 200 else answered 403);
}

taken-refused-kept_back :
    map
      (λ r. r.is_ok)
      (push one_taken
        (peer (lit "a") (lit "t") ∷ peer (lit "b") [] ∷ peer (lit "c") (lit "t") ∷ [])
        []
        0).1
    ≡ true ∷ false ∷ false ∷ []
unfolding push push_one send_to result_for lit
taken-refused-kept_back = refl

two_sent :
    (push one_taken
      (peer (lit "a") (lit "t") ∷ peer (lit "b") [] ∷ peer (lit "c") (lit "t") ∷ [])
      []
      0).0
    ≡ 2
unfolding push push_one send_to lit
two_sent = refl
