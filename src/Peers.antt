-- ===== src/Peers.antt =====
-- internal/peers/peers.go: `Load`, `Sanitize` and `Push`. Package net/http and `url.Parse` are parameters.
use zfw_dark.Common.{
  ℕ, Bool, true, false, not, ◌&&◌, List, [], ◌∷◌, ◌++◌, Option, none, some, ◌≡◌, refl, ◌↔◌, inl,
  inr, arith, Bool-cases,
}
use zfw_dark.Common.{nat_eq, map, if◌then◌else◌}
use zfw_dark.Common.Result.{Result, ok, err}
use zfw_dark.Common.Text.{Text, lit, is_empty, print_nat, trim_space}

-- `Peer`.
pub record Peer : Type 0 where
  pub name : Text
  pub url : Text
  pub token : Text

pub record Public : Type 0 where
  pub name : Text
  pub url : Text

-- `Result`.
pub record PushResult : Type 0 where
  pub name : Text
  pub url : Text
  pub is_ok : Bool
  pub code : ℕ
  pub error : Text

-- The `http.Request` of a push; its method is always POST.
pub record Request : Type 0 where
  pub url : Text
  pub content_type : Text
  pub authorization : Text
  pub origin : Option Text
  pub body : Text

-- What `client.Do` gives: the status of the response, or the text of the error.
pub data Reply : Type 0 where
  answered : ℕ → Reply
  failed : Text → Reply

-- `request_error` is the error of `http.NewRequestWithContext`, and `parse_url` gives the scheme and
-- the host of `url.Parse`.
pub record Client : Type 1 where
  pub State : Type 0
  pub request_error : Text → Option Text
  pub parse_url : Text → Option (Text × Text)
  pub send : Request → State → State × Reply

-- `Sanitize`.
unfoldable pub sanitize : List Peer → List Public
sanitize ps = map (λ p. record { name = p.name; url = p.url }) ps

abbrev refused : Peer → Text → PushResult
refused p why = record { name = p.name; url = p.url; is_ok = false; code = 0; error = why }

unfoldable pub origin_of : Option (Text × Text) → Option Text
origin_of none = none
origin_of (some (scheme, host)) =
    if not (is_empty scheme) && not (is_empty host)
    then some (scheme ++ lit "://" ++ host)
    else none

unfoldable pub result_for : Peer → Reply → PushResult
result_for p (failed why) = refused p why
result_for p (answered code) =
    if nat_eq code 200
    then record { name = p.name; url = p.url; is_ok = true; code = code; error = [] }
    else record {
      name = p.name;
      url = p.url;
      is_ok = false;
      code = code;
      error = lit "HTTP " ++ print_nat code;
    }

module _ (client : Client) where
  unfoldable pub request_for : Peer → Text → Request
  unfolding origin_of
  request_for p body = record {
    url = p.url;
    content_type = lit "application/json";
    authorization = lit "Bearer " ++ p.token;
    origin = origin_of (client.parse_url p.url);
    body = body;
  }

  unfoldable pub send_to : Peer → Text → Option Text → client.State → client.State × PushResult
  unfolding result_for
  send_to p body (some why) s = (s, refused p why)
  send_to p body none s =
      let (t, reply) = client.send (request_for p body) s in (t, result_for p reply)

  -- `pushOne`.
  unfoldable pub push_one : Peer → Text → client.State → client.State × PushResult
  unfolding send_to
  push_one p body s =
      if is_empty p.url
      then (s, refused p (lit "peer URL is empty"))
      else if is_empty p.token
      then (s, refused p (lit "peer token is empty"))
      else send_to p body (client.request_error p.url) s

  -- `Push`.
  unfoldable pub push : List Peer → Text → client.State → client.State × List PushResult
  push [] body s = (s, [])
  push (p ∷ ps) body s =
      let (t, r) = push_one p body s in let (u, rs) = push ps body t in (u, r ∷ rs)

-- What `Load` gives: an error, or peers.
pub data LoadError : Type 0 where
  peers_unread bad_peers : LoadError

unfoldable pub decoded_peers : Option (List Peer) → Result LoadError (List Peer)
decoded_peers none = err bad_peers
decoded_peers (some ps) = ok ps

-- `Load`, by what `os.ReadFile` and `os.IsNotExist` of its error say; `decode` is `json.Unmarshal`.
unfoldable pub load_peers :
    (Text → Option (List Peer)) → Bool → Option Text → Result LoadError (List Peer)
unfolding decoded_peers
load_peers decode missing none = if missing then ok [] else err peers_unread
load_peers decode missing (some b) =
    if is_empty (trim_space b) then ok [] else decoded_peers (decode b)

-- The result names the peer, and is a success exactly for the status 200.
abbrev Truthful : Peer → PushResult → Type 0
Truthful p r = (r.name ≡ p.name) × (r.url ≡ p.url) × ((r.is_ok ≡ true) ↔ (r.code ≡ 200))

refused-Truthful : (p : Peer) (why : Text) → Truthful p (refused p why)
refused-Truthful p why = (refl, refl, (λ h. absurd (ground arith), λ h. absurd (omega arith)))

result_for-Truthful : (p : Peer) (reply : Reply) → Truthful p (result_for p reply)
unfolding result_for
result_for-Truthful p (failed why) = refused-Truthful p why
result_for-Truthful p (answered code) = elim (Bool-cases (nat_eq code 200)) [
  | inl e ↦ rw e (refl, refl, (λ h. ground arith, λ h. refl))
  | inr e ↦ rw e (refl, refl, (λ h. absurd (ground arith), λ h. absurd (ground arith)))
]

-- The results stand for the peers, one for each and in their order.
pub data AllTruthful : List Peer → List PushResult → Type 0 where
  no_peers : AllTruthful [] []
  next_peer :
      (p : Peer) (ps : List Peer) (r : PushResult) (rs : List PushResult)
      → Truthful p r
      → AllTruthful ps rs
      → AllTruthful (p ∷ ps) (r ∷ rs)

module _ (client : Client) where
  send_to-Truthful :
      (p : Peer) (body : Text) (o : Option Text) (s : client.State)
      → Truthful p (send_to client p body o s).1
  unfolding send_to
  send_to-Truthful p body (some why) s = refused-Truthful p why
  send_to-Truthful p body none s =
      result_for-Truthful p (client.send (request_for client p body) s).1

  push_one-Truthful :
      (p : Peer) (body : Text) (s : client.State) → Truthful p (push_one client p body s).1
  unfolding push_one
  push_one-Truthful p body s = elim (Bool-cases (is_empty p.url)) [
    | inl e ↦ rw e (refused-Truthful p (lit "peer URL is empty"))
    | inr e ↦ elim (Bool-cases (is_empty p.token)) [
      | inl k ↦ rw (e, k) (refused-Truthful p (lit "peer token is empty"))
      | inr k ↦ rw (e, k) (send_to-Truthful p body (client.request_error p.url) s)
    ]
  ]

  -- `Push` gives one result for each peer, in their order, with the peer's name and URL: a success
  -- exactly when the status is 200, whatever the client answers and whichever of the requests fail.
  pub push-AllTruthful :
      (ps : List Peer) (body : Text) (s : client.State) → AllTruthful ps (push client ps body s).1
  unfolding push
  push-AllTruthful [] body s = no_peers
  push-AllTruthful (p ∷ ps) body s =
      next_peer p ps _ _ (push_one-Truthful p body s)
        (push-AllTruthful ps body (push_one client p body s).0)
