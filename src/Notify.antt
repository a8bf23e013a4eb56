-- ===== src/Notify.antt =====
-- internal/notify/notify.go: the webhooks. The JSON of an event and the client are parameters.
use zfw_dark.Common.{ℕ, Bool, [], Option, none, some, leb, ◌≡◌, refl, if◌then◌else◌}
use zfw_dark.Common.Int.{ℤ}
use zfw_dark.Common.Text.{Text, is_empty}

-- `Event`, its details as the JSON that they encode to.
pub record Event : Type 0 where
  pub type : Text
  pub version : Text
  pub timestamp : ℤ
  pub details : Option Text

-- What `client.Do` gives: the status, or none.
pub record Poster : Type 1 where
  pub State : Type 0
  pub encode : Event → Option Text
  pub is_url : Text → Bool
  pub post : Text → Text → State → State × Option ℕ

pub data SendError : Type 0 where
  unmarshalled bad_url unsent : SendError
  http_error : ℕ → SendError

-- `New`: the URL of the hook, none for the disabled one.
unfoldable pub new_hook : Text → Option Text
new_hook url = if is_empty url then none else some url

unfoldable pub post_outcome : Option ℕ → Option SendError
post_outcome none = some unsent
post_outcome (some code) = if leb 400 code then some (http_error code) else none

module _ (p : Poster) where
  unfoldable pub post_body : Text → Option Text → p.State → p.State × Option SendError
  unfolding post_outcome
  post_body url none s = (s, some unmarshalled)
  post_body url (some body) s =
      let (t, code) = p.post url body s in
      if p.is_url url then (t, post_outcome code) else (s, some bad_url)

  -- `Send`; none is nil.
  unfoldable pub send : Option Text → Event → p.State → p.State × Option SendError
  unfolding post_body
  send none ev s = (s, none)
  send (some url) ev s = post_body url (p.encode ev) s

  -- Without a URL nothing is sent, and there is no error.
  send-disabled : (ev : Event) (s : p.State) → send (new_hook []) ev s ≡ (s, none)
  unfolding send new_hook
  send-disabled ev s = refl
