-- ===== src/Http/Get2024.antt =====
-- `handle2024GET` of server/transport/handle-mcp2024-GET .go: the stream of a session's messages to a
-- client. Each arrival carries the time; the goroutine that forwards and the handler that waits for
-- the client are one function. `marshal` is `json.Marshal`.
pub mod Stalled
use gate4ai.Prelude.{
  ℕ, ◌/◌, ◌<◌, ◌⊎◌, inl, inr, Bool, true, false, List, [], ◌∷◌, String, ◌<>◌, arith,
}
use gate4ai.Auth.{Granted, granted, refused}
use gate4ai.Http.{HttpReply, text_reply, Arrival, message, nil_message, closed, timer, disconnects}
use gate4ai.Jsonrpc.{Message, Encoded, encoded, unencodable}
use gate4ai.Session.{
  Session, connected, set_status, update_last_activity, acquire_output, release_output,
}

-- What is written: a reply, or the events of a stream.
pub data GetItem : Type 0 where
  answer : HttpReply → GetItem
  endpoint_event : String → GetItem
  message_event : ℕ → String → GetItem
  ping_event : GetItem

-- Whether the handler has returned, and then whether the goroutine closes the session, or it waits.
pub data GetEnd : Type 0 where
  answered waits : GetEnd
  left : Bool → GetEnd

pub record GetResult : Type 0 where
  pub session : Session
  pub items : List GetItem
  pub end : GetEnd

write : GetItem → GetResult → GetResult
write item r = record r { items = item ∷ r.items }

unfoldable pub endpoint_path : Session → String
endpoint_path s = "/sse?session_id=" <> s.id

-- Once the channel is closed the goroutine is gone, and the handler waits for the client.
unfoldable pub wait_for_client : Session → List (Arrival × ℕ) → GetResult
wait_for_client s [] = record { session = s; items = []; end = waits }
wait_for_client s ((disconnects, now) ∷ more) = record {
  session = release_output s;
  items = [];
  end = left false;
}
wait_for_client s ((message m, now) ∷ more) = wait_for_client s more
wait_for_client s ((nil_message, now) ∷ more) = wait_for_client s more
wait_for_client s ((closed, now) ∷ more) = wait_for_client s more
wait_for_client s ((timer, now) ∷ more) = wait_for_client s more

module _ (marshal : Message → Encoded) where
  -- The loop of the goroutine.
  unfoldable pub forward : Session → List (Arrival × ℕ) → GetResult
  unfolding wait_for_client write
  forward s [] = record { session = s; items = []; end = waits }
  forward s ((disconnects, now) ∷ more) = record {
    session = release_output s;
    items = [];
    end = left true;
  }
  forward s ((closed, now) ∷ more) = wait_for_client s more
  forward s ((nil_message, now) ∷ more) = forward s more
  forward s ((timer, now) ∷ more) = write ping_event (forward s more)
  forward s ((message m, now) ∷ more) = elim (marshal m) [
    | encoded json ↦ write (message_event now json) (forward (update_last_activity s now) more)
    | unencodable e ↦ forward s more
  ]

  with_channel : Session × Bool → List (Arrival × ℕ) → GetResult
  unfolding forward endpoint_path write
  with_channel (s, false) arrivals = record {
    session = s;
    items = answer (text_reply 500 "Failed to acquire output channel") ∷ [];
    end = answered;
  }
  with_channel (s, true) arrivals =
      write (endpoint_event (endpoint_path s)) (forward (set_status s connected) arrivals)

  -- With the session that was found or created, or why there is none.
  unfoldable pub handle_2024_get : Granted Session → List (Arrival × ℕ) → GetResult ⊎ HttpReply
  unfolding with_channel
  handle_2024_get (refused why) arrivals = inr (text_reply 401 "Session failed")
  handle_2024_get (granted s) arrivals = inl (with_channel (acquire_output s) arrivals)
