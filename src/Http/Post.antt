-- ===== src/Http/Post.antt =====
-- `handlePOST` of server/transport/handle-mcp2025-POST.go up to its wait for answers.
pub mod Refused
use gate4ai.Prelude.{
  ℕ, Bool, false, not, ◌&&◌, Option, none, some, List, [], ◌∷◌, String, ◌==◌, arith, if◌then◌else◌,
}
use gate4ai.Auth.{Granted, granted, refused}
use gate4ai.Http.{HttpReply, status_only, Body, unreadable, invalid, messages, send_error}
use gate4ai.Input.{Input, put}
use gate4ai.Jsonrpc.{
  RequestId, IdValue, GoError, Message, unauthorized_code, parse_error_code, invalid_request_code,
}
use gate4ai.Session.{Session, is_connected, is_connecting}

-- How the part before the wait ends: with a reply, in a panic at a nil message, or with requests
-- whose answers it now waits for.
pub data PostEnd : Type 0 where
  replied : HttpReply → PostEnd
  panicked : PostEnd
  awaits : List IdValue → PostEnd

abbrev pub is_initialize : Option String → Bool
is_initialize none = false
is_initialize (some method) = method == "initialize"

-- Whether the first message is `initialize`; `none` where it is nil.
unfoldable pub starts_with_initialize : List (Option Message) → Option Bool
starts_with_initialize [] = some false
starts_with_initialize (none ∷ more) = none
starts_with_initialize (some m ∷ more) = some (is_initialize m.method)

-- The identifier of a message that has a method too.
unfoldable pub request_of : Option String → RequestId → List IdValue → List IdValue
request_of (some method) (some IdValue.null) ids = ids
request_of (some method) (some id) ids = id ∷ ids
request_of _ _ ids = ids

await_or_accept : List IdValue → PostEnd
await_or_accept [] = replied (status_only 202)
await_or_accept (id ∷ ids) = awaits (id ∷ ids)

end_of : Option (List IdValue) → PostEnd
unfolding await_or_accept
end_of none = panicked
end_of (some ids) = await_or_accept ids

or_panic : Option (List IdValue) → Message → Option (List IdValue)
unfolding request_of
or_panic none m = none
or_panic (some ids) m = some (request_of m.method m.id ids)

module _ {W : Type 0} where
  -- The loop over the messages, with the identifiers of the requests among them; `none` where it
  -- panics at a nil message, with the messages before it put.
  unfoldable pub put_each :
      List (Option Message)
      → Input W
      → Session
      → W
      → ℕ
      → Input W × Session × W × Option (List IdValue)
  unfolding or_panic
  put_each [] i s w now = (i, s, w, some [])
  put_each (none ∷ more) i s w now = (i, s, w, none)
  put_each (some m ∷ more) i s w now =
      let r : Input W × Session × W × Option GoError =
        put i (record m { session = some s.id }) s w now in
      let rest : Input W × Session × W × Option (List IdValue) = put_each more r.0 r.1 r.2 now in
      (rest.0, rest.1, rest.2, or_panic rest.3 m)

  after_put : Input W × Session × W × Option (List IdValue) → Input W × Session × W × PostEnd
  unfolding end_of
  after_put (i, s, w, ids) = (i, s, w, end_of ids)

  checked :
      Option Bool
      → List (Option Message)
      → Input W
      → Session
      → W
      → ℕ
      → Input W × Session × W × PostEnd
  unfolding after_put
  checked none ms i s w now = (i, s, w, panicked)
  checked (some initializes) ms i s w now =
      if not initializes && not (is_connecting s.status) && not (is_connected s.status)
      then (i, s, w, replied (send_error none invalid_request_code "Session not initialized" none))
      else after_put (put_each ms i s w now)

  -- `handlePOST` for the session that `getSession` gave, up to the wait.
  unfoldable pub begin_post : Body → Input W → Session → W → ℕ → Input W × Session × W × PostEnd
  unfolding checked
  begin_post unreadable i s w now =
      (i, s, w, replied (send_error none parse_error_code "Failed to read request body" none))
  begin_post (invalid e) i s w now =
      (i, s, w, replied (send_error none parse_error_code "Invalid JSON" (some e)))
  begin_post (messages ms) i s w now = checked (starts_with_initialize ms) ms i s w now

  -- With the refusal of `getSession`, where there is no session.
  unfoldable pub handle_post :
      Granted Session → Body → Input W → W → ℕ → Input W × Option Session × W × PostEnd
  handle_post (refused why) body i w now =
      (i, none, w, replied (send_error none unauthorized_code "Failed to get session" none))
  handle_post (granted s) body i w now =
      let r = begin_post body i s w now in (r.0, some r.1, r.2, r.3)
