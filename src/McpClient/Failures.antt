-- ===== src/McpClient/Failures.antt =====
-- What a failed initialization leaves behind, in gateway/clients/mcpClient/session.go and
-- initialize.go.
use gate4ai.Jsonrpc.{GoError, plain, rpc, RpcError, Message}
use gate4ai.Session.{connected, set_status, set_negotiated_version}
use gate4ai.McpClient.{
  ClientSession, Decoded, failed, initialized, write_initialization_error_and_close, open_session,
  await, initialize_response, client_supports,
}
use gate4ai.Prelude.{◌≡◌, refl, true, false, Option, none, some, String, ◌<>◌}

-- `Open` has made the channel, and nobody has written to it.
pub record IsOpening (s : ClientSession) : Type 0 where
  pub empty : s.initialization ≡ some (record { buffered = none; is_closed = false })
  pub flag : s.initialization_closed ≡ false

-- A session whose channel is closed with an error in it.
failed_with : ClientSession → GoError → ClientSession
failed_with s e = record s {
  initialization = some (record { buffered = some e; is_closed = true });
  initialization_closed = true;
}

drained : ClientSession → ClientSession
drained s = record s {
  initialization = some (record { buffered = none; is_closed = true });
  initialization_closed = true;
}

write_opening :
    (s : ClientSession) (e : GoError)
    → IsOpening s
    → write_initialization_error_and_close (some e) s ≡ some (failed_with s e)
unfolding write_initialization_error_and_close failed_with
write_opening s e h = rw h.flag (rw h.empty refl)

-- The first caller that waits gets the error; later ones are told of success, and `Open` does not
-- try again.
pub record FailsOnce (t : ClientSession) (e : GoError) : Type 0 where
  pub first : (await t).1 ≡ failed e
  pub reopened : (x : Option String) → open_session (await t).0 x ≡ some (await t).0
  pub later : (await (await t).0).1 ≡ initialized
  pub status : (await (await t).0).0.base.status ≡ t.base.status

failed_with-FailsOnce : (s : ClientSession) (e : GoError) → FailsOnce (failed_with s e) e
unfolding failed_with await open_session
failed_with-FailsOnce s e = record {
  first = refl;
  reopened = λ x. refl;
  later = refl;
  status = refl;
}

-- Where the backend answers `initialize` with an error, the first caller that waits for the session
-- gets it; every later one is told that the session is initialized, though its status is what it
-- was, and opening the session again does nothing.
pub initialize_error_once :
    (decode : String → Decoded) (slug : String) (m : Message) (s : ClientSession) (e : RpcError)
    → IsOpening s
    → m.error ≡ some e
    → (t : ClientSession) × (initialize_response decode slug m s ≡ some t)
      × FailsOnce t (rpc e)
      × (t.base.status ≡ s.base.status)
unfolding initialize_response failed_with
initialize_error_once decode slug m s e h p =
    (failed_with s (rpc e), rw p (write_opening s (rpc e) h), failed_with-FailsOnce s (rpc e), refl)

abbrev pub unsupported : String → String → GoError
unsupported slug version =
    plain ("backend '" <> slug <> "' negotiated unsupported protocol version '" <> version <> "'")

-- Where the backend negotiates a version that the client does not support, the first caller that
-- waits gets an error, and still the session is connected with that version.
pub initialize_unsupported_connects :
    (decode : String → Decoded) (slug : String) (m : Message) (s : ClientSession) (raw : String)
    → IsOpening s
    → m.error ≡ none
    → m.result ≡ some raw
    → (decode raw).error ≡ none
    → client_supports (decode raw).version ≡ false
    → (t : ClientSession) × (initialize_response decode slug m s ≡ some t)
      × FailsOnce t (unsupported slug (decode raw).version)
      × (t.base.status ≡ connected)
      × (t.base.negotiated_version ≡ (decode raw).version)
unfolding initialize_response failed_with
initialize_unsupported_connects decode slug m s raw h p q d v =
    let e : GoError = unsupported slug (decode raw).version in
    let after : ClientSession = record s {
      base = set_status (set_negotiated_version s.base (decode raw).version) connected;
      server_info = some (decode raw).info;
    } in
    (
      failed_with after e,
      rw (p, initialize_response)
          (rw (q, initialize_response)
            (rw (d, initialize_response)
              (rw (v, initialize_response) (rw (write_opening s e h) refl)))),
      failed_with-FailsOnce after e,
      refl,
      refl,
    )
