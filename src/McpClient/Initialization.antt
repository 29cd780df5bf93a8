-- ===== src/McpClient/Initialization.antt =====
-- The channel that tells whether a session of gateway/clients/mcpClient/session.go is initialized:
-- it is closed at most once.
use mathlib.Core.Path.{subst}
use gate4ai.Jsonrpc.{RpcError, GoError, plain, Message}
use gate4ai.Session.{is_connected, set_status, acquire_output, release_output, new}
use gate4ai.McpClient.{
  open_with, client_supports, answered, ClientSession, InitChannel, Decoded,
  write_initialization_error_and_close, close_with, open_session, subscribed, start_open,
  start_loop, closed_channel, end_loop, await, await_channel, take_error, initialize_response,
  with_result, check_decoding, check_version, answered, open_with, finish_initialize, and_then,
  new_client_session,
}
use gate4ai.Dict.{Dict}
use gate4ai.Prelude.{
  ℕ, ◌≡◌, refl, sym, Bool, true, false, ◌||◌, Option, none, some, String, ◌<>◌, is_none, if_cases,
}

-- The channel is closed as the flag says, and a session that is connected without a channel has the
-- flag set.
Agrees : Option InitChannel → Bool → Bool → Type 0
Agrees (some c) flag online = flag ≡ c.is_closed
Agrees none flag online = online ≡ true → flag ≡ true

pub IsSound : ClientSession → Type 0
unfolding Agrees
IsSound s = Agrees s.initialization s.initialization_closed (is_connected s.base.status)

-- The same without the status.
pub HasFlag : Option InitChannel → Bool → Type 0
HasFlag (some c) flag = flag ≡ c.is_closed
HasFlag none flag = Unit

-- A step that does not panic, and keeps a property.
abbrev pub Succeeds : (ClientSession → Type 0) → Option ClientSession → Type 0
Succeeds P none = ⊥
Succeeds P (some s) = P s

Agrees-HasFlag :
    (o : Option InitChannel) (flag online : Bool) → Agrees o flag online → HasFlag o flag
unfolding Agrees HasFlag
Agrees-HasFlag none flag online h = tt
Agrees-HasFlag (some c) flag online h = h

HasFlag-Agrees : (o : Option InitChannel) (online : Bool) → HasFlag o true → Agrees o true online
unfolding Agrees HasFlag
HasFlag-Agrees none online h = λ e. refl
HasFlag-Agrees (some c) online h = h

close_with-IsSound :
    (err : Option GoError) (s : ClientSession) (c : InitChannel)
    → c.is_closed ≡ false
    → Succeeds IsSound (close_with err s c)
unfolding close_with IsSound
close_with-IsSound err s c h = rw h refl

write-IsSound :
    (err : Option GoError) (s : ClientSession) (o : Option InitChannel) (flag : Bool)
    → s.initialization ≡ o
    → s.initialization_closed ≡ flag
    → HasFlag o flag
    → Succeeds IsSound (write_initialization_error_and_close err s)
unfolding write_initialization_error_and_close IsSound HasFlag
write-IsSound err s o true p q h = rw q (rw p (HasFlag-Agrees o (is_connected s.base.status) h))
write-IsSound err s none false p q h = rw q (rw p (λ e. refl))
write-IsSound err s (some c) false p q h = rw q (rw p (close_with-IsSound err s c (sym h)))

-- The same with a condition on the session itself.
pub written :
    (err : Option GoError) (s : ClientSession)
    → HasFlag s.initialization s.initialization_closed
    → Succeeds IsSound (write_initialization_error_and_close err s)
written err s h = write-IsSound err s s.initialization s.initialization_closed refl refl h

pub flagged : (s : ClientSession) → IsSound s → HasFlag s.initialization s.initialization_closed
unfolding IsSound
flagged s h = Agrees-HasFlag s.initialization s.initialization_closed (is_connected s.base.status) h

off-Agrees :
    (o : Option InitChannel) (flag online : Bool)
    → HasFlag o flag
    → online ≡ false
    → Agrees o flag online
unfolding Agrees HasFlag
off-Agrees none flag online h off = λ e. cc
off-Agrees (some c) flag online h off = h

-- A status that is not connected asks for less.
pub offline-IsSound :
    (s : ClientSession)
    → HasFlag s.initialization s.initialization_closed
    → is_connected s.base.status ≡ false
    → IsSound s
unfolding IsSound
offline-IsSound s h off =
    off-Agrees s.initialization s.initialization_closed (is_connected s.base.status) h off

and_then-IsSound :
    (o : Option ClientSession) (f : ClientSession → Option ClientSession)
    → Succeeds IsSound o
    → ((s : ClientSession) → IsSound s → Succeeds IsSound (f s))
    → Succeeds IsSound (and_then o f)
and_then-IsSound none f h g = elim h [ ]
and_then-IsSound (some s) f h g = g s h

pub end_loop-IsSound : (s : ClientSession) → IsSound s → IsSound (end_loop s)
unfolding end_loop release_output
end_loop-IsSound s h = offline-IsSound (end_loop s) (flagged s h) refl

check_decoding-IsSound :
    (e : Option String) (s : ClientSession) → IsSound s → Succeeds IsSound (check_decoding e s)
unfolding check_decoding
check_decoding-IsSound none s h = h
check_decoding-IsSound (some e) s h = written _ s (flagged s h)

check_version-IsSound :
    (slug : String) (d : Decoded) (s : ClientSession)
    → IsSound s
    → Succeeds IsSound (check_version slug d s)
unfolding check_version
check_version-IsSound slug d s h =
    if_cases (Succeeds IsSound) (client_supports d.version) (some s)
      (write_initialization_error_and_close
        (some (
          plain (
            "backend '" <> slug <> "' negotiated unsupported protocol version '" <> d.version
            <> "'")))
        s)
      (λ _. h) (λ _. written _ s (flagged s h))

with_result-IsSound :
    (slug : String) (d : Decoded) (s : ClientSession)
    → IsSound s
    → Succeeds IsSound (with_result slug d s)
unfolding with_result finish_initialize
with_result-IsSound slug d s h =
    and_then-IsSound (check_decoding d.error s) _ (check_decoding-IsSound d.error s h) (λ t k.
      and_then-IsSound (check_version slug d t) _ (check_version-IsSound slug d t k)
        (λ u l. written none _ (flagged u l)))

answered-IsSound :
    (decode : String → Decoded) (slug : String) (s : ClientSession) (e : Option RpcError)
    (result : Option String)
    → IsSound s
    → Succeeds IsSound (answered decode slug s e result)
unfolding answered
answered-IsSound decode slug s (some e) result h = written _ s (flagged s h)
answered-IsSound decode slug s none none h = written _ s (flagged s h)
answered-IsSound decode slug s none (some raw) h = with_result-IsSound slug (decode raw) s h

subscribed-IsSound :
    (s : ClientSession) (e : Option String)
    → IsSound s
    → is_connected s.base.status ≡ false
    → Succeeds IsSound (subscribed s e)
unfolding subscribed start_loop acquire_output IsSound
subscribed-IsSound s none h off =
    if_cases (λ r. IsSound (start_loop s r)) (s.base.is_output_acquired || is_none s.base.output)
      (s.base, false) (record s.base { is_output_acquired = true }, true)
      (λ _. offline-IsSound (record s { base = set_status s.base new }) (flagged s h) refl) (λ _. h)
subscribed-IsSound s (some e) h off = written _ _ (flagged s h)

open_with-IsSound :
    (s : ClientSession) (e : Option String) (o : Option InitChannel)
    → s.initialization ≡ o
    → IsSound s
    → Succeeds IsSound (open_with s e o)
unfolding open_with IsSound
open_with-IsSound s e (some c) p h = h
open_with-IsSound s e none p h =
    if_cases (Succeeds IsSound) (is_connected s.base.status) (some (closed_channel s))
      (subscribed (start_open s) e)
      (λ on. subst (λ o. Agrees o s.initialization_closed (is_connected s.base.status)) p h on)
      (λ off. subscribed-IsSound (start_open s) e refl refl)

take_error-IsSound :
    (s : ClientSession) (c : InitChannel) (e : Option GoError)
    → s.initialization ≡ some c
    → IsSound s
    → IsSound (take_error s c e).0
unfolding take_error IsSound
take_error-IsSound s c none p h = h
take_error-IsSound s c (some e) p h =
    subst (λ o. Agrees o s.initialization_closed (is_connected s.base.status)) p h

await_channel-IsSound :
    (s : ClientSession) (o : Option InitChannel)
    → s.initialization ≡ o
    → IsSound s
    → IsSound (await_channel s o).0
unfolding await_channel
await_channel-IsSound s none p h = h
await_channel-IsSound s (some c) p h = take_error-IsSound s c c.buffered p h

pub open_session-IsSound :
    (s : ClientSession) (e : Option String) → IsSound s → Succeeds IsSound (open_session s e)
unfolding open_session
open_session-IsSound s e h = open_with-IsSound s e s.initialization refl h

pub initialize_response-IsSound :
    (decode : String → Decoded) (slug : String) (m : Message) (s : ClientSession)
    → IsSound s
    → Succeeds IsSound (initialize_response decode slug m s)
unfolding initialize_response
initialize_response-IsSound decode slug m s h = answered-IsSound decode slug s m.error m.result h

pub await-IsSound : (s : ClientSession) → IsSound s → IsSound (await s).0
unfolding await
await-IsSound s h = await_channel-IsSound s s.initialization refl h

pub with_endpoint-IsSound :
    (s : ClientSession) (url : String) → IsSound s → IsSound (record s { post_endpoint = url })
unfolding IsSound
with_endpoint-IsSound s url h = h

pub new_client_session-IsSound :
    (random_id : String) (headers : Dict String) (now : ℕ)
    → IsSound (new_client_session random_id headers now)
unfolding new_client_session IsSound
new_client_session-IsSound random_id headers now = λ e. cc
