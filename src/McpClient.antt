-- ===== src/McpClient.antt =====
-- A session of the gateway with a backend MCP server: gateway/clients/mcpClient/session.go and
-- initialize.go. The SSE client, net/http and net/url are outside: what a subscription, a URL or a
-- decoding gives is an argument. A method gives the new session, or `none` where it panics.
pub mod Options
pub mod Loop
pub mod Lists
pub mod Calls
pub mod Posting
pub mod Initialization
pub mod Failures
pub mod Examples
use gate4ai.Dict.{Dict}
use gate4ai.Jsonrpc.{GoError, plain, rpc, RpcError, Message}
use gate4ai.Session.{
  Session, connecting, connected, new, is_connected, new_session, set_status,
  set_negotiated_version, acquire_output, release_output,
}
use gate4ai.Prelude.{
  ℕ, ◌-◌, ◌<◌, Bool, true, false, ◌||◌, Option, none, some, List, [], String, ◌<>◌, ◌==◌, arith,
  if◌then◌else◌,
}

-- `initialization`, a channel for one error.
pub record InitChannel : Type 0 where
  pub buffered : Option GoError
  pub is_closed : Bool

-- One of the four lists of a session, an item being its JSON, with its flag.
pub record Listing : Type 0 where
  pub items : List String
  pub is_initialized : Bool

pub record ClientSession : Type 0 where
  pub base : Session
  pub post_endpoint : String
  pub initialization : Option InitChannel
  pub initialization_closed : Bool
  pub server_info : Option String
  pub close_ch : Bool
  pub headers : Dict String
  pub tools : Listing
  pub prompts : Listing
  pub resources : Listing
  pub resource_templates : Listing

abbrev pub no_items : Listing
no_items = record { items = []; is_initialized = false }

-- `NewSession`, after its options. `close_ch` says that the channel is not nil.
unfoldable pub new_client_session : String → Dict String → ℕ → ClientSession
unfolding new_session
new_client_session random_id headers now = record {
  base = new_session random_id "" now;
  post_endpoint = "";
  initialization = none;
  initialization_closed = false;
  server_info = none;
  close_ch = true;
  headers = headers;
  tools = no_items;
  prompts = no_items;
  resources = no_items;
  resource_templates = no_items;
}

abbrev pub on_base : (Session → Session) → ClientSession → ClientSession
on_base f s = record s { base = f s.base }

first_error : Option GoError → Option GoError → Option GoError
first_error none err = err
first_error (some e) err = some e

-- The send and the close both panic on a closed channel. A second error finds no room.
close_with : Option GoError → ClientSession → InitChannel → Option ClientSession
unfolding first_error
close_with err s c =
    if c.is_closed
    then none
    else some (record s {
      initialization = some (record { buffered = first_error c.buffered err; is_closed = true });
      initialization_closed = true;
    })

signal : Option GoError → ClientSession → Option InitChannel → Option ClientSession
unfolding close_with
signal err s none = some (record s { initialization_closed = true })
signal err s (some c) = close_with err s c

unfoldable pub write_initialization_error_and_close :
    Option GoError → ClientSession → Option ClientSession
unfolding signal
write_initialization_error_and_close err s =
    if s.initialization_closed then some s else signal err s s.initialization

-- The start of `processLoop`, and its deferred calls.
start_loop : ClientSession → Session × Bool → ClientSession
start_loop s (b, true) = record s { base = b }
start_loop s (b, false) = record s { base = set_status b new }

unfoldable pub end_loop : ClientSession → ClientSession
end_loop s = on_base (λ b. set_status (release_output b) new) s

subscribed : ClientSession → Option String → Option ClientSession
unfolding start_loop write_initialization_error_and_close
subscribed s none = some (start_loop s (acquire_output s.base))
subscribed s (some e) =
    write_initialization_error_and_close (some (plain ("SSE subscription failed: " <> e)))
      (on_base (λ b. set_status b new) s)

start_open : ClientSession → ClientSession
start_open s = record s {
  base = set_status s.base connecting;
  post_endpoint = "";
  initialization = some (record { buffered = none; is_closed = false });
  initialization_closed = false;
  server_info = none;
  close_ch = true;
}

abbrev closed_channel : ClientSession → ClientSession
closed_channel s = record s { initialization = some (record { buffered = none; is_closed = true }) }

open_with : ClientSession → Option String → Option InitChannel → Option ClientSession
unfolding subscribed start_open
open_with s subscribe_error (some c) = some s
open_with s subscribe_error none =
    if is_connected s.base.status
    then some (closed_channel s)
    else subscribed (start_open s) subscribe_error

-- `Open`, whose caller waits on `initialization`; the input of a session is never nil.
unfoldable pub open_session : ClientSession → Option String → Option ClientSession
unfolding open_with
open_session s subscribe_error = open_with s subscribe_error s.initialization

-- What `<-s.initialization` gives.
pub data Awaited : Type 0 where
  failed : GoError → Awaited
  initialized waits : Awaited

take_error : ClientSession → InitChannel → Option GoError → ClientSession × Awaited
take_error s c (some e) =
    (record s { initialization = some (record c { buffered = none }) }, failed e)
take_error s c none = (s, if c.is_closed then initialized else waits)

await_channel : ClientSession → Option InitChannel → ClientSession × Awaited
unfolding take_error
await_channel s none = (s, waits)
await_channel s (some c) = take_error s c c.buffered

unfoldable pub await : ClientSession → ClientSession × Awaited
unfolding await_channel
await s = await_channel s s.initialization

unfoldable pub client_supports : String → Bool
client_supports version = version == "2025-03-26" || version == "2024-11-05"

-- What `json.Unmarshal` leaves of an `InitializeResult`, and its error.
pub record Decoded : Type 0 where
  pub version : String
  pub info : String
  pub error : Option String

abbrev pub and_then : {A B : Type 0} → Option A → (A → Option B) → Option B
and_then none f = none
and_then (some a) f = f a

-- Whatever the errors were, the end of `sendInitialize` is reached: they are signalled, but the
-- method does not return. `SendRequestSync` of the notification comes after it.
finish_initialize : Decoded → ClientSession → Option ClientSession
unfolding write_initialization_error_and_close
finish_initialize d s = write_initialization_error_and_close none (record s {
  base = set_status (set_negotiated_version s.base d.version) connected;
  server_info = some d.info;
})

check_version : String → Decoded → ClientSession → Option ClientSession
unfolding write_initialization_error_and_close client_supports
check_version slug d s =
    if client_supports d.version
    then some s
    else write_initialization_error_and_close
        (some (
          plain (
            "backend '" <> slug <> "' negotiated unsupported protocol version '" <> d.version
            <> "'")))
        s

check_decoding : Option String → ClientSession → Option ClientSession
unfolding write_initialization_error_and_close
check_decoding none s = some s
check_decoding (some e) s =
    write_initialization_error_and_close
      (some (plain ("failed to parse backend initialize response: " <> e))) s

with_result : String → Decoded → ClientSession → Option ClientSession
unfolding check_decoding check_version finish_initialize
with_result slug d s =
    and_then (check_decoding d.error s)
      (λ t. and_then (check_version slug d t) (finish_initialize d))

answered :
    (String → Decoded)
    → String
    → ClientSession
    → Option RpcError
    → Option String
    → Option ClientSession
unfolding with_result write_initialization_error_and_close
answered decode slug s (some e) result = write_initialization_error_and_close (some (rpc e)) s
answered decode slug s none none =
    write_initialization_error_and_close (some (plain "backend returned nil result")) s
answered decode slug s none (some raw) = with_result slug (decode raw) s

-- `sendInitialize` from the response on.
unfoldable pub initialize_response :
    (String → Decoded) → String → Message → ClientSession → Option ClientSession
unfolding answered
initialize_response decode slug m s = answered decode slug s m.error m.result
