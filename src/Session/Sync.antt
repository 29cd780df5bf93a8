-- ===== src/Session/Sync.antt =====
-- A request for all pages of a list: `SendRequestSync` of shared/session.go. Each response is
-- read by the same callback, which asks for the next page before it hands the response on;
-- `read_page` is a callback that nothing interrupts, and Steps has those that overlap.
-- `delivered` is what the caller takes from the returned channel. The capacity of that channel,
-- which only makes the callback wait for the caller, and the mark `Processed` are left out.
-- `paginated` reads a result as `schema.PaginatedResult`: nothing where that fails, else the
-- cursor; `encode` writes the params with a cursor, a structure that always has a JSON text.
pub mod Steps
use gate4ai.Jsonrpc.{Encoded, encoded, unencodable, Message, internal_code}
use gate4ai.Requests.{Callback}
use gate4ai.Session.Send.{Sent, sent, blocks, failed, send_request}
use gate4ai.Session.{Session}
use gate4ai.Prelude.{
  ℕ, ◌+◌, ◌%◌, ◌^◌, ◌<◌, Bool, true, false, Option, none, some, List, [], ◌∷◌, ◌++◌, String, ◌<>◌,
  arith, eqb, if◌then◌else◌,
}

-- The counter is an atomic.Int32.
pub record SyncCall : Type 0 where
  pub pending_requests : ℕ
  pub delivered : List Message
  pub is_closed : Bool

-- What a call of the callback comes to: a send on a closed channel panics, and a request that
-- finds the output of the session full waits.
pub data Reading : Type 0 where
  reads : SyncCall → Reading
  panics waits : Reading

abbrev pub add_pending : ℕ → SyncCall → SyncCall
add_pending n call = record call { pending_requests = (call.pending_requests + n) % 2 ^ 32 }

-- `resultChan <- msg`, and `pendingRequests.Add(-1)` with its test.
unfoldable pub deliver : SyncCall → Message → Reading
deliver call m =
    if call.is_closed
    then panics
    else let left = add_pending 4294967295 call in
      reads (record {
        pending_requests = left.pending_requests;
        delivered = call.delivered ++ m ∷ [];
        is_closed = eqb left.pending_requests 0;
      })

-- `SendRequest` that waits for room keeps its caller waiting; its error is not looked at.
abbrev pub after_request : Sent → SyncCall → Message → Reading
after_request blocks call m = waits
after_request sent call m = deliver call m
after_request failed call m = deliver call m

abbrev pub sync_error : String → Message
sync_error e = record {
  id = none;
  method = none;
  params = none;
  result = none;
  error = some (record { code = internal_code; message = e; payload = none });
  processed = false;
  session = none;
}

abbrev pub failure : Option Encoded → String
failure (some (unencodable e)) = "failed to marshal request parameters: " <> e
failure _ = ""

abbrev pub started : Sent → Option Encoded → Reading
started sent params = reads (record { pending_requests = 1; delivered = []; is_closed = false })
started blocks params = waits
started failed params = reads (record {
  pending_requests = 1;
  delivered = sync_error (failure params) ∷ [];
  is_closed = true;
})

unfoldable pub send_request_sync :
    Session → String → Option Encoded → Callback → ℕ → Session × Reading
unfolding send_request
send_request_sync s method params reader now =
    let (t, id, how) = send_request s method params (some reader) now in (t, started how params)

abbrev pub cursor_of : Option (Option String) → Option String
cursor_of none = none
cursor_of (some cursor) = cursor

unfoldable pub next_cursor : (String → Option (Option String)) → Option String → Option String
next_cursor paginated none = none
next_cursor paginated (some result) = cursor_of (paginated result)

module _ (paginated : String → Option (Option String)) (encode : String → String) where
  unfoldable pub read_next :
      Session → String → Callback → SyncCall → Message → ℕ → Option String → Session × Reading
  unfolding deliver send_request
  read_next s method reader call m now none = (s, deliver call m)
  read_next s method reader call m now (some cursor) =
      let (t, id, how) = send_request s method (some (encoded (encode cursor))) (some reader) now in
      (t, after_request how (add_pending 1 call) m)

  -- The callback `reader`.
  unfoldable pub read_page :
      Session → String → Callback → SyncCall → Message → ℕ → Session × Reading
  unfolding read_next next_cursor
  read_page s method reader call m now =
      read_next s method reader call m now (next_cursor paginated m.result)
