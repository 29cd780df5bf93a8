-- ===== src/Http/Reply.antt =====
-- How a POST of handle-mcp2025-POST.go is answered: `responseAndCloseConnection` and
-- `responseToStream`. `remarshal` is `json.Marshal` of a result that is kept as text. A write to a
-- client that has gone is skipped in the code; the client's going is an arrival of its own.
pub mod Count
pub mod Once
use gate4ai.Dict
use gate4ai.Dict.{Dict}
use gate4ai.Prelude.{
  ℕ, ◌+◌, Bool, true, false, Option, none, some, List, [], ◌∷◌, ◌++◌, String, arith, leb, eqb,
  if◌then◌else◌, is_none, length,
}
use gate4ai.Http.{Arrival, message, nil_message, closed, timer, disconnects}
use gate4ai.Jsonrpc.{
  RequestId, IdValue, RpcError, Encoded, encoded, unencodable, Message, id_string, internal_code,
}
use gate4ai.Session.{Session, acquire_output, release_output}

-- A JSON-RPC response to a client.
pub data Response : Type 0 where
  error_response : RequestId → RpcError → Response
  result_response : RequestId → String → Response

pub data Collected : Type 0 where
  replies : List Response → Collected
  gone : Collected
  waits : List Response → Collected

pub data JsonBody : Type 0 where
  single : Response → JsonBody
  batch : List Response → JsonBody

-- An event of a stream, with its number, or a ping.
pub data SseItem : Type 0 where
  event : ℕ → RequestId → String → SseItem
  ping : SseItem

-- What a stream has written, and whether its goroutine has returned.
pub record Streamed : Type 0 where
  pub items : List SseItem
  pub ended : Bool

module _ (remarshal : String → Encoded) where
  encoded_result : RequestId → Encoded → Response
  encoded_result id (encoded raw) = result_response id raw
  encoded_result id (unencodable e) = error_response id (record {
    code = internal_code;
    message = "Failed to unmarshal response payload";
    payload = none;
  })

  result_of : RequestId → Option String → Response
  unfolding encoded_result
  result_of id none = result_response id "null"
  result_of id (some raw) = encoded_result id (remarshal raw)

  choose_response : RequestId → Option RpcError → Option String → Response
  unfolding result_of
  choose_response id (some e) result = error_response id e
  choose_response id none result = result_of id result

  unfoldable pub response_of : Message → Response
  unfolding choose_response
  response_of m = choose_response m.id m.error m.result

  -- The loop that collects as many responses as there were requests. It ends without a further
  -- message where the arrivals do.
  unfoldable pub collect : ℕ → List Response → List Arrival → Collected
  collect n acc [] = waits acc
  collect n acc (message m ∷ more) =
      let acc' : List Response = acc ++ response_of m ∷ [] in
      let rest = collect n acc' more in if leb n (length acc') then replies acc' else rest
  collect n acc (nil_message ∷ more) = collect n acc more
  collect n acc (closed ∷ more) = replies acc
  collect n acc (timer ∷ more) = replies acc
  collect n acc (disconnects ∷ more) = gone

  unfoldable pub body_of : ℕ → List Response → JsonBody
  body_of n (r ∷ []) = if eqb n 1 then single r else batch (r ∷ [])
  body_of n rs = batch rs

  -- `responseAndCloseConnection`: it acquires the channel and releases it, also where it did not
  -- get it.
  unfoldable pub response_and_close : Session → List IdValue → List Arrival → Session × Collected
  unfolding collect
  response_and_close s ids arrivals =
      (release_output (acquire_output s).0, collect (length ids) [] arrivals)

-- `pendingRequests`.
unfoldable pub pending_of : List IdValue → Dict Bool
pending_of [] = []
pending_of (id ∷ ids) = Dict.put (pending_of ids) (id_string (some id)) true

abbrev pub is_done : Dict Bool → Bool
is_done [] = true
is_done _ = false

abbrev before : List SseItem → Streamed → Streamed
before items r = record r { items = items ++ r.items }

-- `marshal` is `json.Marshal` of a response.
module _ (remarshal : String → Encoded) (marshal : Response → Encoded) where
  -- The loop of the goroutine in `responseToStream`; `none` is a tick. `next` numbers the events.
  unfoldable pub stream : Dict Bool → ℕ → List (Option Arrival) → Streamed
  stream pending next [] = record { items = []; ended = false }
  stream pending next (none ∷ more) = before (ping ∷ []) (stream pending next more)
  stream pending next (some (message m) ∷ more) =
      let same = stream pending next more in
      let answered = stream (Dict.remove pending (id_string m.id)) (next + 1) more in
      let skipped : Streamed =
        if is_done pending then record { items = []; ended = true } else same in
      if is_none m.id
      then skipped
      else if Dict.has pending (id_string m.id)
      then elim (marshal (response_of remarshal m)) [
        | unencodable e ↦ same
        | encoded text ↦ before (event next m.id text ∷ []) (
            if is_done (Dict.remove pending (id_string m.id))
            then record { items = []; ended = true }
            else answered)
      ]
      else skipped
  stream pending next (some nil_message ∷ more) = stream pending next more
  stream pending next (some closed ∷ more) = record { items = []; ended = true }
  stream pending next (some timer ∷ more) = record { items = []; ended = true }
  stream pending next (some disconnects ∷ more) = record { items = []; ended = true }
