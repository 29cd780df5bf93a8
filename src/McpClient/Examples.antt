-- ===== src/McpClient/Examples.antt =====
-- A session of a client, and what becomes of it.
use gate4ai.Dict
use gate4ai.Dict.{Dict}
use gate4ai.Jsonrpc.{rpc, RpcError, Message, Encoded, encoded, internal_code, number}
use gate4ai.Requests.{Callback}
use gate4ai.Session.{Session, new_session, connected}
use gate4ai.Session.Send.{send_request}
use gate4ai.McpClient.{
  client_supports, ClientSession, new_client_session, no_items, Listing, client_supports, Decoded,
  initialize_response, initialized, Awaited,
}
use gate4ai.McpClient.Failures.{
  IsOpening, FailsOnce, unsupported, initialize_error_once, initialize_unsupported_connects,
}
use gate4ai.McpClient.Initialization.{IsSound, Succeeds}
use gate4ai.McpClient.Lists.{tools_kind, Got, got, page_items, all_items, get_listing}
use gate4ai.McpClient.Lists.Partial.{get_listing_partial}
use gate4ai.McpClient.Loop.{sse, close_signal}
use gate4ai.McpClient.Loop.Sound.{
  Op, opens, answers, handles, awaits, closes, run, run-new_client_session-IsSound,
}
use gate4ai.McpClient.Options.{with_headers}
use gate4ai.McpClient.Options.Distinct.{IsDistinct, with_headers-IsDistinct}
use gate4ai.McpClient.Posting.{Posted, failed}
use gate4ai.Prelude.{
  ◌≡◌, ◌⊎◌, inl, refl, sym, ◌∙◌, true, false, Option, none, some, List, [], ◌∷◌, String, ◌==◌,
  eq_iff, arith, if◌then◌else◌,
}

abbrev response : Option String → Option RpcError → Message
response result error = record {
  id = some (number 1);
  method = none;
  params = none;
  result = result;
  error = error;
  processed = false;
  session = none;
}

abbrev refusal : RpcError
refusal = record { code = internal_code; message = "no"; payload = none }

abbrev opening : ClientSession
opening = record (new_client_session "r" [] 1) {
  initialization = some (record { buffered = none; is_closed = false });
}

abbrev old_version : String → Decoded
old_version raw = record { version = "2023"; info = "{}"; error = none }

opening-IsOpening : IsOpening opening
unfolding new_client_session
opening-IsOpening = record { empty = refl; flag = refl }

initialize_error_once_example :
    (t : ClientSession) × (initialize_response old_version "b"
        (response none (some refusal))
        opening
      ≡ some t)
    × FailsOnce t (rpc refusal)
    × (t.base.status ≡ opening.base.status)
initialize_error_once_example =
    initialize_error_once old_version "b" (response none (some refusal)) opening refusal
      opening-IsOpening refl

initialize_unsupported_connects_example :
    (t : ClientSession) × (initialize_response old_version "b" (response (some "{}") none) opening
      ≡ some t)
    × FailsOnce t (unsupported "b" "2023")
    × (t.base.status ≡ connected)
    × (t.base.negotiated_version ≡ "2023")
unfolding client_supports
initialize_unsupported_connects_example =
    initialize_unsupported_connects old_version "b" (response (some "{}") none) opening "{}"
      opening-IsOpening refl refl refl refl

abbrev resolve : String → String ⊎ String
resolve url = inl url

abbrev parse : String → Option (List Message)
parse text = none

abbrev ops : List Op
ops =
    opens none
    ∷ handles (sse "endpoint" "/post")
    ∷ answers (response none (some refusal))
    ∷ awaits
    ∷ handles close_signal
    ∷ answers (response (some "{}") none)
    ∷ closes
    ∷ []

run-new_client_session-IsSound_example :
    Succeeds IsSound (run resolve parse old_version "b" (new_client_session "r" [] 1) ops)
run-new_client_session-IsSound_example =
    run-new_client_session-IsSound resolve parse old_version "b" "r" [] 1 ops

abbrev items_in : String → Option (List String)
items_in raw = some (raw ∷ [])

get_listing_partial_example :
    let pages =
      response (some "a") none ∷ response none (some refusal) ∷ response (some "b") none ∷ [] in
    let r : Listing × Got = get_listing items_in tools_kind initialized pages no_items in
    (r.1 ≡ got ("a" ∷ "b" ∷ []))
    × ((init : Awaited) (more : List Message)
        → get_listing items_in tools_kind init more r.0 ≡ (r.0, got ("a" ∷ "b" ∷ [])))
unfolding all_items page_items
get_listing_partial_example =
    get_listing_partial items_in tools_kind no_items (response (some "a") none ∷ [])
      (response (some "b") none ∷ []) (response none (some refusal)) refusal refl refl

abbrev lower : String → String
lower s = if s == "Accept" then "accept" else s

only_accept : (k : String) → Dict.has {V = String} (("accept", "a") ∷ []) k ≡ true → "accept" ≡ k
unfolding Dict.get
only_accept k h = ground (arith, eq_iff "accept" k)

with_headers-IsDistinct_example :
    IsDistinct lower (with_headers lower (("Accept", "b") ∷ []) (("accept", "a") ∷ []))
unfolding IsDistinct
with_headers-IsDistinct_example =
    with_headers-IsDistinct lower (("Accept", "b") ∷ []) (("accept", "a") ∷ [])
      (λ j k hj hk same. sym (only_accept j hj) ∙ only_accept k hk)

abbrev nothing_runs : Callback → Message → Session → Session
nothing_runs c m s = s

abbrev plain_json : Message → Encoded
plain_json m = encoded "{}"

abbrev refuses : String → Dict String → String → Posted
refuses url headers body = failed "refused"

abbrev sent : Session
sent = (send_request (new_session "r" "s" 1) "ping" none (some 7) 2).0

abbrev posting : ClientSession
posting = record (new_client_session "r" [] 1) { base = sent; post_endpoint = "/post" }

abbrev ping : Message
ping = record (response none none) {
  id = some (send_request (new_session "r" "s" 1) "ping" none (some 7) 2).1;
  method = some "ping";
}
