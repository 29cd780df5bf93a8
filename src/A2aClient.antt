-- ===== src/A2aClient.antt =====
-- The client of an A2A server: gateway/clients/a2aClient/client.go and agent.go. net/http and
-- net/url are outside: what a request comes to is an argument; so is what a decoding gives.
pub mod Sse
pub mod Examples
use gate4ai.Dict.{Dict}
use gate4ai.Jsonrpc.{RequestId, GoError, plain, rpc, RpcError, text}
use gate4ai.Prelude.{
  ℕ, ◌-◌, ◌/◌, ◌<◌, ◌⊎◌, inl, inr, Bool, true, not, ◌&&◌, ◌||◌, Option, none, some, List, [], ◌∷◌,
  String, ◌<>◌, ◌==◌, starts_with, arith, if◌then◌else◌, is_none,
}

-- The fields of an AgentCard that the client reads or sets.
pub record AgentInfo : Type 0 where
  pub name : String
  pub url : String
  pub version : String
  pub input_modes : List String
  pub output_modes : List String

pub record Client : Type 0 where
  pub base_url : String
  pub agent_info : Option AgentInfo
  pub trust_agent_info_url : Bool
  pub headers : Dict String

-- `New`, before its options.
unfoldable pub new_client : String → Option Client
new_client base_url =
    if base_url == ""
    then none
    else some (record {
      base_url = base_url;
      agent_info = none;
      trust_agent_info_url = true;
      headers = [];
    })

-- A URL in a card: not readable, absolute, or resolved against the base.
pub data CardUrl : Type 0 where
  invalid_url absolute : CardUrl
  relative : String → CardUrl

-- What the request for a card comes to.
pub data CardReply : Type 0 where
  not_fetched : String → CardReply
  status : ℕ → CardReply
  not_decoded : String → CardReply
  card : AgentInfo → CardReply

card_url : String → String → CardUrl → String
card_url base url invalid_url = base
card_url base url absolute = url
card_url base url (relative resolved) = resolved

or_text : List String → List String
or_text [] = "text" ∷ []
or_text (mode ∷ more) = mode ∷ more

checked_card : (String → CardUrl) → String → AgentInfo → AgentInfo ⊎ String
unfolding card_url or_text
checked_card parse_url base a =
    if a.name == "" || a.url == "" || a.version == ""
    then inr "invalid AgentCard received: missing required fields (name, url, version)"
    else inl (record a {
      url = card_url base a.url (parse_url a.url);
      input_modes = or_text a.input_modes;
      output_modes = or_text a.output_modes;
    })

-- The response is a card where the status is 200.
unfoldable pub fetch_agent_card :
    (String → CardUrl) → (ℕ → String) → String → CardReply → AgentInfo ⊎ String
unfolding checked_card
fetch_agent_card parse_url show_status base (not_fetched e) =
    inr ("failed to fetch AgentCard: " <> e)
fetch_agent_card parse_url show_status base (status n) =
    inr ("failed to fetch AgentCard: status code " <> show_status n)
fetch_agent_card parse_url show_status base (not_decoded e) =
    inr ("failed to parse AgentCard JSON: " <> e)
fetch_agent_card parse_url show_status base (card a) = checked_card parse_url base a

fetched : Client → AgentInfo ⊎ String → Client × (AgentInfo ⊎ String)
fetched c (inr e) = (c, inr e)
fetched c (inl info) = (
  record c {
    agent_info = some info;
    base_url =
        if c.trust_agent_info_url && not (info.url == c.base_url) then info.url else c.base_url;
  },
  inl info,
)

-- `request` is what the request to a base URL comes to.
module _ (parse_url : String → CardUrl) (show_status : ℕ → String)
    (request : String → CardReply) where
  unfoldable pub fetch_agent_info : Client → Client × (AgentInfo ⊎ String)
  unfolding fetched fetch_agent_card
  fetch_agent_info c =
      fetched c (fetch_agent_card parse_url show_status c.base_url (request c.base_url))

  unfoldable pub get_agent_info : Client → Client × (AgentInfo ⊎ String)
  unfolding fetch_agent_info
  get_agent_info c = elim c.agent_info [ some info ↦ (c, inl info) | none ↦ fetch_agent_info c ]

-- A JSON-RPC response as it is decoded.
pub record RpcReply : Type 0 where
  pub version : String
  pub id : RequestId
  pub result : Option String
  pub error : Option RpcError

pub data HttpEnd : Type 0 where
  not_sent : String → HttpEnd
  http_status : ℕ → String → HttpEnd
  undecodable : String → HttpEnd
  decoded : RpcReply → HttpEnd

-- The identifier is looked at, and only a missing one matters.
misses_id : RpcReply → Bool
misses_id r = is_none r.id && is_none r.error

result_text : String → Option String → String ⊎ GoError
result_text method none = inr (plain ("JSON-RPC response missing expected result for " <> method))
result_text method (some raw) = inl raw

reply_end : String → Option RpcError → Option String → String ⊎ GoError
unfolding result_text
reply_end method (some e) result = inr (rpc e)
reply_end method none result = result_text method result

-- `_sendRequest` from the response on, for a caller that expects a result; it returns the result
-- that is then unmarshalled.
unfoldable pub read_reply : (ℕ → String) → String → HttpEnd → String ⊎ GoError
unfolding misses_id reply_end
read_reply show_status method (not_sent e) =
    inr (plain ("HTTP request for " <> method <> " failed: " <> e))
read_reply show_status method (http_status n body) =
    inr (plain ("HTTP error " <> show_status n <> " for " <> method <> ": " <> body))
read_reply show_status method (undecodable e) =
    inr (plain ("decode JSON-RPC response for " <> method <> ": " <> e))
read_reply show_status method (decoded r) =
    if not (r.version == "2.0")
    then inr (plain ("invalid JSON-RPC version: " <> r.version))
    else if misses_id r
    then inr (plain "JSON-RPC successful response missing ID")
    else reply_end method r.error r.result

-- What a streaming request comes to: no response, a status with a body, or a response with its
-- content type.
pub data StreamEnd : Type 0 where
  no_response : String → StreamEnd
  bad_status : ℕ → String → StreamEnd
  response : String → StreamEnd

-- The error of `_handleStreamingRequest`, or none where the stream is read.
unfoldable pub stream_error : (ℕ → String) → String → StreamEnd → Option String
stream_error show_status method (no_response e) =
    some ("HTTP streaming request for " <> method <> " failed: " <> e)
stream_error show_status method (bad_status n body) =
    some ("HTTP streaming error " <> show_status n <> " for " <> method <> ": " <> body)
stream_error show_status method (response content_type) =
    if starts_with content_type "text/event-stream"
    then none
    else some ("expected Content-Type 'text/event-stream', got '" <> content_type <> "'")
