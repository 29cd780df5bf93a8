-- ===== src/A2aClient/Examples.antt =====
-- A stream of two events.
use text.Mathlib.TextLemmas.{nil-append, cons-append}
use gate4ai.A2aClient.Sse.{SseReply, read_error, error_event, process_sse_stream, process_sse_body}
use gate4ai.A2aClient.Sse.Final.{IsFinalLast, process_sse_stream-IsFinalLast}
use gate4ai.A2aClient.Sse.Roundtrip.{received, process_sse_body-wire_lines}
use gate4ai.Http.{Arrival, message}
use gate4ai.Http.A2aPost.{A2aItem, event, stream_answers}
use gate4ai.Http.A2aPost.Wire.{wire_lines, item_lines, event_lines}
use gate4ai.Jsonrpc.{Message, Encoded, encoded, plain}
use gate4ai.Requests.{Callback}
use gate4ai.Session.{Session, new_session}
use gate4ai.Prelude.{
  ℕ, ◌≡◌, ◌⊎◌, inl, refl, ap, ◌∙◌, Bool, true, false, Option, none, some, List, [], ◌∷◌, String,
  ◌<>◌, ◌==◌, if◌then◌else◌, show_ℕ,
}

abbrev unmarshal : String → SseReply ⊎ String
unmarshal json = inl (record { result = some json; error = none })

abbrev status_of : String → Option (String × Bool)
status_of json = some ("working", json == "{b}")

abbrev parts_of : String → Option ℕ
parts_of json = none

process_sse_stream-IsFinalLast_example : IsFinalLast (
    process_sse_stream unmarshal status_of parts_of
      (λ s. s)
      (λ s p. s)
      ""
      ("data:{b}" ∷ "" ∷ "data:{c}" ∷ "" ∷ [])
      (read_error "broken" true))
process_sse_stream-IsFinalLast_example =
    process_sse_stream-IsFinalLast unmarshal status_of parts_of (λ s. s) (λ s p. s) ""
      ("data:{b}" ∷ "" ∷ "data:{c}" ∷ "" ∷ []) (read_error "broken" true)

-- The text after as many characters as the prefix has.
drop_prefix : String → String → String
drop_prefix s String.[] = s
drop_prefix String.[] (String.◌∷◌ c p) = ""
drop_prefix (String.◌∷◌ d s) (String.◌∷◌ c p) = drop_prefix s p

drop_prefix-append : (p s : String) → drop_prefix (p <> s) p ≡ s
unfolding drop_prefix
drop_prefix-append String.[] s = nil-append s
drop_prefix-append (String.◌∷◌ c p) s =
    ap (λ t. drop_prefix t (String.◌∷◌ c p)) (cons-append c p s) ∙ drop_prefix-append p s

trim_one : String → String
trim_one String.[] = ""
trim_one (String.◌∷◌ c s) = s

abbrev bytes : String → ℕ
bytes s = if s == "" then 0 else if s == "data: {long}" then 70000 else 10

abbrev reply_text : A2aItem → String
reply_text item = "{}"

abbrev status : String → Message
status json = record {
  id = none;
  method = none;
  params = none;
  result = some json;
  error = none;
  processed = false;
  session = none;
}

abbrev as_json : Message → Encoded
as_json m = elim m.result [ none ↦ encoded "{}" | some json ↦ encoded json ]

abbrev is_b : String → Bool
is_b json = json == "{b}"

abbrev nothing_runs : Callback → Message → Session → Session
nothing_runs c m s = s

abbrev fresh : Session
fresh = new_session "r" "s" 1

abbrev arrivals : List Arrival
arrivals = message (status "{a}") ∷ message (status "{b}") ∷ []

process_sse_body-wire_lines_example :
    process_sse_body unmarshal status_of parts_of trim_one drop_prefix bytes true (
      wire_lines reply_text
        (stream_answers as_json is_b nothing_runs fresh (status "{}") 0 arrivals).1)
    ≡ received unmarshal status_of parts_of trim_one drop_prefix drop_prefix-append bytes true
        reply_text refl
        (λ item. refl)
        (λ item. refl)
        (stream_answers as_json is_b nothing_runs fresh (status "{}") 0 arrivals).1
unfolding trim_one stream_answers
process_sse_body-wire_lines_example =
    process_sse_body-wire_lines unmarshal status_of parts_of trim_one drop_prefix drop_prefix-append
      bytes true reply_text refl (λ item. refl) (λ item. refl) as_json is_b nothing_runs fresh
      (status "{}") arrivals ((refl, refl), ((refl, refl), tt))

-- A line that is too long is an error, and the event after it is not read.
too_long_test :
    process_sse_body unmarshal status_of parts_of trim_one drop_prefix bytes true
      (wire_lines reply_text (event 1 "{long}" ∷ event 2 "{b}" ∷ []))
    ≡ error_event (plain ("SSE read error: bufio.Scanner: token too long")) false ∷ []
unfolding process_sse_body wire_lines item_lines event_lines show_ℕ
too_long_test = refl
