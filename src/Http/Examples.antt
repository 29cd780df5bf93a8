-- ===== src/Http/Examples.antt =====
-- The theorems of the HTTP handlers at concrete requests.
use gate4ai.Prelude.{
  ℕ, ◌≤◌, ◌≡◌, ◌≢◌, inl, inr, refl, true, false, Option, none, some, List, [], ◌∷◌, ◌++◌, map,
  String, ◌==◌, eq_iff, arith, Bool-cases, All,
}
use gate4ai.Auth.{granted}
use gate4ai.Http.{message, Arrival, closed, timer}
use gate4ai.Http.Get2024.{GetResult, handle_2024_get, waits}
use gate4ai.Http.Get2024.Stalled.{Stays, handle_2024_get_stalled}
use gate4ai.Http.A2aPost.{a2a_in_session, returned}
use gate4ai.Http.A2aPost.Released.{a2a_in_session_strands}
use gate4ai.Http.Reply.{Response, response_of, replies, collect, stream, pending_of}
use gate4ai.Http.Reply.Count.{take, collect-first}
use gate4ai.Http.Reply.Once.{events_for, stream_once, stream_finishes}
use gate4ai.Dict
use gate4ai.Input.{Input, new_input, start, add_validators}
use gate4ai.Jsonrpc.{
  IdValue, number, RequestId, Answer, GoError, plain, Encoded, encoded, Message, id_string,
}
use gate4ai.Session.{Session, connected, disconnected, new_session, set_status, acquire_output}
use gate4ai.Session.Send.{send_response, queued, is_initialize_response}

abbrev msg : Option IdValue → Option String → Option String → Message
msg id method result = record {
  id = id;
  method = method;
  params = none;
  result = result;
  error = none;
  processed = false;
  session = none;
}

abbrev same : String → Encoded
same raw = encoded raw

abbrev written : Response → Encoded
written r = encoded "{}"

abbrev ready : Session
ready = set_status (new_session "r" "s" 0) connected

abbrev closed_door : Input ℕ
closed_door = add_validators (start new_input) ((λ m w. (some (plain "no"), w)) ∷ [])

abbrev same_message : Message → Encoded
same_message m = encoded "{}"

-- Another request holds the channel.
abbrev held : Session
held = (acquire_output ready).0

-- A notification, and the answers to two requests.
abbrev notice : Message
notice = msg none (some "notifications/progress") none

abbrev first : Message
first = msg (some (number 1)) none (some "1")

abbrev second : Message
second = msg (some (number 2)) none (some "2")

collect-first_example :
    collect same 1 [] (map message (notice ∷ first ∷ []) ++ [])
    ≡ replies (map (response_of same) (take 1 (notice ∷ first ∷ [])))
collect-first_example = collect-first same 1 (notice ∷ first ∷ []) [] (omega arith) (omega arith)

abbrev arrivals : List (Option Arrival)
arrivals = some (message second) ∷ none ∷ some (message notice) ∷ some (message first) ∷ []

stream_once_example :
    (events_for "1" (stream same written (pending_of (number 1 ∷ number 2 ∷ [])) 0 arrivals).items
      ≤ 1)
    × (All (λ id. id_string (some id) ≢ "1") (number 1 ∷ number 2 ∷ [])
        → events_for "1"
            (stream same written (pending_of (number 1 ∷ number 2 ∷ [])) 0 arrivals).items
          ≡ 0)
stream_once_example = stream_once same written "1" (number 1 ∷ number 2 ∷ []) 0 arrivals

abbrev one_arrival : List (Option Arrival)
one_arrival = none ∷ some (message notice) ∷ some (message first) ∷ []

stream_finishes_example :
    (stream same written (pending_of (number 1 ∷ [])) 0 one_arrival).ended ≡ true
unfolding pending_of Dict.get
stream_finishes_example =
    stream_finishes same written (λ r. ("{}", refl)) (number 1) [] 0 one_arrival
      (λ k p. elim (Bool-cases (id_string (some (number 1)) == k)) [
        | inl e ↦ inr (inl (refl, (eq_iff (id_string (some (number 1))) k).0 e))
        | inr e ↦
            absurd (ground (arith, p, e, Dict.get-put [] (id_string (some (number 1))) k true))
      ])

abbrev nothing : ℕ
nothing = 0

abbrev bare : Input ℕ
bare = start new_input

a2a_in_session_strands_example :
    let t : Session =
      (a2a_in_session same_message
        (λ s. true)
        (λ c m s. s)
        (msg (some (number 1)) (some "tasks/get") none)
        "tasks/get"
        true
        []
        bare
        held
        nothing
        9).1 in
    ((a2a_in_session same_message
        (λ s. true)
        (λ c m s. s)
        (msg (some (number 1)) (some "tasks/get") none)
        "tasks/get"
        true
        []
        bare
        held
        nothing
        9).4
      ≡ returned)
    × (t.status ≡ disconnected)
    × ((id : RequestId) (a : Answer) (e : Option GoError) (later : ℕ)
        → is_initialize_response a e ≡ false
        → (send_response t id a e later).1 ≢ queued)
unfolding acquire_output new_session
a2a_in_session_strands_example =
    a2a_in_session_strands same_message (λ s. true) (λ c m s. s)
      (msg (some (number 1)) (some "tasks/get") none) "tasks/get" true [] bare held nothing 9 refl

abbrev waiting_client : List (Arrival × ℕ)
waiting_client = (message notice, 1) ∷ (timer, 2) ∷ []

handle_2024_get_stalled_example :
    (r : GetResult) × (handle_2024_get same_message
        (granted ready)
        (waiting_client ++ (closed, 3) ∷ (timer, 4) ∷ [])
      ≡ inl r)
    × (handle_2024_get same_message (granted ready) waiting_client ≡ inl r)
    × (r.end ≡ waits)
unfolding acquire_output Stays new_session
handle_2024_get_stalled_example =
    handle_2024_get_stalled same_message ready waiting_client ((timer, 4) ∷ []) 3 refl
      (refl, (refl, tt)) (refl, tt)
