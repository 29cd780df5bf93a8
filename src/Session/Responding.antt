-- ===== src/Session/Responding.antt =====
-- `ProcessResponse` of shared/requestManager.go in its steps, between which other goroutines run: the
-- entry is looked up under one lock, the callback is called without a lock, and the entry is deleted
-- under another. `Session.Send.process_response` is a response that nothing interrupts.
pub mod Race
use gate4ai.Prelude.{Bool, true, false, Option, none, some, List, [], ◌∷◌, arith}
use gate4ai.Dict
use gate4ai.Jsonrpc.{RequestId, Message, id_string}
use gate4ai.Requests.{Callback, find_callback}
use gate4ai.Session.{Session}

-- How far a goroutine has come with its response, and in the end what it returns.
pub data Responder : Type 0 where
  looks_up : Message → Responder
  calls : Callback → Message → Responder
  deletes : RequestId → Responder
  ends : Bool → Responder

to_call : Option Callback → Message → Responder
to_call none m = ends false
to_call (some c) m = calls c m

look_up : Session → RequestId → Message → Responder
unfolding to_call
look_up s none m = ends false
look_up s (some id) m = to_call (find_callback s.requests (some id)) m

unfoldable pub respond_step :
    (Callback → Message → Session → Session) → Session → Responder → Session × Responder
unfolding look_up
respond_step run s (looks_up m) = (s, look_up s m.id m)
respond_step run s (calls c m) = (run c m s, deletes m.id)
respond_step run s (deletes id) =
    (record s { requests = Dict.remove s.requests (id_string id) }, ends true)
respond_step run s (ends b) = (s, ends b)

-- Which of two goroutines goes on.
pub data Turn : Type 0 where
  one other : Turn

unfoldable pub run_turns :
    (Callback → Message → Session → Session)
    → List Turn
    → Session × Responder × Responder
    → Session × Responder × Responder
unfolding respond_step
run_turns run [] p = p
run_turns run (one ∷ turns) (s, a, b) =
    let (t, a') = respond_step run s a in run_turns run turns (t, a', b)
run_turns run (other ∷ turns) (s, a, b) =
    let (t, b') = respond_step run s b in run_turns run turns (t, a, b')
