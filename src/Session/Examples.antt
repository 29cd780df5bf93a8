-- ===== src/Session/Examples.antt =====
-- Concrete sessions, and runs of shared/session.go on them.
use gate4ai.Dict
use gate4ai.Session.Send.{send_request}
use gate4ai.Prelude.{
  ℕ, ◌+◌, ◌≡◌, refl, true, false, Option, none, some, List, [], ◌∷◌, String, ◌==◌, arith, eqb,
  if◌then◌else◌, show_ℕ,
}
use gate4ai.Jsonrpc.{Message, number, encoded}
use gate4ai.Requests.{Callback}
use gate4ai.Session.{acquire_output, Session, new_session, connected, set_status}
use gate4ai.Session.Bounds.{
  Op, notifies, requests, receives, acquires, closes, sets, run, IsValid, run-new_session-IsValid,
}
use gate4ai.Session.Ownership.{acquire_output_exclusive}
use gate4ai.Session.Sync.{send_request_sync, next_cursor}
use gate4ai.Session.Sync.Steps.{Move, answers, sends, counts, start_exchange, run_exchange}
use gate4ai.Session.Sync.Steps.Pages.{Pages, unfinished, total, send_request_sync_pages}
use gate4ai.Prelude.{
  ℕ, ◌≡◌, refl, true, false, Option, none, some, List, [], ◌∷◌, String, ◌==◌, arith, if◌then◌else◌,
  show_ℕ,
}
use gate4ai.Prelude.{
  ℕ, ◌≡◌, refl, true, false, Option, none, some, List, [], ◌∷◌, String, ◌==◌, arith, if◌then◌else◌,
  show_ℕ,
}

abbrev fresh : Session
fresh = new_session "r" "s1" 5

abbrev ready : Session
ready = set_status fresh connected

abbrev result_ok : Message
result_ok = record {
  id = some (number 1);
  method = none;
  params = none;
  result = some "{}";
  error = none;
  processed = false;
  session = none;
}

abbrev ops : List (ℕ × Op)
ops =
    (1, sets connected)
    ∷ (2, acquires)
    ∷ (3, notifies "n" none)
    ∷ (4, requests "ping" none (some 7))
    ∷ (5, receives)
    ∷ (6, closes)
    ∷ []

run-new_session-IsValid_example : IsValid (run (new_session "r" "s1" 5) ops)
run-new_session-IsValid_example = run-new_session-IsValid "r" "s1" 5 ops

acquire_output_exclusive_example :
    (acquire_output (run (acquire_output fresh).0 ((1, acquires) ∷ (2, receives) ∷ []))).1 ≡ false
unfolding acquire_output new_session
acquire_output_exclusive_example =
    acquire_output_exclusive fresh ((1, acquires) ∷ (2, receives) ∷ []) refl (tt, (tt, tt))

abbrev waiting : Session
waiting = (send_request ready "ping" none (some 7) 9).0

abbrev keep : Callback → Message → Session → Session
keep c m s = s

-- A list of two pages. The cursor of the first is "c".
abbrev page : String → Message
page result = record {
  id = some (number 1);
  method = none;
  params = none;
  result = some result;
  error = none;
  processed = false;
  session = none;
}

unfoldable two_pages : Option String → Message
two_pages none = page "first"
two_pages (some raw) = if raw == "c" then page "second" else page "first"

unfoldable cursor_in : String → Option (Option String)
cursor_in result = if result == "first" then some (some "c") else some none

abbrev bare : String → String
bare cursor = cursor

-- The second page overtakes the first.
abbrev overtaken : List Move
overtaken = answers ∷ answers ∷ sends 0 ∷ sends 0 ∷ counts ∷ counts ∷ []

overtaken_test :
    (run_exchange cursor_in bare two_pages overtaken (
      start_exchange
        (send_request_sync ready "tools/list" (some (encoded "start")) 7 9).1
        (some "start"))).call.delivered
    ≡ page "second" ∷ page "first" ∷ []
unfolding run_exchange start_exchange send_request_sync two_pages cursor_in next_cursor new_session
overtaken_test = refl

send_request_sync_pages_example :
    let x = run_exchange cursor_in bare two_pages overtaken (
      start_exchange
        (send_request_sync ready "tools/list" (some (encoded "start")) 7 9).1
        (some "start")) in
    (x.has_panicked ≡ false)
    × (x.call.is_closed ≡ eqb (unfinished x) 0)
    × ((ms : List Message) × Pages cursor_in bare two_pages (some "start") ms x.awaited
        × ((f : Message → ℕ) → total f x.call.delivered + total f x.sending ≡ total f ms))
unfolding new_session send_request
send_request_sync_pages_example =
    send_request_sync_pages cursor_in bare two_pages ready "tools/list" (some (encoded "start")) 7 9
      (some "start") overtaken refl (omega arith)
