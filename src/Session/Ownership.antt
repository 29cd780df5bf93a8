-- ===== src/Session/Ownership.antt =====
-- Who holds the output channel: `AcquireOutput` and `ReleaseOutput` of shared/session.go.
use gate4ai.Prelude.{ℕ, ◌≡◌, true, false, none, some, List, [], ◌∷◌, arith, All}
use gate4ai.Session.Bounds.{
  Op, notifies, requests, responds, streams, receives, acquires, releases, closes, sets, step, run,
}
use gate4ai.Jsonrpc.{encoded, unencodable}
use gate4ai.Session.Send.{
  send_notification, send_request, send_response, send_a2a_stream_event, content, stream_error,
  no_content,
}
use gate4ai.Session.{receive, Session, acquire_output, release_output}

-- The operations that give the channel up.
abbrev pub Keeps : ℕ × Op → Type 0
Keeps (_, releases) = ⊥
Keeps (_, closes) = ⊥
Keeps _ = Unit {0}

step_held :
    (s : Session) (o : ℕ × Op)
    → Keeps o
    → s.is_output_acquired ≡ true
    → (step s o).is_output_acquired ≡ true
unfolding step send_notification send_request send_response send_a2a_stream_event acquire_output
    receive
step_held s (now, notifies method (some (unencodable e))) k h = h
step_held s (now, notifies method (some (encoded raw))) k h = ground arith
step_held s (now, notifies method none) k h = ground arith
step_held s (now, requests method (some (unencodable e)) callback) k h = ground arith
step_held s (now, requests method (some (encoded raw)) callback) k h = ground arith
step_held s (now, requests method none callback) k h = ground arith
step_held s (now, responds id result err) k h = ground arith
step_held s (now, streams (content (encoded raw))) k h = ground arith
step_held s (now, streams (content (unencodable e))) k h = h
step_held s (now, streams (stream_error e)) k h = ground arith
step_held s (now, streams no_content) k h = h
step_held s (now, receives) k h = ground arith
step_held s (now, acquires) k h = ground arith
step_held s (now, releases) k h = absurd k
step_held s (now, closes) k h = absurd k
step_held s (now, sets status) k h = h

run_held :
    (s : Session) (os : List (ℕ × Op))
    → All Keeps os
    → s.is_output_acquired ≡ true
    → (run s os).is_output_acquired ≡ true
unfolding run
run_held s [] k h = h
run_held s (o ∷ os) k h = run_held (step s o) os k.1 (step_held s o k.0 h)

-- While one caller holds the channel, and neither a release nor a close happens, whatever else
-- happens, no other caller gets it.
pub acquire_output_exclusive :
    (s : Session) (os : List (ℕ × Op))
    → (acquire_output s).1 ≡ true
    → All Keeps os
    → (acquire_output (run (acquire_output s).0 os)).1 ≡ false
unfolding acquire_output
acquire_output_exclusive s os h k =
    ground (arith, run_held (record s { is_output_acquired = true }) os k)

-- `ReleaseOutput` does not ask who calls it: where a caller that was refused releases, the next
-- caller gets the channel that the first one still holds.
pub release_by_refused :
    (s : Session)
    → (acquire_output s).1 ≡ true
    → ((acquire_output (acquire_output s).0).1 ≡ false)
      × ((acquire_output (release_output (acquire_output (acquire_output s).0).0)).1 ≡ true)
unfolding acquire_output release_output
release_by_refused s h = ground arith
