-- ===== src/Session/Sync/Steps.antt =====
-- The callbacks of `SendRequestSync` (shared/session.go), each in a goroutine of its own: a callback
-- asks for the next page, hands its response on, and counts down, and others may run between these
-- steps. `peer` is what the other side answers to the params of a request.
pub mod Pages
use gate4ai.Prelude.{
  ℕ, zero, suc, ◌+◌, Bool, true, false, ◌&&◌, ◌||◌, Option, none, some, List, [], ◌∷◌, ◌++◌, String,
  arith, eqb, if◌then◌else◌, get_elem?,
}
use gate4ai.Jsonrpc.{Message}
use gate4ai.Session.Sync.{SyncCall, Reading, reads, add_pending, next_cursor}

-- The request that is not answered yet, by its params; the responses whose callbacks have asked for
-- the next page and not handed them on; how many have handed theirs on and not counted down; and
-- whether a callback has panicked.
pub record Exchange : Type 0 where
  pub call : SyncCall
  pub awaited : Option (Option String)
  pub sending : List Message
  pub counting : ℕ
  pub has_panicked : Bool

unfoldable pub start_exchange : Reading → Option String → Exchange
start_exchange (reads call) params = record {
  call = call;
  awaited = some params;
  sending = [];
  counting = 0;
  has_panicked = false;
}
start_exchange r params = record {
  call = record { pending_requests = 0; delivered = []; is_closed = false };
  awaited = none;
  sending = [];
  counting = 0;
  has_panicked = false;
}

-- The next step: the answer with the first part of its callback, or the second or third part of a
-- callback. `sends` goes on with the i-th of those that wait to hand on.
pub data Move : Type 0 where
  answers counts : Move
  sends : ℕ → Move

abbrev pub without : ℕ → List Message → List Message
without i [] = []
without zero (m ∷ ms) = ms
without (suc i) (m ∷ ms) = m ∷ without i ms

-- `resultChan <- msg`
hand_on : Option Message → ℕ → Exchange → Exchange
hand_on none i x = x
hand_on (some m) i x = if x.call.is_closed then record x { has_panicked = true } else record x {
  call = record (x.call) { delivered = x.call.delivered ++ m ∷ [] };
  sending = without i x.sending;
  counting = suc x.counting;
}

-- `pendingRequests.Add(-1)`, and `close` at 0, which panics at a closed channel.
count_down : ℕ → Exchange → Exchange
count_down zero x = x
count_down (suc n) x =
    let left = add_pending 4294967295 x.call in
    record x {
      call = record left { is_closed = x.call.is_closed || eqb left.pending_requests 0 };
      counting = n;
      has_panicked = x.has_panicked || (x.call.is_closed && eqb left.pending_requests 0);
    }

module _ (paginated : String → Option (Option String)) (encode : String → String)
    (peer : Option String → Message) where
  ask_next : Option String → Message → Exchange → Exchange
  ask_next none m x = record x { awaited = none; sending = m ∷ x.sending }
  ask_next (some cursor) m x = record x {
    call = add_pending 1 x.call;
    awaited = some (some (encode cursor));
    sending = m ∷ x.sending;
  }

  answer : Option (Option String) → Exchange → Exchange
  unfolding ask_next next_cursor
  answer none x = x
  answer (some params) x = ask_next (next_cursor paginated (peer params).result) (peer params) x

  unfoldable pub exchange_step : Exchange → Move → Exchange
  unfolding answer hand_on count_down
  exchange_step x answers = answer x.awaited x
  exchange_step x (sends i) = hand_on (get_elem? x.sending i) i x
  exchange_step x counts = count_down x.counting x

  unfoldable pub run_exchange : List Move → Exchange → Exchange
  unfolding exchange_step
  run_exchange [] x = x
  run_exchange (move ∷ moves) x = run_exchange moves (exchange_step x move)
