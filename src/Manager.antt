-- ===== src/Manager.antt =====
-- Server sessions and the table that holds them: server/transport/session.go and
-- server/transport/session-manager.go. Sessions are shared by pointer, so the table maps an
-- identifier to a place in `heap`; a session that leaves the table stays in the heap.
pub mod Lifecycle
pub mod Identity
pub mod Examples
use gate4ai.Prelude.{
  ℕ, zero, suc, ◌+◌, Option, none, some, List, [], ◌∷◌, ◌++◌, map, String, arith, ltb,
  if◌then◌else◌, length, get_elem?,
}
use gate4ai.Dict
use gate4ai.Dict.{Dict}
use gate4ai.Jsonrpc.{Encoded}
use gate4ai.Session.{Session, new_session, close, is_connected}
use gate4ai.Session.Send.{send_notification}

-- The values of `sync.Map` that the server stores under its own keys: texts, and the HTTP headers
-- of the request that created the session.
pub record SessionParams : Type 0 where
  pub texts : Dict String
  pub received_headers : Option (Dict String)

abbrev pub no_params : SessionParams
no_params = record { texts = []; received_headers = none }

pub record ServerSession : Type 0 where
  pub base : Session
  pub user_id : String
  pub params : SessionParams

-- `NewSession`, its parameters in the order in which it declares them.
unfoldable pub new_server_session : String → String → SessionParams → String → ℕ → ServerSession
unfolding new_session
new_server_session id user_id params random_id now = record {
  base = new_session random_id id now;
  user_id = user_id;
  params = params;
}

pub record Manager : Type 0 where
  pub sessions : Dict ℕ
  pub heap : List ServerSession

abbrev pub new_manager : Manager
new_manager = record { sessions = []; heap = [] }

-- `CreateSession(userID, id, params)`, which calls `NewSession(m, userID, id, …)`.
unfoldable pub create_session :
    Manager → String → String → SessionParams → String → ℕ → Manager × ServerSession
unfolding new_server_session
create_session m user_id id params random_id now =
    let s = new_server_session user_id id params random_id now in
    (
      record { sessions = Dict.put m.sessions s.base.id (length m.heap); heap = m.heap ++ s ∷ [] },
      s,
    )

deref : Manager → Option ℕ → Option ServerSession
deref m none = none
deref m (some place) = get_elem? m.heap place

-- `none` is `ErrSessionNotFound`.
unfoldable pub get_session : Manager → String → Option ServerSession
unfolding deref
get_session m id = deref m (Dict.get m.sessions id)

unfoldable pub remove_session : Manager → String → Manager
remove_session m id = record m { sessions = Dict.remove m.sessions id }

pub on_base : (Session → Session) → ServerSession → ServerSession
on_base f s = record s { base = f s.base }

pub update_at : (ServerSession → ServerSession) → List ServerSession → ℕ → List ServerSession
update_at f [] place = []
update_at f (s ∷ heap) zero = f s ∷ heap
update_at f (s ∷ heap) (suc place) = s ∷ update_at f heap place

close_at : Manager → String → Option ℕ → Manager
unfolding update_at on_base close
close_at m id none = m
close_at m id (some place) = record {
  sessions = Dict.remove m.sessions id;
  heap = update_at (on_base close) m.heap place;
}

unfoldable pub close_session : Manager → String → Manager
unfolding close_at
close_session m id = close_at m id (Dict.get m.sessions id)

close_each : Manager → List String → Manager
close_each m [] = m
close_each m (id ∷ ids) = close_each (close_session m id) ids

keys : Dict ℕ → List String
keys = map (λ e. e.0)

-- The goroutines of `CloseAllSessions` take the lock one after another.
unfoldable pub close_all_sessions : Manager → Manager
unfolding close_each keys
close_all_sessions m = close_each m (keys m.sessions)

close_idle : ℕ → ℕ → ServerSession → ServerSession
unfolding on_base close
close_idle now timeout s = if ltb (s.base.last_activity + timeout) now then on_base close s else s

cleanup_places :
    (ServerSession → ServerSession) → List (String × ℕ) → List ServerSession → List ServerSession
unfolding update_at
cleanup_places f [] heap = heap
cleanup_places f ((id, place) ∷ more) heap = cleanup_places f more (update_at f heap place)

-- `CleanupIdleSessions`: it closes, and leaves the table as it is.
unfoldable pub cleanup_idle_sessions : Manager → ℕ → ℕ → Manager
unfolding cleanup_places close_idle
cleanup_idle_sessions m now timeout = record m {
  heap = cleanup_places (close_idle now timeout) m.sessions m.heap;
}

notify_connected : String → Option Encoded → ℕ → ServerSession → ServerSession
unfolding on_base
notify_connected method params now s =
    if is_connected s.base.status
    then on_base (λ b. (send_notification b method params now).0) s
    else s

-- `NotifyEligibleSessions`, where no send has to wait.
unfoldable pub notify_eligible_sessions : Manager → String → Option Encoded → ℕ → Manager
unfolding cleanup_places notify_connected
notify_eligible_sessions m method params now = record m {
  heap = cleanup_places (notify_connected method params now) m.sessions m.heap;
}
