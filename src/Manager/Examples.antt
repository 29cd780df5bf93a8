-- ===== src/Manager/Examples.antt =====
-- A concrete table of sessions.
use gate4ai.Prelude.{◌≡◌, some}
use gate4ai.Manager.{Manager, ServerSession, new_manager, no_params, create_session, get_session}
use gate4ai.Manager.Identity.{get_session-create_session}

get_session-create_session_example :
    let (m', s) = create_session new_manager "ann" "x1" no_params "r" 3 in
    get_session m' s.base.id ≡ some s
get_session-create_session_example =
    get_session-create_session new_manager "ann" "x1" "r" no_params 3

abbrev two : Manager
two =
    (create_session (create_session new_manager "ann" "x1" no_params "r1" 3).0 "bob" "x2" no_params
      "r2" 4).0

abbrev ann : ServerSession
ann = (create_session new_manager "ann" "x1" no_params "r1" 3).1
