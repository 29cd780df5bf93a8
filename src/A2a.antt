-- ===== src/A2a.antt =====
-- Tasks of the A2A protocol: shared/a2a/2025-draft/schema and the shared parts of
-- server/a2a/capability.go. A list stands for a nil slice and for an empty one, which JSON writes
-- alike; metadata is its JSON text. A timestamp of 0 is Go's zero time.
pub mod Store
pub mod Update
pub mod Handlers
pub mod Conclude
pub mod Send
pub mod Requests
pub mod Stream
pub mod Examples
use gate4ai.Prelude.{
  ℕ, ◌-◌, ◌<◌, Bool, true, false, not, Option, none, some, List, [], ◌∷◌, String, ◌<>◌, arith,
  length, drop, ℤ, pos, negsuc, quote,
}
use gate4ai.Dict
use gate4ai.Dict.{Dict}
use gate4ai.Jsonrpc.{GoError, RpcError, error_text}

-- `other` is a state that the schema does not name.
pub data TaskState : Type 0 where
  submitted working input_required completed canceled failed unknown : TaskState
  other : String → TaskState

abbrev pub is_input_required : TaskState → Bool
is_input_required TaskState.input_required = true
is_input_required _ = false

abbrev pub is_failed : TaskState → Bool
is_failed TaskState.failed = true
is_failed _ = false

abbrev pub is_canceled : TaskState → Bool
is_canceled TaskState.canceled = true
is_canceled _ = false

abbrev pub is_terminal_state : TaskState → Bool
is_terminal_state TaskState.completed = true
is_terminal_state TaskState.failed = true
is_terminal_state TaskState.canceled = true
is_terminal_state _ = false

-- A part of a message: a text, or another part by its JSON.
pub data Part : Type 0 where
  text_part other_part : String → Part

pub record ChatMessage : Type 0 where
  pub role : String
  pub parts : List Part
  pub metadata : Option String

pub record TaskStatus : Type 0 where
  pub state : TaskState
  pub message : Option ChatMessage
  pub timestamp : ℕ

pub record Artifact : Type 0 where
  pub name : Option String
  pub description : Option String
  pub parts : List Part
  pub index : ℤ
  pub append : Option Bool
  pub last_chunk : Option Bool
  pub metadata : Option String

pub record Task : Type 0 where
  pub id : String
  pub session_id : String
  pub status : TaskStatus
  pub artifacts : List Artifact
  pub history : List ChatMessage
  pub metadata : Option String

pub record TaskSendParams : Type 0 where
  pub id : String
  pub message : ChatMessage
  pub history_length : Option ℤ
  pub metadata : Option String

pub record TaskQueryParams : Type 0 where
  pub id : String
  pub history_length : Option ℤ

-- What a handler yields; the first field that is set counts.
pub record YieldUpdate : Type 0 where
  pub status : Option TaskStatus
  pub artifact : Option Artifact
  pub error : Option RpcError

-- The parameters of a message: none, which the handlers dereference all the same, a text that
-- `json.Unmarshal` refuses, or a value.
pub data Params (A : Type 0) : Type 0 where
  missing : Params A
  malformed : String → Params A
  params : A → Params A

-- How a handler of a `tasks/` method ends.
pub data TaskReply : Type 0 where
  task_reply : Task → TaskReply
  task_error : RpcError → TaskReply
  task_panics : TaskReply

abbrev pub rpc_error : ℤ → String → RpcError
rpc_error code message = record { code = code; message = message; payload = none }

abbrev pub task_not_found_code : ℤ
task_not_found_code = negsuc 32000

abbrev pub task_not_cancelable_code : ℤ
task_not_cancelable_code = negsuc 32001

abbrev pub unsupported_operation_code : ℤ
unsupported_operation_code = negsuc 32003

about_task : ℤ → String → String → RpcError
about_task code message id = record {
  code = code;
  message = message;
  payload = some ("{\"taskId\":" <> quote id <> "}");
}

unfoldable pub not_found_error : String → RpcError
unfolding about_task
not_found_error id = about_task task_not_found_code ("Task not found: " <> id) id

unfoldable pub not_cancelable_error : String → RpcError
unfolding about_task
not_cancelable_error id =
    about_task task_not_cancelable_code ("Task '" <> id <> "' cannot be canceled") id

unfoldable pub unsupported_operation_error : String → RpcError
unsupported_operation_error operation = record {
  code = unsupported_operation_code;
  message = "Operation '" <> operation <> "' is not supported";
  payload = some ("{\"operation\":" <> quote operation <> "}");
}

agent_text : String → ChatMessage
agent_text s = record { role = "agent"; parts = text_part s ∷ []; metadata = none }

error_message : GoError → Option RpcError → String
error_message e (some j) = j.message
error_message e none = "Internal error: " <> error_text e

-- `createErrorStatus` at an error that is not nil.
unfoldable pub create_error_status : GoError → Option RpcError → ℕ → TaskStatus
unfolding agent_text error_message
create_error_status e j now = record {
  state = TaskState.failed;
  message = some (agent_text (error_message e j));
  timestamp = now;
}

-- history[len(history)-n:] where it is longer than n; no history where n is missing or negative.
unfoldable pub trim_history : Option ℤ → List ChatMessage → List ChatMessage
trim_history (some (pos n)) h = drop (length h - n) h
trim_history (some (negsuc n)) h = []
trim_history none h = []

abbrev pub trimmed : Option ℤ → Task → Task
trimmed n t = record t { history = trim_history n t.history }
