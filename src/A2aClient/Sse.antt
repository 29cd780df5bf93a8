-- ===== src/A2aClient/Sse.antt =====
-- The stream that the A2A client reads: `_processSSEStream` of gateway/clients/a2aClient/client.go.
-- bufio.Scanner gives the lines, and an error instead of one that its buffer of 64 KB does not hold;
-- `byte_length` is Go's `len`. The context lasts until the stream has ended, and whoever reads
-- the channel of events takes each of them.
pub mod Roundtrip
pub mod Final
use gate4ai.Jsonrpc.{GoError, plain, rpc, RpcError}
use gate4ai.Prelude.{
  ℕ, ◌<◌, ◌⊎◌, inl, inr, Bool, true, false, Option, none, some, List, [], ◌∷◌, String, ◌<>◌, ◌==◌,
  starts_with, arith, eqb, ltb, if◌then◌else◌,
}

-- The end of the lines: of the body, or an error, with whether the channel of events has room.
pub data ScanEnd : Type 0 where
  end_of_file : ScanEnd
  read_error : String → Bool → ScanEnd

-- `A2AStreamEvent`, by the JSON of its status or artifact.
pub data ClientEvent : Type 0 where
  status_event : String → Bool → ClientEvent
  artifact_event : String → ClientEvent
  error_event : GoError → Bool → ClientEvent

pub record SseReply : Type 0 where
  pub result : Option String
  pub error : Option RpcError

-- What the data of an event comes to: an event, after which the stream may be over, or nothing.
pub data Flushed : Type 0 where
  emits : ClientEvent → Bool → Flushed
  skips : Flushed

abbrev pub after : Flushed → List ClientEvent → List ClientEvent
after skips rest = rest
after (emits event true) rest = event ∷ []
after (emits event false) rest = event ∷ rest

-- bufio.MaxScanTokenSize
abbrev pub max_line : ℕ
max_line = 65536

abbrev pub too_long : String
too_long = "bufio.Scanner: token too long"

-- What the scanner gives of the lines of a body; `room` is that of the channel of events.
unfoldable pub scan : (String → ℕ) → Bool → List String → List String × ScanEnd
scan byte_length room [] = ([], end_of_file)
scan byte_length room (line ∷ more) =
    let rest = scan byte_length room more in
    if ltb (byte_length line) max_line
    then (line ∷ rest.0, rest.1)
    else ([], read_error too_long room)

-- `unmarshal` reads the response in the data, or gives the text of its error; `status_of` gives the
-- state and the final flag of a status update, `parts_of` the number of parts of an artifact, where
-- a result can be read as such. `trim` is `strings.TrimSpace`, `trim_prefix` `strings.TrimPrefix`.
module _ (unmarshal : String → SseReply ⊎ String) (status_of : String → Option (String × Bool))
    (parts_of : String → Option ℕ) (trim : String → String)
    (trim_prefix : String → String → String) where
  as_artifact : String → Option ℕ → Flushed
  as_artifact raw none = skips
  as_artifact raw (some n) = if eqb n 0 then skips else emits (artifact_event raw) false

  as_event : String → Option (String × Bool) → Flushed
  unfolding as_artifact
  as_event raw none = as_artifact raw (parts_of raw)
  as_event raw (some (state, final)) =
      if state == "" then as_artifact raw (parts_of raw) else emits (status_event raw final) final

  read_response : Option RpcError → Option String → Flushed
  unfolding as_event
  read_response (some e) result = emits (error_event (rpc e) true) true
  read_response none none = skips
  read_response none (some raw) = as_event raw (status_of raw)

  read_unmarshalled : SseReply ⊎ String → Flushed
  unfolding read_response
  read_unmarshalled (inl r) = read_response r.error r.result
  read_unmarshalled (inr e) = emits (error_event (plain ("parse SSE data: " <> e)) false) false

  -- An empty line after some data.
  unfoldable pub flush : String → Flushed
  unfolding read_unmarshalled
  flush data_text = read_unmarshalled (unmarshal data_text)

  -- The buffer after a line that is not empty.
  unfoldable pub with_line : String → String → String
  with_line buffer line =
      if starts_with line "data:" then buffer <> trim (trim_prefix line "data:") else buffer

  unfoldable pub at_end : ScanEnd → List ClientEvent
  at_end end_of_file = []
  at_end (read_error e true) = error_event (plain ("SSE read error: " <> e)) false ∷ []
  at_end (read_error e false) = []

  unfoldable pub process_sse_stream : String → List String → ScanEnd → List ClientEvent
  unfolding flush with_line at_end
  process_sse_stream buffer [] end = at_end end
  process_sse_stream buffer (line ∷ more) end =
      let rest = process_sse_stream (if line == "" then "" else with_line buffer line) more end in
      if line == "" then if buffer == "" then rest else after (flush buffer) rest else rest

  -- A body that the server closes after some lines.
  unfoldable pub process_sse_body : (String → ℕ) → Bool → List String → List ClientEvent
  unfolding process_sse_stream scan
  process_sse_body byte_length room lines =
      let (given, end) = scan byte_length room lines in process_sse_stream "" given end
