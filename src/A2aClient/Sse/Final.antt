-- ===== src/A2aClient/Sse/Final.antt =====
-- The last event of a stream that gateway/clients/a2aClient/client.go reads.
use gate4ai.Jsonrpc.{RpcError}
use gate4ai.A2aClient.Sse.{
  ScanEnd, end_of_file, read_error, ClientEvent, status_event, artifact_event, error_event, Flushed,
  emits, skips, after, SseReply, flush, read_unmarshalled, read_response, as_event, as_artifact,
  with_line, at_end, process_sse_stream,
}
use gate4ai.Prelude.{
  ℕ, ◌≡◌, ◌⊎◌, inl, inr, refl, Bool, true, false, Option, none, some, List, [], ◌∷◌, String, ◌==◌,
  eqb, if◌then◌else◌, if_cases,
}

abbrev pub is_final : ClientEvent → Bool
is_final (status_event raw final) = final
is_final (artifact_event raw) = false
is_final (error_event e final) = final

-- No event but the last is final.
pub IsFinalLast : List ClientEvent → Type 0
IsFinalLast [] = Unit
IsFinalLast (e ∷ []) = Unit
IsFinalLast (e ∷ f ∷ more) = (is_final e ≡ false) × IsFinalLast (f ∷ more)

-- What stops the stream is final, and only that.
IsMarked : Flushed → Type 0
IsMarked skips = Unit
IsMarked (emits e stop) = is_final e ≡ stop

cons-IsFinalLast :
    (e : ClientEvent) (es : List ClientEvent)
    → is_final e ≡ false
    → IsFinalLast es
    → IsFinalLast (e ∷ es)
unfolding IsFinalLast
cons-IsFinalLast e [] h k = tt
cons-IsFinalLast e (f ∷ more) h k = (h, k)

after-IsFinalLast :
    (f : Flushed) (es : List ClientEvent) → IsMarked f → IsFinalLast es → IsFinalLast (after f es)
unfolding IsFinalLast IsMarked
after-IsFinalLast skips es m h = h
after-IsFinalLast (emits e true) es m h = tt
after-IsFinalLast (emits e false) es m h = cons-IsFinalLast e es m h

module _ (unmarshal : String → SseReply ⊎ String) (status_of : String → Option (String × Bool))
    (parts_of : String → Option ℕ) (trim : String → String)
    (trim_prefix : String → String → String) where
  as_artifact-IsMarked :
      (raw : String) (n : Option ℕ)
      → IsMarked (as_artifact unmarshal status_of parts_of trim trim_prefix raw n)
  unfolding as_artifact IsMarked
  as_artifact-IsMarked raw none = tt
  as_artifact-IsMarked raw (some n) =
      if_cases IsMarked (eqb n 0) skips (emits (artifact_event raw) false) (λ _. tt) (λ _. refl)

  as_event-IsMarked :
      (raw : String) (s : Option (String × Bool))
      → IsMarked (as_event unmarshal status_of parts_of trim trim_prefix raw s)
  unfolding as_event IsMarked
  as_event-IsMarked raw none = as_artifact-IsMarked raw (parts_of raw)
  as_event-IsMarked raw (some (state, final)) =
      if_cases IsMarked (state == "")
        (as_artifact unmarshal status_of parts_of trim trim_prefix raw (parts_of raw))
        (emits (status_event raw final) final) (λ _. as_artifact-IsMarked raw (parts_of raw))
        (λ _. refl)

  read_response-IsMarked :
      (e : Option RpcError) (result : Option String)
      → IsMarked (read_response unmarshal status_of parts_of trim trim_prefix e result)
  unfolding read_response IsMarked
  read_response-IsMarked (some e) result = refl
  read_response-IsMarked none none = tt
  read_response-IsMarked none (some raw) = as_event-IsMarked raw (status_of raw)

  flush-IsMarked :
      (r : SseReply ⊎ String)
      → IsMarked (read_unmarshalled unmarshal status_of parts_of trim trim_prefix r)
  unfolding read_unmarshalled IsMarked
  flush-IsMarked (inr e) = refl
  flush-IsMarked (inl r) = read_response-IsMarked r.error r.result

  -- Whatever the server sends, at most the last event is final: the client reads nothing after a
  -- final status or an error of JSON-RPC.
  pub process_sse_stream-IsFinalLast :
      (buffer : String) (lines : List String) (end : ScanEnd)
      → IsFinalLast
          (process_sse_stream unmarshal status_of parts_of trim trim_prefix buffer lines end)
  unfolding process_sse_stream at_end flush IsFinalLast
  process_sse_stream-IsFinalLast buffer [] end_of_file = tt
  process_sse_stream-IsFinalLast buffer [] (read_error e true) = tt
  process_sse_stream-IsFinalLast buffer [] (read_error e false) = tt
  process_sse_stream-IsFinalLast buffer (line ∷ more) end =
      let rest : List ClientEvent =
        process_sse_stream unmarshal status_of parts_of trim trim_prefix
          (if line == ""
            then ""
            else with_line unmarshal status_of parts_of trim trim_prefix buffer line)
          more end in
      let h : IsFinalLast rest =
        process_sse_stream-IsFinalLast
          (if line == ""
            then ""
            else with_line unmarshal status_of parts_of trim trim_prefix buffer line)
          more end in
      let f = flush unmarshal status_of parts_of trim trim_prefix buffer in
      if_cases IsFinalLast (line == "") (if buffer == "" then rest else after f rest) rest
        (λ _.
          if_cases IsFinalLast (buffer == "") rest (after f rest) (λ _. h)
            (λ _. after-IsFinalLast f rest (flush-IsMarked (unmarshal buffer)) h))
        (λ _. h)
