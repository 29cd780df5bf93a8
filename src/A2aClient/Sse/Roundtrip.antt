-- ===== src/A2aClient/Sse/Roundtrip.antt =====
-- The events that server/transport/handle-a2a-POST.go writes are those that
-- gateway/clients/a2aClient/client.go reads.
use Prim.Native.Char.{code}
use text.Mathlib.TextEquality.{starts_with_iff}
use text.Mathlib.TextLemmas.{append_assoc, nil-append, head-eq_of_cons-eq, cons-ne-nil, cons-append}
use gate4ai.Http.{Arrival}
use gate4ai.Jsonrpc.{Message, Encoded}
use gate4ai.Requests.{Callback}
use gate4ai.Session.{Session}
use gate4ai.Http.A2aPost.{A2aItem, event, reply, success, stream_answers}
use gate4ai.Http.A2aPost.Wire.{event_lines, item_lines, wire_lines}
use gate4ai.A2aClient.Sse.{
  read_error, max_line, too_long, scan, process_sse_body, ScanEnd, ClientEvent, after, SseReply,
  flush, with_line, at_end, process_sse_stream,
}
use gate4ai.Prelude.{
  ℕ, ◌≡◌, ◌⊎◌, inl, inr, refl, sym, ap, ◌∙◌, Bool, true, false, ◌&&◌, Option, List, [], ◌∷◌, String,
  ◌<>◌, ◌==◌, eq_iff, starts_with, arith, ltb, if◌then◌else◌, Bool-cases, All, show_ℕ,
}

data_prefix : (x : String) → starts_with ("data: " <> x) "data:" ≡ true
data_prefix x =
    (starts_with_iff ("data: " <> x) "data:").1 (" " <> x, sym (append_assoc "data:" " " x))

id_no_prefix : (x : String) → starts_with ("id: " <> x) "data:" ≡ false
id_no_prefix x = elim (Bool-cases (starts_with ("id: " <> x) "data:")) [
  | inr e ↦ e
  | inl e ↦
      let (r, q) = (starts_with_iff ("id: " <> x) "data:").0 e in
      let h = head-eq_of_cons-eq (sym (cons-append _ "ata:" r) ∙ q ∙ cons-append _ "d: " x) in
      let k : 100 ≡ 105 = ap code h in absurd (omega (arith, k))
]

data_not_empty : (x : String) → (("data: " <> x) == "") ≡ false
data_not_empty x = elim (Bool-cases (("data: " <> x) == "")) [
  | inr e ↦ e
  | inl e ↦
      absurd (cons-ne-nil _ _ (sym (cons-append _ "ata: " x) ∙ (eq_iff ("data: " <> x) "").0 e))
]

id_not_empty : (x : String) → (("id: " <> x) == "") ≡ false
id_not_empty x = elim (Bool-cases (("id: " <> x) == "")) [
  | inr e ↦ e
  | inl e ↦ absurd (cons-ne-nil _ _ (sym (cons-append _ "d: " x) ∙ (eq_iff ("id: " <> x) "").0 e))
]

module _ {A : Type 0} where
  both : (a b : Bool) (x y : A) → a ≡ true → b ≡ true → (if a && b then x else y) ≡ x
  both a b x y h k = rw (h, k) refl

  not_first : (a b : Bool) (x y : A) → a ≡ false → (if a && b then x else y) ≡ y
  not_first a b x y h = rw h refl

  not_second : (a b : Bool) (x y : A) → b ≡ false → (if a && b then x else y) ≡ y
  not_second a b x y h = ground (arith, h)

  first_one : (a : Bool) (x y : A) → a ≡ true → (if a then x else y) ≡ x
  first_one a x y h = rw h refl

  second_one : (a : Bool) (x y : A) → a ≡ false → (if a then x else y) ≡ y
  second_one a x y h = rw h refl

module _ (unmarshal : String → SseReply ⊎ String) (status_of : String → Option (String × Bool))
    (parts_of : String → Option ℕ) (trim : String → String) (trim_prefix : String → String → String)
    (trim_prefix-append : (p s : String) → trim_prefix (p <> s) p ≡ s) where
  ignored :
      (line : String) (more : List String) (end : ScanEnd)
      → (line == "") ≡ false
      → starts_with line "data:" ≡ false
      → process_sse_stream unmarshal status_of parts_of trim trim_prefix "" (line ∷ more) end
        ≡ process_sse_stream unmarshal status_of parts_of trim trim_prefix "" more end
  unfolding process_sse_stream with_line
  ignored line more end h k = rw h (rw k refl)

  id_line :
      (x : String) (more : List String) (end : ScanEnd)
      → process_sse_stream unmarshal status_of parts_of trim trim_prefix ""
          (("id: " <> x) ∷ more)
          end
        ≡ process_sse_stream unmarshal status_of parts_of trim trim_prefix "" more end
  unfolding process_sse_stream with_line
  id_line x more end = rw (id_not_empty x) (rw (id_no_prefix x) refl)

  data_line :
      (json : String) (more : List String) (end : ScanEnd)
      → trim (" " <> json) ≡ json
      → process_sse_stream unmarshal status_of parts_of trim trim_prefix ""
          (("data: " <> json) ∷ more)
          end
        ≡ process_sse_stream unmarshal status_of parts_of trim trim_prefix json more end
  unfolding process_sse_stream with_line
  data_line json more end trimmed =
      let rest : trim (trim_prefix ("data: " <> json) "data:") ≡ json =
        ap (λ t. trim (trim_prefix t "data:")) (append_assoc "data:" " " json)
        ∙ ap trim (trim_prefix-append "data:" (" " <> json))
        ∙ trimmed in
      rw (data_not_empty json) (rw (data_prefix json) (rw rest (rw (nil-append json) refl)))

  blank_line :
      (json : String) (more : List String) (end : ScanEnd)
      → (json == "") ≡ false
      → process_sse_stream unmarshal status_of parts_of trim trim_prefix json ("" ∷ more) end
        ≡ after
            (flush unmarshal status_of parts_of trim trim_prefix json)
            (process_sse_stream unmarshal status_of parts_of trim trim_prefix "" more end)
  unfolding process_sse_stream
  blank_line json more end h = rw h refl

  module _ (byte_length : String → ℕ) (room : Bool) (reply_json : A2aItem → String)
      (no_bytes : byte_length "" ≡ 0)
      (no_data : (item : A2aItem) → starts_with (reply_json item) "data:" ≡ false)
      (not_empty : (item : A2aItem) → (reply_json item == "") ≡ false) where
    abbrev fits : String → Bool
    fits line = ltb (byte_length line) max_line

    abbrev broken : List ClientEvent
    broken = at_end unmarshal status_of parts_of trim trim_prefix (read_error too_long room)

    abbrev body : List String → List ClientEvent
    body lines =
        process_sse_body unmarshal status_of parts_of trim trim_prefix byte_length room lines

    -- One line at a time, with some data before it.
    abbrev from : String → List String → List ClientEvent
    from buffer lines =
        let (given, end) = scan byte_length room lines in
        process_sse_stream unmarshal status_of parts_of trim trim_prefix buffer given end

    -- What a reader gets of the items one after another, without the lines: until a line that does
    -- not fit, which is an error.
    unfoldable pub received : List A2aItem → List ClientEvent
    received [] = []
    received (event n json ∷ items) =
        let rest =
          after (flush unmarshal status_of parts_of trim trim_prefix json) (received items) in
        if fits ("id: " <> show_ℕ n) && fits ("data: " <> json) then rest else broken
    received (reply r ∷ items) =
        let rest = received items in if fits (reply_json (reply r)) then rest else broken
    received (success id result ∷ items) =
        let rest = received items in if fits (reply_json (success id result)) then rest else broken

    -- A text that is the data of an event: not empty, and with no space around it but the one of
    -- the line.
    abbrev pub IsData : A2aItem → Type 0
    IsData (event n json) = (trim (" " <> json) ≡ json) × ((json == "") ≡ false)
    IsData item = Unit {0}

    from_long :
        (buffer line : String) (more : List String)
        → fits line ≡ false
        → from buffer (line ∷ more) ≡ broken
    unfolding scan process_sse_stream at_end
    from_long buffer line more h = rw h refl

    from_fits :
        (buffer line : String) (more : List String)
        → fits line ≡ true
        → from buffer (line ∷ more)
          ≡ process_sse_stream unmarshal status_of parts_of trim trim_prefix buffer
              (line ∷ (scan byte_length room more).0)
              (scan byte_length room more).1
    unfolding scan
    from_fits buffer line more h = rw h refl

    from_reply :
        (item : A2aItem) (more : List String)
        → fits (reply_json item) ≡ true
        → from "" (reply_json item ∷ more) ≡ from "" more
    from_reply item more h =
        from_fits "" (reply_json item) more h
        ∙ ignored (reply_json item) (scan byte_length room more).0 (scan byte_length room more).1
            (not_empty item) (no_data item)

    after_id :
        (n : ℕ) (more : List String)
        → fits ("id: " <> show_ℕ n) ≡ true
        → from "" (("id: " <> show_ℕ n) ∷ more) ≡ from "" more
    after_id n more h =
        from_fits "" ("id: " <> show_ℕ n) more h
        ∙ id_line (show_ℕ n) (scan byte_length room more).0 (scan byte_length room more).1

    after_data :
        (json : String) (more : List String)
        → fits ("data: " <> json) ≡ true
        → (trim (" " <> json) ≡ json) × ((json == "") ≡ false)
        → from "" (("data: " <> json) ∷ "" ∷ more)
          ≡ after (flush unmarshal status_of parts_of trim trim_prefix json) (from "" more)
    after_data json more h (trimmed, full) =
        from_fits "" ("data: " <> json) ("" ∷ more) h
        ∙ data_line json (scan byte_length room ("" ∷ more)).0 (scan byte_length room ("" ∷ more)).1
            trimmed
        ∙ from_fits json "" more (ap (λ n. ltb n max_line) no_bytes)
        ∙ blank_line json (scan byte_length room more).0 (scan byte_length room more).1 full

    nothing_left : from "" [] ≡ []
    unfolding scan process_sse_stream at_end
    nothing_left = refl

    -- A reply, whether its line fits or not.
    whole :
        (item : A2aItem) (items : List A2aItem)
        → from "" (wire_lines reply_json items) ≡ received items
        → from "" (reply_json item ∷ wire_lines reply_json items)
          ≡ (if fits (reply_json item) then received items else broken)
    whole item items h = elim (Bool-cases (fits (reply_json item))) [
      | inl e ↦
          from_reply item (wire_lines reply_json items) e
          ∙ h
          ∙ sym (first_one (fits (reply_json item)) _ _ e)
      | inr e ↦
          from_long "" (reply_json item) (wire_lines reply_json items) e
          ∙ sym (second_one (fits (reply_json item)) _ _ e)
    ]

    body-wire_lines :
        (items : List A2aItem)
        → All IsData items
        → from "" (wire_lines reply_json items) ≡ received items
    unfolding wire_lines item_lines event_lines received
    body-wire_lines [] h = nothing_left
    body-wire_lines (event n json ∷ items) h =
        let more = wire_lines reply_json items in
        let id : String = "id: " <> show_ℕ n in
        let data_text : String = "data: " <> json in
        elim (Bool-cases (fits id)) [
          | inr e ↦ from_long "" id (data_text ∷ "" ∷ more) e ∙ sym (not_first (fits id) _ _ _ e)
          | inl e ↦ after_id n (data_text ∷ "" ∷ more) e ∙ elim (Bool-cases (fits data_text)) [
            | inr f ↦ from_long "" data_text ("" ∷ more) f ∙ sym (not_second (fits id) _ _ _ f)
            | inl f ↦
                after_data json more f h.0
                ∙ ap (after (flush unmarshal status_of parts_of trim trim_prefix json))
                    (body-wire_lines items h.1)
                ∙ sym (both (fits id) _ _ _ e f)
          ]
        ]
    body-wire_lines (reply r ∷ items) h = whole (reply r) items (body-wire_lines items h.1)
    body-wire_lines (success id result ∷ items) h =
        whole (success id result) items (body-wire_lines items h.1)

    -- Each event of a stream is read as the JSON that the server wrote, in the order of the writing,
    -- until one that is final or an error; the numbers, and a reply after the events, have no
    -- effect. A line of 64 KB or more ends the reading with an error.
    pub process_sse_body-wire_lines :
        (marshal : Message → Encoded) (is_final : String → Bool)
        (run : Callback → Message → Session → Session) (s : Session) (m : Message)
        (arrivals : List Arrival)
        → All IsData (stream_answers marshal is_final run s m 0 arrivals).1
        → process_sse_body unmarshal status_of parts_of trim trim_prefix byte_length room
            (wire_lines reply_json (stream_answers marshal is_final run s m 0 arrivals).1)
          ≡ received (stream_answers marshal is_final run s m 0 arrivals).1
    unfolding process_sse_body
    process_sse_body-wire_lines marshal is_final run s m arrivals h =
        body-wire_lines (stream_answers marshal is_final run s m 0 arrivals).1 h
