-- ===== src/Http/Reply/Once.antt =====
-- Which messages `responseToStream` sends as events, and when it ends.
use gate4ai.Dict
use gate4ai.Dict.{Dict}
use gate4ai.Prelude.{
  ℕ, ◌+◌, ◌≤◌, ◌≡◌, ◌≢◌, ◌⊎◌, inl, inr, refl, ap, ◌∙◌, Bool, true, false, Option, none, some, List,
  [], ◌∷◌, String, ◌==◌, eq_iff, arith, if◌then◌else◌, is_some, is_none, Bool-cases, str_refl, All,
}
use gate4ai.Http.{Arrival, message, nil_message, closed, timer, disconnects}
use gate4ai.Http.Reply.{is_done, Response, response_of, SseItem, event, ping, stream, pending_of}
use gate4ai.Jsonrpc.{IdValue, Encoded, encoded, Message, id_string}

-- How many events answer the identifier with a text.
abbrev pub events_for : String → List SseItem → ℕ
events_for k [] = 0
events_for k (ping ∷ items) = events_for k items
events_for k (event n id text ∷ items) = (if id_string id == k then 1 else 0) + events_for k items

abbrev pub pending_count : Dict Bool → String → ℕ
pending_count pending k = if Dict.has pending k then 1 else 0

module _ (remarshal : String → Encoded) (marshal : Response → Encoded) where
  events_for-le :
      (k : String) (pending : Dict Bool) (next : ℕ) (arrivals : List (Option Arrival))
      → events_for k (stream remarshal marshal pending next arrivals).items
        ≤ pending_count pending k
  unfolding stream
  events_for-le k pending next [] = omega arith
  events_for-le k pending next (none ∷ more) = events_for-le k pending next more
  events_for-le k pending next (some (message m) ∷ more) =
      let same = events_for-le k pending next more in
      let less = events_for-le k (Dict.remove pending (id_string m.id)) (next + 1) more in
      let gone = Dict.get-remove pending (id_string m.id) k in
      elim (Bool-cases (id_string m.id == k)) [
        | inl e ↦ ground (
          arith,
          same,
          less,
          gone,
          e,
          ap (λ j. is_some (Dict.get pending j)) ((eq_iff (id_string m.id) k).0 e),
        )
        | inr e ↦ ground (arith, same, less, gone, e)
      ]
  events_for-le k pending next (some nil_message ∷ more) = events_for-le k pending next more
  events_for-le k pending next (some closed ∷ more) = omega arith
  events_for-le k pending next (some timer ∷ more) = omega arith
  events_for-le k pending next (some disconnects ∷ more) = omega arith

  pending_of-has :
      (k : String) (ids : List IdValue)
      → All (λ id. id_string (some id) ≢ k) ids
      → Dict.get (pending_of ids) k ≡ none
  unfolding pending_of Dict.get
  pending_of-has k [] h = refl
  pending_of-has k (id ∷ ids) h =
      Dict.get-put_ne (pending_of ids) (id_string (some id)) k true h.0 ∙ pending_of-has k ids h.1

  -- Whatever arrives, a stream answers each identifier of its requests at most once, and no other
  -- identifier.
  pub stream_once :
      (k : String) (ids : List IdValue) (next : ℕ) (arrivals : List (Option Arrival))
      → let items : List SseItem =
          (stream remarshal marshal (pending_of ids) next arrivals).items in
        (events_for k items ≤ 1)
        × (All (λ id. id_string (some id) ≢ k) ids → events_for k items ≡ 0)
  stream_once k ids next arrivals =
      let le = events_for-le k (pending_of ids) next arrivals in
      (ground (arith, le), λ h. ground (arith, le, pending_of-has k ids h))

-- A message with the identifier arrives.
abbrev pub Arrives : String → List (Option Arrival) → Type 0
Arrives k [] = ⊥
Arrives k (some (message m) ∷ more) =
    ((is_none m.id ≡ false) × (id_string m.id ≡ k)) ⊎ Arrives k more
Arrives k (none ∷ more) = Arrives k more
Arrives k (some nil_message ∷ more) = Arrives k more
Arrives k (some closed ∷ more) = Arrives k more
Arrives k (some timer ∷ more) = Arrives k more
Arrives k (some disconnects ∷ more) = Arrives k more

put-is_done : (pending : Dict Bool) (k : String) → is_done (Dict.put pending k true) ≡ false
unfolding Dict.put
put-is_done [] k = refl
put-is_done ((j, v) ∷ pending) k = ground arith

head-has : (k : String) (v : Bool) (pending : Dict Bool) → Dict.has ((k, v) ∷ pending) k ≡ true
unfolding Dict.get
head-has k v pending = rw (str_refl k) refl

has-remove :
    (pending : Dict Bool) (j k : String)
    → Dict.has (Dict.remove pending j) k ≡ true
    → (j ≢ k) × (Dict.has pending k ≡ true)
has-remove pending j k h = elim (Bool-cases (j == k)) [
  | inl e ↦ absurd (ground (arith, Dict.get-remove pending j k, e, h))
  | inr e ↦ (λ p. cc (e, (eq_iff j k).1 p), ground (arith, Dict.get-remove pending j k, e, h))
]

module _ (remarshal : String → Encoded) (marshal : Response → Encoded)
    (encodes : (r : Response) → (text : String) × (marshal r ≡ encoded text)) where
  skip :
      (m : Message) (k : String) (more : List (Option Arrival))
      → ¬ ((is_none m.id ≡ false) × (id_string m.id ≡ k))
      → ((is_none m.id ≡ false) × (id_string m.id ≡ k)) ⊎ Arrives k more
      → Arrives k more
  skip m k more h (inl e) = absurd (h e)
  skip m k more h (inr a) = a

  stream_ends :
      (pending : Dict Bool) (next : ℕ) (arrivals : List (Option Arrival))
      → is_done pending ≡ false
      → ((k : String) → Dict.has pending k ≡ true → Arrives k arrivals)
      → (stream remarshal marshal pending next arrivals).ended ≡ true
  unfolding stream
  stream_ends [] next [] e h = cc
  stream_ends ((k, v) ∷ pending) next [] e h = absurd (h k (head-has k v pending))
  stream_ends pending next (none ∷ more) e h = stream_ends pending next more e h
  stream_ends pending next (some nil_message ∷ more) e h = stream_ends pending next more e h
  stream_ends pending next (some closed ∷ more) e h = refl
  stream_ends pending next (some timer ∷ more) e h = refl
  stream_ends pending next (some disconnects ∷ more) e h = refl
  stream_ends pending next (some (message m) ∷ more) e h = elim (Bool-cases (is_none m.id)) [
    | inl gone ↦
        let rest =
          stream_ends pending next more e (λ k p. skip m k more (λ q. cc (gone, q.0)) (h k p)) in
        ground (arith, gone, e, rest)
    | inr there ↦ elim (Bool-cases (Dict.has pending (id_string m.id))) [
      | inl listed ↦
          let (text, written) = encodes (response_of remarshal m) in
          elim (Bool-cases (is_done (Dict.remove pending (id_string m.id)))) [
            | inl last ↦ ground (arith, there, listed, written, last)
            | inr left_over ↦
                let rest =
                  stream_ends (Dict.remove pending (id_string m.id)) (next + 1) more left_over
                    (λ k p.
                      let q = has-remove pending (id_string m.id) k p in
                      skip m k more (λ r. q.0 r.1) (h k q.1)) in
                ground (arith, there, listed, written, left_over, rest)
          ]
      | inr absent ↦
          let rest = stream_ends pending next more e (λ k p.
            skip m k more (λ q. cc (absent, p, ap (λ j. Dict.has pending j) q.1)) (h k p)) in
          ground (arith, there, absent, e, rest)
    ]
  ]

  -- The stream of a POST with a request ends: it does so at the latest when a message with the
  -- identifier of each request has arrived, in any order and with any other messages between them,
  -- if the answers can be written as JSON.
  pub stream_finishes :
      (id : IdValue) (ids : List IdValue) (next : ℕ) (arrivals : List (Option Arrival))
      → ((k : String) → Dict.has (pending_of (id ∷ ids)) k ≡ true → Arrives k arrivals)
      → (stream remarshal marshal (pending_of (id ∷ ids)) next arrivals).ended ≡ true
  unfolding pending_of
  stream_finishes id ids next arrivals h =
      stream_ends (pending_of (id ∷ ids)) next arrivals
        (put-is_done (pending_of ids) (id_string (some id))) h
