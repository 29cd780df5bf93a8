-- ===== src/Http/Reply/Count.antt =====
-- What `responseAndCloseConnection` counts as an answer.
use gate4ai.Prelude.{
  ℕ, zero, suc, ◌+◌, ◌≤◌, ◌<◌, ◌≡◌, ap, ◌∙◌, false, List, [], ◌∷◌, ◌++◌, map, String, arith, leb,
  length, length-append,
}
use mathlib.Core.List.{append_assoc}
use gate4ai.Http.{Arrival, message}
use gate4ai.Http.Reply.{Response, response_of, replies, collect}
use gate4ai.Jsonrpc.{Encoded, Message}

abbrev pub take {ℓ} : {A : Type ℓ} → ℕ → List A → List A
take zero xs = []
take (suc n) [] = []
take (suc n) (x ∷ xs) = x ∷ take n xs

module _ (remarshal : String → Encoded) where
  collect-take :
      (n k : ℕ) (acc : List Response) (ms : List Message) (more : List Arrival)
      → n ≡ length acc + suc k
      → k < length ms
      → collect remarshal n acc (map message ms ++ more)
        ≡ replies (acc ++ map (response_of remarshal) (take (suc k) ms))
  unfolding collect
  collect-take n k acc [] more e h = elim h [ ]
  collect-take n zero acc (m ∷ ms) more e h =
      ground (arith, length-append acc (response_of remarshal m ∷ []))
  collect-take n (suc k) acc (m ∷ ms) more e h =
      let r : Response = response_of remarshal m in
      let grown = length-append acc (r ∷ []) in
      let short : leb n (length (acc ++ r ∷ [])) ≡ false = ground (arith, grown) in
      rw short (
        collect-take n k (acc ++ r ∷ []) ms more (omega (arith, grown)) (omega arith)
        ∙ ap replies (append_assoc acc (r ∷ []) (map (response_of remarshal) (take (suc k) ms))))

  -- Where at least as many messages arrive as there are requests, the answer is made of the first
  -- so many, in their order, whatever their identifiers are: a notification or the answer to another
  -- POST is counted as an answer.
  pub collect-first :
      (n : ℕ) (ms : List Message) (more : List Arrival)
      → 0 < n
      → n ≤ length ms
      → collect remarshal n [] (map message ms ++ more)
        ≡ replies (map (response_of remarshal) (take n ms))
  collect-first zero ms more p h = elim p [ ]
  collect-first (suc k) ms more p h = collect-take (suc k) k [] ms more (omega arith) (omega arith)
