-- ===== src/Http/Post/Refused.antt =====
-- What a POST does with requests that the validators refuse.
use gate4ai.Prelude.{◌≡◌, some, List, [], ◌∷◌, All}
use gate4ai.Http.Post.{request_of}
use gate4ai.Input.{Input, validate}
use gate4ai.Jsonrpc.{IdValue, GoError, Message}
use gate4ai.Session.{Session}

-- The identifiers of the requests: the messages with a method and an identifier.
abbrev pub requests : List Message → List IdValue
requests [] = []
requests (m ∷ ms) = request_of m.method m.id (requests ms)

module _ {W : Type 0} where
  -- The validators refuse the message in every state, without changing it.
  abbrev pub IsRefused : Input W → W → Message → Type 0
  IsRefused i w m = (e : GoError) × (validate i.validators m w ≡ (some e, w))

  -- Each message, as it is put.
  abbrev pub AllRefused : Input W → Session → W → List Message → Type 0
  AllRefused i s w = All (λ m. IsRefused i w (record m { session = some s.id }))
