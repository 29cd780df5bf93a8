-- ===== src/Handshake/Connection.antt =====
-- The handshake of base.go through the input processor of shared/input.go: what a session's status
-- says of its version, and which answers to `initialize` reach the client.
use mathlib.Core.Path.{subst}
use gate4ai.Dict
use gate4ai.Prelude.{
  ℕ, ◌≡◌, ◌⊎◌, inl, inr, refl, sym, Bool, true, false, Option, none, some, List, [], ◌∷◌, String,
  ◌==◌, eq_iff, arith, if◌then◌else◌,
}
use gate4ai.Handshake.{
  InitializeParams, Client, base_handlers, base_input, handle_initialize, initialize_with,
  initialize_params, handle_ping, handle_notification_ping, handle_notification_initialized,
}
use gate4ai.Handshake.Negotiation.{IsSupported, negotiate-IsSupported}
use gate4ai.Input.{new_input, add_capability, default_not_found, process, Outcome}
use gate4ai.Input.Preserved.{KeptBy, KeptByInput, process-OfSession}
use gate4ai.Jsonrpc.{Encoded, Message}
use gate4ai.Requests.{Callback}
use gate4ai.Session.{
  Session, Status, new, connecting, connected, disconnected, set_status, new_session, is_connected,
}

-- A session that is connecting or connected has a supported version.
abbrev pub IsNegotiated : Status → String → Type 0
IsNegotiated connected v = IsSupported v
IsNegotiated connecting v = IsSupported v
IsNegotiated _ v = (v ≡ "") ⊎ IsSupported v

weaken : (t : Status) (v : String) → IsNegotiated t v → (v ≡ "") ⊎ IsSupported v
weaken new v h = h
weaken connecting v h = inr h
weaken connected v h = inr h
weaken disconnected v h = h

module _ (unmarshal : String → InitializeParams ⊎ String) (answer : String → Encoded) where
  initialize_with-IsNegotiated :
      (r : InitializeParams ⊎ String) (s : Session) (c : Client)
      → IsNegotiated s.status s.negotiated_version
      → IsNegotiated
          (initialize_with unmarshal answer r s c).0.status
          (initialize_with unmarshal answer r s c).0.negotiated_version
  unfolding initialize_with
  initialize_with-IsNegotiated (inl p) s c h = (negotiate-IsSupported p.protocol_version).0
  initialize_with-IsNegotiated (inr e) s c h = h

  initialize_params-IsNegotiated :
      (o : Option String) (s : Session) (c : Client)
      → IsNegotiated s.status s.negotiated_version
      → IsNegotiated
          (initialize_params unmarshal answer o s c).0.status
          (initialize_params unmarshal answer o s c).0.negotiated_version
  unfolding initialize_params
  initialize_params-IsNegotiated none s c h = h
  initialize_params-IsNegotiated (some raw) s c h =
      initialize_with-IsNegotiated (unmarshal raw) s c h

  handle_initialize-IsNegotiated : KeptBy IsNegotiated (handle_initialize unmarshal answer)
  unfolding handle_initialize
  handle_initialize-IsNegotiated m s c h = initialize_params-IsNegotiated m.params s c h

IsSupported-of_ne : (v : String) → (v == "") ≡ false → (v ≡ "") ⊎ IsSupported v → IsSupported v
IsSupported-of_ne v e (inl h) = absurd (cc (e, (eq_iff v "").1 h))
IsSupported-of_ne v e (inr h) = h

initialized_kept :
    (t : Status) (v : String) (b : Bool)
    → (v == "") ≡ b
    → IsNegotiated t v
    → IsNegotiated (if is_connected t then t else if b then t else connected) v
initialized_kept connected v b e h = h
initialized_kept new v true e h = h
initialized_kept new v false e h = IsSupported-of_ne v e h
initialized_kept connecting v true e h = h
initialized_kept connecting v false e h = h
initialized_kept disconnected v true e h = h
initialized_kept disconnected v false e h = IsSupported-of_ne v e h

-- The status that the notification leaves; nothing else of the session changes.
initialized_status :
    (m : Message) (s : Session) (c : Client)
    → (handle_notification_initialized m s c).0
      ≡ set_status s (
          if is_connected s.status
          then s.status
          else if s.negotiated_version == ""
          then s.status
          else connected)
unfolding handle_notification_initialized
initialized_status m s c = ground arith

initialized-IsNegotiated : KeptBy IsNegotiated handle_notification_initialized
initialized-IsNegotiated m s c h =
    subst (λ (t : Session). IsNegotiated t.status t.negotiated_version)
      (sym (initialized_status m s c)) (initialized_kept s.status s.negotiated_version _ refl h)

ping-IsNegotiated : KeptBy IsNegotiated handle_ping
unfolding handle_ping
ping-IsNegotiated m s c h = h

notification_ping-IsNegotiated : KeptBy IsNegotiated handle_notification_ping
unfolding handle_notification_ping
notification_ping-IsNegotiated m s c h = h

default-IsNegotiated : KeptBy IsNegotiated (default_not_found {W = Client})
unfolding default_not_found
default-IsNegotiated m s c h = h

base_input-Kept :
    (unmarshal : String → InitializeParams ⊎ String) (answer : String → Encoded)
    → KeptByInput IsNegotiated (base_input unmarshal answer)
unfolding base_input base_handlers add_capability new_input Dict.put
base_input-Kept unmarshal answer = (
  (
    ping-IsNegotiated,
    (
      handle_initialize-IsNegotiated unmarshal answer,
      (notification_ping-IsNegotiated, (initialized-IsNegotiated, tt)),
    ),
  ),
  default-IsNegotiated,
)

-- One message after the other, each to its end, with the handlers of base.go alone.
unfoldable pub process_all :
    (String → InitializeParams ⊎ String)
    → (String → Encoded)
    → (Callback → Message → Session → Session)
    → List (Message × ℕ)
    → Session
    → Client
    → Session × Client
process_all unmarshal answer run [] s c = (s, c)
process_all unmarshal answer run ((m, now) ∷ more) s c =
    let r : Session × Client × Outcome = process run (base_input unmarshal answer) m s c now in
    process_all unmarshal answer run more r.0 r.1

module _ (unmarshal : String → InitializeParams ⊎ String) (answer : String → Encoded)
    (run : Callback → Message → Session → Session)
    (keep : (c : Callback) (m : Message) (s : Session)
      → IsNegotiated s.status s.negotiated_version
      → IsNegotiated (run c m s).status (run c m s).negotiated_version) where
  process_all-Kept :
      (l : List (Message × ℕ)) (s : Session) (c : Client)
      → IsNegotiated s.status s.negotiated_version
      → IsNegotiated
          (process_all unmarshal answer run l s c).0.status
          (process_all unmarshal answer run l s c).0.negotiated_version
  unfolding process_all
  process_all-Kept [] s c h = h
  process_all-Kept ((m, now) ∷ l) s c h = process_all-Kept l _ _ (
      process-OfSession IsNegotiated run keep (base_input unmarshal answer)
        (base_input-Kept unmarshal answer) m s c now h)

  -- Whatever messages a new session has processed, it is connecting or connected only with a
  -- protocol version that the server supports, provided that the callbacks of its own requests keep
  -- to this.
  pub process_all-IsNegotiated :
      (l : List (Message × ℕ)) (random_id id : String) (born : ℕ) (c : Client)
      → IsNegotiated
          (process_all unmarshal answer run l (new_session random_id id born) c).0.status
          (process_all unmarshal answer run l
            (new_session random_id id born)
            c).0.negotiated_version
  unfolding new_session
  process_all-IsNegotiated l random_id id born c =
      process_all-Kept l (new_session random_id id born) c (inl refl)
