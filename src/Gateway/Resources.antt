-- ===== src/Gateway/Resources.antt =====
-- The gateway's resources, prompts and completion: gw_resources_list.go, gw_resources_read.go,
-- gw_resources_subscribe.go, gw_prompts_get.go, gw_prompts_list.go and gw_completion_complete.go of
-- gateway/capability. Resources and prompts are combined by the function that combines tools, so
-- they are kept in its record: `name` is the URI of a resource or the name of a prompt. What the
-- backends answer, and whether there is a session to a backend, are arguments.
pub mod Notified
use gate4ai.Prelude.{
  ℕ, ◌-◌, ◌/◌, ◌<◌, ◌⊎◌, inl, inr, false, not, ◌&&◌, Option, none, some, List, [], ◌∷◌, map, String,
  ◌<>◌, ◌==◌, arith, ltb, if◌then◌else◌,
}
use gate4ai.Gateway.Backends.{cache_expiration}
use gate4ai.Gateway.Tools.{Tool, Fetched, fetch_and_combine, find_tool}
use gate4ai.Input.{Reaction, returns}
use gate4ai.Jsonrpc.{GoError, plain, error_text, Encoded, encoded, nil, value}
use gate4ai.Session.{Session}
use gate4ai.Session.Send.{send_notification, Sent}

-- `GetSavedResources`: the resources and the time at which they were saved.
abbrev pub Saved : Type 0
Saved = Option (List Tool × ℕ)

fetch_resources : Saved → List (String × Fetched) ⊎ GoError → ℕ → Saved × (List Tool ⊎ GoError)
fetch_resources saved (inr e) now =
    (saved, inr (plain ("failed to get resources: " <> error_text e)))
fetch_resources saved (inl results) now =
    let ts = fetch_and_combine results in (some (ts, now), inl ts)

-- `GetResources`, with what `fetchAndCombineFromBackends` gets from the backends.
unfoldable pub get_resources :
    Saved → List (String × Fetched) ⊎ GoError → ℕ → Saved × (List Tool ⊎ GoError)
unfolding fetch_resources
get_resources none fetched now = fetch_resources none fetched now
get_resources (some (ts, t)) fetched now =
    if ltb (now - t) cache_expiration
    then (some (ts, t), inl ts)
    else fetch_resources (some (ts, t)) fetched now

-- `GetPrompts`, which has no cache.
unfoldable pub get_prompts : List (String × Fetched) ⊎ GoError → List Tool ⊎ GoError
get_prompts (inl results) = inl (fetch_and_combine results)
get_prompts (inr e) = inr (plain ("failed to get prompts: " <> error_text e))

-- The list that a client gets: names and definitions. `json` writes it.
unfoldable pub list_answer : (List (String × String) → Encoded) → List Tool ⊎ GoError → Reaction
list_answer json (inl ts) =
    returns (value false (json (map (λ (t : Tool). (t.name, t.definition)) ts))) none
list_answer json (inr e) = returns nil (some e)

-- The parameter that names a resource or prompt, with the texts of the errors.
named : (String → String ⊎ String) → String → String → Option String → String ⊎ GoError
named unmarshal missing required none = inr (plain missing)
named unmarshal missing required (some raw) = elim (unmarshal raw) [
  | inr e ↦ inr (plain ("invalid parameters: " <> e))
  | inl name ↦ if name == "" then inr (plain required) else inl name
]

found_or : String → Option Tool → Tool ⊎ GoError
found_or text (some t) = inl t
found_or text none = inr (plain text)

-- A chain of steps that may fail.
infixl 5 ◌>>=◌
abbrev ◌>>=◌ : {A B : Type 0} → A ⊎ GoError → (A → B ⊎ GoError) → B ⊎ GoError
inl a >>= f = f a
inr e >>= f = inr e

unfoldable pub wrapped : {A : Type 0} → String → A ⊎ GoError → A ⊎ GoError
wrapped text (inl a) = inl a
wrapped text (inr e) = inr (plain (text <> error_text e))

-- The resource or prompt with a name, in a list that may not have been got.
locate : String → List Tool ⊎ GoError → String → Tool ⊎ GoError
unfolding found_or
locate kind list name = do ts ← list; found_or (kind <> " not found: " <> name) (find_tool ts name)

unfoldable pub answer_of : String ⊎ GoError → Reaction
answer_of (inl json) = returns (value false (encoded json)) none
answer_of (inr e) = returns nil (some e)

-- `session_of` says whether there is a session to a server: `some` is the error.
with_session : (String → Option GoError) → Tool → Tool ⊎ GoError
with_session session_of t = elim (session_of t.server_slug) [ none ↦ inl t | some e ↦ inr e ]

module _ (unmarshal : String → String ⊎ String) (session_of : String → Option GoError) where
  -- `gw_resources_read`. `read` is what a server answers for a URI of its own.
  unfoldable pub gw_resources_read :
      (String → String → String ⊎ GoError) → List Tool ⊎ GoError → Option String → Reaction
  unfolding named locate wrapped with_session answer_of
  gw_resources_read read list params = answer_of (do
    uri ← named unmarshal "missing parameters" "resource URI is required" params
    t ← locate "resource" (wrapped "failed to get resource list: " list) uri
    s ← with_session session_of t
    wrapped ("backend error reading resource '" <> t.original_name <> "': ")
        (read t.server_slug t.original_name))

  -- `findBackendSessionForResourceURI`.
  find_backend_session : List Tool ⊎ GoError → Option String → Tool ⊎ GoError
  unfolding named locate wrapped with_session
  find_backend_session list params = do
    uri ←
        named unmarshal "missing parameters in message" "resource URI is required in parameters"
          params
    t ← locate "resource" (wrapped "failed to get resources: " list) uri
    wrapped
        ("failed to get backend session for server '" <> t.server_slug <> "' (resource URI '" <> uri
          <> "'): ")
        (with_session session_of t)

  -- `gw_resources_subscribe` and `gw_resources_unsubscribe`. `call` is the error of the server;
  -- `json` writes the status and the URI.
  subscription :
      String
      → String
      → (String → String → Option GoError)
      → (String → String → String)
      → List Tool ⊎ GoError
      → Option String
      → Reaction
  unfolding find_backend_session answer_of
  subscription verb status call json list params = answer_of (do
    t ← find_backend_session list params
    elim (call t.server_slug t.original_name) [
      | none ↦ inl (json status t.name)
      | some e ↦
          inr (plain ("failed to " <> verb <> t.original_name <> "' on backend: " <> error_text e))
    ])

  unfoldable pub gw_resources_subscribe :
      (String → String → Option GoError)
      → (String → String → String)
      → List Tool ⊎ GoError
      → Option String
      → Reaction
  unfolding subscription
  gw_resources_subscribe = subscription "subscribe to resource '" "subscribed"

  unfoldable pub gw_resources_unsubscribe :
      (String → String → Option GoError)
      → (String → String → String)
      → List Tool ⊎ GoError
      → Option String
      → Reaction
  unfolding subscription
  gw_resources_unsubscribe = subscription "unsubscribe from resource '" "unsubscribed"

  -- `gw_prompts_get`. `get` is what a server answers for a name and the parameters.
  unfoldable pub gw_prompts_get :
      (String → String → Option String → String ⊎ GoError)
      → List (String × Fetched) ⊎ GoError
      → Option String
      → Reaction
  unfolding named locate wrapped with_session answer_of get_prompts
  gw_prompts_get get results params = answer_of (do
    name ← named unmarshal "missing parameters" "prompt name is required" params
    t ← locate "prompt" (get_prompts results) name
    s ← with_session session_of t
    wrapped ("backend error getting prompt '" <> t.original_name <> "': ")
        (get t.server_slug t.original_name params))

-- The gateway's URI of a server's resource, among those saved.
unfoldable pub find_origin : List Tool → String → String → Option Tool
find_origin [] slug original = none
find_origin (t ∷ ts) slug original =
    let rest = find_origin ts slug original in
    if t.original_name == original && t.server_slug == slug then some t else rest

or_prefixed : String → String → Option Tool → String
or_prefixed slug original none = slug <> ":" <> original
or_prefixed slug original (some t) = if t.name == "" then slug <> ":" <> original else t.name

unfoldable pub gateway_uri : Saved → String → String → String
unfolding find_origin or_prefixed
gateway_uri none slug original = slug <> ":" <> original
gateway_uri (some (ts, t)) slug original = or_prefixed slug original (find_origin ts slug original)

-- `gw_resources_notification_updated`: the URI that the backend's parameters name, the backend's
-- slug, the client's session and its saved resources, as far as they are there. `json` writes the
-- parameters of the notification.
unfoldable pub notification_updated :
    (String → Encoded)
    → Option String
    → Option String
    → Option Session
    → Saved
    → ℕ
    → Option (Session × Sent)
unfolding gateway_uri
notification_updated json (some original) (some slug) (some s) saved now =
    if slug == ""
    then none
    else some (
        send_notification s "notifications/resources/updated"
          (some (json (gateway_uri saved slug original))) now)
notification_updated json _ _ _ saved now = none
