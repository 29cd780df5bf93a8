-- ===== src/Resources.antt =====
-- The resources of an MCP server and who is subscribed to them: server/mcp/capability/resources.go.
-- A resource's handler is known by a number, and a session by its identifier. What the code starts
-- in a goroutine is a notice that the operation returns.
pub mod Updated
pub mod Requests
pub mod Subscribers
pub mod Roundtrip
pub mod Examples
use gate4ai.Prelude.{
  ℕ, ◌<◌, Bool, true, false, not, Option, none, some, List, [], ◌∷◌, String, ◌<>◌, arith,
  if◌then◌else◌, length, ℤ,
}
use gate4ai.Dict
use gate4ai.Dict.{Dict}
use gate4ai.Jsonrpc.{GoError, plain, rpc, new_jsonrpc_error, invalid_params_code, server_error_code}
use gate4ai.A2a.{Params, missing, malformed, params, rpc_error}

pub data SubscriptionOperation : Type 0 where
  subscribe unsubscribe : SubscriptionOperation

pub record Resource : Type 0 where
  pub uri : String
  pub name : String
  pub description : String
  pub mime_type : String
  pub handler : ℕ
  pub last_modified : ℕ

pub record ResourceTemplate : Type 0 where
  pub uri_template : String
  pub name : String
  pub description : String
  pub mime_type : String
  pub handler : Option ℕ

-- `subscribers` maps a URI to the set of its sessions.
pub record ResourcesCapability : Type 0 where
  pub resources : Dict Resource
  pub templates : Dict ResourceTemplate
  pub subscribers : Dict (Dict Bool)
  pub subscription_handlers : List ℕ

unfoldable pub new_resources_capability : ResourcesCapability
new_resources_capability = record {
  resources = [];
  templates = [];
  subscribers = [];
  subscription_handlers = [];
}

-- `broadcastResourcesListChanged`, `NotifyResourceUpdated` and `notifySubscriptionHandlers`.
pub data Notice : Type 0 where
  list_changed : Notice
  resource_updated : String → Notice
  subscription_changed : String → SubscriptionOperation → String → ℕ → Notice

-- What an operation ends with.
pub data Ended : Type 0 where
  done : List Notice → Ended
  ended_by : GoError → Ended

already : String → String → GoError
already kind uri = plain (kind <> " '" <> uri <> "' already exists")

absent : String → String → GoError
absent kind uri = plain (kind <> " '" <> uri <> "' not found")

no_handler : String → GoError
no_handler uri = plain ("handler cannot be nil for resource '" <> uri <> "'")

put_resource : ResourcesCapability → Resource → Option ℕ → Notice → ResourcesCapability × Ended
unfolding no_handler
put_resource c r none notice = (c, ended_by (no_handler r.uri))
put_resource c r (some h) notice = (
  record c { resources = Dict.put c.resources r.uri (record r { handler = h }) },
  done (notice ∷ []),
)

-- `handler` is `none` for a nil function; the handler of `r` itself is not read.
unfoldable pub add_resource :
    ResourcesCapability → Resource → Option ℕ → ResourcesCapability × Ended
unfolding put_resource already
add_resource c r handler =
    if Dict.has c.resources r.uri
    then (c, ended_by (already "resource" r.uri))
    else put_resource c r handler list_changed

unfoldable pub update_resource :
    ResourcesCapability → Resource → Option ℕ → ResourcesCapability × Ended
unfolding put_resource absent
update_resource c r handler =
    if Dict.has c.resources r.uri
    then put_resource c r handler (resource_updated r.uri)
    else (c, ended_by (absent "resource" r.uri))

unfoldable pub delete_resource : ResourcesCapability → String → ResourcesCapability × Ended
unfolding absent
delete_resource c uri =
    if Dict.has c.resources uri
    then (
      record c {
        resources = Dict.remove c.resources uri;
        subscribers = Dict.remove c.subscribers uri;
      },
      done (list_changed ∷ []),
    )
    else (c, ended_by (absent "resource" uri))

unfoldable pub add_resource_template :
    ResourcesCapability → ResourceTemplate → ResourcesCapability × Ended
unfolding already
add_resource_template c t =
    if Dict.has c.templates t.uri_template
    then (c, ended_by (already "template" t.uri_template))
    else (record c { templates = Dict.put c.templates t.uri_template t }, done [])

unfoldable pub delete_resource_template : ResourcesCapability → String → ResourcesCapability × Ended
unfolding absent
delete_resource_template c uri =
    if Dict.has c.templates uri
    then (record c { templates = Dict.remove c.templates uri }, done [])
    else (c, ended_by (absent "template" uri))

touch : ResourcesCapability → String → ℕ → Option Resource → ResourcesCapability × Ended
unfolding absent
touch c uri now none = (c, ended_by (absent "resource" uri))
touch c uri now (some r) = (
  record c { resources = Dict.put c.resources uri (record r { last_modified = now }) },
  done (resource_updated uri ∷ []),
)

unfoldable pub trigger_resource_update :
    ResourcesCapability → String → ℕ → ResourcesCapability × Ended
unfolding touch
trigger_resource_update c uri now = touch c uri now (Dict.get c.resources uri)

or_empty_set : Option (Dict Bool) → Dict Bool
or_empty_set none = []
or_empty_set (some m) = m

subscribers_without : Dict (Dict Bool) → String → Dict Bool → Dict (Dict Bool)
subscribers_without d uri [] = Dict.remove d uri
subscribers_without d uri (e ∷ m) = Dict.put d uri (e ∷ m)

remove_from :
    ResourcesCapability → String → String → Option (Dict Bool) → ResourcesCapability × Ended
unfolding subscribers_without
remove_from c session uri none = (c, done [])
remove_from c session uri (some m) =
    let left = Dict.remove m session in
    if Dict.has m session
    then (
      record c { subscribers = subscribers_without c.subscribers uri left },
      done (subscription_changed session unsubscribe uri (length left) ∷ []),
    )
    else (c, done [])

unfoldable pub remove_subscription :
    ResourcesCapability → String → String → ResourcesCapability × Ended
unfolding remove_from
remove_subscription c session uri = remove_from c session uri (Dict.get c.subscribers uri)

rpc_end : ℤ → String → Ended
rpc_end code message = ended_by (rpc (new_jsonrpc_error (rpc (rpc_error code message))))

-- `handleResourcesSubscribe`, for a URI in the parameters.
unfoldable pub handle_resources_subscribe :
    ResourcesCapability → String → Params String → ResourcesCapability × Ended
unfolding or_empty_set rpc_end
handle_resources_subscribe c session missing = (c, rpc_end invalid_params_code "Missing params")
handle_resources_subscribe c session (malformed e) =
    (c, rpc_end invalid_params_code ("Invalid parameters: " <> e))
handle_resources_subscribe c session (params uri) =
    let before = or_empty_set (Dict.get c.subscribers uri) in
    let after = Dict.put before session true in
    if Dict.has c.resources uri
    then (
      record c { subscribers = Dict.put c.subscribers uri after },
      done (
          if Dict.has before session
          then []
          else subscription_changed session subscribe uri (length after) ∷ []),
    )
    else (c, rpc_end server_error_code ("Cannot subscribe to unknown resource: " <> uri))

unfoldable pub handle_resources_unsubscribe :
    ResourcesCapability → String → Params String → ResourcesCapability × Ended
unfolding rpc_end
handle_resources_unsubscribe c session missing = (c, rpc_end invalid_params_code "Missing params")
handle_resources_unsubscribe c session (malformed e) =
    (c, rpc_end invalid_params_code ("Invalid parameters: " <> e))
handle_resources_unsubscribe c session (params uri) = remove_subscription c session uri

abbrev pub is_subscribed : ResourcesCapability → String → String → Bool
is_subscribed c session uri = elim (Dict.get c.subscribers uri) [
  | none ↦ false
  | some m ↦ Dict.has m session
]
