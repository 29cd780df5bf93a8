-- ===== src/Gateway/Examples.antt =====
-- Two backends that list a tool of the same name.
use gate4ai.Prelude.{
  arith, ◌<>◌, ◌⊎◌, ◌≡◌, inl, inr, refl, true, false, none, some, List, [], ◌∷◌, String, ◌==◌,
  eq_iff, if◌then◌else◌, All,
}
use gate4ai.Dict
use gate4ai.Dict.{Dict}
use gate4ai.Config.{Config}
use gate4ai.Config.Internal.{get_user_subscribes, new_internal_config, to_config}
use gate4ai.Manager.{no_params}
use gate4ai.Auth.{save_user_id, get_user_id}
use gate4ai.Jsonrpc.{GoError}
use gate4ai.Gateway.Headers.{merge_headers, last_value, get-merge_headers}
use gate4ai.Gateway.Tools.{
  Tool, Fetched, fetched, fetch_and_combine, all_items, servers_of, modify_name, find_tool,
  route_call,
}
use gate4ai.Gateway.Tools.Routing.{Offers, IsNameOf, HasName, route_call-IsNameOf}
use gate4ai.Gateway.Backends.{fresh_enough, BackendSession, Backends, get_backend_sessions, In}
use gate4ai.Gateway.Backends.Subscribed.{get_backend_sessions_subscribed}

abbrev lower : String → String
lower s = if s == "Key" then "key" else s

get-merge_headers_example :
    Dict.get (merge_headers lower (("key", "system") ∷ []) (("Key", "server") ∷ []) []) "key"
    ≡ last_value lower "key"
        (last_value lower "key" (last_value lower "key" none []) (("Key", "server") ∷ []))
        (("key", "system") ∷ [])
get-merge_headers_example =
    get-merge_headers lower (("key", "system") ∷ []) (("Key", "server") ∷ []) [] "key"

abbrev results : List (String × Fetched)
results = ("a", fetched (("x", "{}") ∷ [])) ∷ ("b", fetched (("x", "{}") ∷ [])) ∷ []

route_call-IsNameOf_example : Offers results "b" "x" × IsNameOf "b:x" "b" "x"
unfolding route_call fetch_and_combine find_tool all_items servers_of modify_name
route_call-IsNameOf_example = route_call-IsNameOf results "b:x" "b" "x" refl

abbrev first : Tool
first = record { name = "a:x"; original_name = "x"; server_slug = "a"; definition = "{}" }

abbrev second : Tool
second = record { name = "b:x"; original_name = "x"; server_slug = "b"; definition = "{}" }

apart : ¬ HasName (second ∷ []) "a:x"
apart (inl e) = let no : false ≡ true = (eq_iff "b:x" "a:x").1 e in absurd (cc)
apart (inr e) = e

abbrev config : Config
config = to_config (record new_internal_config {
  user_subscribes = ("ann", "a" ∷ []) ∷ [];
  backends = ("a", record { url = "http://a"; bearer = "" }) ∷ [];
})

abbrev no_config : Config
no_config = to_config new_internal_config

abbrev empty : Backends
empty = record { saved = none; closed = []; next = 0 }

abbrev first_value : Dict String → String → String
first_value d k = ""

get_backend_sessions_subscribed_example :
    let (after, result) =
      get_backend_sessions lower first_value
        (λ u. true)
        config
        (save_user_id no_params "ann")
        empty
        9 in
    (ss : List BackendSession) × (result ≡ inl ss)
    × (after.saved ≡ some (ss, 9))
    × All (λ s. In s.slug ("a" ∷ [])) ss
    × (get_backend_sessions lower first_value
          (λ u. true)
          no_config
          (save_user_id no_params "ann")
          after
          12
        ≡ (after, inl ss))
unfolding save_user_id get_user_id new_internal_config get_user_subscribes fresh_enough Dict.get
    Dict.put
get_backend_sessions_subscribed_example =
    get_backend_sessions_subscribed lower first_value (λ u. true) config
      (save_user_id no_params "ann") empty 9 ("a" ∷ []) no_config 12 refl (λ e. absurd (cc)) refl
      (omega arith)

abbrev readings : List Tool
readings =
    record { name = "a"; original_name = "a"; server_slug = "s1"; definition = "{}" }
    ∷ record { name = "s2:b"; original_name = "b"; server_slug = "s2"; definition = "{}" }
    ∷ []

abbrev read_uri : String → String → String ⊎ GoError
read_uri slug original = inl (slug <> "/" <> original)
