-- ===== src/Gateway/Tools.antt =====
-- One list of tools from many backends, and the way back from a name to its backend:
-- `fetchAndCombineFromBackends` of gateway/capability/capability.go with the functions that
-- `GetTools` (gw_tools_list.go) gives it, and `gw_tools_call` (gw_tools_call.go).
pub mod Routing
use gate4ai.Prelude.{
  ◌+◌, ◌<◌, not, ◌&&◌, Option, none, some, List, [], ◌∷◌, ◌++◌, map, String, ◌<>◌, ◌==◌, arith, ltb,
  if◌then◌else◌, length,
}
use gate4ai.Jsonrpc.{GoError, plain}

-- `tool`: the current name, the name on the backend, the backend, and the rest as its JSON.
pub record Tool : Type 0 where
  pub name : String
  pub original_name : String
  pub server_slug : String
  pub definition : String

-- What a backend, once open, answered: its tools by name and JSON, or an error.
pub data Fetched : Type 0 where
  fetched : List (String × String) → Fetched
  fetch_fails : GoError → Fetched

tools_of : String → List (String × String) → List Tool
tools_of slug [] = []
tools_of slug ((name, definition) ∷ more) =
    record { name = name; original_name = name; server_slug = slug; definition = definition }
    ∷ tools_of slug more

items_of : String → Fetched → List Tool
unfolding tools_of
items_of slug (fetched ts) = tools_of slug ts
items_of slug (fetch_fails e) = []

-- The tools of all results, in the order in which the results arrive.
unfoldable pub all_items : List (String × Fetched) → List Tool
unfolding items_of
all_items [] = []
all_items ((slug, f) ∷ more) = items_of slug f ++ all_items more

-- The servers under a name, one for each tool.
unfoldable pub servers_of : List Tool → String → List String
servers_of [] key = []
servers_of (t ∷ ts) key =
    let rest = servers_of ts key in if t.name == key then t.server_slug ∷ rest else rest

unfoldable pub modify_name : Tool → String → Tool
modify_name t slug = record t { name = slug <> ":" <> t.original_name }

modify_duplicate : List Tool → Tool → Tool
unfolding modify_name servers_of
modify_duplicate ts t =
    if ltb 1 (length (servers_of ts t.name)) && not (t.server_slug == "")
    then modify_name t t.server_slug
    else t

-- `GetTools` where it has no recent list to return: its cache is left out.
unfoldable pub fetch_and_combine : List (String × Fetched) → List Tool
unfolding modify_duplicate all_items
fetch_and_combine results = let ts = all_items results in map (modify_duplicate ts) ts

-- The first tool with a name.
unfoldable pub find_tool : List Tool → String → Option Tool
find_tool [] name = none
find_tool (t ∷ ts) name = let rest = find_tool ts name in if t.name == name then some t else rest

-- Where `gw_tools_call` sends a call: to a server, with the name there, or it answers by an error.
pub data Route : Type 0 where
  to_backend : String → String → Route
  no_route : GoError → Route

route_of : String → Option Tool → Route
route_of name (some t) = to_backend t.server_slug t.original_name
route_of name none = no_route (plain ("tool not found: " <> name))

unfoldable pub route_call : List Tool → String → Route
unfolding route_of
route_call ts name = route_of name (find_tool ts name)
