-- ===== src/McpClient/Options.antt =====
-- The headers of a client session: `WithHeaders` and `WithAuthenticationBearer` of
-- gateway/clients/mcpClient/sessionOption.go. `to_lower` is `strings.ToLower`. A map is gone
-- through in the order of its list.
pub mod Distinct
use gate4ai.Dict
use gate4ai.Dict.{Dict}
use gate4ai.Prelude.{◌<◌, Option, none, some, [], ◌∷◌, String, ◌<>◌, ◌==◌, arith, if◌then◌else◌}

module _ (to_lower : String → String) where
  -- The keys by their lower case.
  unfoldable pub lower_keys : Dict String → Dict String
  lower_keys [] = []
  lower_keys ((k, v) ∷ more) = Dict.put (lower_keys more) (to_lower k) k

  -- The headers without the key that has another case, if there is one.
  unfoldable pub without_other : Dict String → String → Option String → Dict String
  without_other current key none = current
  without_other current key (some existing) =
      if existing == key then current else Dict.remove current existing

  unfoldable pub merge : Dict String → Dict String → Dict String → Dict String
  unfolding without_other
  merge existing current [] = current
  merge existing current ((key, v) ∷ more) =
      merge (Dict.put existing (to_lower key) key)
        (Dict.put (without_other current key (Dict.get existing (to_lower key))) key v) more

  unfoldable pub with_headers : Dict String → Dict String → Dict String
  unfolding lower_keys merge
  with_headers headers current = merge (lower_keys current) current headers

unfoldable pub with_authentication_bearer : String → Dict String → Dict String
with_authentication_bearer token current =
    if token == ""
    then Dict.remove (Dict.remove current "Authorization") "authorization"
    else Dict.put (Dict.remove current "authorization") "Authorization" ("Bearer " <> token)
