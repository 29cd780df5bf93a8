-- ===== src/Gateway/Headers.antt =====
-- The headers of a request to a backend: `mergeHeaders` and `getMergedHeaders` of
-- gateway/capability/capability.go. `to_lower` is `strings.ToLower`, and `header_get` the `Get` of
-- `http.Header`.
use gate4ai.Prelude.{
  ◌≡◌, refl, ap, ◌∙◌, Bool, true, false, not, Option, none, some, [], ◌∷◌, String, ◌<>◌, ◌==◌,
  if◌then◌else◌,
}
use gate4ai.Dict
use gate4ai.Dict.{Dict, get-put}
use gate4ai.Config.{Config, Lookup, found, not_found, fails}
use gate4ai.Manager.{SessionParams}
use gate4ai.Auth.{get_user_id, get_remote_addr}

put_lowered : (String → String) → Dict String → Dict String → Dict String
put_lowered to_lower merged [] = merged
put_lowered to_lower merged ((k, v) ∷ more) =
    put_lowered to_lower (Dict.put merged (to_lower k) v) more

unfoldable pub merge_headers :
    (String → String) → Dict String → Dict String → Dict String → Dict String
unfolding put_lowered
merge_headers to_lower system server subscription =
    put_lowered to_lower (put_lowered to_lower (put_lowered to_lower [] subscription) server) system

put_if : Bool → Dict String → String → String → Dict String
put_if true d k v = Dict.put d k v
put_if false d k v = d

forwarded :
    (Dict String → String → String) → Option (Dict String) → String → Dict String → Dict String
forwarded header_get none remote_addr d = d
forwarded header_get (some h) remote_addr d =
    let before = header_get h "X-Forwarded-For" in
    Dict.put d "X-Forwarded-For"
      (if remote_addr == "" then before else before <> ", " <> remote_addr)

unfoldable pub system_headers :
    (Dict String → String → String) → SessionParams → String → Dict String
unfolding put_if forwarded
system_headers header_get p slug = forwarded header_get p.received_headers (get_remote_addr p) (
    put_if (not (slug == ""))
      (put_if (not (get_user_id p == "")) [] "Gate4ai-User-Id" (get_user_id p))
      "Gate4ai-Server-Slug" slug)

or_none : Lookup (Dict String) → Dict String
or_none (found d) = d
or_none not_found = []
or_none (fails e) = []

unfoldable pub get_merged_headers :
    (String → String)
    → (Dict String → String → String)
    → Config
    → SessionParams
    → String
    → Dict String
unfolding merge_headers system_headers or_none
get_merged_headers to_lower header_get cfg p slug =
    merge_headers to_lower (system_headers header_get p slug)
      (or_none (cfg.get_server_headers slug))
      (if get_user_id p == ""
        then []
        else or_none (cfg.get_subscription_headers (get_user_id p) slug))

-- The value of the last header whose lowered name is `k`, or `before` without one.
abbrev pub last_value : (String → String) → String → Option String → Dict String → Option String
last_value to_lower k before [] = before
last_value to_lower k before ((j, v) ∷ more) =
    last_value to_lower k (if to_lower j == k then some v else before) more

get-put_lowered :
    (to_lower : String → String) (merged headers : Dict String) (k : String)
    → Dict.get (put_lowered to_lower merged headers) k
      ≡ last_value to_lower k (Dict.get merged k) headers
unfolding put_lowered
get-put_lowered to_lower merged [] k = refl
get-put_lowered to_lower merged ((j, v) ∷ more) k =
    get-put_lowered to_lower (Dict.put merged (to_lower j) v) more k
    ∙ ap (λ o. last_value to_lower k o more) (get-put merged (to_lower j) k v)

-- Under a name in lower case the merged headers have the value of the system's header with that
-- name, else of the server's, else of the subscription's, names being compared in lower case.
pub get-merge_headers :
    (to_lower : String → String) (system server subscription : Dict String) (k : String)
    → Dict.get (merge_headers to_lower system server subscription) k
      ≡ last_value to_lower k
          (last_value to_lower k (last_value to_lower k none subscription) server)
          system
unfolding merge_headers Dict.get
get-merge_headers to_lower system server subscription k =
    let low = put_lowered to_lower [] subscription in
    get-put_lowered to_lower (put_lowered to_lower low server) system k
    ∙ ap (λ o. last_value to_lower k o system)
        (get-put_lowered to_lower low server k
          ∙ ap (λ o. last_value to_lower k o server) (get-put_lowered to_lower [] subscription k))
