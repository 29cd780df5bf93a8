-- ===== src/Config/Database/Headers/AnyStatus.antt =====
-- `GetSubscriptionHeaders` of shared/config/database.go and the status of subscriptions.
use gate4ai.Prelude.{◌≡◌, ◌⊎◌, refl, ◌&&◌, List, [], ◌∷◌, map, String, ◌==◌}
use gate4ai.Config.{Lookup, found, not_found, fails}
use gate4ai.Config.Database.{Database, SubscriptionRow, select, query_row, query_error}
use gate4ai.Config.Database.Headers.{get_subscription_headers, headers_of_server}
use gate4ai.Dict.{Dict}
use gate4ai.Jsonrpc.{GoError}

with_status : (SubscriptionRow → String) → SubscriptionRow → SubscriptionRow
with_status f p = record p { status = f p }

-- A database in which the subscriptions have other statuses.
unfoldable pub with_statuses : (SubscriptionRow → String) → Database → Database
unfolding with_status
with_statuses f db = record db {
  tables = record (db.tables) { subscriptions = map (with_status f) db.tables.subscriptions };
}

select-with_status :
    (f : SubscriptionRow → String) (user_id server_id : String) (ps : List SubscriptionRow)
    → select
        (λ p. (p.user_id == user_id) && (p.server_id == server_id))
        (λ p. p.header_values)
        (map (with_status f) ps)
      ≡ select (λ p. (p.user_id == user_id) && (p.server_id == server_id)) (λ p. p.header_values) ps
unfolding select with_status
select-with_status f user_id server_id [] = refl
select-with_status f user_id server_id (p ∷ ps) =
    rw (select-with_status f user_id server_id ps) refl

module _ (decode_headers : String → Dict String ⊎ GoError) where
  headers_of_server-with_statuses :
      (f : SubscriptionRow → String) (db : Database) (user_id slug : String) (l : Lookup String)
      → headers_of_server decode_headers (with_statuses f db) user_id slug l
        ≡ headers_of_server decode_headers db user_id slug l
  unfolding headers_of_server with_statuses query_row query_error
  headers_of_server-with_statuses f db user_id slug not_found = refl
  headers_of_server-with_statuses f db user_id slug (fails e) = refl
  headers_of_server-with_statuses f db user_id slug (found id) =
      rw (select-with_status f user_id id db.tables.subscriptions) refl

  -- The headers of a subscription do not depend on its status.
  get_subscription_headers_any_status :
      (f : SubscriptionRow → String) (db : Database) (user_id slug : String)
      → get_subscription_headers decode_headers (with_statuses f db) user_id slug
        ≡ get_subscription_headers decode_headers db user_id slug
  unfolding get_subscription_headers query_row query_error with_statuses
  get_subscription_headers_any_status f db user_id slug =
      headers_of_server-with_statuses f db user_id slug _
