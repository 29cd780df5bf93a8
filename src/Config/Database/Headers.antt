-- ===== src/Config/Database/Headers.antt =====
-- `GetServerHeaders` and `GetSubscriptionHeaders` of shared/config/database.go. The text of a JSON
-- column is decoded by an argument, `decode_headers`.
pub mod AnyStatus
use gate4ai.Prelude.{◌⊎◌, inl, inr, ◌&&◌, Option, none, some, [], String, ◌<>◌, ◌==◌, if◌then◌else◌}
use gate4ai.Config.{Lookup, found, not_found, fails}
use gate4ai.Config.Database.{
  Database, query_row, select, wrapped, server_headers_query, server_id_query,
  subscription_headers_query,
}
use gate4ai.Dict.{Dict}
use gate4ai.Jsonrpc.{GoError, plain}

module _ (decode_headers : String → Dict String ⊎ GoError) where
  decoded_headers : String → Dict String ⊎ GoError → Lookup (Dict String)
  unfolding wrapped
  decoded_headers text (inl headers) = found headers
  decoded_headers text (inr e) = fails (wrapped text e)

  -- What a column of headers gives; NULL and the empty text are no headers.
  headers_of : String → Option String → Lookup (Dict String)
  unfolding decoded_headers
  headers_of text none = found []
  headers_of text (some json) =
      if json == "" then found [] else decoded_headers text (decode_headers json)

  server_headers_of : String → Lookup (Option String) → Lookup (Dict String)
  unfolding headers_of
  server_headers_of slug (fails e) = fails e
  server_headers_of slug not_found = not_found
  server_headers_of slug (found column) =
      headers_of ("unmarshal server headers for slug '" <> slug <> "'") column

  unfoldable pub get_server_headers : Database → String → Lookup (Dict String)
  unfolding query_row select server_headers_of
  get_server_headers db slug = server_headers_of slug (
      query_row db server_headers_query ("query server headers for slug '" <> slug <> "'")
        (select (λ s. s.slug == slug) (λ s. s.headers) db.tables.servers))

  subscription_headers_of : String → String → Lookup (Option String) → Lookup (Dict String)
  unfolding headers_of
  subscription_headers_of user_id slug (fails e) = fails e
  subscription_headers_of user_id slug not_found = found []
  subscription_headers_of user_id slug (found column) =
      headers_of
        ("unmarshal subscription headers for user '" <> user_id <> "', server '" <> slug <> "'")
        column

  headers_of_server : Database → String → String → Lookup String → Lookup (Dict String)
  unfolding query_row select subscription_headers_of
  headers_of_server db user_id slug (fails e) = fails e
  headers_of_server db user_id slug not_found =
      fails (plain ("server not found for slug '" <> slug <> "'"))
  headers_of_server db user_id slug (found server_id) = subscription_headers_of user_id slug (
      query_row db subscription_headers_query
        ("query subscription headers for user '" <> user_id <> "', server '" <> slug <> "'")
        (select (λ p. (p.user_id == user_id) && (p.server_id == server_id)) (λ p. p.header_values)
          db.tables.subscriptions))

  unfoldable pub get_subscription_headers : Database → String → String → Lookup (Dict String)
  unfolding headers_of_server
  get_subscription_headers db user_id slug = headers_of_server db user_id slug (
      query_row db server_id_query ("query server ID for slug '" <> slug <> "'")
        (select (λ s. s.slug == slug) (λ s. s.id) db.tables.servers))
