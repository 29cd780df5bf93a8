-- ===== src/Config/Database.antt =====
-- `DatabaseConfig` of shared/config/database.go: the tables that its queries read, as lists of
-- rows, and each query as a selection from them. PostgreSQL is not under this repository: what the
-- model takes from it is the meaning of SELECT, JOIN, WHERE, UNION and LIMIT 1, with the rows in
-- the order of the tables. A query may fail instead, by `fault`, and so may `sql.Open`.
pub mod Headers
pub mod Settings
pub mod Queries
pub mod Entitled
pub mod Getters
pub mod Examples
use gate4ai.Prelude.{
  ◌+◌, ◌<◌, Bool, true, false, ◌&&◌, ◌||◌, Option, none, some, List, [], ◌∷◌, ◌++◌, String, ◌<>◌,
  ◌==◌, arith, if◌then◌else◌,
}
use gate4ai.Dict
use gate4ai.Dict.{Dict}
use gate4ai.Config.{Lookup, found, not_found, fails, Backend}
use gate4ai.Jsonrpc.{GoError, plain, error_text}

-- The columns that the queries read; a NULL is `none`.
pub record ServerRow : Type 0 where
  pub id : String
  pub slug : String
  pub status : String
  pub server_url : Option String
  pub headers : Option String

pub record OwnerRow : Type 0 where
  pub server_id : String
  pub user_id : String

pub record SubscriptionRow : Type 0 where
  pub user_id : String
  pub server_id : String
  pub status : String
  pub header_values : Option String

pub record ApiKeyRow : Type 0 where
  pub user_id : String
  pub key_hash : String

pub record UserRow : Type 0 where
  pub id : String
  pub name : Option String
  pub status : Option String
  pub role : Option String
  pub company : Option String

pub record SettingRow : Type 0 where
  pub key : String
  pub value : Option String

pub record Tables : Type 0 where
  pub servers : List ServerRow
  pub owners : List OwnerRow
  pub subscriptions : List SubscriptionRow
  pub api_keys : List ApiKeyRow
  pub users : List UserRow
  pub settings : List SettingRow

-- The queries of the file.
pub data Query : Type 0 where
  setting_query key_query user_query staff_query slugs_query : Query
  backend_query server_headers_query server_id_query subscription_headers_query : Query

-- `open_error` is the error of `sql.Open`, `fault` that of a query.
pub record Database : Type 0 where
  pub tables : Tables
  pub open_error : Option GoError
  pub fault : Query → Option GoError

-- SELECT f WHERE p
unfoldable pub select : {A B : Type 0} → (A → Bool) → (A → B) → List A → List B
select p f [] = []
select p f (a ∷ more) = let rest = select p f more in if p a then f a ∷ rest else rest

-- SELECT f JOIN ON p
unfoldable pub join : {A B C : Type 0} → (A → C → Bool) → (A → B) → List A → List C → List B
unfolding select
join p f [] cs = []
join p f (a ∷ more) cs = select (p a) (λ c. f a) cs ++ join p f more cs

unfoldable pub contains : String → List String → Bool
contains s [] = false
contains s (x ∷ xs) = let rest = contains s xs in if s == x then true else rest

unfoldable pub distinct : List String → List String
unfolding contains
distinct [] = []
distinct (x ∷ xs) = let rest = distinct xs in if contains x rest then rest else x ∷ rest

wrapped : String → GoError → GoError
unfolding error_text
wrapped text e = plain (text <> ": " <> error_text e)

-- The error that is returned before the rows of a query are read.
unfoldable pub query_error : Database → Query → String → Option GoError
unfolding wrapped
query_error db q text = elim db.open_error [
  | some e ↦ some (wrapped "db connect" e)
  | none ↦ elim (db.fault q) [ some e ↦ some (wrapped text e) | none ↦ none ]
]

first_row : {A : Type 0} → List A → Lookup A
first_row [] = not_found
first_row (a ∷ more) = found a

-- `QueryRow` of a query with LIMIT 1, and `Scan`. `sql.ErrNoRows` is `not_found`.
unfoldable pub query_row : {A : Type 0} → Database → Query → String → List A → Lookup A
unfolding query_error first_row
query_row db q text rows = elim (query_error db q text) [ some e ↦ fails e | none ↦ first_row rows ]

unfoldable pub get_user_id_by_key_hash : Database → String → Lookup String
unfolding query_row select
get_user_id_by_key_hash db key_hash =
    if key_hash == ""
    then found ""
    else query_row db key_query "query user by key hash"
        (select (λ k. k.key_hash == key_hash) (λ k. k.user_id) db.tables.api_keys)

put_some : String → Option String → Dict String → Dict String
put_some key none m = m
put_some key (some v) m = Dict.put m key v

params_of : Lookup UserRow → Lookup (Dict String)
unfolding put_some
params_of not_found = found []
params_of (fails e) = fails e
params_of (found u) = found (
    put_some "company" u.company
      (put_some "role" u.role (put_some "status" u.status (put_some "name" u.name []))))

unfoldable pub get_user_params : Database → String → Lookup (Dict String)
unfolding query_row select params_of
get_user_params db user_id = params_of (
    query_row db user_query "query user params"
      (select (λ u. u.id == user_id) (λ u. u) db.tables.users))

-- SELECT slug FROM "Server" WHERE status = 'ACTIVE'
unfoldable pub active_slugs : Tables → List String
unfolding select
active_slugs t = select (λ s. s.status == "ACTIVE") (λ s. s.slug) t.servers

-- The conditions of the two JOINs.
unfoldable pub owns : String → ServerRow → OwnerRow → Bool
owns user_id s o = (s.id == o.server_id) && (o.user_id == user_id)

unfoldable pub subscribes_to : String → ServerRow → SubscriptionRow → Bool
subscribes_to user_id s p =
    ((p.server_id == s.id) && (p.user_id == user_id))
    && ((p.status == "ACTIVE") && (s.status == "ACTIVE"))

unfoldable pub owned_slugs : Tables → String → List String
unfolding join owns
owned_slugs t user_id = join (owns user_id) (λ s. s.slug) t.servers t.owners

unfoldable pub subscribed_slugs : Tables → String → List String
unfolding join subscribes_to
subscribed_slugs t user_id = join (subscribes_to user_id) (λ s. s.slug) t.servers t.subscriptions

-- UNION keeps each slug once.
unfoldable pub user_slugs : Tables → String → List String
unfolding owned_slugs subscribed_slugs distinct
user_slugs t user_id = distinct (owned_slugs t user_id ++ subscribed_slugs t user_id)

query_slugs : Database → Query → List String → Lookup (List String)
unfolding query_error
query_slugs db q slugs = elim (query_error db q "query subscriptions") [
  | some e ↦ fails e
  | none ↦ found slugs
]

-- userParams["role"] is ADMIN or SECURITY.
unfoldable pub is_staff : Dict String → Bool
is_staff params = elim (Dict.get params "role") [
  | none ↦ false
  | some role ↦ (role == "ADMIN") || (role == "SECURITY")
]

subscribes_of_params : Database → String → Lookup (Dict String) → Lookup (List String)
unfolding query_slugs is_staff wrapped
subscribes_of_params db user_id (fails e) = fails (wrapped "get user params" e)
subscribes_of_params db user_id not_found = not_found
subscribes_of_params db user_id (found params) =
    if is_staff params
    then query_slugs db staff_query (active_slugs db.tables)
    else query_slugs db slugs_query (user_slugs db.tables user_id)

unfoldable pub get_user_subscribes : Database → String → Lookup (List String)
unfolding get_user_params subscribes_of_params wrapped
get_user_subscribes db user_id = elim db.open_error [
  | some e ↦ fails (wrapped "db connect" e)
  | none ↦ subscribes_of_params db user_id (get_user_params db user_id)
]

backend_of : String → Lookup (Option String) → Lookup Backend
backend_of slug (fails e) = fails e
backend_of slug not_found = not_found
backend_of slug (found none) = fails (plain ("backend URL is NULL for ID " <> slug))
backend_of slug (found (some url)) = found (record { url = url; bearer = "" })

unfoldable pub get_backend_by_slug : Database → String → Lookup Backend
unfolding query_row select backend_of
get_backend_by_slug db slug = backend_of slug (
    query_row db backend_query "query backend"
      (select (λ s. s.slug == slug) (λ s. s.server_url) db.tables.servers))
