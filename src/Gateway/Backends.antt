-- ===== src/Gateway/Backends.antt =====
-- The sessions to the backends of a client: `getBackendSessions`, `newBackendSession` and
-- `getBackendSession` of gateway/capability/capability.go, with the cache of sessionParams.go. The
-- goroutines that reuse or create the sessions run one after another, in the order of the
-- subscriptions. `valid_url` is whether `url.Parse` takes an address.
pub mod Subscribed
use gate4ai.Prelude.{
  ℕ, ◌+◌, ◌-◌, ◌<◌, ◌≡◌, ◌⊎◌, inl, inr, Bool, false, not, Option, none, some, List, [], ◌∷◌, ◌++◌,
  map, String, ◌<>◌, ◌==◌, eq_iff, arith, ltb, if◌then◌else◌,
}
use gate4ai.Dict
use gate4ai.Dict.{Dict, get-put, get-remove}
use gate4ai.Jsonrpc.{GoError, plain, error_text}
use gate4ai.Config.{Config, Lookup, found, not_found, fails, Backend}
use gate4ai.Manager.{SessionParams}
use gate4ai.Auth.{get_user_id}
use gate4ai.Gateway.Headers.{get_merged_headers}

-- A session to a backend is known by a number.
pub record BackendSession : Type 0 where
  pub number : ℕ
  pub slug : String
  pub url : String
  pub headers : Dict String

-- What the client's session remembers, `none` where nothing was saved, the sessions that were
-- closed, and the next number.
pub record Backends : Type 0 where
  pub saved : Option (List BackendSession × ℕ)
  pub closed : List BackendSession
  pub next : ℕ

-- defaultCacheExpiration, in the unit of the clock.
abbrev pub cache_expiration : ℕ
cache_expiration = 5

by_slug : Dict BackendSession → List BackendSession → Dict BackendSession
by_slug d [] = d
by_slug d (s ∷ ss) = by_slug (Dict.put d s.slug s) ss

unfoldable pub saved_sessions : Option (List BackendSession × ℕ) → List BackendSession
saved_sessions none = []
saved_sessions (some (ss, t)) = ss

unfoldable pub fresh_enough : Option (List BackendSession × ℕ) → ℕ → Bool
fresh_enough none now = false
fresh_enough (some (ss, t)) now = ltb (now - t) cache_expiration

module _ (to_lower : String → String) (header_get : Dict String → String → String)
    (valid_url : String → Bool) (cfg : Config) (p : SessionParams) where
  open_backend : Lookup Backend → String → ℕ → Option BackendSession
  open_backend (found b) slug n =
      if valid_url b.url
      then some (record {
        number = n;
        slug = slug;
        url = b.url;
        headers = get_merged_headers to_lower header_get cfg p slug;
      })
      else none
  open_backend not_found slug n = none
  open_backend (fails e) slug n = none

  unfoldable pub new_backend_session : String → ℕ → Option BackendSession
  unfolding open_backend
  new_backend_session slug n = open_backend (cfg.get_backend_by_slug slug) slug n

  reuse :
      Option BackendSession
      → Dict BackendSession
      → String
      → ℕ
      → Option BackendSession × Dict BackendSession × ℕ
  unfolding new_backend_session
  reuse (some s) old slug n = (some s, Dict.remove old slug, n)
  reuse none old slug n = (new_backend_session slug n, old, n + 1)

  -- One subscription: the session, where there is one, the old sessions that are left, and the next
  -- number.
  reuse_or_create :
      Dict BackendSession → String → ℕ → Option BackendSession × Dict BackendSession × ℕ
  unfolding reuse
  reuse_or_create old slug n = reuse (Dict.get old slug) old slug n

  keep_some : Option BackendSession → List BackendSession → List BackendSession
  keep_some none ss = ss
  keep_some (some s) ss = s ∷ ss

  unfoldable pub connect :
      Dict BackendSession → List String → ℕ → List BackendSession × Dict BackendSession × ℕ
  unfolding reuse_or_create keep_some
  connect old [] n = ([], old, n)
  connect old (slug ∷ slugs) n =
      let (s, old', n') = reuse_or_create old slug n in
      let (ss, old'', n'') = connect old' slugs n' in (keep_some s ss, old'', n'')

  subscribed : Lookup (List String) → Backends → ℕ → Backends × (List BackendSession ⊎ GoError)
  unfolding connect by_slug saved_sessions
  subscribed (found slugs) b now =
      let (ss, old, n) = connect (by_slug [] (saved_sessions b.saved)) slugs b.next in
      (record { saved = some (ss, now); closed = map (λ e. e.1) old ++ b.closed; next = n }, inl ss)
  subscribed not_found b now = (
    b,
    inr (
        plain (
          "failed to get user server subscriptions for user '" <> get_user_id p <> "': not found")),
  )
  subscribed (fails e) b now = (
    b,
    inr (
        plain (
          "failed to get user server subscriptions for user '"
          <> get_user_id p
          <> "': "
          <> error_text e)),
  )

  unfoldable pub get_backend_sessions : Backends → ℕ → Backends × (List BackendSession ⊎ GoError)
  unfolding subscribed fresh_enough saved_sessions
  get_backend_sessions b now =
      if fresh_enough b.saved now
      then (b, inl (saved_sessions b.saved))
      else if get_user_id p == ""
      then (b, inr (plain "user ID not found in session"))
      else subscribed (cfg.get_user_subscribes (get_user_id p)) b now

  unfoldable pub find_slug : List BackendSession → String → Option BackendSession
  find_slug [] slug = none
  find_slug (s ∷ ss) slug = let rest = find_slug ss slug in if s.slug == slug then some s else rest

  pick_slug :
      Backends × (List BackendSession ⊎ GoError) → String → Backends × (BackendSession ⊎ GoError)
  unfolding find_slug
  pick_slug (b, inr e) slug = (
    b,
    inr (plain ("failed to get backend sessions for server '" <> slug <> "': " <> error_text e)),
  )
  pick_slug (b, inl ss) slug = (
    b,
    elim (find_slug ss slug) [
      | some s ↦ inl s
      | none ↦ inr (plain ("backend session not found for server: " <> slug))
    ],
  )

  unfoldable pub get_backend_session : Backends → String → ℕ → Backends × (BackendSession ⊎ GoError)
  unfolding pick_slug
  get_backend_session b slug now = pick_slug (get_backend_sessions b now) slug

abbrev pub In : String → List String → Type 0
In k [] = ⊥
In k (x ∷ xs) = (x ≡ k) ⊎ In k xs

-- A table of sessions by their slugs.
abbrev pub IsBySlug : Dict BackendSession → Type 0
IsBySlug d = (k : String) (s : BackendSession) → Dict.get d k ≡ some s → s.slug ≡ k

put-IsBySlug :
    (d : Dict BackendSession) (s : BackendSession) → IsBySlug d → IsBySlug (Dict.put d s.slug s)
put-IsBySlug d s h k t e = ground (arith, get-put d s.slug k s, eq_iff s.slug k, h k t)

by_slug-IsBySlug :
    (d : Dict BackendSession) (ss : List BackendSession) → IsBySlug d → IsBySlug (by_slug d ss)
unfolding by_slug
by_slug-IsBySlug d [] h = h
by_slug-IsBySlug d (s ∷ ss) h = by_slug-IsBySlug (Dict.put d s.slug s) ss (put-IsBySlug d s h)

remove-IsBySlug :
    (d : Dict BackendSession) (slug : String) → IsBySlug d → IsBySlug (Dict.remove d slug)
remove-IsBySlug d slug h k t e = ground (arith, get-remove d slug k, eq_iff slug k, h k t)
