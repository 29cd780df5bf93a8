-- ===== src/Gateway/Backends/Subscribed.antt =====
-- Which sessions to backends a client has: `getBackendSessions` of
-- gateway/capability/capability.go.
use mathlib.Core.Path.{subst}
use gate4ai.Prelude.{
  ℕ, ◌-◌, ◌<◌, ◌≡◌, ◌≢◌, inl, inr, refl, sym, ap, ◌∙◌, Bool, true, false, Option, none, some, List,
  [], ◌∷◌, String, arith, ltb, str_ne, All,
}
use gate4ai.Dict
use gate4ai.Dict.{Dict, get-remove, get-remove_self}
use gate4ai.Config.{Config, Lookup, found, not_found, fails, Backend}
use gate4ai.Manager.{SessionParams}
use gate4ai.Gateway.Backends.{
  saved_sessions, by_slug, get_user_id, fresh_enough, subscribed, get_backend_sessions,
  BackendSession, Backends, new_backend_session, open_backend, reuse, reuse_or_create, keep_some,
  connect, cache_expiration, IsBySlug, In, remove-IsBySlug, by_slug-IsBySlug,
}

empty-IsBySlug : IsBySlug []
unfolding Dict.get
empty-IsBySlug k s e = absurd (cc)

ltb-true : (m n : ℕ) → m < n → ltb m n ≡ true
ltb-true m n h = ground (arith, h)

module _ (to_lower : String → String) (header_get : Dict String → String → String)
    (valid_url : String → Bool) (cfg : Config) (p : SessionParams) where
  slug-open_backend :
      (l : Lookup Backend) (slug : String) (n : ℕ) (s : BackendSession)
      → open_backend to_lower header_get valid_url cfg p l slug n ≡ some s
      → s.slug ≡ slug
  unfolding open_backend
  slug-open_backend (found b) slug n s h = ground arith
  slug-open_backend not_found slug n s h = absurd (cc)
  slug-open_backend (fails e) slug n s h = absurd (cc)

  -- What one subscription does: a session of its slug, and no old one with that slug left.
  record IsReused (old : Dict BackendSession) (slug : String)
      (r : Option BackendSession × Dict BackendSession × ℕ) : Type 0 where
    its_slug : (s : BackendSession) → r.0 ≡ some s → s.slug ≡ slug
    taken : Dict.get r.1 slug ≡ none
    no_more : (k : String) → Dict.get old k ≡ none → Dict.get r.1 k ≡ none
    by_slugs : IsBySlug r.1

  reuse-IsReused :
      (o : Option BackendSession) (old : Dict BackendSession) (slug : String) (n : ℕ)
      → Dict.get old slug ≡ o
      → IsBySlug old
      → IsReused old slug (reuse to_lower header_get valid_url cfg p o old slug n)
  unfolding reuse new_backend_session
  reuse-IsReused (some s) old slug n h by = record {
    its_slug = λ t e.
        let same : s ≡ t = cc in ap (λ (x : BackendSession). x.slug) (sym same) ∙ by slug s h;
    taken = get-remove_self old slug;
    no_more = λ k e. ground (arith, get-remove old slug k, e);
    by_slugs = remove-IsBySlug old slug by;
  }
  reuse-IsReused none old slug n h by = record {
    its_slug = slug-open_backend (cfg.get_backend_by_slug slug) slug n;
    taken = h;
    no_more = λ k e. e;
    by_slugs = by;
  }

  widen :
      (slugs : List String) (slug : String) (ss : List BackendSession)
      → All (λ s. In s.slug slugs) ss
      → All (λ s. In s.slug (slug ∷ slugs)) ss
  widen slugs slug [] h = tt
  widen slugs slug (s ∷ ss) h = (inr h.0, widen slugs slug ss h.1)

  keep-All :
      (slugs : List String) (slug : String) (o : Option BackendSession) (ss : List BackendSession)
      → ((s : BackendSession) → o ≡ some s → s.slug ≡ slug)
      → All (λ s. In s.slug slugs) ss
      → All (λ s. In s.slug (slug ∷ slugs)) (keep_some to_lower header_get valid_url cfg p o ss)
  unfolding keep_some
  keep-All slugs slug none ss f h = widen slugs slug ss h
  keep-All slugs slug (some s) ss f h = (inl (sym (f s refl)), widen slugs slug ss h)

  -- What `connect` gives for the subscriptions.
  record IsConnected (slugs : List String) (old : Dict BackendSession)
      (r : List BackendSession × Dict BackendSession × ℕ) : Type 0 where
    all_subscribed : All (λ s. In s.slug slugs) r.0
    gone : (k : String) → Dict.get old k ≡ none → Dict.get r.1 k ≡ none
    none_left : (k : String) → In k slugs → Dict.get r.1 k ≡ none

  connect-IsConnected :
      (slugs : List String) (old : Dict BackendSession) (n : ℕ)
      → IsBySlug old
      → IsConnected slugs old (connect to_lower header_get valid_url cfg p old slugs n)
  unfolding connect
  connect-IsConnected [] old n by = record {
    all_subscribed = tt;
    gone = λ k e. e;
    none_left = λ k i. elim i [ ];
  }
  connect-IsConnected (slug ∷ slugs) old n by =
      let first = reuse_or_create to_lower header_get valid_url cfg p old slug n in
      let a : IsReused old slug first = reuse-IsReused (Dict.get old slug) old slug n refl by in
      let b = connect-IsConnected slugs first.1 first.2 a.by_slugs in
      record {
        all_subscribed = keep-All slugs slug first.0 _ a.its_slug b.all_subscribed;
        gone = λ k e. b.gone k (a.no_more k e);
        none_left = λ k i. elim i [
          | inl e ↦ b.gone k (subst (λ x. Dict.get first.1 x ≡ none) e a.taken)
          | inr i' ↦ b.none_left k i'
        ];
      }

  connected_when_stale :
      (b : Backends) (now : ℕ) (slugs : List String)
      → fresh_enough b.saved now ≡ false
      → get_user_id p ≢ ""
      → cfg.get_user_subscribes (get_user_id p) ≡ found slugs
      → let (after, result) = get_backend_sessions to_lower header_get valid_url cfg p b now in
        (ss : List BackendSession) × (result ≡ inl ss)
        × (after.saved ≡ some (ss, now))
        × All (λ s. In s.slug slugs) ss
  unfolding get_backend_sessions subscribed
  connected_when_stale b now slugs stale user subs =
      let old = by_slug [] (saved_sessions b.saved) in
      let v =
        connect-IsConnected slugs old b.next
          (by_slug-IsBySlug [] (saved_sessions b.saved) empty-IsBySlug) in
      rw (stale, str_ne (get_user_id p) "" user)
        (subst
          (λ l.
            let (after, result) = subscribed to_lower header_get valid_url cfg p l b now in
            (ss : List BackendSession) × (result ≡ inl ss)
            × (after.saved ≡ some (ss, now))
            × All (λ s. In s.slug slugs) ss)
          (sym subs)
          (
            (connect to_lower header_get valid_url cfg p old slugs b.next).0,
            refl,
            refl,
            v.all_subscribed,
          ))

  remembered :
      (b : Backends) (ss : List BackendSession) (now later : ℕ)
      → b.saved ≡ some (ss, now)
      → later - now < cache_expiration
      → get_backend_sessions to_lower header_get valid_url cfg p b later ≡ (b, inl ss)
  unfolding get_backend_sessions fresh_enough saved_sessions
  remembered b ss now later e soon = rw (e, ltb-true (later - now) cache_expiration soon) refl

module _ (to_lower : String → String) (header_get : Dict String → String → String)
    (valid_url : String → Bool) (cfg : Config) (p : SessionParams) where
  -- Where the remembered sessions are too old, or there are none, a client with a user whose
  -- subscriptions are found gets sessions to servers that the user is subscribed to, and to no
  -- other. They are remembered: a later call within the time of the cache gets the same ones,
  -- whatever the configuration then says of the user's subscriptions.
  pub get_backend_sessions_subscribed :
      (b : Backends) (now : ℕ) (slugs : List String) (then_cfg : Config) (later : ℕ)
      → fresh_enough b.saved now ≡ false
      → get_user_id p ≢ ""
      → cfg.get_user_subscribes (get_user_id p) ≡ found slugs
      → later - now < cache_expiration
      → let (after, result) = get_backend_sessions to_lower header_get valid_url cfg p b now in
        (ss : List BackendSession) × (result ≡ inl ss)
        × (after.saved ≡ some (ss, now))
        × All (λ s. In s.slug slugs) ss
        × (get_backend_sessions to_lower header_get valid_url then_cfg p after later
            ≡ (after, inl ss))
  get_backend_sessions_subscribed b now slugs then_cfg later stale user subs soon =
      let r =
        connected_when_stale to_lower header_get valid_url cfg p b now slugs stale user subs in
      (
        r.0,
        r.1,
        r.2,
        r.3,
        remembered to_lower header_get valid_url then_cfg p
            (get_backend_sessions to_lower header_get valid_url cfg p b now).0 r.0 now later r.2
            soon,
      )
