-- ===== src/Config/Database/Entitled.antt =====
-- Which servers `GetUserSubscribes` of shared/config/database.go gives a user.
use mathlib.Core.List.{Memᴰ}
use mathlib.Core.List.Memᴰ
use gate4ai.Prelude.{◌≡◌, ◌↔◌, ◌⊎◌, inl, inr, true, false, List, String, ◌==◌, eq_iff, arith}
use gate4ai.Config.{found}
use gate4ai.Dict.{Dict}
use gate4ai.Config.Database.{
  Database, Tables, ServerRow, OwnerRow, SubscriptionRow, owns, subscribes_to, owned_slugs,
  subscribed_slugs, active_slugs, user_slugs, is_staff, get_user_params, get_user_subscribes,
  subscribes_of_params, query_slugs, query_error,
}
use gate4ai.Config.Database.Queries.{
  of_select, to_select, of_join, to_join, of_distinct, to_distinct,
}

-- Staff is entitled to every active server; another user to the servers that it owns, active or
-- not, and to those active servers to which it has an active subscription.
pub data Entitled (t : Tables) (params : Dict String) (user_id : String) : String → Type 0 where
  staff :
      (s : ServerRow)
      → is_staff params ≡ true
      → Memᴰ s t.servers
      → s.status ≡ "ACTIVE"
      → Entitled t params user_id s.slug
  owner :
      (s : ServerRow) (o : OwnerRow)
      → is_staff params ≡ false
      → Memᴰ s t.servers
      → Memᴰ o t.owners
      → s.id ≡ o.server_id
      → o.user_id ≡ user_id
      → Entitled t params user_id s.slug
  subscriber :
      (s : ServerRow) (p : SubscriptionRow)
      → is_staff params ≡ false
      → Memᴰ s t.servers
      → Memᴰ p t.subscriptions
      → p.server_id ≡ s.id
      → p.user_id ≡ user_id
      → p.status ≡ "ACTIVE"
      → s.status ≡ "ACTIVE"
      → Entitled t params user_id s.slug

module _ (t : Tables) (params : Dict String) (user_id : String) where
  active-Entitled :
      (slug : String)
      → is_staff params ≡ true
      → Memᴰ slug (active_slugs t)
      → Entitled t params user_id slug
  unfolding active_slugs
  active-Entitled slug h m =
      let r = of_select (λ s. s.status == "ACTIVE") (λ s. s.slug) t.servers slug m in
      rw r.3 (staff r.0 h r.1 ((eq_iff r.0.status "ACTIVE").0 r.2))

  Entitled-active :
      (slug : String)
      → is_staff params ≡ true
      → Entitled t params user_id slug
      → Memᴰ slug (active_slugs t)
  unfolding active_slugs
  Entitled-active slug h (staff s k m e) =
      to_select (λ s. s.status == "ACTIVE") (λ s. s.slug) t.servers s m
        ((eq_iff s.status "ACTIVE").1 e)
  Entitled-active slug h (owner s o k m n e f) = absurd (ground (arith, h, k))
  Entitled-active slug h (subscriber s p k m n e f g i) = absurd (ground (arith, h, k))

  owns_iff :
      (s : ServerRow) (o : OwnerRow)
      → (owns user_id s o ≡ true) ↔ ((s.id ≡ o.server_id) × (o.user_id ≡ user_id))
  unfolding owns
  owns_iff s o = ground (arith, eq_iff s.id o.server_id, eq_iff o.user_id user_id)

  subscribes_to_iff :
      (s : ServerRow) (p : SubscriptionRow)
      → (subscribes_to user_id s p ≡ true) ↔ (
          (p.server_id ≡ s.id)
          × (p.user_id ≡ user_id)
          × (p.status ≡ "ACTIVE")
          × (s.status ≡ "ACTIVE"))
  unfolding subscribes_to
  subscribes_to_iff s p = ground (
    arith,
    eq_iff p.server_id s.id,
    eq_iff p.user_id user_id,
    eq_iff p.status "ACTIVE",
    eq_iff s.status "ACTIVE",
  )

  user-Entitled :
      (slug : String)
      → is_staff params ≡ false
      → Memᴰ slug (user_slugs t user_id)
      → Entitled t params user_id slug
  unfolding user_slugs owned_slugs subscribed_slugs
  user-Entitled slug h m = elim (Memᴰ.append_cases (owned_slugs t user_id) (of_distinct _ slug m)) [
    | inl k ↦
        let r = of_join (owns user_id) (λ s. s.slug) t.owners t.servers slug k in
        let c = (owns_iff r.0 r.1).0 r.4 in rw r.5 (owner r.0 r.1 h r.2 r.3 c.0 c.1)
    | inr k ↦
        let r = of_join (subscribes_to user_id) (λ s. s.slug) t.subscriptions t.servers slug k in
        let c = (subscribes_to_iff r.0 r.1).0 r.4 in
        rw r.5 (subscriber r.0 r.1 h r.2 r.3 c.0 c.1 c.2 c.3)
  ]

  Entitled-user :
      (slug : String)
      → is_staff params ≡ false
      → Entitled t params user_id slug
      → Memᴰ slug (user_slugs t user_id)
  unfolding user_slugs owned_slugs subscribed_slugs
  Entitled-user slug h (staff s k m e) = absurd (ground (arith, h, k))
  Entitled-user slug h (owner s o k m n e f) = to_distinct _ s.slug (
      Memᴰ.append_left (subscribed_slugs t user_id)
        (to_join (owns user_id) (λ s. s.slug) t.owners t.servers s o m n ((owns_iff s o).1 (e, f))))
  Entitled-user slug h (subscriber s p k m n e f g i) = to_distinct _ s.slug (
      Memᴰ.append_right (owned_slugs t user_id) (
        to_join (subscribes_to user_id) (λ s. s.slug) t.subscriptions t.servers s p m n
          ((subscribes_to_iff s p).1 (e, f, g, i))))

-- The slugs that are returned without an error.
get_user_subscribes-found :
    (db : Database) (user_id : String) (params : Dict String) (slugs : List String)
    → get_user_params db user_id ≡ found params
    → get_user_subscribes db user_id ≡ found slugs
    → ((is_staff params ≡ true) × (slugs ≡ active_slugs db.tables))
      ⊎ ((is_staff params ≡ false) × (slugs ≡ user_slugs db.tables user_id))
unfolding get_user_subscribes subscribes_of_params query_slugs query_error
get_user_subscribes-found db user_id params slugs h k = ground (arith, h, k)

-- When the slugs of a user are returned, a server's slug is among them just if the user is entitled
-- to it: staff to the active servers; another user to those that it owns, whatever their status,
-- and to the active ones to which it has an active subscription.
pub get_user_subscribes-Entitled :
    (db : Database) (user_id slug : String) (params : Dict String) (slugs : List String)
    → get_user_params db user_id ≡ found params
    → get_user_subscribes db user_id ≡ found slugs
    → Memᴰ slug slugs ↔ Entitled db.tables params user_id slug
get_user_subscribes-Entitled db user_id slug params slugs h k =
    elim (get_user_subscribes-found db user_id params slugs h k) [
      | inl (s, e) ↦ rw e (
        active-Entitled db.tables params user_id slug s,
        Entitled-active db.tables params user_id slug s,
      )
      | inr (s, e) ↦ rw e (
        user-Entitled db.tables params user_id slug s,
        Entitled-user db.tables params user_id slug s,
      )
    ]
