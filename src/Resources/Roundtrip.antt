-- ===== src/Resources/Roundtrip.antt =====
-- Subscribing and unsubscribing: `handleResourcesSubscribe` and `removeSubscription` of
-- server/mcp/capability/resources.go together.
use gate4ai.Prelude.{
  ◌≡◌, ◌≢◌, refl, sym, ap, ◌∙◌, Bool, true, false, Option, none, some, [], ◌∷◌, String, is_some,
}
use gate4ai.Dict
use gate4ai.Dict.{Dict, get-remove_self, get-remove_ne, get-put_self, get-put_ne}
use gate4ai.A2a.{params}
use gate4ai.Resources.{
  ResourcesCapability, remove_subscription, remove_from, subscribers_without, or_empty_set,
  handle_resources_subscribe, handle_resources_unsubscribe, is_subscribed,
}

set_of : ResourcesCapability → String → Dict Bool
set_of c uri = or_empty_set (Dict.get c.subscribers uri)

has-or_empty_set :
    (o : Option (Dict Bool)) (session : String)
    → elim o as (λ x. Bool) [ none ↦ false | some m ↦ Dict.has m session ]
      ≡ Dict.has (or_empty_set o) session
unfolding or_empty_set Dict.get
has-or_empty_set none session = refl
has-or_empty_set (some m) session = refl

is_subscribed-set_of :
    (c : ResourcesCapability) (session uri : String)
    → is_subscribed c session uri ≡ Dict.has (set_of c uri) session
unfolding set_of
is_subscribed-set_of c session uri = has-or_empty_set (Dict.get c.subscribers uri) session

subscribed_state :
    (c : ResourcesCapability) (session uri : String)
    → Dict.has c.resources uri ≡ true
    → (handle_resources_subscribe c session (params uri)).0
      ≡ record c { subscribers = Dict.put c.subscribers uri (Dict.put (set_of c uri) session true) }
unfolding handle_resources_subscribe set_of
subscribed_state c session uri there = rw there

get-without :
    (d : Dict (Dict Bool)) (uri : String) (m : Dict Bool)
    → or_empty_set (Dict.get (subscribers_without d uri m) uri) ≡ m
unfolding subscribers_without or_empty_set
get-without d uri [] = ap or_empty_set (get-remove_self d uri)
get-without d uri (e ∷ m) = ap or_empty_set (get-put_self d uri (e ∷ m))

set_of-remove_from :
    (c : ResourcesCapability) (session uri : String) (m : Dict Bool)
    → Dict.has m session ≡ true
    → set_of (remove_from c session uri (some m)).0 uri ≡ Dict.remove m session
unfolding remove_from set_of
set_of-remove_from c session uri m h = rw h (get-without c.subscribers uri (Dict.remove m session))

-- A session that subscribes to a resource is subscribed, and is not after it unsubscribes; the two
-- leave every other session's subscription to the resource as it was.
subscribe_unsubscribe :
    (c : ResourcesCapability) (session uri : String)
    → Dict.has c.resources uri ≡ true
    → let subscribed = (handle_resources_subscribe c session (params uri)).0 in
      let left = (handle_resources_unsubscribe subscribed session (params uri)).0 in
      (is_subscribed subscribed session uri ≡ true)
      × (is_subscribed left session uri ≡ false)
      × ((other : String)
          → session ≢ other
          → is_subscribed left other uri ≡ is_subscribed c other uri)
unfolding handle_resources_unsubscribe remove_subscription or_empty_set Dict.put set_of
subscribe_unsubscribe c session uri there =
    let all = Dict.put (set_of c uri) session true in
    let mid = (handle_resources_subscribe c session (params uri)).0 in
    let here : Dict.get mid.subscribers uri ≡ some all =
      ap (λ (x : ResourcesCapability). Dict.get x.subscribers uri)
        (subscribed_state c session uri there)
      ∙ get-put_self c.subscribers uri all in
    let inside : Dict.has all session ≡ true =
      ap is_some (get-put_self (set_of c uri) session true) in
    let gone : set_of (remove_from mid session uri (Dict.get mid.subscribers uri)).0 uri
        ≡ Dict.remove all session =
      ap (λ o. set_of (remove_from mid session uri o).0 uri) here
      ∙ set_of-remove_from mid session uri all inside in
    let left = (remove_from mid session uri (Dict.get mid.subscribers uri)).0 in
    (
      is_subscribed-set_of mid session uri
          ∙ ap (λ o. Dict.has (or_empty_set o) session) here
          ∙ inside,
      is_subscribed-set_of left session uri
          ∙ ap (λ m. Dict.has m session) gone
          ∙ ap is_some (get-remove_self all session),
      λ other ne.
          is_subscribed-set_of left other uri
          ∙ ap (λ m. Dict.has m other) gone
          ∙ ap is_some
              (get-remove_ne all session other ne ∙ get-put_ne (set_of c uri) session other true ne)
          ∙ sym (is_subscribed-set_of c other uri),
    )
