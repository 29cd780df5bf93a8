-- ===== src/Resources/Updated.antt =====
-- Who hears of a changed resource: `NotifyResourceUpdated` of server/mcp/capability/resources.go,
-- and `GetSubscribedResources`. A manager is set, the goroutines run one after another in the order
-- of the map, and no send has to wait. `params` is what the notification carries.
use gate4ai.Dict
use gate4ai.Dict.{Dict}
use gate4ai.Jsonrpc.{Encoded}
use gate4ai.Session.Send.{send_notification}
use gate4ai.Manager.{Manager, ServerSession, update_at, on_base, close_session}
use gate4ai.Manager.Lifecycle.{get-close_session}
use gate4ai.Resources.{ResourcesCapability, or_empty_set, is_subscribed}
use gate4ai.Prelude.{
  ℕ, ◌≡◌, inl, inr, refl, sym, ap, ◌∙◌, Bool, true, false, Option, none, some, List, [], ◌∷◌,
  String, ◌==◌, eq_iff, arith, if◌then◌else◌, is_some, Option-cases, str_refl,
}

-- A panic of a goroutine ends the process.
pub data Notified : Type 0 where
  notified : Manager → Notified
  crashed : Notified

send_updated : Option Encoded → ℕ → ServerSession → ServerSession
send_updated params now s =
    on_base (λ b. (send_notification b "notifications/resources/updated" params now).0) s

-- Where there is no session, `removeSubscription` is called with nil, and reads its identifier:
-- the subscribers of the resource have an entry, as the identifier is one of them.
notify_place : Option Encoded → ℕ → Manager → Option ℕ → Notified
notify_place params now m none = crashed
notify_place params now m (some place) =
    notified (record m { heap = update_at (send_updated params now) m.heap place })

unfoldable notify_each : Option Encoded → ℕ → Dict Bool → Notified → Notified
unfolding notify_place send_updated
notify_each params now subscribers crashed = crashed
notify_each params now [] (notified m) = notified m
notify_each params now ((id, b) ∷ more) (notified m) =
    notify_each params now more (notify_place params now m (Dict.get m.sessions id))

unfoldable pub notify_resource_updated :
    ResourcesCapability → Option Encoded → ℕ → String → Manager → Notified
unfolding notify_each or_empty_set
notify_resource_updated c params now uri m =
    notify_each params now (or_empty_set (Dict.get c.subscribers uri)) (notified m)

has_some : Dict Bool → Bool
has_some [] = false
has_some (e ∷ more) = true

-- `GetSubscribedResources`.
unfoldable pub get_subscribed_resources : Dict (Dict Bool) → List String
unfolding has_some
get_subscribed_resources [] = []
get_subscribed_resources ((uri, sessions) ∷ more) =
    let rest = get_subscribed_resources more in if has_some sessions then uri ∷ rest else rest

notify_each-crashed :
    (params : Option Encoded) (now : ℕ) (subscribers : Dict Bool)
    → notify_each params now subscribers crashed ≡ crashed
unfolding notify_each
notify_each-crashed params now subscribers = refl

notify_each-gone :
    (params : Option Encoded) (now : ℕ) (subscribers : Dict Bool) (m : Manager) (id : String)
    → Dict.has subscribers id ≡ true
    → Dict.get m.sessions id ≡ none
    → notify_each params now subscribers (notified m) ≡ crashed
unfolding notify_each Dict.get
notify_each-gone params now [] m id there gone = cc
notify_each-gone params now ((other, b) ∷ more) m id there gone =
    let after : Option ℕ → Notified =
      λ q. notify_each params now more (notify_place params now m q) in
    elim (Option-cases (Dict.get m.sessions other)) [
      | inl absent ↦ ap after absent ∙ notify_each-crashed params now more
      | inr (place, found) ↦
          let other_is : (other == id) ≡ false = grind (arith, eq_iff other id) in
          let later : Dict.has more id ≡ true =
            sym (ap (λ t. is_some (if t then some b else Dict.get more id)) other_is) ∙ there in
          ap after found ∙ notify_each-gone params now more _ id later gone
    ]

-- A session that subscribed to a resource and was closed since is still among the subscribers, and
-- the next update of the resource crashes the process.
pub notify_closed_subscriber :
    (c : ResourcesCapability) (m : Manager) (id uri : String) (params : Option Encoded) (now : ℕ)
    → is_subscribed c id uri ≡ true
    → notify_resource_updated c params now uri (close_session m id) ≡ crashed
unfolding notify_resource_updated
notify_closed_subscriber c m id uri params now subscribed =
    let gone : Dict.get (close_session m id).sessions id ≡ none =
      rw (get-close_session m id id) (rw (str_refl id) refl) in
    elim (Option-cases (Dict.get c.subscribers uri)) [
      | inl e ↦ cc
      | inr (subscribers, e) ↦
          rw e (notify_each-gone params now subscribers _ id (ground arith) gone)
    ]
