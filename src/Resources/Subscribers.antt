-- ===== src/Resources/Subscribers.antt =====
-- The table of subscribers under every operation of server/mcp/capability/resources.go.
use gate4ai.Prelude.{
  ℕ, ◌≡◌, ◌≢◌, ◌⊎◌, inl, inr, refl, sym, ap, ◌∙◌, Bool, true, Option, none, some, List, [], ◌∷◌,
  String, eq_iff, arith, is_some, if_cases,
}
use gate4ai.Dict
use gate4ai.Dict.{Dict, get-put, get-remove}
use gate4ai.A2a.{Params, missing, malformed, params}
use gate4ai.Resources.{
  Resource, ResourceTemplate, ResourcesCapability, Ended, Notice, new_resources_capability,
  add_resource, update_resource, delete_resource, add_resource_template, delete_resource_template,
  trigger_resource_update, touch, put_resource, remove_subscription, remove_from,
  subscribers_without, or_empty_set, handle_resources_subscribe, handle_resources_unsubscribe,
}

-- A URI in the table names a resource, and has a subscriber.
abbrev pub IsValid : ResourcesCapability → Type 0
IsValid c =
    (uri : String) (m : Dict Bool)
    → Dict.get c.subscribers uri ≡ some m
    → (Dict.has c.resources uri ≡ true) × (m ≢ [])

put_nonempty : (m : Dict Bool) (k : String) (v : Bool) → Dict.put m k v ≢ []
unfolding Dict.put
put_nonempty [] k v = λ e. absurd (cc)
put_nonempty ((j, w) ∷ m) k v = ground arith

put_resource-IsValid :
    (c : ResourcesCapability) (r : Resource) (h : Option ℕ) (n : Notice)
    → IsValid c
    → IsValid (put_resource c r h n).0
unfolding put_resource
put_resource-IsValid c r none n v = v
put_resource-IsValid c r (some h) n v = λ uri m e. (
  ground (arith, get-put c.resources r.uri uri (record r { handler = h }), (v uri m e).0),
  (v uri m e).1,
)

add_resource-IsValid :
    (c : ResourcesCapability) (r : Resource) (h : Option ℕ)
    → IsValid c
    → IsValid (add_resource c r h).0
unfolding add_resource
add_resource-IsValid c r h v =
    if_cases (λ (x : ResourcesCapability × Ended). IsValid x.0) (Dict.has c.resources r.uri) _ _
      (λ e. v) (λ e. put_resource-IsValid c r h _ v)

update_resource-IsValid :
    (c : ResourcesCapability) (r : Resource) (h : Option ℕ)
    → IsValid c
    → IsValid (update_resource c r h).0
unfolding update_resource
update_resource-IsValid c r h v =
    if_cases (λ (x : ResourcesCapability × Ended). IsValid x.0) (Dict.has c.resources r.uri) _ _
      (λ e. put_resource-IsValid c r h _ v) (λ e. v)

delete_resource-IsValid :
    (c : ResourcesCapability) (uri : String) → IsValid c → IsValid (delete_resource c uri).0
unfolding delete_resource
delete_resource-IsValid c uri v =
    if_cases (λ (x : ResourcesCapability × Ended). IsValid x.0) (Dict.has c.resources uri) _ _
      (λ e other m h. (
        ground (
          arith,
          get-remove c.subscribers uri other,
          get-remove c.resources uri other,
          v other m,
          h,
        ),
        ground (arith, get-remove c.subscribers uri other, v other m, h),
      ))
      (λ e. v)

touch-IsValid :
    (c : ResourcesCapability) (uri : String) (now : ℕ) (o : Option Resource)
    → IsValid c
    → IsValid (touch c uri now o).0
unfolding touch
touch-IsValid c uri now none v = v
touch-IsValid c uri now (some r) v = λ other m e. (
  ground (arith, get-put c.resources uri other (record r { last_modified = now }), (v other m e).0),
  (v other m e).1,
)

get-subscribers_without :
    (d : Dict (Dict Bool)) (uri other : String) (left m : Dict Bool)
    → Dict.get (subscribers_without d uri left) other ≡ some m
    → (Dict.get d other ≡ some m) ⊎ ((uri ≡ other) × (m ≢ []))
unfolding subscribers_without
get-subscribers_without d uri other [] m h = ground (arith, get-remove d uri other, h)
get-subscribers_without d uri other (e ∷ left) m h =
    ground (arith, get-put d uri other (e ∷ left), eq_iff uri other, h)

remove_from-IsValid :
    (c : ResourcesCapability) (session uri : String) (o : Option (Dict Bool))
    → Dict.get c.subscribers uri ≡ o
    → IsValid c
    → IsValid (remove_from c session uri o).0
unfolding remove_from
remove_from-IsValid c session uri none h v = v
remove_from-IsValid c session uri (some m) h v =
    if_cases (λ (x : ResourcesCapability × Ended). IsValid x.0) (Dict.has m session) _ _
      (λ e other n k.
        elim (get-subscribers_without c.subscribers uri other (Dict.remove m session) n k) [
          | inl old ↦ v other n old
          | inr (same, full) ↦
              (ap (λ x. is_some (Dict.get c.resources x)) (sym same) ∙ (v uri m h).0, full)
        ])
      (λ e. v)

subscribe-IsValid :
    (c : ResourcesCapability) (session : String) (q : Params String)
    → IsValid c
    → IsValid (handle_resources_subscribe c session q).0
unfolding handle_resources_subscribe
subscribe-IsValid c session missing v = v
subscribe-IsValid c session (malformed e) v = v
subscribe-IsValid c session (params uri) v =
    if_cases (λ (x : ResourcesCapability × Ended). IsValid x.0) (Dict.has c.resources uri) _ _
      (λ there other m k.
        let all = Dict.put (or_empty_set (Dict.get c.subscribers uri)) session true in
        (
          ground
              (arith, get-put c.subscribers uri other all, eq_iff uri other, v other m, there, k),
          ground (
            arith,
            get-put c.subscribers uri other all,
            put_nonempty (or_empty_set (Dict.get c.subscribers uri)) session true,
            v other m,
            k,
          ),
        ))
      (λ e. v)

-- The operations that change the capability.
pub data Op : Type 0 where
  adds updates : Resource → Option ℕ → Op
  deletes : String → Op
  adds_template : ResourceTemplate → Op
  deletes_template : String → Op
  triggers : String → ℕ → Op
  subscribes unsubscribes : String → Params String → Op

unfoldable pub step : ResourcesCapability → Op → ResourcesCapability
step c (adds r h) = (add_resource c r h).0
step c (updates r h) = (update_resource c r h).0
step c (deletes uri) = (delete_resource c uri).0
step c (adds_template t) = (add_resource_template c t).0
step c (deletes_template uri) = (delete_resource_template c uri).0
step c (triggers uri now) = (trigger_resource_update c uri now).0
step c (subscribes session q) = (handle_resources_subscribe c session q).0
step c (unsubscribes session q) = (handle_resources_unsubscribe c session q).0

unfoldable pub run : ResourcesCapability → List Op → ResourcesCapability
run c [] = c
run c (o ∷ os) = run (step c o) os

template-IsValid :
    (c : ResourcesCapability) (t : ResourceTemplate)
    → IsValid c
    → IsValid (add_resource_template c t).0
unfolding add_resource_template
template-IsValid c t v =
    if_cases (λ (x : ResourcesCapability × Ended). IsValid x.0)
      (Dict.has c.templates t.uri_template) _ _ (λ e. v) (λ e. v)

no_template-IsValid :
    (c : ResourcesCapability) (uri : String)
    → IsValid c
    → IsValid (delete_resource_template c uri).0
unfolding delete_resource_template
no_template-IsValid c uri v =
    if_cases (λ (x : ResourcesCapability × Ended). IsValid x.0) (Dict.has c.templates uri) _ _
      (λ e. v) (λ e. v)

unsubscribe-IsValid :
    (c : ResourcesCapability) (session : String) (q : Params String)
    → IsValid c
    → IsValid (handle_resources_unsubscribe c session q).0
unfolding handle_resources_unsubscribe remove_subscription
unsubscribe-IsValid c session missing v = v
unsubscribe-IsValid c session (malformed e) v = v
unsubscribe-IsValid c session (params uri) v =
    remove_from-IsValid c session uri (Dict.get c.subscribers uri) refl v

step-IsValid : (c : ResourcesCapability) (o : Op) → IsValid c → IsValid (step c o)
unfolding step trigger_resource_update
step-IsValid c (adds r h) v = add_resource-IsValid c r h v
step-IsValid c (updates r h) v = update_resource-IsValid c r h v
step-IsValid c (deletes uri) v = delete_resource-IsValid c uri v
step-IsValid c (adds_template t) v = template-IsValid c t v
step-IsValid c (deletes_template uri) v = no_template-IsValid c uri v
step-IsValid c (triggers uri now) v = touch-IsValid c uri now (Dict.get c.resources uri) v
step-IsValid c (subscribes session q) v = subscribe-IsValid c session q v
step-IsValid c (unsubscribes session q) v = unsubscribe-IsValid c session q v

run-IsValid : (c : ResourcesCapability) (os : List Op) → IsValid c → IsValid (run c os)
unfolding run
run-IsValid c [] v = v
run-IsValid c (o ∷ os) v = run-IsValid (step c o) os (step-IsValid c o v)

new-IsValid : IsValid new_resources_capability
unfolding new_resources_capability Dict.get
new-IsValid uri m e = absurd (cc)

-- After any operations, failing ones among them, on a new capability every URI with subscribers is
-- that of a resource, and no set of subscribers is empty.
pub run-new_resources-IsValid : (os : List Op) → IsValid (run new_resources_capability os)
run-new_resources-IsValid os = run-IsValid new_resources_capability os new-IsValid
