-- ===== src/Resources/Examples.antt =====
-- A capability with one resource.
use gate4ai.Prelude.{none, ◌≡◌, refl, some, List, [], ◌∷◌}
use gate4ai.Dict
use gate4ai.A2a.{params}
use gate4ai.Resources.{
  Resource, ResourcesCapability, new_resources_capability, handle_resources_subscribe,
}
use gate4ai.Manager.{create_session, new_manager, no_params, close_session}
use gate4ai.Resources.Updated.{notify_closed_subscriber, notify_resource_updated, crashed}
use gate4ai.Resources.Subscribers.{
  IsValid, Op, adds, deletes, subscribes, unsubscribes, run, run-new_resources-IsValid,
}

abbrev page : Resource
page = record {
  uri = "file:a";
  name = "a";
  description = "";
  mime_type = "text/plain";
  handler = 0;
  last_modified = 1;
}

abbrev ops : List Op
ops =
    adds page (some 4)
    ∷ subscribes "s1" (params "file:a")
    ∷ subscribes "s2" (params "file:a")
    ∷ unsubscribes "s1" (params "file:a")
    ∷ deletes "file:a"
    ∷ []

run-new_resources-IsValid_example : IsValid (run new_resources_capability ops)
run-new_resources-IsValid_example = run-new_resources-IsValid ops

abbrev with_page : ResourcesCapability
with_page = record new_resources_capability { resources = ("file:a", page) ∷ [] }

notify_closed_subscriber_example :
    notify_resource_updated
      (handle_resources_subscribe with_page "s1" (params "file:a")).0
      none
      9
      "file:a"
      (close_session (create_session new_manager "ann" "s1" no_params "r" 3).0 "s1")
    ≡ crashed
unfolding Dict.get handle_resources_subscribe Dict.put new_resources_capability
notify_closed_subscriber_example =
    notify_closed_subscriber (handle_resources_subscribe with_page "s1" (params "file:a")).0
      (create_session new_manager "ann" "s1" no_params "r" 3).0 "s1" "file:a" none 9 refl
