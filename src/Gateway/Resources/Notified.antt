-- ===== src/Gateway/Resources/Notified.antt =====
-- The URIs that the gateway announces are those that a client can read:
-- gw_resources_notification_updated and gw_resources_read of gateway/capability.
use gate4ai.Prelude.{◌≡◌, ◌≢◌, ◌⊎◌, List, [], ◌∷◌, String, All}
use gate4ai.Gateway.Tools.{Tool}

-- No two resources have one URI, and none has the empty one.
abbrev pub IsDistinct : List Tool → Type 0
IsDistinct [] = Unit
IsDistinct (t ∷ ts) = (t.name ≢ "") × All (λ (u : Tool). t.name ≢ u.name) ts × IsDistinct ts

-- A server's resource is in the list, under a URI of the gateway.
abbrev pub IsOffered : String → String → List Tool → Type 0
IsOffered slug original [] = ⊥
IsOffered slug original (t ∷ ts) =
    ((t.original_name ≡ original) × (t.server_slug ≡ slug)) ⊎ IsOffered slug original ts

IsIn : Tool → List Tool → Type 0
IsIn t [] = ⊥
IsIn t (u ∷ us) = (u ≡ t) ⊎ IsIn t us
