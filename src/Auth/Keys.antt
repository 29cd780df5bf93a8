-- ===== src/Auth/Keys.antt =====
-- Who is let in with the keys of a YAML file: server/transport/authentication.go over
-- shared/config/yaml.go.
use gate4ai.Dict
use gate4ai.Dict.{Dict}
use gate4ai.Prelude.{◌≡◌, ◌≢◌, ◌⊎◌, inl, inr, refl, ap, Option, none, some, [], String, str_ne}
use mathlib.Core.Path.{subst}
use gate4ai.Auth.{granted, refused, session_not_found, user_of, user_of_key, authenticate}
use gate4ai.Auth.Access.{granted_params, authenticate_authorized_only}
use gate4ai.Config.{Config, found, authorized_users_only, hash_api_key}
use gate4ai.Config.Yaml.{
  YamlFile, YamlConfig, update, parsed, yaml_to_config, authorization_of, user_id_by_key_hash,
  key_hashes,
}
use gate4ai.Config.Yaml.Keys.{IsKey, IsKeyOf, key_hashes_lem}

module _ (to_lower sha256_hex : String → String) (c : YamlConfig) (f : YamlFile)
    (auth_key remote_addr : String) (given : auth_key ≢ "") (hashed : sha256_hex auth_key ≢ "")
    (strict : authorization_of to_lower f.authorization ≡ authorized_users_only) where
  abbrev config : Config
  config = yaml_to_config (update to_lower c (parsed f)).0

  user_of_hash :
      (o : Option String)
      → Dict.get (key_hashes [] f.users) (sha256_hex auth_key) ≡ o
      → user_of_key sha256_hex config auth_key ≡ elim o [ none ↦ "" | some u ↦ u ]
  unfolding user_of_key user_of update user_id_by_key_hash hash_api_key
  user_of_hash none e =
      rw (str_ne auth_key "" given, str_ne (sha256_hex auth_key) "" hashed, e) refl
  user_of_hash (some u) e =
      rw (str_ne auth_key "" given, str_ne (sha256_hex auth_key) "" hashed, e) refl

  access_of :
      (u : String)
      → user_of_key sha256_hex config auth_key ≡ u
      → ((u ≡ "")
          × (authenticate sha256_hex config auth_key remote_addr ≡ refused session_not_found))
        ⊎ ((u ≢ "")
            × (authenticate sha256_hex config auth_key remote_addr
                ≡ granted (u, granted_params u auth_key remote_addr)))
  unfolding update
  access_of u e =
      subst
        (λ v.
          ((v ≡ "")
            × (authenticate sha256_hex config auth_key remote_addr ≡ refused session_not_found))
          ⊎ ((v ≢ "")
              × (authenticate sha256_hex config auth_key remote_addr
                  ≡ granted (v, granted_params v auth_key remote_addr))))
        e (authenticate_authorized_only sha256_hex config auth_key remote_addr (ap found strict)).0

  refusal :
      ((◌≡◌ {A = String} "" "")
          × (authenticate sha256_hex config auth_key remote_addr ≡ refused session_not_found))
        ⊎ ((◌≢◌ {A = String} "" "")
            × (authenticate sha256_hex config auth_key remote_addr
                ≡ granted ("", granted_params "" auth_key remote_addr)))
      → authenticate sha256_hex config auth_key remote_addr ≡ refused session_not_found
  refusal (inl (e, r)) = r
  refusal (inr (n, r)) = absurd (n refl)

  -- With a YAML file that lets in only authorized users, a key gets a session exactly where its hash
  -- is listed for a user, and then as a user for whom it is listed. (A user of the empty name is
  -- refused as well.)
  pub authenticate-IsKey :
      (IsKey (sha256_hex auth_key) f.users
        × ((u : String) × IsKeyOf u (sha256_hex auth_key) f.users
            × (((u ≡ "")
                  × (authenticate sha256_hex config auth_key remote_addr
                      ≡ refused session_not_found))
                ⊎ ((u ≢ "")
                    × (authenticate sha256_hex config auth_key remote_addr
                        ≡ granted (u, granted_params u auth_key remote_addr))))))
      ⊎ ((¬ IsKey (sha256_hex auth_key) f.users)
          × (authenticate sha256_hex config auth_key remote_addr ≡ refused session_not_found))
  unfolding Dict.get
  authenticate-IsKey = elim (key_hashes_lem [] f.users (sha256_hex auth_key)) [
    | inl (there, (u, e, of)) ↦ inl (there, (u, of, access_of u (user_of_hash (some u) e)))
    | inr (absent, e) ↦ inr (absent, refusal (access_of "" (user_of_hash none e)))
  ]
