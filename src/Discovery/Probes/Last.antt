-- ===== src/Discovery/Probes/Last.antt =====
-- Which of the common paths makes the result of tryREST.go in gateway/clients/discovering.
use mathlib.Core.Option
use gate4ai.Discovery.Probes.{
  is_2xx, Fetched, not_created, timed_out, not_connected, not_read, page, fetch_failure, Probe,
  rest_found, check_paths, common_paths, try_rest_discovery, path_result, rest_end,
}
use gate4ai.Prelude.{
  ◌≡◌, inl, inr, refl, ap, ◌∙◌, Bool, true, false, ◌&&◌, Option, none, some, List, [], ◌∷◌, String,
  ltb, leb, if◌then◌else◌, Bool-cases,
}

-- A page with a status from 200 to 299.
abbrev pub is_accepted : Fetched → Bool
is_accepted (page n body) = leb 200 n && ltb n 300
is_accepted _ = false

-- The last of the texts that a test accepts, or else the one that is given.
abbrev pub last_accepted : (String → Bool) → List String → Option String → Option String
last_accepted test [] so_far = so_far
last_accepted test (x ∷ xs) so_far = last_accepted test xs (if test x then some x else so_far)

module _ (contains : String → String → Bool) (target : String) (step_id : String → String)
    (get : String → Fetched) where
  path_result-last :
      (path : String) (f : Fetched) (so_far : Option String)
      → path_result contains target path
          (fetch_failure f (is_2xx contains))
          (Option.map (rest_found contains target) so_far)
        ≡ Option.map (rest_found contains target) (if is_accepted f then some path else so_far)
  unfolding path_result fetch_failure
  path_result-last path not_created so_far = refl
  path_result-last path timed_out so_far = refl
  path_result-last path not_connected so_far = refl
  path_result-last path (not_read n) so_far = refl
  path_result-last path (page n body) so_far = elim (Bool-cases (is_2xx contains n)) [
    | inl e ↦ rw e refl
    | inr e ↦ rw e refl
  ]

  check_paths-last :
      (paths : List String) (so_far : Option String)
      → (check_paths contains target step_id get paths
          (Option.map (rest_found contains target) so_far)).0
        ≡ Option.map
            (rest_found contains target)
            (last_accepted (λ p. is_accepted (get p)) paths so_far)
  unfolding check_paths
  check_paths-last [] so_far = refl
  check_paths-last (path ∷ more) so_far =
      ap (λ r. (check_paths contains target step_id get more r).0)
        (path_result-last path (get path) so_far)
      ∙ check_paths-last more (if is_accepted (get path) then some path else so_far)

  result-rest_end : (id : String) (p : Probe) → (rest_end contains id p).0 ≡ p.0
  unfolding rest_end
  result-rest_end id (none, entries) = refl
  result-rest_end id (some r, entries) = refl

  -- A discovery of REST names the last of the common paths that gives a status from 200 to 299, and
  -- gives nothing where none does.
  try_rest_discovery_last :
      (id : String)
      → (try_rest_discovery contains target id step_id true get).0
        ≡ Option.map
            (rest_found contains target)
            (last_accepted (λ p. is_accepted (get p)) (common_paths contains) none)
  unfolding try_rest_discovery
  try_rest_discovery_last id =
      result-rest_end id (check_paths contains target step_id get (common_paths contains) none)
      ∙ check_paths-last (common_paths contains) none
