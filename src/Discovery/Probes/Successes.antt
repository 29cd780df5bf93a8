-- ===== src/Discovery/Probes/Successes.antt =====
-- What an attempt of gateway/clients/discovering gives: nothing, or a success for its protocol.
use gate4ai.Discovery.{Protocol, mcp, a2a, rest, is_success, DiscoveryResult}
use gate4ai.Discovery.Probes.{
  Card, Fetched, HandshakeEnd, handshake, no_client, timed_out, unauthorized, broken, cancelled,
  try_mcp_discovery, try_a2a_discovery, try_rest_discovery, agent_page, card_read, agent_found,
  fetch_failure, Failure, failure, no_failure, logged, check_paths, path_result, rest_end, Probe,
  common_paths, LogEntry, is_2xx,
}
use gate4ai.Prelude.{
  ◌≡◌, refl, Bool, true, false, Option, none, some, List, [], ◌∷◌, String, arith, eqb,
}

unfoldable pub IsFrom : Protocol → Option DiscoveryResult → Type 0
IsFrom p none = Unit
IsFrom p (some r) = (r.protocol ≡ p) × (is_success r ≡ true)

logged-IsFrom :
    (p : Protocol) (e : LogEntry) (probe : Probe) → IsFrom p probe.0 → IsFrom p (logged e probe).0
logged-IsFrom p e (r, entries) h = h

pub mcp-IsFrom :
    (target id : String) (reply : HandshakeEnd) → IsFrom mcp (try_mcp_discovery target id reply).0
unfolding try_mcp_discovery IsFrom
mcp-IsFrom target id no_client = tt
mcp-IsFrom target id timed_out = tt
mcp-IsFrom target id unauthorized = tt
mcp-IsFrom target id broken = tt
mcp-IsFrom target id cancelled = tt
mcp-IsFrom target id (handshake name version found) = (refl, refl)

agent_found-IsFrom : (id : String) (c : Card) → IsFrom a2a (agent_found id c).0
unfolding agent_found IsFrom
agent_found-IsFrom id c = ground arith

card_read-IsFrom : (id : String) (c : Option Card) → IsFrom a2a (card_read id c).0
unfolding card_read IsFrom
card_read-IsFrom id none = tt
card_read-IsFrom id (some c) = agent_found-IsFrom id c

agent_page-IsFrom :
    (decode : String → Option Card) (id : String) (f : Failure)
    → IsFrom a2a (agent_page decode id f).0
unfolding agent_page IsFrom
agent_page-IsFrom decode id (failure kind code) = tt
agent_page-IsFrom decode id (no_failure n body) = card_read-IsFrom id (decode body)

pub a2a-IsFrom :
    (decode : String → Option Card) (id : String) (reply : Option Fetched)
    → IsFrom a2a (try_a2a_discovery decode id reply).0
unfolding try_a2a_discovery IsFrom
a2a-IsFrom decode id none = tt
a2a-IsFrom decode id (some f) = agent_page-IsFrom decode id (fetch_failure f (λ n. eqb n 200))

module _ (contains : String → String → Bool) where
  path_result-IsFrom :
      (target path : String) (f : Failure) (so_far : Option DiscoveryResult)
      → IsFrom rest so_far
      → IsFrom rest (path_result contains target path f so_far)
  unfolding path_result IsFrom
  path_result-IsFrom target path (failure kind code) so_far h = h
  path_result-IsFrom target path (no_failure n body) so_far h = (refl, refl)

  check_paths-IsFrom :
      (target : String) (step_id : String → String) (get : String → Fetched) (paths : List String)
      (so_far : Option DiscoveryResult)
      → IsFrom rest so_far
      → IsFrom rest (check_paths contains target step_id get paths so_far).0
  unfolding check_paths
  check_paths-IsFrom target step_id get [] so_far h = h
  check_paths-IsFrom target step_id get (path ∷ more) so_far h =
      check_paths-IsFrom target step_id get more
        (path_result contains target path (fetch_failure (get path) (is_2xx contains)) so_far)
        (path_result-IsFrom target path (fetch_failure (get path) (is_2xx contains)) so_far h)

  rest_end-IsFrom :
      (id : String) (p : Probe) → IsFrom rest p.0 → IsFrom rest (rest_end contains id p).0
  unfolding rest_end
  rest_end-IsFrom id (none, entries) h = h
  rest_end-IsFrom id (some r, entries) h = h

  pub rest-IsFrom :
      (target id : String) (step_id : String → String) (parses : Bool) (get : String → Fetched)
      → IsFrom rest (try_rest_discovery contains target id step_id parses get).0
  unfolding try_rest_discovery IsFrom
  rest-IsFrom target id step_id false get = tt
  rest-IsFrom target id step_id true get =
      rest_end-IsFrom id (check_paths contains target step_id get (common_paths contains) none)
        (check_paths-IsFrom target step_id get (common_paths contains) none tt)
