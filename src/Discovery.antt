-- ===== src/Discovery.antt =====
-- Finding out what a server speaks: gateway/clients/discovering/handler.go. The three attempts run
-- at the same time and end in any order; what each comes to is in Probes.
pub mod Probes
pub mod Best
pub mod Examples
use gate4ai.Dict.{Dict}
use gate4ai.Prelude.{
  ℕ, Bool, ◌&&◌, Option, none, some, List, [], ◌∷◌, String, ◌==◌, arith, ltb, if◌then◌else◌,
}

pub data Protocol : Type 0 where
  mcp a2a rest : Protocol
  unknown : String → Protocol

-- `DiscoveryResult` with the `ServerInfo` in it; the website and the description are left out.
pub record DiscoveryResult : Type 0 where
  pub protocol : Protocol
  pub url : String
  pub name : String
  pub version : String
  pub protocol_version : String
  pub tools : List String
  pub skills : List String
  pub error : String

-- The map `priority`, with 0 for a protocol that is not in it.
abbrev pub priority : Protocol → ℕ
priority mcp = 3
priority a2a = 2
priority rest = 1
priority (unknown p) = 0

abbrev pub is_success : DiscoveryResult → Bool
is_success r = r.error == ""

-- The loop of `prioritizeResults`: the best result so far and its priority.
unfoldable pub best :
    List (Option DiscoveryResult) → Option DiscoveryResult → ℕ → Option DiscoveryResult
best [] so_far p = so_far
best (none ∷ more) so_far p = best more so_far p
best (some r ∷ more) so_far p =
    let better = is_success r && ltb p (priority r.protocol) in
    best more (if better then some r else so_far) (if better then priority r.protocol else p)

unfoldable pub first_result : List (Option DiscoveryResult) → Option DiscoveryResult
first_result [] = none
first_result (none ∷ more) = first_result more
first_result (some r ∷ more) = some r

or_first : List (Option DiscoveryResult) → Option DiscoveryResult → Option DiscoveryResult
unfolding first_result
or_first results none = first_result results
or_first results (some r) = some r

unfoldable pub prioritize_results : List (Option DiscoveryResult) → Option DiscoveryResult
unfolding best or_first
prioritize_results results = or_first results (best results none 0)

abbrev pub no_protocol : DiscoveryResult
no_protocol = record {
  protocol = unknown "";
  url = "";
  name = "";
  version = "";
  protocol_version = "";
  tools = [];
  skills = [];
  error = "no compatible protocol found";
}

unfoldable pub or_no_protocol : Option DiscoveryResult → DiscoveryResult
or_no_protocol none = no_protocol
or_no_protocol (some r) = r

-- The results of the three attempts that `addResult` collects, in the order of their ends.
unfoldable pub collected : List (Option DiscoveryResult) → List (Option DiscoveryResult)
collected [] = []
collected (none ∷ more) = collected more
collected (some r ∷ more) = some r ∷ collected more

-- The final result with a stream of log entries, and without.
unfoldable pub discover_sse : List (Option DiscoveryResult) → DiscoveryResult
unfolding or_no_protocol prioritize_results collected
discover_sse ended = or_no_protocol (prioritize_results (collected ended))

-- The limit of 10 seconds, and of 20 for a stream, is a part of what an attempt ends with.
unfoldable pub discover_sync :
    Option DiscoveryResult → Option DiscoveryResult → Option DiscoveryResult → DiscoveryResult
unfolding or_no_protocol prioritize_results
discover_sync response_mcp response_a2a response_rest =
    or_no_protocol (prioritize_results (response_mcp ∷ response_a2a ∷ response_rest ∷ []))

-- A request to the handler: another method than POST, or what its body is.
pub data DiscoveryRequest : Type 0 where
  options other_method unreadable malformed : DiscoveryRequest
  target : String → Dict String → DiscoveryRequest

-- An HTTP status, or the target and headers of a discovery.
pub data Started : Type 0 where
  refused : ℕ → Started
  discovers : String → Dict String → Started

unfoldable pub handle : DiscoveryRequest → Started
handle options = refused 204
handle other_method = refused 405
handle unreadable = refused 500
handle malformed = refused 400
handle (target url headers) = if url == "" then refused 400 else discovers url headers
