-- ===== src/Discovery/Probes.antt =====
-- The three attempts of a discovery: gateway/clients/discovering/tryMCP.go, tryA2A.go and
-- tryREST.go, each with its result and the log entries that it offers to the client, without the
-- texts of their messages. What requests come to is an argument.
pub mod Successes
pub mod Last
use gate4ai.Discovery.{Protocol, mcp, a2a, rest, DiscoveryResult}
use gate4ai.Prelude.{
  ℕ, ◌+◌, ◌-◌, ◌/◌, ◌<◌, Bool, ◌&&◌, ◌||◌, Option, none, some, List, [], ◌∷◌, ◌++◌, String, ◌<>◌,
  ◌==◌, arith, ltb, leb, eqb, if◌then◌else◌,
}

pub data LogStatus : Type 0 where
  attempting success error : LogStatus

pub record LogEntry : Type 0 where
  pub step_id : String
  pub step : String
  pub status : LogStatus
  pub kind : String
  pub status_code : Option ℕ

abbrev pub Probe : Type 0
Probe = Option DiscoveryResult × List LogEntry

abbrev pub entry : String → String → LogStatus → String → Option ℕ → LogEntry
entry id step status kind code = record {
  step_id = id;
  step = step;
  status = status;
  kind = kind;
  status_code = code;
}

-- What a GET comes to: no request, no response, no body, or a status with a body.
pub data Fetched : Type 0 where
  not_created timed_out not_connected : Fetched
  not_read : ℕ → Fetched
  page : ℕ → String → Fetched

-- The error of a response, where there is one: its type and its status.
pub data Failure : Type 0 where
  failure : String → Option ℕ → Failure
  no_failure : ℕ → String → Failure

fetch_failure : Fetched → (ℕ → Bool) → Failure
fetch_failure not_created accepted = failure "RequestCreation" none
fetch_failure timed_out accepted = failure "Timeout" none
fetch_failure not_connected accepted = failure "Connection" none
fetch_failure (not_read n) accepted = failure "ReadBody" (some n)
fetch_failure (page n body) accepted =
    if accepted n then no_failure n body else failure "HTTP" (some n)

-- The fields of an agent card that a discovery reads.
pub record Card : Type 0 where
  pub name : String
  pub url : String
  pub version : String
  pub skills : List String

abbrev a2a_step : String
a2a_step = "GET /.well-known/agent.json"

agent_found : String → Card → Probe
agent_found id c =
    if c.name == "" || c.url == "" || c.version == ""
    then (none, entry id a2a_step error "Validation" (some 200) ∷ [])
    else (
      some (record {
        protocol = a2a;
        url = c.url;
        name = c.name;
        version = c.version;
        protocol_version = "2025-draft";
        tools = [];
        skills = c.skills;
        error = "";
      }),
      entry id a2a_step success "" none ∷ [],
    )

card_read : String → Option Card → Probe
unfolding agent_found
card_read id none = (none, entry id a2a_step error "Parse" (some 200) ∷ [])
card_read id (some c) = agent_found id c

agent_page : (String → Option Card) → String → Failure → Probe
unfolding card_read
agent_page decode id (failure kind code) = (none, entry id a2a_step error kind code ∷ [])
agent_page decode id (no_failure n body) = card_read id (decode body)

abbrev pub logged : LogEntry → Probe → Probe
logged e (r, entries) = (r, e ∷ entries)

-- `reply` is what the well-known URL gives, and nothing where the target has none.
unfoldable pub try_a2a_discovery : (String → Option Card) → String → Option Fetched → Probe
unfolding agent_page fetch_failure
try_a2a_discovery decode id reply = logged (entry id a2a_step attempting "" none) (elim reply [
  | none ↦ (none, entry id "Initial Parse" error "Configuration" none ∷ [])
  | some f ↦ agent_page decode id (fetch_failure f (λ n. eqb n 200))
])

-- What the tools of a server come to.
pub data ToolsEnd : Type 0 where
  tools_error tools_timeout : ToolsEnd
  tools : List String → ToolsEnd

-- What the handshake comes to.
pub data HandshakeEnd : Type 0 where
  no_client timed_out unauthorized broken cancelled : HandshakeEnd
  handshake : String → String → ToolsEnd → HandshakeEnd

tools_of : ToolsEnd → List String
tools_of (tools items) = items
tools_of _ = []

tools_log : String → ToolsEnd → LogEntry
tools_log id tools_error = entry id "Get Tools" error "MCP Request" none
tools_log id tools_timeout = entry id "Get Tools" error "Timeout" none
tools_log id (tools items) = entry id "Get Tools" success "" none

mcp_end : String → String → HandshakeEnd → Probe
unfolding tools_of tools_log
mcp_end target id no_client = (none, entry id "Client Creation" error "Configuration" none ∷ [])
mcp_end target id timed_out = (none, entry id "Handshake" error "Timeout" none ∷ [])
mcp_end target id unauthorized = (none, entry id "Handshake" error "HTTP" (some 401) ∷ [])
mcp_end target id broken = (none, entry id "Handshake" error "Connection/Protocol" none ∷ [])
mcp_end target id cancelled = (none, entry id "Handshake" error "Timeout" none ∷ [])
mcp_end target id (handshake name version found) = (
  some (record {
    protocol = mcp;
    url = target;
    name = name;
    version = version;
    protocol_version = "2025-03-26";
    tools = tools_of found;
    skills = [];
    error = "";
  }),
  entry id "Handshake" success "" none
      ∷ entry (id <> "-tools") "Get Tools" attempting "" none
      ∷ tools_log (id <> "-tools") found
      ∷ [],
)

unfoldable pub try_mcp_discovery : String → String → HandshakeEnd → Probe
unfolding mcp_end
try_mcp_discovery target id reply =
    logged (entry id "Handshake" attempting "" none) (mcp_end target id reply)

-- `contains` is `strings.Contains`.
module _ (contains : String → String → Bool) where
  unfoldable pub get_server_name_from_path : String → String
  get_server_name_from_path path =
      if contains path "swagger"
      then "Swagger API"
      else if contains path "openapi"
      then "OpenAPI Service"
      else if contains path "redoc"
      then "ReDoc API"
      else if contains path "api-docs"
      then "API Documentation Service"
      else "REST API Service"

  unfoldable pub get_openapi_version_from_path : String → String
  get_openapi_version_from_path path =
      if contains path "v3"
      then "OpenAPI 3.0"
      else if contains path "v2"
      then "OpenAPI/Swagger 2.0"
      else "REST/OpenAPI"

  unfoldable pub rest_found : String → String → DiscoveryResult
  unfolding get_server_name_from_path get_openapi_version_from_path
  rest_found target path = record {
    protocol = rest;
    url = target;
    name = get_server_name_from_path path;
    version = "";
    protocol_version = get_openapi_version_from_path path;
    tools = [];
    skills = [];
    error = "";
  }

  abbrev is_2xx : ℕ → Bool
  is_2xx n = leb 200 n && ltb n 300

  path_log : String → String → Failure → LogEntry
  path_log id path (failure kind code) = entry id ("GET " <> path) error kind code
  path_log id path (no_failure n body) = entry id ("GET " <> path) success "" (some n)

  path_result : String → String → Failure → Option DiscoveryResult → Option DiscoveryResult
  unfolding rest_found
  path_result target path (failure kind code) so_far = so_far
  path_result target path (no_failure n body) so_far = some (rest_found target path)

  -- The loop over the paths, with the result so far; each step has an identifier of its own, and
  -- `get` is what a GET of a path comes to.
  unfoldable pub check_paths :
      String → (String → String) → (String → Fetched) → List String → Option DiscoveryResult → Probe
  unfolding path_result path_log fetch_failure
  check_paths target step_id get [] so_far = (so_far, [])
  check_paths target step_id get (path ∷ more) so_far =
      let f = fetch_failure (get path) is_2xx in
      logged (entry (step_id path) ("GET " <> path) attempting "" none) (
        logged (path_log (step_id path) path f)
          (check_paths target step_id get more (path_result target path f so_far)))

  abbrev pub common_paths : List String
  common_paths =
      "/openapi.json" ∷ "/swagger.json" ∷ "/swagger/v1/swagger.json" ∷ "/v3/api-docs" ∷ []

  rest_end : String → Probe → Probe
  rest_end id (none, entries) =
      (none, entries ++ entry id "Overall Check Result" error "NotFound" none ∷ [])
  rest_end id (some r, entries) =
      (some r, entries ++ entry id "Overall Check Result" success "" none ∷ [])

  unfoldable pub try_rest_discovery :
      String → String → (String → String) → Bool → (String → Fetched) → Probe
  unfolding check_paths rest_end
  try_rest_discovery target id step_id parses get =
      logged (entry id "Overall Check" attempting "" none) (
        if parses
        then rest_end id (check_paths target step_id get common_paths none)
        else (none, entry id "Initial Parse" error "Configuration" none ∷ []))
