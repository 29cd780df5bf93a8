-- ===== src/Discovery/Examples.antt =====
-- A server that is found as an agent and by one of the common paths.
use gate4ai.Discovery.{discover_sse, discover_sync, or_no_protocol}
use gate4ai.Discovery.Best.{ram, in_order, chosen, discover_any_order}
use gate4ai.Discovery.Probes.{
  Card, Fetched, page, not_connected, broken, try_mcp_discovery, try_a2a_discovery,
  try_rest_discovery,
}
use gate4ai.Prelude.{◌≡◌, Bool, true, Option, some, [], String, ◌==◌, if◌then◌else◌}

abbrev agent : String → Option Card
agent body = some (record { name = "agent"; url = "u"; version = "1"; skills = [] })

abbrev contains : String → String → Bool
contains path part = path == part

abbrev get : String → Fetched
get path = if path == "/swagger.json" then page 200 "{}" else not_connected

abbrev own_id : String → String
own_id path = path

discover_any_order_example :
    let m = (try_mcp_discovery "t" "1" broken).0 in
    let a = (try_a2a_discovery agent "2" (some (page 200 "{}"))).0 in
    let r = (try_rest_discovery contains "t" "3" own_id true get).0 in
    (discover_sse (in_order ram m a r) ≡ discover_sync m a r)
    × (discover_sync m a r ≡ or_no_protocol (chosen m a r))
discover_any_order_example =
    discover_any_order agent contains "t" "1" "2" "3" own_id true broken (some (page 200 "{}")) get
      ram
