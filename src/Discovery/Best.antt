-- ===== src/Discovery/Best.antt =====
-- The result of a discovery in gateway/clients/discovering/handler.go does not depend on the order
-- in which the attempts end.
use gate4ai.Discovery.{
  mcp, a2a, rest, DiscoveryResult, best, first_result, prioritize_results, collected, discover_sse,
  discover_sync, or_no_protocol,
}
use gate4ai.Discovery.Probes.Successes.{IsFrom, mcp-IsFrom, a2a-IsFrom, rest-IsFrom}
use gate4ai.Discovery.Probes.{
  Card, Fetched, HandshakeEnd, try_mcp_discovery, try_a2a_discovery, try_rest_discovery,
}
use gate4ai.Prelude.{◌≡◌, sym, ◌∙◌, Bool, Option, none, some, List, [], ◌∷◌, String, arith}

-- The six orders of three ends.
pub data Order : Type 0 where
  mar mra amr arm rma ram : Order

abbrev pub in_order : {A : Type 0} → Order → A → A → A → List A
in_order mar m a r = m ∷ a ∷ r ∷ []
in_order mra m a r = m ∷ r ∷ a ∷ []
in_order amr m a r = a ∷ m ∷ r ∷ []
in_order arm m a r = a ∷ r ∷ m ∷ []
in_order rma m a r = r ∷ m ∷ a ∷ []
in_order ram m a r = r ∷ a ∷ m ∷ []

-- Of three such results the first that there is.
abbrev pub chosen :
    Option DiscoveryResult
    → Option DiscoveryResult
    → Option DiscoveryResult
    → Option DiscoveryResult
chosen (some m) a r = some m
chosen none (some a) r = some a
chosen none none r = r

sync_chosen :
    (m a r : Option DiscoveryResult)
    → IsFrom mcp m
    → IsFrom a2a a
    → IsFrom rest r
    → discover_sync m a r ≡ or_no_protocol (chosen m a r)
unfolding discover_sync prioritize_results best first_result IsFrom
sync_chosen m a r hm ha hr = ground arith

sse_chosen :
    (o : Order) (m a r : Option DiscoveryResult)
    → IsFrom mcp m
    → IsFrom a2a a
    → IsFrom rest r
    → discover_sse (in_order o m a r) ≡ or_no_protocol (chosen m a r)
unfolding discover_sse prioritize_results best first_result collected IsFrom
sse_chosen mra m a r hm ha hr = ground arith
sse_chosen mar m a r hm ha hr = ground arith
sse_chosen amr m a r hm ha hr = ground arith
sse_chosen arm m a r hm ha hr = ground arith
sse_chosen rma m a r hm ha hr = ground arith
sse_chosen ram m a r hm ha hr = ground arith

-- Whatever the three attempts come to and in whatever order they end, the client of the stream gets
-- the result that it would get without one: that of MCP before A2A before REST.
pub discover_any_order :
    (decode : String → Option Card) (contains : String → String → Bool) (target : String)
    (id_m id_a id_r : String) (step_id : String → String) (parses : Bool)
    (handshaken : HandshakeEnd) (reply : Option Fetched) (get : String → Fetched) (o : Order)
    → let m = (try_mcp_discovery target id_m handshaken).0 in
      let a = (try_a2a_discovery decode id_a reply).0 in
      let r = (try_rest_discovery contains target id_r step_id parses get).0 in
      (discover_sse (in_order o m a r) ≡ discover_sync m a r)
      × (discover_sync m a r ≡ or_no_protocol (chosen m a r))
discover_any_order decode contains target id_m id_a id_r step_id parses handshaken reply get o =
    let m = (try_mcp_discovery target id_m handshaken).0 in
    let a = (try_a2a_discovery decode id_a reply).0 in
    let r = (try_rest_discovery contains target id_r step_id parses get).0 in
    let hm = mcp-IsFrom target id_m handshaken in
    let ha = a2a-IsFrom decode id_a reply in
    let hr = rest-IsFrom contains target id_r step_id parses get in
    let sync = sync_chosen m a r hm ha hr in (sse_chosen o m a r hm ha hr ∙ sym sync, sync)
