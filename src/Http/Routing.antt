-- ===== src/Http/Routing.antt =====
-- Which handler a request reaches by its path and method: `Handle2024MCP`, `HandleMCP` and
-- `HandleA2A` of server/transport/transport.go.
use gate4ai.Prelude.{String, ◌==◌, if◌then◌else◌}
use gate4ai.Http.{HttpReply, text_reply, status_only}

pub data Handler : Type 0 where
  get_2024 post_2024 post delete a2a_post : Handler

-- The handler, or the reply of a method that has none.
pub data Routed : Type 0 where
  to : Handler → Routed
  replies : HttpReply → Routed

abbrev not_allowed : Routed
not_allowed = replies (text_reply 405 "Method Not Allowed")

unfoldable pub handle_2024_mcp : String → Routed
handle_2024_mcp method =
    if method == "GET"
    then to get_2024
    else if method == "POST"
    then to post_2024
    else if method == "OPTIONS"
    then replies (status_only 204)
    else not_allowed

-- `handleGET` allows no GET.
unfoldable pub handle_get : Routed
handle_get = not_allowed

unfoldable pub handle_mcp : String → Routed
unfolding handle_get
handle_mcp method =
    if method == "GET"
    then handle_get
    else if method == "POST"
    then to post
    else if method == "DELETE"
    then to delete
    else if method == "OPTIONS"
    then replies (status_only 204)
    else not_allowed

unfoldable pub handle_a2a : String → Routed
handle_a2a method =
    if method == "POST"
    then to a2a_post
    else if method == "GET"
    then replies (text_reply 404 "404 page not found")
    else if method == "OPTIONS"
    then replies (status_only 204)
    else not_allowed
