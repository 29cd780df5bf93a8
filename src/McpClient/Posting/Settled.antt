-- ===== src/McpClient/Posting/Settled.antt =====
-- A request of gateway/clients/mcpClient/request.go that cannot be posted is answered with an error.
use gate4ai.Dict
use gate4ai.Dict.{Dict}
use gate4ai.Session.{Session}
