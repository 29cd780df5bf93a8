-- ===== src/Lib.antt =====
-- gate4ai is a gateway and server library for the protocols MCP and A2A. Clients open sessions over
-- HTTP; each message of a session passes an input processor to the handler of its method, and the
-- answer leaves through the session's output channel. A server offers capabilities (tools, prompts,
-- resources, A2A tasks); the gateway's capability passes requests on to backend servers.
--
-- The files and the code that they model, with its paths from the repository's root:   Prelude
-- the names and lemmas that all share; numbers, texts, lists   Dict       a Go map with text keys
-- Jsonrpc    shared/jsonrpc.go, shared/message.go, shared/mcp/2024/schema/requests.go:
-- RequestID is IdValue, *RequestID is RequestId, *JSONRPCError is RpcError   Requests
-- shared/requestManager.go   Session    shared/session.go: BaseSession is the record Session; each
-- method is a function that              returns the new session (SendRequest is
-- Send.send_request, and so on); Sync is              SendRequestSync, and Sync.Steps its
-- callbacks in any order; Responding is              ProcessResponse of shared/requestManager.go
-- in its steps   Input      shared/input.go: Put, Process and the table of handlers, by their
-- names   Handshake  server/mcp/capability/base.go: initialize, notifications/initialized and
-- pings   Validators server/mcp/validators: size, method and rate of the messages   Config
-- shared/config/interface.go, internal.go, yaml.go and, in Database, database.go: tables
-- are lists of rows and SQL queries selections from them; Settings and Getters read
-- the table of settings   Manager    server/transport/session-manager.go and session.go: the table
-- of sessions, which are              shared by pointer and so live in a heap   Auth
-- server/transport/authentication.go, and getSession of server/transport/transport.go   Http
-- server/transport/handle-*.go: the POST handlers (handlePOST is Post.handle_post and
-- its answers are in Reply, handleA2APOST is A2aPost.handle_a2a_post, and what it
-- writes to a stream A2aPost.Wire), DELETE, and the stream of Get2024; the dispatch
-- of transport.go is Routing   Tools, Prompts              server/mcp/capability/tools.go and
-- prompts.go   Completion server/mcp/capability/completion.go   A2a        server/a2a: tasks.go is
-- Store, applyUpdateToTask is Update.apply_update,              handleTaskSend is
-- Send.handle_task_send (its end is Conclude, the table of              running handlers
-- Handlers), the other requests are in Requests, and the              goroutines of
-- handleTaskSendSubscribe are the steps of Stream   Resources  server/mcp/capability/resources.go:
-- the registry, the subscriptions, Requests and              Updated, the notices of a change
-- Gateway    gateway/capability: headers of backend requests, sessions to backends, the
-- combined list of tools with the routing of a call, and resources and prompts   McpClient
-- gateway/clients/mcpClient: a session with a backend MCP server (Open is open_session,
-- sendInitialize from its response on is initialize_response, processLoop is Loop, the
-- lists are Lists, the single requests Calls, executeSendRequest is in Posting)   A2aClient
-- gateway/clients/a2aClient: the agent card and responses; _processSSEStream is Sse   Discovery
-- gateway/clients/discovering: prioritizeResults and the handler; the attempts at MCP,
-- A2A and REST are in Probes
--
-- The parts meet as in the code: Input hands a handler's end to Session.Send.send_response and a
-- response to Session.Send.process_response; Auth asks Config who a key stands for and creates the
-- session through Manager; Http puts the messages of a body into Input, with the Validators in
-- front, and takes the answers from the session's channel; the handlers of Handshake run in Input;
-- Gateway reads the parameters that Auth stored; A2a.Stream sends its events through Session.Send.
-- A session of McpClient has one of Session in it, whose requests Posting posts and settles, and
-- whose lists come in pages as Session.Sync asks for them; A2aClient.Sse reads the lines that
-- Http.A2aPost.Wire writes.
--
-- Numbers are natural numbers; the message counter of a session wraps at 2 ^ 64, error codes and
-- indices are integers. Channels are lists with the capacities of the code: 100 messages for a
-- session and for the input processor, 20 updates for a handler, one error for the initialization
-- of a client session. Loops run over their lists. Decimal numbers are written with one step of
-- fuel for each unit, and a number has no more digits than that. The client's scanner of lines
-- holds less than 65536 bytes of one.
--
-- The clock, random identifiers, SHA-256, the JSON of a value and what a callback, a handler or a
-- validator does are arguments. Locks are left out: an operation that holds its lock is one step,
-- and an order of goroutines is a list of steps or a step relation. Logging is left out.
--
-- Not modelled: the cache of GetTools, so each call fetches the list of tools again; the limits of
-- 20 and 10 seconds of a discovery, which the outcomes of its attempts include; PostgreSQL, from
-- which Config.Database takes the meaning of its queries; start-up code, which is mostly calls of
-- libraries; the example servers, which stand beside the parts above and are not covered yet; the
-- portal, which is not part of the Go program.
pub mod Prelude
pub mod Dict
pub mod Jsonrpc
pub mod Requests
pub mod Session
pub mod Input
pub mod Completion
pub mod Config
pub mod Manager
pub mod Auth
pub mod A2a
pub mod Gateway
pub mod McpClient
pub mod A2aClient
pub mod Discovery
pub mod Resources
pub mod Handshake
pub mod Validators
pub mod Http
pub mod Tools
pub mod Prompts
