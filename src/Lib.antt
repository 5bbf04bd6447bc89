-- ===== src/Lib.antt =====
-- The bridge of TCP and HTTP services over WebSockets: a server, tunnel clients beside the services,
-- and agents beside the users of TCP services. A tunnel client holds one WebSocket to the server; the
-- server opens a numbered stream on it for each connection to one of its ports (TcpRouter) and for
-- each request of an agent (TcpAgentServer) or of an HTTP user (HttpRouter), and both sides exchange
-- binary frames for the stream. An HTTP exchange is modelled with the table of streams that it stands
-- in; the agent, like the tunnel client, keeps its objects in a store by reference.
--
-- Files, with the code that they model:
--   Protocol        src/shared/protocol.js: frame types, FrameCodec, toBuffer
--   TunnelId        src/shared/tunnel-id.js
--   PortParser      src/shared/port-parser.js: parseAgentPorts, parseAgentRoutes
--   Writer          src/server/WsFrameWriter.js
--   Clients         src/server/ClientManager.js
--   Server          the state shared by src/server/StreamManager.js, src/tcp/TcpRouter.js and
--                   src/tcp/TcpAgentServer.js, and the state of a TCP stream with its socket
--   Server/Cleanup  the ends of a TCP stream (cleanupTcpStream, abortTcpStream, destroy, abort)
--   Server/Socket   the listeners of a stream's socket and src/tcp/VirtualSocket.js
--   Server/ClientFrames, AgentFrames   frames of tunnel clients (handleClientFrame) and of agents
--   Server/Open, Connect, Allocate     new streams: TcpRouter, TcpAgentServer, allocateStreamId
--   Server/Disconnect  the loss of a tunnel client (cleanupClient with its loop, cleanupStreamsForWs)
--   Server/Counting, Listeners, Lifecycle, Silence, Relay, Faults   what is proved of them
--   TunnelClient    serve/client.js with src/tcp/TcpClientHandler.js: TcpHandler, LocalSocket,
--                   Frames, Dispatch (handleServerFrame), Requests (handleReqMeta), Responses (the
--                   listeners that it sets) and Connection model them; Table, Events, Disconnect,
--                   Leaks and Requests/Bodies prove
--   TcpAgent        serve/tcp-agent.js: Local (the listeners of the local ports), Streams, Frames,
--                   Ready and Connection model it; Table, Readiness, Events, Disconnect and Requests
--                   prove
--   Http            HTTP over the tunnel on the server: Streams and Frames model the HTTP streams of
--                   src/server/StreamManager.js, Events their events; Forward, Router and Upgrade
--                   model src/server/HttpRouter.js; Headers and Auth src/shared/utils.js
--   IpAllowlist     src/shared/ipAllowlist.js
--   Config          src/shared/config.js: the readers of environment variables, validateConfig
--   Objects         the store of state objects of the tunnel client and of the agent
--   Tests           the theorems at concrete inputs
--   Base            numbers, lists, maps and texts
--
-- An operation is a function from state to state with the frames sent and the calls of sockets
-- collected in `out`, newest first; an exception is an `err`, a `none` or the constructor `threw`. On
-- the server a step acts on a `Run`, the shared state with the state object of one stream; `on_object`
-- performs it in the store of all objects. The tunnel client keeps its objects in a store by
-- reference, since listeners still hold an object that has left the table. What the libraries answer
-- (readyState, bufferedAmount, whether `send` throws, JSON.parse, `write` of a socket) is a parameter.
-- Logging is left out.
--
-- Bounds: the loop of `_sendChunk` has as fuel the length of the chunk, of which each round sends at
-- least one byte; the loop of allocateStreamId has the source's own bound of 0xffffffff rounds.
--
-- Not modelled: the landing page, the install script and the configuration endpoint of the HTTP
-- router, src/server/TunnelServer.js, which connects the parts to node:http and ws, logging, and
-- the scripts of the build and the installation.
pub mod Base
pub mod Objects
pub mod Protocol
pub mod TunnelId
pub mod PortParser
pub mod Writer
pub mod Clients
pub mod Server
pub mod Config
pub mod IpAllowlist
pub mod Http
pub mod TunnelClient
pub mod TcpAgent
pub mod Tests
