-- ===== src/Server/Open.antt =====
-- The opening of TCP streams: `_handleConnection` and `createAgentStream` of src/tcp/TcpRouter.js,
-- `createTcpStream` of src/server/StreamManager.js, and `_handleTcpConnect` and `_handleFrame` of
-- src/tcp/TcpAgentServer.js.
use nodejs_wss_service_bridg.Base.{
  ℕ, suc, ◌+◌, Bool, true, false, ◌&&◌, not, [], none, some, ◌==◌, leb, ltb, if◌then◌else◌, length,
}
use nodejs_wss_service_bridg.Base.Map
use nodejs_wss_service_bridg.Protocol.{tcp_open}
use nodejs_wss_service_bridg.Clients.{Clients, Sockets, get_active_client}
use nodejs_wss_service_bridg.Server.{
  Net, Config, Global, Run, Server, TcpStream, StreamSocket, nothing, decrement_count, no_info,
  json, socket_destroy, add_effect, can_send, send_frame, on_object, reset_idle_timeout,
}
use nodejs_wss_service_bridg.Server.Cleanup.{abort_tcp_stream, count_or}
use nodejs_wss_service_bridg.Server.Allocate.{allocate_stream_id}
use nodejs_wss_service_bridg.Server.AgentFrames.{on_global}

-- What the client manager's module reads of the WebSockets.
abbrev pub sockets : Net → Server → Sockets
sockets net s = record {
  is_open = net.is_open;
  buffered_amount = λ ws. net.buffered_amount ws s.global.out;
}

-- A socket of `node:net`, and what `createVirtualSocket` returns.
abbrev pub net_socket : StreamSocket
net_socket = record {
  is_virtual = false;
  destroyed = false;
  peer = 0;
  paused = false;
  buffered = [];
  buffered_bytes = 0;
  pending_drain = false;
  agent_notified = false;
  close_queued = false;
}

abbrev pub virtual_socket : ℕ → StreamSocket
virtual_socket agent = record net_socket { is_virtual = true; peer = agent }

-- The state object of `createTcpStream`, its timer set.
unfoldable pub new_stream : Config → ℕ → ℕ → ℕ → StreamSocket → TcpStream
unfolding reset_idle_timeout
new_stream config ws port id socket = reset_idle_timeout config.stream_idle_timeout_ms (record {
  id = id;
  ws = ws;
  server_port = port;
  cleaned = false;
  abort_sent = false;
  agent_paused = false;
  ws_backpressured = false;
  client_paused_for_agent = false;
  peer_paused_read = false;
  local_paused_for_ws = false;
  pending_sends = 0;
  timer = false;
  on_cleanup = nothing;
  agent_ws = none;
  awaiting_client_ack = false;
  target_tunnel_id = [];
  connect_request_id = none;
  on_client_open_confirmed = none;
  socket = socket;
})

-- A new object under its id: its reference is the server's `next_object` before.
unfoldable pub add_stream : TcpStream → Server → Server
add_stream stream s = record {
  global = record (s.global) { streams = Map.put stream.id s.next_object s.global.streams };
  objects = λ j. if s.next_object == j then stream else s.objects j;
  next_object = suc s.next_object;
}

-- TCP_OPEN to the tunnel client; where it cannot be sent, the stream is aborted.
unfoldable pub send_open : Net → Config → ℕ → Run → Run
unfolding can_send send_frame
send_open net config port r =
    if can_send net r.stream.ws
    then record r {
      global =
          send_frame net r.stream.ws tcp_open r.stream.id
            (json (record no_info { host = some config.tcp_tunnel_host; port = some port }))
            r.global;
    }
    else abort_tcp_stream net "Failed to send TCP_OPEN" false r

abbrev refuse_socket : ℕ → Server → Server
refuse_socket id s = on_global (add_effect (socket_destroy id)) s

abbrev pub per_port_full : ℕ → ℕ → Bool
per_port_full limit count = ltb 0 limit && leb limit count

-- The end of `_handleConnection`, with the client and the id at hand.
unfoldable pub open_connection : Net → Config → ℕ → ℕ → ℕ → Server → Server
unfolding new_stream add_stream send_open on_object
open_connection net config port ws id s =
    let count = count_or 0 (Map.get port s.global.conn_count) in
    let counted =
      on_global (λ g. record g { conn_count = Map.put port (count + 1) g.conn_count }) s in
    let stream : TcpStream = record (new_stream config ws port id net_socket) {
      on_cleanup = decrement_count port false;
    } in
    on_object s.next_object (send_open net config port) (add_stream stream counted)

abbrev pub set_global : Server → Global → Server
set_global s g = record s { global = g }

-- `_handleConnection` for a socket of `node:net`; `allowed` is the answer of `isIpAllowed`. A refused
-- socket is destroyed; it has no stream, so the effect names the id 0.
unfoldable pub handle_connection : Net → Config → Bool → Clients → ℕ → Server → Server
unfolding open_connection allocate_stream_id get_active_client
handle_connection net config allowed clients port s =
    let count = count_or 0 (Map.get port s.global.conn_count) in
    let (id, g) = allocate_stream_id s.global in
    if not allowed
    then refuse_socket 0 s
    else if per_port_full config.tcp_max_connections_per_port count
    then refuse_socket 0 s
    else if leb config.max_concurrent_streams (length s.global.streams)
    then refuse_socket 0 s
    else elim (get_active_client (sockets net s) clients) [
      | none ↦ refuse_socket 0 s
      | some ws ↦ elim id [
        | none ↦ refuse_socket 0 (set_global s g)
        | some new ↦ open_connection net config port ws new (set_global s g)
      ]
    ]
