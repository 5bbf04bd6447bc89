-- ===== src/Server/Connect.antt =====
-- The opening of an agent's stream: `createAgentStream` of src/tcp/TcpRouter.js, and
-- `_handleTcpConnect` and `_handleFrame` of src/tcp/TcpAgentServer.js.
use nodejs_wss_service_bridg.Base.{
  ℕ, ◌+◌, ◌^◌, Bool, true, false, ◌&&◌, ◌||◌, not, List, [], ◌∷◌, ◌++◌, Option, none, some, String,
  ◌==◌, leb, ltb, if◌then◌else◌, has, length, Result, ok, err,
}
use nodejs_wss_service_bridg.Base.Map
use nodejs_wss_service_bridg.Base.Text.{Text, is_empty}
use nodejs_wss_service_bridg.TunnelId.{IdError, normalize_tunnel_id}
use nodejs_wss_service_bridg.Protocol.{Bytes, Message, parse_frame, tcp_abort, tcp_connect}
use nodejs_wss_service_bridg.Clients.{
  Clients, Target, found, not_found, TargetError, invalid_id, not_connected, no_client, id_required,
  resolve_target_client,
}
use nodejs_wss_service_bridg.Server.{
  Net, Config, Server, TcpStream, release_agent, Json, null, object, Info, no_info, json, says,
  can_send, send_frame, on_object,
}
use nodejs_wss_service_bridg.Server.Cleanup.{count_or}
use nodejs_wss_service_bridg.Server.Allocate.{allocate_stream_id}
use nodejs_wss_service_bridg.Server.ClientFrames.{id_field, parse_info}
use nodejs_wss_service_bridg.Server.AgentFrames.{handle_stream_frame, on_global}
use nodejs_wss_service_bridg.Server.Open.{
  sockets, virtual_socket, new_stream, add_stream, send_open, per_port_full, set_global,
}

abbrev pub id_message : String
id_message =
    "targetTunnelId must be 1-64 characters, start with a letter or digit, and contain only letters, digits, \".\", \"_\", or \"-\""

-- The message of a refusal and the text that it ends with.
abbrev pub target_message : TargetError → String × Text
target_message (invalid_id e) = (id_message, [])
target_message (not_connected id) = ("Tunnel target not connected: ", id)
target_message no_client = ("No tunnel client connected", [])
target_message id_required =
    ("Target tunnel ID is required when multiple tunnel clients are connected", [])

-- `{ error }`, or `{ state, streamId, targetTunnelId }` with the reference of the state object.
pub data Opened : Type 0 where
  failed : String × Text → Opened
  opened : ℕ → ℕ → Text → Opened

-- `createAgentStream` with the target and the id at hand.
unfoldable pub open_agent_stream : Net → Config → ℕ → ℕ → ℕ → ℕ → Text → Server → Server × Opened
unfolding new_stream add_stream send_open on_object can_send
open_agent_stream net config agent port ws id target s =
    let stream : TcpStream = record (new_stream config ws port id (virtual_socket agent)) {
      agent_ws = some agent;
      awaiting_client_ack = true;
      target_tunnel_id = target;
    } in
    (
      on_object s.next_object (send_open net config port) (add_stream stream s),
      if can_send net ws
          then opened s.next_object id target
          else failed ("Failed to send TCP_OPEN", []),
    )

abbrev pub resolved : Result IdError Target → Target
resolved (ok t) = t
resolved (err e) = not_found (invalid_id e)

-- `createAgentStream`
unfoldable pub create_agent_stream :
    Net → Config → Clients → ℕ → ℕ → Text → Server → Server × Opened
unfolding open_agent_stream allocate_stream_id resolve_target_client
create_agent_stream net config clients agent port target s =
    elim (resolved (resolve_target_client (sockets net s) clients target)) [
      | not_found e ↦ (s, failed (target_message e))
      | found ws named ↦
          let (id, g) = allocate_stream_id s.global in
          if leb config.max_concurrent_streams (length s.global.streams)
          then (s, failed ("Too many concurrent streams", []))
          else elim id [
            | none ↦ (set_global s g, failed ("No available stream id", []))
            | some new ↦ open_agent_stream net config agent port ws new named (set_global s g)
          ]
    ]

-- A request to connect, its fields read: `Number.isInteger(port)` and `hasRequestId` hold where the
-- field is `some`.
pub record Request : Type 0 where
  pub port : Option ℕ
  pub request_id : Option ℕ
  pub target : Text

-- `Number.isSafeInteger(requestId) && requestId > 0`
abbrev pub valid_request_id : Option ℕ → Option ℕ
valid_request_id none = none
valid_request_id (some n) = if ltb 0 n && ltb n (2 ^ 53) then some n else none

abbrev pub is_some : Option ℕ → Bool
is_some none = false
is_some (some n) = true

-- The body of `reject`.
abbrev pub rejection : Request → String × Text → Info
rejection q m =
    if is_some q.request_id || not (is_empty q.target)
    then record no_info {
      message = some m.0;
      detail = m.1;
      port = q.port;
      request_id = q.request_id;
      target_tunnel_id = id_field q.target;
    }
    else record no_info { message = some m.0; detail = m.1 }

unfoldable pub reject : Net → ℕ → Request → String × Text → Server → Server
unfolding send_frame
reject net agent q m s = on_global (send_frame net agent tcp_abort 0 (json (rejection q m))) s

-- The exception of a method of a missing set, which `_handleFrame` catches.
unfoldable pub frame_error : Net → ℕ → ℕ → Server → Server
unfolding send_frame
frame_error net agent id s =
    on_global (send_frame net agent tcp_abort id (json (says "Frame handling error"))) s

-- `this._agentStreams.get(ws).add(streamId)`
unfoldable pub own_stream : Net → ℕ → ℕ → Server → Server
unfolding frame_error
own_stream net agent id s = elim (Map.get agent s.global.agent_streams) [
  | none ↦ frame_error net agent 0 s
  | some owned ↦
      on_global
        (λ g. record g {
          agent_streams =
              Map.put agent (if has id owned then owned else owned ++ id ∷ []) g.agent_streams;
        })
        s
]

-- What `_handleTcpConnect` does with an opened stream: `count` was read before it was opened.
unfoldable pub register_stream : Net → ℕ → Request → ℕ → ℕ → ℕ → ℕ → Text → Server → Server
unfolding own_stream on_object
register_stream net agent q port count ref id target s = own_stream net agent id (
    on_object ref
      (λ r. record r {
        stream = record (r.stream) {
          connect_request_id = q.request_id;
          on_client_open_confirmed = some (record {
            agent = agent;
            port = port;
            request_id = q.request_id;
            target_tunnel_id = target;
          });
          on_cleanup = release_agent port agent;
        };
      })
      (on_global (λ g. record g { agent_conn_count = Map.put port (count + 1) g.agent_conn_count })
        s))

abbrev pub agent_full : Config → Option (List ℕ) → Bool
agent_full config none = false
agent_full config (some owned) = per_port_full config.max_streams_per_agent (length owned)

abbrev pub is_missing : Option (List ℕ) → Bool
is_missing none = true
is_missing (some owned) = false

unfoldable pub connect_on_port : Net → Config → Clients → ℕ → Request → ℕ → Server → Server
unfolding create_agent_stream register_stream reject frame_error
connect_on_port net config clients agent q port s =
    let count = count_or 0 (Map.get port s.global.agent_conn_count) in
    let owned = Map.get agent s.global.agent_streams in
    let (s', result) = create_agent_stream net config clients agent port q.target s in
    if not (has port config.allowed_ports)
    then reject net agent q ("Port not allowed", []) s
    else if per_port_full config.max_connections_per_port count
    then reject net agent q ("Per-port connection limit reached", []) s
    else if ltb 0 config.max_streams_per_agent && is_missing owned
    then frame_error net agent 0 s
    else if agent_full config owned
    then reject net agent q ("Agent stream limit reached", []) s
    else elim result [
      | failed m ↦ reject net agent q m s'
      | opened ref id target ↦ register_stream net agent q port count ref id target s'
    ]

-- `_handleTcpConnect`
unfoldable pub handle_tcp_connect : Net → Config → Clients → ℕ → Json → Server → Server
unfolding connect_on_port reject frame_error
handle_tcp_connect net config clients agent null s = frame_error net agent 0 s
handle_tcp_connect net config clients agent (object info) s =
    let request_id = valid_request_id info.request_id in
    elim (normalize_tunnel_id false info.target_tunnel_id) [
      | err e ↦
          on_global
            (send_frame net agent tcp_abort 0 (
              json (record no_info {
                message = some id_message;
                request_id = request_id;
                port = info.port;
              })))
            s
      | ok target ↦
          let q : Request = record { port = info.port; request_id = request_id; target = target } in
          elim info.port [
            | none ↦ reject net agent q ("Port not allowed", []) s
            | some port ↦ connect_on_port net config clients agent q port s
          ]
    ]

-- `_handleFrame`
unfoldable pub handle_agent_frame :
    Net → Config → (Bytes → Option Json) → Clients → ℕ → Message → Server → Server
unfolding handle_tcp_connect handle_stream_frame send_frame
handle_agent_frame net config parse clients agent message s = elim (parse_frame message) [
  | err e ↦ on_global (send_frame net agent tcp_abort 0 (json (says "Invalid frame"))) s
  | ok f ↦
      if f.type == tcp_connect
      then (if f.stream_id == 0
          then handle_tcp_connect net config clients agent (parse_info parse f.payload) s
          else on_global
              (send_frame net agent tcp_abort f.stream_id
                (json (says "Invalid TCP_CONNECT streamId")))
              s)
      else handle_stream_frame net config parse agent f.type f.stream_id f.payload s
]
