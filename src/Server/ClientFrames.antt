-- ===== src/Server/ClientFrames.antt =====
-- `handleClientFrame` of src/server/StreamManager.js at a TCP stream: what a frame of the tunnel
-- client does.
use nodejs_wss_service_bridg.Base.{
  ℕ, ◌*◌, true, false, ◌&&◌, ◌||◌, not, Option, none, some, String, ◌==◌, if◌then◌else◌, ok, err,
}
use nodejs_wss_service_bridg.Base.Map
use nodejs_wss_service_bridg.Base.Text.{Text, is_empty}
use nodejs_wss_service_bridg.Protocol.{
  Bytes, Message, parse_frame, parse_json_payload, pause, resume, tcp_data, tcp_close, tcp_abort,
  tcp_open_ack, tcp_connect_ack, res_meta, res_data, res_end, res_abort,
}
use nodejs_wss_service_bridg.Server.{
  Net, Config, Run, Confirm, Server, Json, null, object, Info, no_info, json, with_stream,
  send_frame, reset_idle_timeout, on_object, or_default,
}
use nodejs_wss_service_bridg.Server.Cleanup.{
  cleanup_tcp_stream, abort_tcp_stream, sync_tcp_backpressure,
}
use nodejs_wss_service_bridg.Server.Socket.{sync_socket_read_state, write_socket}

abbrev pub json_limit : ℕ
json_limit = 64 * 1024

-- `parseJsonPayload(payload)` with its exception caught: no information.
abbrev pub parse_info : (Bytes → Option Json) → Bytes → Json
parse_info parse payload = elim (parse_json_payload parse json_limit payload) [
  | ok j ↦ j
  | err e ↦ object no_info
]

abbrev pub id_field : Text → Option Text
id_field id = if is_empty id then none else some id

-- The closure `onClientOpenConfirmed`.
unfoldable pub confirm : Net → Option Confirm → Run → Run
unfolding send_frame
confirm net none r = r
confirm net (some c) r = if r.stream.cleaned then r else record r {
  global =
      send_frame net c.agent tcp_connect_ack r.stream.id
        (json (record no_info {
          port = some c.port;
          request_id = c.request_id;
          target_tunnel_id = id_field c.target_tunnel_id;
        }))
        r.global;
}

unfoldable pub handle_tcp_data : Net → Config → Bytes → Run → Run
unfolding write_socket sync_tcp_backpressure abort_tcp_stream
handle_tcp_data net config payload r =
    let (w, answer) = write_socket net config payload r in
    if r.stream.socket.destroyed then r else elim answer [
      | none ↦ abort_tcp_stream net "Failed to write TCP socket" true w
      | some taken ↦
          if not taken && not w.stream.ws_backpressured
          then sync_tcp_backpressure net
              (with_stream w (record (w.stream) { ws_backpressured = true }))
          else w
    ]

unfoldable pub handle_open_ack : Net → Run → Run
unfolding confirm
handle_open_ack net r =
    if r.stream.awaiting_client_ack
    then confirm net r.stream.on_client_open_confirmed
        (with_stream r (record (r.stream) { awaiting_client_ack = false }))
    else r

abbrev pub client_message : Info → String
client_message info = elim info.message [
  | none ↦ "Client aborted"
  | some m ↦ or_default m "Client aborted"
]

-- The agent whose connect is not acknowledged yet is told by a rejection.
unfoldable pub reject_connect : Net → Info → Run → Run
unfolding send_frame
reject_connect net info r = elim r.stream.agent_ws [
  | none ↦ r
  | some agent ↦
      if r.stream.awaiting_client_ack && net.is_open agent
      then record {
        global =
            send_frame net agent tcp_abort 0
              (json (record no_info {
                port = some r.stream.server_port;
                request_id = r.stream.connect_request_id;
                target_tunnel_id = id_field r.stream.target_tunnel_id;
                message = some (client_message info);
              }))
              r.global;
        stream = record (r.stream) { awaiting_client_ack = false };
      }
      else r
]

unfoldable pub handle_client_abort : Net → Json → Run → Run
unfolding reject_connect abort_tcp_stream
handle_client_abort net null r = abort_tcp_stream net "Bad frame from tunnel client" false r
handle_client_abort net (object info) r =
    abort_tcp_stream net (client_message info) false (reject_connect net info r)

-- `cleanupStream`, the end of an HTTP stream, as it acts on the state of a TCP stream: this has no
-- request, response or writer to destroy.
unfoldable pub cleanup_stream : Run → Run
cleanup_stream r = if r.stream.cleaned then r else record {
  global = record (r.global) { streams = Map.delete r.stream.id r.global.streams };
  stream = record (r.stream) { cleaned = true; timer = false };
}

-- The `switch` at a TCP stream. RES_META fails there, since the state has no request. The other
-- frames of a response end the stream as an HTTP stream.
unfoldable pub client_frame : Net → Config → (Bytes → Option Json) → ℕ → Bytes → Run → Run
unfolding handle_tcp_data handle_open_ack handle_client_abort cleanup_stream cleanup_tcp_stream
    sync_socket_read_state
client_frame net config parse type payload r =
    if type == res_meta
    then abort_tcp_stream net "Bad frame from tunnel client" false r
    else if type == res_data || (type == res_end || type == res_abort)
    then cleanup_stream r
    else if type == pause
    then sync_socket_read_state net config
        (with_stream r (record (r.stream) { peer_paused_read = true }))
    else if type == resume
    then sync_socket_read_state net config
        (with_stream r (record (r.stream) { peer_paused_read = false }))
    else if type == tcp_data
    then handle_tcp_data net config payload r
    else if type == tcp_close
    then cleanup_tcp_stream net r
    else if type == tcp_open_ack
    then handle_open_ack net r
    else if type == tcp_abort
    then handle_client_abort net (parse_info parse payload) r
    else r

abbrev pub timed : Config → Run → Run
timed config r = with_stream r (reset_idle_timeout config.stream_idle_timeout_ms r.stream)

-- `handleClientFrame`
unfoldable pub handle_client_frame :
    Net → Config → (Bytes → Option Json) → ℕ → Message → Server → Server
unfolding client_frame on_object
handle_client_frame net config parse ws message s = elim (parse_frame message) [
  | err e ↦ s
  | ok f ↦ elim (Map.get f.stream_id s.global.streams) [
    | none ↦ s
    | some ref ↦
        if (s.objects ref).ws == ws
        then on_object ref (λ r. client_frame net config parse f.type f.payload (timed config r)) s
        else s
  ]
]
