-- ===== src/Server.antt =====
-- The state that the server's modules share: src/server/StreamManager.js (the table of streams),
-- src/tcp/TcpRouter.js and src/tcp/TcpAgentServer.js (the counts of connections), and one TCP stream
-- with its socket. A WebSocket is a number. A step reads what the WebSocket library answers from
-- `Net`, and adds what it sends or calls to `out`, newest first.
pub mod Cleanup
pub mod Socket
pub mod ClientFrames
pub mod AgentFrames
pub mod Open
pub mod Connect
pub mod Allocate
pub mod Counting
pub mod Listeners
pub mod Lifecycle
pub mod Silence
pub mod Disconnect
pub mod Relay
pub mod Faults
use text.Mathlib.Text.{◌==◌ as str_eq}
use nodejs_wss_service_bridg.Base.{
  ℕ, Bool, true, false, ◌&&◌, ◌||◌, not, List, [], ◌∷◌, Option, none, some, String, ◌==◌,
  if◌then◌else◌,
}
use nodejs_wss_service_bridg.Base.Text.{Text}
use nodejs_wss_service_bridg.Protocol.{Bytes, Frame, pause, resume}
use nodejs_wss_service_bridg.TunnelId.{IdError}

-- The fields of the JSON payloads of TCP frames; an absent field is `none`. A message that ends with
-- an interpolated text has this text in `detail`.
pub record Info : Type 0 where
  pub message : Option String
  pub detail : Text
  pub host : Option String
  pub port : Option ℕ
  pub request_id : Option ℕ
  pub target_tunnel_id : Option Text

abbrev pub no_info : Info
no_info = record {
  message = none;
  detail = [];
  host = none;
  port = none;
  request_id = none;
  target_tunnel_id = none;
}

abbrev pub says : String → Info
says text = record no_info { message = some text }

pub data Body : Type 0 where
  empty : Body
  bytes : Bytes → Body
  json : Info → Body

-- A frame handed to `ws.send`, or a call of a TCP socket of `node:net` by its stream's id.
pub data Effect : Type 0 where
  send : ℕ → ℕ → ℕ → Body → Effect
  socket_pause socket_resume socket_destroy : ℕ → Effect
  socket_write : ℕ → Bytes → Effect

-- `readyState === OPEN`, "`send` does not throw", `bufferedAmount` after the effects so far, and the
-- answer of `write` of a TCP socket, `none` for a throw.
pub record Net : Type 0 where
  pub is_open : ℕ → Bool
  pub accepts : ℕ → Bool
  pub buffered_amount : ℕ → List Effect → ℕ
  pub socket_write_result : Option Bool

pub record Config : Type 0 where
  pub max_concurrent_streams : ℕ
  pub stream_idle_timeout_ms : ℕ
  pub ws_high_water : ℕ
  pub ws_low_water : ℕ
  pub max_dest_buffer_bytes : ℕ
  pub tcp_tunnel_host : String
  pub tcp_max_connections_per_port : ℕ
  pub allowed_ports : List ℕ
  pub max_connections_per_port : ℕ
  pub max_streams_per_agent : ℕ

-- `streams` maps a stream's id to its state object; `conn_count` is the router's
-- `_connCountByPort`, `agent_conn_count` the agent server's, `agent_streams` its `_agentStreams`.
pub record Global : Type 0 where
  pub streams : List (ℕ × ℕ)
  pub next_stream_id : ℕ
  pub conn_count : List (ℕ × ℕ)
  pub agent_conn_count : List (ℕ × ℕ)
  pub agent_streams : List (ℕ × List ℕ)
  pub out : List Effect

-- The socket of a stream: of `node:net`, or virtual (src/tcp/VirtualSocket.js), whose closure
-- variables these are. `close_queued` is the microtask of `abort`.
pub record StreamSocket : Type 0 where
  pub is_virtual : Bool
  pub destroyed : Bool
  pub peer : ℕ
  pub paused : Bool
  pub buffered : List Bytes
  pub buffered_bytes : ℕ
  pub pending_drain : Bool
  pub agent_notified : Bool
  pub close_queued : Bool

-- The closure `onCleanup`: the router's `decrementCount` with its flag, or the agent server's.
pub data OnCleanup : Type 0 where
  nothing : OnCleanup
  decrement_count : ℕ → Bool → OnCleanup
  release_agent : ℕ → ℕ → OnCleanup

-- The closure `onClientOpenConfirmed`.
pub record Confirm : Type 0 where
  pub agent : ℕ
  pub port : ℕ
  pub request_id : Option ℕ
  pub target_tunnel_id : Text

pub record TcpStream : Type 0 where
  pub id : ℕ
  pub ws : ℕ
  pub server_port : ℕ
  pub cleaned : Bool
  pub abort_sent : Bool
  pub agent_paused : Bool
  pub ws_backpressured : Bool
  pub client_paused_for_agent : Bool
  pub peer_paused_read : Bool
  pub local_paused_for_ws : Bool
  pub pending_sends : ℕ
  pub timer : Bool
  pub on_cleanup : OnCleanup
  pub agent_ws : Option ℕ
  pub awaiting_client_ack : Bool
  pub target_tunnel_id : Text
  pub connect_request_id : Option ℕ
  pub on_client_open_confirmed : Option Confirm
  pub socket : StreamSocket

-- A step on one stream: the shared state and the stream's own.
pub record Run : Type 0 where
  pub global : Global
  pub stream : TcpStream

abbrev pub with_stream : Run → TcpStream → Run
with_stream r s = record r { stream = s }

abbrev pub with_socket : Run → StreamSocket → Run
with_socket r k = record r { stream = record (r.stream) { socket = k } }

abbrev pub add_effect : Effect → Global → Global
add_effect e g = record g { out = e ∷ g.out }

abbrev pub emit : Effect → Run → Run
emit e r = record r { global = add_effect e r.global }

-- `sendFrame` and `sendJsonFrame`, for a socket that is not null: whether the frame was handed over.
unfoldable pub can_send : Net → ℕ → Bool
can_send net ws = net.is_open ws && net.accepts ws

unfoldable pub send_frame : Net → ℕ → ℕ → ℕ → Body → Global → Global
unfolding can_send
send_frame net ws type id body g =
    if can_send net ws then add_effect (send ws type id body) g else g

abbrev pub send_on : Net → ℕ → ℕ → Body → Run → Run
send_on net ws type body r = record r { global = send_frame net ws type r.stream.id body r.global }

-- `reason || fallback`
abbrev pub or_default : String → String → String
or_default reason fallback = if str_eq reason "" then fallback else reason

-- src/shared/idle-timeout.js: the old timer is cleared; no new one is set for the timeout 0.
unfoldable pub reset_idle_timeout : ℕ → TcpStream → TcpStream
reset_idle_timeout timeout_ms s = record s { timer = if timeout_ms == 0 then false else true }

-- What `JSON.parse` gives for a payload: reading a field of `null` throws, and any other value is
-- known by the fields above.
pub data Json : Type 0 where
  null : Json
  object : Info → Json

-- All streams: their state objects by reference. An object that is not in `streams` is kept, since
-- closures still refer to it.
pub record Server : Type 0 where
  pub global : Global
  pub objects : ℕ → TcpStream
  pub next_object : ℕ

-- A step of one state object.
unfoldable pub on_object : ℕ → (Run → Run) → Server → Server
on_object ref step s =
    let r = step (record { global = s.global; stream = s.objects ref }) in
    record s { global = r.global; objects = λ j. if ref == j then r.stream else s.objects j }
