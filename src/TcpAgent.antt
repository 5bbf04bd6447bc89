-- ===== src/TcpAgent.antt =====
-- The state of the TCP agent, serve/tcp-agent.js. A local socket is a number; the entry of a stream is
-- a state object by reference, since the listeners of its socket keep it.
pub mod Ready
pub mod Streams
pub mod Local
pub mod Frames
pub mod Connection
pub mod Table
pub mod Cleanup
pub mod Readiness
pub mod Events
pub mod Disconnect
pub mod Requests
use nodejs_wss_service_bridg.Base.{
  ℕ, Bool, true, false, ◌&&◌, List, [], ◌∷◌, Option, none, some, String, ◌==◌, if◌then◌else◌,
}
use nodejs_wss_service_bridg.Base.Text.{Text}
use nodejs_wss_service_bridg.Objects.{set}
use nodejs_wss_service_bridg.PortParser.{Route}
use nodejs_wss_service_bridg.Protocol.{Bytes}

-- The variable `ws`: null, or a WebSocket by its `readyState`.
pub data WebSocket : Type 0 where
  missing connecting opened closing closed : WebSocket

-- The fields of TCP_CONNECT.
pub record ConnectInfo : Type 0 where
  pub port : ℕ
  pub request_id : ℕ
  pub target_tunnel_id : Option Text

pub data Body : Type 0 where
  empty : Body
  bytes : Bytes → Body
  connect_info : ConnectInfo → Body
  message : String → Body

-- A frame handed to `ws.send`, or a call of a socket, a listener, the WebSocket or the process.
pub data Effect : Type 0 where
  send : ℕ → ℕ → Body → Effect
  socket_pause socket_resume socket_destroy socket_end : ℕ → Effect
  socket_write : ℕ → Bytes → Effect
  close_listener : ℕ → Effect
  new_websocket close_websocket : Effect
  exit : ℕ → Effect

-- What the libraries answer after the effects so far: "`ws.send` does not throw", `bufferedAmount`,
-- `write` of a local socket (`none` for a throw), and whether the ready file could be written.
pub record Net : Type 0 where
  pub accepts : List Effect → Bool
  pub buffered_amount : List Effect → ℕ
  pub socket_write_result : ℕ → List Effect → Option Bool
  pub file_written : Bool

-- `has_ready_file` says that AGENT_READY_FILE is set, `file_removed` that `rmSync` of that file does not
-- throw.
pub record Config : Type 0 where
  pub routes : List Route
  pub ws_high_water : ℕ
  pub ws_low_water : ℕ
  pub reconnect_delay_ms : ℕ
  pub has_ready_file : Bool
  pub file_removed : Bool

-- An element of `pendingConnects`.
pub record Pending : Type 0 where
  pub local_socket : ℕ
  pub local_port : ℕ
  pub target_port : ℕ
  pub target_tunnel_id : Text
  pub request_id : ℕ

-- A value of `streamedSockets`.
pub record Entry : Type 0 where
  pub socket : ℕ
  pub stream_id : ℕ
  pub pending_sends : ℕ
  pub paused_for_ws : Bool
  pub peer_paused_read : Bool
  pub local_write_backpressured : Bool
  pub cleaned : Bool

-- `ready_file` says that the ready file is there; `destroyed`, the field of a local socket.
pub record Agent : Type 0 where
  pub ws : WebSocket
  pub reconnect_timer : Bool
  pub reconnect_delay : ℕ
  pub reconnect_attempt : ℕ
  pub auth_failed : Bool
  pub shutting_down : Bool
  pub next_connect_request_id : ℕ
  pub streamed_sockets : List (ℕ × ℕ)
  pub entries : ℕ → Entry
  pub next_entry : ℕ
  pub pending_connects : List Pending
  pub listening_ports : List ℕ
  pub ready : Bool
  pub ready_file : Bool
  pub destroyed : ℕ → Bool
  pub out : List Effect

abbrev pub emit : Effect → Agent → Agent
emit e a = record a { out = e ∷ a.out }

abbrev pub change : ℕ → Entry → Agent → Agent
change ref e a = record a { entries = set ref e a.entries }

abbrev pub is_opened : WebSocket → Bool
is_opened opened = true
is_opened _ = false

abbrev pub is_missing : WebSocket → Bool
is_missing missing = true
is_missing _ = false

-- `wsReady`
abbrev pub ws_ready : Agent → Bool
ws_ready a = is_opened a.ws

-- `sendFrame` and `sendJsonFrame`
unfoldable pub send_frame : Net → ℕ → ℕ → Body → Agent → Agent
send_frame net type id body a =
    if ws_ready a && net.accepts a.out then emit (send type id body) a else a

-- `socket.destroy()`
abbrev pub destroy : ℕ → Agent → Agent
destroy socket a = record (emit (socket_destroy socket) a) {
  destroyed = set socket true a.destroyed;
}
