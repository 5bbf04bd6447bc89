-- ===== src/TunnelClient.antt =====
-- The state of a tunnel client: serve/client.js (the table of streams and their ends) with
-- src/tcp/TcpClientHandler.js. A WebSocket is a number; a state object is known by its reference,
-- which also names its local socket, its local HTTP request and its response writer.
pub mod TcpHandler
pub mod LocalSocket
pub mod Frames
pub mod Table
pub mod Events
pub mod Disconnect
pub mod Leaks
pub mod Connection
pub mod Requests
pub mod Responses
pub mod Dispatch
use nodejs_wss_service_bridg.Base.{
  ℕ, Bool, true, false, ◌&&◌, List, [], ◌∷◌, Option, none, some, String, ◌==◌, if◌then◌else◌,
}
use nodejs_wss_service_bridg.Base.Map.{put, delete}
use nodejs_wss_service_bridg.Base.Text.{Text}
use nodejs_wss_service_bridg.Protocol.{Bytes}
use nodejs_wss_service_bridg.Http.{Value}

-- The message of an abort.
pub data Reason : Type 0 where
  invalid_open too_many_streams ws_closed send_failed connect_timeout write_failed : Reason
  idle_timeout bad_frame request_write_failed : Reason
  too_many_requests duplicate_stream_id invalid_req_meta target_failed : Reason
  response_writer_error : Reason
  response_pipeline_error local_request_error : String → Reason
  host_not_allowed : Option String → Reason
  local_error : String → Reason

pub data Body : Type 0 where
  empty empty_object : Body
  bytes : Bytes → Body
  message : Reason → Body
  response_meta : ℕ → Text → List (Text × Value) → Body

-- A frame handed to `ws.send`, or a call of a local socket, request, response or writer.
pub data Effect : Type 0 where
  send : ℕ → ℕ → ℕ → Body → Effect
  connect : ℕ → Option String → Option ℕ → Effect
  socket_pause socket_resume socket_destroy : ℕ → Effect
  socket_write : ℕ → Bytes → Effect
  request_write : ℕ → Bytes → Effect
  request_open : ℕ → Text → Text → Text → List (Text × Value) → Effect
  request_end request_destroy response_destroy writer_destroy : ℕ → Effect
  writer_paused : ℕ → Bool → Effect

-- What the WebSocket library and Node answer: `readyState === OPEN`, "`send` does not throw",
-- `bufferedAmount`, `write` of a local socket (`none` for a throw), "`write` of a local request does
-- not throw" and the request's `destroyed`.
pub record Net : Type 0 where
  pub is_open : ℕ → Bool
  pub accepts : ℕ → Bool
  pub buffered_amount : ℕ → List Effect → ℕ
  pub socket_write_result : ℕ → List Effect → Option Bool
  pub request_accepts : ℕ → List Effect → Bool
  pub request_destroyed : ℕ → List Effect → Bool

pub record Config : Type 0 where
  pub max_concurrent_streams : ℕ
  pub stream_idle_timeout_ms : ℕ
  pub max_frame_payload : ℕ
  pub allowed_hosts : List String
  pub ws_high_water : ℕ
  pub ws_low_water : ℕ

-- A state object, with the closure variable `localConnected`. `local_socket`, `response_writer`,
-- `local_req` and `local_res` say that the field is neither null nor missing; `timer`, that a timer
-- is set.
pub record Stream : Type 0 where
  pub id : ℕ
  pub ws : ℕ
  pub is_tcp : Bool
  pub local_socket : Bool
  pub cleaned : Bool
  pub local_write_backpressured : Bool
  pub peer_paused_read : Bool
  pub local_paused_for_ws : Bool
  pub pending_sends : ℕ
  pub timer : Bool
  pub local_connected : Bool
  pub request_ended : Bool
  pub response_started : Bool
  pub response_ended : Bool
  pub response_writer : Bool
  pub local_req : Bool
  pub local_res : Bool

-- `streams` maps a stream's id to its state object; a cleaned object stays, since closures refer to it.
pub record Client : Type 0 where
  pub streams : List (ℕ × ℕ)
  pub objects : ℕ → Stream
  pub next_object : ℕ
  pub socket_destroyed : ℕ → Bool
  pub out : List Effect

abbrev pub change : ℕ → Stream → Client → Client
change ref s c = record c { objects = λ j. if ref == j then s else c.objects j }

abbrev pub emit : Effect → Client → Client
emit e c = record c { out = e ∷ c.out }

-- `sendFrame` and `sendJsonFrame`
unfoldable pub send_frame : Net → ℕ → ℕ → ℕ → Body → Client → Client
send_frame net ws type id body c =
    if net.is_open ws && net.accepts ws then emit (send ws type id body) c else c

-- `resetIdleTimer`
unfoldable pub reset_idle_timer : Config → ℕ → Client → Client
reset_idle_timer config ref c =
    change ref
      (record (c.objects ref) {
        timer = if config.stream_idle_timeout_ms == 0 then false else true;
      })
      c
