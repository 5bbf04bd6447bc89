-- ===== src/Http.antt =====
-- HTTP over the tunnel on the server: an exchange is the state object of one HTTP stream in
-- src/server/StreamManager.js, with the table of streams that it stands in, and what was sent to the
-- tunnel client or called on the request, the response and the request's writer, newest first.
pub mod Headers
pub mod Streams
pub mod Frames
pub mod Events
pub mod Faults
pub mod Auth
pub mod Forward
pub mod Router
pub mod Upgrade
use nodejs_wss_service_bridg.Base.{
  ℕ, Bool, true, false, ◌&&◌, List, [], ◌∷◌, Option, none, some, String, ◌==◌, if◌then◌else◌,
}
use nodejs_wss_service_bridg.Base.Text.{Text}
use nodejs_wss_service_bridg.Protocol.{Bytes}

-- The value of a header: a text, or the texts of its repetitions.
pub data Value : Type 0 where
  one : Text → Value
  several : List Text → Value

abbrev pub Headers : Type 0
Headers = List (Text × Value)

-- The payload of REQ_META.
pub record RequestMeta : Type 0 where
  pub method : Text
  pub url : Text
  pub headers : Headers

-- The fields that are read of the payloads of RES_META and RES_ABORT. `status_code` is `none` where
-- `Number` gives no number, and `status_message` where the field is no string.
pub record Meta : Type 0 where
  pub headers : List (Text × Option Value)
  pub status_code : Option ℕ
  pub status_message : Option Text
  pub message : Option String

abbrev pub no_meta : Meta
no_meta = record { headers = []; status_code = none; status_message = none; message = none }

pub data Json : Type 0 where
  null : Json
  object : Meta → Json

pub data Body : Type 0 where
  empty : Body
  message : String → Body
  request_meta : RequestMeta → Body

-- What the server itself answers: nothing, an error with its message in JSON, a text, or the bytes of
-- a file.
pub data Reply : Type 0 where
  nothing : Reply
  error : String → String → Reply
  plain : String → Reply
  file : Bytes → Reply

pub data Effect : Type 0 where
  send : ℕ → ℕ → ℕ → Body → Effect
  write_head : ℕ → Text → List (Text × Option Value) → Effect
  res_write : Bytes → Effect
  res_end : Reply → Effect
  res_destroy req_destroy writer_destroy : Effect
  writer_paused : Bool → Effect

-- What the libraries answer after the effects so far: `readyState === OPEN` and "`send` does not
-- throw" of a WebSocket, "`writeHead` does not throw", "`end` does not throw", `write` of the response
-- (`none` for a throw), `writableLength` and `writableEnded`.
pub record Net : Type 0 where
  pub is_open : ℕ → List Effect → Bool
  pub accepts : ℕ → List Effect → Bool
  pub head_accepts : ℕ → Text → List (Text × Option Value) → List Effect → Bool
  pub end_accepts : List Effect → Bool
  pub write_result : Bytes → List Effect → Option Bool
  pub writable_length : List Effect → ℕ
  pub writable_ended : List Effect → Bool

pub record Config : Type 0 where
  pub stream_idle_timeout_ms : ℕ
  pub max_dest_buffer_bytes : ℕ

-- `is_head` says that the request's method is HEAD, `request_writer` that the field is not null,
-- `timer` that a timer is set, and `drain_listener` that the response has the listener of `once`.
pub record HttpStream : Type 0 where
  pub id : ℕ
  pub ws : ℕ
  pub is_head : Bool
  pub cleaned : Bool
  pub abort_sent : Bool
  pub response_started : Bool
  pub response_ended : Bool
  pub request_ended : Bool
  pub response_paused : Bool
  pub request_writer : Bool
  pub timer : Bool
  pub drain_listener : Bool

-- `ref` is the reference by which the table `streams` knows the state object.
pub record Exchange : Type 0 where
  pub ref : ℕ
  pub streams : List (ℕ × ℕ)
  pub stream : HttpStream
  pub out : List Effect

abbrev pub emit : Effect → Exchange → Exchange
emit e x = record x { out = e ∷ x.out }

abbrev pub with_stream : Exchange → HttpStream → Exchange
with_stream x s = record x { stream = s }

-- `sendFrame` and `sendJsonFrame`: whether the frame was handed over.
abbrev pub can_send : Net → Exchange → Bool
can_send net x = net.is_open x.stream.ws x.out && net.accepts x.stream.ws x.out

unfoldable pub send_frame : Net → ℕ → Body → Exchange → Exchange
send_frame net type body x =
    if can_send net x then emit (send x.stream.ws type x.stream.id body) x else x

-- `_resetIdleTimer`
abbrev pub timed : Config → HttpStream → HttpStream
timed config s = record s { timer = if config.stream_idle_timeout_ms == 0 then false else true }
