-- ===== src/TunnelClient/Events.antt =====
-- The events of a tunnel client, and its table of streams through any sequence of them.
use nodejs_wss_service_bridg.Base.{ℕ, ◌≡◌, ◌≢◌, ◌||◌, Option, none, some, String, ◌==◌, ok}
use nodejs_wss_service_bridg.Base.Map.{get, values}
use nodejs_wss_service_bridg.Protocol.{Bytes, Message, Frame, parse_frame, tcp_open}
use nodejs_wss_service_bridg.Server.{Json, null}
use nodejs_wss_service_bridg.TunnelClient.{Net, Config, Client}
use nodejs_wss_service_bridg.TunnelClient.TcpHandler.{cleanup_tcp_streams}
use nodejs_wss_service_bridg.TunnelClient.LocalSocket.{
  on_connect, on_drain, on_data, on_sent, on_timeout, on_close, on_error,
}
use nodejs_wss_service_bridg.TunnelClient.Frames.{on_idle, cleanup_all_streams}
use nodejs_wss_service_bridg.TunnelClient.Requests.{AskedJson, Target}
use nodejs_wss_service_bridg.TunnelClient.Responses.{
  LocalResponse, on_response, on_writer_finish, on_writer_error, on_pipeline_error,
  on_request_error, on_request_timeout,
}
use nodejs_wss_service_bridg.TunnelClient.Dispatch.{handle_server_frame}
use nodejs_wss_service_bridg.TunnelClient.Table.{IsClient}
use nodejs_wss_service_bridg.TunnelClient.Table.Frames.{
  cleanup_tcp_from-IsTable, cleanup_from-IsTable,
}

-- `message ws m` is a message on a WebSocket, `broken` a socket that Node destroys by itself, `idle` an
-- idle timer that runs out, and `disconnected` the end of the tunnel's WebSocket; `response` is the
-- response of the local service, `writer_finished`, `writer_failed` and `pipeline_failed` are the events
-- of its writer, and `request_failed` and `request_timed_out` those of the local request. The others
-- are the events of the local socket of a state object.
pub data Event : Type 0 where
  message : ℕ → Message → Event
  connected drained sent timed_out closed broken idle : ℕ → Event
  data_read : ℕ → Bytes → Event
  failed pipeline_failed request_failed : ℕ → String → Event
  response : ℕ → LocalResponse → Event
  writer_finished writer_failed request_timed_out : ℕ → Event
  disconnected : Event

-- `cleanup_all_streams`
pub cleanup_all_streams-IsTable : (c : Client) → IsClient c → IsClient (cleanup_all_streams c)
unfolding cleanup_all_streams cleanup_tcp_streams
cleanup_all_streams-IsTable c h =
    cleanup_from-IsTable (values (cleanup_tcp_streams c).streams) _
      (cleanup_tcp_from-IsTable (values c.streams) c h)

-- The listener returns, and the table is well-formed after it.
abbrev pub Returns : Option Client → Type 0
Returns o = (d : Client) × (o ≡ some d) × IsClient d

module _ (net : Net) (config : Config) (target : Target) (parse : Bytes → Option Json)
    (parse_meta : Bytes → Option AskedJson) where
  unfoldable pub step : Event → Client → Option Client
  unfolding handle_server_frame on_idle
  step (message ws m) c = handle_server_frame net config target parse parse_meta ws m c
  step (connected ref) c = some (on_connect net config ref c)
  step (drained ref) c = some (on_drain net ref c)
  step (sent ref) c = some (on_sent net config ref c)
  step (timed_out ref) c = some (on_timeout net ref c)
  step (closed ref) c = some (on_close net ref c)
  step (broken ref) c = some (record c { socket_destroyed = λ j. ref == j || c.socket_destroyed j })
  step (idle ref) c = some (on_idle net ref c)
  step (data_read ref chunk) c = some (on_data net config ref chunk c)
  step (failed ref text) c = some (on_error net ref text c)
  step (response ref res) c = some (on_response net ref res c)
  step (writer_finished ref) c = some (on_writer_finish net ref c)
  step (writer_failed ref) c = some (on_writer_error net ref c)
  step (pipeline_failed ref text) c = some (on_pipeline_error net ref text c)
  step (request_failed ref text) c = some (on_request_error net ref text c)
  step (request_timed_out ref) c = some (on_request_timeout ref c)
  step disconnected c = some (cleanup_all_streams c)

  -- A TCP_OPEN opens an id that is not in the table, with a payload that is not `null`.
  abbrev pub IsFresh : Client → Frame → Type 0
  IsFresh c f =
      f.type ≡ tcp_open → (get f.stream_id c.streams ≡ none) × (parse f.payload ≢ some null)

  abbrev pub Fits : Event → Client → Type 0
  Fits (message ws m) c = (f : Frame) → parse_frame m ≡ ok f → IsFresh c f
  Fits _ c = Unit
