-- ===== src/TunnelClient/Frames.antt =====
-- serve/client.js: the end of a stream, TCP_OPEN, and the frames for a stream of the table. PAUSE and
-- RESUME are handled by the TCP handler, for HTTP streams too, so their cases in `handleServerFrame`
-- are never reached.
use nodejs_wss_service_bridg.Base.{
  ℕ, Bool, true, false, ◌&&◌, ◌||◌, not, List, [], ◌∷◌, Option, none, some, ◌==◌, if◌then◌else◌,
  Result, ok, err,
}
use nodejs_wss_service_bridg.Base.Map.{delete, values}
use nodejs_wss_service_bridg.Protocol.{
  Bytes, JsonError, parse_json_payload, req_data, req_end, req_abort, res_abort,
}
use nodejs_wss_service_bridg.Server.{Json, null, object}
use nodejs_wss_service_bridg.TunnelClient.{
  Reason, idle_timeout, bad_frame, request_write_failed, message, Effect, request_write,
  request_end, request_destroy, response_destroy, writer_destroy, Net, Config, Stream, Client,
  change, emit, send_frame, reset_idle_timer,
}
use nodejs_wss_service_bridg.TunnelClient.TcpHandler.{
  Handled, handled, not_handled, threw, handle_tcp_open, handle_stream_frame, cleanup_tcp_streams,
}

abbrev emit_if : Bool → Effect → Client → Client
emit_if b e c = if b then emit e c else c

abbrev pub marked : Stream → Stream
marked s = record s { cleaned = true; timer = false }

-- `cleanupStream`
unfoldable pub cleanup_stream : ℕ → Client → Client
cleanup_stream ref c =
    let s = c.objects ref in
    if s.cleaned
    then c
    else emit_if s.local_res (response_destroy ref) (
        emit_if s.local_req (request_destroy ref) (
          emit_if s.response_writer (writer_destroy ref)
            (record (change ref (marked s) c) { streams = delete s.id c.streams })))

-- `sendResAbort`
unfoldable pub send_res_abort : Net → ℕ → Reason → Client → Client
unfolding cleanup_stream send_frame
send_res_abort net ref reason c =
    let s = c.objects ref in
    if s.cleaned
    then c
    else cleanup_stream ref (send_frame net s.ws res_abort s.id (message reason) c)

-- The timer of `resetIdleTimer` runs out.
unfoldable pub on_idle : Net → ℕ → Client → Client
unfolding send_res_abort
on_idle net ref c = send_res_abort net ref idle_timeout c

unfoldable pub cleanup_from : List ℕ → Client → Client
unfolding cleanup_stream
cleanup_from [] c = c
cleanup_from (ref ∷ refs) c = cleanup_from refs (cleanup_stream ref c)

-- `cleanupAllStreams`, which the `close` of the tunnel's WebSocket calls.
unfoldable pub cleanup_all_streams : Client → Client
unfolding cleanup_tcp_streams cleanup_from
cleanup_all_streams c =
    let tcp_done = cleanup_tcp_streams c in cleanup_from (values tcp_done.streams) tcp_done

unfoldable pub handle_req_data : Net → ℕ → Bytes → Client → Client
unfolding send_res_abort
handle_req_data net ref payload c =
    let s = c.objects ref in
    if s.cleaned || not s.local_req
    then c
    else if net.request_accepts ref c.out
    then emit (request_write ref payload) c
    else send_res_abort net ref request_write_failed c

unfoldable pub handle_req_end : ℕ → Client → Client
handle_req_end ref c =
    let s = c.objects ref in
    if s.cleaned || not s.local_req
    then c
    else emit (request_end ref) (change ref (record s { request_ended = true }) c)

-- The case REQ_ABORT.
unfoldable pub handle_req_abort : Net → ℕ → Client → Client
unfolding cleanup_stream
handle_req_abort net ref c = cleanup_stream ref (
    if (c.objects ref).local_req && not (net.request_destroyed ref c.out)
    then emit (request_destroy ref) c
    else c)

-- The `try` of `handleServerFrame`: what falls through the TCP handler, and the `catch`.
unfoldable pub fall_through : Net → ℕ → Bytes → ℕ → Client × Handled → Client
unfolding handle_req_data handle_req_end handle_req_abort send_res_abort
fall_through net type payload ref (c, handled) = c
fall_through net type payload ref (c, threw) = send_res_abort net ref bad_frame c
fall_through net type payload ref (c, not_handled) =
    if type == req_data
    then handle_req_data net ref payload c
    else if type == req_end
    then handle_req_end ref c
    else if type == req_abort
    then handle_req_abort net ref c
    else c

-- A frame for the state object that `streams` has under its id.
unfoldable pub known_frame :
    Net → Config → (Bytes → Option Json) → ℕ → ℕ → Bytes → ℕ → Client → Client
unfolding reset_idle_timer handle_stream_frame fall_through
known_frame net config parse ws type payload ref c =
    if (c.objects ref).ws == ws
    then fall_through net type payload ref
        (handle_stream_frame net config parse type payload ref (reset_idle_timer config ref c))
    else c

unfoldable pub unless_thrown : Client × Handled → Option Client
unless_thrown (c, handled) = some c
unless_thrown (c, not_handled) = some c
unless_thrown (c, threw) = none

-- The fields that the log of TCP_OPEN reads.
unfoldable pub log_open : Result JsonError Json → Option Client → Option Client
log_open (ok null) after = none
log_open (ok (object meta)) after = after
log_open (err e) after = after

-- The case TCP_OPEN: `none` when an exception leaves the listener.
unfoldable pub open_frame :
    Net → Config → (Bytes → Option Json) → ℕ → ℕ → Bytes → Client → Option Client
unfolding handle_tcp_open unless_thrown log_open
open_frame net config parse ws id payload c =
    log_open (parse_json_payload parse config.max_frame_payload payload)
      (unless_thrown (handle_tcp_open net config parse ws id payload c))

-- A frame for the state that `streams` has under its id, where there is one.
unfoldable pub stream_frame :
    Net → Config → (Bytes → Option Json) → ℕ → ℕ → Bytes → Client → Option ℕ → Client
unfolding known_frame
stream_frame net config parse ws type payload c none = c
stream_frame net config parse ws type payload c (some ref) =
    known_frame net config parse ws type payload ref c
