-- ===== src/TunnelClient/TcpHandler.antt =====
-- src/tcp/TcpClientHandler.js: the TCP side of the tunnel client. A listener of a local socket is a
-- function of the reference of its state object.
use text.Mathlib.Text.{◌==◌ as str_eq}
use nodejs_wss_service_bridg.Base.{
  ℕ, ◌+◌, Bool, true, false, ◌&&◌, ◌||◌, not, List, [], ◌∷◌, Option, none, some, String, ◌==◌, leb,
  if◌then◌else◌, length, Result, ok, err,
}
use nodejs_wss_service_bridg.Base.Map.{put, delete, values}
use nodejs_wss_service_bridg.Protocol.{
  Bytes, JsonError, parse_json_payload, pause, resume, tcp_data, tcp_close, tcp_abort,
}
use nodejs_wss_service_bridg.Server.{Json, null, object, Info}
use nodejs_wss_service_bridg.Server.ClientFrames.{json_limit}
use nodejs_wss_service_bridg.TunnelClient.{
  Reason, invalid_open, too_many_streams, write_failed, host_not_allowed, empty, message, connect,
  socket_pause, socket_resume, socket_destroy, socket_write, writer_paused, Net, Config, Stream,
  Client, change, emit, send_frame, reset_idle_timer,
}

-- `sendTcpAbort`
unfoldable pub send_tcp_abort : Net → ℕ → ℕ → Reason → Client → Client
unfolding send_frame
send_tcp_abort net ws id reason c = send_frame net ws tcp_abort id (message reason) c

abbrev pub cleaned_tcp : Stream → Stream
cleaned_tcp s = record s { cleaned = true; timer = false; local_socket = false }

-- `cleanupTcpState`
unfoldable pub cleanup_tcp_state : ℕ → Client → Client
cleanup_tcp_state ref c =
    let s = c.objects ref in
    let gone = record (change ref (cleaned_tcp s) c) { streams = delete s.id c.streams } in
    if s.cleaned
    then c
    else if s.local_socket
    then emit (socket_destroy ref)
        (record gone { socket_destroyed = λ j. ref == j || c.socket_destroyed j })
    else gone

-- `syncSocketReadState(state, state.localSocket)`
unfoldable pub sync_socket_read_state : ℕ → Client → Client
sync_socket_read_state ref c =
    let s = c.objects ref in
    if not s.local_socket || c.socket_destroyed ref
    then c
    else if s.peer_paused_read || s.local_paused_for_ws
    then emit (socket_pause ref) c
    else emit (socket_resume ref) c

abbrev pub allows : List String → Option String → Bool
allows [] host = false
allows (h ∷ hosts) none = false
allows (h ∷ hosts) (some host) = str_eq h host || allows hosts (some host)

abbrev pub new_stream : ℕ → ℕ → Stream
new_stream id ws = record {
  id = id;
  ws = ws;
  is_tcp = true;
  local_socket = false;
  cleaned = false;
  local_write_backpressured = false;
  peer_paused_read = false;
  local_paused_for_ws = false;
  pending_sends = 0;
  timer = false;
  local_connected = false;
  request_ended = false;
  response_started = false;
  response_ended = false;
  response_writer = false;
  local_req = false;
  local_res = false;
}

-- From `const state` to the end of `handleTcpOpen`: `net.connect` gives the state its socket.
unfoldable pub open_stream : Config → ℕ → ℕ → Info → Client → Client
unfolding reset_idle_timer
open_stream config ws id meta c =
    let ref = c.next_object in
    let added = record (change ref (new_stream id ws) c) {
      streams = put id ref c.streams;
      next_object = ref + 1;
    } in
    let timed = reset_idle_timer config ref added in
    emit (connect ref meta.host meta.port) (
      change ref
        (record (timed.objects ref) {
          local_socket = true;
          local_paused_for_ws = false;
          pending_sends = 0;
        })
        (record timed { socket_destroyed = λ j. if ref == j then false else c.socket_destroyed j }))

-- `handleTcpOpen` on the fields of its payload.
unfoldable pub open_checked : Net → Config → ℕ → ℕ → Info → Client → Client
unfolding send_tcp_abort open_stream
open_checked net config ws id meta c =
    if not (allows config.allowed_hosts meta.host)
    then send_tcp_abort net ws id (host_not_allowed meta.host) c
    else if leb config.max_concurrent_streams (length c.streams)
    then send_tcp_abort net ws id too_many_streams c
    else open_stream config ws id meta c

-- What a handler did: `threw` when an exception leaves it.
pub data Handled : Type 0 where
  handled not_handled threw : Handled

-- Taking fields out of `null` throws.
unfoldable pub open_read : Net → Config → ℕ → ℕ → Client → Result JsonError Json → Client × Handled
unfolding send_tcp_abort open_checked
open_read net config ws id c (err e) = (send_tcp_abort net ws id invalid_open c, handled)
open_read net config ws id c (ok null) = (c, threw)
open_read net config ws id c (ok (object meta)) = (open_checked net config ws id meta c, handled)

unfoldable pub handle_tcp_open :
    Net → Config → (Bytes → Option Json) → ℕ → ℕ → Bytes → Client → Client × Handled
unfolding open_read
handle_tcp_open net config parse ws id payload c =
    open_read net config ws id c (parse_json_payload parse json_limit payload)

abbrev pub abort_and_clean : Net → ℕ → Reason → Client → Client
abort_and_clean net ref reason c =
    cleanup_tcp_state ref (send_tcp_abort net (c.objects ref).ws (c.objects ref).id reason c)

-- `handleTcpData` where the local socket has taken the chunk.
unfoldable pub after_write : Net → ℕ → Bool → Client → Client
unfolding send_frame
after_write net ref taken c =
    let s = c.objects ref in
    if not taken && not s.local_write_backpressured
    then send_frame net s.ws pause s.id empty
        (change ref (record s { local_write_backpressured = true }) c)
    else c

-- What `write` of the local socket has answered; `none` for a throw.
unfoldable pub write_answered : Net → ℕ → Bytes → Client → Option Bool → Client
unfolding after_write cleanup_tcp_state send_tcp_abort
write_answered net ref payload c none = abort_and_clean net ref write_failed c
write_answered net ref payload c (some taken) =
    after_write net ref taken (emit (socket_write ref payload) c)

unfoldable pub handle_tcp_data : Net → Config → ℕ → Bytes → Client → Client
unfolding reset_idle_timer write_answered
handle_tcp_data net config ref payload c =
    let s = c.objects ref in
    let timed = reset_idle_timer config ref c in
    if not s.is_tcp || (not s.local_socket || c.socket_destroyed ref)
    then c
    else write_answered net ref payload timed (net.socket_write_result ref c.out)

unfoldable pub handle_tcp_close : ℕ → Client → Client
unfolding cleanup_tcp_state
handle_tcp_close ref c = if (c.objects ref).is_tcp then cleanup_tcp_state ref c else c

-- Reading the message of `null` throws; a payload that cannot be read is taken as `{}`.
unfoldable pub abort_read : ℕ → Client → Result JsonError Json → Client × Handled
unfolding cleanup_tcp_state
abort_read ref c (ok null) = (c, threw)
abort_read ref c (ok (object info)) = (cleanup_tcp_state ref c, handled)
abort_read ref c (err e) = (cleanup_tcp_state ref c, handled)

unfoldable pub handle_tcp_abort : (Bytes → Option Json) → ℕ → Bytes → Client → Client × Handled
unfolding abort_read
handle_tcp_abort parse ref payload c =
    if (c.objects ref).is_tcp
    then abort_read ref c (parse_json_payload parse json_limit payload)
    else (c, handled)

-- `for (const state of streams.values())` of `cleanupTcpStreams`, over references.
unfoldable pub cleanup_tcp_from : List ℕ → Client → Client
unfolding handle_tcp_close
cleanup_tcp_from [] c = c
cleanup_tcp_from (ref ∷ refs) c = cleanup_tcp_from refs (handle_tcp_close ref c)

unfoldable pub cleanup_tcp_streams : Client → Client
unfolding cleanup_tcp_from
cleanup_tcp_streams c = cleanup_tcp_from (values c.streams) c

-- The cases PAUSE and RESUME of `handleServerFrame`, for a state that is there.
unfoldable pub peer_paused : Bool → ℕ → Client → Client
unfolding sync_socket_read_state
peer_paused p ref c =
    let s = c.objects ref in
    let told = if s.response_writer then emit (writer_paused ref p) c else c in
    if s.is_tcp
    then sync_socket_read_state ref (change ref (record s { peer_paused_read = p }) told)
    else told

-- `handleServerFrame` for a state that is there, after TCP_OPEN.
unfoldable pub handle_stream_frame :
    Net → Config → (Bytes → Option Json) → ℕ → Bytes → ℕ → Client → Client × Handled
unfolding handle_tcp_data handle_tcp_close handle_tcp_abort peer_paused
handle_stream_frame net config parse type payload ref c =
    if type == tcp_data
    then (handle_tcp_data net config ref payload c, handled)
    else if type == tcp_close
    then (handle_tcp_close ref c, handled)
    else if type == tcp_abort
    then handle_tcp_abort parse ref payload c
    else if type == pause
    then (peer_paused true ref c, handled)
    else if type == resume
    then (peer_paused false ref c, handled)
    else (c, not_handled)
