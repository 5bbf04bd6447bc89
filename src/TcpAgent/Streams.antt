-- ===== src/TcpAgent/Streams.antt =====
-- serve/tcp-agent.js: the life of a stream, from `registerStream` to `syncReadState`. A listener of a
-- local socket is a function of the reference of its entry.
use nodejs_wss_service_bridg.Base.{
  ℕ, ◌+◌, ◌-◌, true, false, ◌&&◌, ◌||◌, not, List, [], ◌∷◌, String, ◌==◌, ltb, leb, if◌then◌else◌,
}
use nodejs_wss_service_bridg.Base.Map.{put, delete, values}
use nodejs_wss_service_bridg.Protocol.{Bytes, resume, tcp_data, tcp_close, tcp_abort}
use nodejs_wss_service_bridg.Server.{or_default}
use nodejs_wss_service_bridg.TcpAgent.{
  empty, bytes, message, send, socket_pause, socket_resume, Net, Config, Pending, Entry, Agent,
  emit, change, ws_ready, send_frame, destroy,
}

-- `syncReadState`
unfoldable pub sync_read_state : ℕ → Agent → Agent
sync_read_state ref a =
    let e = a.entries ref in
    if e.cleaned || a.destroyed e.socket
    then a
    else if e.peer_paused_read || (e.paused_for_ws || not (ws_ready a))
    then emit (socket_pause e.socket) a
    else emit (socket_resume e.socket) a

abbrev pub new_entry : ℕ → ℕ → Entry
new_entry id socket = record {
  socket = socket;
  stream_id = id;
  pending_sends = 0;
  paused_for_ws = false;
  peer_paused_read = false;
  local_write_backpressured = false;
  cleaned = false;
}

-- `registerStream`: the listeners are those below.
unfoldable pub register_stream : ℕ → ℕ → Agent → Agent
register_stream id socket a =
    if a.destroyed socket
    then a
    else emit (socket_resume socket) (record (change a.next_entry (new_entry id socket) a) {
      streamed_sockets = put id a.next_entry a.streamed_sockets;
      next_entry = a.next_entry + 1;
    })

-- The entry is cleaned and leaves the table.
abbrev pub drop : ℕ → Agent → Agent
drop ref a =
    let e = a.entries ref in
    record (change ref (record e { cleaned = true }) a) {
      streamed_sockets = delete e.stream_id a.streamed_sockets;
    }

-- `abortStream`
unfoldable pub abort_stream : Net → ℕ → String → Agent → Agent
unfolding send_frame
abort_stream net ref text a =
    let e = a.entries ref in
    if e.cleaned
    then a
    else destroy e.socket (send_frame net tcp_abort e.stream_id (message text) (drop ref a))

-- The listener of `data` behind a successful `send`.
unfoldable pub throttle : Net → Config → ℕ → Agent → Agent
unfolding sync_read_state
throttle net config ref a =
    let e = a.entries ref in
    if ltb config.ws_high_water (net.buffered_amount a.out) && not e.paused_for_ws
    then sync_read_state ref (change ref (record e { paused_for_ws = true }) a)
    else a

-- The listener of `data`.
unfoldable pub on_data : Net → Config → ℕ → Bytes → Agent → Agent
unfolding abort_stream throttle
on_data net config ref chunk a =
    let e = a.entries ref in
    let counted = change ref (record e { pending_sends = e.pending_sends + 1 }) a in
    if e.cleaned || not (ws_ready a)
    then a
    else if not (net.accepts a.out)
    then abort_stream net ref "Failed to send TCP_DATA" counted
    else throttle net config ref (emit (send tcp_data e.stream_id (bytes chunk)) counted)

-- The callback of `send`.
unfoldable pub on_sent : Net → Config → ℕ → Agent → Agent
unfolding sync_read_state
on_sent net config ref a =
    let e = a.entries ref in
    let counted = record e { pending_sends = e.pending_sends - 1 } in
    if not e.cleaned
      && (e.paused_for_ws
          && (counted.pending_sends == 0 && leb (net.buffered_amount a.out) config.ws_low_water))
    then sync_read_state ref (change ref (record counted { paused_for_ws = false }) a)
    else change ref counted a

-- The listener of `drain`.
unfoldable pub on_drain : Net → ℕ → Agent → Agent
unfolding send_frame
on_drain net ref a =
    let e = a.entries ref in
    if e.cleaned
    then a
    else if e.local_write_backpressured && ws_ready a
    then send_frame net resume e.stream_id empty
        (change ref (record e { local_write_backpressured = false }) a)
    else a

-- The listener of `error`.
unfoldable pub on_error : Net → ℕ → String → Agent → Agent
unfolding send_frame
on_error net ref text a =
    let e = a.entries ref in
    if e.cleaned
    then a
    else destroy e.socket (
        send_frame net tcp_abort e.stream_id (message (or_default text "Local socket error"))
          (drop ref a))

-- The listener of `close`.
unfoldable pub on_close : Net → ℕ → Agent → Agent
unfolding send_frame
on_close net ref a =
    let e = a.entries ref in
    if e.cleaned then a else send_frame net tcp_close e.stream_id empty (drop ref a)

-- The two loops of `cleanupAll`.
unfoldable pub destroy_pending : List Pending → Agent → Agent
destroy_pending [] a = a
destroy_pending (p ∷ ps) a = destroy_pending ps (destroy p.local_socket a)

unfoldable pub clean_entries : List ℕ → Agent → Agent
clean_entries [] a = a
clean_entries (ref ∷ refs) a = clean_entries refs (destroy (a.entries ref).socket (drop ref a))

unfoldable pub cleanup_all : Agent → Agent
unfolding destroy_pending clean_entries
cleanup_all a =
    let spliced = destroy_pending a.pending_connects (record a { pending_connects = [] }) in
    clean_entries (values spliced.streamed_sockets) spliced

-- The listener of `drain` of the WebSocket, over references.
unfoldable pub resume_drained : Net → Config → List ℕ → Agent → Agent
unfolding sync_read_state
resume_drained net config [] a = a
resume_drained net config (ref ∷ refs) a =
    let e = a.entries ref in
    let rest =
      if e.paused_for_ws
        && (e.pending_sends == 0 && leb (net.buffered_amount a.out) config.ws_low_water)
      then sync_read_state ref (change ref (record e { paused_for_ws = false }) a)
      else a in
    resume_drained net config refs rest
