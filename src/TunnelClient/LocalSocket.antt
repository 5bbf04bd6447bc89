-- ===== src/TunnelClient/LocalSocket.antt =====
-- The listeners that `handleTcpOpen` of src/tcp/TcpClientHandler.js puts on a local socket, and the
-- callback of its sends, as functions of the reference of the state object.
use nodejs_wss_service_bridg.Base.{
  ℕ, ◌+◌, ◌-◌, true, false, ◌&&◌, not, String, ◌==◌, ltb, leb, if◌then◌else◌,
}
use nodejs_wss_service_bridg.Protocol.{Bytes, resume, tcp_data, tcp_close, tcp_open_ack}
use nodejs_wss_service_bridg.TunnelClient.{
  ws_closed, send_failed, connect_timeout, local_error, empty, empty_object, bytes, send, Net,
  Config, Client, change, emit, send_frame, reset_idle_timer,
}
use nodejs_wss_service_bridg.TunnelClient.TcpHandler.{
  send_tcp_abort, cleanup_tcp_state, sync_socket_read_state, abort_and_clean,
}

-- The listener of `connect`.
unfoldable pub on_connect : Net → Config → ℕ → Client → Client
unfolding reset_idle_timer send_frame
on_connect net config ref c =
    let s = c.objects ref in
    send_frame net s.ws tcp_open_ack s.id empty_object
      (reset_idle_timer config ref (change ref (record s { local_connected = true }) c))

-- The listener of `drain`, there once the socket is connected.
unfoldable pub on_drain : Net → ℕ → Client → Client
unfolding send_frame
on_drain net ref c =
    let s = c.objects ref in
    if s.cleaned
    then c
    else if s.local_write_backpressured && net.is_open s.ws
    then send_frame net s.ws resume s.id empty
        (change ref (record s { local_write_backpressured = false }) c)
    else c

-- The listener of `data` behind a successful `send`.
unfoldable pub throttle : Net → Config → ℕ → Client → Client
unfolding sync_socket_read_state
throttle net config ref c =
    let s = c.objects ref in
    if ltb config.ws_high_water (net.buffered_amount s.ws c.out) && not s.local_paused_for_ws
    then sync_socket_read_state ref (change ref (record s { local_paused_for_ws = true }) c)
    else c

-- The listener of `data`, there once the socket is connected.
unfoldable pub on_data : Net → Config → ℕ → Bytes → Client → Client
unfolding reset_idle_timer throttle cleanup_tcp_state send_tcp_abort
on_data net config ref chunk c =
    let timed = reset_idle_timer config ref c in
    let s = timed.objects ref in
    let counted = change ref (record s { pending_sends = s.pending_sends + 1 }) timed in
    if (c.objects ref).cleaned
    then c
    else if not (net.is_open s.ws)
    then abort_and_clean net ref ws_closed timed
    else if not (net.accepts s.ws)
    then abort_and_clean net ref send_failed counted
    else throttle net config ref (emit (send s.ws tcp_data s.id (bytes chunk)) counted)

-- The callback of `send`.
unfoldable pub on_sent : Net → Config → ℕ → Client → Client
unfolding sync_socket_read_state
on_sent net config ref c =
    let s = c.objects ref in
    let counted = record s { pending_sends = s.pending_sends - 1 } in
    if not s.cleaned
      && (s.local_paused_for_ws
          && (counted.pending_sends == 0
              && leb (net.buffered_amount s.ws c.out) config.ws_low_water))
    then sync_socket_read_state ref (change ref (record counted { local_paused_for_ws = false }) c)
    else change ref counted c

-- The listener of `timeout`.
unfoldable pub on_timeout : Net → ℕ → Client → Client
unfolding cleanup_tcp_state send_tcp_abort
on_timeout net ref c =
    if (c.objects ref).cleaned
    then c
    else if not (c.objects ref).local_connected
    then abort_and_clean net ref connect_timeout c
    else c

-- The listener of `close`.
unfoldable pub on_close : Net → ℕ → Client → Client
unfolding cleanup_tcp_state send_frame
on_close net ref c =
    let s = c.objects ref in
    if s.cleaned then c else cleanup_tcp_state ref (send_frame net s.ws tcp_close s.id empty c)

-- The listener of `error`.
unfoldable pub on_error : Net → ℕ → String → Client → Client
unfolding cleanup_tcp_state send_tcp_abort
on_error net ref text c =
    if (c.objects ref).cleaned then c else abort_and_clean net ref (local_error text) c
