-- ===== src/Server/Socket.antt =====
-- src/tcp/VirtualSocket.js with the listeners that `_wireStream` of src/tcp/TcpRouter.js and
-- `createTcpStream` of src/server/StreamManager.js put on a socket, and `syncSocketReadState` of
-- src/tcp/TcpFlowControl.js. An event calls its listener at once.
use nodejs_wss_service_bridg.Base.{
  ◌+◌, ◌-◌, Bool, true, false, ◌&&◌, ◌||◌, not, List, [], ◌∷◌, ◌++◌, Option, none, some, String,
  ◌==◌, ltb, leb, if◌then◌else◌, length,
}
use nodejs_wss_service_bridg.Protocol.{Bytes, pause, resume, tcp_data, tcp_close, tcp_abort}
use nodejs_wss_service_bridg.Server.{
  Net, Config, Run, empty, json, bytes, says, send, socket_pause, socket_resume, socket_write,
  with_stream, with_socket, emit, send_frame, send_on, reset_idle_timeout,
}
use nodejs_wss_service_bridg.Server.Cleanup.{
  cleanup_tcp_stream, abort_tcp_stream, abort_socket, sync_tcp_backpressure,
}

-- The listener of `drain` in `createTcpStream`.
unfoldable pub on_drain : Net → Run → Run
unfolding sync_tcp_backpressure
on_drain net r =
    if r.stream.cleaned
    then r
    else if r.stream.ws_backpressured
    then sync_tcp_backpressure net (with_stream r (record (r.stream) { ws_backpressured = false }))
    else r

-- `socket.pause()`
unfoldable pub pause_socket : Net → Run → Run
unfolding send_frame
pause_socket net r =
    let k = r.stream.socket in
    if k.is_virtual
    then (if k.paused
        then r
        else send_on net k.peer pause empty (with_socket r (record k { paused = true })))
    else emit (socket_pause r.stream.id) r

-- `syncSocketReadState` where one of its two flags is set.
unfoldable pub sync_paused : Net → Run → Run
unfolding pause_socket
sync_paused net r = if r.stream.socket.destroyed then r else pause_socket net r

-- The listener of `data` behind a successful `send`: it throttles itself on the WebSocket's buffer.
unfoldable pub throttle : Net → Config → Run → Run
unfolding sync_paused
throttle net config r =
    if ltb config.ws_high_water (net.buffered_amount r.stream.ws r.global.out)
      && not r.stream.local_paused_for_ws
    then sync_paused net (with_stream r (record (r.stream) { local_paused_for_ws = true }))
    else r

-- The listener of `data`.
unfoldable pub on_data : Net → Config → Bytes → Run → Run
unfolding throttle
on_data net config chunk r =
    let timed = with_stream r (reset_idle_timeout config.stream_idle_timeout_ms r.stream) in
    let counted =
      with_stream timed
        (record (timed.stream) { pending_sends = timed.stream.pending_sends + 1 }) in
    if r.stream.cleaned
    then r
    else if not (net.is_open r.stream.ws)
    then abort_tcp_stream net "Failed to send TCP_DATA" true timed
    else if not (net.accepts r.stream.ws)
    then abort_tcp_stream net "Failed to send TCP_DATA" true counted
    else throttle net config (emit (send r.stream.ws tcp_data r.stream.id (bytes chunk)) counted)

unfoldable pub emit_data : Net → Config → List Bytes → Run → Run
emit_data net config [] r = r
emit_data net config (chunk ∷ chunks) r = emit_data net config chunks (on_data net config chunk r)

-- `socket.resume()`
unfoldable pub resume_socket : Net → Config → Run → Run
unfolding emit_data send_frame
resume_socket net config r =
    let k = r.stream.socket in
    if k.is_virtual
    then (if k.paused
        then send_on net k.peer resume empty (
            emit_data net config k.buffered
              (with_socket r (record k { paused = false; buffered = []; buffered_bytes = 0 })))
        else r)
    else emit (socket_resume r.stream.id) r

-- `syncSocketReadState`
unfoldable pub sync_socket_read_state : Net → Config → Run → Run
unfolding pause_socket resume_socket
sync_socket_read_state net config r =
    if r.stream.socket.destroyed
    then r
    else if r.stream.peer_paused_read || r.stream.local_paused_for_ws
    then pause_socket net r
    else resume_socket net config r

abbrev pub count_sent : Run → Run
count_sent r = with_stream r (record (r.stream) { pending_sends = r.stream.pending_sends - 1 })

abbrev pub may_read_on : Net → Config → Run → Bool
may_read_on net config r =
    not r.stream.cleaned
    && (r.stream.local_paused_for_ws
        && (r.stream.pending_sends == 0
            && leb (net.buffered_amount r.stream.ws r.global.out) config.ws_low_water))

-- The callback of the `send` of a TCP_DATA frame to the tunnel client.
unfoldable pub on_sent : Net → Config → Run → Run
unfolding sync_socket_read_state
on_sent net config r =
    let counted = count_sent r in
    if may_read_on net config counted
    then sync_socket_read_state net config
        (with_stream counted (record (counted.stream) { local_paused_for_ws = false }))
    else counted

-- The listener of `close`.
unfoldable pub on_close : Net → Run → Run
unfolding send_frame
on_close net r =
    if r.stream.cleaned
    then r
    else cleanup_tcp_stream net (send_on net r.stream.ws tcp_close empty r)

-- The listener of `error`.
unfoldable pub on_error : Net → String → Run → Run
unfolding send_frame
on_error net message r =
    if r.stream.cleaned
    then r
    else abort_tcp_stream net message false
        (send_on net r.stream.ws tcp_abort (json (says message)) r)

-- `socket.pushInbound(chunk)`
unfoldable pub push_inbound : Net → Config → Bytes → Run → Run
unfolding on_data
push_inbound net config chunk r =
    let k = r.stream.socket in
    if k.destroyed
    then r
    else if k.paused
    then (if ltb config.max_dest_buffer_bytes (k.buffered_bytes + length chunk)
        then abort_socket net "Inbound buffer exceeded" r
        else with_socket r (record k {
          buffered = k.buffered ++ chunk ∷ [];
          buffered_bytes = k.buffered_bytes + length chunk;
        }))
    else on_data net config chunk r

-- The socket after its agent has ended it.
abbrev pub ended_by_agent : Run → Run
ended_by_agent r =
    with_socket r (record (r.stream.socket) { destroyed = true; agent_notified = true })

-- `socket.endFromAgent()`
unfoldable pub end_from_agent : Net → Run → Run
unfolding on_close
end_from_agent net r =
    let k = r.stream.socket in
    if k.destroyed
    then r
    else on_close net (with_socket r (record k { destroyed = true; agent_notified = true }))

-- `socket.abortFromAgent(payload)`, with the message of the payload where it is a string.
unfoldable pub abort_from_agent : Net → Option String → Run → Run
unfolding on_error
abort_from_agent net message r =
    let k = r.stream.socket in
    let text : String = elim message [ none ↦ "Agent aborted stream" | some m ↦ m ] in
    if k.destroyed
    then r
    else on_error net text (with_socket r (record k { destroyed = true; agent_notified = true }))

-- The microtask of `abort`: the event `close`.
unfoldable pub run_microtask : Net → Run → Run
unfolding on_close
run_microtask net r =
    let k = r.stream.socket in
    if k.close_queued then on_close net (with_socket r (record k { close_queued = false })) else r

-- `socket.write(chunk)`: the answer, `none` for a throw.
unfoldable pub write_socket : Net → Config → Bytes → Run → Run × Option Bool
write_socket net config chunk r =
    let k = r.stream.socket in
    let sent = emit (send k.peer tcp_data r.stream.id (bytes chunk)) r in
    if k.is_virtual
    then (if k.destroyed || not (net.is_open k.peer && net.accepts k.peer)
        then (r, some false)
        else if ltb config.ws_high_water (net.buffered_amount k.peer sent.global.out)
        then (with_socket sent (record k { pending_drain = true }), some false)
        else (sent, some true))
    else (emit (socket_write r.stream.id chunk) r, net.socket_write_result)

-- The callback of the `send` to the agent.
unfoldable pub on_agent_sent : Net → Config → Run → Run
unfolding on_drain
on_agent_sent net config r =
    let k = r.stream.socket in
    if not k.destroyed
      && (k.pending_drain && leb (net.buffered_amount k.peer r.global.out) config.ws_low_water)
    then on_drain net (with_socket r (record k { pending_drain = false }))
    else r
