-- ===== src/Server/Cleanup.antt =====
-- The end of a TCP stream: `cleanupTcpStream` and `abortTcpStream` of
-- src/server/StreamManager.js, the closures `onCleanup`, `destroy` and `abort` of
-- src/tcp/VirtualSocket.js, and src/tcp/TcpFlowControl.js for the tunnel client.
use nodejs_wss_service_bridg.Base.{
  ℕ, ◌-◌, Bool, true, false, ◌&&◌, ◌||◌, not, List, Option, none, some, String, ◌==◌, if◌then◌else◌,
  remove,
}
use nodejs_wss_service_bridg.Base.Map
use nodejs_wss_service_bridg.Protocol.{pause, resume, tcp_abort, tcp_close}
use nodejs_wss_service_bridg.Server.{
  Net, Run, OnCleanup, nothing, decrement_count, release_agent, empty, json, says, socket_destroy,
  with_stream, with_socket, emit, send_frame, send_on, or_default,
}

-- `map.get(key) || fallback` for a count.
abbrev pub count_or : ℕ → Option ℕ → ℕ
count_or fallback none = fallback
count_or fallback (some c) = if c == 0 then fallback else c

-- `Math.max(0, c - 1)` is the truncated subtraction.
unfoldable pub decrement : ℕ → List (ℕ × ℕ) → List (ℕ × ℕ)
decrement port counts = Map.put port (count_or 1 (Map.get port counts) - 1) counts

abbrev pub remove_owned : ℕ → ℕ → List (ℕ × List ℕ) → List (ℕ × List ℕ)
remove_owned ws id owners = elim (Map.get ws owners) [
  | none ↦ owners
  | some owned ↦ Map.put ws (remove id owned) owners
]

-- The call of `onCleanup`.
unfoldable pub run_on_cleanup : OnCleanup → Run → Run
unfolding decrement
run_on_cleanup nothing r = r
run_on_cleanup (decrement_count port true) r = r
run_on_cleanup (decrement_count port false) r = record {
  global = record (r.global) { conn_count = decrement port r.global.conn_count };
  stream = record (r.stream) { on_cleanup = decrement_count port true };
}
run_on_cleanup (release_agent port ws) r = record r {
  global = record (r.global) {
    agent_conn_count = decrement port r.global.agent_conn_count;
    agent_streams = remove_owned ws r.stream.id r.global.agent_streams;
  };
}

-- `socket.destroy()`. Both kinds emit `close` behind it; its only caller sets `cleaned` first, so
-- the handler of `close` returns at once.
unfoldable pub destroy_socket : Net → Run → Run
unfolding send_frame
destroy_socket net r =
    let k = r.stream.socket in
    if k.is_virtual
    then (if k.destroyed
        then r
        else if not k.agent_notified && net.is_open k.peer
        then send_on net k.peer tcp_close empty
            (with_socket r (record k { destroyed = true; agent_notified = true }))
        else with_socket r (record k { destroyed = true }))
    else emit (socket_destroy r.stream.id) (with_socket r (record k { destroyed = true }))

-- `cleanupTcpStream` behind its guard.
unfoldable pub clean : Net → Run → Run
unfolding destroy_socket run_on_cleanup
clean net r =
    let s = r.stream in
    let marked : Run = record {
      global = record (r.global) { streams = Map.delete s.id r.global.streams };
      stream = record s { cleaned = true; timer = false };
    } in
    run_on_cleanup s.on_cleanup (destroy_socket net marked)

unfoldable pub cleanup_tcp_stream : Net → Run → Run
unfolding clean
cleanup_tcp_stream net r = if r.stream.cleaned then r else clean net r

-- `socket.abort(message)` of a virtual socket.
unfoldable pub abort_socket : Net → String → Run → Run
unfolding send_frame
abort_socket net message r =
    let k = r.stream.socket in
    if k.destroyed
    then r
    else send_on net k.peer tcp_abort (json (says (or_default message "Stream aborted")))
        (with_socket r (record k { destroyed = true; agent_notified = true; close_queued = true }))

abbrev pub notify_client : Net → Bool → String → Run → Run
notify_client net notify reason r =
    if notify && net.is_open r.stream.ws && not r.stream.abort_sent
    then send_on net r.stream.ws tcp_abort (json (says (or_default reason "TCP stream aborted")))
        (with_stream r (record (r.stream) { abort_sent = true }))
    else r

-- Only a virtual socket has the method `abort`.
abbrev pub abort_if_virtual : Net → String → Run → Run
abort_if_virtual net reason r =
    if r.stream.socket.is_virtual
    then abort_socket net (or_default reason "TCP stream aborted") r
    else r

unfoldable pub abort_tcp_stream : Net → String → Bool → Run → Run
unfolding abort_socket clean send_frame
abort_tcp_stream net reason notify r =
    if r.stream.cleaned
    then r
    else cleanup_tcp_stream net (notify_client net notify reason (abort_if_virtual net reason r))

-- `syncTcpBackpressure`
unfoldable pub sync_tcp_backpressure : Net → Run → Run
unfolding send_frame
sync_tcp_backpressure net r =
    let s = r.stream in
    let should_pause = s.agent_paused || s.ws_backpressured in
    if should_pause && not s.client_paused_for_agent
    then send_on net s.ws pause empty (with_stream r (record s { client_paused_for_agent = true }))
    else if not should_pause && s.client_paused_for_agent
    then send_on net s.ws resume empty
        (with_stream r (record s { client_paused_for_agent = false }))
    else r
