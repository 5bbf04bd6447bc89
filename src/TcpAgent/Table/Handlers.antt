-- ===== src/TcpAgent/Table/Handlers.antt =====
-- The agent's table of streams through the handlers of frames, connections and the WebSocket.
use Prim.Native.Nat.{min}
use nodejs_wss_service_bridg.Base.{
  ℕ, ◌+◌, ◌≡◌, refl, Bool, true, false, ◌&&◌, ◌||◌, not, List, [], ◌∷◌, Option, none, some, ◌==◌,
  if_both, if_elim, remove, ◌*◌,
}
use nodejs_wss_service_bridg.Base.Map.{get}
use nodejs_wss_service_bridg.PortParser.{Route}
use nodejs_wss_service_bridg.Protocol.{Bytes, tcp_abort, tcp_data, tcp_close, pause, resume}
use nodejs_wss_service_bridg.TcpAgent.{
  connecting, opened, closed, close_listener, exit, Net, Config, Pending, Agent, ws_ready,
  is_missing,
}
use nodejs_wss_service_bridg.TcpAgent.Ready.{
  all_listening, mark_ready_if_eligible, clear_ready, write_ready_file, remove_ready_file,
}
use nodejs_wss_service_bridg.TcpAgent.Local.{
  remove_pending, on_pending_error, on_connection, on_listening, on_listener_close, push_pending,
}
use nodejs_wss_service_bridg.TcpAgent.Frames.{
  register_found, destroy_found, stream_frame, entry_frame, data_written,
}
use nodejs_wss_service_bridg.TcpAgent.Connection.{
  connect, on_open, on_ws_close, on_reconnect_timer, shutdown, on_listener_error,
  schedule_reconnect, close_listeners, close_current, after_close,
}
use nodejs_wss_service_bridg.TcpAgent.Cleanup.{cleanup_all-empty}
use nodejs_wss_service_bridg.TcpAgent.Table.{
  IsAgent, change-IsTable, same-IsTable, emit-IsTable, destroy-IsTable, drop-IsTable,
  register_stream-IsTable, send_frame-IsTable, sync_read_state-IsTable, abort_stream-IsTable,
}

data_written-IsTable :
    (net : Net) (ref : ℕ) (payload : Bytes) (answer : Option Bool) (a : Agent)
    → IsAgent a
    → IsAgent (data_written net ref payload answer a)
unfolding data_written
data_written-IsTable net ref payload none a h = abort_stream-IsTable net ref _ a h
data_written-IsTable net ref payload (some taken) a h =
    let e = a.entries ref in
    let wrote = emit-IsTable _ a h in
    if_both IsAgent (not taken && not e.local_write_backpressured)
      (send_frame-IsTable net _ _ _ _
        (change-IsTable ref (record e { local_write_backpressured = true }) _ wrote refl refl))
      wrote

pub stream_frame-IsTable :
    (net : Net) (type : ℕ) (payload : Bytes) (o : Option ℕ) (a : Agent)
    → IsAgent a
    → IsAgent (stream_frame net type payload o a)
unfolding stream_frame entry_frame
stream_frame-IsTable net type payload none a h = h
stream_frame-IsTable net type payload (some ref) a h =
    let e = a.entries ref in
    if_elim IsAgent e.cleaned (λ _. h)
      (λ l. if_both IsAgent (type == tcp_data) (data_written-IsTable net ref payload _ a h) (
        if_both IsAgent (type == tcp_close) (emit-IsTable _ _ (drop-IsTable ref a h l)) (
          if_both IsAgent (type == tcp_abort) (destroy-IsTable _ _ (drop-IsTable ref a h l)) (
            if_both IsAgent (type == pause)
              (sync_read_state-IsTable ref _
                (change-IsTable ref (record e { peer_paused_read = true }) a h refl refl))
              (if_both IsAgent (type == resume)
                (sync_read_state-IsTable ref _
                  (change-IsTable ref (record e { peer_paused_read = false }) a h refl refl))
                h)))))

-- A change of the pending connections and of the calls.
pending-IsTable :
    (pending : List Pending) (next : ℕ) (a : Agent)
    → IsAgent a
    → IsAgent (record a { pending_connects = pending; next_connect_request_id = next })
pending-IsTable pending next a h =
    same-IsTable a (record a { pending_connects = pending; next_connect_request_id = next }) h refl
      refl refl

pub remove_pending-IsTable :
    (socket : ℕ) (a : Agent) → IsAgent a → IsAgent (remove_pending socket a)
unfolding remove_pending
remove_pending-IsTable socket a h = pending-IsTable _ a.next_connect_request_id a h

pub on_connection-IsTable :
    (net : Net) (route : Route) (socket : ℕ) (a : Agent)
    → IsAgent a
    → IsAgent (on_connection net route socket a)
unfolding on_connection push_pending
on_connection-IsTable net route socket a h =
    let pushed : IsAgent (push_pending route socket a) = pending-IsTable _ _ a h in
    if_both IsAgent (not (ws_ready a)) (destroy-IsTable socket a h) (
      if_both IsAgent (net.accepts a.out) (emit-IsTable _ (push_pending route socket a) pushed)
        (destroy-IsTable socket _ (remove_pending-IsTable socket _ pushed)))

pub register_found-IsTable :
    (id : ℕ) (o : Option (Pending × List Pending)) (a : Agent)
    → IsAgent a
    → get id a.streamed_sockets ≡ none
    → IsAgent (register_found id o a)
unfolding register_found
register_found-IsTable id none a h fresh = h
register_found-IsTable id (some (e, rest)) a h fresh =
    register_stream-IsTable id e.local_socket _ (pending-IsTable rest a.next_connect_request_id a h)
      fresh

pub destroy_found-IsTable :
    (o : Option (Pending × List Pending)) (a : Agent) → IsAgent a → IsAgent (destroy_found o a)
unfolding destroy_found
destroy_found-IsTable none a h = h
destroy_found-IsTable (some (e, rest)) a h =
    destroy-IsTable e.local_socket _ (pending-IsTable rest a.next_connect_request_id a h)

-- A change of the readiness.
pub mark_ready_if_eligible-IsTable :
    (net : Net) (config : Config) (a : Agent)
    → IsAgent a
    → IsAgent (mark_ready_if_eligible net config a)
unfolding mark_ready_if_eligible write_ready_file
mark_ready_if_eligible-IsTable net config a h = if_both IsAgent (a.ready || a.shutting_down) h (
    if_both IsAgent (not (ws_ready a) || not (all_listening config.routes a.listening_ports)) h (
      same-IsTable a
        (record a {
          ready = true;
          ready_file = config.has_ready_file && net.file_written || a.ready_file;
        })
        h refl refl refl))

pub clear_ready-IsTable : (config : Config) (a : Agent) → IsAgent a → IsAgent (clear_ready config a)
unfolding clear_ready remove_ready_file
clear_ready-IsTable config a h =
    if_both IsAgent (config.has_ready_file && config.file_removed)
      (same-IsTable a (record a { ready = false; ready_file = false }) h refl refl refl)
      (same-IsTable a (record a { ready = false }) h refl refl refl)

pub close_current-IsTable : (a : Agent) → IsAgent a → IsAgent (close_current a)
close_current-IsTable a h =
    if_both IsAgent (is_missing a.ws) h
      (emit-IsTable _ _ (same-IsTable a (record a { ws = after_close a.ws }) h refl refl refl))

pub connect-IsTable : (a : Agent) → IsAgent a → IsAgent (connect a)
unfolding connect
connect-IsTable a h =
    let closing = close_current-IsTable a h in
    emit-IsTable _ _ (
      same-IsTable (close_current a) (record (close_current a) { ws = connecting }) closing refl
        refl refl)

pub schedule_reconnect-IsTable : (a : Agent) → IsAgent a → IsAgent (schedule_reconnect a)
unfolding schedule_reconnect
schedule_reconnect-IsTable a h = if_both IsAgent (a.auth_failed || a.shutting_down) h (
    same-IsTable a
      (record a { reconnect_timer = true; reconnect_delay = min (a.reconnect_delay * 2) 30000 }) h
      refl refl refl)

pub close_listeners-IsTable :
    (routes : List Route) (a : Agent) → IsAgent a → IsAgent (close_listeners routes a)
unfolding close_listeners
close_listeners-IsTable [] a h = h
close_listeners-IsTable (route ∷ routes) a h =
    close_listeners-IsTable routes _ (emit-IsTable (close_listener route.local_port) a h)

pub on_ws_close-IsTable : (config : Config) (a : Agent) → IsAgent a → IsAgent (on_ws_close config a)
unfolding on_ws_close
on_ws_close-IsTable config a h =
    let b : Agent = record a { ws = closed } in
    let idle = clear_ready-IsTable config b (same-IsTable a b h refl refl refl) in
    schedule_reconnect-IsTable _ (cleanup_all-empty (clear_ready config b) idle).0

pub shutdown-IsTable :
    (config : Config) (code : ℕ) (a : Agent) → IsAgent a → IsAgent (shutdown config code a)
unfolding shutdown
shutdown-IsTable config code a h =
    let b : Agent = record a { shutting_down = true; reconnect_timer = false } in
    let idle = clear_ready-IsTable config b (same-IsTable a b h refl refl refl) in
    let empty = (cleanup_all-empty (clear_ready config b) idle).0 in
    if_both IsAgent a.shutting_down h (
      emit-IsTable (exit code) _
        (close_current-IsTable _ (close_listeners-IsTable config.routes _ empty)))

pub on_listener_error-IsTable :
    (config : Config) (a : Agent) → IsAgent a → IsAgent (on_listener_error config a)
unfolding on_listener_error
on_listener_error-IsTable config a h =
    let idle = clear_ready-IsTable config a h in
    if_both IsAgent a.ready idle (shutdown-IsTable config 1 _ idle)

pub on_pending_error-IsTable :
    (socket : ℕ) (a : Agent) → IsAgent a → IsAgent (on_pending_error socket a)
unfolding on_pending_error
on_pending_error-IsTable socket a h =
    destroy-IsTable socket (remove_pending socket a) (remove_pending-IsTable socket a h)

-- A change of the set of listening ports.
ports-IsTable :
    (ports : List ℕ) (a : Agent) → IsAgent a → IsAgent (record a { listening_ports = ports })
ports-IsTable ports a h = same-IsTable a (record a { listening_ports = ports }) h refl refl refl

pub on_listening-IsTable :
    (net : Net) (config : Config) (port : ℕ) (a : Agent)
    → IsAgent a
    → IsAgent (on_listening net config port a)
unfolding on_listening
on_listening-IsTable net config port a h =
    mark_ready_if_eligible-IsTable net config _ (ports-IsTable _ a h)

pub on_listener_close-IsTable :
    (config : Config) (port : ℕ) (a : Agent) → IsAgent a → IsAgent (on_listener_close config port a)
unfolding on_listener_close
on_listener_close-IsTable config port a h =
    clear_ready-IsTable config _ (ports-IsTable (remove port a.listening_ports) a h)

pub on_open-IsTable :
    (net : Net) (config : Config) (a : Agent) → IsAgent a → IsAgent (on_open net config a)
unfolding on_open
on_open-IsTable net config a h =
    let b : Agent = record a {
      ws = opened;
      reconnect_attempt = 0;
      reconnect_delay = config.reconnect_delay_ms;
      auth_failed = false;
    } in
    mark_ready_if_eligible-IsTable net config b (same-IsTable a b h refl refl refl)

pub on_reconnect_timer-IsTable : (a : Agent) → IsAgent a → IsAgent (on_reconnect_timer a)
unfolding on_reconnect_timer
on_reconnect_timer-IsTable a h =
    let b : Agent = record a {
      reconnect_timer = false;
      reconnect_attempt = a.reconnect_attempt + 1;
    } in
    connect-IsTable b (same-IsTable a b h refl refl refl)
