-- ===== src/TcpAgent/Requests/Steps.antt =====
-- The ids of the waiting connections through every event of the agent.
use nodejs_wss_service_bridg.Base.{
  ℕ, ◌+◌, ◌<◌, ◌≡◌, refl, ap, ◌∙◌, true, false, ◌&&◌, ◌||◌, not, List, [], ◌∷◌, Option, none, some,
  String, arith, ◌==◌, leb, has, remove, ◌++◌, if◌then◌else◌, if_both, Result, ok, err,
}
use text.Mathlib.Text.{◌==◌ as str_eq}
use nodejs_wss_service_bridg.Base.Map.{get, values}
use nodejs_wss_service_bridg.PortParser.{Route}
use nodejs_wss_service_bridg.Protocol.{
  Bytes, Frame, FrameError, JsonError, parse_frame, tcp_connect_ack, tcp_abort,
}
use nodejs_wss_service_bridg.Server.{Json, null, object, Info, no_info}
use nodejs_wss_service_bridg.Server.Connect.{valid_request_id}
use nodejs_wss_service_bridg.TcpAgent.{
  Net, Config, Pending, Agent, emit, ws_ready, is_missing, close_listener, opened, WebSocket,
}
use nodejs_wss_service_bridg.TcpAgent.Ready.{
  all_listening, mark_ready_if_eligible, clear_ready, write_ready_file, remove_ready_file,
}
use nodejs_wss_service_bridg.TcpAgent.Streams.{cleanup_all}
use nodejs_wss_service_bridg.TcpAgent.Local.{
  remaining, max_safe_integer, allocate_connect_request_id, push_pending, remove_pending,
  on_pending_error, on_connection, on_listening, on_listener_close,
}
use nodejs_wss_service_bridg.TcpAgent.Frames.{
  answers, find_pending, register_found, destroy_found, ack_read, reject_read, handle_frame,
  handle_server_frame, handle_connect_ack, handle_connect_reject,
}
use nodejs_wss_service_bridg.TcpAgent.Connection.{
  connect, close_current, close_listeners, on_open, on_ws_close, on_ws_error, on_ws_drain,
  on_reconnect_timer, shutdown, on_listener_error, schedule_reconnect,
}
use nodejs_wss_service_bridg.TcpAgent.Readiness.{Calm, waiting}
use nodejs_wss_service_bridg.TcpAgent.Readiness.Streams.{
  on_data-Calm, on_sent-Calm, on_drain-Calm, on_error-Calm, on_close-Calm, resume_drained-Calm,
  stream_frame-Calm, register_stream-Calm, cleanup_all-waiting,
}
use nodejs_wss_service_bridg.TcpAgent.Events.{
  Event, step, connection, pending_failed, pending_closed, listening, listener_closed,
  listener_failed, data_read, sent, drained, closed, failed, ws_opened, ws_closed, ws_drained,
  timer, stopped, ws_failed, message,
}
use nodejs_wss_service_bridg.TcpAgent.Requests.{IsNumbered, remaining-IsNumbered, append-IsNumbered}

-- The waiting connections of an agent are numbered.
abbrev pub IsWaiting : Agent → Type 0
IsWaiting a = IsNumbered a.pending_connects a.next_connect_request_id

same-IsWaiting : (a b : Agent) → waiting b ≡ waiting a → IsWaiting a → IsWaiting b
same-IsWaiting a b e h =
    let pending : b.pending_connects ≡ a.pending_connects = ap (λ w. w.0) e in
    let next : b.next_connect_request_id ≡ a.next_connect_request_id = ap (λ w. w.1) e in
    rw (pending, next) h

none-IsWaiting :
    (a b : Agent) → waiting b ≡ ([], a.next_connect_request_id) → IsWaiting a → IsWaiting b
none-IsWaiting a b e h =
    let pending : b.pending_connects ≡ [] = ap (λ w. w.0) e in
    let next : b.next_connect_request_id ≡ a.next_connect_request_id = ap (λ w. w.1) e in
    rw (pending, next) (record { distinct = tt; given = tt; started = h.started })

calm-IsWaiting : (a b : Agent) → Calm a b → IsWaiting a → IsWaiting b
calm-IsWaiting a b c h = same-IsWaiting a b c.waits h

remove_pending-IsWaiting :
    (socket : ℕ) (a : Agent) → IsWaiting a → IsWaiting (remove_pending socket a)
unfolding remove_pending
remove_pending-IsWaiting socket a h =
    remaining-IsNumbered (λ e. e.local_socket == socket) a.next_connect_request_id
      a.pending_connects h

on_connection-IsWaiting :
    (net : Net) (route : Route) (socket : ℕ) (a : Agent)
    → IsWaiting a
    → a.next_connect_request_id < max_safe_integer
    → IsWaiting (on_connection net route socket a)
unfolding on_connection push_pending allocate_connect_request_id
on_connection-IsWaiting net route socket a h room =
    let next = a.next_connect_request_id in
    let below : leb max_safe_integer next ≡ false = ground arith in
    let pushed : IsWaiting (push_pending route socket a) =
      rw below (append-IsNumbered route socket next a.pending_connects h) in
    if_both IsWaiting (not (ws_ready a)) h (
      if_both IsWaiting (net.accepts a.out) pushed
        (remove_pending-IsWaiting socket (push_pending route socket a) pushed))

mark_ready-waiting :
    (net : Net) (config : Config) (a : Agent)
    → waiting (mark_ready_if_eligible net config a) ≡ waiting a
unfolding mark_ready_if_eligible write_ready_file
mark_ready-waiting net config a =
    if_both (λ b. waiting b ≡ waiting a) (a.ready || a.shutting_down) refl
      (if_both (λ b. waiting b ≡ waiting a)
        (not (ws_ready a) || not (all_listening config.routes a.listening_ports)) refl refl)

clear_ready-waiting : (config : Config) (a : Agent) → waiting (clear_ready config a) ≡ waiting a
unfolding clear_ready remove_ready_file
clear_ready-waiting config a =
    if_both (λ b. waiting b ≡ waiting a) (config.has_ready_file && config.file_removed) refl refl

close_current-waiting : (a : Agent) → waiting (close_current a) ≡ waiting a
close_current-waiting a = if_both (λ b. waiting b ≡ waiting a) (is_missing a.ws) refl refl

close_listeners-waiting :
    (routes : List Route) (a : Agent) → waiting (close_listeners routes a) ≡ waiting a
unfolding close_listeners
close_listeners-waiting [] a = refl
close_listeners-waiting (route ∷ routes) a =
    close_listeners-waiting routes (emit (close_listener route.local_port) a)

schedule_reconnect-waiting : (a : Agent) → waiting (schedule_reconnect a) ≡ waiting a
unfolding schedule_reconnect
schedule_reconnect-waiting a =
    if_both (λ b. waiting b ≡ waiting a) (a.auth_failed || a.shutting_down) refl refl

cleanup_all-IsWaiting : (a : Agent) → IsWaiting a → IsWaiting (cleanup_all a)
cleanup_all-IsWaiting a h = none-IsWaiting a (cleanup_all a) (cleanup_all-waiting a) h

shutdown-IsWaiting :
    (config : Config) (code : ℕ) (a : Agent) → IsWaiting a → IsWaiting (shutdown config code a)
unfolding shutdown
shutdown-IsWaiting config code a h =
    let marked : Agent = record a { shutting_down = true; reconnect_timer = false } in
    let stopped = clear_ready config marked in
    let quiet = cleanup_all stopped in
    let listening = close_listeners config.routes quiet in
    if_both IsWaiting a.shutting_down h (
      same-IsWaiting quiet (close_current listening)
        (close_current-waiting listening ∙ close_listeners-waiting config.routes quiet)
        (cleanup_all-IsWaiting stopped
          (same-IsWaiting marked stopped (clear_ready-waiting config marked) h)))

register_found-IsWaiting :
    (id : ℕ) (info : Info) (a : Agent)
    → IsWaiting a
    → IsWaiting (register_found id (find_pending info a.pending_connects) a)
unfolding register_found find_pending
register_found-IsWaiting id info a h = found (find_pending info a.pending_connects) (
    remaining-IsNumbered (answers info (valid_request_id info.request_id)) a.next_connect_request_id
      a.pending_connects h)
  where
    found :
        (o : Option (Pending × List Pending))
        → IsNumbered (remaining a.pending_connects o) a.next_connect_request_id
        → IsWaiting (register_found id o a)
    found none k = k
    found (some (e, rest)) k =
        let spliced : Agent = record a { pending_connects = rest } in
        calm-IsWaiting spliced _ (register_stream-Calm id e.local_socket spliced) k

destroy_found-IsWaiting :
    (info : Info) (a : Agent)
    → IsWaiting a
    → IsWaiting (destroy_found (find_pending info a.pending_connects) a)
unfolding destroy_found find_pending
destroy_found-IsWaiting info a h = found (find_pending info a.pending_connects) (
    remaining-IsNumbered (answers info (valid_request_id info.request_id)) a.next_connect_request_id
      a.pending_connects h)
  where
    found :
        (o : Option (Pending × List Pending))
        → IsNumbered (remaining a.pending_connects o) a.next_connect_request_id
        → IsWaiting (destroy_found o a)
    found none k = k
    found (some (e, rest)) k = k

-- If the listener returns, then the waiting connections are numbered.
abbrev Leaves : Option Agent → Type 0
Leaves none = Unit
Leaves (some b) = IsWaiting b

ack_read-Leaves :
    (id : ℕ) (r : Result JsonError Json) (a : Agent) → IsWaiting a → Leaves (ack_read id r a)
unfolding ack_read
ack_read-Leaves id (err e) a h = h
ack_read-Leaves id (ok null) a h = tt
ack_read-Leaves id (ok (object info)) a h = register_found-IsWaiting id info a h

reject_read-Leaves :
    (r : Result JsonError Json) (a : Agent) → IsWaiting a → Leaves (reject_read r a)
unfolding reject_read
reject_read-Leaves (err e) a h = destroy_found-IsWaiting no_info a h
reject_read-Leaves (ok null) a h = tt
reject_read-Leaves (ok (object info)) a h = destroy_found-IsWaiting info a h

module _ (net : Net) (config : Config) (parse : Bytes → Option Json) where
  handle_frame-Leaves :
      (r : Result FrameError Frame) (a : Agent) → IsWaiting a → Leaves (handle_frame net parse r a)
  unfolding handle_frame handle_connect_ack handle_connect_reject
  handle_frame-Leaves (err e) a h = h
  handle_frame-Leaves (ok f) a h =
      if_both Leaves (f.type == tcp_connect_ack) (ack_read-Leaves f.stream_id _ a h) (
        if_both Leaves (f.type == tcp_abort && f.stream_id == 0) (reject_read-Leaves _ a h) (
          calm-IsWaiting a _
            (stream_frame-Calm net f.type f.payload (get f.stream_id a.streamed_sockets) a) h))

  on_ws_error-IsWaiting : (text : String) (a : Agent) → IsWaiting a → IsWaiting (on_ws_error text a)
  unfolding on_ws_error
  on_ws_error-IsWaiting text a h =
      if_both IsWaiting (str_eq text "Unexpected server response: 401") h h

  on_listener_error-IsWaiting : (a : Agent) → IsWaiting a → IsWaiting (on_listener_error config a)
  unfolding on_listener_error
  on_listener_error-IsWaiting a h =
      let cleared = clear_ready config a in
      let idle = same-IsWaiting a cleared (clear_ready-waiting config a) h in
      if_both IsWaiting a.ready idle (shutdown-IsWaiting config 1 cleared idle)

  on_ws_close-IsWaiting : (a : Agent) → IsWaiting a → IsWaiting (on_ws_close config a)
  unfolding on_ws_close
  on_ws_close-IsWaiting a h =
      let lost : Agent = record a { ws = WebSocket.closed } in
      let cleared = clear_ready config lost in
      same-IsWaiting (cleanup_all cleared) (schedule_reconnect (cleanup_all cleared))
        (schedule_reconnect-waiting (cleanup_all cleared))
        (cleanup_all-IsWaiting cleared
          (same-IsWaiting lost cleared (clear_ready-waiting config lost) h))

  on_reconnect_timer-IsWaiting : (a : Agent) → IsWaiting a → IsWaiting (on_reconnect_timer a)
  unfolding on_reconnect_timer connect
  on_reconnect_timer-IsWaiting a h =
      let b : Agent = record a {
        reconnect_timer = false;
        reconnect_attempt = a.reconnect_attempt + 1;
      } in
      same-IsWaiting b (connect b) (close_current-waiting b) h

  step-Leaves :
      (e : Event) (a : Agent)
      → IsWaiting a
      → a.next_connect_request_id < max_safe_integer
      → Leaves (step net config parse e a)
  unfolding step handle_server_frame on_pending_error on_listening on_listener_close on_open
      on_ws_drain
  step-Leaves (connection route socket) a h room = on_connection-IsWaiting net route socket a h room
  step-Leaves (pending_failed socket) a h room = remove_pending-IsWaiting socket a h
  step-Leaves (pending_closed socket) a h room = remove_pending-IsWaiting socket a h
  step-Leaves (listening port) a h room =
      let b : Agent = record a {
        listening_ports =
            if has port a.listening_ports
            then a.listening_ports
            else a.listening_ports ++ port ∷ [];
      } in
      same-IsWaiting b (mark_ready_if_eligible net config b) (mark_ready-waiting net config b) h
  step-Leaves (listener_closed port) a h room =
      let b : Agent = record a { listening_ports = remove port a.listening_ports } in
      same-IsWaiting b (clear_ready config b) (clear_ready-waiting config b) h
  step-Leaves listener_failed a h room = on_listener_error-IsWaiting a h
  step-Leaves (data_read ref chunk) a h room =
      calm-IsWaiting a _ (on_data-Calm net config ref chunk a) h
  step-Leaves (sent ref) a h room = calm-IsWaiting a _ (on_sent-Calm net config ref a) h
  step-Leaves (drained ref) a h room = calm-IsWaiting a _ (on_drain-Calm net ref a) h
  step-Leaves (closed ref) a h room = calm-IsWaiting a _ (on_close-Calm net ref a) h
  step-Leaves (failed ref text) a h room = calm-IsWaiting a _ (on_error-Calm net ref text a) h
  step-Leaves ws_opened a h room =
      let b : Agent = record a {
        ws = opened;
        reconnect_attempt = 0;
        reconnect_delay = config.reconnect_delay_ms;
        auth_failed = false;
      } in
      same-IsWaiting b (mark_ready_if_eligible net config b) (mark_ready-waiting net config b) h
  step-Leaves ws_closed a h room = on_ws_close-IsWaiting a h
  step-Leaves ws_drained a h room =
      calm-IsWaiting a _ (resume_drained-Calm net config (values a.streamed_sockets) a) h
  step-Leaves timer a h room = on_reconnect_timer-IsWaiting a h
  step-Leaves stopped a h room = shutdown-IsWaiting config 0 a h
  step-Leaves (ws_failed text) a h room = on_ws_error-IsWaiting text a h
  step-Leaves (message m) a h room = handle_frame-Leaves (parse_frame m) a h

  -- Every event whose listener returns keeps the waiting connections numbered: no two of them have
  -- the same request id, and each id was given out. The next id must be below the largest safe
  -- integer, where the ids start again.
  pub step-IsWaiting :
      (e : Event) (a b : Agent)
      → IsWaiting a
      → a.next_connect_request_id < max_safe_integer
      → step net config parse e a ≡ some b
      → IsWaiting b
  step-IsWaiting e a b h room returned = rw returned at (step-Leaves e a h room)
