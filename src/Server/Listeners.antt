-- ===== src/Server/Listeners.antt =====
-- What each listener and frame handler of a TCP stream does to the shared books.
use nodejs_wss_service_bridg.Base.{
  inl, Bool, true, false, not, ◌&&◌, ◌||◌, List, [], ◌∷◌, Option, none, some, String, arith,
  if_elim, if_both, leb, ◌+◌, ◌-◌, if◌then◌else◌,
}
use nodejs_wss_service_bridg.Protocol.{Bytes, tcp_data}
use nodejs_wss_service_bridg.Server.{
  Net, Config, Run, Json, null, object, Info, send_frame, reset_idle_timeout, with_stream,
  with_socket, emit, send, bytes,
}
use nodejs_wss_service_bridg.Server.Cleanup.{abort_socket, abort_tcp_stream, sync_tcp_backpressure}
use nodejs_wss_service_bridg.Server.Socket.{
  on_drain, pause_socket, throttle, on_data, emit_data, resume_socket, sync_socket_read_state,
  on_sent, on_close, on_error, push_inbound, end_from_agent, abort_from_agent, run_microtask,
  write_socket, on_agent_sent, ended_by_agent, may_read_on, count_sent,
}
use nodejs_wss_service_bridg.Server.ClientFrames.{
  confirm, handle_tcp_data, handle_open_ack, reject_connect, handle_client_abort, client_message,
  timed,
}
use nodejs_wss_service_bridg.Server.Counting.{
  Keeps, Settles, Keeps-refl, Keeps-trans, Keeps-Settles, Settles-trans, cleanup_tcp_stream-Settles,
  abort_tcp_stream-Settles, sync_tcp_backpressure-Keeps,
}

pub pause_socket-Keeps : (net : Net) (r : Run) → Keeps r (pause_socket net r)
unfolding pause_socket send_frame
pause_socket-Keeps net r = ground arith

pub throttle-Keeps : (net : Net) (config : Config) (r : Run) → Keeps r (throttle net config r)
unfolding throttle pause_socket send_frame
throttle-Keeps net config r = ground arith

pub on_drain-Keeps : (net : Net) (r : Run) → Keeps r (on_drain net r)
unfolding on_drain sync_tcp_backpressure send_frame
on_drain-Keeps net r = ground arith

pub on_data-Settles :
    (net : Net) (config : Config) (chunk : Bytes) (r : Run) → Settles r (on_data net config chunk r)
unfolding on_data reset_idle_timeout
on_data-Settles net config chunk r = if_both (Settles r) r.stream.cleaned (inl (Keeps-refl r)) (
    if_both (Settles r) (not (net.is_open r.stream.ws))
      (Keeps-Settles (ground arith)
        (abort_tcp_stream-Settles net "Failed to send TCP_DATA" true timed_run))
      (if_both (Settles r) (not (net.accepts r.stream.ws))
        (Keeps-Settles (ground arith)
          (abort_tcp_stream-Settles net "Failed to send TCP_DATA" true counted))
        (inl (
          Keeps-trans {q = emit (send r.stream.ws tcp_data r.stream.id (bytes chunk)) counted}
            (ground arith) (throttle-Keeps net config _)))))
  where
    timed_run : Run
    timed_run = timed config r

    counted : Run
    counted =
        with_stream timed_run
          (record (timed_run.stream) { pending_sends = timed_run.stream.pending_sends + 1 })

pub emit_data-Settles :
    (net : Net) (config : Config) (chunks : List Bytes) (r : Run)
    → Settles r (emit_data net config chunks r)
unfolding emit_data
emit_data-Settles net config [] r = inl (Keeps-refl r)
emit_data-Settles net config (chunk ∷ chunks) r =
    Settles-trans (on_data-Settles net config chunk r)
      (emit_data-Settles net config chunks (on_data net config chunk r))

pub resume_socket-Settles :
    (net : Net) (config : Config) (r : Run) → Settles r (resume_socket net config r)
unfolding resume_socket send_frame
resume_socket-Settles net config r =
    if_elim (Settles r) r.stream.socket.is_virtual
      (λ v.
        if_elim (Settles r) r.stream.socket.paused
          (λ p.
            Settles-trans
              (Keeps-Settles (ground arith) (
                emit_data-Settles net config r.stream.socket.buffered (
                  with_socket r (record (r.stream.socket) {
                    paused = false;
                    buffered = [];
                    buffered_bytes = 0;
                  }))))
              (inl (ground arith)))
          (λ p. inl (Keeps-refl r)))
      (λ v. inl (ground arith))

pub sync_socket_read_state-Settles :
    (net : Net) (config : Config) (r : Run) → Settles r (sync_socket_read_state net config r)
unfolding sync_socket_read_state
sync_socket_read_state-Settles net config r =
    if_elim (Settles r) r.stream.socket.destroyed (λ d. inl (Keeps-refl r))
      (λ d.
        if_elim (Settles r) (r.stream.peer_paused_read || r.stream.local_paused_for_ws)
          (λ p. inl (pause_socket-Keeps net r)) (λ p. resume_socket-Settles net config r))

pub on_sent-Settles : (net : Net) (config : Config) (r : Run) → Settles r (on_sent net config r)
unfolding on_sent
on_sent-Settles net config r =
    if_both (Settles r) (may_read_on net config (count_sent r))
      (Keeps-Settles
        {q = with_stream r (record (r.stream) {
          pending_sends = r.stream.pending_sends - 1;
          local_paused_for_ws = false;
        })}
        (ground arith) (sync_socket_read_state-Settles net config _))
      (inl (ground arith))

pub on_close-Settles : (net : Net) (r : Run) → Settles r (on_close net r)
unfolding on_close send_frame
on_close-Settles net r =
    if_both (Settles r) r.stream.cleaned (inl (Keeps-refl r))
      (Keeps-Settles (ground arith) (cleanup_tcp_stream-Settles net _))

pub on_error-Settles : (net : Net) (m : String) (r : Run) → Settles r (on_error net m r)
unfolding on_error send_frame
on_error-Settles net m r =
    if_both (Settles r) r.stream.cleaned (inl (Keeps-refl r))
      (Keeps-Settles (ground arith) (abort_tcp_stream-Settles net m false _))

pub push_inbound-Settles :
    (net : Net) (config : Config) (chunk : Bytes) (r : Run)
    → Settles r (push_inbound net config chunk r)
unfolding push_inbound abort_socket send_frame
push_inbound-Settles net config chunk r =
    if_both (Settles r) r.stream.socket.destroyed (inl (Keeps-refl r)) (
      if_both (Settles r) r.stream.socket.paused (inl (ground arith))
        (on_data-Settles net config chunk r))

pub end_from_agent-Settles : (net : Net) (r : Run) → Settles r (end_from_agent net r)
unfolding end_from_agent
end_from_agent-Settles net r =
    if_both (Settles r) r.stream.socket.destroyed (inl (Keeps-refl r)) (
      Keeps-Settles {q = ended_by_agent r} (ground arith) (on_close-Settles net (ended_by_agent r)))

pub abort_from_agent-Settles :
    (net : Net) (m : Option String) (r : Run) → Settles r (abort_from_agent net m r)
unfolding abort_from_agent
abort_from_agent-Settles net m r =
    if_both (Settles r) r.stream.socket.destroyed (inl (Keeps-refl r)) (
      Keeps-Settles {q = ended_by_agent r} (ground arith) (
        on_error-Settles net (elim m [ none ↦ "Agent aborted stream" | some text ↦ text ])
          (ended_by_agent r)))

pub run_microtask-Settles : (net : Net) (r : Run) → Settles r (run_microtask net r)
unfolding run_microtask
run_microtask-Settles net r =
    if_both (Settles r) r.stream.socket.close_queued
      (Keeps-Settles {q = with_socket r (record (r.stream.socket) { close_queued = false })}
        (ground arith) (on_close-Settles net _))
      (inl (Keeps-refl r))

pub on_agent_sent-Settles :
    (net : Net) (config : Config) (r : Run) → Settles r (on_agent_sent net config r)
unfolding on_agent_sent
on_agent_sent-Settles net config r =
    if_both (Settles r)
      (not r.stream.socket.destroyed
        && (r.stream.socket.pending_drain
            && leb (net.buffered_amount r.stream.socket.peer r.global.out) config.ws_low_water))
      (inl (
        Keeps-trans {q = with_socket r (record (r.stream.socket) { pending_drain = false })}
          (ground arith) (on_drain-Keeps net _)))
      (inl (Keeps-refl r))

pub write_socket-Keeps :
    (net : Net) (config : Config) (chunk : Bytes) (r : Run)
    → Keeps r (write_socket net config chunk r).0
unfolding write_socket
write_socket-Keeps net config chunk r = ground arith

pub handle_tcp_data-Settles :
    (net : Net) (config : Config) (payload : Bytes) (r : Run)
    → Settles r (handle_tcp_data net config payload r)
unfolding handle_tcp_data
handle_tcp_data-Settles net config payload r =
    if_both (Settles r) r.stream.socket.destroyed (inl (Keeps-refl r)) (
      answered (write_socket net config payload r).0 (write_socket-Keeps net config payload r)
        (write_socket net config payload r).1)
  where
    answered :
        (w : Run)
        → Keeps r w
        → (answer : Option Bool)
        → Settles r (elim answer [
          | none ↦ abort_tcp_stream net "Failed to write TCP socket" true w
          | some taken ↦
              if not taken && not w.stream.ws_backpressured
              then sync_tcp_backpressure net
                  (with_stream w (record (w.stream) { ws_backpressured = true }))
              else w
        ])
    answered w k none =
        Keeps-Settles k (abort_tcp_stream-Settles net "Failed to write TCP socket" true w)
    answered w k (some taken) =
        if_both (Settles r) (not taken && not w.stream.ws_backpressured)
          (inl (
            Keeps-trans k (
              Keeps-trans {q = with_stream w (record (w.stream) { ws_backpressured = true })}
                (ground arith) (sync_tcp_backpressure-Keeps net _))))
          (inl k)

pub reject_connect-Keeps : (net : Net) (info : Info) (r : Run) → Keeps r (reject_connect net info r)
unfolding reject_connect send_frame
reject_connect-Keeps net info r = ground arith

pub handle_client_abort-Settles :
    (net : Net) (j : Json) (r : Run) → Settles r (handle_client_abort net j r)
unfolding handle_client_abort
handle_client_abort-Settles net null r =
    abort_tcp_stream-Settles net "Bad frame from tunnel client" false r
handle_client_abort-Settles net (object info) r =
    Keeps-Settles (reject_connect-Keeps net info r)
      (abort_tcp_stream-Settles net (client_message info) false (reject_connect net info r))

pub handle_open_ack-Keeps : (net : Net) (r : Run) → Keeps r (handle_open_ack net r)
unfolding handle_open_ack confirm send_frame
handle_open_ack-Keeps net r = ground arith

pub timed-Keeps : (config : Config) (r : Run) → Keeps r (timed config r)
unfolding reset_idle_timeout
timed-Keeps config r = ground arith
