-- ===== src/TunnelClient/Table/Handlers.antt =====
-- Every handler of the tunnel client keeps its table.
use nodejs_wss_service_bridg.Base.{
  ℕ, ◌+◌, ◌≡◌, refl, Bool, ◌&&◌, ◌||◌, not, none, String, leb, ltb, if◌then◌else◌, if_both, if_elim,
  length,
}
use nodejs_wss_service_bridg.Base.Map.{get, put}
use nodejs_wss_service_bridg.Protocol.{Bytes}
use nodejs_wss_service_bridg.Server.{Info}
use nodejs_wss_service_bridg.TunnelClient.{
  Reason, Body, Net, Config, Client, change, emit, send_frame, reset_idle_timer, Effect,
}
use nodejs_wss_service_bridg.TunnelClient.TcpHandler.{
  cleanup_tcp_state, cleaned_tcp, sync_socket_read_state, send_tcp_abort, open_stream, open_checked,
  new_stream, allows, abort_and_clean,
}
use nodejs_wss_service_bridg.TunnelClient.LocalSocket.{
  on_connect, on_drain, throttle, on_data, on_sent, on_timeout, on_close, on_error,
}
use nodejs_wss_service_bridg.TunnelClient.Frames.{cleanup_stream, marked, send_res_abort}
use nodejs_wss_service_bridg.TunnelClient.Table.{
  IsClient, change-IsTable, drop-IsTable, add-IsTable, emit-IsTable, sockets-IsTable,
}

pub send_frame-IsTable :
    (net : Net) (ws type id : ℕ) (body : Body) (c : Client)
    → IsClient c
    → IsClient (send_frame net ws type id body c)
unfolding send_frame
send_frame-IsTable net ws type id body c h =
    if_both IsClient (net.is_open ws && net.accepts ws) (emit-IsTable _ c h) h

pub send_tcp_abort-IsTable :
    (net : Net) (ws id : ℕ) (reason : Reason) (c : Client)
    → IsClient c
    → IsClient (send_tcp_abort net ws id reason c)
unfolding send_tcp_abort
send_tcp_abort-IsTable net ws id reason c h = send_frame-IsTable net ws _ id _ c h

pub reset_idle_timer-IsTable :
    (config : Config) (ref : ℕ) (c : Client) → IsClient c → IsClient (reset_idle_timer config ref c)
unfolding reset_idle_timer
reset_idle_timer-IsTable config ref c h = change-IsTable ref _ c h refl refl

pub cleanup_tcp_state-IsTable :
    (ref : ℕ) (c : Client) → IsClient c → IsClient (cleanup_tcp_state ref c)
unfolding cleanup_tcp_state
cleanup_tcp_state-IsTable ref c h =
    if_elim IsClient (c.objects ref).cleaned (λ _. h)
      (λ l.
        let dropped = drop-IsTable ref (cleaned_tcp (c.objects ref)) c h l refl in
        if_both IsClient (c.objects ref).local_socket
          (emit-IsTable _ _ (sockets-IsTable _ _ dropped)) dropped)

emit_if-IsTable :
    (b : Bool) (e : Effect) (c : Client) → IsClient c → IsClient (if b then emit e c else c)
emit_if-IsTable b e c h = if_both IsClient b (emit-IsTable e c h) h

pub cleanup_stream-IsTable : (ref : ℕ) (c : Client) → IsClient c → IsClient (cleanup_stream ref c)
unfolding cleanup_stream
cleanup_stream-IsTable ref c h =
    let s = c.objects ref in
    if_elim IsClient s.cleaned (λ _. h)
      (λ l.
        let dropped = drop-IsTable ref (marked s) c h l refl in
        emit_if-IsTable s.local_res _ _
          (emit_if-IsTable s.local_req _ _ (emit_if-IsTable s.response_writer _ _ dropped)))

pub sync_socket_read_state-IsTable :
    (ref : ℕ) (c : Client) → IsClient c → IsClient (sync_socket_read_state ref c)
unfolding sync_socket_read_state
sync_socket_read_state-IsTable ref c h =
    let s = c.objects ref in
    if_both IsClient (not s.local_socket || c.socket_destroyed ref) h (
      if_both IsClient (s.peer_paused_read || s.local_paused_for_ws) (emit-IsTable _ c h)
        (emit-IsTable _ c h))

pub abort_and_clean-IsTable :
    (net : Net) (ref : ℕ) (reason : Reason) (c : Client)
    → IsClient c
    → IsClient (abort_and_clean net ref reason c)
abort_and_clean-IsTable net ref reason c h =
    cleanup_tcp_state-IsTable ref _
      (send_tcp_abort-IsTable net (c.objects ref).ws (c.objects ref).id reason c h)

pub open_stream-IsTable :
    (config : Config) (ws id : ℕ) (meta : Info) (c : Client)
    → IsClient c
    → get id c.streams ≡ none
    → IsClient (open_stream config ws id meta c)
unfolding open_stream
open_stream-IsTable config ws id meta c h fresh = emit-IsTable _ _ (
    change-IsTable c.next_object _ _
      (sockets-IsTable _ _ (
        reset_idle_timer-IsTable config c.next_object
          (record (change c.next_object (new_stream id ws) c) {
            streams = put id c.next_object c.streams;
            next_object = c.next_object + 1;
          })
          (add-IsTable id (new_stream id ws) c h fresh refl refl)))
      refl refl)

pub open_checked-IsTable :
    (net : Net) (config : Config) (ws id : ℕ) (meta : Info) (c : Client)
    → IsClient c
    → get id c.streams ≡ none
    → IsClient (open_checked net config ws id meta c)
unfolding open_checked
open_checked-IsTable net config ws id meta c h fresh =
    if_both IsClient (not (allows config.allowed_hosts meta.host))
      (send_tcp_abort-IsTable net ws id _ c h)
      (if_both IsClient (leb config.max_concurrent_streams (length c.streams))
        (send_tcp_abort-IsTable net ws id _ c h) (open_stream-IsTable config ws id meta c h fresh))

pub on_connect-IsTable :
    (net : Net) (config : Config) (ref : ℕ) (c : Client)
    → IsClient c
    → IsClient (on_connect net config ref c)
unfolding on_connect
on_connect-IsTable net config ref c h =
    send_frame-IsTable net (c.objects ref).ws _ (c.objects ref).id _ _
      (reset_idle_timer-IsTable config ref _ (change-IsTable ref _ c h refl refl))

pub on_drain-IsTable :
    (net : Net) (ref : ℕ) (c : Client) → IsClient c → IsClient (on_drain net ref c)
unfolding on_drain
on_drain-IsTable net ref c h =
    let s = c.objects ref in
    if_both IsClient s.cleaned h (
      if_both IsClient (s.local_write_backpressured && net.is_open s.ws)
        (send_frame-IsTable net s.ws _ s.id _ _ (change-IsTable ref _ c h refl refl)) h)

throttle-IsTable :
    (net : Net) (config : Config) (ref : ℕ) (c : Client)
    → IsClient c
    → IsClient (throttle net config ref c)
unfolding throttle
throttle-IsTable net config ref c h =
    if_both IsClient
      (ltb config.ws_high_water (net.buffered_amount (c.objects ref).ws c.out)
        && not (c.objects ref).local_paused_for_ws)
      (sync_socket_read_state-IsTable ref _ (change-IsTable ref _ c h refl refl)) h

pub on_data-IsTable :
    (net : Net) (config : Config) (ref : ℕ) (chunk : Bytes) (c : Client)
    → IsClient c
    → IsClient (on_data net config ref chunk c)
unfolding on_data
on_data-IsTable net config ref chunk c h =
    let timed = reset_idle_timer-IsTable config ref c h in
    let s = (reset_idle_timer config ref c).objects ref in
    let counted =
      change-IsTable ref (record s { pending_sends = s.pending_sends + 1 })
        (reset_idle_timer config ref c) timed refl refl in
    if_both IsClient (c.objects ref).cleaned h (
      if_both IsClient (not (net.is_open s.ws)) (abort_and_clean-IsTable net ref _ _ timed) (
        if_both IsClient (not (net.accepts s.ws)) (abort_and_clean-IsTable net ref _ _ counted)
          (throttle-IsTable net config ref _ (emit-IsTable _ _ counted))))

pub on_sent-IsTable :
    (net : Net) (config : Config) (ref : ℕ) (c : Client)
    → IsClient c
    → IsClient (on_sent net config ref c)
unfolding on_sent
on_sent-IsTable net config ref c h =
    if_both IsClient _ (sync_socket_read_state-IsTable ref _ (change-IsTable ref _ c h refl refl))
      (change-IsTable ref _ c h refl refl)

pub on_timeout-IsTable :
    (net : Net) (ref : ℕ) (c : Client) → IsClient c → IsClient (on_timeout net ref c)
unfolding on_timeout
on_timeout-IsTable net ref c h =
    if_both IsClient (c.objects ref).cleaned h
      (if_both IsClient _ (abort_and_clean-IsTable net ref _ c h) h)

pub on_close-IsTable :
    (net : Net) (ref : ℕ) (c : Client) → IsClient c → IsClient (on_close net ref c)
unfolding on_close
on_close-IsTable net ref c h = if_both IsClient (c.objects ref).cleaned h (
    cleanup_tcp_state-IsTable ref _
      (send_frame-IsTable net (c.objects ref).ws _ (c.objects ref).id _ c h))

pub on_error-IsTable :
    (net : Net) (ref : ℕ) (text : String) (c : Client)
    → IsClient c
    → IsClient (on_error net ref text c)
unfolding on_error
on_error-IsTable net ref text c h =
    if_both IsClient (c.objects ref).cleaned h (abort_and_clean-IsTable net ref _ c h)

pub send_res_abort-IsTable :
    (net : Net) (ref : ℕ) (reason : Reason) (c : Client)
    → IsClient c
    → IsClient (send_res_abort net ref reason c)
unfolding send_res_abort
send_res_abort-IsTable net ref reason c h = if_both IsClient (c.objects ref).cleaned h (
    cleanup_stream-IsTable ref _
      (send_frame-IsTable net (c.objects ref).ws _ (c.objects ref).id _ c h))
