-- ===== src/TunnelClient/Leaks.antt =====
-- What a stream's idle timer leaves behind on the tunnel client.
use nodejs_wss_service_bridg.Base.{
  refl, ◌&&◌, if_true, if_false, ap, ◌∙◌, ==_self, ℕ, ◌≡◌, true, false, ◌∷◌, String, arith,
}
use nodejs_wss_service_bridg.Base.Map.{delete}
use nodejs_wss_service_bridg.Protocol.{Bytes, res_abort}
use nodejs_wss_service_bridg.TunnelClient.{
  emit, Net, Config, Client, send, message, idle_timeout, send_frame,
}
use nodejs_wss_service_bridg.TunnelClient.TcpHandler.{cleanup_tcp_state}
use nodejs_wss_service_bridg.TunnelClient.LocalSocket.{on_data, on_close, on_error, on_timeout}
use nodejs_wss_service_bridg.TunnelClient.Frames.{cleanup_stream, send_res_abort, on_idle}

-- What a state that is cleaned no longer does.
on_data-ended :
    (net : Net) (config : Config) (ref : ℕ) (chunk : Bytes) (d : Client)
    → (d.objects ref).cleaned ≡ true
    → on_data net config ref chunk d ≡ d
unfolding on_data
on_data-ended net config ref chunk d e = if_true _ e

on_close-ended :
    (net : Net) (ref : ℕ) (d : Client) → (d.objects ref).cleaned ≡ true → on_close net ref d ≡ d
unfolding on_close
on_close-ended net ref d e = if_true _ e

on_error-ended :
    (net : Net) (ref : ℕ) (text : String) (d : Client)
    → (d.objects ref).cleaned ≡ true
    → on_error net ref text d ≡ d
unfolding on_error
on_error-ended net ref text d e = if_true _ e

on_timeout-ended :
    (net : Net) (ref : ℕ) (d : Client) → (d.objects ref).cleaned ≡ true → on_timeout net ref d ≡ d
unfolding on_timeout
on_timeout-ended net ref d e = if_true _ e

cleanup_tcp_state-ended :
    (ref : ℕ) (d : Client) → (d.objects ref).cleaned ≡ true → cleanup_tcp_state ref d ≡ d
unfolding cleanup_tcp_state
cleanup_tcp_state-ended ref d e = if_true _ e

cleanup_stream-keeps :
    (ref : ℕ) (c : Client)
    → (c.objects ref).cleaned ≡ false
    → (c.objects ref).response_writer ≡ false
    → (c.objects ref).local_req ≡ false
    → (c.objects ref).local_res ≡ false
    → ((cleanup_stream ref c).streams ≡ delete (c.objects ref).id c.streams)
      × ((cleanup_stream ref c).out ≡ c.out)
      × ((cleanup_stream ref c).socket_destroyed ≡ c.socket_destroyed)
      × (((cleanup_stream ref c).objects ref).local_socket ≡ (c.objects ref).local_socket)
      × (((cleanup_stream ref c).objects ref).cleaned ≡ true)
unfolding cleanup_stream
cleanup_stream-keeps ref c l w q p = rw (l, w, q, p, ==_self ref) (refl, refl, refl, refl, refl)

on_idle-aborts :
    (net : Net) (ref : ℕ) (c : Client)
    → (c.objects ref).cleaned ≡ false
    → net.is_open (c.objects ref).ws ≡ true
    → net.accepts (c.objects ref).ws ≡ true
    → on_idle net ref c
      ≡ cleanup_stream ref
          (emit (send (c.objects ref).ws res_abort (c.objects ref).id (message idle_timeout)) c)
unfolding on_idle send_res_abort send_frame
on_idle-aborts net ref c l o a =
    if_false _ l
    ∙ ap (cleanup_stream ref) (
        if_true {b = net.is_open (c.objects ref).ws && net.accepts (c.objects ref).ws} _
          (ground arith))

-- The idle timer of a live TCP stream that has a local socket and an open WebSocket takes the stream out of the table and sends the server
-- RES_ABORT, but the local socket is neither destroyed nor forgotten; and none of the socket's data,
-- its end, its errors, or the TCP clean-up does anything for it afterwards.
pub idle_timer_leaks_socket :
    (net : Net) (config : Config) (ref : ℕ) (c : Client)
    → (c.objects ref).is_tcp ≡ true
    → (c.objects ref).local_socket ≡ true
    → (c.objects ref).cleaned ≡ false
    → (c.objects ref).response_writer ≡ false
    → (c.objects ref).local_req ≡ false
    → (c.objects ref).local_res ≡ false
    → net.is_open (c.objects ref).ws ≡ true
    → net.accepts (c.objects ref).ws ≡ true
    → let d = on_idle net ref c in
      (d.streams ≡ delete (c.objects ref).id c.streams)
      × (d.out
          ≡ send (c.objects ref).ws res_abort (c.objects ref).id (message idle_timeout) ∷ c.out)
      × (d.socket_destroyed ≡ c.socket_destroyed)
      × ((d.objects ref).local_socket ≡ true)
      × ((chunk : Bytes) → on_data net config ref chunk d ≡ d)
      × (on_close net ref d ≡ d)
      × ((text : String) → on_error net ref text d ≡ d)
      × (on_timeout net ref d ≡ d)
      × (cleanup_tcp_state ref d ≡ d)
idle_timer_leaks_socket net config ref c t s l w q p o a =
    let told =
      emit (send (c.objects ref).ws res_abort (c.objects ref).id (message idle_timeout)) c in
    let (streams, out, destroyed, held, cleaned) = cleanup_stream-keeps ref told l w q p in
    rw (on_idle-aborts net ref c l o a) (
      streams,
      out,
      destroyed,
      held ∙ s,
      λ chunk. on_data-ended net config ref chunk _ cleaned,
      on_close-ended net ref _ cleaned,
      λ text. on_error-ended net ref text _ cleaned,
      on_timeout-ended net ref _ cleaned,
      cleanup_tcp_state-ended ref _ cleaned,
    )
