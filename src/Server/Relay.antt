-- ===== src/Server/Relay.antt =====
-- The bytes of an agent on their way to the tunnel client through a virtual socket: what each step
-- does to them. `Order` has the calls of a socket together.
pub mod Order
use mathlib.Core.List.{append-nil, append_assoc}
use mathlib.Core.Bool.{false≢true}
use nodejs_wss_service_bridg.Base.{
  ℕ, ◌+◌, ◌≤◌, ◌<◌, ◌≡◌, ◌⊎◌, ◌≢◌, inl, inr, refl, sym, ap, ◌∙◌, Bool, true, false, not, ◌&&◌, ◌||◌,
  List, [], ◌∷◌, ◌++◌, Option, none, some, String, arith, Bool-cases, if_elim, if_both, ltb, ltb→lt,
  leb, ◌==◌, ==_iff, ==_self, length, if◌then◌else◌,
}
use nodejs_wss_service_bridg.Protocol.{Bytes, tcp_data, tcp_abort, tcp_close, pause, resume}
use nodejs_wss_service_bridg.Server.{
  Net, Config, Global, Run, TcpStream, StreamSocket, Body, bytes, empty, json, Info, says, Effect,
  send, socket_pause, socket_resume, socket_destroy, socket_write, send_frame, can_send,
  reset_idle_timeout, with_stream, with_socket, emit, send_on,
}
use nodejs_wss_service_bridg.Server.Cleanup.{abort_socket, abort_tcp_stream, cleanup_tcp_stream}
use nodejs_wss_service_bridg.Server.Socket.{
  pause_socket, sync_paused, throttle, on_data, emit_data, resume_socket, push_inbound,
  run_microtask, on_close,
}

-- The payloads that were sent to a WebSocket for a stream, oldest first.
abbrev pub sent_payload : ℕ → ℕ → Effect → List Bytes
sent_payload ws id (send w type i (bytes b)) =
    if w == ws && (type == tcp_data && i == id) then b ∷ [] else []
sent_payload ws id _ = []

abbrev pub relayed : ℕ → ℕ → List Effect → List Bytes
relayed ws id [] = []
relayed ws id (e ∷ out) = relayed ws id out ++ sent_payload ws id e

abbrev pub total : List Bytes → ℕ
total [] = 0
total (b ∷ bs) = length b + total bs

pub total-append : (xs ys : List Bytes) → total (xs ++ ys) ≡ total xs + total ys
total-append [] ys = omega arith
total-append (x ∷ xs) ys = omega (arith, total-append xs ys)

-- What has come from the agent: what the client was sent, then what waits.
abbrev pub received : Run → List Bytes
received r = relayed r.stream.ws r.stream.id r.global.out ++ r.stream.socket.buffered

-- A live virtual stream with its two WebSockets open. Only a paused socket buffers, it knows how much,
-- and never more than the limit.
pub record IsRelay (net : Net) (config : Config) (r : Run) : Type 0 where
  pub is_virtual : r.stream.socket.is_virtual ≡ true
  pub live : r.stream.cleaned ≡ false
  pub intact : r.stream.socket.destroyed ≡ false
  pub open_ws : net.is_open r.stream.ws ≡ true
  pub accepts : net.accepts r.stream.ws ≡ true
  pub flowing : r.stream.socket.paused ≡ false → r.stream.socket.buffered ≡ []
  pub counted : r.stream.socket.buffered_bytes ≡ total r.stream.socket.buffered
  pub bounded : r.stream.socket.buffered_bytes ≤ config.max_dest_buffer_bytes

relayed-pause :
    (net : Net) (ws id to i : ℕ) (g : Global)
    → relayed ws id (send_frame net to pause i empty g).out ≡ relayed ws id g.out
unfolding send_frame
relayed-pause net ws id to i g = ground (arith, append-nil (relayed ws id g.out))

pub relayed-resume :
    (net : Net) (ws id to i : ℕ) (g : Global)
    → relayed ws id (send_frame net to resume i empty g).out ≡ relayed ws id g.out
unfolding send_frame
relayed-resume net ws id to i g = ground (arith, append-nil (relayed ws id g.out))

pub pause_socket-IsRelay :
    (net : Net) (config : Config) (r : Run)
    → IsRelay net config r
    → IsRelay net config (pause_socket net r) × (received (pause_socket net r) ≡ received r)
unfolding pause_socket
pause_socket-IsRelay net config r h =
    ground
      (arith, relayed-pause net r.stream.ws r.stream.id r.stream.socket.peer r.stream.id r.global)

throttle-IsRelay :
    (net : Net) (config : Config) (r : Run)
    → IsRelay net config r
    → IsRelay net config (throttle net config r)
      × (received (throttle net config r) ≡ received r)
      × ((throttle net config r).stream.socket.buffered ≡ r.stream.socket.buffered)
unfolding throttle pause_socket
throttle-IsRelay net config r h =
    ground
      (arith, relayed-pause net r.stream.ws r.stream.id r.stream.socket.peer r.stream.id r.global)

-- The stream once a chunk is handed to the client's WebSocket.
delivered : Config → Bytes → Run → Run
delivered config chunk r = emit (send r.stream.ws tcp_data r.stream.id (bytes chunk)) (
    with_stream r (record (reset_idle_timeout config.stream_idle_timeout_ms r.stream) {
      pending_sends = r.stream.pending_sends + 1;
    }))

on_data-live :
    (net : Net) (config : Config) (chunk : Bytes) (r : Run)
    → IsRelay net config r
    → on_data net config chunk r ≡ throttle net config (delivered config chunk r)
unfolding on_data delivered reset_idle_timeout
on_data-live net config chunk r h = simp (h.live, h.open_ws, h.accepts)

delivered-IsRelay :
    (net : Net) (config : Config) (chunk : Bytes) (r : Run)
    → IsRelay net config r
    → r.stream.socket.buffered ≡ []
    → IsRelay net config (delivered config chunk r)
      × (received (delivered config chunk r) ≡ received r ++ chunk ∷ [])
      × ((delivered config chunk r).stream.socket.buffered ≡ [])
unfolding delivered reset_idle_timeout
delivered-IsRelay net config chunk r h e = (
  ground arith,
  ground (
    arith,
    append-nil (relayed r.stream.ws r.stream.id r.global.out),
    append-nil (relayed r.stream.ws r.stream.id r.global.out ++ chunk ∷ []),
  ),
  e,
)

pub on_data-IsRelay :
    (net : Net) (config : Config) (chunk : Bytes) (r : Run)
    → IsRelay net config r
    → r.stream.socket.buffered ≡ []
    → IsRelay net config (on_data net config chunk r)
      × (received (on_data net config chunk r) ≡ received r ++ chunk ∷ [])
      × ((on_data net config chunk r).stream.socket.buffered ≡ [])
on_data-IsRelay net config chunk r h e =
    let (k, same, none_left) = delivered-IsRelay net config chunk r h e in
    let (l, same', left) = throttle-IsRelay net config (delivered config chunk r) k in
    rw (on_data-live net config chunk r h) (l, same' ∙ same, left ∙ none_left)

pub emit_data-IsRelay :
    (net : Net) (config : Config) (chunks : List Bytes) (r : Run)
    → IsRelay net config r
    → r.stream.socket.buffered ≡ []
    → IsRelay net config (emit_data net config chunks r)
      × (received (emit_data net config chunks r) ≡ received r ++ chunks)
      × ((emit_data net config chunks r).stream.socket.buffered ≡ [])
unfolding emit_data
emit_data-IsRelay net config [] r h e = (h, sym (append-nil (received r)), e)
emit_data-IsRelay net config (chunk ∷ chunks) r h e =
    let (k, one, left) = on_data-IsRelay net config chunk r h e in
    let (l, more, rest) = emit_data-IsRelay net config chunks (on_data net config chunk r) k left in
    (l, more ∙ rw one (append_assoc (received r) (chunk ∷ []) chunks), rest)
