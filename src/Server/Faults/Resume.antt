-- ===== src/Server/Faults/Resume.antt =====
-- `resume` of src/tcp/VirtualSocket.js on a socket whose listener throttles itself.
use nodejs_wss_service_bridg.Base.{
  ℕ, ◌<◌, ◌≡◌, refl, sym, ◌∙◌, true, false, List, [], ◌∷◌, arith, if_elim,
}
use nodejs_wss_service_bridg.Protocol.{Bytes, tcp_data, pause, resume}
use nodejs_wss_service_bridg.Server.{
  Net, Config, Run, bytes, empty, Effect, send, send_frame, can_send, send_on, reset_idle_timeout,
}
use nodejs_wss_service_bridg.Server.Socket.{
  on_data, emit_data, resume_socket, pause_socket, throttle, sync_paused,
}
use nodejs_wss_service_bridg.Server.Relay.Order.{emptied}
use mathlib.Core.Bool.{false≢true}

-- The run is paused and its agent was sent PAUSE, on top of `out`.
abbrev Paused : Run → List Effect → Run → Type 0
Paused r out q =
    (q.stream.socket.paused ≡ true)
    × (q.global.out ≡ send r.stream.socket.peer pause r.stream.id empty ∷ out)
    × (q.stream.socket.peer ≡ r.stream.socket.peer)
    × (q.stream.id ≡ r.stream.id)

throttle-Paused :
    (net : Net) (config : Config) (r : Run)
    → r.stream.socket.is_virtual ≡ true
    → r.stream.socket.destroyed ≡ false
    → r.stream.socket.paused ≡ false
    → r.stream.local_paused_for_ws ≡ false
    → can_send net r.stream.socket.peer ≡ true
    → config.ws_high_water < net.buffered_amount r.stream.ws r.global.out
    → Paused r r.global.out (throttle net config r)
unfolding throttle sync_paused pause_socket send_frame
throttle-Paused net config r v i p f c high = ground arith

on_data-Paused :
    (net : Net) (config : Config) (chunk : Bytes) (r : Run)
    → r.stream.socket.is_virtual ≡ true
    → r.stream.socket.destroyed ≡ false
    → r.stream.socket.paused ≡ false
    → r.stream.cleaned ≡ false
    → r.stream.local_paused_for_ws ≡ false
    → net.is_open r.stream.ws ≡ true
    → net.accepts r.stream.ws ≡ true
    → can_send net r.stream.socket.peer ≡ true
    → ((out : List Effect) → config.ws_high_water < net.buffered_amount r.stream.ws out)
    → Paused r
        (send r.stream.ws tcp_data r.stream.id (bytes chunk) ∷ r.global.out)
        (on_data net config chunk r)
unfolding on_data reset_idle_timeout
on_data-Paused net config chunk r v i p l f o a c high =
    simp (l, o, a) (throttle-Paused net config _ v i p f c (high _))

emit_data-Paused :
    (net : Net) (config : Config) (chunk : Bytes) (chunks : List Bytes) (r : Run)
    → r.stream.socket.is_virtual ≡ true
    → r.stream.socket.destroyed ≡ false
    → r.stream.socket.paused ≡ false
    → r.stream.cleaned ≡ false
    → r.stream.local_paused_for_ws ≡ false
    → net.is_open r.stream.ws ≡ true
    → net.accepts r.stream.ws ≡ true
    → can_send net r.stream.socket.peer ≡ true
    → ((out : List Effect) → config.ws_high_water < net.buffered_amount r.stream.ws out)
    → chunks ≡ chunk ∷ []
    → Paused r
        (send r.stream.ws tcp_data r.stream.id (bytes chunk) ∷ r.global.out)
        (emit_data net config chunks r)
unfolding emit_data
emit_data-Paused net config chunk chunks r v i p l f o a c high e =
    rw e (on_data-Paused net config chunk r v i p l f o a c high)

send_on-sent :
    (net : Net) (to type : ℕ) (q : Run)
    → can_send net to ≡ true
    → ((send_on net to type empty q).stream.socket.paused ≡ q.stream.socket.paused)
      × ((send_on net to type empty q).global.out ≡ send to type q.stream.id empty ∷ q.global.out)
unfolding send_frame
send_on-sent net to type q c = ground arith

-- Where the paused virtual socket of a live stream holds one chunk, the client's WebSocket is open but
-- above the high-water mark, the agent's is open, and the stream is not yet throttled, `resume` sends
-- the chunk on and tells the agent PAUSE and then RESUME: at the end the socket is paused, and the last
-- word to the agent was RESUME.
pub resume_unpauses_agent :
    (net : Net) (config : Config) (chunk : Bytes) (r : Run)
    → r.stream.socket.is_virtual ≡ true
    → r.stream.socket.destroyed ≡ false
    → r.stream.socket.paused ≡ true
    → r.stream.socket.buffered ≡ chunk ∷ []
    → r.stream.cleaned ≡ false
    → r.stream.local_paused_for_ws ≡ false
    → net.is_open r.stream.ws ≡ true
    → net.accepts r.stream.ws ≡ true
    → can_send net r.stream.socket.peer ≡ true
    → ((out : List Effect) → config.ws_high_water < net.buffered_amount r.stream.ws out)
    → let q = resume_socket net config r in
      (q.stream.socket.paused ≡ true)
      × (q.global.out
          ≡ send r.stream.socket.peer resume r.stream.id empty
            ∷ send r.stream.socket.peer pause r.stream.id empty
            ∷ send r.stream.ws tcp_data r.stream.id (bytes chunk)
            ∷ r.global.out)
unfolding resume_socket
resume_unpauses_agent net config chunk r v i p b l f o a c high =
    if_elim Told r.stream.socket.is_virtual
      (λ _.
        if_elim Told r.stream.socket.paused
          (λ _.
            let (paused, out, peer, id) =
              emit_data-Paused net config chunk r.stream.socket.buffered (emptied r) v i refl l f o
                a c high b in
            let (same, told) =
              send_on-sent net r.stream.socket.peer resume
                (emit_data net config r.stream.socket.buffered (emptied r)) c in
            (same ∙ paused, told ∙ sent_last id out))
          (λ q. absurd (false≢true (sym q ∙ p))))
      (λ q. absurd (false≢true (sym q ∙ v)))
  where
    Told : Run → Type 0
    Told q =
        (q.stream.socket.paused ≡ true)
        × (q.global.out
            ≡ send r.stream.socket.peer resume r.stream.id empty
              ∷ send r.stream.socket.peer pause r.stream.id empty
              ∷ send r.stream.ws tcp_data r.stream.id (bytes chunk)
              ∷ r.global.out)

    sent_last :
        {id : ℕ} {xs ys : List Effect}
        → id ≡ r.stream.id
        → xs ≡ ys
        → (send r.stream.socket.peer resume id empty ∷ xs)
          ≡ (send r.stream.socket.peer resume r.stream.id empty ∷ ys)
    sent_last e f = cc
