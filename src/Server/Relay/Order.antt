-- ===== src/Server/Relay/Order.antt =====
-- The order of an agent's bytes under the calls of its virtual socket.
use mathlib.Core.List.{append-nil, append_assoc}
use mathlib.Core.Bool.{false≢true}
use nodejs_wss_service_bridg.Base.{
  ℕ, ◌+◌, ◌≤◌, ◌≡◌, refl, sym, ap, ◌∙◌, true, false, List, [], ◌∷◌, ◌++◌, arith, if_elim, ltb,
  ltb→lt, length,
}
use nodejs_wss_service_bridg.Protocol.{Bytes, resume}
use nodejs_wss_service_bridg.Server.{Net, Config, Run, empty, with_socket, send_on}
use nodejs_wss_service_bridg.Server.Socket.{pause_socket, emit_data, resume_socket, push_inbound}
use nodejs_wss_service_bridg.Server.Relay.{
  relayed, received, total-append, IsRelay, relayed-resume, pause_socket-IsRelay, on_data-IsRelay,
  emit_data-IsRelay,
}

abbrev Resumed : Net → Config → Run → Run → Type 0
Resumed net config r q = IsRelay net config q × (received q ≡ received r)

-- The socket at the start of `resume`, before its chunks are emitted.
abbrev pub emptied : Run → Run
emptied r =
    with_socket r (record (r.stream.socket) { paused = false; buffered = []; buffered_bytes = 0 })

emptied-IsRelay :
    (net : Net) (config : Config) (r : Run) → IsRelay net config r → IsRelay net config (emptied r)
emptied-IsRelay net config r h = ground arith

send_resume-IsRelay :
    (net : Net) (config : Config) (to : ℕ) (r : Run)
    → IsRelay net config r
    → IsRelay net config (send_on net to resume empty r)
      × (received (send_on net to resume empty r) ≡ received r)
send_resume-IsRelay net config to r h =
    ground (arith, relayed-resume net r.stream.ws r.stream.id to r.stream.id r.global)

resume_socket-IsRelay :
    (net : Net) (config : Config) (r : Run)
    → IsRelay net config r
    → IsRelay net config (resume_socket net config r)
      × (received (resume_socket net config r) ≡ received r)
unfolding resume_socket
resume_socket-IsRelay net config r h =
    if_elim (Resumed net config r) r.stream.socket.is_virtual
      (λ v.
        if_elim (Resumed net config r) r.stream.socket.paused
          (λ p.
            let (k, all, _) =
              emit_data-IsRelay net config r.stream.socket.buffered (emptied r)
                (emptied-IsRelay net config r h) refl in
            let (l, same) =
              send_resume-IsRelay net config r.stream.socket.peer
                (emit_data net config r.stream.socket.buffered (emptied r)) k in
            (
              l,
              same
                  ∙ all
                  ∙ ap (λ x. x ++ r.stream.socket.buffered)
                      (append-nil (relayed r.stream.ws r.stream.id r.global.out)),
            ))
          (λ p. (h, refl)))
      (λ v. absurd (ground arith))

-- A paused socket with one more chunk.
abbrev held : Bytes → Run → Run
held chunk r = with_socket r (record (r.stream.socket) {
  buffered = r.stream.socket.buffered ++ chunk ∷ [];
  buffered_bytes = r.stream.socket.buffered_bytes + length chunk;
})

held-IsRelay :
    (net : Net) (config : Config) (chunk : Bytes) (r : Run)
    → IsRelay net config r
    → r.stream.socket.paused ≡ true
    → r.stream.socket.buffered_bytes + length chunk ≤ config.max_dest_buffer_bytes
    → IsRelay net config (held chunk r)
held-IsRelay net config chunk r h p fits = record {
  is_virtual = h.is_virtual;
  live = h.live;
  intact = h.intact;
  open_ws = h.open_ws;
  accepts = h.accepts;
  flowing = λ e. absurd (false≢true (sym e ∙ p));
  counted = omega (arith, h.counted, total-append r.stream.socket.buffered (chunk ∷ []));
  bounded = fits;
}

push_inbound-IsRelay :
    (net : Net) (config : Config) (chunk : Bytes) (r : Run)
    → IsRelay net config r
    → r.stream.socket.buffered_bytes + length chunk ≤ config.max_dest_buffer_bytes
    → IsRelay net config (push_inbound net config chunk r)
      × (received (push_inbound net config chunk r) ≡ received r ++ chunk ∷ [])
unfolding push_inbound
push_inbound-IsRelay net config chunk r h fits =
    if_elim Grown r.stream.socket.destroyed (λ d. absurd (false≢true (sym h.intact ∙ d)))
      (λ _.
        if_elim Grown r.stream.socket.paused
          (λ p.
            if_elim Grown
              (ltb config.max_dest_buffer_bytes (r.stream.socket.buffered_bytes + length chunk))
              (λ over. absurd (omega (arith, ltb→lt _ _ over)))
              (λ _. (
                held-IsRelay net config chunk r h p fits,
                sym (append_assoc (relayed r.stream.ws r.stream.id r.global.out) _ _),
              )))
          (λ p. let (k, one, _) = on_data-IsRelay net config chunk r h (h.flowing p) in (k, one)))
  where
    Grown : Run → Type 0
    Grown q = IsRelay net config q × (received q ≡ received r ++ chunk ∷ [])

-- What reaches a virtual socket: chunks of its agent, and the calls of `pause` and `resume`.
pub data Call : Type 0 where
  push : Bytes → Call
  pauses resumes : Call

abbrev pub pushed : List Call → List Bytes
pushed [] = []
pushed (push chunk ∷ calls) = chunk ∷ pushed calls
pushed (pauses ∷ calls) = pushed calls
pushed (resumes ∷ calls) = pushed calls

module _ (net : Net) (config : Config) where
  unfoldable pub call : Call → Run → Run
  unfolding push_inbound pause_socket resume_socket
  call (push chunk) r = push_inbound net config chunk r
  call pauses r = pause_socket net r
  call resumes r = resume_socket net config r

  unfoldable pub calls : List Call → Run → Run
  unfolding call
  calls [] r = r
  calls (c ∷ cs) r = calls cs (call c r)

  -- No chunk of the calls overflows the buffer at its turn.
  unfoldable pub NoOverflow : List Call → Run → Type 0
  NoOverflow [] r = Unit
  NoOverflow (push chunk ∷ cs) r =
      (r.stream.socket.buffered_bytes + length chunk ≤ config.max_dest_buffer_bytes)
      × NoOverflow cs (call (push chunk) r)
  NoOverflow (c ∷ cs) r = NoOverflow cs (call c r)

  -- While the stream lives, its client's WebSocket is open and takes every frame, and no chunk
  -- overflows the buffer at its turn, no chunk of the agent is lost, doubled or reordered, whatever pauses and resumes come between: the client was sent a prefix
  -- of what came, and the rest waits in the socket's buffer, which stays within its limit.
  pub calls-IsRelay :
      (cs : List Call) (r : Run)
      → IsRelay net config r
      → NoOverflow cs r
      → IsRelay net config (calls cs r) × (received (calls cs r) ≡ received r ++ pushed cs)
  unfolding calls call NoOverflow
  calls-IsRelay [] r h f = (h, sym (append-nil (received r)))
  calls-IsRelay (push chunk ∷ cs) r h f =
      let (k, one) = push_inbound-IsRelay net config chunk r h f.0 in
      let (l, more) = calls-IsRelay cs (push_inbound net config chunk r) k f.1 in
      (l, more ∙ rw one (append_assoc (received r) (chunk ∷ []) (pushed cs)))
  calls-IsRelay (pauses ∷ cs) r h f =
      let (k, same) = pause_socket-IsRelay net config r h in
      let (l, more) = calls-IsRelay cs (pause_socket net r) k f in (l, rw same at more)
  calls-IsRelay (resumes ∷ cs) r h f =
      let (k, same) = resume_socket-IsRelay net config r h in
      let (l, more) = calls-IsRelay cs (resume_socket net config r) k f in (l, rw same at more)
