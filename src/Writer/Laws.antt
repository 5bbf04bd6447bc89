-- ===== src/Writer/Laws.antt =====
-- The frames of a body: nothing lost, nothing twice, none too large, and the loop ends.
use Prim.Native.Nat.{min}
use mathlib.Core.List.{append-nil, append_assoc}
use nodejs_wss_service_bridg.Base.{
  ℕ, zero, suc, ◌≤◌, ◌<◌, ◌≡◌, ◌≢◌, refl, ap, sym, ◌∙◌, true, false, ◌||◌, ◌&&◌, not, List, [], ◌∷◌,
  ◌++◌, Option, none, some, ltb, arith, length, take, drop, All, take-append-drop, length-take,
  length-drop, if_both,
}
use nodejs_wss_service_bridg.Protocol.{Bytes}
use nodejs_wss_service_bridg.Writer.{
  Socket, Limits, Writer, Outcome, finished, failed, held, draining, no_fuel, Progress, send_slice,
  send_loop, send_chunk, after_drain, stop, after,
}

abbrev pub concat : List Bytes → Bytes
concat [] = []
concat (b ∷ bs) = b ++ concat bs

-- What of the body is still to be sent: all of it on an error is unknown, and says so by `none`.
abbrev pub left_over : Outcome → Option Bytes
left_over finished = some []
left_over (held rest) = some rest
left_over (draining rest) = some rest
left_over (failed e) = none
left_over no_fuel = none

-- The frames sent are consecutive pieces of the body from its start, none empty and none above the
-- limit; unless the call fails, the pieces and what is left over make up the body.
pub record Cuts (limit : ℕ) (buf : Bytes) (p : Progress) : Type 0 where
  pub sizes : All (λ b. (1 ≤ length b) × (length b ≤ limit)) p.sent
  pub prefix : (rest : Bytes) × (concat p.sent ++ rest ≡ buf)
  pub complete : (rest : Bytes) → left_over p.outcome ≡ some rest → concat p.sent ++ rest ≡ buf
  pub ends : p.outcome ≢ no_fuel

module _ (limits : Limits) (socket : Socket) (w : Writer)
    (positive : 1 ≤ limits.max_frame_payload) where
  stop-Cuts :
      (buf : Bytes) (o : Outcome)
      → o ≢ no_fuel
      → ((rest : Bytes) → left_over o ≡ some rest → rest ≡ buf)
      → Cuts limits.max_frame_payload buf (stop o)
  stop-Cuts buf o h k = record { sizes = tt; prefix = (buf, refl); complete = k; ends = h }

  after-Cuts :
      (x : ℕ) (buf : Bytes) (p : Progress)
      → Cuts limits.max_frame_payload
          (drop (min limits.max_frame_payload (suc (length buf))) (x ∷ buf))
          p
      → Cuts limits.max_frame_payload
          (x ∷ buf)
          (after (take (min limits.max_frame_payload (suc (length buf))) (x ∷ buf)) p)
  after-Cuts x buf p c = record {
    sizes = (
      (
        omega (arith, length-take (min limits.max_frame_payload (suc (length buf))) (x ∷ buf)),
        omega (arith, length-take (min limits.max_frame_payload (suc (length buf))) (x ∷ buf)),
      ),
      c.sizes,
    );
    prefix = (c.prefix.0, join c.prefix.0 c.prefix.1);
    complete = λ rest e. join rest (c.complete rest e);
    ends = c.ends;
  }
    where
      join :
          (rest : Bytes)
          → concat p.sent ++ rest ≡ drop (min limits.max_frame_payload (suc (length buf))) (x ∷ buf)
          → (take (min limits.max_frame_payload (suc (length buf))) (x ∷ buf) ++ concat p.sent)
              ++ rest
            ≡ x ∷ buf
      join rest e =
          append_assoc _ (concat p.sent) rest
          ∙ rw e (take-append-drop (min limits.max_frame_payload (suc (length buf))) (x ∷ buf))

  send_slice-Cuts :
      (n : ℕ) (x : ℕ) (buf : Bytes) (go : Bytes → Progress)
      → Cuts limits.max_frame_payload
          (drop (min limits.max_frame_payload (suc (length buf))) (x ∷ buf))
          (go (drop (min limits.max_frame_payload (suc (length buf))) (x ∷ buf)))
      → Cuts limits.max_frame_payload (x ∷ buf) (send_slice limits socket w n (x ∷ buf) go)
  unfolding send_slice
  send_slice-Cuts n x buf go c =
      if_both (Cuts limits.max_frame_payload (x ∷ buf)) (w.writer_closed || w.destroyed)
        (stop-Cuts (x ∷ buf) _ (λ e. cc) (λ rest e. cc))
        (if_both (Cuts limits.max_frame_payload (x ∷ buf)) w.peer_paused
          (stop-Cuts (x ∷ buf) _ (λ e. cc) (λ rest e. cc))
          (if_both (Cuts limits.max_frame_payload (x ∷ buf)) (socket.ready n && socket.accepts n)
            (after-Cuts x buf _ c) (stop-Cuts (x ∷ buf) _ (λ e. cc) (λ rest e. cc))))

  shorter :
      (x : ℕ) (buf : Bytes)
      → length (drop (min limits.max_frame_payload (suc (length buf))) (x ∷ buf)) ≤ length buf
  shorter x buf =
      omega
        (arith, length-drop (min limits.max_frame_payload (suc (length buf))) (x ∷ buf), positive)

  send_loop-Cuts :
      (fuel n : ℕ) (buf : Bytes)
      → length buf < fuel
      → Cuts limits.max_frame_payload buf (send_loop limits socket w fuel n buf)
  unfolding send_loop
  send_loop-Cuts zero n buf h = elim h [ ]
  send_loop-Cuts (suc fuel) n [] h = stop-Cuts [] finished (λ e. cc) (λ rest e. cc)
  send_loop-Cuts (suc fuel) n (x ∷ buf) h =
      if_both (Cuts limits.max_frame_payload (x ∷ buf)) (w.writer_closed || w.destroyed)
        (stop-Cuts (x ∷ buf) _ (λ e. cc) (λ rest e. cc))
        (if_both (Cuts limits.max_frame_payload (x ∷ buf)) (not (socket.ready n))
          (stop-Cuts (x ∷ buf) _ (λ e. cc) (λ rest e. cc))
          (if_both (Cuts limits.max_frame_payload (x ∷ buf))
            (ltb limits.ws_high_water (socket.buffered n))
            (stop-Cuts (x ∷ buf) _ (λ e. cc) (λ rest e. cc))
            (send_slice-Cuts n x buf (send_loop limits socket w fuel (suc n))
              (send_loop-Cuts fuel (suc n) _ (omega (arith, shorter x buf))))))

  -- With a positive limit `_sendChunk` cuts the chunk into frames: the payloads sent are consecutive
  -- pieces of it from its start, none empty and none above the limit, and unless the call fails the
  -- pieces and what waits make up the chunk. The loop ends by itself: the fuel never runs out.
  pub send_chunk-Cuts :
      (buf : Bytes) → Cuts limits.max_frame_payload buf (send_chunk limits socket w buf)
  unfolding send_chunk
  send_chunk-Cuts buf = send_loop-Cuts (suc (length buf)) 0 buf (omega arith)

  -- The part of `_sendChunk` after a wait for the drain of the socket, on a rest that is not empty,
  -- sends consecutive pieces of the rest from its start, none empty and none above the positive
  -- limit; unless it fails, the pieces and what waits make up the rest, and its fuel never runs out.
  pub after_drain-Cuts :
      (x : ℕ) (buf : Bytes)
      → Cuts limits.max_frame_payload (x ∷ buf) (after_drain limits socket w (x ∷ buf))
  unfolding after_drain
  after_drain-Cuts x buf =
      send_slice-Cuts 0 x buf (send_loop limits socket w (suc (suc (length buf))) 1)
        (send_loop-Cuts (suc (suc (length buf))) 1 _ (omega (arith, shorter x buf)))

-- While the limit is positive, the writer is open and not paused, the WebSocket stays open and takes every frame, and its
-- buffer stays within the high-water mark, the whole chunk is sent and the callback is called with
-- no error.
pub send_chunk-finished :
    (limits : Limits) (socket : Socket) (w : Writer) (buf : Bytes)
    → 1 ≤ limits.max_frame_payload
    → w.writer_closed ≡ false
    → w.destroyed ≡ false
    → w.peer_paused ≡ false
    → ((n : ℕ)
        → (socket.ready n ≡ true)
          × (socket.accepts n ≡ true)
          × (socket.buffered n ≤ limits.ws_high_water))
    → ((send_chunk limits socket w buf).outcome ≡ finished)
      × (concat (send_chunk limits socket w buf).sent ≡ buf)
unfolding send_chunk send_loop send_slice
send_chunk-finished limits socket w buf pos c d p healthy =
    let done = loop (suc (length buf)) 0 buf (omega arith) in
    (
      done,
      sym (append-nil _)
          ∙ (send_chunk-Cuts limits socket w pos buf).complete [] (ap left_over done),
    )
  where
    loop :
        (fuel n : ℕ) (b : Bytes)
        → length b < fuel
        → (send_loop limits socket w fuel n b).outcome ≡ finished
    loop zero n b h = elim h [ ]
    loop (suc fuel) n [] h = refl
    loop (suc fuel) n (x ∷ b) h = ground (
      arith,
      healthy n,
      loop fuel (suc n) (drop (min limits.max_frame_payload (suc (length b))) (x ∷ b)),
      shorter limits socket w pos x b,
    )
