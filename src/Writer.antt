-- ===== src/Writer.antt =====
-- src/server/WsFrameWriter.js: the writable stream that cuts a request or response body into frames.
-- What the WebSocket answers is a parameter: `ready n`, `accepts n` and `buffered n` are
-- `readyState === OPEN`, "`send` does not throw" and `bufferedAmount` after `n` frames of this call.
-- A call of `_sendChunk` runs until it ends or awaits the drain of the socket.
pub mod Laws
use Prim.Native.Nat.{min}
use nodejs_wss_service_bridg.Base.{
  ℕ, zero, suc, ◌+◌, Bool, true, false, ◌||◌, ◌&&◌, not, List, [], ◌∷◌, ◌++◌, Option, none, some,
  ltb, ◌==◌, if◌then◌else◌, length, take, drop,
}
use nodejs_wss_service_bridg.Protocol.{Bytes, build_frame}

pub record Socket : Type 0 where
  pub ready : ℕ → Bool
  pub accepts : ℕ → Bool
  pub buffered : ℕ → ℕ

pub record Limits : Type 0 where
  pub ws_high_water : ℕ
  pub max_frame_payload : ℕ

pub record Writer : Type 0 where
  pub stream_id : ℕ
  pub frame_type : ℕ
  pub peer_paused : Bool
  pub pending : Option Bytes
  pub writer_closed : Bool
  pub destroyed : Bool

pub data WriteError : Type 0 where
  closed destroyed_while_sending not_open destroyed_after_drain send_failed drain_timeout :
      WriteError

-- How a call ends: the callback is called with no error or with one, the rest waits for RESUME in
-- `pending`, the rest awaits `waitDrain`, or the loop's fuel ran out.
pub data Outcome : Type 0 where
  finished : Outcome
  failed : WriteError → Outcome
  held : Bytes → Outcome
  draining : Bytes → Outcome
  no_fuel : Outcome

-- The payloads of the frames sent, in their order, and the end.
pub record Progress : Type 0 where
  pub sent : List Bytes
  pub outcome : Outcome

abbrev stop : Outcome → Progress
stop o = record { sent = []; outcome = o }

abbrev after : Bytes → Progress → Progress
after slice p = record { sent = slice ∷ p.sent; outcome = p.outcome }

module _ (limits : Limits) (socket : Socket) (w : Writer) where
  -- The part of a round behind the wait: the second test of the writer, the pause, and one frame.
  -- `go` is the rest of the loop.
  unfoldable pub send_slice : ℕ → Bytes → (Bytes → Progress) → Progress
  send_slice n buf go =
      let end = min limits.max_frame_payload (length buf) in
      let rest = go (drop end buf) in
      if w.writer_closed || w.destroyed
      then stop (failed destroyed_after_drain)
      else if w.peer_paused
      then stop (held buf)
      else if socket.ready n && socket.accepts n
      then after (take end buf) rest
      else stop (failed send_failed)

  -- The `while` loop from the test at its head, after `n` frames.
  unfoldable pub send_loop : ℕ → ℕ → Bytes → Progress
  unfolding send_slice
  send_loop zero n buf = stop no_fuel
  send_loop (suc fuel) n [] = stop finished
  send_loop (suc fuel) n (x ∷ buf) =
      let round = send_slice n (x ∷ buf) (send_loop fuel (suc n)) in
      if w.writer_closed || w.destroyed
      then stop (failed destroyed_while_sending)
      else if not (socket.ready n)
      then stop (failed not_open)
      else if ltb limits.ws_high_water (socket.buffered n)
      then stop (draining (x ∷ buf))
      else round

  -- `_sendChunk`. An empty chunk ends at once, as the loop does.
  unfoldable pub send_chunk : Bytes → Progress
  unfolding send_loop
  send_chunk buf = send_loop (suc (length buf)) 0 buf

  -- The continuation of an awaited `waitDrain` that resolves: the same round goes on behind the wait.
  unfoldable pub after_drain : Bytes → Progress
  unfolding send_loop send_slice
  after_drain buf = send_slice 0 buf (send_loop (suc (length buf)) 1)

  -- `_write`
  unfoldable pub write : Bytes → Progress
  unfolding send_chunk
  write chunk =
      if w.writer_closed || w.destroyed
      then stop (failed closed)
      else if w.peer_paused
      then stop (held chunk)
      else send_chunk chunk

  -- `setPeerPaused`: the writer afterwards, and the call of `_sendChunk` that it makes, if any.
  unfoldable pub release_pending : Option Bytes → Writer × Option Progress
  unfolding send_chunk
  release_pending none = (w, none)
  release_pending (some chunk) =
      if w.peer_paused || (w.writer_closed || w.destroyed)
      then (w, none)
      else (record w { pending = none }, some (send_chunk chunk))

-- What a call leaves in `pending`.
abbrev pub store_pending : Writer → Outcome → Writer
store_pending w (held rest) = record w { pending = some rest }
store_pending w _ = w

unfoldable pub set_peer_paused : Limits → Socket → Writer → Bool → Writer × Option Progress
unfolding release_pending
set_peer_paused limits socket w paused =
    release_pending limits socket (record w { peer_paused = paused }) w.pending

-- `_destroy`: the writer afterwards, and whether the callback of a pending chunk is called with an
-- error.
unfoldable pub destroy : Writer → Writer × Bool
destroy w = (
  record w { writer_closed = true; destroyed = true; pending = none },
  elim w.pending [ none ↦ false | some chunk ↦ true ],
)
