-- ===== src/TcpAgent/Table.antt =====
-- The agent's table of streams, and the operations on streams that keep it.
pub mod Handlers
use nodejs_wss_service_bridg.Base.{
  ℕ, ◌+◌, ◌≡◌, refl, Bool, true, false, ◌&&◌, ◌||◌, not, List, [], ◌∷◌, Option, none, some, String,
  if◌then◌else◌, if_both, if_elim, ltb, leb, ◌==◌,
}
use nodejs_wss_service_bridg.Base.Map.{get, put, delete, values}
use nodejs_wss_service_bridg.Objects
use nodejs_wss_service_bridg.Objects.{IsTable}
use nodejs_wss_service_bridg.Protocol.{Bytes}
use nodejs_wss_service_bridg.TcpAgent.{
  Body, Effect, Net, Config, Pending, Entry, Agent, emit, change, ws_ready, send_frame, destroy,
  is_opened,
}
use nodejs_wss_service_bridg.TcpAgent.Streams.{
  sync_read_state, new_entry, register_stream, drop, abort_stream, throttle, on_data, on_sent,
  on_drain, on_error, on_close, destroy_pending, clean_entries, cleanup_all, resume_drained,
}

abbrev pub is_cleaned : Entry → Bool
is_cleaned e = e.cleaned

abbrev pub id_of : Entry → ℕ
id_of e = e.stream_id

unfoldable pub IsAgent : Agent → Type 0
IsAgent a = IsTable is_cleaned id_of a.streamed_sockets a.entries a.next_entry

pub change-IsTable :
    (ref : ℕ) (e : Entry) (a : Agent)
    → IsAgent a
    → e.cleaned ≡ (a.entries ref).cleaned
    → e.stream_id ≡ (a.entries ref).stream_id
    → IsAgent (change ref e a)
unfolding IsAgent
change-IsTable ref e a h c i = Objects.set-IsTable is_cleaned id_of h ref e c i

-- A change of what the table does not stand on.
pub same-IsTable :
    (a b : Agent)
    → IsAgent a
    → a.streamed_sockets ≡ b.streamed_sockets
    → a.entries ≡ b.entries
    → a.next_entry ≡ b.next_entry
    → IsAgent b
unfolding IsAgent
same-IsTable a b h s e n = rw (← s, ← e, ← n) h

pub emit-IsTable : (e : Effect) (a : Agent) → IsAgent a → IsAgent (emit e a)
emit-IsTable e a h = same-IsTable a (emit e a) h refl refl refl

pub destroy-IsTable : (socket : ℕ) (a : Agent) → IsAgent a → IsAgent (destroy socket a)
destroy-IsTable socket a h = same-IsTable a (destroy socket a) h refl refl refl

pub drop-IsTable :
    (ref : ℕ) (a : Agent) → IsAgent a → (a.entries ref).cleaned ≡ false → IsAgent (drop ref a)
unfolding IsAgent
drop-IsTable ref a h l =
    Objects.drop-IsTable is_cleaned id_of h ref (record (a.entries ref) { cleaned = true }) l refl

pub register_stream-IsTable :
    (id socket : ℕ) (a : Agent)
    → IsAgent a
    → get id a.streamed_sockets ≡ none
    → IsAgent (register_stream id socket a)
unfolding register_stream IsAgent
register_stream-IsTable id socket a h fresh =
    if_both IsAgent (a.destroyed socket) h
      (Objects.add-IsTable is_cleaned id_of h id (new_entry id socket) fresh refl refl)

pub send_frame-IsTable :
    (net : Net) (type id : ℕ) (body : Body) (a : Agent)
    → IsAgent a
    → IsAgent (send_frame net type id body a)
unfolding send_frame
send_frame-IsTable net type id body a h =
    if_both IsAgent (ws_ready a && net.accepts a.out) (emit-IsTable _ a h) h

pub sync_read_state-IsTable : (ref : ℕ) (a : Agent) → IsAgent a → IsAgent (sync_read_state ref a)
unfolding sync_read_state
sync_read_state-IsTable ref a h =
    let e = a.entries ref in
    if_both IsAgent (e.cleaned || a.destroyed e.socket) h (
      if_both IsAgent (e.peer_paused_read || (e.paused_for_ws || not (ws_ready a)))
        (emit-IsTable _ a h) (emit-IsTable _ a h))

pub abort_stream-IsTable :
    (net : Net) (ref : ℕ) (text : String) (a : Agent)
    → IsAgent a
    → IsAgent (abort_stream net ref text a)
unfolding abort_stream
abort_stream-IsTable net ref text a h =
    if_elim IsAgent (a.entries ref).cleaned (λ _. h)
      (λ l.
        destroy-IsTable _ _ (send_frame-IsTable net _ _ _ (drop ref a) (drop-IsTable ref a h l)))

throttle-IsTable :
    (net : Net) (config : Config) (ref : ℕ) (a : Agent)
    → IsAgent a
    → IsAgent (throttle net config ref a)
unfolding throttle
throttle-IsTable net config ref a h =
    let e = a.entries ref in
    if_both IsAgent (ltb config.ws_high_water (net.buffered_amount a.out) && not e.paused_for_ws)
      (sync_read_state-IsTable ref _
        (change-IsTable ref (record e { paused_for_ws = true }) a h refl refl))
      h

pub on_data-IsTable :
    (net : Net) (config : Config) (ref : ℕ) (chunk : Bytes) (a : Agent)
    → IsAgent a
    → IsAgent (on_data net config ref chunk a)
unfolding on_data
on_data-IsTable net config ref chunk a h =
    let e = a.entries ref in
    let counted =
      change-IsTable ref (record e { pending_sends = e.pending_sends + 1 }) a h refl refl in
    if_both IsAgent (e.cleaned || not (ws_ready a)) h (
      if_both IsAgent (not (net.accepts a.out)) (abort_stream-IsTable net ref _ _ counted)
        (throttle-IsTable net config ref _ (emit-IsTable _ _ counted)))

pub on_sent-IsTable :
    (net : Net) (config : Config) (ref : ℕ) (a : Agent)
    → IsAgent a
    → IsAgent (on_sent net config ref a)
unfolding on_sent
on_sent-IsTable net config ref a h =
    if_both IsAgent _ (sync_read_state-IsTable ref _ (change-IsTable ref _ a h refl refl))
      (change-IsTable ref _ a h refl refl)

pub on_drain-IsTable : (net : Net) (ref : ℕ) (a : Agent) → IsAgent a → IsAgent (on_drain net ref a)
unfolding on_drain
on_drain-IsTable net ref a h =
    let e = a.entries ref in
    if_both IsAgent e.cleaned h (
      if_both IsAgent (e.local_write_backpressured && ws_ready a)
        (send_frame-IsTable net _ _ _ _
          (change-IsTable ref (record e { local_write_backpressured = false }) a h refl refl))
        h)

pub on_error-IsTable :
    (net : Net) (ref : ℕ) (text : String) (a : Agent)
    → IsAgent a
    → IsAgent (on_error net ref text a)
unfolding on_error
on_error-IsTable net ref text a h =
    if_elim IsAgent (a.entries ref).cleaned (λ _. h)
      (λ l.
        destroy-IsTable _ _ (send_frame-IsTable net _ _ _ (drop ref a) (drop-IsTable ref a h l)))

pub on_close-IsTable : (net : Net) (ref : ℕ) (a : Agent) → IsAgent a → IsAgent (on_close net ref a)
unfolding on_close
on_close-IsTable net ref a h =
    if_elim IsAgent (a.entries ref).cleaned (λ _. h)
      (λ l. send_frame-IsTable net _ _ _ (drop ref a) (drop-IsTable ref a h l))

pub resume_drained-IsTable :
    (net : Net) (config : Config) (refs : List ℕ) (a : Agent)
    → IsAgent a
    → IsAgent (resume_drained net config refs a)
unfolding resume_drained
resume_drained-IsTable net config [] a h = h
resume_drained-IsTable net config (ref ∷ refs) a h =
    let e = a.entries ref in
    resume_drained-IsTable net config refs _ (
      if_both IsAgent
        (e.paused_for_ws
          && (e.pending_sends == 0 && leb (net.buffered_amount a.out) config.ws_low_water))
        (sync_read_state-IsTable ref _
          (change-IsTable ref (record e { paused_for_ws = false }) a h refl refl))
        h)
