-- ===== src/TcpAgent/Readiness/Streams.antt =====
-- What happens to streams and pending connections leaves the agent's readiness alone.
use nodejs_wss_service_bridg.Base.{
  ℕ, ◌+◌, ◌≡◌, ◌∙◌, refl, Bool, true, false, ◌&&◌, ◌||◌, not, List, [], ◌∷◌, Option, none, some,
  String, ◌==◌, ltb, leb, if_both,
}
use nodejs_wss_service_bridg.Base.Map.{values}
use nodejs_wss_service_bridg.PortParser.{Route}
use nodejs_wss_service_bridg.Protocol.{Bytes, tcp_data, tcp_close, tcp_abort, pause, resume}
use nodejs_wss_service_bridg.TcpAgent.{
  Body, Net, Config, Pending, Entry, Agent, emit, change, ws_ready, send_frame, destroy, send,
  bytes,
}
use nodejs_wss_service_bridg.TcpAgent.Streams.{
  sync_read_state, register_stream, drop, abort_stream, throttle, on_data, on_sent, on_drain,
  on_error, on_close, destroy_pending, clean_entries, cleanup_all, resume_drained,
}
use nodejs_wss_service_bridg.TcpAgent.Local.{remove_pending, on_pending_error, on_connection}
use nodejs_wss_service_bridg.TcpAgent.Frames.{
  register_found, destroy_found, data_written, entry_frame, stream_frame,
}
use nodejs_wss_service_bridg.TcpAgent.Readiness.{
  Same, kept, Same-trans, Calm, calm, Calm-trans, Calm-Same, waiting,
}

send_frame-Calm :
    (net : Net) (type id : ℕ) (body : Body) (a : Agent) → Calm a (send_frame net type id body a)
unfolding send_frame
send_frame-Calm net type id body a =
    if_both (Calm a) (ws_ready a && net.accepts a.out) (calm refl refl) (calm refl refl)

sync_read_state-Calm : (ref : ℕ) (a : Agent) → Calm a (sync_read_state ref a)
unfolding sync_read_state
sync_read_state-Calm ref a =
    let e = a.entries ref in
    if_both (Calm a) (e.cleaned || a.destroyed e.socket) (calm refl refl) (
      if_both (Calm a) (e.peer_paused_read || (e.paused_for_ws || not (ws_ready a)))
        (calm refl refl) (calm refl refl))

-- A changed entry, and then one of the two calls that often follow.
changed-sync : (ref : ℕ) (e : Entry) (a : Agent) → Calm a (sync_read_state ref (change ref e a))
changed-sync ref e a = Calm-trans (calm refl refl) (sync_read_state-Calm ref (change ref e a))

changed_send :
    (net : Net) (type id : ℕ) (body : Body) (a b : Agent)
    → Calm a b
    → Calm a (send_frame net type id body b)
changed_send net type id body a b s = Calm-trans s (send_frame-Calm net type id body b)

destroyed : (socket : ℕ) (a b : Agent) → Calm a b → Calm a (destroy socket b)
destroyed socket a b s = calm s.same s.waits

pub register_stream-Calm : (id socket : ℕ) (a : Agent) → Calm a (register_stream id socket a)
unfolding register_stream
register_stream-Calm id socket a =
    if_both (Calm a) (a.destroyed socket) (calm refl refl) (calm refl refl)

abort_stream-Calm :
    (net : Net) (ref : ℕ) (text : String) (a : Agent) → Calm a (abort_stream net ref text a)
unfolding abort_stream
abort_stream-Calm net ref text a =
    if_both (Calm a) (a.entries ref).cleaned (calm refl refl)
      (destroyed _ a _ (changed_send net _ _ _ a (drop ref a) (calm refl refl)))

throttle-Calm :
    (net : Net) (config : Config) (ref : ℕ) (a : Agent) → Calm a (throttle net config ref a)
unfolding throttle
throttle-Calm net config ref a =
    let e = a.entries ref in
    if_both (Calm a) (ltb config.ws_high_water (net.buffered_amount a.out) && not e.paused_for_ws)
      (changed-sync ref (record e { paused_for_ws = true }) a) (calm refl refl)

pub on_data-Calm :
    (net : Net) (config : Config) (ref : ℕ) (chunk : Bytes) (a : Agent)
    → Calm a (on_data net config ref chunk a)
unfolding on_data
on_data-Calm net config ref chunk a =
    let e = a.entries ref in
    let counted = change ref (record e { pending_sends = e.pending_sends + 1 }) a in
    let sent = emit (send tcp_data e.stream_id (bytes chunk)) counted in
    if_both (Calm a) (e.cleaned || not (ws_ready a)) (calm refl refl) (
      if_both (Calm a) (not (net.accepts a.out))
        (Calm-trans (calm refl refl) (abort_stream-Calm net ref _ counted))
        (Calm-trans {b = sent} (calm refl refl) (throttle-Calm net config ref sent)))

pub on_sent-Calm :
    (net : Net) (config : Config) (ref : ℕ) (a : Agent) → Calm a (on_sent net config ref a)
unfolding on_sent
on_sent-Calm net config ref a = if_both (Calm a) _ (changed-sync ref _ a) (calm refl refl)

pub on_drain-Calm : (net : Net) (ref : ℕ) (a : Agent) → Calm a (on_drain net ref a)
unfolding on_drain
on_drain-Calm net ref a =
    let e = a.entries ref in
    if_both (Calm a) e.cleaned (calm refl refl) (
      if_both (Calm a) (e.local_write_backpressured && ws_ready a)
        (changed_send net _ _ _ a (change ref (record e { local_write_backpressured = false }) a)
          (calm refl refl))
        (calm refl refl))

pub on_error-Calm :
    (net : Net) (ref : ℕ) (text : String) (a : Agent) → Calm a (on_error net ref text a)
unfolding on_error
on_error-Calm net ref text a =
    if_both (Calm a) (a.entries ref).cleaned (calm refl refl)
      (destroyed _ a _ (changed_send net _ _ _ a (drop ref a) (calm refl refl)))

pub on_close-Calm : (net : Net) (ref : ℕ) (a : Agent) → Calm a (on_close net ref a)
unfolding on_close
on_close-Calm net ref a =
    if_both (Calm a) (a.entries ref).cleaned (calm refl refl)
      (changed_send net _ _ _ a (drop ref a) (calm refl refl))

destroy_pending-Calm : (ps : List Pending) (a : Agent) → Calm a (destroy_pending ps a)
unfolding destroy_pending
destroy_pending-Calm [] a = calm refl refl
destroy_pending-Calm (p ∷ ps) a =
    Calm-trans (calm refl refl) (destroy_pending-Calm ps (destroy p.local_socket a))

clean_entries-Calm : (refs : List ℕ) (a : Agent) → Calm a (clean_entries refs a)
unfolding clean_entries
clean_entries-Calm [] a = calm refl refl
clean_entries-Calm (ref ∷ refs) a =
    Calm-trans (calm refl refl)
      (clean_entries-Calm refs (destroy (a.entries ref).socket (drop ref a)))

pub cleanup_all-readiness : (a : Agent) → Same a (cleanup_all a)
unfolding cleanup_all
cleanup_all-readiness a =
    let spliced = destroy_pending a.pending_connects (record a { pending_connects = [] }) in
    Same-trans (kept refl) (
      Calm-Same (
        Calm-trans (destroy_pending-Calm a.pending_connects (record a { pending_connects = [] }))
          (clean_entries-Calm (values spliced.streamed_sockets) spliced)))

-- Only the connections that waited are gone.
pub cleanup_all-waiting : (a : Agent) → waiting (cleanup_all a) ≡ ([], a.next_connect_request_id)
unfolding cleanup_all
cleanup_all-waiting a =
    let spliced = destroy_pending a.pending_connects (record a { pending_connects = [] }) in
    (clean_entries-Calm (values spliced.streamed_sockets) spliced).waits
    ∙ (destroy_pending-Calm a.pending_connects (record a { pending_connects = [] })).waits

pub resume_drained-Calm :
    (net : Net) (config : Config) (refs : List ℕ) (a : Agent)
    → Calm a (resume_drained net config refs a)
unfolding resume_drained
resume_drained-Calm net config [] a = calm refl refl
resume_drained-Calm net config (ref ∷ refs) a =
    let e = a.entries ref in
    Calm-trans
      (if_both (Calm a)
        (e.paused_for_ws
          && (e.pending_sends == 0 && leb (net.buffered_amount a.out) config.ws_low_water))
        (changed-sync ref (record e { paused_for_ws = false }) a) (calm refl refl))
      (resume_drained-Calm net config refs _)

pub on_connection-readiness :
    (net : Net) (route : Route) (socket : ℕ) (a : Agent) → Same a (on_connection net route socket a)
unfolding on_connection remove_pending
on_connection-readiness net route socket a =
    if_both (Same a) (not (ws_ready a)) (kept refl)
      (if_both (Same a) (net.accepts a.out) (kept refl) (kept refl))

data_written-Calm :
    (net : Net) (ref : ℕ) (payload : Bytes) (answer : Option Bool) (a : Agent)
    → Calm a (data_written net ref payload answer a)
unfolding data_written
data_written-Calm net ref payload none a = abort_stream-Calm net ref _ a
data_written-Calm net ref payload (some taken) a =
    if_both (Calm a) (not taken && not (a.entries ref).local_write_backpressured)
      (changed_send net _ _ _ a _ (calm refl refl)) (calm refl refl)

pub stream_frame-Calm :
    (net : Net) (type : ℕ) (payload : Bytes) (o : Option ℕ) (a : Agent)
    → Calm a (stream_frame net type payload o a)
unfolding stream_frame entry_frame
stream_frame-Calm net type payload none a = calm refl refl
stream_frame-Calm net type payload (some ref) a =
    let e = a.entries ref in
    if_both (Calm a) e.cleaned (calm refl refl) (
      if_both (Calm a) (type == tcp_data) (data_written-Calm net ref payload _ a) (
        if_both (Calm a) (type == tcp_close) (calm refl refl) (
          if_both (Calm a) (type == tcp_abort) (calm refl refl) (
            if_both (Calm a) (type == pause)
              (changed-sync ref (record e { peer_paused_read = true }) a)
              (if_both (Calm a) (type == resume)
                (changed-sync ref (record e { peer_paused_read = false }) a) (calm refl refl))))))

pub remove_pending-readiness : (socket : ℕ) (a : Agent) → Same a (remove_pending socket a)
unfolding remove_pending
remove_pending-readiness socket a = kept refl

pub on_pending_error-readiness : (socket : ℕ) (a : Agent) → Same a (on_pending_error socket a)
unfolding on_pending_error
on_pending_error-readiness socket a = kept ((remove_pending-readiness socket a).same)

pub register_found-readiness :
    (id : ℕ) (o : Option (Pending × List Pending)) (a : Agent) → Same a (register_found id o a)
unfolding register_found
register_found-readiness id none a = kept refl
register_found-readiness id (some (e, rest)) a =
    Same-trans (kept refl)
      (Calm-Same (register_stream-Calm id e.local_socket (record a { pending_connects = rest })))

pub destroy_found-readiness :
    (o : Option (Pending × List Pending)) (a : Agent) → Same a (destroy_found o a)
unfolding destroy_found
destroy_found-readiness none a = kept refl
destroy_found-readiness (some (e, rest)) a = kept refl
