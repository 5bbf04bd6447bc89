-- ===== src/TcpAgent/Disconnect.antt =====
-- The end of the agent's connection, serve/tcp-agent.js: what is left after `cleanupAll`.
use nodejs_wss_service_bridg.Base.{
  ℕ, ◌≡◌, refl, sym, ap, ◌∙◌, Bool, true, false, ◌&&◌, ◌||◌, List, [], ◌∷◌, some, arith, ◌==◌,
  if_both, if_elim, if_false, All,
}
use nodejs_wss_service_bridg.Base.Map.{get, values}
use nodejs_wss_service_bridg.Objects.{set}
use nodejs_wss_service_bridg.PortParser.{Route}
use nodejs_wss_service_bridg.TcpAgent.{
  Effect, Entry, Config, Pending, Agent, destroy, emit, close_listener, closed, exit, is_missing,
}
use nodejs_wss_service_bridg.TcpAgent.Ready.{clear_ready, remove_ready_file}
use nodejs_wss_service_bridg.TcpAgent.Streams.{drop, destroy_pending, clean_entries, cleanup_all}
use nodejs_wss_service_bridg.TcpAgent.Connection.{
  close_current, close_listeners, on_ws_close, schedule_reconnect, shutdown,
}
use nodejs_wss_service_bridg.TcpAgent.Table.{IsAgent, same-IsTable}
use nodejs_wss_service_bridg.TcpAgent.Table.Handlers.{clear_ready-IsTable}
use nodejs_wss_service_bridg.TcpAgent.Cleanup.{cleanup_all-empty}
use nodejs_wss_service_bridg.TcpAgent.Readiness.{IsIdle}
use nodejs_wss_service_bridg.TcpAgent.Readiness.Connection.{on_ws_close-IsIdle, shutdown-IsIdle}
use nodejs_wss_service_bridg.TcpAgent.Events.{IsSound}

-- Nothing that the first agent held is left in the second: no connection waits, no stream is in the
-- table, every entry is cleaned, and the local sockets of all of them are destroyed.
pub record IsEmptied (a b : Agent) : Type 0 where
  pub no_pending : b.pending_connects ≡ []
  pub no_streams : b.streamed_sockets ≡ []
  pub all_cleaned : (ref : ℕ) → (b.entries ref).cleaned ≡ true
  pub pending_destroyed : All (λ p. b.destroyed p.local_socket ≡ true) a.pending_connects
  pub sockets_destroyed :
      (id ref : ℕ)
      → get id a.streamed_sockets ≡ some ref
      → b.destroyed (a.entries ref).socket ≡ true

abbrev holdings : Agent → List Pending × List (ℕ × ℕ) × (ℕ → Entry) × (ℕ → Bool)
holdings a = (a.pending_connects, a.streamed_sockets, a.entries, a.destroyed)

set_again : (f : ℕ → Bool) (s k : ℕ) → f s ≡ true → set k true f s ≡ true
set_again f s k h = ground arith

destroy_pending-again :
    (ps : List Pending) (a : Agent) (s : ℕ)
    → a.destroyed s ≡ true
    → (destroy_pending ps a).destroyed s ≡ true
unfolding destroy_pending
destroy_pending-again [] a s h = h
destroy_pending-again (p ∷ ps) a s h =
    destroy_pending-again ps (destroy p.local_socket a) s (set_again a.destroyed s p.local_socket h)

clean_entries-again :
    (refs : List ℕ) (a : Agent) (s : ℕ)
    → a.destroyed s ≡ true
    → (clean_entries refs a).destroyed s ≡ true
unfolding clean_entries
clean_entries-again [] a s h = h
clean_entries-again (ref ∷ refs) a s h =
    clean_entries-again refs (destroy (a.entries ref).socket (drop ref a)) s
      (set_again a.destroyed s (a.entries ref).socket h)

destroy_pending-All :
    (ps : List Pending) (a : Agent)
    → All (λ p. (destroy_pending ps a).destroyed p.local_socket ≡ true) ps
unfolding destroy_pending
destroy_pending-All [] a = tt
destroy_pending-All (p ∷ ps) a =
    let b = destroy p.local_socket a in
    (destroy_pending-again ps b p.local_socket (ground arith), destroy_pending-All ps b)

-- Destroying the pending connections leaves the streams alone.
destroy_pending-streams :
    (ps : List Pending) (a : Agent)
    → ((destroy_pending ps a).streamed_sockets ≡ a.streamed_sockets)
      × ((destroy_pending ps a).entries ≡ a.entries)
unfolding destroy_pending
destroy_pending-streams [] a = (refl, refl)
destroy_pending-streams (p ∷ ps) a = destroy_pending-streams ps (destroy p.local_socket a)

drop-socket : (ref j : ℕ) (a : Agent) → ((drop ref a).entries j).socket ≡ (a.entries j).socket
drop-socket ref j a = ground arith

-- The socket of every listed entry is destroyed.
clean_entries-All :
    (m : List (ℕ × ℕ)) (a : Agent) (id ref : ℕ)
    → get id m ≡ some ref
    → (clean_entries (values m) a).destroyed (a.entries ref).socket ≡ true
unfolding clean_entries get
clean_entries-All [] a id ref g = ground arith
clean_entries-All ((k, r) ∷ m) a id ref g =
    let b = destroy (a.entries r).socket (drop r a) in
    let goal : Type 0 = (clean_entries (values m) b).destroyed (a.entries ref).socket ≡ true in
    if_elim (λ o. o ≡ some ref → goal) (k == id)
      (λ (_ : (k == id) ≡ true) (here : some r ≡ some ref).
        let same : r ≡ ref = ground arith in
        clean_entries-again (values m) b (a.entries ref).socket (rw same (ground arith)))
      (λ (_ : (k == id) ≡ false) (there : get id m ≡ some ref).
        rw (drop-socket r ref a) at (clean_entries-All m b id ref there))
      g

-- The same holdings are given up, or left.
IsEmptied-moved :
    {a b a' b' : Agent}
    → IsEmptied a b
    → holdings a' ≡ holdings a
    → holdings b' ≡ holdings b
    → IsEmptied a' b'
IsEmptied-moved {a} {b} {a'} {b'} h e f =
    let pending : a'.pending_connects ≡ a.pending_connects = ap (λ r. r.0) e in
    let streams : a'.streamed_sockets ≡ a.streamed_sockets = ap (λ r. r.1) e in
    let entries : a'.entries ≡ a.entries = ap (λ r. r.2) e in
    let destroyed : b'.destroyed ≡ b.destroyed = ap (λ r. r.3) f in
    let left : b'.entries ≡ b.entries = ap (λ r. r.2) f in
    record {
      no_pending = ap (λ r. r.0) f ∙ h.no_pending;
      no_streams = ap (λ r. r.1) f ∙ h.no_streams;
      all_cleaned = rw left h.all_cleaned;
      pending_destroyed = rw (pending, destroyed) h.pending_destroyed;
      sockets_destroyed = rw (streams, entries, destroyed) h.sockets_destroyed;
    }

destroyed_stays :
    (ps : List Pending) (refs : List ℕ) (a : Agent)
    → All (λ p. a.destroyed p.local_socket ≡ true) ps
    → All (λ p. (clean_entries refs a).destroyed p.local_socket ≡ true) ps
destroyed_stays [] refs a h = tt
destroyed_stays (p ∷ ps) refs a h =
    (clean_entries-again refs a p.local_socket h.0, destroyed_stays ps refs a h.1)

cleanup_all-IsEmptied : (a : Agent) → IsAgent a → IsEmptied a (cleanup_all a)
unfolding cleanup_all
cleanup_all-IsEmptied a h =
    let spliced = destroy_pending a.pending_connects (record a { pending_connects = [] }) in
    let (streams, entries) =
      destroy_pending-streams a.pending_connects (record a { pending_connects = [] }) in
    let (_, no_streams, no_pending, cleaned) = cleanup_all-empty a h in
    record {
      no_pending = no_pending;
      no_streams = no_streams;
      all_cleaned = cleaned;
      pending_destroyed =
          destroyed_stays a.pending_connects (values spliced.streamed_sockets) spliced
            (destroy_pending-All a.pending_connects (record a { pending_connects = [] }));
      sockets_destroyed = λ id ref g.
          rw entries at
            (clean_entries-All spliced.streamed_sockets spliced id ref (ap (get id) streams ∙ g));
    }

clear_ready-holdings : (config : Config) (a : Agent) → holdings (clear_ready config a) ≡ holdings a
unfolding clear_ready remove_ready_file
clear_ready-holdings config a =
    if_both (λ b. holdings b ≡ holdings a) (config.has_ready_file && config.file_removed) refl refl

schedule_reconnect-holdings : (a : Agent) → holdings (schedule_reconnect a) ≡ holdings a
unfolding schedule_reconnect
schedule_reconnect-holdings a =
    if_both (λ b. holdings b ≡ holdings a) (a.auth_failed || a.shutting_down) refl refl

close_current-holdings : (a : Agent) → holdings (close_current a) ≡ holdings a
close_current-holdings a = if_both (λ b. holdings b ≡ holdings a) (is_missing a.ws) refl refl

close_listeners-holdings :
    (routes : List Route) (a : Agent) → holdings (close_listeners routes a) ≡ holdings a
unfolding close_listeners
close_listeners-holdings [] a = refl
close_listeners-holdings (route ∷ routes) a =
    close_listeners-holdings routes (emit (close_listener route.local_port) a)

-- When the WebSocket of a sound agent closes, nothing that it held is left: no connection waits, no
-- stream is in the table, every entry is cleaned, and the local sockets of the waiting connections
-- and of the streams are destroyed. The agent is not ready, and there is no ready file, unless it cannot be
-- removed.
pub on_ws_close-IsEmptied :
    (config : Config) (a : Agent)
    → IsSound config a
    → IsEmptied a (on_ws_close config a) × IsIdle config (on_ws_close config a)
unfolding on_ws_close
on_ws_close-IsEmptied config a h =
    let lost : Agent = record a { ws = closed } in
    let cleared = clear_ready config lost in
    let table = clear_ready-IsTable config lost (same-IsTable a lost h.table refl refl refl) in
    (
      IsEmptied-moved (cleanup_all-IsEmptied cleared table) (sym (clear_ready-holdings config lost))
          (schedule_reconnect-holdings (cleanup_all cleared)),
      on_ws_close-IsIdle config a h.readiness,
    )

-- The first shutdown of a sound agent leaves nothing that it held: no connection waits, no stream is
-- in the table, every entry is cleaned, and the local sockets of the waiting connections and of the
-- streams are destroyed. The agent is not ready, there is no ready file, unless it cannot be removed, and
-- the last call is the exit with the code.
pub shutdown-IsEmptied :
    (config : Config) (code : ℕ) (a : Agent)
    → IsSound config a
    → a.shutting_down ≡ false
    → IsEmptied a (shutdown config code a)
      × IsIdle config (shutdown config code a)
      × ((rest : List Effect) × ((shutdown config code a).out ≡ exit code ∷ rest))
unfolding shutdown
shutdown-IsEmptied config code a h first =
    let marked : Agent = record a { shutting_down = true; reconnect_timer = false } in
    let stopped = clear_ready config marked in
    let table = clear_ready-IsTable config marked (same-IsTable a marked h.table refl refl refl) in
    let quiet = cleanup_all stopped in
    let listening = close_listeners config.routes quiet in
    (
      IsEmptied-moved (cleanup_all-IsEmptied stopped table)
          (sym (clear_ready-holdings config marked))
          (rw (if_false {A = Agent} a first)
            (close_current-holdings listening ∙ close_listeners-holdings config.routes quiet)),
      shutdown-IsIdle config code a h.readiness first,
      ((close_current listening).out, rw (if_false {A = Agent} a first)),
    )
