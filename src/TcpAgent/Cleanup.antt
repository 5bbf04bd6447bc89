-- ===== src/TcpAgent/Cleanup.antt =====
-- `cleanupAll` of serve/tcp-agent.js empties the agent's table and its list of pending connections.
use nodejs_wss_service_bridg.Base.{ℕ, ◌≡◌, refl, ◌∙◌, true, false, List, [], ◌∷◌, some, arith}
use nodejs_wss_service_bridg.Base.Map.{get, delete, values}
use nodejs_wss_service_bridg.TcpAgent.{Agent, Pending, destroy}
use nodejs_wss_service_bridg.TcpAgent.Streams.{drop, destroy_pending, clean_entries, cleanup_all}
use nodejs_wss_service_bridg.TcpAgent.Table.{IsAgent, drop-IsTable, destroy-IsTable, same-IsTable}

destroy_pending-keeps :
    (ps : List Pending) (a : Agent)
    → IsAgent a
    → IsAgent (destroy_pending ps a)
      × ((destroy_pending ps a).pending_connects ≡ a.pending_connects)
unfolding destroy_pending
destroy_pending-keeps [] a h = (h, refl)
destroy_pending-keeps (p ∷ ps) a h =
    destroy_pending-keeps ps (destroy p.local_socket a) (destroy-IsTable p.local_socket a h)

first_live :
    (id ref : ℕ) (m : List (ℕ × ℕ)) (a : Agent)
    → IsAgent a
    → a.streamed_sockets ≡ (id, ref) ∷ m
    → ((a.entries ref).cleaned ≡ false) × ((drop ref a).streamed_sockets ≡ m)
unfolding IsAgent get delete
first_live id ref m a h e =
    let first : get id a.streamed_sockets ≡ some ref = rw e (ground arith) in
    (h.live id ref first, rw (e, h.named id ref first) (ground arith))

clean_entries-empty :
    (m : List (ℕ × ℕ)) (a : Agent)
    → IsAgent a
    → a.streamed_sockets ≡ m
    → IsAgent (clean_entries (values m) a)
      × ((clean_entries (values m) a).streamed_sockets ≡ [])
      × ((clean_entries (values m) a).pending_connects ≡ a.pending_connects)
unfolding clean_entries
clean_entries-empty [] a h e = (h, e, refl)
clean_entries-empty ((id, ref) ∷ m) a h e =
    let (live, rest) = first_live id ref m a h e in
    clean_entries-empty m (destroy (a.entries ref).socket (drop ref a))
      (destroy-IsTable (a.entries ref).socket (drop ref a) (drop-IsTable ref a h live)) rest

all_cleaned :
    (b : Agent) (ref : ℕ) → IsAgent b → b.streamed_sockets ≡ [] → (b.entries ref).cleaned ≡ true
unfolding IsAgent get
all_cleaned b ref h e = ground (arith, h.owned ref)

-- After `cleanupAll` no connection is pending, no stream is in the table, and every entry is cleaned.
pub cleanup_all-empty :
    (a : Agent)
    → IsAgent a
    → IsAgent (cleanup_all a)
      × ((cleanup_all a).streamed_sockets ≡ [])
      × ((cleanup_all a).pending_connects ≡ [])
      × ((ref : ℕ) → ((cleanup_all a).entries ref).cleaned ≡ true)
unfolding cleanup_all
cleanup_all-empty a h =
    let none_pending : Agent = record a { pending_connects = [] } in
    let (k, gone) =
      destroy_pending-keeps a.pending_connects none_pending
        (same-IsTable a none_pending h refl refl refl) in
    let (l, empty, pending) =
      clean_entries-empty _ (destroy_pending a.pending_connects none_pending) k refl in
    (l, empty, pending ∙ gone, λ ref. all_cleaned _ ref l empty)
