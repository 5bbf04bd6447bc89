-- ===== src/TunnelClient/Disconnect.antt =====
-- The end of the tunnel's WebSocket, at which serve/client.js cleans every stream.
use nodejs_wss_service_bridg.Base.{ℕ, ◌≡◌, refl, true, List, [], ◌∷◌, some, arith}
use nodejs_wss_service_bridg.Base.Map.{get, delete, values}
use nodejs_wss_service_bridg.TunnelClient.{Client}
use nodejs_wss_service_bridg.TunnelClient.TcpHandler.{cleanup_tcp_streams}
use nodejs_wss_service_bridg.TunnelClient.Frames.{cleanup_stream, cleanup_from, cleanup_all_streams}
use nodejs_wss_service_bridg.TunnelClient.Table.{IsClient}
use nodejs_wss_service_bridg.TunnelClient.Table.Handlers.{cleanup_stream-IsTable}
use nodejs_wss_service_bridg.TunnelClient.Table.Frames.{cleanup_tcp_from-IsTable}
use nodejs_wss_service_bridg.TunnelClient.Events.{cleanup_all_streams-IsTable}

get-first : (id ref : ℕ) (m : List (ℕ × ℕ)) → get id ((id, ref) ∷ m) ≡ some ref
unfolding get
get-first id ref m = ground arith

delete-first : (id ref : ℕ) (m : List (ℕ × ℕ)) → delete id ((id, ref) ∷ m) ≡ m
unfolding delete
delete-first id ref m = ground arith

cleanup_stream-first :
    (id ref : ℕ) (m : List (ℕ × ℕ)) (c : Client)
    → IsClient c
    → c.streams ≡ (id, ref) ∷ m
    → (cleanup_stream ref c).streams ≡ m
unfolding cleanup_stream IsClient
cleanup_stream-first id ref m c h e =
    let first : get id c.streams ≡ some ref = rw e (get-first id ref m) in
    ground (arith, h.live id ref first, h.named id ref first, delete-first id ref m)

cleanup_from-empty :
    (m : List (ℕ × ℕ)) (c : Client)
    → IsClient c
    → c.streams ≡ m
    → (cleanup_from (values m) c).streams ≡ []
unfolding cleanup_from
cleanup_from-empty [] c h e = e
cleanup_from-empty ((id, ref) ∷ m) c h e =
    cleanup_from-empty m (cleanup_stream ref c) (cleanup_stream-IsTable ref c h)
      (cleanup_stream-first id ref m c h e)

empty-cleaned :
    (c : Client) (ref : ℕ) → IsClient c → c.streams ≡ [] → (c.objects ref).cleaned ≡ true
unfolding IsClient get
empty-cleaned c ref h e = ground (arith, h.owned ref)

-- When the tunnel's WebSocket of a well-formed client closes, the table is empty afterwards, and every
-- state object that the client ever made is cleaned.
pub cleanup_all_streams-empty :
    (c : Client)
    → IsClient c
    → ((cleanup_all_streams c).streams ≡ [])
      × ((ref : ℕ) → ((cleanup_all_streams c).objects ref).cleaned ≡ true)
unfolding cleanup_all_streams cleanup_tcp_streams
cleanup_all_streams-empty c h =
    let empty =
      cleanup_from-empty (cleanup_tcp_streams c).streams (cleanup_tcp_streams c)
        (cleanup_tcp_from-IsTable (values c.streams) c h) refl in
    (
      empty,
      λ ref. empty-cleaned (cleanup_all_streams c) ref (cleanup_all_streams-IsTable c h) empty,
    )
