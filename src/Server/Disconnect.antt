-- ===== src/Server/Disconnect.antt =====
-- The loss of a tunnel client: `cleanupClient` of src/server/ClientManager.js with its loop over the
-- streams, and `cleanupStreamsForWs` of src/server/StreamManager.js, on the TCP streams of the table.
use nodejs_wss_service_bridg.Base.{ℕ, false, List, [], ◌∷◌, String, ◌==◌, if◌then◌else◌}
use nodejs_wss_service_bridg.Base.Map.{values}
use nodejs_wss_service_bridg.Clients.{Clients, cleanup_client}
use nodejs_wss_service_bridg.Server.{Net, Server, on_object}
use nodejs_wss_service_bridg.Server.Cleanup.{abort_tcp_stream}

-- The loop over state objects, by their references: those of the client `ws` are aborted.
unfoldable pub abort_for_ws : Net → String → ℕ → List ℕ → Server → Server
unfolding on_object
abort_for_ws net reason ws [] s = s
abort_for_ws net reason ws (ref ∷ refs) s =
    abort_for_ws net reason ws refs
      (if (s.objects ref).ws == ws then on_object ref (abort_tcp_stream net reason false) s else s)

-- `cleanupClient`: the registry forgets the client, and then its streams are aborted.
unfoldable pub on_client_closed : Net → ℕ → Clients → Server → Clients × Server
unfolding abort_for_ws
on_client_closed net ws clients s = (
  cleanup_client clients ws,
  abort_for_ws net "Tunnel client disconnected" ws (values s.global.streams) s,
)

unfoldable pub cleanup_streams_for_ws : Net → ℕ → Server → Server
unfolding abort_for_ws
cleanup_streams_for_ws net ws s =
    abort_for_ws net "Tunnel WebSocket disconnected" ws (values s.global.streams) s
