-- ===== src/Server/Faults.antt =====
-- What the frames of a response do to a TCP stream.
pub mod Resume
use nodejs_wss_service_bridg.Base.{
  ℕ, ◌≡◌, refl, sym, ◌∙◌, Bool, true, false, List, Option, String, arith, if_elim, if_both, if_true,
  ap, ◌==◌,
}
use nodejs_wss_service_bridg.Base.Map
use nodejs_wss_service_bridg.Protocol.{Bytes, res_meta}
use nodejs_wss_service_bridg.Server.{Net, Config, Run, Json}
use nodejs_wss_service_bridg.Server.Cleanup.{cleanup_tcp_stream, abort_tcp_stream}
use nodejs_wss_service_bridg.Server.Socket.{
  on_drain, on_data, on_close, on_error, on_sent, push_inbound, end_from_agent, run_microtask,
}
use nodejs_wss_service_bridg.Server.ClientFrames.{client_frame, cleanup_stream}
use nodejs_wss_service_bridg.Server.Lifecycle.{Event, is_response_frame, run}
use nodejs_wss_service_bridg.Server.Silence.{AllOwn, run-IsQuiet}
use mathlib.Core.Bool.{false≢true}

client_frame-response :
    (net : Net) (config : Config) (parse : Bytes → Option Json) (type : ℕ) (payload : Bytes)
    (r : Run)
    → is_response_frame type ≡ true
    → client_frame net config parse type payload r ≡ cleanup_stream r
unfolding client_frame
client_frame-response net config parse type payload r response =
    if_elim (λ q. q ≡ cleanup_stream r) (type == res_meta) (λ e. absurd (ground arith))
      (λ _.
        if_elim (λ q. q ≡ cleanup_stream r) (is_response_frame type) (λ _. refl)
          (λ e. absurd (false≢true (sym e ∙ response))))

cleanup_stream-removes :
    (r : Run)
    → r.stream.cleaned ≡ false
    → ((cleanup_stream r).stream.cleaned ≡ true)
      × ((cleanup_stream r).stream.socket ≡ r.stream.socket)
      × ((cleanup_stream r).global
          ≡ record (r.global) { streams = Map.delete r.stream.id r.global.streams })
unfolding cleanup_stream
cleanup_stream-removes r live = rw live (refl, refl, refl)

cleanup_tcp_stream-ended :
    (net : Net) (q : Run) → q.stream.cleaned ≡ true → cleanup_tcp_stream net q ≡ q
unfolding cleanup_tcp_stream
cleanup_tcp_stream-ended net q c = if_true _ c

-- A tunnel client that answers a live TCP stream with RES_DATA, RES_END or RES_ABORT takes its id out
-- of the table, and that is all: its socket stays as it was, nothing is sent or called, and its
-- connection stays counted. No later cleanup gives the connection back, and no events of the socket, of
-- its sends and of the idle timer, no losses of the client or of the agent and no shutdowns do, however
-- many follow: the table and the counts stay as they are.
pub response_frame_leaks :
    (net : Net) (config : Config) (parse : Bytes → Option Json) (type : ℕ) (payload : Bytes)
    (r : Run) (es : List (Net × Event))
    → is_response_frame type ≡ true
    → r.stream.cleaned ≡ false
    → AllOwn config parse es
    → let q = client_frame net config parse type payload r in
      (q.stream.cleaned ≡ true)
      × (q.stream.socket ≡ r.stream.socket)
      × (q.global ≡ record (r.global) { streams = Map.delete r.stream.id r.global.streams })
      × (cleanup_tcp_stream net q ≡ q)
      × ((run config parse es q).global ≡ q.global)
response_frame_leaks net config parse type payload r es response live own =
    let (cleaned, socket, taken_out) = cleanup_stream-removes r live in
    rw (client_frame-response net config parse type payload r response) (
      cleaned,
      socket,
      taken_out,
      cleanup_tcp_stream-ended net _ cleaned,
      (run-IsQuiet config parse es (cleanup_stream r) own cleaned).global,
    )
