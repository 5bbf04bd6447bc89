-- ===== src/Server/AgentFrames.antt =====
-- src/tcp/TcpAgentServer.js: the frames of an agent for its streams, and the end of an agent.
use nodejs_wss_service_bridg.Base.{
  ℕ, Bool, true, false, ◌&&◌, ◌||◌, not, List, [], ◌∷◌, Option, none, some, String, ◌==◌,
  if◌then◌else◌, ok,
}
use nodejs_wss_service_bridg.Base.Map
use nodejs_wss_service_bridg.Protocol.{
  Bytes, parse_json_payload, pause, resume, tcp_data, tcp_close, tcp_abort,
}
use nodejs_wss_service_bridg.Server.{
  Net, Config, Run, Global, Server, Json, object, json, says, with_stream, send_frame, on_object,
}
use nodejs_wss_service_bridg.Server.Cleanup.{abort_tcp_stream, sync_tcp_backpressure}
use nodejs_wss_service_bridg.Server.Socket.{push_inbound, end_from_agent, abort_from_agent}
use nodejs_wss_service_bridg.Server.ClientFrames.{json_limit}

-- The message of an abort's payload; `none` where it has none or cannot be parsed.
abbrev pub message_of : (Bytes → Option Json) → Bytes → Option String
message_of parse payload = elim (parse_json_payload parse json_limit payload) [
  | ok (object info) ↦ info.message
  | _ ↦ none
]

-- The `switch` of `_handleFrame`, for a stream of this agent.
unfoldable pub agent_frame : Net → Config → (Bytes → Option Json) → ℕ → Bytes → Run → Run
unfolding push_inbound end_from_agent abort_from_agent sync_tcp_backpressure
agent_frame net config parse type payload r =
    if type == tcp_data
    then push_inbound net config payload r
    else if type == tcp_close
    then end_from_agent net r
    else if type == tcp_abort
    then abort_from_agent net (message_of parse payload) r
    else if type == pause
    then sync_tcp_backpressure net (with_stream r (record (r.stream) { agent_paused = true }))
    else if type == resume
    then sync_tcp_backpressure net (with_stream r (record (r.stream) { agent_paused = false }))
    else r

abbrev pub owned_by : ℕ → Option ℕ → Bool
owned_by ws none = false
owned_by ws (some agent) = agent == ws

abbrev pub on_global : (Global → Global) → Server → Server
on_global f s = record s { global = f s.global }

-- The answer to a frame for a stream that is not there.
unfoldable pub stream_missing : Net → ℕ → ℕ → ℕ → Server → Server
unfolding send_frame
stream_missing net ws type id s =
    if type == tcp_data || type == tcp_close
    then on_global (send_frame net ws tcp_abort id (json (says "Stream not found"))) s
    else s

-- `_handleFrame` for a frame that parses and is not TCP_CONNECT.
unfoldable pub handle_stream_frame :
    Net → Config → (Bytes → Option Json) → ℕ → ℕ → ℕ → Bytes → Server → Server
unfolding agent_frame stream_missing on_object
handle_stream_frame net config parse ws type id payload s = elim (Map.get id s.global.streams) [
  | none ↦ stream_missing net ws type id s
  | some ref ↦
      if not (s.objects ref).socket.is_virtual
      then stream_missing net ws type id s
      else if owned_by ws (s.objects ref).agent_ws && not (s.objects ref).awaiting_client_ack
      then on_object ref (agent_frame net config parse type payload) s
      else s
]

-- The loop of `cleanupAgent`.
unfoldable pub abort_streams : Net → String → List ℕ → Server → Server
unfolding on_object
abort_streams net reason [] s = s
abort_streams net reason (id ∷ ids) s =
    abort_streams net reason ids (elim (Map.get id s.global.streams) [
      | none ↦ s
      | some ref ↦ on_object ref (abort_tcp_stream net reason true) s
    ])

unfoldable pub cleanup_agent : Net → String → ℕ → Server → Server
unfolding abort_streams
cleanup_agent net reason ws s = elim (Map.get ws s.global.agent_streams) [
  | none ↦ s
  | some owned ↦
      abort_streams net reason owned
        (on_global (λ g. record g { agent_streams = Map.delete ws g.agent_streams }) s)
]

-- `handleConnection` of a new agent.
unfoldable pub handle_agent_connection : ℕ → Server → Server
handle_agent_connection ws s =
    on_global (λ g. record g { agent_streams = Map.put ws [] g.agent_streams }) s
