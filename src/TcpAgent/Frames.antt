-- ===== src/TcpAgent/Frames.antt =====
-- serve/tcp-agent.js: the frames of the server.
use nodejs_wss_service_bridg.Base.{
  ℕ, Bool, true, false, ◌&&◌, ◌||◌, not, List, Option, none, some, ◌==◌, if◌then◌else◌, Result, ok,
  err,
}
use nodejs_wss_service_bridg.Base.Map.{get}
use nodejs_wss_service_bridg.Base.Text.{Text, is_empty, text_eq}
use nodejs_wss_service_bridg.Protocol.{
  Bytes, Message, Frame, FrameError, JsonError, parse_frame, parse_json_payload, pause, resume,
  tcp_data, tcp_close, tcp_abort, tcp_connect_ack,
}
use nodejs_wss_service_bridg.Server.{Json, null, object, Info, no_info}
use nodejs_wss_service_bridg.Server.ClientFrames.{json_limit}
use nodejs_wss_service_bridg.Server.Connect.{valid_request_id}
use nodejs_wss_service_bridg.TcpAgent.{
  empty, socket_end, socket_write, Net, Pending, Agent, emit, change, send_frame, destroy,
}
use nodejs_wss_service_bridg.TcpAgent.Streams.{register_stream, abort_stream, sync_read_state, drop}
use nodejs_wss_service_bridg.TcpAgent.Local.{splice_first}

-- `!info.targetTunnelId || entry.targetTunnelId === String(info.targetTunnelId)`
abbrev pub same_target : Option Text → Text → Bool
same_target none id = true
same_target (some wanted) id = is_empty wanted || text_eq id wanted

abbrev pub same_port : Option ℕ → ℕ → Bool
same_port none port = false
same_port (some wanted) port = port == wanted

-- The test of the two `findIndex`: by the request's id, or by its port and target.
abbrev pub answers : Info → Option ℕ → Pending → Bool
answers info (some id) e = e.request_id == id
answers info none e =
    same_port info.port e.target_port && same_target info.target_tunnel_id e.target_tunnel_id

unfoldable pub find_pending : Info → List Pending → Option (Pending × List Pending)
unfolding splice_first
find_pending info pending = splice_first (answers info (valid_request_id info.request_id)) pending

-- `handleConnectAck` on a payload that is read; reading a field of `null` throws, which is `none`.
unfoldable pub register_found : ℕ → Option (Pending × List Pending) → Agent → Agent
unfolding register_stream
register_found id none a = a
register_found id (some (e, rest)) a =
    register_stream id e.local_socket (record a { pending_connects = rest })

unfoldable pub ack_read : ℕ → Result JsonError Json → Agent → Option Agent
unfolding register_found find_pending
ack_read id (err e) a = some a
ack_read id (ok null) a = none
ack_read id (ok (object info)) a = some (register_found id (find_pending info a.pending_connects) a)

unfoldable pub handle_connect_ack : (Bytes → Option Json) → ℕ → Bytes → Agent → Option Agent
unfolding ack_read
handle_connect_ack parse id payload a = ack_read id (parse_json_payload parse json_limit payload) a

-- `handleConnectReject`: a payload that cannot be read is taken as `{}`.
unfoldable pub destroy_found : Option (Pending × List Pending) → Agent → Agent
destroy_found none a = a
destroy_found (some (e, rest)) a = destroy e.local_socket (record a { pending_connects = rest })

unfoldable pub reject_read : Result JsonError Json → Agent → Option Agent
unfolding destroy_found find_pending
reject_read (err e) a = some (destroy_found (find_pending no_info a.pending_connects) a)
reject_read (ok null) a = none
reject_read (ok (object info)) a = some (destroy_found (find_pending info a.pending_connects) a)

unfoldable pub handle_connect_reject : (Bytes → Option Json) → Bytes → Agent → Option Agent
unfolding reject_read
handle_connect_reject parse payload a = reject_read (parse_json_payload parse json_limit payload) a

-- The case TCP_DATA, by the answer of `write`.
unfoldable pub data_written : Net → ℕ → Bytes → Option Bool → Agent → Agent
unfolding abort_stream send_frame
data_written net ref payload none a = abort_stream net ref "Failed to write to local socket" a
data_written net ref payload (some taken) a =
    let e = a.entries ref in
    let wrote = emit (socket_write e.socket payload) a in
    if not taken && not e.local_write_backpressured
    then send_frame net pause e.stream_id empty
        (change ref (record e { local_write_backpressured = true }) wrote)
    else wrote

-- The cases for an entry that is in the table and not cleaned.
unfoldable pub entry_frame : Net → ℕ → Bytes → ℕ → Agent → Agent
unfolding data_written sync_read_state
entry_frame net type payload ref a =
    let e = a.entries ref in
    if type == tcp_data
    then data_written net ref payload (net.socket_write_result e.socket a.out) a
    else if type == tcp_close
    then emit (socket_end e.socket) (drop ref a)
    else if type == tcp_abort
    then destroy e.socket (drop ref a)
    else if type == pause
    then sync_read_state ref (change ref (record e { peer_paused_read = true }) a)
    else if type == resume
    then sync_read_state ref (change ref (record e { peer_paused_read = false }) a)
    else a

unfoldable pub stream_frame : Net → ℕ → Bytes → Option ℕ → Agent → Agent
unfolding entry_frame
stream_frame net type payload none a = a
stream_frame net type payload (some ref) a =
    if (a.entries ref).cleaned then a else entry_frame net type payload ref a

-- `handleServerFrame`
unfoldable pub handle_frame :
    Net → (Bytes → Option Json) → Result FrameError Frame → Agent → Option Agent
unfolding handle_connect_ack handle_connect_reject stream_frame
handle_frame net parse (err e) a = some a
handle_frame net parse (ok f) a =
    if f.type == tcp_connect_ack
    then handle_connect_ack parse f.stream_id f.payload a
    else if f.type == tcp_abort && f.stream_id == 0
    then handle_connect_reject parse f.payload a
    else some (stream_frame net f.type f.payload (get f.stream_id a.streamed_sockets) a)

unfoldable pub handle_server_frame : Net → (Bytes → Option Json) → Message → Agent → Option Agent
unfolding handle_frame
handle_server_frame net parse m a = handle_frame net parse (parse_frame m) a
