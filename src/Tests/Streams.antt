-- ===== src/Tests/Streams.antt =====
-- The server's TCP streams at concrete inputs.
use nodejs_wss_service_bridg.Base.{
  ℕ, ◌≡◌, ◌≤◌, refl, arith, true, false, List, [], ◌∷◌, ◌++◌, Option, none, some, has,
}
use nodejs_wss_service_bridg.Base.Map
use nodejs_wss_service_bridg.Protocol.{Bytes, tcp_data, res_end, pause, resume}
use nodejs_wss_service_bridg.Server.{
  Net, Config, Global, StreamSocket, TcpStream, Run, Json, object, no_info, decrement_count, send,
  bytes, empty, can_send, send_frame,
}
use nodejs_wss_service_bridg.Server.Allocate.{max_id, allocate_stream_id, allocate_stream_id-fresh}
use nodejs_wss_service_bridg.Server.Cleanup.{cleanup_tcp_stream}
use nodejs_wss_service_bridg.Server.Socket.{resume_socket, pause_socket}
use nodejs_wss_service_bridg.Server.ClientFrames.{client_frame}
use nodejs_wss_service_bridg.Server.Counting.{Settles}
use nodejs_wss_service_bridg.Server.Lifecycle.{
  Event, data_read, closed, client_lost, run, run-Settles,
}
use nodejs_wss_service_bridg.Server.Silence.{IsQuiet, run-IsQuiet}
use nodejs_wss_service_bridg.Server.Relay.{IsRelay, received}
use nodejs_wss_service_bridg.Server.Relay.Order.{
  Call, push, pauses, resumes, call, calls, NoOverflow, calls-IsRelay,
}
use nodejs_wss_service_bridg.Server.Faults.{response_frame_leaks}
use nodejs_wss_service_bridg.Server.Faults.Resume.{resume_unpauses_agent}

abbrev net : Net
net = record {
  is_open = λ ws. true;
  accepts = λ ws. true;
  buffered_amount = λ ws out. 200;
  socket_write_result = some true;
}

abbrev config : Config
config = record {
  max_concurrent_streams = 8;
  stream_idle_timeout_ms = 1000;
  ws_high_water = 100;
  ws_low_water = 50;
  max_dest_buffer_bytes = 16;
  tcp_tunnel_host = "localhost";
  tcp_max_connections_per_port = 4;
  allowed_ports = 80 ∷ [];
  max_connections_per_port = 4;
  max_streams_per_agent = 4;
}

abbrev parse : Bytes → Option Json
parse b = some (object no_info)

abbrev socket : StreamSocket
socket = record {
  is_virtual = true;
  destroyed = false;
  peer = 2;
  paused = false;
  buffered = [];
  buffered_bytes = 0;
  pending_drain = false;
  agent_notified = false;
  close_queued = false;
}

abbrev stream : TcpStream
stream = record {
  id = 9;
  ws = 1;
  server_port = 80;
  cleaned = false;
  abort_sent = false;
  agent_paused = false;
  ws_backpressured = false;
  client_paused_for_agent = false;
  peer_paused_read = false;
  local_paused_for_ws = false;
  pending_sends = 0;
  timer = true;
  on_cleanup = decrement_count 80 false;
  agent_ws = some 2;
  awaiting_client_ack = false;
  target_tunnel_id = [];
  connect_request_id = none;
  on_client_open_confirmed = none;
  socket = socket;
}

abbrev global : Global
global = record {
  streams = (9, 0) ∷ [];
  next_stream_id = 9;
  conn_count = (80, 1) ∷ [];
  agent_conn_count = [];
  agent_streams = [];
  out = [];
}

-- A live stream of an agent, and the same with its socket paused on one chunk, and ended.
abbrev live : Run
live = record { global = global; stream = stream }

abbrev chunk : Bytes
chunk = 7 ∷ 8 ∷ []

abbrev waiting : Run
waiting = record {
  global = global;
  stream = record stream {
    socket = record socket { paused = true; buffered = chunk ∷ []; buffered_bytes = 2 };
  };
}

abbrev ended : Run
ended = record {
  global = global;
  stream = record stream { cleaned = true; socket = record socket { destroyed = true } };
}

-- A WebSocket that has closed.
abbrev shut_net : Net
shut_net = record net { is_open = λ ws. false }

abbrev script_of_events : List (Net × Event)
script_of_events = (net, data_read chunk) ∷ (shut_net, client_lost) ∷ (net, closed) ∷ []

run-Settles_example : Settles live (run config parse script_of_events live)
run-Settles_example = run-Settles config parse script_of_events live (tt, (tt, (tt, tt)))

live-IsRelay : IsRelay net config live
live-IsRelay = record {
  is_virtual = refl;
  live = refl;
  intact = refl;
  open_ws = refl;
  accepts = refl;
  flowing = λ e. refl;
  counted = refl;
  bounded = omega arith;
}

abbrev script : List Call
script = pauses ∷ push chunk ∷ resumes ∷ []

script-NoOverflow : NoOverflow net config script live
unfolding NoOverflow call pause_socket send_frame can_send
script-NoOverflow = (omega arith, tt)

calls-IsRelay_example :
    IsRelay net config (calls net config script live)
    × (received (calls net config script live) ≡ received live ++ chunk ∷ [])
calls-IsRelay_example = calls-IsRelay net config script live live-IsRelay script-NoOverflow

allocate_stream_id-fresh_example :
    (id : ℕ) × ((allocate_stream_id global).0 ≡ some id)
    × (1 ≤ id)
    × (id ≤ max_id)
    × (has id (Map.keys global.streams) ≡ false)
    × (1 ≤ (allocate_stream_id global).1.next_stream_id)
    × ((allocate_stream_id global).1.next_stream_id ≤ max_id)
allocate_stream_id-fresh_example =
    allocate_stream_id-fresh global (omega arith) (omega arith) (omega arith)

-- The stream that a tunnel client has answered with RES_END.
abbrev leaked : Run
leaked = client_frame net config parse res_end [] live

response_frame_leaks_example :
    (leaked.stream.cleaned ≡ true)
    × (leaked.stream.socket ≡ socket)
    × (leaked.global ≡ record global { streams = Map.delete 9 global.streams })
    × (cleanup_tcp_stream net leaked ≡ leaked)
    × ((run config parse script_of_events leaked).global ≡ leaked.global)
response_frame_leaks_example =
    response_frame_leaks net config parse res_end [] live script_of_events refl refl
      (tt, (tt, (tt, tt)))

run-IsQuiet_example : IsQuiet ended (run config parse script_of_events ended)
run-IsQuiet_example = run-IsQuiet config parse script_of_events ended (tt, (tt, (tt, tt))) refl

agent-can_send : can_send net 2 ≡ true
unfolding can_send
agent-can_send = refl

resume_unpauses_agent_example :
    ((resume_socket net config waiting).stream.socket.paused ≡ true)
    × ((resume_socket net config waiting).global.out
        ≡ send 2 resume 9 empty ∷ send 2 pause 9 empty ∷ send 1 tcp_data 9 (bytes chunk) ∷ [])
resume_unpauses_agent_example =
    resume_unpauses_agent net config chunk waiting refl refl refl refl refl refl refl refl
      agent-can_send (λ out. omega arith)
