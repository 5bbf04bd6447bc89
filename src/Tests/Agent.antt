-- ===== src/Tests/Agent.antt =====
-- The TCP agent at concrete inputs.
use nodejs_wss_service_bridg.Base.{
  ℕ, ◌≡◌, refl, arith, true, false, [], ◌∷◌, Option, some, ◌==◌, if◌then◌else◌,
}
use nodejs_wss_service_bridg.Base.Map.{get}
use nodejs_wss_service_bridg.Objects.{set}
use nodejs_wss_service_bridg.Protocol.{
  Bytes, Frame, Message, buffer, parse_frame, parse_json_payload, tcp_connect, tcp_connect_ack,
  tcp_abort,
}
use nodejs_wss_service_bridg.Server.{Json, object, Info, no_info}
use nodejs_wss_service_bridg.TcpAgent.{send, connect_info, opened, Net, Config, Pending, Agent}
use nodejs_wss_service_bridg.TcpAgent.Local.{on_connection, connect_info_of}
use nodejs_wss_service_bridg.TcpAgent.Streams.{new_entry}
use nodejs_wss_service_bridg.TcpAgent.Frames.{handle_server_frame}
use nodejs_wss_service_bridg.TcpAgent.Connection.{on_ws_close}
use nodejs_wss_service_bridg.TcpAgent.Table.{IsAgent}
use nodejs_wss_service_bridg.TcpAgent.Readiness.{IsIdle}
use nodejs_wss_service_bridg.TcpAgent.Ready.{all_listening}
use nodejs_wss_service_bridg.TcpAgent.Events.{IsSound, Returns, step, step-IsSound, connection}
use nodejs_wss_service_bridg.TcpAgent.Disconnect.{IsEmptied, on_ws_close-IsEmptied}
use nodejs_wss_service_bridg.TcpAgent.Requests.Steps.{IsWaiting, step-IsWaiting}
use nodejs_wss_service_bridg.TcpAgent.Requests.Answers.{
  ack-registers, reject-destroys, unclaimed_ack_silent,
}
use nodejs_wss_service_bridg.PortParser.{Route}

abbrev net : Net
net = record {
  accepts = λ out. true;
  buffered_amount = λ out. 0;
  socket_write_result = λ socket out. some true;
  file_written = true;
}

abbrev route : Route
route = record { local_port = 6379; target_tunnel_id = []; target_port = 6379 }

abbrev config : Config
config = record {
  routes = route ∷ [];
  ws_high_water = 100;
  ws_low_water = 50;
  reconnect_delay_ms = 1000;
  has_ready_file = true;
  file_removed = true;
}

-- The answer to the request 2.
abbrev answer : Info
answer = record no_info { request_id = some 2 }

abbrev parse : Bytes → Option Json
parse b = some (object answer)

abbrev waiting_on : ℕ → ℕ → Pending
waiting_on socket id = record {
  local_socket = socket;
  local_port = 6379;
  target_port = 6379;
  target_tunnel_id = [];
  request_id = id;
}

-- A ready agent with one stream, of the id 9 at the socket 30, and two connections that wait.
abbrev agent : Agent
agent = record {
  ws = opened;
  reconnect_timer = false;
  reconnect_delay = 1000;
  reconnect_attempt = 0;
  auth_failed = false;
  shutting_down = false;
  next_connect_request_id = 3;
  streamed_sockets = (9, 0) ∷ [];
  entries = λ j. if j == 0 then new_entry 9 30 else record (new_entry 9 30) { cleaned = true };
  next_entry = 1;
  pending_connects = waiting_on 31 1 ∷ waiting_on 32 2 ∷ [];
  listening_ports = 6379 ∷ [];
  ready = true;
  ready_file = true;
  destroyed = λ socket. false;
  out = [];
}

agent-IsSound : IsSound config agent
unfolding IsAgent get all_listening
agent-IsSound = record {
  table = record {
    distinct = (refl, tt);
    live = λ id ref g. ground arith;
    named = λ id ref g. ground arith;
    owned = λ ref l. ground arith;
    used = λ ref l. ground arith;
  };
  readiness = record {
    running = λ r. refl;
    up = λ r. refl;
    listening = λ r. refl;
    file = λ m r. refl;
    configured = λ r. refl;
    timer = λ r. absurd (ground arith);
  };
}

agent-IsWaiting : IsWaiting agent
agent-IsWaiting = record {
  distinct = (refl, (refl, tt));
  given = ((omega arith, omega arith), ((omega arith, omega arith), tt));
  started = omega arith;
}

abbrev frame : ℕ → ℕ → Message
frame type id = buffer (1 ∷ type ∷ 0 ∷ 0 ∷ 0 ∷ id ∷ 123 ∷ 125 ∷ [])

abbrev framed : ℕ → ℕ → Frame
framed type id = record { type = type; stream_id = id; payload = 123 ∷ 125 ∷ [] }

step-IsSound_example : Returns config (step net config parse (connection route 33) agent)
step-IsSound_example = step-IsSound net config parse (connection route 33) agent agent-IsSound tt

on_ws_close-IsEmptied_example :
    IsEmptied agent (on_ws_close config agent) × IsIdle config (on_ws_close config agent)
on_ws_close-IsEmptied_example = on_ws_close-IsEmptied config agent agent-IsSound

abbrev after_connection : Agent
after_connection = record agent {
  next_connect_request_id = 4;
  pending_connects = waiting_on 31 1 ∷ waiting_on 32 2 ∷ waiting_on 33 3 ∷ [];
  out = send tcp_connect 0 (connect_info (connect_info_of route 3)) ∷ [];
}

step-IsWaiting_example : IsWaiting after_connection
unfolding step on_connection
step-IsWaiting_example =
    step-IsWaiting net config parse (connection route 33) agent after_connection agent-IsWaiting
      (omega arith) refl

ack-registers_example :
    (b : Agent) × (handle_server_frame net parse (frame tcp_connect_ack 7) agent ≡ some b)
    × (b.pending_connects ≡ waiting_on 31 1 ∷ [])
    × (get 7 b.streamed_sockets ≡ some 1)
    × (b.entries 1 ≡ new_entry 7 32)
unfolding parse_frame parse_json_payload
ack-registers_example =
    ack-registers net parse agent (waiting_on 31 1 ∷ []) (waiting_on 32 2) []
      (frame tcp_connect_ack 7) (framed tcp_connect_ack 7) answer agent-IsWaiting (omega arith) refl
      refl refl refl refl refl

reject-destroys_example :
    (b : Agent) × (handle_server_frame net parse (frame tcp_abort 0) agent ≡ some b)
    × (b.pending_connects ≡ waiting_on 31 1 ∷ [])
    × (b.destroyed ≡ set 32 true agent.destroyed)
    × (b.streamed_sockets ≡ agent.streamed_sockets)
unfolding parse_frame parse_json_payload
reject-destroys_example =
    reject-destroys net parse agent (waiting_on 31 1 ∷ []) (waiting_on 32 2) [] (frame tcp_abort 0)
      (framed tcp_abort 0) answer agent-IsWaiting (omega arith) refl refl refl refl refl refl

abbrev other_parse : Bytes → Option Json
other_parse b = some (object (record no_info { request_id = some 8 }))

unclaimed_ack_silent_example :
    handle_server_frame net other_parse (frame tcp_connect_ack 7) agent ≡ some agent
unfolding parse_frame parse_json_payload
unclaimed_ack_silent_example =
    unclaimed_ack_silent net other_parse agent (frame tcp_connect_ack 7) (framed tcp_connect_ack 7)
      (record no_info { request_id = some 8 }) 8 refl refl refl refl refl refl
