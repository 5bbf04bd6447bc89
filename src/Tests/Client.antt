-- ===== src/Tests/Client.antt =====
-- The tunnel client at concrete inputs.
use nodejs_wss_service_bridg.Base.{
  ℕ, ◌≡◌, refl, arith, true, false, [], ◌∷◌, Option, none, some, String, ◌==◌, if◌then◌else◌,
}
use nodejs_wss_service_bridg.Base.Map.{get, delete}
use nodejs_wss_service_bridg.Protocol.{Bytes, Message, buffer, tcp_open, res_abort}
use nodejs_wss_service_bridg.Server.{Json, object, no_info}
use nodejs_wss_service_bridg.TunnelClient.{Net, Config, Stream, Client, send, message, idle_timeout}
use nodejs_wss_service_bridg.TunnelClient.TcpHandler.{new_stream, cleanup_tcp_state}
use nodejs_wss_service_bridg.TunnelClient.LocalSocket.{on_data, on_close, on_error, on_timeout}
use nodejs_wss_service_bridg.TunnelClient.Frames.{on_idle, cleanup_all_streams}
use nodejs_wss_service_bridg.Base.Text.{codes}
use nodejs_wss_service_bridg.TunnelClient.Requests.{AskedJson, Target}
use nodejs_wss_service_bridg.TunnelClient.Table.{IsClient}
use nodejs_wss_service_bridg.TunnelClient.Events.{message as message_event}
use nodejs_wss_service_bridg.TunnelClient.Disconnect.{cleanup_all_streams-empty}
use nodejs_wss_service_bridg.TunnelClient.Connection.{Connection, BacksOff, lost, lost-BacksOff}
use nodejs_wss_service_bridg.TunnelClient.Leaks.{idle_timer_leaks_socket}

abbrev net : Net
net = record {
  is_open = λ ws. true;
  accepts = λ ws. true;
  buffered_amount = λ ws out. 0;
  socket_write_result = λ ref out. some true;
  request_accepts = λ ref out. true;
  request_destroyed = λ ref out. false;
}

abbrev config : Config
config = record {
  max_concurrent_streams = 8;
  stream_idle_timeout_ms = 1000;
  max_frame_payload = 4096;
  allowed_hosts = "localhost" ∷ [];
  ws_high_water = 100;
  ws_low_water = 50;
}

abbrev parse : Bytes → Option Json
parse b = some (object no_info)

abbrev live_stream : Stream
live_stream = record (new_stream 9 1) { local_socket = true }

-- A client with one live TCP stream, of the id 9.
abbrev client : Client
client = record {
  streams = (9, 0) ∷ [];
  objects = λ j. if j == 0 then live_stream else record live_stream { cleaned = true };
  next_object = 1;
  socket_destroyed = λ j. false;
  out = [];
}

client-IsClient : IsClient client
unfolding IsClient get
client-IsClient = record {
  distinct = (refl, tt);
  live = λ id ref g. ground arith;
  named = λ id ref g. ground arith;
  owned = λ ref l. ground arith;
  used = λ ref l. ground arith;
}

abbrev opening : Message
opening = buffer (1 ∷ tcp_open ∷ 0 ∷ 0 ∷ 0 ∷ 7 ∷ 123 ∷ 125 ∷ [])

abbrev target : Target
target = record {
  pathname = codes "/";
  host = codes "127.0.0.1:8000";
  resolve = λ raw. some (raw, []);
  opens = λ method headers. true;
}

abbrev parse_meta : Bytes → Option AskedJson
parse_meta b = none

cleanup_all_streams-empty_example :
    ((cleanup_all_streams client).streams ≡ [])
    × ((ref : ℕ) → ((cleanup_all_streams client).objects ref).cleaned ≡ true)
cleanup_all_streams-empty_example = cleanup_all_streams-empty client client-IsClient

idle_timer_leaks_socket_example :
    ((on_idle net 0 client).streams ≡ delete 9 client.streams)
    × ((on_idle net 0 client).out ≡ send 1 res_abort 9 (message idle_timeout) ∷ [])
    × ((on_idle net 0 client).socket_destroyed ≡ client.socket_destroyed)
    × (((on_idle net 0 client).objects 0).local_socket ≡ true)
    × ((chunk : Bytes) → on_data net config 0 chunk (on_idle net 0 client) ≡ on_idle net 0 client)
    × (on_close net 0 (on_idle net 0 client) ≡ on_idle net 0 client)
    × ((text : String) → on_error net 0 text (on_idle net 0 client) ≡ on_idle net 0 client)
    × (on_timeout net 0 (on_idle net 0 client) ≡ on_idle net 0 client)
    × (cleanup_tcp_state 0 (on_idle net 0 client) ≡ on_idle net 0 client)
idle_timer_leaks_socket_example =
    idle_timer_leaks_socket net config 0 client refl refl refl refl refl refl refl refl

-- A connection that has just opened.
abbrev connection : Connection
connection = record {
  connected_once = true;
  reconnect_timer = false;
  reconnect_delay = 1000;
  reconnect_attempt = 0;
  heartbeat_interval = true;
  auth_failed = false;
  shutting_down = false;
  ready = true;
  client = client;
  calls = [];
}

lost-BacksOff_example : BacksOff 6 connection (lost 6 connection)
lost-BacksOff_example = lost-BacksOff 6 connection refl refl refl
