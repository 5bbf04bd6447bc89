-- ===== src/Tests/Bodies.antt =====
-- A proxied request with a body at a concrete tunnel client.
use nodejs_wss_service_bridg.Base.{◌≡◌, refl, true, [], ◌∷◌, Option, some}
use nodejs_wss_service_bridg.Base.Text.{codes}
use nodejs_wss_service_bridg.Protocol.{Bytes, parse_json_payload}
use nodejs_wss_service_bridg.Http.{RequestMeta}
use nodejs_wss_service_bridg.TunnelClient.{request_end, request_write, Net, Config, Client}
use nodejs_wss_service_bridg.TunnelClient.TcpHandler.{new_stream}
use nodejs_wss_service_bridg.TunnelClient.Frames.{handle_req_data}
use nodejs_wss_service_bridg.TunnelClient.Requests.{
  AskedJson, object, Target, local_request, handle_req_meta,
}
use nodejs_wss_service_bridg.TunnelClient.Requests.Bodies.{as_asked, body_written_after_end}

abbrev net : Net
net = record {
  is_open = λ ws. true;
  accepts = λ ws. true;
  buffered_amount = λ ws out. 0;
  socket_write_result = λ ref out. some true;
  request_accepts = λ ref out. true;
  request_destroyed = λ ref out. true;
}

abbrev config : Config
config = record {
  max_concurrent_streams = 8;
  stream_idle_timeout_ms = 1000;
  max_frame_payload = 4096;
  allowed_hosts = [];
  ws_high_water = 100;
  ws_low_water = 50;
}

abbrev target : Target
target = record {
  pathname = codes "/";
  host = codes "127.0.0.1:8000";
  resolve = λ raw. some (raw, []);
  opens = λ method headers. true;
}

abbrev posted : RequestMeta
posted = record { method = codes "POST"; url = codes "/form"; headers = [] }

abbrev parse : Bytes → Option AskedJson
parse b = some (object (as_asked posted))

abbrev idle_client : Client
idle_client = record {
  streams = [];
  objects = λ j. new_stream 0 0;
  next_object = 0;
  socket_destroyed = λ j. true;
  out = [];
}

body_written_after_end_example :
    (handle_req_data net 0
      (1 ∷ 2 ∷ [])
      (handle_req_meta net config target parse 1 7 (b'1' ∷ []) idle_client)).out
    ≡ request_write 0 (1 ∷ 2 ∷ []) ∷ request_end 0 ∷ local_request target 0 (as_asked posted) ∷ []
unfolding parse_json_payload
body_written_after_end_example =
    body_written_after_end net config target parse 1 7 (b'1' ∷ []) posted idle_client (1 ∷ 2 ∷ [])
      refl refl refl refl (λ out. refl)
