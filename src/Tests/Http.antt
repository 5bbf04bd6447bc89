-- ===== src/Tests/Http.antt =====
-- HTTP over the tunnel at concrete inputs.
use nodejs_wss_service_bridg.Base.{
  ℕ, ◌≡◌, ◌≢◌, refl, ap, arith, true, false, not, List, [], ◌∷◌, ◌++◌, Option, some, has,
}
use nodejs_wss_service_bridg.Base.Map
use nodejs_wss_service_bridg.Base.Text.{Text, codes, text_eq, is_space}
use nodejs_wss_service_bridg.Base.TextMap.{get}
use nodejs_wss_service_bridg.Protocol.{Bytes, parse_json_payload, res_meta, req_meta}
use nodejs_wss_service_bridg.Clients.{Sockets, Clients}
use nodejs_wss_service_bridg.Server.{Global}
use nodejs_wss_service_bridg.Http.{
  Value, one, RequestMeta, request_meta, no_meta, Json, object, error, send, write_head, res_end,
  Net, Config, Exchange, emit,
}
use nodejs_wss_service_bridg.Http.Streams.{no_store_headers, create_stream, cleanup_stream}
use nodejs_wss_service_bridg.Http.Frames.{http_frame}
use nodejs_wss_service_bridg.Http.Events.{
  Event, writer_finished, response_closed, idle, IsOver, run, is_broken, is_wrong, response,
  request,
}
use nodejs_wss_service_bridg.Http.Events.Steps.{Keeps}
use nodejs_wss_service_bridg.Http.Events.Laws.{exchange-Keeps, IsOver-run-silent}
use nodejs_wss_service_bridg.Http.Faults.{has_undefined, head_request_refused}
use nodejs_wss_service_bridg.Http.Forward.{Incoming, proxied, proxy_http_request}
use nodejs_wss_service_bridg.Http.Forward.Hops.{hops}
use nodejs_wss_service_bridg.Http.Forward.Clean.{IsClean, proxy_http_request-forwards}

-- A net where `writeHead` throws at a header with the value `undefined`, and all else is taken.
abbrev net : Net
net = record {
  is_open = λ ws out. true;
  accepts = λ ws out. true;
  head_accepts = λ status reason headers out. not (has_undefined headers);
  end_accepts = λ out. true;
  write_result = λ chunk out. some true;
  writable_length = λ out. 0;
  writable_ended = λ out. false;
}

abbrev config : Config
config = record { stream_idle_timeout_ms = 1000; max_dest_buffer_bytes = 4096 }

abbrev meta : RequestMeta
meta = record { method = codes "HEAD"; url = codes "/a"; headers = [] }

abbrev parse : Bytes → Option Json
parse payload = some (object no_meta)

-- The exchange 7, under the id 3, of a HEAD request.
abbrev begun : Exchange
begun = (create_stream net config 7 3 1 meta true []).0

abbrev events : List Event
events = writer_finished ∷ response_closed ∷ idle ∷ []

none_held : (j ref : ℕ) → Map.get {V = ℕ} j [] ≢ some ref
unfolding Map.get
none_held j ref e = cc

exchange-Keeps_example :
    Keeps (run net config parse events begun)
    × (is_broken (response (run net config parse events begun).out) ≡ false)
    × (is_wrong (request (run net config parse events begun).out) ≡ false)
unfolding create_stream
exchange-Keeps_example =
    exchange-Keeps net config parse 7 3 1 meta true [] begun events tt (λ j. none_held j 7) refl

abbrev finished : Exchange
finished = cleanup_stream net begun

finished-IsOver : IsOver finished
unfolding create_stream cleanup_stream Map.delete Map.put
finished-IsOver = record {
  cleaned = refl;
  gone = λ j. none_held j 7;
  untimed = refl;
  responded = refl;
  requested = refl;
}

IsOver-run-silent_example :
    IsOver (run net config parse events finished)
    × ((run net config parse events finished).out ≡ finished.out)
IsOver-run-silent_example = IsOver-run-silent net config parse events finished finished-IsOver

head_request_refused_example :
    http_frame net config parse res_meta (b'1' ∷ []) begun
    ≡ cleanup_stream net (
        emit
          (res_end (error "tunnel_error" "Invalid response headers from tunnel client"))
          (emit (write_head 502 [] no_store_headers) begun))
unfolding create_stream parse_json_payload
head_request_refused_example =
    head_request_refused net config parse begun no_meta (b'1' ∷ [])
      (λ status reason headers out e. ap (λ b. not b) e) refl refl refl refl refl refl

abbrev sockets : Sockets
sockets = record { is_open = λ ws. true; buffered_amount = λ ws. 0 }

abbrev clients : Clients
clients = record {
  clients = 1 ∷ [];
  clients_by_tunnel_id = [];
  tunnel_id = λ ws. [];
  is_alive = λ ws. true;
}

abbrev incoming : Incoming
incoming = record {
  method = codes "GET";
  is_head = false;
  url = codes "/a";
  headers =
      (codes "host", one (codes "example.com"))
      ∷ (codes "te", one (codes "trailers"))
      ∷ (codes "x-forwarded-for", one (codes "192.0.2.7, 192.0.2.8"))
      ∷ [];
  remote_address = some (codes "10.0.0.1");
  encrypted = true;
}

abbrev global : Global
global = record {
  streams = [];
  next_stream_id = 1;
  conn_count = [];
  agent_conn_count = [];
  agent_streams = [];
  out = [];
}

proxy_http_request-forwards_example :
    (id : ℕ) × (x : Exchange) × (h : Global) × (proxy_http_request net config sockets clients 200 7
        incoming global
      ≡ (proxied x true, h))
    × (has id (Map.keys global.streams) ≡ false)
    × (h.streams ≡ Map.put id 7 global.streams)
    × ((headers : List (Text × Value)) × (x.out
          ≡ send 1 req_meta id (
              request_meta
                (record { method = incoming.method; url = incoming.url; headers = headers }))
            ∷ [])
        × IsClean headers
        × (hops (get (codes "x-forwarded-for") headers)
            ≡ hops (get (codes "x-forwarded-for") incoming.headers) ++ codes "10.0.0.1" ∷ []))
unfolding proxy_http_request text_eq is_space
proxy_http_request-forwards_example =
    proxy_http_request-forwards net config sockets clients 200 7 incoming global 1 b'1'
      (codes "0.0.0.1") refl refl refl (omega arith) (omega arith) (omega arith) refl refl refl refl
      (refl, (refl, (refl, (refl, (refl, (refl, (refl, (refl, tt))))))))
