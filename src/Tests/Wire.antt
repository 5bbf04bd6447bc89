-- ===== src/Tests/Wire.antt =====
-- Frames, the frame writer and the parsers at concrete inputs.
use nodejs_wss_service_bridg.Base.{
  ◌≡◌, ◌≢◌, ◌≤◌, ◌<◌, ◌↔◌, ◌⊎◌, refl, arith, true, false, List, [], ◌∷◌, none, some, ok, err,
  length, Distinct,
}
use nodejs_wss_service_bridg.Base.Text.{
  codes, is_empty, trim, split, index_of, last_index_of, all_digits, decimal,
}
use nodejs_wss_service_bridg.Protocol.{
  Bytes, buffer, build_frame, parse_frame, parse_buffer, parse_json_payload, version, too_short,
  unsupported_version, tcp_data,
}
use nodejs_wss_service_bridg.Protocol.Laws.{
  parse_frame-build_frame, build_frame-parse_buffer, parse_buffer_errors, parse_json_payload_iff,
}
use nodejs_wss_service_bridg.TunnelId.{normalize_tunnel_id, matches_pattern}
use nodejs_wss_service_bridg.TunnelId.Laws.{IsTunnelId, normalize_tunnel_id_sound}
use nodejs_wss_service_bridg.PortParser.{
  parse_agent_ports, parse_agent_routes, Route, parse_entries, parse_entry, parse_route_port,
  parse_port, parse_target,
}
use nodejs_wss_service_bridg.PortParser.Ports.{Reads, parse_agent_ports_iff}
use nodejs_wss_service_bridg.PortParser.Routes.{AreRoutes, parse_agent_routes_sound}
use nodejs_wss_service_bridg.Writer.{Limits, Socket, Writer, finished, send_chunk}
use nodejs_wss_service_bridg.Writer.Laws.{concat, Cuts, send_chunk-Cuts, send_chunk-finished}

abbrev payload : Bytes
payload = 7 ∷ 8 ∷ 9 ∷ []

parse_frame-build_frame_example :
    parse_frame (buffer (build_frame tcp_data 300 payload))
    ≡ ok (record { type = tcp_data; stream_id = 300; payload = payload })
parse_frame-build_frame_example =
    parse_frame-build_frame tcp_data 300 payload (omega arith) (omega arith)

abbrev wire : Bytes
wire = 1 ∷ tcp_data ∷ 0 ∷ 0 ∷ 1 ∷ 44 ∷ payload

wire-parsed :
    parse_buffer wire ≡ ok (record { type = tcp_data; stream_id = 300; payload = payload })
unfolding parse_buffer
wire-parsed = refl

build_frame-parse_buffer_example : build_frame tcp_data 300 payload ≡ wire
build_frame-parse_buffer_example =
    build_frame-parse_buffer wire (record { type = tcp_data; stream_id = 300; payload = payload })
      (ground arith) wire-parsed

parse_buffer_errors_example :
    ((parse_buffer (2 ∷ payload) ≡ err too_short) ↔ (length payload < 5))
    × ((parse_buffer (2 ∷ payload) ≡ err (unsupported_version 2))
        ↔ ((5 ≤ length payload) × (2 ≢ version)))
parse_buffer_errors_example = parse_buffer_errors 2 payload

parse_json_payload_iff_example :
    (parse_json_payload (λ b. some (length b)) 64 payload ≡ ok 3)
    ↔ ((0 < length payload) × (length payload ≤ 64) × (some (length payload) ≡ some 3))
parse_json_payload_iff_example = parse_json_payload_iff (λ b. some (length b)) 64 payload 3

abbrev limits : Limits
limits = record { ws_high_water = 100; max_frame_payload = 2 }

abbrev open_socket : Socket
open_socket = record { ready = λ n. true; accepts = λ n. true; buffered = λ n. n }

abbrev free_socket : Socket
free_socket = record { ready = λ n. true; accepts = λ n. true; buffered = λ n. 0 }

abbrev writer : Writer
writer = record {
  stream_id = 5;
  frame_type = tcp_data;
  peer_paused = false;
  pending = none;
  writer_closed = false;
  destroyed = false;
}

send_chunk-Cuts_example : Cuts 2 payload (send_chunk limits open_socket writer payload)
send_chunk-Cuts_example = send_chunk-Cuts limits open_socket writer (omega arith) payload

send_chunk-finished_example :
    ((send_chunk limits free_socket writer payload).outcome ≡ finished)
    × (concat (send_chunk limits free_socket writer payload).sent ≡ payload)
send_chunk-finished_example =
    send_chunk-finished limits free_socket writer payload (omega arith) refl refl refl
      (λ n. (refl, refl, omega arith))

parse_agent_ports_iff_example :
    (parse_agent_ports (some (codes "80, 0443")) ≡ ok (80 ∷ 443 ∷ [])) ↔ (
      (is_empty (trim (codes "80, 0443")) ≡ false)
      × Reads (split b',' (codes "80, 0443")) (80 ∷ 443 ∷ [])
      × Distinct (80 ∷ 443 ∷ []))
parse_agent_ports_iff_example = parse_agent_ports_iff (codes "80, 0443") (80 ∷ 443 ∷ [])

abbrev routes : List Route
routes = record { local_port = 80; target_tunnel_id = codes "a1"; target_port = 8080 } ∷ []

routes-read : parse_agent_routes (some (codes "80=a1:8080")) ≡ ok routes
unfolding parse_agent_routes trim parse_entries split parse_entry index_of parse_route_port
    parse_port all_digits decimal parse_target last_index_of normalize_tunnel_id matches_pattern
routes-read = refl

parse_agent_routes_sound_example : AreRoutes routes (length (split b',' (codes "80=a1:8080")))
parse_agent_routes_sound_example = parse_agent_routes_sound (codes "80=a1:8080") routes routes-read

id-trimmed : normalize_tunnel_id true (some (codes " a-1 ")) ≡ ok (codes "a-1")
unfolding normalize_tunnel_id trim matches_pattern
id-trimmed = refl

id-IsTunnelId : IsTunnelId (codes "a-1")
id-IsTunnelId = record {
  bounded = omega arith;
  chars = (refl, (refl, (refl, tt)));
  first = (refl, tt);
  nonempty = λ e. cc;
}

normalize_tunnel_id_sound_example : ((true ≡ false) × (codes "a-1" ≡ [])) ⊎ IsTunnelId (codes "a-1")
normalize_tunnel_id_sound_example =
    normalize_tunnel_id_sound true (some (codes " a-1 ")) (codes "a-1") id-trimmed
