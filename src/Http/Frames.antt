-- ===== src/Http/Frames.antt =====
-- `handleClientFrame` of src/server/StreamManager.js at an HTTP stream.
use nodejs_wss_service_bridg.Base.{
  ℕ, Bool, true, false, ◌&&◌, not, List, [], ◌∷◌, Option, none, some, String, ltb, ◌==◌,
  if◌then◌else◌, Result, ok, err,
}
use nodejs_wss_service_bridg.Base.Map.{get}
use nodejs_wss_service_bridg.Base.Text.{Text, codes, text_eq}
use nodejs_wss_service_bridg.Protocol.{
  Bytes, Message, Frame, FrameError, JsonError, parse_frame, parse_json_payload, res_meta, res_data,
  res_end, res_abort, pause, resume,
}
use nodejs_wss_service_bridg.Server.{or_default}
use nodejs_wss_service_bridg.Server.ClientFrames.{json_limit}
use nodejs_wss_service_bridg.Http.{
  Value, Meta, no_meta, Json, null, object, empty, nothing, error, Effect, write_head, res_write,
  writer_paused, Net, Config, HttpStream, Exchange, emit, with_stream, send_frame, timed,
}
use nodejs_wss_service_bridg.Http as Effects
use nodejs_wss_service_bridg.Http.Headers.{sanitize_headers}
use nodejs_wss_service_bridg.Http.Streams.{
  no_store_headers, end_response, cleanup_stream, abort_stream,
}

-- `Number(meta.statusCode) || 200`
abbrev pub status_or_200 : Option ℕ → ℕ
status_or_200 none = 200
status_or_200 (some code) = if code == 0 then 200 else code

abbrev pub text_or_empty : Option Text → Text
text_or_empty none = []
text_or_empty (some s) = s

abbrev pub with_values : List (Text × Value) → List (Text × Option Value)
with_values [] = []
with_values ((key, value) ∷ headers) = (key, some value) ∷ with_values headers

-- `headers[name] = undefined`: a header of that name keeps its place, a new one comes last.
unfoldable pub set_undefined : Text → List (Text × Option Value) → List (Text × Option Value)
set_undefined name [] = (name, none) ∷ []
set_undefined name ((key, value) ∷ headers) =
    if text_eq key name then (key, none) ∷ headers else (key, value) ∷ set_undefined name headers

-- The headers of the response.
unfoldable pub response_headers : Bool → Meta → List (Text × Option Value)
unfolding sanitize_headers set_undefined
response_headers is_head meta =
    let headers = with_values (sanitize_headers true meta.headers) in
    if is_head
    then set_undefined (codes "transfer-encoding") (set_undefined (codes "content-length") headers)
    else headers

-- The case RES_META behind its guard, by the payload: a throw is caught around the `switch`.
unfoldable pub start_response : Net → Result JsonError Json → Exchange → Exchange
unfolding response_headers
start_response net (err e) x = abort_stream net "Bad frame from tunnel client" false x
start_response net (ok null) x = abort_stream net "Bad frame from tunnel client" false x
start_response net (ok (object meta)) x =
    let headers = response_headers x.stream.is_head meta in
    let status = status_or_200 meta.status_code in
    let reason = text_or_empty meta.status_message in
    if net.head_accepts status reason headers x.out
    then emit (write_head status reason headers)
        (with_stream x (record (x.stream) { response_started = true }))
    else abort_stream net "Invalid response headers from tunnel client" false x

-- The case RES_DATA behind its guards, by the answer of `write`.
unfoldable pub chunk_written : Net → Bytes → Option Bool → Exchange → Exchange
chunk_written net payload none x = abort_stream net "Failed to write HTTP response chunk" false x
chunk_written net payload (some taken) x =
    let wrote = emit (res_write payload) x in
    if not taken && not x.stream.response_paused
    then (let paused =
          send_frame net pause empty
            (with_stream wrote (record (x.stream) { response_paused = true })) in
        with_stream paused (record (paused.stream) { drain_listener = true }))
    else wrote

unfoldable pub handle_res_data : Net → Config → Bytes → Exchange → Exchange
handle_res_data net config payload x =
    if not x.stream.response_started
    then abort_stream net "RES_DATA before RES_META" false x
    else if x.stream.response_ended
    then x
    else if ltb config.max_dest_buffer_bytes (net.writable_length x.out)
    then abort_stream net "HTTP response buffer overflow" true x
    else chunk_written net payload (net.write_result payload x.out) x

unfoldable pub handle_res_end : Net → Exchange → Exchange
handle_res_end net x =
    if not x.stream.response_started
    then abort_stream net "RES_END without RES_META" false x
    else if x.stream.response_ended
    then x
    else end_response net nothing (with_stream x (record (x.stream) { response_ended = true }))

-- `info.message || 'Tunnel client aborted'`; reading it throws for `null`.
abbrev pub abort_message : Meta → String
abort_message meta = elim meta.message [
  | none ↦ "Tunnel client aborted"
  | some text ↦ or_default text "Tunnel client aborted"
]

-- `end` behind a `writeHead` that has not thrown.
unfoldable pub end_refused : Net → Json → Exchange → Exchange
end_refused net null x = x
end_refused net (object meta) x =
    if net.end_accepts x.out
    then emit (Effects.res_end (error "tunnel_client_error" (abort_message meta)))
        (with_stream x (record (x.stream) { response_ended = true }))
    else x

unfoldable pub handle_res_abort : Net → Json → Exchange → Exchange
handle_res_abort net info x = cleanup_stream net (
    if not x.stream.response_started
    then (if net.head_accepts 502 [] no_store_headers x.out
        then end_refused net info (emit (write_head 502 [] no_store_headers) x)
        else x)
    else if not x.stream.response_ended
    then end_response net nothing x
    else x)

-- `parseJsonPayload` with its exception caught.
abbrev pub read_info : Result JsonError Json → Json
read_info (err e) = object no_meta
read_info (ok info) = info

-- The `switch` at an HTTP stream; the frames of TCP streams do nothing.
unfoldable pub http_frame : Net → Config → (Bytes → Option Json) → ℕ → Bytes → Exchange → Exchange
http_frame net config parse type payload x =
    if type == res_meta
    then (if x.stream.response_started
        then abort_stream net "Duplicate RES_META" false x
        else start_response net (parse_json_payload parse json_limit payload) x)
    else if type == res_data
    then handle_res_data net config payload x
    else if type == res_end
    then handle_res_end net x
    else if type == res_abort
    then handle_res_abort net (read_info (parse_json_payload parse json_limit payload)) x
    else if type == pause
    then (if x.stream.request_writer then emit (writer_paused true) x else x)
    else if type == resume
    then (if x.stream.request_writer then emit (writer_paused false) x else x)
    else x

-- `handleClientFrame`, as far as it reaches this exchange: by the entry of the table for the frame's id.
unfoldable pub found_frame :
    Net → Config → (Bytes → Option Json) → ℕ → Frame → Option ℕ → Exchange → Exchange
unfolding http_frame
found_frame net config parse ws f none x = x
found_frame net config parse ws f (some ref) x =
    if ref == x.ref && x.stream.ws == ws
    then http_frame net config parse f.type f.payload (with_stream x (timed config x.stream))
    else x

unfoldable pub read_frame :
    Net → Config → (Bytes → Option Json) → ℕ → Result FrameError Frame → Exchange → Exchange
unfolding found_frame
read_frame net config parse ws (err e) x = x
read_frame net config parse ws (ok f) x =
    found_frame net config parse ws f (get f.stream_id x.streams) x

unfoldable pub handle_client_frame :
    Net → Config → (Bytes → Option Json) → ℕ → Message → Exchange → Exchange
unfolding read_frame
handle_client_frame net config parse ws m x = read_frame net config parse ws (parse_frame m) x

-- The listener of `drain` that `once` has set.
unfoldable pub on_response_drain : Net → Exchange → Exchange
unfolding send_frame
on_response_drain net x =
    let heard = with_stream x (record (x.stream) { drain_listener = false }) in
    if not x.stream.drain_listener
    then x
    else if x.stream.cleaned
    then heard
    else send_frame net resume empty
        (with_stream heard (record (heard.stream) { response_paused = false }))
