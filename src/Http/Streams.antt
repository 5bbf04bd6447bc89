-- ===== src/Http/Streams.antt =====
-- src/server/StreamManager.js: an HTTP stream from its start to its end (createStream, abortStream,
-- cleanupStream, and the listeners of its writer), and the listeners that `_proxyHttpRequest` of
-- src/server/HttpRouter.js sets on the request and the response.
use nodejs_wss_service_bridg.Base.{
  ℕ, Bool, true, false, ◌&&◌, ◌||◌, not, List, [], ◌∷◌, Option, some, String, if◌then◌else◌,
}
use nodejs_wss_service_bridg.Base.Map.{put, delete}
use nodejs_wss_service_bridg.Base.Text.{Text, codes}
use nodejs_wss_service_bridg.Protocol.{req_meta, req_end, req_abort}
use nodejs_wss_service_bridg.Server.{or_default}
use nodejs_wss_service_bridg.Http.{
  Value, one, RequestMeta, empty, message, request_meta, Reply, nothing, error, write_head, res_end,
  res_destroy, req_destroy, writer_destroy, Net, Config, HttpStream, Exchange, emit, with_stream,
  can_send, send_frame, timed,
}

abbrev pub json_headers : List (Text × Option Value)
json_headers = (codes "Content-Type", some (one (codes "application/json; charset=utf-8"))) ∷ []

abbrev pub no_store_headers : List (Text × Option Value)
no_store_headers =
    (codes "Content-Type", some (one (codes "application/json; charset=utf-8")))
    ∷ (codes "Cache-Control", some (one (codes "no-store")))
    ∷ []

-- `res.end(...)` in a `try`.
unfoldable pub end_response : Net → Reply → Exchange → Exchange
end_response net reply x = if net.end_accepts x.out then emit (res_end reply) x else x

-- `cleanupStream` behind its guard.
unfoldable pub clean : Net → Exchange → Exchange
clean net x =
    let marked : Exchange = record x {
      streams = delete x.stream.id x.streams;
      stream = record (x.stream) { cleaned = true; timer = false };
    } in
    let unwritten = if x.stream.request_writer then emit writer_destroy marked else marked in
    let unread = emit req_destroy unwritten in
    if not (net.writable_ended unread.out) then emit res_destroy unread else unread

unfoldable pub cleanup_stream : Net → Exchange → Exchange
unfolding clean
cleanup_stream net x = if x.stream.cleaned then x else clean net x

-- The parts of `abortStream`: the word to the client, and the answer to the user.
unfoldable pub notify_client : Net → Bool → String → Exchange → Exchange
unfolding send_frame
notify_client net notify reason x =
    if notify && net.is_open x.stream.ws x.out && not x.stream.abort_sent
    then send_frame net req_abort (message (or_default reason "Stream aborted"))
        (with_stream x (record (x.stream) { abort_sent = true }))
    else x

unfoldable pub refuse : Net → String → Exchange → Exchange
unfolding end_response
refuse net reason x =
    if net.head_accepts 502 [] no_store_headers x.out
    then end_response net (error "tunnel_error" (or_default reason "Tunnel error"))
        (emit (write_head 502 [] no_store_headers) x)
    else x

unfoldable pub answer_user : Net → String → Exchange → Exchange
unfolding refuse end_response
answer_user net reason x =
    if not x.stream.response_started
    then refuse net reason x
    else if not x.stream.response_ended
    then emit res_destroy (end_response net nothing x)
    else x

-- `abortStream`
unfoldable pub abort_stream : Net → String → Bool → Exchange → Exchange
unfolding notify_client answer_user cleanup_stream
abort_stream net reason notify x =
    if x.stream.cleaned
    then x
    else cleanup_stream net (answer_user net reason (notify_client net notify reason x))

abbrev pub new_stream : ℕ → ℕ → Bool → HttpStream
new_stream id ws is_head = record {
  id = id;
  ws = ws;
  is_head = is_head;
  cleaned = false;
  abort_sent = false;
  response_started = false;
  response_ended = false;
  request_ended = false;
  response_paused = false;
  request_writer = false;
  timer = false;
  drain_listener = false;
}

-- The state object in the table, its timer set.
abbrev pub new_exchange : Config → ℕ → ℕ → ℕ → Bool → List (ℕ × ℕ) → Exchange
new_exchange config ref id ws is_head streams = record {
  ref = ref;
  streams = put id ref streams;
  stream = timed config (new_stream id ws is_head);
  out = [];
}

-- `createStream`: the exchange, and whether a state object is returned.
unfoldable pub create_stream :
    Net → Config → ℕ → ℕ → ℕ → RequestMeta → Bool → List (ℕ × ℕ) → Exchange × Bool
unfolding send_frame
create_stream net config ref id ws meta is_head streams =
    let x = new_exchange config ref id ws is_head streams in
    let asked = send_frame net req_meta (request_meta meta) x in
    if can_send net x
    then (with_stream asked (record (asked.stream) { request_writer = true }), true)
    else (
      emit (res_end (error "tunnel_unavailable" "Cannot send request metadata to tunnel client"))
          (emit (write_head 503 [] json_headers) (record x { streams = delete id x.streams })),
      false,
    )

-- The listeners of `finish` and `error` of the writer.
unfoldable pub on_writer_finish : Net → Config → Exchange → Exchange
unfolding send_frame
on_writer_finish net config x =
    let sent =
      send_frame net req_end empty (with_stream x (record (x.stream) { request_ended = true })) in
    if x.stream.cleaned || x.stream.request_ended
    then x
    else with_stream sent (timed config sent.stream)

unfoldable pub on_writer_error : Net → Exchange → Exchange
unfolding abort_stream
on_writer_error net x = abort_stream net "Request writer error" false x

-- The callback of `pipeline` with an error, and the listeners of the request and the response.
unfoldable pub on_pipeline_error : Net → Exchange → Exchange
unfolding abort_stream
on_pipeline_error net x =
    if x.stream.cleaned then x else abort_stream net "Request stream error" true x

unfoldable pub on_request_error : Net → Exchange → Exchange
unfolding abort_stream
on_request_error net x = abort_stream net "Incoming request error" true x

unfoldable pub on_response_close : Net → Exchange → Exchange
unfolding abort_stream
on_response_close net x =
    if not x.stream.cleaned && not x.stream.response_ended
    then abort_stream net "End user closed connection early" true x
    else x

unfoldable pub on_response_finish : Net → Exchange → Exchange
unfolding cleanup_stream
on_response_finish net x =
    cleanup_stream net (with_stream x (record (x.stream) { response_ended = true }))
