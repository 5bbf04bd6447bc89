-- ===== src/TunnelClient/Responses.antt =====
-- serve/client.js: the listeners that `handleReqMeta` sets on the local request, its response, and the
-- response's writer.
use nodejs_wss_service_bridg.Base.{ℕ, true, ◌||◌, List, String, if◌then◌else◌, map}
use nodejs_wss_service_bridg.Base.Text.{Text}
use nodejs_wss_service_bridg.Protocol.{res_meta, res_end}
use nodejs_wss_service_bridg.Http.{Value}
use nodejs_wss_service_bridg.Http.Headers.{sanitize_headers}
use nodejs_wss_service_bridg.Http.Forward.{present}
use nodejs_wss_service_bridg.TunnelClient.{
  response_writer_error, response_pipeline_error, local_request_error, empty, response_meta,
  request_destroy, Net, Client, change, emit, send_frame,
}
use nodejs_wss_service_bridg.TunnelClient.Frames.{cleanup_stream, send_res_abort}

-- What is read of a response of the local service.
pub record LocalResponse : Type 0 where
  pub status_code : ℕ
  pub status_message : Text
  pub headers : List (Text × Value)

-- The callback of `request`: RES_META, and then the writer.
unfoldable pub on_response : Net → ℕ → LocalResponse → Client → Client
unfolding send_frame sanitize_headers
on_response net ref res c =
    let s = c.objects ref in
    let answered = record s { local_res = true; response_started = true } in
    let body =
      response_meta res.status_code res.status_message
        (sanitize_headers true (map present res.headers)) in
    if s.cleaned
    then c
    else change ref (record answered { response_writer = true })
        (send_frame net s.ws res_meta s.id body (change ref answered c))

-- The listeners of `finish` and `error` of the writer.
unfoldable pub on_writer_finish : Net → ℕ → Client → Client
unfolding send_frame cleanup_stream
on_writer_finish net ref c =
    let s = c.objects ref in
    if s.cleaned || s.response_ended
    then c
    else cleanup_stream ref
        (send_frame net s.ws res_end s.id empty (change ref (record s { response_ended = true }) c))

unfoldable pub on_writer_error : Net → ℕ → Client → Client
unfolding send_res_abort
on_writer_error net ref c = send_res_abort net ref response_writer_error c

-- The callback of `pipeline` with an error.
unfoldable pub on_pipeline_error : Net → ℕ → String → Client → Client
unfolding send_res_abort
on_pipeline_error net ref text c =
    if (c.objects ref).cleaned then c else send_res_abort net ref (response_pipeline_error text) c

-- The listeners of `error` and `timeout` of the local request.
unfoldable pub on_request_error : Net → ℕ → String → Client → Client
unfolding send_res_abort
on_request_error net ref text c =
    if (c.objects ref).cleaned then c else send_res_abort net ref (local_request_error text) c

unfoldable pub on_request_timeout : ℕ → Client → Client
on_request_timeout ref c = if (c.objects ref).cleaned then c else emit (request_destroy ref) c
