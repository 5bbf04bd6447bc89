-- ===== src/TunnelClient/Table/Requests.antt =====
-- REQ_META and the listeners of a local request keep the tunnel client's table.
use nodejs_wss_service_bridg.Base.{
  ℕ, ◌≡◌, refl, sym, ap, ◌∙◌, true, ◌&&◌, ◌||◌, not, Option, none, String, leb, length, has,
  ==_self, if_true, if_both, if_elim, Result, ok, err,
}
use nodejs_wss_service_bridg.Base.Map.{get, keys, get-eq-none}
use nodejs_wss_service_bridg.Protocol.{Bytes, JsonError, parse_json_payload}
use nodejs_wss_service_bridg.TunnelClient.{
  Body, Net, Config, Stream, Client, emit, change, send_frame,
}
use nodejs_wss_service_bridg.TunnelClient.Requests.{
  AskedJson, null, object, Target, awaits_body, http_stream, local_request, local_method,
  local_headers, add_request, start_request, read_request, handle_req_meta,
}
use nodejs_wss_service_bridg.TunnelClient.Responses.{
  LocalResponse, on_response, on_writer_finish, on_writer_error, on_pipeline_error,
  on_request_error, on_request_timeout,
}
use nodejs_wss_service_bridg.TunnelClient.Table.{
  IsClient, change-IsTable, emit-IsTable, add-IsTable,
}
use nodejs_wss_service_bridg.TunnelClient.Table.Handlers.{
  send_frame-IsTable, reset_idle_timer-IsTable, cleanup_stream-IsTable, send_res_abort-IsTable,
}

module _ (net : Net) (config : Config) (target : Target) where
  add_request-IsTable :
      (ws id : ℕ) (c : Client)
      → IsClient c
      → get id c.streams ≡ none
      → IsClient (add_request config ws id c)
  unfolding add_request
  add_request-IsTable ws id c h fresh =
      reset_idle_timer-IsTable config c.next_object _
        (add-IsTable id (http_stream id ws) c h fresh refl refl)

  start_request-IsTable :
      (ref : ℕ) (meta : AskedJson) (c : Client)
      → IsClient c
      → IsClient (start_request net target ref meta c)
  unfolding start_request
  start_request-IsTable ref null c h = send_res_abort-IsTable net ref _ c h
  start_request-IsTable ref (object meta) c h =
      let opened =
        change-IsTable ref (record (c.objects ref) { local_req = true })
          (emit (local_request target ref meta) c) (emit-IsTable _ c h) refl refl in
      if_both IsClient (not (target.opens (local_method meta) (local_headers target meta)))
        (send_res_abort-IsTable net ref _ c h)
        (if_both IsClient (awaits_body (local_method meta) meta.body_length) opened
          (emit-IsTable _ _ opened))

  read_request-IsTable :
      (ws id : ℕ) (r : Result JsonError AskedJson) (c : Client)
      → IsClient c
      → get id c.streams ≡ none
      → IsClient (read_request net config target ws id r c)
  unfolding read_request
  read_request-IsTable ws id (err e) c h fresh = send_frame-IsTable net ws _ id _ c h
  read_request-IsTable ws id (ok meta) c h fresh =
      start_request-IsTable c.next_object meta _ (add_request-IsTable ws id c h fresh)

  pub handle_req_meta-IsTable :
      (parse : Bytes → Option AskedJson) (ws id : ℕ) (payload : Bytes) (c : Client)
      → IsClient c
      → IsClient (handle_req_meta net config target parse ws id payload c)
  unfolding handle_req_meta
  handle_req_meta-IsTable parse ws id payload c h =
      if_both IsClient (leb config.max_concurrent_streams (length c.streams))
        (send_frame-IsTable net ws _ id _ c h)
        (if_elim IsClient (has id (keys c.streams)) (λ _. send_frame-IsTable net ws _ id _ c h)
          (λ new.
            read_request-IsTable ws id (parse_json_payload parse config.max_frame_payload payload) c
              h (get-eq-none id c.streams new)))

sent_object :
    (net : Net) (ref ws type id : ℕ) (body : Body) (c : Client)
    → (send_frame net ws type id body c).objects ref ≡ c.objects ref
unfolding send_frame
sent_object net ref ws type id body c =
    if_both (λ (d : Client). d.objects ref ≡ c.objects ref) (net.is_open ws && net.accepts ws) refl
      refl

module _ (net : Net) (ref : ℕ) (c : Client) (h : IsClient c) where
  pub on_response-IsTable : (res : LocalResponse) → IsClient (on_response net ref res c)
  unfolding on_response
  on_response-IsTable res =
      let s = c.objects ref in
      let answered : Stream = record s { local_res = true; response_started = true } in
      let marked = change ref answered c in
      let told = change-IsTable ref answered c h refl refl in
      let same = sent_object net ref s.ws _ s.id _ marked ∙ if_true {A = Stream} _ (==_self ref) in
      if_both IsClient s.cleaned h (
        change-IsTable ref (record answered { response_writer = true }) _
          (send_frame-IsTable net s.ws _ s.id _ marked told)
          (ap (λ (x : Stream). x.cleaned) (sym same)) (ap (λ (x : Stream). x.id) (sym same)))

  pub on_writer_finish-IsTable : IsClient (on_writer_finish net ref c)
  unfolding on_writer_finish
  on_writer_finish-IsTable =
      let s = c.objects ref in
      if_both IsClient (s.cleaned || s.response_ended) h (
        cleanup_stream-IsTable ref _ (
          send_frame-IsTable net s.ws _ s.id _ _
            (change-IsTable ref (record s { response_ended = true }) c h refl refl)))

  pub on_writer_error-IsTable : IsClient (on_writer_error net ref c)
  unfolding on_writer_error
  on_writer_error-IsTable = send_res_abort-IsTable net ref _ c h

  pub on_pipeline_error-IsTable : (text : String) → IsClient (on_pipeline_error net ref text c)
  unfolding on_pipeline_error
  on_pipeline_error-IsTable text =
      if_both IsClient (c.objects ref).cleaned h (send_res_abort-IsTable net ref _ c h)

  pub on_request_error-IsTable : (text : String) → IsClient (on_request_error net ref text c)
  unfolding on_request_error
  on_request_error-IsTable text =
      if_both IsClient (c.objects ref).cleaned h (send_res_abort-IsTable net ref _ c h)

  pub on_request_timeout-IsTable : IsClient (on_request_timeout ref c)
  unfolding on_request_timeout
  on_request_timeout-IsTable = if_both IsClient (c.objects ref).cleaned h (emit-IsTable _ c h)
