-- ===== src/Http/Faults.antt =====
-- A HEAD request over the tunnel: `handleClientFrame` of src/server/StreamManager.js sets two headers
-- to `undefined`.
use nodejs_wss_service_bridg.Base.{
  ℕ, ◌≡◌, refl, ap, ◌∙◌, Bool, true, false, not, List, [], ◌∷◌, Option, none, some, String, arith,
  if_true, if_false, ok,
}
use nodejs_wss_service_bridg.Base.Text.{Text}
use nodejs_wss_service_bridg.Protocol.{Bytes, parse_json_payload, res_meta}
use nodejs_wss_service_bridg.Server.ClientFrames.{json_limit}
use nodejs_wss_service_bridg.Http.{
  Value, Json, object, Meta, error, Effect, write_head, res_end, Net, Config, Exchange, emit,
}
use nodejs_wss_service_bridg.Http.Streams.{
  no_store_headers, end_response, cleanup_stream, notify_client, refuse, answer_user, abort_stream,
}
use nodejs_wss_service_bridg.Http.Frames.{
  set_undefined, response_headers, start_response, status_or_200, text_or_empty, http_frame,
}

-- Some header has the value `undefined`.
abbrev pub has_undefined : List (Text × Option Value) → Bool
has_undefined [] = false
has_undefined ((key, none) ∷ headers) = true
has_undefined ((key, some value) ∷ headers) = has_undefined headers

set_undefined-has :
    (name : Text) (headers : List (Text × Option Value))
    → has_undefined (set_undefined name headers) ≡ true
unfolding set_undefined
set_undefined-has name [] = refl
set_undefined-has name ((key, none) ∷ headers) = ground arith
set_undefined-has name ((key, some value) ∷ headers) =
    ground (arith, set_undefined-has name headers)

head_headers-undefined : (meta : Meta) → has_undefined (response_headers true meta) ≡ true
unfolding response_headers
head_headers-undefined meta = set_undefined-has _ _

module _ (net : Net) (config : Config) (parse : Bytes → Option Json) (x : Exchange) (meta : Meta)
    (payload : Bytes) where
  -- An abort without a word to the client, of an exchange whose response has not started.
  abort_unstarted :
      (reason : String)
      → x.stream.cleaned ≡ false
      → x.stream.response_started ≡ false
      → abort_stream net reason false x ≡ cleanup_stream net (refuse net reason x)
  unfolding abort_stream answer_user notify_client
  abort_unstarted reason live unstarted =
      if_false {A = Exchange} x live
      ∙ ap (cleanup_stream net)
          (if_true {A = Exchange} {b = not x.stream.response_started} _ (rw unstarted refl))

  refuse_taken :
      net.head_accepts 502 [] no_store_headers x.out ≡ true
      → net.end_accepts (write_head 502 [] no_store_headers ∷ x.out) ≡ true
      → refuse net "Invalid response headers from tunnel client" x
        ≡ emit
            (res_end (error "tunnel_error" "Invalid response headers from tunnel client"))
            (emit (write_head 502 [] no_store_headers) x)
  unfolding refuse end_response
  refuse_taken headed ended = if_true {A = Exchange} x headed ∙ if_true {A = Exchange} _ ended

  -- A HEAD request is never answered by the service: where `writeHead` throws at a header with the
  -- value `undefined`, RES_META on a live exchange whose request is HEAD and whose response has not
  -- started ends the exchange, and the user gets the status 502 and an error for an answer, if these
  -- are taken.
  pub head_request_refused :
      ((status : ℕ) (reason : Text) (headers : List (Text × Option Value)) (out : List Effect)
        → has_undefined headers ≡ true
        → net.head_accepts status reason headers out ≡ false)
      → x.stream.cleaned ≡ false
      → x.stream.is_head ≡ true
      → x.stream.response_started ≡ false
      → parse_json_payload parse json_limit payload ≡ ok (object meta)
      → net.head_accepts 502 [] no_store_headers x.out ≡ true
      → net.end_accepts (write_head 502 [] no_store_headers ∷ x.out) ≡ true
      → http_frame net config parse res_meta payload x
        ≡ cleanup_stream net (
            emit
              (res_end (error "tunnel_error" "Invalid response headers from tunnel client"))
              (emit (write_head 502 [] no_store_headers) x))
  unfolding http_frame start_response
  head_request_refused throws live is_head unstarted read headed ended =
      let headers = response_headers x.stream.is_head meta in
      let undefined : has_undefined headers ≡ true = rw is_head (head_headers-undefined meta) in
      let thrown =
        throws (status_or_200 meta.status_code) (text_or_empty meta.status_message) headers x.out
          undefined in
      if_false {A = Exchange} (abort_stream net "Duplicate RES_META" false x) unstarted
      ∙ ap (λ r. start_response net r x) read
      ∙ if_false {A = Exchange} _ thrown
      ∙ abort_unstarted "Invalid response headers from tunnel client" live unstarted
      ∙ ap (cleanup_stream net) (refuse_taken headed ended)
