-- ===== src/Http/Events/Frames.antt =====
-- The frames of a tunnel client leave an HTTP exchange open or over.
use nodejs_wss_service_bridg.Base.{
  ℕ, ◌≡◌, inl, refl, sym, Bool, true, false, not, ◌&&◌, List, [], ◌∷◌, Option, none, some, arith,
  ltb, ◌==◌, if_both, if_elim, Result, ok, err,
}
use mathlib.Core.Bool.{false≢true}
use nodejs_wss_service_bridg.Base.Text.{Text}
use nodejs_wss_service_bridg.Protocol.{
  Bytes, Frame, FrameError, JsonError, Message, parse_frame, parse_json_payload, res_meta, res_data,
  res_abort, req_meta, req_end, req_abort, pause, resume,
}
use nodejs_wss_service_bridg.Protocol as Types
use nodejs_wss_service_bridg.Http.{
  Value, Json, null, object, Meta, nothing, write_head, res_write, Net, Config, Exchange, emit,
  with_stream, timed,
}
use nodejs_wss_service_bridg.Http.Headers.{sanitize_headers}
use nodejs_wss_service_bridg.Http.Streams.{no_store_headers, end_response}
use nodejs_wss_service_bridg.Http.Frames.{
  status_or_200, text_or_empty, with_values, set_undefined, response_headers, start_response,
  chunk_written, handle_res_data, handle_res_end, end_refused, handle_res_abort, http_frame,
  found_frame,
}
use nodejs_wss_service_bridg.Http.Events.{
  is_clean, Phase, fresh, headed, response, FitsResponse, IsOpen, IsOver,
}
use nodejs_wss_service_bridg.Http.Events.Steps.{
  Keeps, goes_on, is_over, IsEnding, open-IsEnding, no_store-is_clean, end_response-IsEnding,
  cleanup_stream-IsOver, abort_stream-IsOver, send_frame-IsOpen,
}

with_values-is_clean :
    (hs : List (Text × Option Value)) → is_clean (with_values (sanitize_headers true hs)) ≡ true
unfolding is_clean sanitize_headers
with_values-is_clean [] = refl
with_values-is_clean ((key, none) ∷ hs) = with_values-is_clean hs
with_values-is_clean ((key, some value) ∷ hs) = ground (arith, with_values-is_clean hs)

set_undefined-is_clean :
    (name : Text) (hs : List (Text × Option Value))
    → is_clean hs ≡ true
    → is_clean (set_undefined name hs) ≡ true
unfolding is_clean set_undefined
set_undefined-is_clean name [] h = refl
set_undefined-is_clean name ((key, none) ∷ hs) h = ground (arith, set_undefined-is_clean name hs)
set_undefined-is_clean name ((key, some value) ∷ hs) h =
    ground (arith, set_undefined-is_clean name hs)

response_headers-is_clean :
    (is_head : Bool) (meta : Meta) → is_clean (response_headers is_head meta) ≡ true
unfolding response_headers
response_headers-is_clean is_head meta =
    let kept = with_values-is_clean meta.headers in
    if_both (λ hs. is_clean hs ≡ true) is_head
      (set_undefined-is_clean _ _ (set_undefined-is_clean _ _ kept)) kept

unstarted : (s e : Bool) (p : Phase) → FitsResponse s e p → s ≡ false → p ≡ fresh
unstarted false e p f n = f
unstarted true e p f n = absurd (false≢true (sym n))

under_way : (s e : Bool) (p : Phase) → FitsResponse s e p → s ≡ true → e ≡ false → p ≡ headed
under_way true false p f n m = f
under_way true true p f n m = absurd (false≢true (sym m))
under_way false e p f n m = absurd (false≢true n)

-- The response has begun, and is not over yet.
fits_begun : (s e : Bool) (p : Phase) → s ≡ true → p ≡ headed → FitsResponse s e p
fits_begun true false p n h = h
fits_begun true true p n h = rw h refl
fits_begun false e p n h = absurd (false≢true n)

start_response-Keeps :
    (net : Net) (r : Result JsonError Json) (x : Exchange)
    → IsOpen x
    → x.stream.response_started ≡ false
    → Keeps (start_response net r x)
unfolding start_response
start_response-Keeps net (err e) x h n =
    is_over (abort_stream-IsOver net "Bad frame from tunnel client" false x h)
start_response-Keeps net (ok null) x h n =
    is_over (abort_stream-IsOver net "Bad frame from tunnel client" false x h)
start_response-Keeps net (ok (object meta)) x h n =
    let s = x.stream in
    let headers = response_headers s.is_head meta in
    let before = unstarted s.response_started s.response_ended (response x.out) h.responding n in
    let begun : response (
          write_head (status_or_200 meta.status_code) (text_or_empty meta.status_message) headers
          ∷ x.out)
        ≡ headed =
      rw (response_headers-is_clean s.is_head meta, before) refl in
    if_both Keeps
      (net.head_accepts (status_or_200 meta.status_code) (text_or_empty meta.status_message) headers
        x.out)
      (goes_on (record {
        live = h.live;
        entry = h.entry;
        sole = h.sole;
        distinct = h.distinct;
        unaborted = h.unaborted;
        responding = fits_begun true s.response_ended _ refl begun;
        requesting = h.requesting;
      }))
      (is_over (abort_stream-IsOver net "Invalid response headers from tunnel client" false x h))

chunk_written-Keeps :
    (net : Net) (payload : Bytes) (answer : Option Bool) (x : Exchange)
    → IsOpen x
    → x.stream.response_started ≡ true
    → x.stream.response_ended ≡ false
    → Keeps (chunk_written net payload answer x)
unfolding chunk_written
chunk_written-Keeps net payload none x h n m =
    is_over (abort_stream-IsOver net "Failed to write HTTP response chunk" false x h)
chunk_written-Keeps net payload (some taken) x h n m =
    let s = x.stream in
    let before = under_way s.response_started s.response_ended (response x.out) h.responding n m in
    let after : FitsResponse s.response_started s.response_ended
        (response (res_write payload ∷ x.out)) =
      fits_begun s.response_started s.response_ended _ n (rw before refl) in
    let wrote : Exchange = emit (res_write payload) x in
    let marked : Exchange = with_stream wrote (record s { response_paused = true }) in
    let paused : IsOpen marked = record {
      live = h.live;
      entry = h.entry;
      sole = h.sole;
      distinct = h.distinct;
      unaborted = h.unaborted;
      responding = after;
      requesting = h.requesting;
    } in
    let told = send_frame-IsOpen net pause marked (inl refl) paused in
    if_both Keeps (not taken && not s.response_paused) (goes_on told) (goes_on paused)

handle_res_data-Keeps :
    (net : Net) (config : Config) (payload : Bytes) (x : Exchange)
    → IsOpen x
    → Keeps (handle_res_data net config payload x)
unfolding handle_res_data
handle_res_data-Keeps net config payload x h =
    if_elim Keeps (not x.stream.response_started)
      (λ _. is_over (abort_stream-IsOver net "RES_DATA before RES_META" false x h))
      (λ n.
        if_elim Keeps x.stream.response_ended (λ _. goes_on h)
          (λ m.
            if_both Keeps (ltb config.max_dest_buffer_bytes (net.writable_length x.out))
              (is_over (abort_stream-IsOver net "HTTP response buffer overflow" true x h))
              (chunk_written-Keeps net payload _ x h (not_false x.stream.response_started n) m)))
  where
    not_false : (b : Bool) → not b ≡ false → b ≡ true
    not_false true e = refl
    not_false false e = absurd (false≢true (sym e))

handle_res_end-Keeps : (net : Net) (x : Exchange) → IsOpen x → Keeps (handle_res_end net x)
unfolding handle_res_end end_response
handle_res_end-Keeps net x h =
    let s = x.stream in
    let over : Exchange = with_stream x (record s { response_ended = true }) in
    if_elim Keeps (not s.response_started)
      (λ _. is_over (abort_stream-IsOver net "RES_END without RES_META" false x h))
      (λ n.
        if_elim Keeps s.response_ended (λ _. goes_on h)
          (λ m.
            let begun : s.response_started ≡ true = ground arith in
            let before =
              under_way s.response_started s.response_ended (response x.out) h.responding begun m in
            if_both Keeps (net.end_accepts x.out)
              (goes_on (record {
                live = h.live;
                entry = h.entry;
                sole = h.sole;
                distinct = h.distinct;
                unaborted = h.unaborted;
                responding = rw (begun, before) refl;
                requesting = h.requesting;
              }))
              (goes_on (record {
                live = h.live;
                entry = h.entry;
                sole = h.sole;
                distinct = h.distinct;
                unaborted = h.unaborted;
                responding = rw (begun, before) refl;
                requesting = h.requesting;
              }))))

end_refused-IsEnding :
    (net : Net) (info : Json) (x : Exchange)
    → IsEnding x
    → response x.out ≡ headed
    → IsEnding (end_refused net info x)
unfolding end_refused
end_refused-IsEnding net null x h e = h
end_refused-IsEnding net (object meta) x h e =
    if_both IsEnding (net.end_accepts x.out)
      (record {
        live = h.live;
        distinct = h.distinct;
        sole = h.sole;
        responded = rw e refl;
        requested = h.requested;
      })
      h

handle_res_abort-IsOver :
    (net : Net) (info : Json) (x : Exchange) → IsOpen x → IsOver (handle_res_abort net info x)
unfolding handle_res_abort
handle_res_abort-IsOver net info x h =
    let s = x.stream in
    let ending = open-IsEnding x h in
    let refused : Exchange = emit (write_head 502 [] no_store_headers) x in
    cleanup_stream-IsOver net _ (
      if_elim IsEnding (not s.response_started)
        (λ n.
          let before =
            unstarted s.response_started s.response_ended (response x.out) h.responding
              (ground arith) in
          let begun : response refused.out ≡ headed = rw (no_store-is_clean, before) refl in
          if_both IsEnding (net.head_accepts 502 [] no_store_headers x.out)
            (end_refused-IsEnding net info refused
              (record {
                live = ending.live;
                distinct = ending.distinct;
                sole = ending.sole;
                responded = rw begun refl;
                requested = ending.requested;
              })
              begun)
            ending)
        (λ n.
          if_elim IsEnding (not s.response_ended)
            (λ m. end_response-IsEnding net nothing x ending (
              under_way s.response_started s.response_ended (response x.out) h.responding
                (ground arith) (ground arith)))
            (λ _. ending)))

module _ (net : Net) (config : Config) (parse : Bytes → Option Json) where
  pub http_frame-Keeps :
      (type : ℕ) (payload : Bytes) (x : Exchange)
      → IsOpen x
      → Keeps (http_frame net config parse type payload x)
  unfolding http_frame
  http_frame-Keeps type payload x h =
      if_both Keeps (type == res_meta)
        (if_elim Keeps x.stream.response_started
          (λ _. is_over (abort_stream-IsOver net "Duplicate RES_META" false x h))
          (λ n. start_response-Keeps net _ x h n))
        (if_both Keeps (type == res_data) (handle_res_data-Keeps net config payload x h) (
          if_both Keeps (type == Types.res_end) (handle_res_end-Keeps net x h) (
            if_both Keeps (type == res_abort) (is_over (handle_res_abort-IsOver net _ x h)) (
              if_both Keeps (type == pause)
                (if_both Keeps x.stream.request_writer (goes_on h) (goes_on h))
                (if_both Keeps (type == resume)
                  (if_both Keeps x.stream.request_writer (goes_on h) (goes_on h)) (goes_on h))))))

  pub found_frame-Keeps :
      (ws : ℕ) (f : Frame) (o : Option ℕ) (x : Exchange)
      → IsOpen x
      → Keeps (found_frame net config parse ws f o x)
  unfolding found_frame
  found_frame-Keeps ws f none x h = goes_on h
  found_frame-Keeps ws f (some ref) x h =
      if_both Keeps (ref == x.ref && x.stream.ws == ws)
        (http_frame-Keeps f.type f.payload (with_stream x (timed config x.stream)) h) (goes_on h)
