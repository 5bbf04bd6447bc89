-- ===== src/Http/Events/Laws.antt =====
-- An HTTP exchange through any events: what was sent and called is in order, and it ends once.
use nodejs_wss_service_bridg.Base.{
  ℕ, ◌≡◌, ◌≢◌, inl, inr, refl, sym, ap, ◌∙◌, Bool, true, false, not, ◌&&◌, ◌||◌, List, [], ◌∷◌,
  Option, none, some, String, arith, ◌==◌, if_both, if_elim, if_true, if_false, Distinct, Result,
  ok, err,
}
use mathlib.Core.Bool.{false≢true}
use mathlib.Core.Path.{subst}
use nodejs_wss_service_bridg.Base.Map.{get, keys, get-put, put-Distinct}
use nodejs_wss_service_bridg.Protocol.{
  Bytes, Frame, FrameError, parse_frame, req_meta, req_end, resume,
}
use nodejs_wss_service_bridg.Http.{
  Json, RequestMeta, empty, Net, Config, Exchange, emit, with_stream, send, request_meta,
  send_frame,
}
use nodejs_wss_service_bridg.Http.Streams.{
  abort_stream, cleanup_stream, new_exchange, create_stream, on_writer_finish, on_writer_error,
  on_pipeline_error, on_request_error, on_response_close, on_response_finish,
}
use nodejs_wss_service_bridg.Http.Frames.{
  found_frame, read_frame, handle_client_frame, on_response_drain,
}
use nodejs_wss_service_bridg.Http.Events.{
  Event, frame, writer_finished, writer_failed, pipeline_failed, request_failed, response_closed,
  response_finished, response_drained, idle, disconnected, step, run, response, request, is_broken,
  is_wrong, sent, asked, Asked, FitsRequest, IsOpen, IsOver,
}
use nodejs_wss_service_bridg.Http.Events.Steps.{
  Keeps, goes_on, is_over, open-IsEnding, fits_asking, send_frame-sends, cleanup_stream-IsOver,
  abort_stream-IsOver, send_frame-IsOpen,
}
use nodejs_wss_service_bridg.Http.Events.Frames.{found_frame-Keeps}

-- The exchange behind REQ_META.
abbrev asked_exchange : Net → Config → ℕ → ℕ → ℕ → RequestMeta → Bool → List (ℕ × ℕ) → Exchange
asked_exchange net config ref id ws meta is_head streams =
    let x = new_exchange config ref id ws is_head streams in
    emit (send ws req_meta id (request_meta meta))
      (with_stream x (record (x.stream) { request_writer = true }))

module _ (net : Net) (config : Config) (parse : Bytes → Option Json) where
  read_frame-Keeps :
      (ws : ℕ) (r : Result FrameError Frame) (x : Exchange)
      → IsOpen x
      → Keeps (read_frame net config parse ws r x)
  unfolding read_frame
  read_frame-Keeps ws (err e) x h = goes_on h
  read_frame-Keeps ws (ok f) x h = found_frame-Keeps net config parse ws f _ x h

  finished_asking : (e : Bool) (p : Asked) → FitsRequest e p → e ≡ false → sent req_end p ≡ asked
  finished_asking false p f n = rw f refl
  finished_asking true p f n = absurd (false≢true (sym n))

  on_writer_finish-Keeps : (x : Exchange) → IsOpen x → Keeps (on_writer_finish net config x)
  unfolding on_writer_finish
  on_writer_finish-Keeps x h =
      let s = x.stream in
      let marked : Exchange = with_stream x (record s { request_ended = true }) in
      let unsent : IsOpen marked = record {
        live = h.live;
        entry = h.entry;
        sole = h.sole;
        distinct = h.distinct;
        unaborted = h.unaborted;
        responding = h.responding;
        requesting = fits_asking s.request_ended (request x.out) h.requesting;
      } in
      if_elim Keeps (s.cleaned || s.request_ended) (λ _. goes_on h)
        (λ n.
          let asking_on : s.request_ended ≡ false = ground arith in
          let done = finished_asking s.request_ended (request x.out) h.requesting asking_on in
          let told : IsOpen (emit (send s.ws req_end s.id empty) marked) = record {
            live = h.live;
            entry = h.entry;
            sole = h.sole;
            distinct = h.distinct;
            unaborted = h.unaborted;
            responding = h.responding;
            requesting = rw done refl;
          } in
          goes_on (elim (send_frame-sends net req_end empty marked) [
            | inl e ↦ rw e told
            | inr e ↦ rw e unsent
          ]))

  on_response_finish-IsOver : (x : Exchange) → IsOpen x → IsOver (on_response_finish net x)
  unfolding on_response_finish
  on_response_finish-IsOver x h =
      cleanup_stream-IsOver net (with_stream x (record (x.stream) { response_ended = true }))
        (open-IsEnding x h)

  on_response_drain-Keeps : (x : Exchange) → IsOpen x → Keeps (on_response_drain net x)
  unfolding on_response_drain
  on_response_drain-Keeps x h =
      let heard : Exchange = with_stream x (record (x.stream) { drain_listener = false }) in
      if_both Keeps (not x.stream.drain_listener) (goes_on h) (
        if_both Keeps x.stream.cleaned (goes_on h) (
          goes_on (
            send_frame-IsOpen net resume
              (with_stream heard (record (heard.stream) { response_paused = false })) (inr refl)
              h)))

  open_step-Keeps : (e : Event) (x : Exchange) → IsOpen x → Keeps (step net config parse e x)
  unfolding step handle_client_frame on_writer_error on_pipeline_error on_request_error
      on_response_close
  open_step-Keeps (frame ws m) x h = read_frame-Keeps ws (parse_frame m) x h
  open_step-Keeps writer_finished x h = on_writer_finish-Keeps x h
  open_step-Keeps writer_failed x h =
      is_over (abort_stream-IsOver net "Request writer error" false x h)
  open_step-Keeps pipeline_failed x h =
      if_both Keeps x.stream.cleaned (goes_on h)
        (is_over (abort_stream-IsOver net "Request stream error" true x h))
  open_step-Keeps request_failed x h =
      is_over (abort_stream-IsOver net "Incoming request error" true x h)
  open_step-Keeps response_closed x h =
      if_both Keeps (not x.stream.cleaned && not x.stream.response_ended)
        (is_over (abort_stream-IsOver net "End user closed connection early" true x h)) (goes_on h)
  open_step-Keeps response_finished x h = is_over (on_response_finish-IsOver x h)
  open_step-Keeps response_drained x h = on_response_drain-Keeps x h
  open_step-Keeps idle x h = is_over (abort_stream-IsOver net "Stream idle timeout" true x h)
  open_step-Keeps disconnected x h =
      is_over (abort_stream-IsOver net "Tunnel WebSocket disconnected" false x h)

  -- A frame does not reach an exchange that is over.
  found_over :
      (ws : ℕ) (f : Frame) (o : Option ℕ) (x : Exchange)
      → o ≢ some x.ref
      → found_frame net config parse ws f o x ≡ x
  unfolding found_frame
  found_over ws f none x n = refl
  found_over ws f (some ref) x n =
      if_elim (λ y. y ≡ x) (ref == x.ref && x.stream.ws == ws)
        (λ same. absurd (n (ap some (ground arith)))) (λ _. refl)

  read_over :
      (ws : ℕ) (r : Result FrameError Frame) (x : Exchange)
      → IsOver x
      → read_frame net config parse ws r x ≡ x
  unfolding read_frame
  read_over ws (err e) x h = refl
  read_over ws (ok f) x h = found_over ws f (get f.stream_id x.streams) x (h.gone f.stream_id)

  -- Only marks of the state object may change.
  record Silent (x y : Exchange) : Type 0 where
    over : IsOver y
    same : y.out ≡ x.out

  unchanged : (x y : Exchange) → IsOver x → y ≡ x → Silent x y
  unchanged x y h e = rw e (record { over = h; same = refl })

  abort_over :
      (reason : String) (notify : Bool) (x : Exchange)
      → IsOver x
      → abort_stream net reason notify x ≡ x
  unfolding abort_stream
  abort_over reason notify x h = if_true {A = Exchange} _ h.cleaned

  writer_over : (x : Exchange) → IsOver x → on_writer_finish net config x ≡ x
  unfolding on_writer_finish
  writer_over x h =
      if_true {A = Exchange} {b = x.stream.cleaned || x.stream.request_ended} _ (rw h.cleaned refl)

  close_over : (x : Exchange) → IsOver x → on_response_close net x ≡ x
  unfolding on_response_close
  close_over x h =
      if_false {A = Exchange} {b = not x.stream.cleaned && not x.stream.response_ended} _
        (rw h.cleaned refl)

  pipeline_over : (x : Exchange) → IsOver x → on_pipeline_error net x ≡ x
  unfolding on_pipeline_error
  pipeline_over x h = if_true {A = Exchange} _ h.cleaned

  marked_over :
      (x y : Exchange)
      → IsOver x
      → y.stream.cleaned ≡ x.stream.cleaned
      → y.streams ≡ x.streams
      → y.ref ≡ x.ref
      → y.stream.timer ≡ x.stream.timer
      → y.out ≡ x.out
      → Silent x y
  marked_over x y h c s r t o = record {
    over = record {
      cleaned = c ∙ h.cleaned;
      gone = rw (s, r) h.gone;
      untimed = t ∙ h.untimed;
      responded = rw o h.responded;
      requested = rw o h.requested;
    };
    same = o;
  }

  finish_over : (x : Exchange) → IsOver x → Silent x (on_response_finish net x)
  unfolding on_response_finish cleanup_stream
  finish_over x h =
      rw (if_true {A = Exchange} _ h.cleaned) (marked_over x _ h refl refl refl refl refl)

  drain_over : (x : Exchange) → IsOver x → Silent x (on_response_drain net x)
  unfolding on_response_drain
  drain_over x h =
      if_both (Silent x) (not x.stream.drain_listener) (unchanged x x h refl)
        (rw (if_true {A = Exchange} _ h.cleaned) (marked_over x _ h refl refl refl refl refl))

  step_over : (e : Event) (x : Exchange) → IsOver x → Silent x (step net config parse e x)
  unfolding step handle_client_frame on_writer_error on_request_error
  step_over (frame ws m) x h = unchanged x _ h (read_over ws (parse_frame m) x h)
  step_over writer_finished x h = unchanged x _ h (writer_over x h)
  step_over writer_failed x h = unchanged x _ h (abort_over "Request writer error" false x h)
  step_over pipeline_failed x h = unchanged x _ h (pipeline_over x h)
  step_over request_failed x h = unchanged x _ h (abort_over "Incoming request error" true x h)
  step_over response_closed x h = unchanged x _ h (close_over x h)
  step_over response_finished x h = finish_over x h
  step_over response_drained x h = drain_over x h
  step_over idle x h = unchanged x _ h (abort_over "Stream idle timeout" true x h)
  step_over disconnected x h =
      unchanged x _ h (abort_over "Tunnel WebSocket disconnected" false x h)

  step-Keeps : (e : Event) (x : Exchange) → Keeps x → Keeps (step net config parse e x)
  step-Keeps e x (goes_on h) = open_step-Keeps e x h
  step-Keeps e x (is_over h) = is_over (step_over e x h).over

  run-Keeps : (events : List Event) (x : Exchange) → Keeps x → Keeps (run net config parse events x)
  unfolding run
  run-Keeps [] x k = k
  run-Keeps (e ∷ events) x k = run-Keeps events (step net config parse e x) (step-Keeps e x k)

  -- An HTTP exchange that is over stays over, and is silent: no event that follows sends a frame, or
  -- calls the request, the response or the writer.
  pub IsOver-run-silent :
      (events : List Event) (x : Exchange)
      → IsOver x
      → IsOver (run net config parse events x) × ((run net config parse events x).out ≡ x.out)
  unfolding run
  IsOver-run-silent [] x h = (h, refl)
  IsOver-run-silent (e ∷ events) x h =
      let one = step_over e x h in
      let (over, same) = IsOver-run-silent events (step net config parse e x) one.over in
      (over, same ∙ one.same)

  Keeps-ordered :
      (x : Exchange)
      → Keeps x
      → (is_broken (response x.out) ≡ false) × (is_wrong (request x.out) ≡ false)
  Keeps-ordered x (goes_on h) =
      let ending = open-IsEnding x h in (ending.responded, ending.requested)
  Keeps-ordered x (is_over h) = (h.responded, h.requested)

  module _ (ref id ws : ℕ) (meta : RequestMeta) (is_head : Bool) (streams : List (ℕ × ℕ)) where
    begun-IsOpen :
        Distinct (keys streams)
        → ((j : ℕ) → get j streams ≢ some ref)
        → IsOpen (asked_exchange net config ref id ws meta is_head streams)
    begun-IsOpen d fresh = record {
      live = refl;
      entry = ground (arith, get-put id id ref streams);
      sole = λ j g. ground (arith, get-put j id ref streams, fresh j);
      distinct = put-Distinct id ref streams d;
      unaborted = refl;
      responding = refl;
      requesting = refl;
    }

    created_is :
        (x : Exchange)
        → create_stream net config ref id ws meta is_head streams ≡ (x, true)
        → asked_exchange net config ref id ws meta is_head streams ≡ x
    unfolding create_stream send_frame
    created_is x e = ground arith

    -- Whatever events follow the start of an HTTP exchange, it is either open, in the table under its
    -- id and under no other, or over, cleaned, out of the table and without a timer. The calls of the
    -- response are in order: the head comes first and once, without a header of one hop or `host`
    -- that has a value, then chunks, then the end, once. So are the frames of the request: REQ_META,
    -- REQ_END at most once, REQ_ABORT at most once, and nothing behind it. The ids in the table must
    -- be distinct before the start, and the state object not in it.
    pub exchange-Keeps :
        (x : Exchange) (events : List Event)
        → Distinct (keys streams)
        → ((j : ℕ) → get j streams ≢ some ref)
        → create_stream net config ref id ws meta is_head streams ≡ (x, true)
        → Keeps (run net config parse events x)
          × (is_broken (response (run net config parse events x).out) ≡ false)
          × (is_wrong (request (run net config parse events x).out) ≡ false)
    exchange-Keeps x events d fresh e =
        let k =
          run-Keeps events x (goes_on (subst IsOpen (created_is x e) (begun-IsOpen d fresh))) in
        let (p, q) = Keeps-ordered (run net config parse events x) k in (k, p, q)
