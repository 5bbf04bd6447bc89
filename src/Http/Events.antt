-- ===== src/Http/Events.antt =====
-- The events of an HTTP exchange, and the phases of its request and its response.
pub mod Steps
pub mod Frames
pub mod Laws
use nodejs_wss_service_bridg.Base.{
  ℕ, ◌≡◌, ◌≢◌, Bool, true, false, not, ◌&&◌, List, [], ◌∷◌, Option, none, some, ◌==◌, if◌then◌else◌,
  Distinct,
}
use nodejs_wss_service_bridg.Base.Map.{get, keys}
use nodejs_wss_service_bridg.Base.Text.{Text}
use nodejs_wss_service_bridg.Protocol.{Bytes, Message, req_meta, req_end, req_abort}
use nodejs_wss_service_bridg.Http.{
  Value, Json, Effect, send, write_head, res_write, res_end, res_destroy, req_destroy,
  writer_destroy, writer_paused, Net, Config, Exchange,
}
use nodejs_wss_service_bridg.Http.Headers.{is_dropped}
use nodejs_wss_service_bridg.Http.Streams.{
  abort_stream, on_writer_finish, on_writer_error, on_pipeline_error, on_request_error,
  on_response_close, on_response_finish,
}
use nodejs_wss_service_bridg.Http.Frames.{handle_client_frame, on_response_drain}

-- `frame ws m` is a message of a tunnel client; `idle` is the idle timer that runs out, and
-- `disconnected` the end of the tunnel client's WebSocket (`cleanupStreamsForWs`).
pub data Event : Type 0 where
  frame : ℕ → Message → Event
  writer_finished writer_failed pipeline_failed request_failed : Event
  response_closed response_finished response_drained idle disconnected : Event

module _ (net : Net) (config : Config) (parse : Bytes → Option Json) where
  unfoldable pub step : Event → Exchange → Exchange
  unfolding handle_client_frame
  step (frame ws m) x = handle_client_frame net config parse ws m x
  step writer_finished x = on_writer_finish net config x
  step writer_failed x = on_writer_error net x
  step pipeline_failed x = on_pipeline_error net x
  step request_failed x = on_request_error net x
  step response_closed x = on_response_close net x
  step response_finished x = on_response_finish net x
  step response_drained x = on_response_drain net x
  step idle x = abort_stream net "Stream idle timeout" true x
  step disconnected x = abort_stream net "Tunnel WebSocket disconnected" false x

  unfoldable pub run : List Event → Exchange → Exchange
  unfolding step
  run [] x = x
  run (e ∷ events) x = run events (step e x)

-- No header with a value is one that the bridge removes.
unfoldable pub is_clean : List (Text × Option Value) → Bool
unfolding is_dropped
is_clean [] = true
is_clean ((key, none) ∷ headers) = is_clean headers
is_clean ((key, some value) ∷ headers) = not (is_dropped true key) && is_clean headers

-- How far the response is, by the calls on it: the head comes first and once, then chunks, then the
-- end, once.
pub data Phase : Type 0 where
  fresh headed ended broken : Phase

abbrev after_head : Bool → Phase → Phase
after_head true fresh = headed
after_head _ _ = broken

abbrev after_write : Phase → Phase
after_write headed = headed
after_write _ = broken

abbrev after_end : Phase → Phase
after_end headed = ended
after_end _ = broken

abbrev pub respond : Effect → Phase → Phase
respond (send ws type id body) p = p
respond (write_head status reason headers) p = after_head (is_clean headers) p
respond (res_write chunk) p = after_write p
respond (res_end reply) p = after_end p
respond res_destroy p = p
respond req_destroy p = p
respond writer_destroy p = p
respond (writer_paused b) p = p

abbrev pub response : List Effect → Phase
response [] = fresh
response (e ∷ out) = respond e (response out)

abbrev pub is_broken : Phase → Bool
is_broken broken = true
is_broken _ = false

-- How far the request is, by the frames sent: REQ_META comes first, then REQ_END at most once, then
-- REQ_ABORT at most once, and nothing behind it.
pub data Asked : Type 0 where
  unasked asking asked withdrawn wrong : Asked

abbrev pub is_asking : Asked → Bool
is_asking asking = true
is_asking asked = true
is_asking _ = false

abbrev pub is_wrong : Asked → Bool
is_wrong wrong = true
is_wrong _ = false

abbrev begin : Asked → Asked
begin unasked = asking
begin _ = wrong

abbrev finish : Asked → Asked
finish asking = asked
finish _ = wrong

abbrev withdraw : Asked → Asked
withdraw p = if is_asking p then withdrawn else wrong

abbrev go_on : Asked → Asked
go_on p = if is_asking p then p else wrong

abbrev pub sent : ℕ → Asked → Asked
sent type p =
    if type == req_meta
    then begin p
    else if type == req_end
    then finish p
    else if type == req_abort
    then withdraw p
    else go_on p

abbrev pub ask : Effect → Asked → Asked
ask (send ws type id body) p = sent type p
ask (write_head status reason headers) p = p
ask (res_write chunk) p = p
ask (res_end reply) p = p
ask res_destroy p = p
ask req_destroy p = p
ask writer_destroy p = p
ask (writer_paused b) p = p

abbrev pub request : List Effect → Asked
request [] = unasked
request (e ∷ out) = ask e (request out)

-- What the flags of the state object say of the phases.
abbrev pub FitsResponse : Bool → Bool → Phase → Type 0
FitsResponse false over p = p ≡ fresh
FitsResponse true false p = p ≡ headed
FitsResponse true true p = is_broken p ≡ false

abbrev pub FitsRequest : Bool → Asked → Type 0
FitsRequest false p = p ≡ asking
FitsRequest true p = is_asking p ≡ true

-- What an exchange that goes on is, by the fields and the phases that it stands on.
pub record Open (ref id : ℕ) (streams : List (ℕ × ℕ))
    (cleaned abort_sent response_started response_ended request_ended : Bool) (p : Phase)
    (q : Asked) : Type 0 where
  pub live : cleaned ≡ false
  pub entry : get id streams ≡ some ref
  pub sole : (j : ℕ) → get j streams ≡ some ref → j ≡ id
  pub distinct : Distinct (keys streams)
  pub unaborted : abort_sent ≡ false
  pub responding : FitsResponse response_started response_ended p
  pub requesting : FitsRequest request_ended q

abbrev pub IsOpen : Exchange → Type 0
IsOpen x =
    Open x.ref x.stream.id x.streams x.stream.cleaned x.stream.abort_sent x.stream.response_started
      x.stream.response_ended x.stream.request_ended (response x.out) (request x.out)

-- An exchange that is over: cleaned, out of the table, without a timer, and its calls and frames in
-- their order.
pub record IsOver (x : Exchange) : Type 0 where
  pub cleaned : x.stream.cleaned ≡ true
  pub gone : (j : ℕ) → get j x.streams ≢ some x.ref
  pub untimed : x.stream.timer ≡ false
  pub responded : is_broken (response x.out) ≡ false
  pub requested : is_wrong (request x.out) ≡ false
