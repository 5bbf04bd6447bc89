-- ===== src/Server/Lifecycle.antt =====
-- Every event at a TCP stream, and what it does to the books.
use nodejs_wss_service_bridg.Base.{
  ℕ, ◌≡◌, inl, Bool, true, false, ◌||◌, List, [], ◌∷◌, Option, String, arith, if_elim, if_both,
  ◌==◌,
}
use nodejs_wss_service_bridg.Protocol.{
  Bytes, pause, resume, tcp_close, tcp_abort, tcp_open_ack, tcp_data, res_data, res_end, res_abort,
  res_meta,
}
use nodejs_wss_service_bridg.Server.{Net, Config, Run, Json, with_stream}
use nodejs_wss_service_bridg.Server.Cleanup.{abort_tcp_stream}
use nodejs_wss_service_bridg.Server.Socket.{
  on_drain, on_data, on_sent, on_close, on_error, run_microtask, on_agent_sent,
}
use nodejs_wss_service_bridg.Server.ClientFrames.{client_frame, parse_info, timed}
use nodejs_wss_service_bridg.Server.AgentFrames.{agent_frame, message_of}
use nodejs_wss_service_bridg.Server.Counting.{
  Settles, Keeps-refl, Keeps-trans, Keeps-Settles, Settles-trans, cleanup_tcp_stream-Settles,
  abort_tcp_stream-Settles, sync_tcp_backpressure-Keeps,
}
use nodejs_wss_service_bridg.Server.Listeners.{
  on_drain-Keeps, on_data-Settles, sync_socket_read_state-Settles, on_sent-Settles,
  on_close-Settles, on_error-Settles, push_inbound-Settles, end_from_agent-Settles,
  abort_from_agent-Settles, run_microtask-Settles, on_agent_sent-Settles, handle_tcp_data-Settles,
  handle_client_abort-Settles, handle_open_ack-Keeps, timed-Keeps,
}

-- The events at a TCP stream: those of its socket, of its sends and of its timer, the frames for it,
-- and the aborts from outside: `client_lost` of `cleanupClient`, `ws_lost` of `cleanupStreamsForWs`,
-- `agent_lost` of `cleanupAgent` with its reason, and `shut_down` of the router's `close`.
pub data Event : Type 0 where
  data_read : Bytes → Event
  sent drained closed agent_sent microtask idle : Event
  client_lost ws_lost shut_down : Event
  agent_lost failed : String → Event
  from_client from_agent : ℕ → Bytes → Event

-- The frames, which reach a stream through the table only.
abbrev pub IsOwn : Event → Type 0
IsOwn (from_client type payload) = ⊥
IsOwn (from_agent type payload) = ⊥
IsOwn _ = Unit

-- The frames of a response are for HTTP streams only.
abbrev pub is_response_frame : ℕ → Bool
is_response_frame type = type == res_data || (type == res_end || type == res_abort)

abbrev pub FitsTcp : Event → Type 0
FitsTcp (from_client type payload) = is_response_frame type ≡ false
FitsTcp _ = Unit

module _ (config : Config) (parse : Bytes → Option Json) (net : Net) where
  unfoldable pub step : Event → Run → Run
  unfolding client_frame agent_frame
  step (data_read chunk) r = on_data net config chunk r
  step sent r = on_sent net config r
  step drained r = on_drain net r
  step closed r = on_close net r
  step agent_sent r = on_agent_sent net config r
  step microtask r = run_microtask net r
  step idle r = abort_tcp_stream net "Stream idle timeout" true r
  step client_lost r = abort_tcp_stream net "Tunnel client disconnected" false r
  step ws_lost r = abort_tcp_stream net "Tunnel WebSocket disconnected" false r
  step (agent_lost reason) r = abort_tcp_stream net reason true r
  step shut_down r = abort_tcp_stream net "Server shutting down" true r
  step (failed message) r = on_error net message r
  step (from_client type payload) r = client_frame net config parse type payload (timed config r)
  step (from_agent type payload) r = agent_frame net config parse type payload r

  client_frame-Settles :
      (type : ℕ) (payload : Bytes) (r : Run)
      → is_response_frame type ≡ false
      → Settles r (client_frame net config parse type payload r)
  unfolding client_frame
  client_frame-Settles type payload r fits =
      if_both (Settles r) (type == res_meta)
        (abort_tcp_stream-Settles net "Bad frame from tunnel client" false r)
        (if_elim (Settles r) (is_response_frame type) (λ response. absurd (ground arith))
          (λ _.
            if_both (Settles r) (type == pause)
              (Keeps-Settles {q = with_stream r (record (r.stream) { peer_paused_read = true })}
                (ground arith) (sync_socket_read_state-Settles net config _))
              (if_both (Settles r) (type == resume)
                (Keeps-Settles {q = with_stream r (record (r.stream) { peer_paused_read = false })}
                  (ground arith) (sync_socket_read_state-Settles net config _))
                (if_both (Settles r) (type == tcp_data)
                  (handle_tcp_data-Settles net config payload r)
                  (if_both (Settles r) (type == tcp_close) (cleanup_tcp_stream-Settles net r) (
                    if_both (Settles r) (type == tcp_open_ack) (inl (handle_open_ack-Keeps net r)) (
                      if_both (Settles r) (type == tcp_abort)
                        (handle_client_abort-Settles net (parse_info parse payload) r)
                        (inl (Keeps-refl r)))))))))

  agent_frame-Settles :
      (type : ℕ) (payload : Bytes) (r : Run)
      → Settles r (agent_frame net config parse type payload r)
  unfolding agent_frame
  agent_frame-Settles type payload r =
      if_both (Settles r) (type == tcp_data) (push_inbound-Settles net config payload r) (
        if_both (Settles r) (type == tcp_close) (end_from_agent-Settles net r) (
          if_both (Settles r) (type == tcp_abort)
            (abort_from_agent-Settles net (message_of parse payload) r)
            (if_both (Settles r) (type == pause)
              (inl (
                Keeps-trans {q = with_stream r (record (r.stream) { agent_paused = true })}
                  (ground arith) (sync_tcp_backpressure-Keeps net _)))
              (if_both (Settles r) (type == resume)
                (inl (
                  Keeps-trans {q = with_stream r (record (r.stream) { agent_paused = false })}
                    (ground arith) (sync_tcp_backpressure-Keeps net _)))
                (inl (Keeps-refl r))))))

  -- Every event at a TCP stream, but the frames of an HTTP response, either leaves the stream's place
  -- in the books alone, or ends a live stream: it is out of the table, its socket is destroyed, and
  -- its connection is given back once to the count that it was taken from.
  pub step-Settles : (e : Event) (r : Run) → FitsTcp e → Settles r (step e r)
  unfolding step
  step-Settles (data_read chunk) r fits = on_data-Settles net config chunk r
  step-Settles sent r fits = on_sent-Settles net config r
  step-Settles drained r fits = inl (on_drain-Keeps net r)
  step-Settles closed r fits = on_close-Settles net r
  step-Settles agent_sent r fits = on_agent_sent-Settles net config r
  step-Settles microtask r fits = run_microtask-Settles net r
  step-Settles idle r fits = abort_tcp_stream-Settles net "Stream idle timeout" true r
  step-Settles client_lost r fits =
      abort_tcp_stream-Settles net "Tunnel client disconnected" false r
  step-Settles ws_lost r fits = abort_tcp_stream-Settles net "Tunnel WebSocket disconnected" false r
  step-Settles (agent_lost reason) r fits = abort_tcp_stream-Settles net reason true r
  step-Settles shut_down r fits = abort_tcp_stream-Settles net "Server shutting down" true r
  step-Settles (failed message) r fits = on_error-Settles net message r
  step-Settles (from_client type payload) r fits =
      Keeps-Settles (timed-Keeps config r) (client_frame-Settles type payload (timed config r) fits)
  step-Settles (from_agent type payload) r fits = agent_frame-Settles type payload r

module _ (config : Config) (parse : Bytes → Option Json) where
  -- Each event comes with what the libraries answer at that time.
  unfoldable pub run : List (Net × Event) → Run → Run
  unfolding step
  run [] r = r
  run ((net, e) ∷ es) r = run es (step config parse net e r)

  abbrev pub AllFit : List (Net × Event) → Type 0
  AllFit [] = Unit
  AllFit ((net, e) ∷ es) = FitsTcp e × AllFit es

  -- However many of these events follow one another at a TCP stream, with nothing else in between, its
  -- connection is given back at most once: those of its socket, its sends and its idle timer, the
  -- frames of its tunnel client, but those of an HTTP response, and of its agent, the losses of the
  -- client and of the agent, and the router's shutdown, whatever the libraries answer at each. It is
  -- not given back while the stream lives, and exactly once when it has ended, with its socket
  -- destroyed and the stream out of the table.
  pub run-Settles : (es : List (Net × Event)) (r : Run) → AllFit es → Settles r (run es r)
  unfolding run
  run-Settles [] r fit = inl (Keeps-refl r)
  run-Settles ((net, e) ∷ es) r fit =
      Settles-trans (step-Settles config parse net e r fit.0)
        (run-Settles es (step config parse net e r) fit.1)
