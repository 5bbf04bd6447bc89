-- ===== src/Server/Silence.antt =====
-- A TCP stream whose state is cleaned, through every event of its own.
use nodejs_wss_service_bridg.Base.{
  ◌≡◌, refl, ◌∙◌, Bool, true, false, List, [], ◌∷◌, Option, String, if_both, if_true, if_false,
}
use nodejs_wss_service_bridg.Protocol.{Bytes}
use nodejs_wss_service_bridg.Server.{Net, Config, Run, Json, with_socket}
use nodejs_wss_service_bridg.Server.Cleanup.{abort_tcp_stream}
use nodejs_wss_service_bridg.Server.Socket.{
  on_drain, on_data, on_close, on_error, on_sent, run_microtask, on_agent_sent, count_sent,
  may_read_on,
}
use nodejs_wss_service_bridg.Server.Lifecycle.{
  Event, data_read, sent, drained, closed, agent_sent, microtask, idle, client_lost, ws_lost,
  shut_down, agent_lost, failed, from_client, from_agent, IsOwn, step, run,
}

-- The state stays cleaned, and nothing is sent, called or counted.
pub record IsQuiet (r q : Run) : Type 0 where
  pub cleaned : q.stream.cleaned ≡ true
  pub global : q.global ≡ r.global

still : (r : Run) → r.stream.cleaned ≡ true → IsQuiet r r
still r c = record { cleaned = c; global = refl }

module _ (net : Net) where
  pub abort_tcp_stream-IsQuiet :
      (reason : String) (notify : Bool) (r : Run)
      → r.stream.cleaned ≡ true
      → IsQuiet r (abort_tcp_stream net reason notify r)
  unfolding abort_tcp_stream
  abort_tcp_stream-IsQuiet reason notify r c = rw (if_true {A = Run} _ c) (still r c)

  on_close-IsQuiet : (r : Run) → r.stream.cleaned ≡ true → IsQuiet r (on_close net r)
  unfolding on_close
  on_close-IsQuiet r c = rw (if_true {A = Run} _ c) (still r c)

  on_error-IsQuiet :
      (text : String) (r : Run) → r.stream.cleaned ≡ true → IsQuiet r (on_error net text r)
  unfolding on_error
  on_error-IsQuiet text r c = rw (if_true {A = Run} _ c) (still r c)

  on_drain-IsQuiet : (r : Run) → r.stream.cleaned ≡ true → IsQuiet r (on_drain net r)
  unfolding on_drain
  on_drain-IsQuiet r c = rw (if_true {A = Run} _ c) (still r c)

  run_microtask-IsQuiet : (r : Run) → r.stream.cleaned ≡ true → IsQuiet r (run_microtask net r)
  unfolding run_microtask
  run_microtask-IsQuiet r c =
      let k = r.stream.socket in
      let told = with_socket r (record k { close_queued = false }) in
      let q = on_close-IsQuiet told c in
      if_both (IsQuiet r) k.close_queued (record { cleaned = q.cleaned; global = q.global })
        (still r c)

module _ (net : Net) (config : Config) where
  on_data-IsQuiet :
      (chunk : Bytes) (r : Run) → r.stream.cleaned ≡ true → IsQuiet r (on_data net config chunk r)
  unfolding on_data
  on_data-IsQuiet chunk r c = rw (if_true {A = Run} _ c) (still r c)

  on_sent-IsQuiet : (r : Run) → r.stream.cleaned ≡ true → IsQuiet r (on_sent net config r)
  unfolding on_sent
  on_sent-IsQuiet r c =
      let no_more : may_read_on net config (count_sent r) ≡ false = rw c refl in
      rw (if_false {A = Run} _ no_more) (record { cleaned = c; global = refl })

  on_agent_sent-IsQuiet :
      (r : Run) → r.stream.cleaned ≡ true → IsQuiet r (on_agent_sent net config r)
  unfolding on_agent_sent
  on_agent_sent-IsQuiet r c =
      let k = r.stream.socket in
      let q = on_drain-IsQuiet net (with_socket r (record k { pending_drain = false })) c in
      if_both (IsQuiet r) _ (record { cleaned = q.cleaned; global = q.global }) (still r c)

module _ (config : Config) (parse : Bytes → Option Json) where
  step-IsQuiet :
      (net : Net) (e : Event) (r : Run)
      → IsOwn e
      → r.stream.cleaned ≡ true
      → IsQuiet r (step config parse net e r)
  unfolding step
  step-IsQuiet net (data_read chunk) r own c = on_data-IsQuiet net config chunk r c
  step-IsQuiet net sent r own c = on_sent-IsQuiet net config r c
  step-IsQuiet net drained r own c = on_drain-IsQuiet net r c
  step-IsQuiet net closed r own c = on_close-IsQuiet net r c
  step-IsQuiet net agent_sent r own c = on_agent_sent-IsQuiet net config r c
  step-IsQuiet net microtask r own c = run_microtask-IsQuiet net r c
  step-IsQuiet net idle r own c = abort_tcp_stream-IsQuiet net "Stream idle timeout" true r c
  step-IsQuiet net client_lost r own c =
      abort_tcp_stream-IsQuiet net "Tunnel client disconnected" false r c
  step-IsQuiet net ws_lost r own c =
      abort_tcp_stream-IsQuiet net "Tunnel WebSocket disconnected" false r c
  step-IsQuiet net (agent_lost reason) r own c = abort_tcp_stream-IsQuiet net reason true r c
  step-IsQuiet net shut_down r own c = abort_tcp_stream-IsQuiet net "Server shutting down" true r c
  step-IsQuiet net (failed message) r own c = on_error-IsQuiet net message r c
  step-IsQuiet net (from_client type payload) r own c = absurd own
  step-IsQuiet net (from_agent type payload) r own c = absurd own

  abbrev pub AllOwn : List (Net × Event) → Type 0
  AllOwn [] = Unit
  AllOwn ((net, e) ∷ es) = IsOwn e × AllOwn es

  -- A TCP stream whose state is cleaned is silent: however many events of its socket, of its sends and
  -- of its idle timer follow, and losses of its client or its agent, and shutdowns of the router, the
  -- state stays cleaned, nothing is sent and no socket is called, and the table and the counts stay as
  -- they were. Frames are left out: they reach a stream through the table only.
  pub run-IsQuiet :
      (es : List (Net × Event)) (r : Run)
      → AllOwn es
      → r.stream.cleaned ≡ true
      → IsQuiet r (run config parse es r)
  unfolding run
  run-IsQuiet [] r own c = still r c
  run-IsQuiet ((net, e) ∷ es) r own c =
      let one = step-IsQuiet net e r own.0 c in
      let rest = run-IsQuiet es (step config parse net e r) own.1 one.cleaned in
      record { cleaned = rest.cleaned; global = rest.global ∙ one.global }
