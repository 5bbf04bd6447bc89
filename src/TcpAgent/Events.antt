-- ===== src/TcpAgent/Events.antt =====
-- The events of the agent, serve/tcp-agent.js, and what holds of it through any of them.
use nodejs_wss_service_bridg.Base.{
  ℕ, ◌≡◌, ◌≢◌, refl, true, ◌&&◌, Option, List, none, some, String, arith, ◌==◌, if_elim, if_both,
  Result, ok, err,
}
use text.Mathlib.Text.{◌==◌ as str_eq}
use nodejs_wss_service_bridg.Base.Map.{get, values}
use nodejs_wss_service_bridg.PortParser.{Route}
use nodejs_wss_service_bridg.Protocol.{
  Bytes, Message, Frame, FrameError, JsonError, parse_frame, parse_json_payload, tcp_connect_ack,
  tcp_abort,
}
use nodejs_wss_service_bridg.Server.{Json, null, object, no_info}
use nodejs_wss_service_bridg.Server.ClientFrames.{json_limit}
use nodejs_wss_service_bridg.TcpAgent.{connecting, Net, Config, Pending, Agent}
use nodejs_wss_service_bridg.TcpAgent.Streams.{on_data, on_sent, on_drain, on_error, on_close}
use nodejs_wss_service_bridg.TcpAgent.Local.{
  remove_pending, on_pending_error, on_connection, on_listening, on_listener_close,
}
use nodejs_wss_service_bridg.TcpAgent.Frames.{
  find_pending, destroy_found, ack_read, reject_read, handle_frame, handle_server_frame,
  handle_connect_ack, handle_connect_reject,
}
use nodejs_wss_service_bridg.TcpAgent.Connection.{
  on_open, on_ws_close, on_ws_error, on_ws_drain, on_reconnect_timer, shutdown, on_listener_error,
}
use nodejs_wss_service_bridg.TcpAgent.Table.{
  IsAgent, same-IsTable, on_data-IsTable, on_sent-IsTable, on_drain-IsTable, on_error-IsTable,
  on_close-IsTable, resume_drained-IsTable,
}
use nodejs_wss_service_bridg.TcpAgent.Table.Handlers.{
  remove_pending-IsTable, on_pending_error-IsTable, on_connection-IsTable, on_listening-IsTable,
  on_listener_close-IsTable, on_listener_error-IsTable, register_found-IsTable,
  destroy_found-IsTable, stream_frame-IsTable, on_open-IsTable, on_ws_close-IsTable,
  on_reconnect_timer-IsTable, shutdown-IsTable,
}
use nodejs_wss_service_bridg.TcpAgent.Readiness.{
  IsReady, Same-IsReady, kept, Same, idle-IsReady, Calm-Same,
}
use nodejs_wss_service_bridg.TcpAgent.Readiness.Streams.{
  on_data-Calm, on_sent-Calm, on_drain-Calm, on_error-Calm, on_close-Calm, resume_drained-Calm,
  on_connection-readiness, register_found-readiness, stream_frame-Calm, destroy_found-readiness,
  remove_pending-readiness, on_pending_error-readiness,
}
use nodejs_wss_service_bridg.TcpAgent.Readiness.Connection.{
  on_listening-IsReady, on_listener_close-IsReady, on_listener_error-IsReady, on_open-IsReady,
  on_ws_close-IsIdle, on_reconnect_timer-IsReady, shutdown-IsReady,
}

-- `connection` is a new connection at the listener of a route, `pending_failed` and `pending_closed`
-- call the two listeners that its socket has from the start; the other events of sockets call those
-- of `registerStream`, by the entry. `stopped` is a signal.
pub data Event : Type 0 where
  connection : Route → ℕ → Event
  pending_failed pending_closed : ℕ → Event
  listening listener_closed : ℕ → Event
  listener_failed : Event
  data_read : ℕ → Bytes → Event
  sent drained closed : ℕ → Event
  failed : ℕ → String → Event
  ws_opened ws_closed ws_drained timer stopped : Event
  ws_failed : String → Event
  message : Message → Event

-- The entries are in the table of streams under their ids exactly as long as they are not cleaned, and
-- the agent is ready only where it may be.
pub record IsSound (config : Config) (a : Agent) : Type 0 where
  pub table : IsAgent a
  pub readiness : IsReady config a

-- The listener returns, and the agent is sound after it.
abbrev pub Returns : Config → Option Agent → Type 0
Returns config o = (b : Agent) × (o ≡ some b) × IsSound config b

-- What leaves the readiness alone keeps the agent sound.
Same-IsSound :
    (config : Config) (a b : Agent) → IsSound config a → IsAgent b → Same a b → IsSound config b
Same-IsSound config a b h t s = record {
  table = t;
  readiness = Same-IsReady config a b s h.readiness;
}

both : (config : Config) (b : Agent) → IsAgent b → IsReady config b → Returns config (some b)
both config b t r = (b, refl, record { table = t; readiness = r })

stays :
    (config : Config) (a b : Agent)
    → IsSound config a
    → IsAgent b
    → Same a b
    → Returns config (some b)
stays config a b h t s = (b, refl, Same-IsSound config a b h t s)

module _ (net : Net) (config : Config) (parse : Bytes → Option Json) where
  unfoldable pub step : Event → Agent → Option Agent
  unfolding handle_server_frame
  step (connection route socket) a = some (on_connection net route socket a)
  step (pending_failed socket) a = some (on_pending_error socket a)
  step (pending_closed socket) a = some (remove_pending socket a)
  step (listening port) a = some (on_listening net config port a)
  step (listener_closed port) a = some (on_listener_close config port a)
  step listener_failed a = some (on_listener_error config a)
  step (data_read ref chunk) a = some (on_data net config ref chunk a)
  step (sent ref) a = some (on_sent net config ref a)
  step (drained ref) a = some (on_drain net ref a)
  step (closed ref) a = some (on_close net ref a)
  step (failed ref text) a = some (on_error net ref text a)
  step ws_opened a = some (on_open net config a)
  step ws_closed a = some (on_ws_close config a)
  step ws_drained a = some (on_ws_drain net config a)
  step timer a = some (on_reconnect_timer a)
  step stopped a = some (shutdown config 0 a)
  step (ws_failed text) a = some (on_ws_error text a)
  step (message m) a = handle_server_frame net parse m a

  -- An acknowledgement is for an id that is not in the table, and neither its payload nor that of a
  -- rejection is `null`.
  pub record IsFresh (a : Agent) (f : Frame) : Type 0 where
    pub unused : f.type ≡ tcp_connect_ack → get f.stream_id a.streamed_sockets ≡ none
    pub acknowledged : f.type ≡ tcp_connect_ack → parse f.payload ≢ some null
    pub rejected : f.type ≡ tcp_abort → f.stream_id ≡ 0 → parse f.payload ≢ some null

  -- `open` comes to a WebSocket that is connecting, and a timer runs out only where it is set.
  abbrev pub Fits : Event → Agent → Type 0
  Fits ws_opened a = a.ws ≡ connecting
  Fits timer a = a.reconnect_timer ≡ true
  Fits (message m) a = (f : Frame) → parse_frame m ≡ ok f → IsFresh a f
  Fits _ a = Unit

  json-null :
      (payload : Bytes)
      → parse payload ≢ some null
      → parse_json_payload parse json_limit payload ≢ ok null
  unfolding parse_json_payload
  json-null payload n e = n (ground arith)

  ack_read-Returns :
      (id : ℕ) (r : Result JsonError Json) (a : Agent)
      → IsSound config a
      → get id a.streamed_sockets ≡ none
      → r ≢ ok null
      → Returns config (ack_read id r a)
  unfolding ack_read
  ack_read-Returns id (err e) a h fresh n = (a, refl, h)
  ack_read-Returns id (ok null) a h fresh n = absurd (n refl)
  ack_read-Returns id (ok (object info)) a h fresh n =
      let found = find_pending info a.pending_connects in
      stays config a _ h (register_found-IsTable id found a h.table fresh)
        (register_found-readiness id found a)

  rejected-IsSound :
      (found : Option (Pending × List Pending)) (a : Agent)
      → IsSound config a
      → IsSound config (destroy_found found a)
  rejected-IsSound found a h =
      Same-IsSound config a _ h (destroy_found-IsTable found a h.table)
        (destroy_found-readiness found a)

  reject_read-Returns :
      (r : Result JsonError Json) (a : Agent)
      → IsSound config a
      → r ≢ ok null
      → Returns config (reject_read r a)
  unfolding reject_read
  reject_read-Returns (err e) a h n =
      (_, refl, rejected-IsSound (find_pending no_info a.pending_connects) a h)
  reject_read-Returns (ok null) a h n = absurd (n refl)
  reject_read-Returns (ok (object info)) a h n =
      (_, refl, rejected-IsSound (find_pending info a.pending_connects) a h)

  is_reject :
      (f : Frame)
      → (f.type == tcp_abort && f.stream_id == 0) ≡ true
      → (f.type ≡ tcp_abort) × (f.stream_id ≡ 0)
  is_reject f e = ground arith

  handle_frame-Returns :
      (r : Result FrameError Frame) (a : Agent)
      → IsSound config a
      → ((f : Frame) → r ≡ ok f → IsFresh a f)
      → Returns config (handle_frame net parse r a)
  unfolding handle_frame handle_connect_ack handle_connect_reject
  handle_frame-Returns (err e) a h fits = (a, refl, h)
  handle_frame-Returns (ok f) a h fits =
      let fresh = fits f refl in
      let known = get f.stream_id a.streamed_sockets in
      if_elim (Returns config) (f.type == tcp_connect_ack)
        (λ e.
          let ack : f.type ≡ tcp_connect_ack = ground arith in
          ack_read-Returns f.stream_id _ a h (fresh.unused ack)
            (json-null f.payload (fresh.acknowledged ack)))
        (λ _.
          if_elim (Returns config) (f.type == tcp_abort && f.stream_id == 0)
            (λ e.
              let (aborts, none_given) = is_reject f e in
              reject_read-Returns _ a h (json-null f.payload (fresh.rejected aborts none_given)))
            (λ _.
              stays config a _ h (stream_frame-IsTable net f.type f.payload known a h.table)
                (Calm-Same (stream_frame-Calm net f.type f.payload known a))))

  on_ws_error-IsSound :
      (text : String) (a : Agent) → IsSound config a → IsSound config (on_ws_error text a)
  unfolding on_ws_error
  on_ws_error-IsSound text a h =
      if_both (IsSound config) (str_eq text "Unexpected server response: 401")
        (Same-IsSound config a _ h
          (same-IsTable a (record a { auth_failed = true }) h.table refl refl refl) (kept refl))
        h

  -- At a sound agent every event's listener returns, and the agent is sound after it: an entry is in
  -- the table of streams under its id exactly as long as it is not cleaned; the agent is ready only
  -- while it does not shut down, its WebSocket has opened and has not closed, and every requested
  -- port is listening; and the ready file, if it can be removed, is there only while it is ready. An acknowledgement must be
  -- for an id that is not in the table, and neither its payload nor a rejection's may be `null`;
  -- `open` must come to a connecting WebSocket, and a timer must be set to run out.
  pub step-IsSound :
      (e : Event) (a : Agent) → IsSound config a → Fits e a → Returns config (step e a)
  unfolding step handle_server_frame on_ws_drain
  step-IsSound (connection route socket) a h fits =
      stays config a _ h (on_connection-IsTable net route socket a h.table)
        (on_connection-readiness net route socket a)
  step-IsSound (pending_failed socket) a h fits =
      stays config a _ h (on_pending_error-IsTable socket a h.table)
        (on_pending_error-readiness socket a)
  step-IsSound (pending_closed socket) a h fits =
      stays config a _ h (remove_pending-IsTable socket a h.table)
        (remove_pending-readiness socket a)
  step-IsSound (listening port) a h fits =
      both config _ (on_listening-IsTable net config port a h.table)
        (on_listening-IsReady net config port a h.readiness)
  step-IsSound (listener_closed port) a h fits =
      both config _ (on_listener_close-IsTable config port a h.table)
        (on_listener_close-IsReady config port a h.readiness)
  step-IsSound listener_failed a h fits =
      both config _ (on_listener_error-IsTable config a h.table)
        (on_listener_error-IsReady config a h.readiness)
  step-IsSound (data_read ref chunk) a h fits =
      stays config a _ h (on_data-IsTable net config ref chunk a h.table)
        (Calm-Same (on_data-Calm net config ref chunk a))
  step-IsSound (sent ref) a h fits =
      stays config a _ h (on_sent-IsTable net config ref a h.table)
        (Calm-Same (on_sent-Calm net config ref a))
  step-IsSound (drained ref) a h fits =
      stays config a _ h (on_drain-IsTable net ref a h.table) (Calm-Same (on_drain-Calm net ref a))
  step-IsSound (closed ref) a h fits =
      stays config a _ h (on_close-IsTable net ref a h.table) (Calm-Same (on_close-Calm net ref a))
  step-IsSound (failed ref text) a h fits =
      stays config a _ h (on_error-IsTable net ref text a h.table)
        (Calm-Same (on_error-Calm net ref text a))
  step-IsSound ws_opened a h fits =
      both config _ (on_open-IsTable net config a h.table)
        (on_open-IsReady net config a h.readiness fits)
  step-IsSound ws_closed a h fits =
      both config _ (on_ws_close-IsTable config a h.table)
        (idle-IsReady config _ (on_ws_close-IsIdle config a h.readiness))
  step-IsSound ws_drained a h fits =
      let refs = values a.streamed_sockets in
      stays config a _ h (resume_drained-IsTable net config refs a h.table)
        (Calm-Same (resume_drained-Calm net config refs a))
  step-IsSound timer a h fits =
      both config _ (on_reconnect_timer-IsTable a h.table)
        (on_reconnect_timer-IsReady config a h.readiness fits)
  step-IsSound stopped a h fits =
      both config _ (shutdown-IsTable config 0 a h.table) (shutdown-IsReady config 0 a h.readiness)
  step-IsSound (ws_failed text) a h fits = (_, refl, on_ws_error-IsSound text a h)
  step-IsSound (message m) a h fits = handle_frame-Returns (parse_frame m) a h fits
