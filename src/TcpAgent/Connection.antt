-- ===== src/TcpAgent/Connection.antt =====
-- serve/tcp-agent.js: the WebSocket to the server, the reconnection and the shutdown.
use Prim.Native.Nat.{min}
use text.Mathlib.Text.{◌==◌ as str_eq}
use nodejs_wss_service_bridg.Base.{
  ℕ, ◌+◌, ◌*◌, true, false, ◌||◌, List, [], ◌∷◌, String, if◌then◌else◌,
}
use nodejs_wss_service_bridg.Base.Map.{values}
use nodejs_wss_service_bridg.PortParser.{Route}
use nodejs_wss_service_bridg.TcpAgent.{
  connecting, opened, closed, close_listener, new_websocket, close_websocket, exit, Net, Config,
  Agent, WebSocket, missing, closing, emit, is_missing,
}
use nodejs_wss_service_bridg.TcpAgent.Ready.{mark_ready_if_eligible, clear_ready}
use nodejs_wss_service_bridg.TcpAgent.Streams.{cleanup_all, resume_drained}

-- `ws.close()`: an open WebSocket starts to close.
abbrev pub after_close : WebSocket → WebSocket
after_close missing = missing
after_close closed = closed
after_close _ = closing

abbrev pub close_current : Agent → Agent
close_current a =
    if is_missing a.ws then a else emit close_websocket (record a { ws = after_close a.ws })

-- `connect`
unfoldable pub connect : Agent → Agent
connect a = emit new_websocket (record (close_current a) { ws = connecting })

-- The listener of `open`.
unfoldable pub on_open : Net → Config → Agent → Agent
unfolding mark_ready_if_eligible
on_open net config a = mark_ready_if_eligible net config (record a {
  ws = opened;
  reconnect_attempt = 0;
  reconnect_delay = config.reconnect_delay_ms;
  auth_failed = false;
})

-- `scheduleReconnect`
unfoldable pub schedule_reconnect : Agent → Agent
schedule_reconnect a =
    if a.auth_failed || a.shutting_down
    then a
    else record a { reconnect_timer = true; reconnect_delay = min (a.reconnect_delay * 2) 30000 }

-- The listener of `close`.
unfoldable pub on_ws_close : Config → Agent → Agent
unfolding schedule_reconnect cleanup_all clear_ready
on_ws_close config a =
    schedule_reconnect (cleanup_all (clear_ready config (record a { ws = closed })))

-- The listener of `error`.
unfoldable pub on_ws_error : String → Agent → Agent
on_ws_error text a =
    if str_eq text "Unexpected server response: 401" then record a { auth_failed = true } else a

-- The listener of `drain`.
unfoldable pub on_ws_drain : Net → Config → Agent → Agent
unfolding resume_drained
on_ws_drain net config a = resume_drained net config (values a.streamed_sockets) a

-- The timer of the reconnection.
unfoldable pub on_reconnect_timer : Agent → Agent
unfolding connect
on_reconnect_timer a =
    connect (record a { reconnect_timer = false; reconnect_attempt = a.reconnect_attempt + 1 })

unfoldable pub close_listeners : List Route → Agent → Agent
close_listeners [] a = a
close_listeners (route ∷ routes) a =
    close_listeners routes (emit (close_listener route.local_port) a)

-- `shutdown`
unfoldable pub shutdown : Config → ℕ → Agent → Agent
unfolding clear_ready cleanup_all close_listeners
shutdown config code a =
    let stopped = clear_ready config (record a { shutting_down = true; reconnect_timer = false }) in
    if a.shutting_down
    then a
    else emit (exit code) (close_current (close_listeners config.routes (cleanup_all stopped)))

-- The listener of `error` of a local listener.
unfoldable pub on_listener_error : Config → Agent → Agent
unfolding clear_ready shutdown
on_listener_error config a =
    if a.ready then clear_ready config a else shutdown config 1 (clear_ready config a)
