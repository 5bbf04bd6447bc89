-- ===== src/TcpAgent/Readiness/Connection.antt =====
-- The agent's readiness through the events of its WebSocket and its listeners.
use nodejs_wss_service_bridg.Base.{
  ℕ, ◌≡◌, refl, sym, ap, ◌∙◌, true, false, ◌||◌, List, [], ◌∷◌, arith, has, remove, if_both,
  if_true, if_false, Bool-cases, inl, inr,
}
use mathlib.Core.Bool.{false≢true}
use nodejs_wss_service_bridg.PortParser.{Route}
use nodejs_wss_service_bridg.TcpAgent.{
  WebSocket, connecting, opened, closed, closing, missing, Net, Config, Agent, emit, is_missing,
  exit, close_listener,
}
use nodejs_wss_service_bridg.TcpAgent.Ready.{all_listening, clear_ready}
use nodejs_wss_service_bridg.TcpAgent.Streams.{cleanup_all}
use nodejs_wss_service_bridg.TcpAgent.Local.{on_listening, on_listener_close}
use nodejs_wss_service_bridg.TcpAgent.Connection.{
  connect, on_open, on_ws_close, on_reconnect_timer, shutdown, on_listener_error,
  schedule_reconnect, close_listeners, close_current, after_close,
}
use nodejs_wss_service_bridg.TcpAgent.Readiness.{
  IsReady, is_up, is_closed, Same, kept, Same-trans, mark_ready-IsReady, IsIdle, idle-IsReady,
  clear_ready-IsIdle, Same-IsIdle, all_listening-append,
}
use nodejs_wss_service_bridg.TcpAgent.Readiness.Streams.{cleanup_all-readiness}

pub on_listening-IsReady :
    (net : Net) (config : Config) (port : ℕ) (a : Agent)
    → IsReady config a
    → IsReady config (on_listening net config port a)
unfolding on_listening
on_listening-IsReady net config port a h = mark_ready-IsReady net config _ (record {
  running = h.running;
  up = h.up;
  listening = λ r.
      if_both (λ ports. all_listening config.routes ports ≡ true) (has port a.listening_ports)
        (h.listening r) (all_listening-append config.routes a.listening_ports port (h.listening r));
  file = h.file;
  configured = h.configured;
  timer = h.timer;
})

pub on_listener_close-IsReady :
    (config : Config) (port : ℕ) (a : Agent)
    → IsReady config a
    → IsReady config (on_listener_close config port a)
unfolding on_listener_close
on_listener_close-IsReady config port a h =
    let gone : Agent = record a { listening_ports = remove port a.listening_ports } in
    idle-IsReady config _ (clear_ready-IsIdle config gone h.configured h.timer).0

-- `open` comes to a WebSocket that is connecting.
pub on_open-IsReady :
    (net : Net) (config : Config) (a : Agent)
    → IsReady config a
    → a.ws ≡ connecting
    → IsReady config (on_open net config a)
unfolding on_open
on_open-IsReady net config a h w = mark_ready-IsReady net config _ (record {
  running = h.running;
  up = λ r. refl;
  listening = h.listening;
  file = h.file;
  configured = h.configured;
  timer = λ t. absurd (ground (arith, h.timer t, cong_closed w));
})
  where
    cong_closed : {x : WebSocket} → x ≡ connecting → is_closed x ≡ false
    cong_closed e = rw e refl

schedule_reconnect-IsIdle :
    (config : Config) (a : Agent)
    → IsIdle config a
    → is_closed a.ws ≡ true
    → IsIdle config (schedule_reconnect a)
unfolding schedule_reconnect
schedule_reconnect-IsIdle config a h c =
    if_both (IsIdle config) (a.auth_failed || a.shutting_down) h (record {
      not_ready = h.not_ready;
      no_file = h.no_file;
      configured = h.configured;
      timer = λ t. c;
    })

pub on_ws_close-IsIdle :
    (config : Config) (a : Agent) → IsReady config a → IsIdle config (on_ws_close config a)
unfolding on_ws_close
on_ws_close-IsIdle config a h =
    let shut : Agent = record a { ws = closed } in
    let (idle, ws, _) = clear_ready-IsIdle config shut h.configured (λ t. refl) in
    let cleared = clear_ready config shut in
    let same = cleanup_all-readiness cleared in
    schedule_reconnect-IsIdle config (cleanup_all cleared)
      (Same-IsIdle config cleared (cleanup_all cleared) same idle)
      (ap (λ r. is_closed r.3) same.same ∙ ap is_closed ws)

pub close_listeners-Same : (routes : List Route) (a : Agent) → Same a (close_listeners routes a)
unfolding close_listeners
close_listeners-Same [] a = kept refl
close_listeners-Same (route ∷ routes) a =
    Same-trans {b = emit (close_listener route.local_port) a} (kept refl)
      (close_listeners-Same routes (emit (close_listener route.local_port) a))

pub after_close-is_closed : (w : WebSocket) → is_closed w ≡ true → is_closed (after_close w) ≡ true
after_close-is_closed closed e = refl
after_close-is_closed missing e = absurd (ground arith)
after_close-is_closed connecting e = absurd (ground arith)
after_close-is_closed opened e = absurd (ground arith)
after_close-is_closed closing e = absurd (ground arith)

pub after_close-is_up : (w : WebSocket) → is_up w ≡ true → is_up (after_close w) ≡ true
after_close-is_up opened e = refl
after_close-is_up closing e = refl
after_close-is_up missing e = absurd (ground arith)
after_close-is_up connecting e = absurd (ground arith)
after_close-is_up closed e = absurd (ground arith)

close_current-IsIdle :
    (config : Config) (a : Agent) → IsIdle config a → IsIdle config (close_current a)
close_current-IsIdle config a h = if_both (IsIdle config) (is_missing a.ws) h (record {
  not_ready = h.not_ready;
  no_file = h.no_file;
  configured = h.configured;
  timer = λ t. after_close-is_closed a.ws (h.timer t);
})

exit-IsIdle :
    (config : Config) (code : ℕ) (a : Agent) → IsIdle config a → IsIdle config (emit (exit code) a)
exit-IsIdle config code a h = record {
  not_ready = h.not_ready;
  no_file = h.no_file;
  configured = h.configured;
  timer = h.timer;
}

-- A shutdown that is the first.
pub shutdown-IsIdle :
    (config : Config) (code : ℕ) (a : Agent)
    → IsReady config a
    → a.shutting_down ≡ false
    → IsIdle config (shutdown config code a)
unfolding shutdown
shutdown-IsIdle config code a h first =
    let marked : Agent = record a { shutting_down = true; reconnect_timer = false } in
    let stopped = clear_ready config marked in
    let idle = (clear_ready-IsIdle config marked h.configured (λ t. absurd (ground arith))).0 in
    let quiet = cleanup_all stopped in
    let listening = close_listeners config.routes quiet in
    rw (if_false {A = Agent} a first) (
      exit-IsIdle config code _ (
        close_current-IsIdle config listening (
          Same-IsIdle config quiet listening (close_listeners-Same config.routes quiet)
            (Same-IsIdle config stopped quiet (cleanup_all-readiness stopped) idle))))

pub shutdown-IsReady :
    (config : Config) (code : ℕ) (a : Agent)
    → IsReady config a
    → IsReady config (shutdown config code a)
unfolding shutdown
shutdown-IsReady config code a h = elim (Bool-cases a.shutting_down) [
  | inl again ↦ rw (if_true {A = Agent} _ again) h
  | inr first ↦ idle-IsReady config _ (shutdown-IsIdle config code a h first)
]

pub on_listener_error-IsReady :
    (config : Config) (a : Agent) → IsReady config a → IsReady config (on_listener_error config a)
unfolding on_listener_error
on_listener_error-IsReady config a h =
    let idle = idle-IsReady config _ (clear_ready-IsIdle config a h.configured h.timer).0 in
    if_both (IsReady config) a.ready idle (shutdown-IsReady config 1 (clear_ready config a) idle)

closed-not_up : (w : WebSocket) → is_closed w ≡ true → is_up w ≡ false
closed-not_up closed e = refl
closed-not_up missing e = refl
closed-not_up connecting e = refl
closed-not_up opened e = absurd (ground arith)
closed-not_up closing e = absurd (ground arith)

closed-IsIdle :
    (config : Config) (a : Agent) → IsReady config a → is_closed a.ws ≡ true → IsIdle config a
closed-IsIdle config a h c = record {
  not_ready = ground (arith, h.up, closed-not_up a.ws c);
  no_file = λ r. ground (arith, h.file r, h.up, closed-not_up a.ws c);
  configured = h.configured;
  timer = h.timer;
}

connect-IsIdle :
    (config : Config) (a : Agent)
    → IsIdle config a
    → a.reconnect_timer ≡ false
    → IsIdle config (connect a)
unfolding connect
connect-IsIdle config a h t =
    let closing_down = close_current-IsIdle config a h in
    let still : (close_current a).reconnect_timer ≡ false =
      if_both (λ (b : Agent). b.reconnect_timer ≡ false) (is_missing a.ws) t t in
    record {
      not_ready = closing_down.not_ready;
      no_file = closing_down.no_file;
      configured = closing_down.configured;
      timer = λ e. absurd (false≢true (sym still ∙ e));
    }

-- The timer runs out only where it is set.
pub on_reconnect_timer-IsReady :
    (config : Config) (a : Agent)
    → IsReady config a
    → a.reconnect_timer ≡ true
    → IsReady config (on_reconnect_timer a)
unfolding on_reconnect_timer
on_reconnect_timer-IsReady config a h t =
    let idle = closed-IsIdle config a h (h.timer t) in
    idle-IsReady config _ (
      connect-IsIdle config _
        (record {
          not_ready = idle.not_ready;
          no_file = idle.no_file;
          configured = idle.configured;
          timer = λ e. absurd (ground arith);
        })
        refl)
