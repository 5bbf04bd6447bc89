-- ===== src/TcpAgent/Readiness.antt =====
-- When the agent is ready: the invariant of its readiness, and the operations that keep it.
pub mod Streams
pub mod Connection
use nodejs_wss_service_bridg.Base.{
  ℕ, ◌≡◌, ◌⊎◌, inl, inr, refl, ap, sym, ◌∙◌, Bool, true, false, ◌&&◌, ◌||◌, not, List, [], ◌∷◌,
  arith, ◌==◌, ◌++◌, has, remove, if◌then◌else◌, if_both, if_elim, String,
}
use mathlib.Core.Bool.{false≢true}
use nodejs_wss_service_bridg.PortParser.{Route}
use nodejs_wss_service_bridg.TcpAgent.{
  WebSocket, missing, connecting, opened, closing, closed, is_opened, Net, Config, Agent, ws_ready,
  Entry, Effect, Pending,
}
use nodejs_wss_service_bridg.TcpAgent.Ready.{
  all_listening, mark_ready_if_eligible, clear_ready, write_ready_file, remove_ready_file,
}

abbrev pub is_up : WebSocket → Bool
is_up opened = true
is_up closing = true
is_up _ = false

abbrev pub is_closed : WebSocket → Bool
is_closed closed = true
is_closed _ = false

-- What the readiness stands on: `ready` only while the process runs, the WebSocket has opened and has
-- not closed, and every requested port is listening; the ready file, if it can be removed, only while
-- `ready`; the timer of
-- the reconnection only after a close.
pub record IsReady (config : Config) (a : Agent) : Type 0 where
  pub running : a.ready ≡ true → a.shutting_down ≡ false
  pub up : a.ready ≡ true → is_up a.ws ≡ true
  pub listening : a.ready ≡ true → all_listening config.routes a.listening_ports ≡ true
  pub file : config.file_removed ≡ true → a.ready_file ≡ true → a.ready ≡ true
  pub configured : a.ready_file ≡ true → config.has_ready_file ≡ true
  pub timer : a.reconnect_timer ≡ true → is_closed a.ws ≡ true

-- All that the readiness stands on.
abbrev pub readiness : Agent → Bool × Bool × Bool × WebSocket × List ℕ × Bool
readiness a = (a.ready, a.ready_file, a.shutting_down, a.ws, a.listening_ports, a.reconnect_timer)

-- The second agent is as ready as the first.
pub record Same (a b : Agent) : Type 0 where
  pub same : readiness b ≡ readiness a

pub kept : {a b : Agent} → readiness b ≡ readiness a → Same a b
kept e = record { same = e }

pub Same-trans : {a b c : Agent} → Same a b → Same b c → Same a c
Same-trans e f = record { same = f.same ∙ e.same }

-- What else the streams leave alone: the connections that wait, and the next id of a request.
abbrev pub waiting : Agent → List Pending × ℕ
waiting a = (a.pending_connects, a.next_connect_request_id)

-- Nothing but streams, sockets and calls has changed.
pub record Calm (a b : Agent) : Type 0 where
  pub same : readiness b ≡ readiness a
  pub waits : waiting b ≡ waiting a

pub calm : {a b : Agent} → readiness b ≡ readiness a → waiting b ≡ waiting a → Calm a b
calm e w = record { same = e; waits = w }

pub Calm-trans : {a b c : Agent} → Calm a b → Calm b c → Calm a c
Calm-trans e f = record { same = f.same ∙ e.same; waits = f.waits ∙ e.waits }

pub Calm-Same : {a b : Agent} → Calm a b → Same a b
Calm-Same c = kept c.same

pub Same-IsReady : (config : Config) (a b : Agent) → Same a b → IsReady config a → IsReady config b
Same-IsReady config a b s' h =
    let s = s'.same in
    let ready : b.ready ≡ a.ready = ap (λ r. r.0) s in
    let file : b.ready_file ≡ a.ready_file = ap (λ r. r.1) s in
    let running : b.shutting_down ≡ a.shutting_down = ap (λ r. r.2) s in
    let ws : b.ws ≡ a.ws = ap (λ r. r.3) s in
    let ports : b.listening_ports ≡ a.listening_ports = ap (λ r. r.4) s in
    let timer : b.reconnect_timer ≡ a.reconnect_timer = ap (λ r. r.5) s in
    record {
      running = rw (ready, running) h.running;
      up = rw (ready, ws) h.up;
      listening = rw (ready, ports) h.listening;
      file = λ f. rw (ready, file) (h.file f);
      configured = rw file h.configured;
      timer = rw (timer, ws) h.timer;
    }

has-append_one : (p q : ℕ) (ports : List ℕ) → has p ports ≡ true → has p (ports ++ q ∷ []) ≡ true
has-append_one p q [] h = ground arith
has-append_one p q (x ∷ ports) h = ground (arith, has-append_one p q ports)

pub all_listening-append :
    (routes : List Route) (ports : List ℕ) (q : ℕ)
    → all_listening routes ports ≡ true
    → all_listening routes (ports ++ q ∷ []) ≡ true
unfolding all_listening
all_listening-append [] ports q h = refl
all_listening-append (r ∷ routes) ports q h =
    ground (arith, all_listening-append routes ports q, has-append_one r.local_port q ports)

opened_up : (w : WebSocket) → is_opened w ≡ true → is_up w ≡ true
opened_up opened e = refl
opened_up missing e = absurd (ground arith)
opened_up connecting e = absurd (ground arith)
opened_up closing e = absurd (ground arith)
opened_up closed e = absurd (ground arith)

pub mark_ready-IsReady :
    (net : Net) (config : Config) (a : Agent)
    → IsReady config a
    → IsReady config (mark_ready_if_eligible net config a)
unfolding mark_ready_if_eligible write_ready_file
mark_ready-IsReady net config a h = record {
  running = ground (arith, h.running);
  up = ground (arith, h.up, opened_up a.ws);
  listening = ground (arith, h.listening);
  file = ground (arith, h.file);
  configured = ground (arith, h.configured);
  timer = ground (arith, h.timer);
}

-- An agent that is not ready, whose ready file, if it can be removed, is gone.
pub record IsIdle (config : Config) (a : Agent) : Type 0 where
  pub not_ready : a.ready ≡ false
  pub no_file : config.file_removed ≡ true → a.ready_file ≡ false
  pub configured : a.ready_file ≡ true → config.has_ready_file ≡ true
  pub timer : a.reconnect_timer ≡ true → is_closed a.ws ≡ true

pub idle-IsReady : (config : Config) (a : Agent) → IsIdle config a → IsReady config a
idle-IsReady config a i = record {
  running = λ r. absurd (false≢true (sym i.not_ready ∙ r));
  up = λ r. absurd (false≢true (sym i.not_ready ∙ r));
  listening = λ r. absurd (false≢true (sym i.not_ready ∙ r));
  file = λ r f. absurd (false≢true (sym (i.no_file r) ∙ f));
  configured = i.configured;
  timer = i.timer;
}

pub clear_ready-IsIdle :
    (config : Config) (a : Agent)
    → (a.ready_file ≡ true → config.has_ready_file ≡ true)
    → (a.reconnect_timer ≡ true → is_closed a.ws ≡ true)
    → IsIdle config (clear_ready config a)
      × ((clear_ready config a).ws ≡ a.ws)
      × ((clear_ready config a).reconnect_timer ≡ a.reconnect_timer)
unfolding clear_ready remove_ready_file
clear_ready-IsIdle config a f t = (
  record {
    not_ready = ground arith;
    no_file = λ r. ground (arith, f);
    configured = ground (arith, f);
    timer = ground (arith, t);
  },
  ground arith,
  ground arith,
)

pub Same-IsIdle : (config : Config) (a b : Agent) → Same a b → IsIdle config a → IsIdle config b
Same-IsIdle config a b s h =
    let ready : b.ready ≡ a.ready = ap (λ r. r.0) s.same in
    let file : b.ready_file ≡ a.ready_file = ap (λ r. r.1) s.same in
    let ws : b.ws ≡ a.ws = ap (λ r. r.3) s.same in
    let timer : b.reconnect_timer ≡ a.reconnect_timer = ap (λ r. r.5) s.same in
    record {
      not_ready = ready ∙ h.not_ready;
      no_file = λ r. file ∙ h.no_file r;
      configured = rw file h.configured;
      timer = rw (timer, ws) h.timer;
    }
