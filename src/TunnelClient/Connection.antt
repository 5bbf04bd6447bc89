-- ===== src/TunnelClient/Connection.antt =====
-- serve/client.js: the tunnel's WebSocket, its heartbeat, the ready file and the reconnection. The
-- variable `ws` is `connected_once`: whether it is not null.
use Prim.Native.Nat.{min}
use text.Mathlib.Text.{◌==◌ as str_eq}
use nodejs_wss_service_bridg.Base.{
  ℕ, zero, suc, ◌+◌, ◌*◌, ◌^◌, ◌≡◌, refl, ◌∙◌, Bool, true, false, ◌||◌, List, ◌∷◌, String, arith,
  if◌then◌else◌, if_true,
}
use nodejs_wss_service_bridg.TunnelClient.{Client}
use nodejs_wss_service_bridg.TunnelClient.Frames.{cleanup_all_streams}

pub data Call : Type 0 where
  new_websocket close_websocket ping exit_soon : Call

-- `ready` says that the ready file is there, and the timers that they are set.
pub record Connection : Type 0 where
  pub connected_once : Bool
  pub reconnect_timer : Bool
  pub reconnect_delay : ℕ
  pub reconnect_attempt : ℕ
  pub heartbeat_interval : Bool
  pub auth_failed : Bool
  pub shutting_down : Bool
  pub ready : Bool
  pub client : Client
  pub calls : List Call

abbrev pub call : Call → Connection → Connection
call x c = record c { calls = x ∷ c.calls }

abbrev pub close_current : Connection → Connection
close_current c = if c.connected_once then call close_websocket c else c

-- `connect`
unfoldable pub connect : Connection → Connection
connect c = record (call new_websocket (close_current c)) { connected_once = true }

-- The listener of `open`; `written` says that the ready file could be written.
unfoldable pub on_open : Bool → Connection → Connection
on_open written c = record c {
  reconnect_delay = 1000;
  reconnect_attempt = 0;
  auth_failed = false;
  ready = written || c.ready;
  heartbeat_interval = true;
}

-- The timer of the heartbeat, for a WebSocket that is open or not.
unfoldable pub on_heartbeat : Bool → Connection → Connection
on_heartbeat is_open c = if is_open then call ping c else c

-- `scheduleReconnect`
unfoldable pub schedule_reconnect : Connection → Connection
schedule_reconnect c =
    if c.auth_failed || c.shutting_down
    then c
    else record c { reconnect_timer = true; reconnect_delay = min (c.reconnect_delay * 2) 30000 }

-- The listener of `close`.
unfoldable pub on_disconnect : Connection → Connection
unfolding schedule_reconnect
on_disconnect c =
    schedule_reconnect (record c {
      ready = false;
      heartbeat_interval = false;
      client = cleanup_all_streams c.client;
    })

-- The listener of `error`.
unfoldable pub on_connect_error : String → Connection → Connection
on_connect_error text c =
    if str_eq text "Unexpected server response: 401"
    then record c { auth_failed = true; ready = false }
    else c

-- The timer of the reconnection.
unfoldable pub on_reconnect_timer : Connection → Connection
unfolding connect
on_reconnect_timer c =
    connect (record c { reconnect_timer = false; reconnect_attempt = c.reconnect_attempt + 1 })

unfoldable pub shutdown : Connection → Connection
shutdown c =
    let stopped = record c {
      shutting_down = true;
      ready = false;
      heartbeat_interval = false;
      reconnect_timer = false;
    } in
    if c.shutting_down then c else call exit_soon (close_current stopped)

-- The connection is lost `n` times and never opens again; the timer runs out where it is set.
unfoldable pub lost : ℕ → Connection → Connection
unfolding on_disconnect on_reconnect_timer
lost zero c = c
lost (suc n) c =
    let d = on_disconnect (lost n c) in if d.reconnect_timer then on_reconnect_timer d else d

-- What `n` failures leave.
pub record BacksOff (n : ℕ) (c d : Connection) : Type 0 where
  pub delay : d.reconnect_delay ≡ min (2 ^ n * 1000) 30000
  pub attempts : d.reconnect_attempt ≡ c.reconnect_attempt + n
  pub still_wanted : d.auth_failed ≡ false
  pub still_running : d.shutting_down ≡ false

connect-keeps :
    (c : Connection)
    → ((connect c).reconnect_delay ≡ c.reconnect_delay)
      × ((connect c).reconnect_attempt ≡ c.reconnect_attempt)
      × ((connect c).auth_failed ≡ c.auth_failed)
      × ((connect c).shutting_down ≡ c.shutting_down)
unfolding connect
connect-keeps c = ground arith

on_disconnect-schedules :
    (c : Connection)
    → c.auth_failed ≡ false
    → c.shutting_down ≡ false
    → ((on_disconnect c).reconnect_delay ≡ min (c.reconnect_delay * 2) 30000)
      × ((on_disconnect c).reconnect_attempt ≡ c.reconnect_attempt)
      × ((on_disconnect c).reconnect_timer ≡ true)
      × ((on_disconnect c).auth_failed ≡ false)
      × ((on_disconnect c).shutting_down ≡ false)
unfolding on_disconnect schedule_reconnect
on_disconnect-schedules c a s = rw (a, s) (refl, refl, refl, refl, refl)

min-doubled : (a : ℕ) → min (min a 30000 * 2) 30000 ≡ min (2 * a) 30000
min-doubled a = omega arith

-- A client whose delay is a second, which is not refused and does not shut down, sets its timer at
-- every loss of its WebSocket: after `n` losses with no opening in between it has made `n` more
-- attempts, and the delay is a second doubled `n` times, thirty seconds at most.
pub lost-BacksOff :
    (n : ℕ) (c : Connection)
    → c.reconnect_delay ≡ 1000
    → c.auth_failed ≡ false
    → c.shutting_down ≡ false
    → BacksOff n c (lost n c)
unfolding lost on_reconnect_timer
lost-BacksOff zero c d a s = record {
  delay = d;
  attempts = omega arith;
  still_wanted = a;
  still_running = s;
}
lost-BacksOff (suc n) c d a s =
    let ih = lost-BacksOff n c d a s in
    let c' = lost n c in
    let (delay, attempts, timer, wanted, running) =
      on_disconnect-schedules c' ih.still_wanted ih.still_running in
    let (delay', attempts', wanted', running') = connect-keeps (record (on_disconnect c') {
      reconnect_timer = false;
      reconnect_attempt = (on_disconnect c').reconnect_attempt + 1;
    }) in
    rw (if_true (on_disconnect c') timer) (record {
      delay = omega (arith, delay', delay, ih.delay);
      attempts = omega (arith, attempts', attempts, ih.attempts);
      still_wanted = wanted' ∙ wanted;
      still_running = running' ∙ running;
    })
