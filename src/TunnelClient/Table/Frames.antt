-- ===== src/TunnelClient/Table/Frames.antt =====
-- Every frame of the server keeps the tunnel client's table.
use nodejs_wss_service_bridg.Base.{
  ℕ, refl, Bool, true, false, ◌&&◌, ◌||◌, not, List, [], ◌∷◌, Option, none, some, arith, ◌==◌,
  if_both, Result, ok, err,
}
use nodejs_wss_service_bridg.Protocol.{
  Bytes, pause, resume, tcp_data, tcp_close, tcp_abort, req_data, req_end, req_abort,
  parse_json_payload, JsonError,
}
use nodejs_wss_service_bridg.Server.{Json, null, object}
use nodejs_wss_service_bridg.Server.ClientFrames.{json_limit}
use nodejs_wss_service_bridg.TunnelClient.{Net, Config, Client, bad_frame}
use nodejs_wss_service_bridg.TunnelClient.TcpHandler.{
  Handled, handled, not_handled, threw, after_write, write_answered, abort_read, handle_tcp_data,
  handle_tcp_close, handle_tcp_abort, cleanup_tcp_from, peer_paused, handle_stream_frame,
}
use nodejs_wss_service_bridg.TunnelClient.Frames.{
  cleanup_from, handle_req_data, handle_req_end, handle_req_abort, fall_through, known_frame,
}
use nodejs_wss_service_bridg.TunnelClient.Table.{IsClient, change-IsTable, emit-IsTable}
use nodejs_wss_service_bridg.TunnelClient.Table.Handlers.{
  send_frame-IsTable, abort_and_clean-IsTable, reset_idle_timer-IsTable, cleanup_tcp_state-IsTable,
  cleanup_stream-IsTable, sync_socket_read_state-IsTable, send_res_abort-IsTable,
}

after_write-IsTable :
    (net : Net) (ref : ℕ) (taken : Bool) (c : Client)
    → IsClient c
    → IsClient (after_write net ref taken c)
unfolding after_write
after_write-IsTable net ref taken c h =
    let s = c.objects ref in
    if_both IsClient (not taken && not s.local_write_backpressured)
      (send_frame-IsTable net s.ws _ s.id _ _ (change-IsTable ref _ c h refl refl)) h

write_answered-IsTable :
    (net : Net) (ref : ℕ) (payload : Bytes) (c : Client) (answer : Option Bool)
    → IsClient c
    → IsClient (write_answered net ref payload c answer)
unfolding write_answered
write_answered-IsTable net ref payload c none h = abort_and_clean-IsTable net ref _ c h
write_answered-IsTable net ref payload c (some taken) h =
    after_write-IsTable net ref taken _ (emit-IsTable _ c h)

handle_tcp_data-IsTable :
    (net : Net) (config : Config) (ref : ℕ) (payload : Bytes) (c : Client)
    → IsClient c
    → IsClient (handle_tcp_data net config ref payload c)
unfolding handle_tcp_data
handle_tcp_data-IsTable net config ref payload c h =
    let s = c.objects ref in
    let timed = reset_idle_timer-IsTable config ref c h in
    if_both IsClient (not s.is_tcp || (not s.local_socket || c.socket_destroyed ref)) h
      (write_answered-IsTable net ref payload _ (net.socket_write_result ref c.out) timed)

handle_tcp_close-IsTable : (ref : ℕ) (c : Client) → IsClient c → IsClient (handle_tcp_close ref c)
unfolding handle_tcp_close
handle_tcp_close-IsTable ref c h =
    if_both IsClient (c.objects ref).is_tcp (cleanup_tcp_state-IsTable ref c h) h

peer_paused-IsTable :
    (p : Bool) (ref : ℕ) (c : Client) → IsClient c → IsClient (peer_paused p ref c)
unfolding peer_paused
peer_paused-IsTable p ref c h =
    let s = c.objects ref in
    let told = if_both IsClient s.response_writer (emit-IsTable _ c h) h in
    if_both IsClient s.is_tcp
      (sync_socket_read_state-IsTable ref _ (
        change-IsTable ref (record s { peer_paused_read = p }) _ told (ground arith)
          (ground arith)))
      told

pub cleanup_tcp_from-IsTable :
    (refs : List ℕ) (c : Client) → IsClient c → IsClient (cleanup_tcp_from refs c)
unfolding cleanup_tcp_from
cleanup_tcp_from-IsTable [] c h = h
cleanup_tcp_from-IsTable (ref ∷ refs) c h =
    cleanup_tcp_from-IsTable refs _ (handle_tcp_close-IsTable ref c h)

pub cleanup_from-IsTable :
    (refs : List ℕ) (c : Client) → IsClient c → IsClient (cleanup_from refs c)
unfolding cleanup_from
cleanup_from-IsTable [] c h = h
cleanup_from-IsTable (ref ∷ refs) c h = cleanup_from-IsTable refs _ (cleanup_stream-IsTable ref c h)

abbrev First : Client × Handled → Type 0
First p = IsClient p.0

abort_read-IsTable :
    (ref : ℕ) (c : Client) (r : Result JsonError Json) → IsClient c → First (abort_read ref c r)
unfolding abort_read
abort_read-IsTable ref c (ok null) h = h
abort_read-IsTable ref c (ok (object info)) h = cleanup_tcp_state-IsTable ref c h
abort_read-IsTable ref c (err e) h = cleanup_tcp_state-IsTable ref c h

handle_tcp_abort-IsTable :
    (parse : Bytes → Option Json) (ref : ℕ) (payload : Bytes) (c : Client)
    → IsClient c
    → First (handle_tcp_abort parse ref payload c)
unfolding handle_tcp_abort
handle_tcp_abort-IsTable parse ref payload c h =
    if_both First (c.objects ref).is_tcp
      (abort_read-IsTable ref c (parse_json_payload parse json_limit payload) h) h

handle_stream_frame-IsTable :
    (net : Net) (config : Config) (parse : Bytes → Option Json) (type : ℕ) (payload : Bytes)
    (ref : ℕ) (c : Client)
    → IsClient c
    → First (handle_stream_frame net config parse type payload ref c)
unfolding handle_stream_frame
handle_stream_frame-IsTable net config parse type payload ref c h =
    if_both First (type == tcp_data) (handle_tcp_data-IsTable net config ref payload c h) (
      if_both First (type == tcp_close) (handle_tcp_close-IsTable ref c h) (
        if_both First (type == tcp_abort) (handle_tcp_abort-IsTable parse ref payload c h) (
          if_both First (type == pause) (peer_paused-IsTable true ref c h)
            (if_both First (type == resume) (peer_paused-IsTable false ref c h) h))))

handle_req_data-IsTable :
    (net : Net) (ref : ℕ) (payload : Bytes) (c : Client)
    → IsClient c
    → IsClient (handle_req_data net ref payload c)
unfolding handle_req_data
handle_req_data-IsTable net ref payload c h =
    let s = c.objects ref in
    if_both IsClient (s.cleaned || not s.local_req) h (
      if_both IsClient (net.request_accepts ref c.out) (emit-IsTable _ c h)
        (send_res_abort-IsTable net ref _ c h))

handle_req_end-IsTable : (ref : ℕ) (c : Client) → IsClient c → IsClient (handle_req_end ref c)
unfolding handle_req_end
handle_req_end-IsTable ref c h =
    let s = c.objects ref in
    if_both IsClient (s.cleaned || not s.local_req) h
      (emit-IsTable _ _ (change-IsTable ref _ c h refl refl))

handle_req_abort-IsTable :
    (net : Net) (ref : ℕ) (c : Client) → IsClient c → IsClient (handle_req_abort net ref c)
unfolding handle_req_abort
handle_req_abort-IsTable net ref c h = cleanup_stream-IsTable ref _ (
    if_both IsClient ((c.objects ref).local_req && not (net.request_destroyed ref c.out))
      (emit-IsTable _ c h) h)

fall_through-IsTable :
    (net : Net) (type : ℕ) (payload : Bytes) (ref : ℕ) (r : Client × Handled)
    → First r
    → IsClient (fall_through net type payload ref r)
unfolding fall_through
fall_through-IsTable net type payload ref (c, handled) h = h
fall_through-IsTable net type payload ref (c, threw) h =
    send_res_abort-IsTable net ref bad_frame c h
fall_through-IsTable net type payload ref (c, not_handled) h =
    if_both IsClient (type == req_data) (handle_req_data-IsTable net ref payload c h) (
      if_both IsClient (type == req_end) (handle_req_end-IsTable ref c h)
        (if_both IsClient (type == req_abort) (handle_req_abort-IsTable net ref c h) h))

pub known_frame-IsTable :
    (net : Net) (config : Config) (parse : Bytes → Option Json) (ws type : ℕ) (payload : Bytes)
    (ref : ℕ) (c : Client)
    → IsClient c
    → IsClient (known_frame net config parse ws type payload ref c)
unfolding known_frame
known_frame-IsTable net config parse ws type payload ref c h =
    if_both IsClient ((c.objects ref).ws == ws)
      (fall_through-IsTable net type payload ref _ (
        handle_stream_frame-IsTable net config parse type payload ref _
          (reset_idle_timer-IsTable config ref c h)))
      h
