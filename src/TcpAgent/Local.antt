-- ===== src/TcpAgent/Local.antt =====
-- serve/tcp-agent.js: local connections that wait for the server's answer (`createLocalListener`).
use nodejs_wss_service_bridg.Base.{
  ℕ, ◌+◌, ◌-◌, ◌^◌, Bool, not, List, [], ◌∷◌, ◌++◌, Option, none, some, ◌==◌, leb, remove, has,
  if◌then◌else◌,
}
use nodejs_wss_service_bridg.Base.Text.{Text, is_empty}
use nodejs_wss_service_bridg.PortParser.{Route}
use nodejs_wss_service_bridg.Protocol.{tcp_connect}
use nodejs_wss_service_bridg.TcpAgent.{
  ConnectInfo, connect_info, send, Net, Config, Pending, Agent, emit, ws_ready, destroy,
}
use nodejs_wss_service_bridg.TcpAgent.Ready.{mark_ready_if_eligible, clear_ready}

abbrev pub max_safe_integer : ℕ
max_safe_integer = 2 ^ 53 - 1

-- `allocateConnectRequestId`: the id, and the next one.
unfoldable pub allocate_connect_request_id : ℕ → ℕ × ℕ
allocate_connect_request_id next = (next, if leb max_safe_integer next then 1 else next + 1)

-- The first element with a property is spliced out: it and the rest, or `none` for the index -1.
unfoldable pub splice_first : (Pending → Bool) → List Pending → Option (Pending × List Pending)
splice_first p [] = none
splice_first p (x ∷ xs) =
    if p x
    then some (x, xs)
    else elim (splice_first p xs) [ none ↦ none | some (y, ys) ↦ some (y, x ∷ ys) ]

abbrev pub remaining : List Pending → Option (Pending × List Pending) → List Pending
remaining xs none = xs
remaining xs (some (y, ys)) = ys

-- `removePending`
unfoldable pub remove_pending : ℕ → Agent → Agent
unfolding splice_first
remove_pending socket a = record a {
  pending_connects =
      remaining a.pending_connects
        (splice_first (λ e. e.local_socket == socket) a.pending_connects);
}

-- The listeners of `error` and `close` that a local socket has from its start.
unfoldable pub on_pending_error : ℕ → Agent → Agent
unfolding remove_pending
on_pending_error socket a = destroy socket (remove_pending socket a)

abbrev pub target_field : Text → Option Text
target_field id = if is_empty id then none else some id

-- `entry` and `connectInfo` of a connection, by its request id.
abbrev pub pending_of : Route → ℕ → ℕ → Pending
pending_of route socket id = record {
  local_socket = socket;
  local_port = route.local_port;
  target_port = route.target_port;
  target_tunnel_id = route.target_tunnel_id;
  request_id = id;
}

abbrev pub connect_info_of : Route → ℕ → ConnectInfo
connect_info_of route id = record {
  port = route.target_port;
  request_id = id;
  target_tunnel_id = target_field route.target_tunnel_id;
}

-- The id is taken and `entry` pushed.
unfoldable pub push_pending : Route → ℕ → Agent → Agent
unfolding allocate_connect_request_id
push_pending route socket a =
    let (id, next) = allocate_connect_request_id a.next_connect_request_id in
    record a {
      next_connect_request_id = next;
      pending_connects = a.pending_connects ++ pending_of route socket id ∷ [];
    }

-- A new connection at the listener of a route.
unfoldable pub on_connection : Net → Route → ℕ → Agent → Agent
unfolding push_pending remove_pending
on_connection net route socket a =
    if not (ws_ready a)
    then destroy socket a
    else if net.accepts a.out
    then emit (send tcp_connect 0 (connect_info (connect_info_of route a.next_connect_request_id)))
        (push_pending route socket a)
    else destroy socket (remove_pending socket (push_pending route socket a))

-- A listener is listening, or has closed.
unfoldable pub on_listening : Net → Config → ℕ → Agent → Agent
unfolding mark_ready_if_eligible
on_listening net config port a = mark_ready_if_eligible net config (record a {
  listening_ports =
      if has port a.listening_ports then a.listening_ports else a.listening_ports ++ port ∷ [];
})

unfoldable pub on_listener_close : Config → ℕ → Agent → Agent
unfolding clear_ready
on_listener_close config port a =
    clear_ready config (record a { listening_ports = remove port a.listening_ports })
