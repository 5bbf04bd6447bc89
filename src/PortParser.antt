-- ===== src/PortParser.antt =====
-- src/shared/port-parser.js: the strict parsers of AGENT_PORTS and AGENT_ROUTES. A value that is
-- not a string is `none`. `Number` rounds only above 2 ^ 53, far outside the range of a port, so
-- the exact value of a decimal numeral decides the range tests as the source does.
pub mod Ports
pub mod Routes
use nodejs_wss_service_bridg.Base.{
  ℕ, suc, ◌-◌, ◌≤◌, ◌≡◌, Bool, true, false, ◌&&◌, ◌||◌, List, [], ◌∷◌, ◌++◌, Option, none, some,
  ltb, leb, ◌==◌, if◌then◌else◌, length, take, drop, has, Result, ok, err, ◌>>=◌,
}
use nodejs_wss_service_bridg.Base.Text.{
  Text, trim, split, is_empty, is_decimal, decimal, index_of, last_index_of,
}
use nodejs_wss_service_bridg.TunnelId.{IdError, normalize_tunnel_id}

pub data ParseError : Type 0 where
  missing empty_entry non_numeric out_of_range bad_entry bad_target : ParseError
  duplicate : ℕ → ParseError
  bad_tunnel_id : IdError → ParseError

abbrev pub is_port : ℕ → Bool
is_port port = leb 1 port && leb port 65535

-- The checks on one token, which both parsers make.
unfoldable pub parse_port : Text → Result ParseError ℕ
parse_port token =
    if is_decimal token
    then (if is_port (decimal 0 token) then ok (decimal 0 token) else err out_of_range)
    else err non_numeric

-- The loop of `parseAgentPorts`, with the ports so far and the set `seen`.
unfoldable pub parse_tokens : List Text → List ℕ → List ℕ → Result ParseError (List ℕ)
parse_tokens [] ports seen = ok ports
parse_tokens (raw_token ∷ tokens) ports seen =
    let token = trim raw_token in
    if is_empty token
    then err empty_entry
    else parse_port token >>= λ port.
        let rest = parse_tokens tokens (ports ++ port ∷ []) (seen ++ port ∷ []) in
        if has port seen then err (duplicate port) else rest

unfoldable pub parse_agent_ports : Option Text → Result ParseError (List ℕ)
parse_agent_ports none = err missing
parse_agent_ports (some raw) =
    if is_empty (trim raw) then err missing else parse_tokens (split b',' raw) [] []

pub record Route : Type 0 where
  pub local_port : ℕ
  pub target_tunnel_id : Text
  pub target_port : ℕ

-- `parseRoutePort`
unfoldable pub parse_route_port : Text → Result ParseError ℕ
parse_route_port raw = parse_port (trim raw)

-- `x <= 0 || x === length - 1` at the result of a search, where `none` is -1.
abbrev pub position : Option ℕ → Text → Option ℕ
position none s = none
position (some i) s = if i == 0 || suc i == length s then none else some i

abbrev pub or_throw {ℓ} : {A : Type ℓ} → Option A → ParseError → Result ParseError A
or_throw none e = err e
or_throw (some a) e = ok a

abbrev pub as_parse_error : Result IdError Text → Result ParseError Text
as_parse_error (ok s) = ok s
as_parse_error (err e) = err (bad_tunnel_id e)

-- The part of an entry behind its local port.
unfoldable pub parse_target : ℕ → Text → Result ParseError Route
parse_target local_port target_spec = do
  colon ← or_throw (position (last_index_of b':' target_spec) target_spec) bad_target
  id ← as_parse_error (normalize_tunnel_id true (some (take colon target_spec)))
  port ← parse_route_port (drop (suc colon) target_spec)
  ok (record { local_port = local_port; target_tunnel_id = id; target_port = port })

-- One round of the loop of `parseAgentRoutes`.
unfoldable pub parse_entry : Text → List ℕ → Result ParseError Route
parse_entry raw_entry seen =
    let entry = trim raw_entry in
    if is_empty entry then err empty_entry else do
      eq ← or_throw (position (index_of b'=' entry) entry) bad_entry
      local_port ← parse_route_port (take eq entry)
      if has local_port seen
          then err (duplicate local_port)
          else parse_target local_port (trim (drop (suc eq) entry))

unfoldable pub parse_entries : List Text → List Route → List ℕ → Result ParseError (List Route)
parse_entries [] routes seen = ok routes
parse_entries (raw_entry ∷ entries) routes seen = parse_entry raw_entry seen >>= λ route.
    parse_entries entries (routes ++ route ∷ []) (seen ++ route.local_port ∷ [])

unfoldable pub parse_agent_routes : Option Text → Result ParseError (List Route)
parse_agent_routes none = err missing
parse_agent_routes (some raw) =
    if is_empty (trim raw) then err missing else parse_entries (split b',' raw) [] []
