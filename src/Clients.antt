-- ===== src/Clients.antt =====
-- src/server/ClientManager.js: the tunnel clients' WebSockets. A WebSocket is a number; its
-- `readyState === OPEN` and `bufferedAmount` are parameters, and the fields `tunnelId` and `isAlive`
-- that this file sets on it stand in the state.
pub mod Active
pub mod Registry
use nodejs_wss_service_bridg.Base.{
  ℕ, Bool, true, false, ◌&&◌, not, List, [], ◌∷◌, ◌++◌, Option, none, some, ltb, leb, ◌==◌,
  if◌then◌else◌, length, remove, Result, ok, err, ◌>>=◌,
}
use nodejs_wss_service_bridg.Base.Text.{Text, is_empty}
use nodejs_wss_service_bridg.Base.TextMap
use nodejs_wss_service_bridg.TunnelId.{IdError, normalize_tunnel_id}

pub record Sockets : Type 0 where
  pub is_open : ℕ → Bool
  pub buffered_amount : ℕ → ℕ

pub record Clients : Type 0 where
  pub clients : List ℕ
  pub clients_by_tunnel_id : List (Text × ℕ)
  pub tunnel_id : ℕ → Text
  pub is_alive : ℕ → Bool

abbrev pub no_clients : Clients
no_clients = record {
  clients = [];
  clients_by_tunnel_id = [];
  tunnel_id = λ ws. [];
  is_alive = λ ws. true;
}

abbrev pub update {ℓ} : {A : Type ℓ} → (ℕ → A) → ℕ → A → ℕ → A
update f k v j = if k == j then v else f j

pub data TargetError : Type 0 where
  invalid_id : IdError → TargetError
  not_connected : Text → TargetError
  no_client id_required : TargetError

-- `{ ws, tunnelId, error }`: a client with its id, or an error.
pub data Target : Type 0 where
  found : ℕ → Text → Target
  not_found : TargetError → Target

-- How `addClient` ends: accepted, or the socket is closed with a code.
pub data Admission : Type 0 where
  accepted : Admission
  closed : ℕ → Admission

abbrev pub sole_client : Clients → List ℕ → Target
sole_client s [] = not_found no_client
sole_client s (ws ∷ []) = found ws (s.tunnel_id ws)
sole_client s (ws ∷ other ∷ rest) = not_found id_required

abbrev pub named_client : Text → Option ℕ → Target
named_client id none = not_found (not_connected id)
named_client id (some ws) = found ws id

abbrev pub register : Clients → ℕ → Text → Clients
register s ws id = record s {
  clients = s.clients ++ ws ∷ [];
  clients_by_tunnel_id =
      if is_empty id
      then s.clients_by_tunnel_id
      else TextMap.put id ws (TextMap.delete id s.clients_by_tunnel_id);
  tunnel_id = update s.tunnel_id ws id;
  is_alive = update s.is_alive ws true;
}

module _ (sockets : Sockets) where
  abbrev pub better : Option ℕ → ℕ → Option ℕ
  better none ws = some ws
  better (some best) ws =
      if ltb (sockets.buffered_amount ws) (sockets.buffered_amount best) then some ws else some best

  -- The loop of `getActiveClient`.
  unfoldable pub best_from : Option ℕ → List ℕ → Option ℕ
  best_from best [] = best
  best_from best (ws ∷ rest) = best_from (if sockets.is_open ws then better best ws else best) rest

  unfoldable pub get_active_client : Clients → Option ℕ
  unfolding best_from
  get_active_client s = best_from none s.clients

  abbrev pub open_only : Option ℕ → Option ℕ
  open_only none = none
  open_only (some ws) = if sockets.is_open ws then some ws else none

  unfoldable pub get_client_by_tunnel_id : Clients → Text → Result IdError (Option ℕ)
  get_client_by_tunnel_id s id = do
    normalized ← normalize_tunnel_id false (some id)
    ok (
        if is_empty normalized
        then none
        else open_only (TextMap.get normalized s.clients_by_tunnel_id))

  unfoldable pub open_clients : List ℕ → List ℕ
  open_clients [] = []
  open_clients (ws ∷ rest) =
      if sockets.is_open ws then ws ∷ open_clients rest else open_clients rest

  -- `err` is an exception that leaves the method.
  unfoldable pub resolve_target_client : Clients → Text → Result IdError Target
  resolve_target_client s id = elim (normalize_tunnel_id false (some id)) [
    | err e ↦ ok (not_found (invalid_id e))
    | ok normalized ↦
        if is_empty normalized
        then ok (sole_client s (open_clients s.clients))
        else get_client_by_tunnel_id s normalized >>= λ ws. ok (named_client normalized ws)
  ]

  abbrev pub taken : Option ℕ → Bool
  taken none = false
  taken (some ws) = sockets.is_open ws

  unfoldable pub add_client : ℕ → Clients → ℕ → Text → Clients × Admission
  add_client max_tunnel_clients s ws tunnel_id = elim (normalize_tunnel_id false (some tunnel_id)) [
    | err e ↦ (s, closed 1008)
    | ok normalized ↦
        if leb max_tunnel_clients (length s.clients)
        then (s, closed 1013)
        else if not (is_empty normalized) && taken (TextMap.get normalized s.clients_by_tunnel_id)
        then (s, closed 1008)
        else (register s ws normalized, accepted)
  ]

abbrev same_client : Option ℕ → ℕ → Bool
same_client none ws = false
same_client (some other) ws = other == ws

-- `cleanupClient` up to its loop over the streams; `on_client_closed` of Server/Disconnect is the whole.
unfoldable pub cleanup_client : Clients → ℕ → Clients
cleanup_client s ws = record s {
  clients = remove ws s.clients;
  clients_by_tunnel_id =
      if not (is_empty (s.tunnel_id ws))
        && same_client (TextMap.get (s.tunnel_id ws) s.clients_by_tunnel_id) ws
      then TextMap.delete (s.tunnel_id ws) s.clients_by_tunnel_id
      else s.clients_by_tunnel_id;
}

unfoldable pub pong : Clients → ℕ → Clients
pong s ws = record s { is_alive = update s.is_alive ws true }

pub data Beat : Type 0 where
  terminate ping : ℕ → Beat

-- The heartbeat's loop: a client that has not answered since the last beat is terminated.
unfoldable pub heartbeat_from : (ℕ → Bool) → List ℕ → (ℕ → Bool) × List Beat
heartbeat_from alive [] = (alive, [])
heartbeat_from alive (ws ∷ rest) =
    let (later, beats) = heartbeat_from (if alive ws then update alive ws false else alive) rest in
    (later, (if alive ws then ping ws else terminate ws) ∷ beats)

unfoldable pub heartbeat : Clients → Clients × List Beat
unfolding heartbeat_from
heartbeat s =
    let (alive, beats) = heartbeat_from s.is_alive s.clients in
    (record s { is_alive = alive }, beats)
