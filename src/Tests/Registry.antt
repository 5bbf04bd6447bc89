-- ===== src/Tests/Registry.antt =====
-- The registry of tunnel clients at concrete inputs.
use nodejs_wss_service_bridg.Base.{ℕ, ◌≡◌, ◌≢◌, refl, arith, true, false, [], some, ok, has, map}
use nodejs_wss_service_bridg.Base.Text.{Text, codes}
use nodejs_wss_service_bridg.Base.TextMap
use nodejs_wss_service_bridg.Clients.{
  Sockets, Clients, Target, found, add_client, cleanup_client, heartbeat, terminate, no_clients,
  get_active_client, resolve_target_client, register,
}
use nodejs_wss_service_bridg.Clients.Active.{
  Chosen, IsTarget, get_active_client-Chosen, resolve_target_client_lem,
}
use nodejs_wss_service_bridg.Clients.Registry.{
  IsRegistry, beats_of, add_client-IsRegistry, cleanup_client-IsRegistry, heartbeat_twice,
  no_clients-IsRegistry, register-IsRegistry,
}

abbrev all_open : Sockets
all_open = record { is_open = λ ws. true; buffered_amount = λ ws. ws }

-- Two clients, one of them with an id.
abbrev one : Clients
one = register no_clients 4 (codes "a")

one-IsRegistry : IsRegistry 3 one
one-IsRegistry =
    register-IsRegistry 3 no_clients 4 (codes "a") (no_clients-IsRegistry 3) refl (omega arith)

abbrev two : Clients
two = register one 5 []

two-IsRegistry : IsRegistry 3 two
two-IsRegistry = register-IsRegistry 3 one 5 [] one-IsRegistry refl (omega arith)

add_client-IsRegistry_example : IsRegistry 3 (add_client all_open 3 two 6 (codes "b")).0
add_client-IsRegistry_example =
    add_client-IsRegistry all_open 3 two 6 (codes "b") two-IsRegistry refl

cleanup_client-IsRegistry_example :
    IsRegistry 3 (cleanup_client two 4)
    × (has 4 (cleanup_client two 4).clients ≡ false)
    × ((id : Text) → TextMap.get id (cleanup_client two 4).clients_by_tunnel_id ≢ some 4)
cleanup_client-IsRegistry_example = cleanup_client-IsRegistry 3 two 4 two-IsRegistry

heartbeat_twice_example :
    ((heartbeat two).1 ≡ beats_of two.is_alive two.clients)
    × ((heartbeat (heartbeat two).0).1 ≡ map terminate two.clients)
heartbeat_twice_example = heartbeat_twice 3 two two-IsRegistry

get_active_client-Chosen_example : Chosen all_open two.clients (get_active_client all_open two)
get_active_client-Chosen_example = get_active_client-Chosen all_open two

resolve_target_client_lem_example :
    (t : Target) × (resolve_target_client all_open two (codes "a") ≡ ok t)
    × ((ws : ℕ) (named : Text)
        → t ≡ found ws named
        → (all_open.is_open ws ≡ true) × IsTarget all_open two (codes "a") ws named)
resolve_target_client_lem_example = resolve_target_client_lem all_open two (codes "a")
