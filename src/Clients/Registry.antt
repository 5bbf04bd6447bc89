-- ===== src/Clients/Registry.antt =====
-- The registry of tunnel clients: its invariant under every operation.
use nodejs_wss_service_bridg.Base.{
  ℕ, ◌≤◌, ◌<◌, ◌≡◌, ◌≢◌, refl, Bool, true, false, List, [], ◌∷◌, some, arith, leb, if◌then◌else◌,
  has, has-append, has-remove_ne, length, length-append, Distinct, Distinct-snoc, Bool-cases,
  Result-cases, inl, inr, ==_iff, if_both, ap, ◌⊎◌, length-remove-le, remove-Distinct, ◌∙◌, map,
}
use nodejs_wss_service_bridg.Base.Text.{Text, is_empty, is_empty-eq-true, text_eq, text_eq_iff}
use nodejs_wss_service_bridg.Base.TextMap
use nodejs_wss_service_bridg.TunnelId.{normalize_tunnel_id}
use nodejs_wss_service_bridg.Clients.{
  Sockets, Clients, no_clients, update, add_client, cleanup_client, heartbeat, heartbeat_from,
  Admission, register, Beat, ping, terminate,
}

-- At most `max` clients, none twice; an id leads to a connected client that carries this id.
pub record IsRegistry (max : ℕ) (s : Clients) : Type 0 where
  pub bounded : length s.clients ≤ max
  pub distinct : Distinct s.clients
  pub connected :
      (id : Text) (ws : ℕ)
      → TextMap.get id s.clients_by_tunnel_id ≡ some ws
      → has ws s.clients ≡ true
  pub carried :
      (id : Text) (ws : ℕ) → TextMap.get id s.clients_by_tunnel_id ≡ some ws → s.tunnel_id ws ≡ id
  pub named : (id : Text) (ws : ℕ) → TextMap.get id s.clients_by_tunnel_id ≡ some ws → id ≢ []

pub no_clients-IsRegistry : (max : ℕ) → IsRegistry max no_clients
unfolding TextMap.get
no_clients-IsRegistry max = record {
  bounded = omega arith;
  distinct = tt;
  connected = λ id ws e. ground arith;
  carried = λ id ws e. ground arith;
  named = λ id ws e n. ground arith;
}

get-register :
    (s : Clients) (ws : ℕ) (id j : Text)
    → TextMap.get j (register s ws id).clients_by_tunnel_id ≡ (
        if is_empty id
        then TextMap.get j s.clients_by_tunnel_id
        else if text_eq id j
        then some ws
        else TextMap.get j s.clients_by_tunnel_id)
get-register s ws id j = ground (
  arith,
  TextMap.get-put j id ws (TextMap.delete id s.clients_by_tunnel_id),
  TextMap.get-delete j id s.clients_by_tunnel_id,
)

pub register-IsRegistry :
    (max : ℕ) (s : Clients) (ws : ℕ) (id : Text)
    → IsRegistry max s
    → has ws s.clients ≡ false
    → length s.clients < max
    → IsRegistry max (register s ws id)
register-IsRegistry max s ws id r fresh room = record {
  bounded = omega (arith, length-append s.clients (ws ∷ []));
  distinct = Distinct-snoc s.clients ws r.distinct fresh;
  connected = λ j v e.
      ground (arith, get-register s ws id j, r.connected j v, has-append v s.clients (ws ∷ []));
  carried = λ j v e. ground (
    arith,
    get-register s ws id j,
    r.connected j v,
    r.carried j v,
    text_eq_iff id j,
    ==_iff ws v,
  );
  named = λ j v e n.
      ground (arith, get-register s ws id j, r.named j v, text_eq_iff id j, is_empty-eq-true id);
}

-- `addClient` keeps the registry well formed, for a WebSocket that is not yet a client.
pub add_client-IsRegistry :
    (sockets : Sockets) (max : ℕ) (s : Clients) (ws : ℕ) (id : Text)
    → IsRegistry max s
    → has ws s.clients ≡ false
    → IsRegistry max (add_client sockets max s ws id).0
unfolding add_client
add_client-IsRegistry sockets max s ws id r fresh =
    elim (Result-cases (normalize_tunnel_id false (some id))) [
      | inr (e, bad) ↦ rw (bad, add_client) r
      | inl (n, good) ↦
          rw (good, add_client)
            (elim (Bool-cases (leb max (length s.clients))) [
              | inl full ↦ rw full r
              | inr room ↦ rw room (
                  if_both (λ (p : Clients × Admission). IsRegistry max p.0) _ r
                    (register-IsRegistry max s ws n r fresh (ground arith)))
            ])
    ]

get-cleanup_client :
    (max : ℕ) (s : Clients) (ws v : ℕ) (j : Text)
    → IsRegistry max s
    → TextMap.get j (cleanup_client s ws).clients_by_tunnel_id ≡ some v
    → (TextMap.get j s.clients_by_tunnel_id ≡ some v) × (v ≢ ws)
unfolding cleanup_client
get-cleanup_client max s ws v j r e = ground (
  arith,
  TextMap.get-delete j (s.tunnel_id ws) s.clients_by_tunnel_id,
  r.carried j v,
  r.named j v,
  text_eq_iff (s.tunnel_id ws) j,
  is_empty-eq-true (s.tunnel_id ws),
)

-- `cleanupClient` keeps the registry well formed, and after it the WebSocket is no client and no id
-- leads to it.
pub cleanup_client-IsRegistry :
    (max : ℕ) (s : Clients) (ws : ℕ)
    → IsRegistry max s
    → IsRegistry max (cleanup_client s ws)
      × (has ws (cleanup_client s ws).clients ≡ false)
      × ((id : Text) → TextMap.get id (cleanup_client s ws).clients_by_tunnel_id ≢ some ws)
unfolding cleanup_client
cleanup_client-IsRegistry max s ws r = (
  record {
    bounded = omega (arith, length-remove-le ws s.clients);
    distinct = (remove-Distinct ws s.clients r.distinct).0;
    connected = λ j v e.
        let (old, other) = get-cleanup_client max s ws v j r e in
        has-remove_ne v ws s.clients other ∙ r.connected j v old;
    carried = λ j v e. r.carried j v (get-cleanup_client max s ws v j r e).0;
    named = λ j v e. r.named j v (get-cleanup_client max s ws v j r e).0;
  },
  (remove-Distinct ws s.clients r.distinct).1,
  λ j e. (get-cleanup_client max s ws ws j r e).1 refl,
)

-- A ping to each client that has answered, and the end of each that has not.
abbrev pub beats_of : (ℕ → Bool) → List ℕ → List Beat
beats_of alive [] = []
beats_of alive (x ∷ list) = (if alive x then ping x else terminate x) ∷ beats_of alive list

beats_of-update :
    (alive : ℕ → Bool) (x : ℕ) (b : Bool) (list : List ℕ)
    → has x list ≡ false
    → beats_of (update alive x b) list ≡ beats_of alive list
beats_of-update alive x b [] h = refl
beats_of-update alive x b (y ∷ list) h =
    ground (arith, beats_of-update alive x b list, ==_iff x y, ==_iff y x)

heartbeat_from-beats_of :
    (list : List ℕ) (alive : ℕ → Bool)
    → Distinct list
    → (heartbeat_from alive list).1 ≡ beats_of alive list
unfolding heartbeat_from
heartbeat_from-beats_of [] alive d = refl
heartbeat_from-beats_of (x ∷ list) alive d = elim (Bool-cases (alive x)) [
  | inl up ↦ rw up (
      ap (λ r. ping x ∷ r)
        (heartbeat_from-beats_of list (update alive x false) d.1
          ∙ beats_of-update alive x false list d.0))
  | inr down ↦ rw down (ap (λ r. terminate x ∷ r) (heartbeat_from-beats_of list alive d.1))
]

heartbeat_from_down :
    (list : List ℕ) (alive : ℕ → Bool) (v : ℕ)
    → ((has v list ≡ true) ⊎ (alive v ≡ false))
    → (heartbeat_from alive list).0 v ≡ false
unfolding heartbeat_from
heartbeat_from_down [] alive v h = ground arith
heartbeat_from_down (x ∷ list) alive v h =
    heartbeat_from_down list (if alive x then update alive x false else alive) v (ground arith)

beats_of_down :
    (list : List ℕ) (alive : ℕ → Bool)
    → ((v : ℕ) → has v list ≡ true → alive v ≡ false)
    → beats_of alive list ≡ map terminate list
beats_of_down [] alive h = refl
beats_of_down (x ∷ list) alive h =
    rw (h x (ground arith))
      (ap (λ r. terminate x ∷ r) (beats_of_down list alive (λ v m. h v (ground arith))))

-- At a well-formed registry a beat pings the clients that have answered since the last one and ends the others; a second beat
-- with no answer in between ends every client.
pub heartbeat_twice :
    (max : ℕ) (s : Clients)
    → IsRegistry max s
    → ((heartbeat s).1 ≡ beats_of s.is_alive s.clients)
      × ((heartbeat (heartbeat s).0).1 ≡ map terminate s.clients)
unfolding heartbeat
heartbeat_twice max s r = (
  heartbeat_from-beats_of s.clients s.is_alive r.distinct,
  heartbeat_from-beats_of s.clients _ r.distinct
      ∙ beats_of_down s.clients _ (λ v m. heartbeat_from_down s.clients s.is_alive v (inl m)),
)
