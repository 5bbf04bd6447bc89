-- ===== src/Clients/Active.antt =====
-- The choice of a tunnel client.
use nodejs_wss_service_bridg.Base.{
  ℕ, ◌≤◌, ◌≡◌, ◌⊎◌, ◌≢◌, inl, inr, refl, true, false, List, [], ◌∷◌, Option, none, some, arith, ltb,
  has, ok, Bool-cases, ==_iff, Result-cases, Option-cases,
}
use nodejs_wss_service_bridg.Base.Text.{Text, is_empty, is_empty-eq-true}
use nodejs_wss_service_bridg.Base.TextMap
use nodejs_wss_service_bridg.TunnelId.{normalize_tunnel_id}
use nodejs_wss_service_bridg.TunnelId.Laws.{normalize_tunnel_id_sound, normalize_tunnel_id_complete}
use nodejs_wss_service_bridg.Clients.{
  Sockets, Clients, best_from, get_active_client, open_clients, resolve_target_client,
  get_client_by_tunnel_id, Target, found, not_found, invalid_id, sole_client, named_client,
  open_only,
}

module _ (sockets : Sockets) where
  -- An open client of the list, with no more buffered than any open client of the list.
  pub record IsBest (list : List ℕ) (ws : ℕ) : Type 0 where
    pub connected : has ws list ≡ true
    pub open_now : sockets.is_open ws ≡ true
    pub least :
        (v : ℕ)
        → has v list ≡ true
        → sockets.is_open v ≡ true
        → sockets.buffered_amount ws ≤ sockets.buffered_amount v

  record Follows (best : ℕ) (list : List ℕ) (ws : ℕ) : Type 0 where
    from : (ws ≡ best) ⊎ ((has ws list ≡ true) × (sockets.is_open ws ≡ true))
    under : sockets.buffered_amount ws ≤ sockets.buffered_amount best
    least :
        (v : ℕ)
        → has v list ≡ true
        → sockets.is_open v ≡ true
        → sockets.buffered_amount ws ≤ sockets.buffered_amount v

  best_from-Follows :
      (best : ℕ) (list : List ℕ)
      → (ws : ℕ) × (best_from sockets (some best) list ≡ some ws) × Follows best list ws
  unfolding best_from
  best_from-Follows best [] = (
    best,
    refl,
    record { from = inl refl; under = omega arith; least = λ v h. absurd (ground arith) },
  )
  best_from-Follows best (x ∷ list) = elim (Bool-cases (sockets.is_open x)) [
    | inr shut ↦
        let (ws, e, f) = best_from-Follows best list in
        (
          ws,
          rw shut e,
          record {
            from = ground (arith, f.from);
            under = f.under;
            least = λ v h o. ground (arith, f.least v);
          },
        )
    | inl up ↦ elim (Bool-cases (ltb (sockets.buffered_amount x) (sockets.buffered_amount best))) [
      | inl less ↦
          let (ws, e, f) = best_from-Follows x list in
          (
            ws,
            rw (up, less) e,
            record {
              from = ground (arith, f.from, ==_iff ws x);
              under = ground (arith, f.under);
              least = λ v h o. ground (arith, f.least v, f.under);
            },
          )
      | inr more ↦
          let (ws, e, f) = best_from-Follows best list in
          (
            ws,
            rw (up, more) e,
            record {
              from = ground (arith, f.from);
              under = f.under;
              least = λ v h o. ground (arith, f.least v, f.under);
            },
          )
    ]
  ]

  abbrev pub Chosen : List ℕ → Option ℕ → Type 0
  Chosen list none = (v : ℕ) → has v list ≡ true → sockets.is_open v ≡ false
  Chosen list (some ws) = IsBest list ws

  Chosen-skip :
      (x : ℕ) (list : List ℕ) (o : Option ℕ)
      → sockets.is_open x ≡ false
      → Chosen list o
      → Chosen (x ∷ list) o
  Chosen-skip x list none shut c = λ v h. ground (arith, c v, ==_iff x v)
  Chosen-skip x list (some ws) shut c = record {
    connected = ground (arith, c.connected);
    open_now = c.open_now;
    least = λ v h o. ground (arith, c.least v, ==_iff x v);
  }

  best_from-Chosen : (list : List ℕ) → Chosen list (best_from sockets none list)
  unfolding best_from
  best_from-Chosen [] = λ v h. absurd (ground arith)
  best_from-Chosen (x ∷ list) = elim (Bool-cases (sockets.is_open x)) [
    | inl up ↦
        let (ws, e, f) = best_from-Follows x list in
        rw (up, e)
          (record {
            connected = ground (arith, f.from, ==_iff x ws);
            open_now = ground (arith, f.from);
            least = λ v h o. ground (arith, f.least v, f.under);
          })
    | inr shut ↦
        rw shut (Chosen-skip x list (best_from sockets none list) shut (best_from-Chosen list))
  ]

  -- `getActiveClient` returns a connected open client with the least buffered, and null exactly when
  -- no connected client is open.
  pub get_active_client-Chosen : (s : Clients) → Chosen s.clients (get_active_client sockets s)
  unfolding get_active_client
  get_active_client-Chosen s = best_from-Chosen s.clients

  open_clients-is_open :
      (list : List ℕ) (v : ℕ)
      → has v (open_clients sockets list) ≡ true
      → (has v list ≡ true) × (sockets.is_open v ≡ true)
  unfolding open_clients
  open_clients-is_open [] v h = absurd (ground arith)
  open_clients-is_open (x ∷ list) v h = ground (arith, open_clients-is_open list v, ==_iff x v)

  -- Why a client is the target of a request for an id: it is the one registered under the id, or no
  -- id is asked for and it is the only open client.
  abbrev pub IsTarget : Clients → Text → ℕ → Text → Type 0
  IsTarget s id ws named =
      ((normalize_tunnel_id false (some id) ≡ ok named)
        × (named ≢ [])
        × (TextMap.get named s.clients_by_tunnel_id ≡ some ws))
      ⊎ ((normalize_tunnel_id false (some id) ≡ ok [])
          × (open_clients sockets s.clients ≡ ws ∷ [])
          × (named ≡ s.tunnel_id ws))

  own_normal_form :
      (id n : Text)
      → normalize_tunnel_id false (some id) ≡ ok n
      → is_empty n ≡ false
      → normalize_tunnel_id false (some n) ≡ ok n
  own_normal_form id n good full = elim (normalize_tunnel_id_sound false (some id) n good) [
    | inl (_, blank) ↦ absurd (ground arith)
    | inr valid ↦ normalize_tunnel_id_complete false n valid
  ]

  sole_client_sound :
      (s : Clients) (id : Text) (list : List ℕ)
      → open_clients sockets s.clients ≡ list
      → normalize_tunnel_id false (some id) ≡ ok []
      → (ws : ℕ) (named : Text) → sole_client s list ≡ found ws named
      → (sockets.is_open ws ≡ true) × IsTarget s id ws named
  sole_client_sound s id [] l e ws named q = absurd (ground arith)
  sole_client_sound s id (v ∷ []) l e ws named q =
      let same : v ≡ ws = ground arith in
      (
        (open_clients-is_open s.clients ws (rw l (ground (arith, ==_iff v ws)))).1,
        inr (e, ground arith, ground arith),
      )
  sole_client_sound s id (v ∷ u ∷ list) l e ws named q = absurd (ground arith)

  named_client_sound :
      (s : Clients) (id n : Text)
      → normalize_tunnel_id false (some id) ≡ ok n
      → is_empty n ≡ false
      → (ws : ℕ) (named : Text)
      → named_client n (open_only sockets (TextMap.get n s.clients_by_tunnel_id)) ≡ found ws named
      → (sockets.is_open ws ≡ true) × IsTarget s id ws named
  named_client_sound s id n good full ws named q =
      elim (Option-cases (TextMap.get n s.clients_by_tunnel_id)) [
        | inl missing ↦ absurd (ground arith)
        | inr (v, there) ↦ (ground arith, inl (ground arith, λ e. ground arith, ground arith))
      ]

  -- `resolveTargetClient` throws nothing, and a client that it returns is open and is the target: the
  -- one registered under the id asked for, or where none is asked for, the only open client.
  pub resolve_target_client_lem :
      (s : Clients) (id : Text)
      → (t : Target) × (resolve_target_client sockets s id ≡ ok t)
        × ((ws : ℕ) (named : Text)
            → t ≡ found ws named
            → (sockets.is_open ws ≡ true) × IsTarget s id ws named)
  unfolding resolve_target_client get_client_by_tunnel_id
  resolve_target_client_lem s id = elim (Result-cases (normalize_tunnel_id false (some id))) [
    | inr (e, bad) ↦ (not_found (invalid_id e), ground arith, λ ws named q. absurd (ground arith))
    | inl (n, good) ↦ elim (Bool-cases (is_empty n)) [
      | inl blank ↦ (
        sole_client s (open_clients sockets s.clients),
        ground arith,
        sole_client_sound s id (open_clients sockets s.clients) refl
            (let e = is_empty-eq-true n blank in rw e at good),
      )
      | inr full ↦ (
        named_client n (open_only sockets (TextMap.get n s.clients_by_tunnel_id)),
        ground (arith, own_normal_form id n good full),
        named_client_sound s id n good full,
      )
    ]
  ]
