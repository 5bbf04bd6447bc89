-- ===== src/PortParser/Routes.antt =====
-- What `parseAgentRoutes` returns.
use nodejs_wss_service_bridg.Base.{
  ℕ, suc, ◌+◌, ◌≤◌, ◌≡◌, refl, ap, true, false, List, [], ◌∷◌, ◌++◌, some, arith, length,
  length-append, has, ok, Distinct, Distinct-snoc, Bool-cases, Result-cases, Option-cases, inl, inr,
  All, All-append, take, drop,
}
use nodejs_wss_service_bridg.Base.Text.{Text, trim, split, is_empty, index_of, last_index_of}
use nodejs_wss_service_bridg.TunnelId.{normalize_tunnel_id}
use nodejs_wss_service_bridg.TunnelId.Laws.{IsTunnelId, normalize_tunnel_id_sound}
use nodejs_wss_service_bridg.PortParser.{
  Route, parse_route_port, parse_target, parse_entry, parse_entries, parse_agent_routes, position,
  as_parse_error,
}
use nodejs_wss_service_bridg.PortParser.Ports.{parse_port_iff}

-- A route from one port to a port behind a named tunnel client.
pub record IsRoute (r : Route) : Type 0 where
  pub local_positive : 1 ≤ r.local_port
  pub local_bounded : r.local_port ≤ 65535
  pub target_positive : 1 ≤ r.target_port
  pub target_bounded : r.target_port ≤ 65535
  pub target_named : IsTunnelId r.target_tunnel_id

parse_route_port_sound : (raw : Text) (p : ℕ) → parse_route_port raw ≡ ok p → (1 ≤ p) × (p ≤ 65535)
unfolding parse_route_port
parse_route_port_sound raw p e =
    let h = (parse_port_iff (trim raw) p).0 e in (h.positive, h.bounded)

target_id_sound :
    (t id : Text) → as_parse_error (normalize_tunnel_id true (some t)) ≡ ok id → IsTunnelId id
target_id_sound t id e = elim (Result-cases (normalize_tunnel_id true (some t))) [
  | inl (s, good) ↦ elim (normalize_tunnel_id_sound true (some t) s good) [
    | inl (r, _) ↦ absurd (ground arith)
    | inr valid ↦ let same : s ≡ id = ground arith in rw (← same) valid
  ]
  | inr (x, bad) ↦ absurd (ground arith)
]

parse_target_sound :
    (lp : ℕ) (spec : Text) (r : Route)
    → 1 ≤ lp
    → lp ≤ 65535
    → parse_target lp spec ≡ ok r
    → IsRoute r × (r.local_port ≡ lp)
unfolding parse_target
parse_target_sound lp spec r a b e = elim (Option-cases (position (last_index_of b':' spec) spec)) [
  | inl no_colon ↦ absurd (ground arith)
  | inr (i, colon) ↦
      elim (Result-cases (as_parse_error (normalize_tunnel_id true (some (take i spec))))) [
        | inr (x, bad) ↦ absurd (ground arith)
        | inl (id, named) ↦ elim (Result-cases (parse_route_port (drop (suc i) spec))) [
          | inr (x, bad) ↦ absurd (ground arith)
          | inl (p, ported) ↦
              let valid = target_id_sound (take i spec) id named in
              let range = parse_route_port_sound (drop (suc i) spec) p ported in
              let same : record { local_port = lp; target_tunnel_id = id; target_port = p } ≡ r =
                ground arith in
              rw (← same) (
                record {
                  local_positive = a;
                  local_bounded = b;
                  target_positive = range.0;
                  target_bounded = range.1;
                  target_named = valid;
                },
                refl,
              )
        ]
      ]
]

parse_entry_sound :
    (raw : Text) (seen : List ℕ) (r : Route)
    → parse_entry raw seen ≡ ok r
    → IsRoute r × (has r.local_port seen ≡ false)
unfolding parse_entry
parse_entry_sound raw seen r e = elim (Bool-cases (is_empty (trim raw))) [
  | inl blank ↦ absurd (ground arith)
  | inr full ↦ elim (Option-cases (position (index_of b'=' (trim raw)) (trim raw))) [
    | inl no_eq ↦ absurd (ground arith)
    | inr (i, eq) ↦ elim (Result-cases (parse_route_port (take i (trim raw)))) [
      | inr (x, bad) ↦ absurd (ground arith)
      | inl (lp, ported) ↦ elim (Bool-cases (has lp seen)) [
        | inl again ↦ absurd (ground arith)
        | inr fresh ↦
            let range = parse_route_port_sound (take i (trim raw)) lp ported in
            let (good, same) =
              parse_target_sound lp (trim (drop (suc i) (trim raw))) r range.0 range.1
                (ground arith) in
            (good, rw same fresh)
      ]
    ]
  ]
]

abbrev pub local_ports : List Route → List ℕ
local_ports [] = []
local_ports (r ∷ rs) = r.local_port ∷ local_ports rs

local_ports-append :
    (xs ys : List Route) → local_ports (xs ++ ys) ≡ local_ports xs ++ local_ports ys
local_ports-append [] ys = refl
local_ports-append (x ∷ xs) ys = ap (λ t. x.local_port ∷ t) (local_ports-append xs ys)

-- A list of routes that the parser may return for so many entries.
pub record AreRoutes (rs : List Route) (entries : ℕ) : Type 0 where
  pub valid : All IsRoute rs
  pub distinct : Distinct (local_ports rs)
  pub counted : length rs ≡ entries

AreRoutes-snoc :
    (rs : List Route) (n : ℕ) (r : Route)
    → AreRoutes rs n
    → IsRoute r
    → has r.local_port (local_ports rs) ≡ false
    → AreRoutes (rs ++ r ∷ []) (n + 1)
AreRoutes-snoc rs n r h good fresh = record {
  valid = All-append IsRoute rs (r ∷ []) h.valid (good, tt);
  distinct =
      rw (local_ports-append rs (r ∷ []))
        (Distinct-snoc (local_ports rs) r.local_port h.distinct fresh);
  counted = omega (arith, length-append rs (r ∷ []), h.counted);
}

parse_entries_sound :
    (es : List Text) (acc rs : List Route) (n : ℕ)
    → AreRoutes acc n
    → parse_entries es acc (local_ports acc) ≡ ok rs
    → AreRoutes rs (n + length es)
unfolding parse_entries
parse_entries_sound [] acc rs n h e =
    let same : acc ≡ rs = cc in let sum : n + 0 ≡ n = omega arith in rw (← same, sum) h
parse_entries_sound (t ∷ es) acc rs n h e = elim (Result-cases (parse_entry t (local_ports acc))) [
  | inr (x, bad) ↦ absurd (ground arith)
  | inl (r, good) ↦
      let (valid, fresh) = parse_entry_sound t (local_ports acc) r good in
      let rest : parse_entries es (acc ++ r ∷ []) (local_ports acc ++ r.local_port ∷ []) ≡ ok rs =
        ground arith in
      let sum : n + suc (length es) ≡ n + 1 + length es = omega arith in
      rw sum (
        parse_entries_sound es (acc ++ r ∷ []) rs (n + 1) (AreRoutes-snoc acc n r h valid fresh)
          (rw (local_ports-append acc (r ∷ [])) rest))
]

-- If `parseAgentRoutes` returns, then it returns one route for each comma-separated entry, each with
-- ports from 1 to 65535 and a well-formed tunnel id, and no two of them share a local port.
pub parse_agent_routes_sound :
    (raw : Text) (rs : List Route)
    → parse_agent_routes (some raw) ≡ ok rs
    → AreRoutes rs (length (split b',' raw))
unfolding parse_agent_routes
parse_agent_routes_sound raw rs e =
    let zero_sum : 0 + length (split b',' raw) ≡ length (split b',' raw) = omega arith in
    rw (← zero_sum) (
      parse_entries_sound (split b',' raw) [] rs 0
        (record { valid = tt; distinct = tt; counted = refl }) (ground arith))
