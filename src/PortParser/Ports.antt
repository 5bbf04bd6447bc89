-- ===== src/PortParser/Ports.antt =====
-- What `parseAgentPorts` accepts, and what it returns.
use mathlib.Core.List.{append_assoc, append-nil}
use nodejs_wss_service_bridg.Base.{
  ℕ, ◌≤◌, ◌≡◌, ◌↔◌, refl, sym, ◌∙◌, true, false, List, [], ◌∷◌, ◌++◌, some, arith, has, ok,
  Distinct, Distinct-snoc, Distinct-middle, Bool-cases, Result-cases, inl, inr,
}
use nodejs_wss_service_bridg.Base.Text.{Text, trim, split, is_empty, is_decimal, decimal}
use nodejs_wss_service_bridg.PortParser.{parse_port, parse_tokens, parse_agent_ports}

-- The trimmed text is a decimal numeral for a port.
pub record IsPortText (token : Text) (port : ℕ) : Type 0 where
  pub decimal_digits : is_decimal token ≡ true
  pub value : decimal 0 token ≡ port
  pub positive : 1 ≤ port
  pub bounded : port ≤ 65535

pub parse_port_iff :
    (token : Text) (port : ℕ) → (parse_port token ≡ ok port) ↔ IsPortText token port
unfolding parse_port
parse_port_iff token port = (
  λ e. record {
    decimal_digits = ground arith;
    value = ground arith;
    positive = ground arith;
    bounded = ground arith;
  },
  λ h. ground arith,
)

-- The tokens, trimmed, are numerals for these ports, one for each and in their order.
abbrev pub Reads : List Text → List ℕ → Type 0
Reads [] [] = Unit
Reads (t ∷ ts) (p ∷ ps) = IsPortText (trim t) p × Reads ts ps
Reads _ _ = ⊥

pub decimal-ne-empty : (t : Text) → is_decimal t ≡ true → is_empty t ≡ false
decimal-ne-empty [] h = cc
decimal-ne-empty (c ∷ s) h = refl

parse_tokens_step :
    (t : Text) (ts : List Text) (acc : List ℕ) (p : ℕ)
    → IsPortText (trim t) p
    → has p acc ≡ false
    → parse_tokens (t ∷ ts) acc acc ≡ parse_tokens ts (acc ++ p ∷ []) (acc ++ p ∷ [])
unfolding parse_tokens
parse_tokens_step t ts acc p h fresh =
    rw (decimal-ne-empty (trim t) h.decimal_digits, (parse_port_iff (trim t) p).1 h, fresh)

parse_tokens_inv :
    (t : Text) (ts : List Text) (acc ports : List ℕ)
    → parse_tokens (t ∷ ts) acc acc ≡ ok ports
    → (p : ℕ) × IsPortText (trim t) p
      × (has p acc ≡ false)
      × (parse_tokens ts (acc ++ p ∷ []) (acc ++ p ∷ []) ≡ ok ports)
unfolding parse_tokens
parse_tokens_inv t ts acc ports e = elim (Result-cases (parse_port (trim t))) [
  | inl (p, good) ↦ (p, (parse_port_iff (trim t) p).0 good, ground (arith, e), ground (arith, e))
  | inr (x, bad) ↦ absurd (ground (arith, e))
]

parse_tokens_sound :
    (ts : List Text) (acc ports : List ℕ)
    → Distinct acc
    → parse_tokens ts acc acc ≡ ok ports
    → (ps : List ℕ) × (ports ≡ acc ++ ps) × Reads ts ps × Distinct ports
unfolding parse_tokens
parse_tokens_sound [] acc ports d e =
    let same : acc ≡ ports = cc in ([], sym (append-nil acc ∙ same), tt, rw (← same) d)
parse_tokens_sound (t ∷ ts) acc ports d e =
    let (p, good, fresh, rest) = parse_tokens_inv t ts acc ports e in
    let (ps, eq, reads, distinct) =
      parse_tokens_sound ts (acc ++ p ∷ []) ports (Distinct-snoc acc p d fresh) rest in
    (p ∷ ps, eq ∙ append_assoc acc (p ∷ []) ps, (good, reads), distinct)

parse_tokens_complete :
    (ts : List Text) (acc ps : List ℕ)
    → Reads ts ps
    → Distinct (acc ++ ps)
    → parse_tokens ts acc acc ≡ ok (acc ++ ps)
unfolding parse_tokens
parse_tokens_complete [] acc [] h d = rw (append-nil acc)
parse_tokens_complete [] acc (p ∷ ps) h d = elim h [ ]
parse_tokens_complete (t ∷ ts) acc [] h d = elim h [ ]
parse_tokens_complete (t ∷ ts) acc (p ∷ ps) h d =
    parse_tokens_step t ts acc p h.0 (Distinct-middle acc p ps d)
    ∙ rw (← append_assoc acc (p ∷ []) ps)
        (parse_tokens_complete ts (acc ++ p ∷ []) ps h.1 (rw (append_assoc acc (p ∷ []) ps) d))

-- `parseAgentPorts` accepts a value exactly when it is not blank, each of its comma-separated
-- entries is, once trimmed, a decimal numeral from 1 to 65535, and no port stands twice; it returns
-- the ports in their order.
pub parse_agent_ports_iff :
    (raw : Text) (ports : List ℕ)
    → (parse_agent_ports (some raw) ≡ ok ports)
      ↔ ((is_empty (trim raw) ≡ false) × Reads (split b',' raw) ports × Distinct ports)
unfolding parse_agent_ports
parse_agent_ports_iff raw ports = elim (Bool-cases (is_empty (trim raw))) [
  | inl blank ↦ ground arith
  | inr full ↦ rw full (
    λ e.
        let (ps, eq, reads, distinct) = parse_tokens_sound (split b',' raw) [] ports tt e in
        (refl, rw eq reads, distinct),
    λ h. parse_tokens_complete (split b',' raw) [] ports h.1 h.2,
  )
]
