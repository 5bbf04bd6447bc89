-- ===== src/Config/Ports.antt =====
-- `readPortList` of src/shared/config.js, against its meaning and against `parseAgentPorts`.
use mathlib.Core.List.{append-nil, append_assoc}
use nodejs_wss_service_bridg.Base.{
  ℕ, ◌≡◌, ◌⊎◌, inl, inr, refl, sym, ap, ◌∙◌, true, false, ◌||◌, List, [], ◌∷◌, ◌++◌, some, arith,
  ltb, leb, has, has-append, if◌then◌else◌, if_false, Result, ok, ◌>>=◌, Result-cases, Bool-cases,
  Distinct, Distinct-snoc, Distinct-middle,
}
use nodejs_wss_service_bridg.Base.Text.{Text, trim, trim_start, trim_end, split, is_empty, decimal}
use nodejs_wss_service_bridg.PortParser.{parse_agent_ports}
use nodejs_wss_service_bridg.PortParser.Ports.{
  decimal-ne-empty, IsPortText, Reads, parse_agent_ports_iff,
}
use nodejs_wss_service_bridg.Config.{add_port, add_ports, read_port_list}

-- The entries that are not blank are numerals for these ports, in their order.
pub data Numerals : List Text → List ℕ → Type 0 where
  done : Numerals [] []
  blank :
      {s : Text} {rest : List Text} {ports : List ℕ}
      → is_empty (trim s) ≡ true
      → Numerals rest ports
      → Numerals (s ∷ rest) ports
  port :
      {s : Text} {rest : List Text} {p : ℕ} {ports : List ℕ}
      → IsPortText (trim s) p
      → Numerals rest ports
      → Numerals (s ∷ rest) (p ∷ ports)

-- What one entry does to the ports so far.
add_port-cases :
    (s : Text) (ports next : List ℕ)
    → add_port s ports ≡ ok next
    → ((is_empty (trim s) ≡ true) × (next ≡ ports))
      ⊎ ((p : ℕ) × IsPortText (trim s) p
          × (next ≡ (if has p ports then ports else ports ++ p ∷ [])))
unfolding add_port
add_port-cases s ports next e = elim (Bool-cases (is_empty (trim s))) [
  | inl empty ↦ inl (empty, ground (arith, e, empty))
  | inr full ↦ inr (
    decimal 0 (trim s),
    record {
      decimal_digits = ground (arith, e, full);
      value = refl;
      positive = ground (arith, e, full);
      bounded = ground (arith, e, full);
    },
    ground (arith, e, full),
  )
]

added-Distinct :
    (p : ℕ) (ports : List ℕ)
    → Distinct ports
    → Distinct (if has p ports then ports else ports ++ p ∷ [])
added-Distinct p ports d = elim (Bool-cases (has p ports)) [
  | inl old ↦ rw old d
  | inr new ↦ rw new (Distinct-snoc ports p d new)
]

added-has :
    (q p : ℕ) (ports ps : List ℕ)
    → (has q (if has p ports then ports else ports ++ p ∷ []) || has q ps)
      ≡ (has q ports || has q (p ∷ ps))
added-has q p ports ps = elim (Bool-cases (has p ports)) [
  | inl old ↦ ground (arith, old)
  | inr new ↦ ground (arith, new, has-append q ports (p ∷ []))
]

add_ports_sound :
    (ts : List Text) (acc ports : List ℕ)
    → Distinct acc
    → add_ports ts acc ≡ ok ports
    → (ps : List ℕ) × Numerals ts ps
      × Distinct ports
      × ((q : ℕ) → has q ports ≡ (has q acc || has q ps))
unfolding add_ports
add_ports_sound [] acc ports d e =
    let same : acc ≡ ports = cc in ([], done, rw (← same) d, λ q. rw (← same) (ground arith))
add_ports_sound (s ∷ ts) acc ports d e = elim (Result-cases (add_port s acc)) [
  | inr (x, bad) ↦ absurd (ground (arith, e, bad))
  | inl (next, good) ↦
      let later : add_ports ts next ≡ ok ports = ground (arith, e, good) in
      elim (add_port-cases s acc next good) [
        | inl (empty, same) ↦
            let (ps, reads, distinct, found) = add_ports_sound ts next ports (rw same d) later in
            (ps, blank empty reads, distinct, λ q. found q ∙ rw same refl)
        | inr (p, text, same) ↦
            let (ps, reads, distinct, found) =
              add_ports_sound ts next ports (rw same (added-Distinct p acc d)) later in
            (p ∷ ps, port text reads, distinct, λ q. found q ∙ rw same (added-has q p acc ps))
      ]
]

-- If `readPortList` returns for a value that is not empty, then each of its comma-separated entries
-- is blank or, once trimmed, a decimal numeral from 1 to 65535, and the list that is returned has the
-- ports that these stand for and no others, none of them twice.
pub read_port_list_sound :
    (raw : Text) (ports : List ℕ)
    → is_empty raw ≡ false
    → read_port_list (some raw) ≡ ok ports
    → (ps : List ℕ) × Numerals (split b',' raw) ps
      × Distinct ports
      × ((q : ℕ) → has q ports ≡ has q ps)
unfolding read_port_list
read_port_list_sound raw ports full e =
    add_ports_sound (split b',' raw) [] ports tt
      (sym (if_false {A = Result _ (List ℕ)} (ok []) full) ∙ e)

full_before_trim : (s : Text) → is_empty (trim s) ≡ false → is_empty s ≡ false
unfolding trim trim_start trim_end
full_before_trim [] e = absurd (ground arith)
full_before_trim (c ∷ s) e = refl

add_port-fresh :
    (s : Text) (acc : List ℕ) (p : ℕ)
    → IsPortText (trim s) p
    → has p acc ≡ false
    → add_port s acc ≡ ok (acc ++ p ∷ [])
unfolding add_port
add_port-fresh s acc p h fresh =
    let full = decimal-ne-empty (trim s) h.decimal_digits in
    let low : leb (decimal 0 (trim s)) 0 ≡ false = ground (arith, h.value, h.positive) in
    let high : ltb 65535 (decimal 0 (trim s)) ≡ false = ground (arith, h.value, h.bounded) in
    if_false {A = Result _ (List ℕ)} (ok acc) full
    ∙ rw (h.decimal_digits, low, high, h.value, fresh) refl

add_ports-Reads :
    (ts : List Text) (acc ps : List ℕ)
    → Reads ts ps
    → Distinct (acc ++ ps)
    → add_ports ts acc ≡ ok (acc ++ ps)
unfolding add_ports
add_ports-Reads [] acc [] h d = rw (append-nil acc)
add_ports-Reads [] acc (p ∷ ps) h d = elim h [ ]
add_ports-Reads (t ∷ ts) acc [] h d = elim h [ ]
add_ports-Reads (t ∷ ts) acc (p ∷ ps) h d =
    ap (λ r. r >>= add_ports ts) (add_port-fresh t acc p h.0 (Distinct-middle acc p ps d))
    ∙ rw (← append_assoc acc (p ∷ []) ps)
        (add_ports-Reads ts (acc ++ p ∷ []) ps h.1 (rw (append_assoc acc (p ∷ []) ps) d))

-- The server's list of the agents' ports reads what the agent's own parser reads: wherever
-- `parseAgentPorts` accepts a value, `readPortList` returns the same ports for it.
pub read_port_list-parse_agent_ports :
    (raw : Text) (ports : List ℕ)
    → parse_agent_ports (some raw) ≡ ok ports
    → read_port_list (some raw) ≡ ok ports
unfolding read_port_list
read_port_list-parse_agent_ports raw ports e =
    let (full, reads, distinct) = (parse_agent_ports_iff raw ports).0 e in
    if_false {A = Result _ (List ℕ)} (ok []) (full_before_trim raw full)
    ∙ add_ports-Reads (split b',' raw) [] ports reads distinct
