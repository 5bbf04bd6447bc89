-- ===== src/TcpAgent/Requests.antt =====
-- The connections that wait at the agent, serve/tcp-agent.js: the ids of their requests, and what is
-- taken from the list when the server answers.
pub mod Steps
pub mod Answers
use nodejs_wss_service_bridg.Base.{
  ℕ, ◌+◌, ◌<◌, ◌≤◌, ◌≡◌, ◌≢◌, refl, sym, ap, ◌∙◌, Bool, true, false, ◌||◌, List, [], ◌∷◌, ◌++◌,
  Option, none, some, arith, ◌==◌, ltb, leb, if◌then◌else◌, has, has-append, Distinct,
  Distinct-snoc, All, All-append, Bool-cases, inl, inr,
}
use nodejs_wss_service_bridg.TcpAgent.{Pending, Agent}
use nodejs_wss_service_bridg.TcpAgent.Local.{
  splice_first, remaining, max_safe_integer, allocate_connect_request_id, push_pending, pending_of,
}
use nodejs_wss_service_bridg.TcpAgent.Readiness.{waiting}
use nodejs_wss_service_bridg.PortParser.{Route}

abbrev pub ids : List Pending → List ℕ
ids [] = []
ids (p ∷ ps) = p.request_id ∷ ids ps

-- No two waiting connections have the same id, and all ids have been given out.
pub record IsNumbered (pending : List Pending) (next : ℕ) : Type 0 where
  pub distinct : Distinct (ids pending)
  pub given : All (λ p. (0 < p.request_id) × (p.request_id < next)) pending
  pub started : 0 < next

-- A list without one of its elements.
data Splits (p : Pending → Bool) (xs : List Pending) : Type 0 where
  absent : splice_first p xs ≡ none → Splits p xs
  around :
      (pre : List Pending) (e : Pending) (post : List Pending)
      → xs ≡ pre ++ e ∷ post
      → p e ≡ true
      → splice_first p xs ≡ some (e, pre ++ post)
      → Splits p xs

splice_first-Splits : (p : Pending → Bool) (xs : List Pending) → Splits p xs
unfolding splice_first
splice_first-Splits p [] = absent refl
splice_first-Splits p (x ∷ xs) = elim (Bool-cases (p x)) [
  | inl here ↦ around [] x xs refl here (ground arith)
  | inr there ↦ elim (splice_first-Splits p xs) [
    | absent n ↦ absent (ground arith)
    | around pre e post eq t s ↦ around (x ∷ pre) e post (ap (λ l. x ∷ l) eq) t (ground arith)
  ]
]

has-ids-middle :
    (k : ℕ) (pre : List Pending) (e : Pending) (post : List Pending)
    → has k (ids (pre ++ e ∷ post)) ≡ false
    → has k (ids (pre ++ post)) ≡ false
has-ids-middle k [] e post h = ground arith
has-ids-middle k (q ∷ pre) e post h = ground (arith, has-ids-middle k pre e post)

without-IsNumbered :
    (next : ℕ) (pre : List Pending) (e : Pending) (post : List Pending)
    → IsNumbered (pre ++ e ∷ post) next
    → IsNumbered (pre ++ post) next
without-IsNumbered next [] e post h = record {
  distinct = h.distinct.1;
  given = h.given.1;
  started = h.started;
}
without-IsNumbered next (q ∷ pre) e post h =
    let rest =
      without-IsNumbered next pre e post
        (record { distinct = h.distinct.1; given = h.given.1; started = h.started }) in
    record {
      distinct = (has-ids-middle q.request_id pre e post h.distinct.0, rest.distinct);
      given = (h.given.0, rest.given);
      started = h.started;
    }

pub remaining-IsNumbered :
    (p : Pending → Bool) (next : ℕ) (xs : List Pending)
    → IsNumbered xs next
    → IsNumbered (remaining xs (splice_first p xs)) next
remaining-IsNumbered p next xs h = elim (splice_first-Splits p xs) [
  | absent n ↦ rw n h
  | around pre e post eq t s ↦ rw s (without-IsNumbered next pre e post (rw eq at h))
]

ids-below :
    (next : ℕ) (xs : List Pending)
    → All (λ p. (0 < p.request_id) × (p.request_id < next)) xs
    → has next (ids xs) ≡ false
ids-below next [] h = refl
ids-below next (x ∷ xs) h = ground (arith, ids-below next xs)

ids-append : (xs : List Pending) (e : Pending) → ids (xs ++ e ∷ []) ≡ ids xs ++ e.request_id ∷ []
ids-append [] e = refl
ids-append (x ∷ xs) e = ap (λ l. x.request_id ∷ l) (ids-append xs e)

widen :
    (next : ℕ) (xs : List Pending)
    → All (λ p. (0 < p.request_id) × (p.request_id < next)) xs
    → All (λ p. (0 < p.request_id) × (p.request_id < next + 1)) xs
widen next [] h = tt
widen next (x ∷ xs) h = ((h.0.0, omega arith), widen next xs h.1)

-- A new connection takes the next id, unless the ids start again.
pub append-IsNumbered :
    (route : Route) (socket next : ℕ) (xs : List Pending)
    → IsNumbered xs next
    → IsNumbered (xs ++ pending_of route socket next ∷ []) (next + 1)
append-IsNumbered route socket next xs h = record {
  distinct =
      rw (ids-append xs (pending_of route socket next))
        (Distinct-snoc (ids xs) next h.distinct (ids-below next xs h.given));
  given = All-append _ xs _ (widen next xs h.given) ((h.started, omega arith), tt);
  started = omega arith;
}

-- An element is found by its id, wherever it stands.
pub others-differ :
    (next : ℕ) (pre : List Pending) (e : Pending) (post : List Pending)
    → IsNumbered (pre ++ e ∷ post) next
    → All (λ q. (q.request_id == e.request_id) ≡ false) pre
others-differ next [] e post h = tt
others-differ next (q ∷ pre) e post h = (
  apart pre h.distinct.0,
  others-differ next pre e post
      (record { distinct = h.distinct.1; given = h.given.1; started = h.started }),
)
  where
    apart :
        (zs : List Pending)
        → has q.request_id (ids (zs ++ e ∷ post)) ≡ false
        → (q.request_id == e.request_id) ≡ false
    apart [] n = ground arith
    apart (z ∷ zs) n = apart zs (ground arith)

pub given-middle :
    (next : ℕ) (pre : List Pending) (e : Pending) (post : List Pending)
    → IsNumbered (pre ++ e ∷ post) next
    → (0 < e.request_id) × (e.request_id < next)
given-middle next [] e post h = h.given.0
given-middle next (q ∷ pre) e post h =
    given-middle next pre e post
      (record { distinct = h.distinct.1; given = h.given.1; started = h.started })

-- What the search finds, from the list itself.
pub splice_first-middle :
    (p : Pending → Bool) (pre : List Pending) (e : Pending) (post : List Pending)
    → All (λ q. p q ≡ false) pre
    → p e ≡ true
    → splice_first p (pre ++ e ∷ post) ≡ some (e, pre ++ post)
unfolding splice_first
splice_first-middle p [] e post h t = ground arith
splice_first-middle p (q ∷ pre) e post h t =
    ground (arith, h.0, splice_first-middle p pre e post h.1 t)
