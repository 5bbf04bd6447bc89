-- ===== src/Server/Allocate.antt =====
-- `allocateStreamId` of src/server/StreamManager.js. The fuel is the bound of the source's own loop.
use nodejs_wss_service_bridg.Base.{
  ℕ, zero, suc, ◌+◌, ◌≤◌, ◌<◌, ◌≡◌, ◌⊎◌, inl, inr, refl, true, false, List, [], ◌∷◌, Option, none,
  some, arith, leb, ==_iff, if◌then◌else◌, has, length, Distinct, All, Distinct-length-le,
  Bool-cases, Option-cases, ap,
}
use nodejs_wss_service_bridg.Base.Map
use nodejs_wss_service_bridg.Server.{Global}

abbrev pub max_id : ℕ
max_id = 0xffffffff

abbrev pub next_id : ℕ → ℕ → ℕ
next_id top id = if leb top id then 1 else suc id

-- The loop, over `_nextStreamId`, for ids up to `top`: the id, if any, and the next candidate.
unfoldable pub allocate_from : ℕ → ℕ → List ℕ → ℕ → Option ℕ × ℕ
allocate_from top zero used id = (none, id)
allocate_from top (suc rounds) used id =
    let later = allocate_from top rounds used (next_id top id) in
    if has id used then later else (some id, next_id top id)

unfoldable pub allocate_stream_id : Global → Option ℕ × Global
unfolding allocate_from
allocate_stream_id g =
    let (id, next) = allocate_from max_id max_id (Map.keys g.streams) g.next_stream_id in
    (id, record g { next_stream_id = next })

-- An id that the loop returns is in range and not in use, and so is the next candidate in range.
pub allocate_from-fresh :
    (top rounds : ℕ) (used : List ℕ) (id : ℕ)
    → 1 ≤ top
    → 1 ≤ id
    → id ≤ top
    → ((new : ℕ)
        → (allocate_from top rounds used id).0 ≡ some new
        → (1 ≤ new) × (new ≤ top) × (has new used ≡ false))
      × (1 ≤ (allocate_from top rounds used id).1)
      × ((allocate_from top rounds used id).1 ≤ top)
unfolding allocate_from
allocate_from-fresh top zero used id ht hl hu = (λ new e. absurd (ground arith), hl, hu)
allocate_from-fresh top (suc rounds) used id ht hl hu =
    let ih =
      allocate_from-fresh top rounds used (next_id top id) ht (ground arith) (ground arith) in
    elim (Bool-cases (has id used)) [
      | inl old ↦ rw old ih
      | inr new ↦ rw new (λ n e. ground arith, ground arith, ground arith)
    ]

-- The candidates of so many rounds, from `id` on.
visited : ℕ → ℕ → ℕ → List ℕ
visited top zero id = []
visited top (suc n) id = id ∷ visited top n (next_id top id)

visited-range :
    (top n id x : ℕ)
    → 1 ≤ id
    → id ≤ top
    → n ≤ top
    → has x (visited top n id) ≡ true
    → ((id ≤ x) × (x < id + n)) ⊎ (x + top < id + n)
unfolding visited
visited-range top zero id x hl hu hn h = absurd (ground arith)
visited-range top (suc n) id x hl hu hn h = ground (
  arith,
  visited-range top n (next_id top id) x,
  visited-positive top n (next_id top id) x,
  ==_iff id x,
)
  where
    visited-positive : (top n id x : ℕ) → has x (visited top n id) ≡ true → 1 ≤ id → 1 ≤ x
    visited-positive top zero id x h hl = absurd (ground arith)
    visited-positive top (suc n) id x h hl =
        ground (arith, visited-positive top n (next_id top id) x, ==_iff id x)

visited-Distinct : (top n id : ℕ) → 1 ≤ id → id ≤ top → n ≤ top → Distinct (visited top n id)
unfolding visited
visited-Distinct top zero id hl hu hn = tt
visited-Distinct top (suc n) id hl hu hn = (
  elim (Bool-cases (has id (visited top n (next_id top id)))) [
    | inr new ↦ new
    | inl old ↦ absurd (ground (arith, visited-range top n (next_id top id) id))
  ],
  visited-Distinct top n (next_id top id) (ground arith) (ground arith) (omega arith),
)

length-visited : (top n id : ℕ) → length (visited top n id) ≡ n
unfolding visited
length-visited top zero id = refl
length-visited top (suc n) id = ap suc (length-visited top n (next_id top id))

-- Where the loop fails, every candidate was in use.
allocate_from-none :
    (top n : ℕ) (used : List ℕ) (id : ℕ)
    → (allocate_from top n used id).0 ≡ none
    → All (λ x. has x used ≡ true) (visited top n id)
unfolding allocate_from visited
allocate_from-none top zero used id e = tt
allocate_from-none top (suc n) used id e =
    (ground arith, allocate_from-none top n used (next_id top id) (ground arith))

allocate_from-total :
    (top : ℕ) (used : List ℕ) (id : ℕ)
    → 1 ≤ id
    → id ≤ top
    → length used < top
    → (new : ℕ) × ((allocate_from top top used id).0 ≡ some new)
allocate_from-total top used id hl hu room = elim (Option-cases (allocate_from top top used id).0) [
  | inr found ↦ found
  | inl missing ↦ absurd (
      omega (
        arith,
        length-visited top top id,
        Distinct-length-le (visited top top id) used
            (visited-Distinct top top id hl hu (omega arith))
            (allocate_from-none top top used id missing),
      ))
]

length-keys {ℓ} : {V : Type ℓ} (m : List (ℕ × V)) → length (Map.keys m) ≡ length m
length-keys [] = refl
length-keys (x ∷ m) = ap suc (length-keys m)

-- With fewer streams than ids and the next candidate in range, `allocateStreamId` returns an id: it is from 1 to 0xffffffff and no
-- stream has it, and the next candidate is in range again.
pub allocate_stream_id-fresh :
    (g : Global)
    → 1 ≤ g.next_stream_id
    → g.next_stream_id ≤ max_id
    → length g.streams < max_id
    → (id : ℕ) × ((allocate_stream_id g).0 ≡ some id)
      × (1 ≤ id)
      × (id ≤ max_id)
      × (has id (Map.keys g.streams) ≡ false)
      × (1 ≤ (allocate_stream_id g).1.next_stream_id)
      × ((allocate_stream_id g).1.next_stream_id ≤ max_id)
unfolding allocate_stream_id
allocate_stream_id-fresh g hl hu room =
    let (id, e) =
      allocate_from-total max_id (Map.keys g.streams) g.next_stream_id hl hu
        (omega (arith, length-keys g.streams)) in
    let (fresh, low, high) =
      allocate_from-fresh max_id max_id (Map.keys g.streams) g.next_stream_id (omega arith) hl hu in
    let (a, b, c) = fresh id e in (id, e, a, b, c, low, high)
