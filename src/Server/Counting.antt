-- ===== src/Server/Counting.antt =====
-- What a stream's steps do to the shared books: the table of streams and the counts of connections.
use mathlib.Core.Path.{ap₂}
use mathlib.Core.Bool.{false≢true}
use nodejs_wss_service_bridg.Base.{
  ℕ, ◌≡◌, ◌⊎◌, inl, inr, refl, sym, ap, ◌∙◌, Bool, true, false, List, String, arith, if_elim,
}
use nodejs_wss_service_bridg.Base.Map
use nodejs_wss_service_bridg.Server.{
  Net, Run, StreamSocket, OnCleanup, nothing, decrement_count, release_agent, send_frame,
}
use nodejs_wss_service_bridg.Server.Cleanup.{
  decrement, remove_owned, run_on_cleanup, destroy_socket, clean, cleanup_tcp_stream, abort_socket,
  abort_tcp_stream, sync_tcp_backpressure, abort_if_virtual, notify_client,
}

pub record Books : Type 0 where
  pub conn_count : List (ℕ × ℕ)
  pub agent_conn_count : List (ℕ × ℕ)
  pub agent_streams : List (ℕ × List ℕ)

abbrev pub books : Run → Books
books r = record {
  conn_count = r.global.conn_count;
  agent_conn_count = r.global.agent_conn_count;
  agent_streams = r.global.agent_streams;
}

-- The books after one connection is given back.
abbrev pub given_back : OnCleanup → ℕ → Books → Books
given_back nothing id b = b
given_back (decrement_count port true) id b = b
given_back (decrement_count port false) id b = record b { conn_count = decrement port b.conn_count }
given_back (release_agent port ws) id b = record b {
  agent_conn_count = decrement port b.agent_conn_count;
  agent_streams = remove_owned ws id b.agent_streams;
}

-- The step leaves the stream's place in the books alone.
pub record Keeps (r q : Run) : Type 0 where
  pub cleaned : q.stream.cleaned ≡ r.stream.cleaned
  pub on_cleanup : q.stream.on_cleanup ≡ r.stream.on_cleanup
  pub id : q.stream.id ≡ r.stream.id
  pub streams : q.global.streams ≡ r.global.streams
  pub books : books q ≡ books r
  pub destroyed : r.stream.socket.destroyed ≡ true → q.stream.socket.destroyed ≡ true

-- The step ends a live stream: out of the table, its socket destroyed, its connection given back.
pub record Releases (r q : Run) : Type 0 where
  pub live : r.stream.cleaned ≡ false
  pub cleaned : q.stream.cleaned ≡ true
  pub streams : q.global.streams ≡ Map.delete r.stream.id r.global.streams
  pub books : books q ≡ given_back r.stream.on_cleanup r.stream.id (books r)
  pub destroyed : q.stream.socket.destroyed ≡ true

abbrev pub Settles : Run → Run → Type 0
Settles r q = Keeps r q ⊎ Releases r q

pub Keeps-refl : (r : Run) → Keeps r r
Keeps-refl r = record {
  cleaned = refl;
  on_cleanup = refl;
  id = refl;
  streams = refl;
  books = refl;
  destroyed = λ h. h;
}

pub Keeps-trans : {r q p : Run} → Keeps r q → Keeps q p → Keeps r p
Keeps-trans h k = record {
  cleaned = k.cleaned ∙ h.cleaned;
  on_cleanup = k.on_cleanup ∙ h.on_cleanup;
  id = k.id ∙ h.id;
  streams = k.streams ∙ h.streams;
  books = k.books ∙ h.books;
  destroyed = λ d. k.destroyed (h.destroyed d);
}

pub Keeps-Releases : {r q p : Run} → Keeps r q → Releases q p → Releases r p
Keeps-Releases h k = record {
  live = sym h.cleaned ∙ k.live;
  cleaned = k.cleaned;
  streams = rw (← h.streams, ← h.id) k.streams;
  books = rw (← h.books, ← h.on_cleanup, ← h.id) k.books;
  destroyed = k.destroyed;
}

pub Keeps-Settles : {r q p : Run} → Keeps r q → Settles q p → Settles r p
Keeps-Settles h (inl k) = inl (Keeps-trans h k)
Keeps-Settles h (inr k) = inr (Keeps-Releases h k)

pub Settles-trans : {r q p : Run} → Settles r q → Settles q p → Settles r p
Settles-trans (inl h) k = Keeps-Settles h k
Settles-trans (inr h) (inl k) = inr (record {
  live = h.live;
  cleaned = k.cleaned ∙ h.cleaned;
  streams = k.streams ∙ h.streams;
  books = k.books ∙ h.books;
  destroyed = k.destroyed h.destroyed;
})
Settles-trans (inr h) (inr k) = absurd (false≢true (sym k.live ∙ h.cleaned))

run_on_cleanup_lem :
    (c : OnCleanup) (r : Run)
    → (books (run_on_cleanup c r) ≡ given_back c r.stream.id (books r))
      × ((run_on_cleanup c r).global.streams ≡ r.global.streams)
      × ((run_on_cleanup c r).stream.cleaned ≡ r.stream.cleaned)
      × ((run_on_cleanup c r).stream.timer ≡ r.stream.timer)
      × ((run_on_cleanup c r).stream.socket ≡ r.stream.socket)
unfolding run_on_cleanup
run_on_cleanup_lem nothing r = (refl, refl, refl, refl, refl)
run_on_cleanup_lem (decrement_count port true) r = (refl, refl, refl, refl, refl)
run_on_cleanup_lem (decrement_count port false) r = (refl, refl, refl, refl, refl)
run_on_cleanup_lem (release_agent port ws) r = (refl, refl, refl, refl, refl)

destroy_socket-Keeps :
    (net : Net) (r : Run)
    → Keeps r (destroy_socket net r)
      × ((destroy_socket net r).stream.socket.destroyed ≡ true)
      × ((destroy_socket net r).stream.timer ≡ r.stream.timer)
unfolding destroy_socket send_frame
destroy_socket-Keeps net r = (ground arith, ground arith, ground arith)

clean-Releases : (net : Net) (r : Run) → r.stream.cleaned ≡ false → Releases r (clean net r)
unfolding clean
clean-Releases net r live =
    let marked : Run = record {
      global = record (r.global) { streams = Map.delete r.stream.id r.global.streams };
      stream = record (r.stream) { cleaned = true; timer = false };
    } in
    let (k, gone, _) = destroy_socket-Keeps net marked in
    let (kept, table, cleaned, _, socket) =
      run_on_cleanup_lem r.stream.on_cleanup (destroy_socket net marked) in
    record {
      live = live;
      cleaned = cleaned ∙ k.cleaned;
      streams = table ∙ k.streams;
      books = kept ∙ ap₂ (given_back r.stream.on_cleanup) k.id k.books;
      destroyed = ap (λ (x : StreamSocket). x.destroyed) socket ∙ gone;
    }

pub cleanup_tcp_stream-Settles : (net : Net) (r : Run) → Settles r (cleanup_tcp_stream net r)
unfolding cleanup_tcp_stream
cleanup_tcp_stream-Settles net r =
    if_elim (Settles r) r.stream.cleaned (λ old. inl (Keeps-refl r))
      (λ live. inr (clean-Releases net r live))

pub abort_socket-Keeps : (net : Net) (m : String) (r : Run) → Keeps r (abort_if_virtual net m r)
unfolding abort_socket send_frame
abort_socket-Keeps net m r = ground arith

notify_client-Keeps :
    (net : Net) (b : Bool) (m : String) (r : Run) → Keeps r (notify_client net b m r)
unfolding send_frame
notify_client-Keeps net b m r = ground arith

pub sync_tcp_backpressure-Keeps : (net : Net) (r : Run) → Keeps r (sync_tcp_backpressure net r)
unfolding sync_tcp_backpressure send_frame
sync_tcp_backpressure-Keeps net r = ground arith

pub abort_tcp_stream-Settles :
    (net : Net) (m : String) (b : Bool) (r : Run) → Settles r (abort_tcp_stream net m b r)
unfolding abort_tcp_stream
abort_tcp_stream-Settles net m b r =
    if_elim (Settles r) r.stream.cleaned (λ old. inl (Keeps-refl r))
      (λ live.
        Keeps-Settles
          (Keeps-trans (abort_socket-Keeps net m r)
            (notify_client-Keeps net b m (abort_if_virtual net m r)))
          (cleanup_tcp_stream-Settles net (notify_client net b m (abort_if_virtual net m r))))
