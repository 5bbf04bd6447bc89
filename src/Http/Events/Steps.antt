-- ===== src/Http/Events/Steps.antt =====
-- Every event of an HTTP exchange leaves it open or over.
use nodejs_wss_service_bridg.Base.{
  ℕ, ◌≡◌, ◌≢◌, ◌⊎◌, inl, inr, refl, sym, ◌∙◌, Bool, true, false, not, ◌&&◌, List, [], some, String,
  arith, ◌==◌, if◌then◌else◌, if_both, if_elim, if_true, if_false, Bool-cases, Distinct,
}
use mathlib.Core.Bool.{false≢true}
use nodejs_wss_service_bridg.Base.Map.{get, delete, keys, get-delete_self, get-delete_ne}
use nodejs_wss_service_bridg.Base.Text.{text_eq}
use nodejs_wss_service_bridg.Protocol.{req_abort, pause, resume}
use nodejs_wss_service_bridg.Server.{or_default}
use nodejs_wss_service_bridg.Http.{
  Body, Reply, nothing, empty, message, Effect, send, write_head, res_destroy, req_destroy,
  writer_destroy, Net, Exchange, emit, with_stream, can_send, send_frame,
}
use nodejs_wss_service_bridg.Http.Streams.{
  no_store_headers, end_response, clean, cleanup_stream, notify_client, refuse, answer_user,
  abort_stream,
}
use nodejs_wss_service_bridg.Http.Events.{
  is_clean, Phase, fresh, headed, response, respond, is_broken, Asked, unasked, asking, asked,
  withdrawn, wrong, request, ask, is_asking, is_wrong, sent, FitsResponse, FitsRequest, IsOpen,
  IsOver,
}

-- An exchange whose end has begun: its calls are in order, and it is not cleaned yet.
pub record Ending (ref id : ℕ) (streams : List (ℕ × ℕ)) (cleaned : Bool) (p : Phase) (q : Asked)
    : Type 0 where
  pub sole : (j : ℕ) → get j streams ≡ some ref → j ≡ id
  pub live : cleaned ≡ false
  pub distinct : Distinct (keys streams)
  pub responded : is_broken p ≡ false
  pub requested : is_wrong q ≡ false

abbrev pub IsEnding : Exchange → Type 0
IsEnding x = Ending x.ref x.stream.id x.streams x.stream.cleaned (response x.out) (request x.out)

pub fits_unbroken : (s e : Bool) (p : Phase) → FitsResponse s e p → is_broken p ≡ false
fits_unbroken false e p h = ground arith
fits_unbroken true false p h = ground arith
fits_unbroken true true p h = h

asking_right : (p : Asked) → is_asking p ≡ true → is_wrong p ≡ false
asking_right asking h = refl
asking_right asked h = refl
asking_right unasked h = refl
asking_right withdrawn h = refl
asking_right wrong h = absurd (false≢true h)

pub fits_asking : (e : Bool) (p : Asked) → FitsRequest e p → is_asking p ≡ true
fits_asking false p h = rw h refl
fits_asking true p h = h

quiet_call :
    (x : Exchange) (e : Effect)
    → respond e (response x.out) ≡ response x.out
    → ask e (request x.out) ≡ request x.out
    → IsOver x
    → IsOver (emit e x)
quiet_call x e p q h = record {
  cleaned = h.cleaned;
  gone = h.gone;
  untimed = h.untimed;
  responded = rw p h.responded;
  requested = rw q h.requested;
}

destroyed-IsOver :
    (net : Net) (writer : Bool) (x : Exchange)
    → IsOver x
    → IsOver (
        let unread = emit req_destroy (if writer then emit writer_destroy x else x) in
        if not (net.writable_ended unread.out) then emit res_destroy unread else unread)
destroyed-IsOver net writer x h =
    let unwritten : IsOver (if writer then emit writer_destroy x else x) =
      if_both IsOver writer (quiet_call x writer_destroy refl refl h) h in
    let unread = quiet_call _ req_destroy refl refl unwritten in
    if_both IsOver _ (quiet_call _ res_destroy refl refl unread) unread

deleted :
    (ref id : ℕ) (m : List (ℕ × ℕ))
    → Distinct (keys m)
    → ((j : ℕ) → get j m ≡ some ref → j ≡ id)
    → (j : ℕ) → get j (delete id m) ≢ some ref
deleted ref id m d sole j e = elim (Bool-cases (j == id)) [
  | inl same ↦ ground (arith, get-delete_self id m d)
  | inr other ↦
      let apart : j ≢ id = λ eq. absurd (ground arith) in
      apart (sole j (sym (get-delete_ne j id m apart) ∙ e))
]

clean-IsOver : (net : Net) (x : Exchange) → IsEnding x → IsOver (clean net x)
unfolding clean
clean-IsOver net x h =
    let s = x.stream in
    let gone = deleted x.ref s.id x.streams h.distinct h.sole in
    let marked : Exchange = record x {
      streams = delete s.id x.streams;
      stream = record s { cleaned = true; timer = false };
    } in
    let over : IsOver marked = record {
      cleaned = refl;
      gone = gone;
      untimed = refl;
      responded = h.responded;
      requested = h.requested;
    } in
    destroyed-IsOver net s.request_writer marked over

pub cleanup_stream-IsOver : (net : Net) (x : Exchange) → IsEnding x → IsOver (cleanup_stream net x)
unfolding cleanup_stream
cleanup_stream-IsOver net x h = rw (if_false {A = Exchange} x h.live) (clean-IsOver net x h)

pub no_store-is_clean : is_clean no_store_headers ≡ true
unfolding is_clean text_eq
no_store-is_clean = refl

-- A frame to the client goes out or not; it changes nothing but the calls.
pub send_frame-sends :
    (net : Net) (type : ℕ) (body : Body) (x : Exchange)
    → (send_frame net type body x ≡ emit (send x.stream.ws type x.stream.id body) x)
      ⊎ (send_frame net type body x ≡ x)
unfolding send_frame
send_frame-sends net type body x = elim (Bool-cases (can_send net x)) [
  | inl yes_sent ↦ inl (if_true {A = Exchange} x yes_sent)
  | inr unsent ↦ inr (if_false {A = Exchange} _ unsent)
]

withdraw-right : (p : Asked) → is_asking p ≡ true → is_wrong (sent req_abort p) ≡ false
withdraw-right asking h = refl
withdraw-right asked h = refl
withdraw-right unasked h = absurd (false≢true h)
withdraw-right withdrawn h = absurd (false≢true h)
withdraw-right wrong h = absurd (false≢true h)

-- The exchange with its state object changed where the end does not look.
pub record IsEndingOpen (x : Exchange) : Type 0 where
  ending : IsEnding x
  responding : FitsResponse x.stream.response_started x.stream.response_ended (response x.out)

pub open-IsEnding : (x : Exchange) → IsOpen x → IsEnding x
open-IsEnding x h = record {
  live = h.live;
  distinct = h.distinct;
  sole = h.sole;
  responded = fits_unbroken _ _ _ h.responding;
  requested = asking_right _ (fits_asking _ _ h.requesting);
}

notify_client-IsEnding :
    (net : Net) (notify : Bool) (reason : String) (x : Exchange)
    → IsOpen x
    → IsEndingOpen (notify_client net notify reason x)
unfolding notify_client
notify_client-IsEnding net notify reason x h =
    let marked : Exchange = with_stream x (record (x.stream) { abort_sent = true }) in
    let text = message (or_default reason "Stream aborted") in
    let right = fits_asking x.stream.request_ended (request x.out) h.requesting in
    let unsent : IsEndingOpen marked = record {
      ending = record {
        live = h.live;
        distinct = h.distinct;
        sole = h.sole;
        responded = fits_unbroken _ _ _ h.responding;
        requested = asking_right _ right;
      };
      responding = h.responding;
    } in
    let told : IsEndingOpen (emit (send x.stream.ws req_abort x.stream.id text) marked) = record {
      ending = record {
        live = h.live;
        distinct = h.distinct;
        sole = h.sole;
        responded = fits_unbroken _ _ _ h.responding;
        requested = withdraw-right (request x.out) right;
      };
      responding = h.responding;
    } in
    if_both IsEndingOpen (notify && net.is_open x.stream.ws x.out && not x.stream.abort_sent)
      (elim (send_frame-sends net req_abort text marked) [
        | inl e ↦ rw e told
        | inr e ↦ rw e unsent
      ])
      (record { ending = open-IsEnding x h; responding = h.responding })

pub end_response-IsEnding :
    (net : Net) (reply : Reply) (x : Exchange)
    → IsEnding x
    → response x.out ≡ headed
    → IsEnding (end_response net reply x)
unfolding end_response
end_response-IsEnding net reply x h e =
    if_both IsEnding (net.end_accepts x.out)
      (record {
        live = h.live;
        distinct = h.distinct;
        sole = h.sole;
        responded = rw e refl;
        requested = h.requested;
      })
      h

refuse-IsEnding :
    (net : Net) (reason : String) (x : Exchange)
    → IsEnding x
    → response x.out ≡ fresh
    → IsEnding (refuse net reason x)
unfolding refuse
refuse-IsEnding net reason x h e =
    let headers : Exchange = emit (write_head 502 [] no_store_headers) x in
    let begun : response headers.out ≡ headed = rw (no_store-is_clean, e) refl in
    if_both IsEnding (net.head_accepts 502 [] no_store_headers x.out)
      (end_response-IsEnding net _ headers
        (record {
          live = h.live;
          distinct = h.distinct;
          sole = h.sole;
          responded = rw begun refl;
          requested = h.requested;
        })
        begun)
      h

answer_user-IsEnding :
    (net : Net) (reason : String) (x : Exchange)
    → IsEndingOpen x
    → IsEnding (answer_user net reason x)
unfolding answer_user
answer_user-IsEnding net reason x h =
    let s = x.stream in
    if_elim IsEnding (not s.response_started)
      (λ unstarted.
        refuse-IsEnding net reason x h.ending
          (unfit s.response_started s.response_ended (response x.out) h.responding unstarted))
      (λ started.
        if_elim IsEnding (not s.response_ended)
          (λ unended. end_response-IsEnding net nothing x h.ending (
            going s.response_started s.response_ended (response x.out) h.responding started
              unended))
          (λ _. h.ending))
  where
    unfit : (s e : Bool) (p : Phase) → FitsResponse s e p → not s ≡ true → p ≡ fresh
    unfit false e p f n = f
    unfit true e p f n = absurd (false≢true n)

    going :
        (s e : Bool) (p : Phase) → FitsResponse s e p → not s ≡ false → not e ≡ true → p ≡ headed
    going true false p f n m = f
    going true true p f n m = absurd (false≢true m)
    going false e p f n m = absurd (false≢true (sym n))

pub abort_stream-IsOver :
    (net : Net) (reason : String) (notify : Bool) (x : Exchange)
    → IsOpen x
    → IsOver (abort_stream net reason notify x)
unfolding abort_stream
abort_stream-IsOver net reason notify x h = rw (if_false {A = Exchange} x h.live) (
    cleanup_stream-IsOver net _
      (answer_user-IsEnding net reason _ (notify_client-IsEnding net notify reason x h)))

-- The exchange is open or over.
pub data Keeps (x : Exchange) : Type 0 where
  goes_on : IsOpen x → Keeps x
  is_over : IsOver x → Keeps x

-- A pause or a resume to the client.
go_on-same :
    (type : ℕ) (p : Asked) → (type ≡ pause) ⊎ (type ≡ resume) → is_asking p ≡ true → sent type p ≡ p
go_on-same type asking (inl e) h = rw e refl
go_on-same type asking (inr e) h = rw e refl
go_on-same type asked (inl e) h = rw e refl
go_on-same type asked (inr e) h = rw e refl
go_on-same type unasked e h = absurd (false≢true h)
go_on-same type withdrawn e h = absurd (false≢true h)
go_on-same type wrong e h = absurd (false≢true h)

pub send_frame-IsOpen :
    (net : Net) (type : ℕ) (x : Exchange)
    → (type ≡ pause) ⊎ (type ≡ resume)
    → IsOpen x
    → IsOpen (send_frame net type empty x)
send_frame-IsOpen net type x e h =
    let same =
      go_on-same type (request x.out) e
        (fits_asking x.stream.request_ended (request x.out) h.requesting) in
    elim (send_frame-sends net type empty x) [
      | inl s ↦ rw s (record {
        live = h.live;
        entry = h.entry;
        sole = h.sole;
        distinct = h.distinct;
        unaborted = h.unaborted;
        responding = h.responding;
        requesting = rw same h.requesting;
      })
      | inr s ↦ rw s h
    ]
