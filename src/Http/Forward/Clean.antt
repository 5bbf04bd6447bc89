-- ===== src/Http/Forward/Clean.antt =====
-- What of a request reaches a tunnel client.
use nodejs_wss_service_bridg.Base.{
  ℕ, ◌≤◌, ◌<◌, ◌≡◌, inl, inr, refl, ap, ◌∙◌, Bool, true, false, ◌||◌, List, [], ◌∷◌, ◌++◌, Option,
  none, some, leb, length, map, has, if_both, if_true, if_false, Bool-cases, All,
}
use nodejs_wss_service_bridg.Base.Map
use nodejs_wss_service_bridg.Base.Text.{Text, codes, IsSolid, text_eq}
use nodejs_wss_service_bridg.Base.TextMap.{get, put}
use nodejs_wss_service_bridg.Protocol.{req_meta}
use nodejs_wss_service_bridg.Clients.{Sockets, Clients, get_active_client}
use nodejs_wss_service_bridg.Server.{Global}
use nodejs_wss_service_bridg.Server.Allocate.{max_id, allocate_stream_id, allocate_stream_id-fresh}
use nodejs_wss_service_bridg.Http.{
  Value, one, several, RequestMeta, request_meta, send, emit, with_stream, can_send, send_frame,
  Net, Config, Exchange,
}
use nodejs_wss_service_bridg.Http.Forward.Hops.{hops, hops-forward_headers}
use nodejs_wss_service_bridg.Http.Headers.{is_dropped, sanitize_headers}
use nodejs_wss_service_bridg.Http.Streams.{new_exchange, create_stream}
use nodejs_wss_service_bridg.Http.Forward.{
  Incoming, Outcome, proxied, is_given, forward_host, forward_for, forward_proto, present,
  forward_headers, proxy_to, proxy_http_request,
}

-- No header is hop-by-hop or the host.
abbrev pub IsClean : List (Text × Value) → Type 0
IsClean headers = All (λ header. is_dropped true header.0 ≡ false) headers

put-IsClean :
    (key : Text) (value : Value) (headers : List (Text × Value))
    → is_dropped true key ≡ false
    → IsClean headers
    → IsClean (put key value headers)
unfolding put
put-IsClean key value [] k h = (k, tt)
put-IsClean key value ((j, w) ∷ headers) k h = elim (Bool-cases (text_eq j key)) [
  | inl same ↦ rw same h
  | inr differs ↦ rw differs (h.0, put-IsClean key value headers k h.1)
]

sanitize_headers-IsClean :
    (headers : List (Text × Option Value)) → IsClean (sanitize_headers true headers)
unfolding sanitize_headers
sanitize_headers-IsClean [] = tt
sanitize_headers-IsClean ((key, none) ∷ headers) = sanitize_headers-IsClean headers
sanitize_headers-IsClean ((key, some value) ∷ headers) = elim (Bool-cases (is_dropped true key)) [
  | inl dropped ↦ rw dropped (sanitize_headers-IsClean headers)
  | inr kept ↦ rw kept (
      if_both IsClean (false || text_eq key (codes "__proto__"))
        {y = (key, value) ∷ sanitize_headers true headers} (sanitize_headers-IsClean headers)
        (kept, sanitize_headers-IsClean headers))
]

forward_host-IsClean :
    (host : Option Value) (headers : List (Text × Value))
    → IsClean headers
    → IsClean (forward_host host headers)
unfolding forward_host is_dropped text_eq
forward_host-IsClean none headers h = h
forward_host-IsClean (some (one [])) headers h = h
forward_host-IsClean (some (one (c ∷ s))) headers h =
    put-IsClean (codes "x-forwarded-host") _ headers refl h
forward_host-IsClean (some (several texts)) headers h =
    put-IsClean (codes "x-forwarded-host") _ headers refl h

forward_for-IsClean :
    (remote : Option Text) (headers : List (Text × Value))
    → IsClean headers
    → IsClean (forward_for remote headers)
unfolding forward_for is_dropped text_eq
forward_for-IsClean none headers h = h
forward_for-IsClean (some []) headers h = h
forward_for-IsClean (some (c ∷ s)) headers h =
    put-IsClean (codes "x-forwarded-for") _ headers refl h

forward_proto-IsClean :
    (encrypted : Bool) (headers : List (Text × Value))
    → IsClean headers
    → IsClean (forward_proto encrypted headers)
unfolding forward_proto is_dropped text_eq
forward_proto-IsClean encrypted headers h =
    if_both IsClean (is_given (get (codes "x-forwarded-proto") headers)) h
      (put-IsClean (codes "x-forwarded-proto") _ headers refl h)

pub forward_headers-IsClean : (req : Incoming) → IsClean (forward_headers req)
unfolding forward_headers
forward_headers-IsClean req = forward_proto-IsClean req.encrypted _ (
    forward_for-IsClean req.remote_address _ (
      forward_host-IsClean (get (codes "host") req.headers) _
        (sanitize_headers-IsClean (map present req.headers))))

create_stream-sends :
    (net : Net) (config : Config) (ref id ws : ℕ) (meta : RequestMeta) (is_head : Bool)
    (streams : List (ℕ × ℕ))
    → net.is_open ws [] ≡ true
    → net.accepts ws [] ≡ true
    → (x : Exchange) × (create_stream net config ref id ws meta is_head streams ≡ (x, true))
      × (x.out ≡ send ws req_meta id (request_meta meta) ∷ [])
      × (x.streams ≡ Map.put id ref streams)
unfolding create_stream send_frame
create_stream-sends net config ref id ws meta is_head streams up takes =
    let x = new_exchange config ref id ws is_head streams in
    let asked = send_frame net req_meta (request_meta meta) x in
    let sendable : can_send net x ≡ true = rw (up, takes) refl in
    let sent : asked ≡ emit (send ws req_meta id (request_meta meta)) x =
      if_true {A = Exchange} x sendable in
    (
      with_stream asked (record (asked.stream) { request_writer = true }),
      if_true {A = Exchange × Bool} _ sendable,
      ap (λ y. y.out) sent,
      ap (λ y. y.streams) sent,
    )

proxy_to-opens :
    (net : Net) (config : Config) (ref : ℕ) (req : Incoming) (g : Global) (ws id : ℕ)
    (allocated : Global) (x : Exchange)
    → create_stream net config ref id ws
        (record { method = req.method; url = req.url; headers = forward_headers req })
        req.is_head
        g.streams
      ≡ (x, true)
    → proxy_to net config ref req g (some ws) (some id) allocated
      ≡ (proxied x true, record allocated { streams = x.streams })
unfolding proxy_to
proxy_to-opens net config ref req g ws id allocated x made =
    ap {A = Exchange × Bool} {B = Outcome × Global}
      (λ r. (proxied r.0 r.1, record allocated { streams = r.0.streams })) made

-- A request that `_proxyHttpRequest` takes on, one without `upgrade`, below the limit, and with an open
-- client that takes the frame, while there are fewer streams than ids and the next candidate is in
-- range, and whose socket has an address, not empty and without a comma or white space: a free stream
-- id is allocated, the stream is in the table under it, and the client is sent REQ_META and nothing
-- else. The headers in it have no hop-by-hop header and no host, and the hops that `x-forwarded-for`
-- names are those of the request's own header, and then the address.
pub proxy_http_request-forwards :
    (net : Net) (config : Config) (sockets : Sockets) (clients : Clients) (limit ref : ℕ)
    (req : Incoming) (g : Global) (ws c : ℕ) (s : Text)
    → is_given (get (codes "upgrade") req.headers) ≡ false
    → leb limit (length g.streams) ≡ false
    → get_active_client sockets clients ≡ some ws
    → 1 ≤ g.next_stream_id
    → g.next_stream_id ≤ max_id
    → length g.streams < max_id
    → net.is_open ws [] ≡ true
    → net.accepts ws [] ≡ true
    → req.remote_address ≡ some (c ∷ s)
    → has b',' (c ∷ s) ≡ false
    → IsSolid (c ∷ s)
    → (id : ℕ) × (x : Exchange) × (h : Global) × (proxy_http_request net config sockets clients
          limit ref req g
        ≡ (proxied x true, h))
      × (has id (Map.keys g.streams) ≡ false)
      × (h.streams ≡ Map.put id ref g.streams)
      × ((headers : List (Text × Value)) × (x.out
            ≡ send ws req_meta id
                (request_meta (record { method = req.method; url = req.url; headers = headers }))
              ∷ [])
          × IsClean headers
          × (hops (get (codes "x-forwarded-for") headers)
              ≡ hops (get (codes "x-forwarded-for") req.headers) ++ (c ∷ s) ∷ []))
unfolding proxy_http_request
proxy_http_request-forwards net config sockets clients limit ref req g ws c s plain room active low
      high free up takes from whole solid =
    let (id, e, positive, bounded, fresh, rest, more) = allocate_stream_id-fresh g low high free in
    let meta : RequestMeta = record {
      method = req.method;
      url = req.url;
      headers = forward_headers req;
    } in
    let (x, made, sent, kept) =
      create_stream-sends net config ref id ws meta req.is_head g.streams up takes in
    let allocated = (allocate_stream_id g).1 in
    let forwarded : proxy_http_request net config sockets clients limit ref req g
        ≡ (proxied x true, record allocated { streams = x.streams }) =
      if_false {A = Outcome × Global} _ plain
      ∙ if_false {A = Outcome × Global} _ room
      ∙ ap (λ client. proxy_to net config ref req g client (allocate_stream_id g).0 allocated)
          active
      ∙ ap (λ new. proxy_to net config ref req g (some ws) new allocated) e
      ∙ proxy_to-opens net config ref req g ws id allocated x made in
    (
      id,
      x,
      record ((allocate_stream_id g).1) { streams = x.streams },
      forwarded,
      fresh,
      kept,
      (
        forward_headers req,
        sent,
        forward_headers-IsClean req,
        hops-forward_headers req c s from whole solid,
      ),
    )
