-- ===== src/Http/Forward.antt =====
-- src/server/HttpRouter.js: `_proxyHttpRequest` up to the call of `createStream`.
pub mod Hops
pub mod Clean
use nodejs_wss_service_bridg.Base.{
  ℕ, Bool, true, false, List, [], ◌∷◌, ◌++◌, Option, none, some, String, leb, length, map,
  if◌then◌else◌,
}
use nodejs_wss_service_bridg.Base.Text.{Text, codes, is_empty}
use nodejs_wss_service_bridg.Base.TextMap.{get, put}
use nodejs_wss_service_bridg.Clients.{Sockets, Clients, get_active_client}
use nodejs_wss_service_bridg.Server.{Global}
use nodejs_wss_service_bridg.Server.Allocate.{allocate_stream_id}
use nodejs_wss_service_bridg.Http.{
  Value, one, several, RequestMeta, Reply, error, plain, Net, Config, Exchange,
}
use nodejs_wss_service_bridg.Http.Headers.{sanitize_headers}
use nodejs_wss_service_bridg.Http.Streams.{no_store_headers, create_stream}

-- What is read of a request; `headers` has lower-case names. `is_head` says that the method is HEAD.
pub record Incoming : Type 0 where
  pub method : Text
  pub is_head : Bool
  pub url : Text
  pub headers : List (Text × Value)
  pub remote_address : Option Text
  pub encrypted : Bool

-- What a request comes to: an answer by `writeHead` and `end`, or an exchange, with what
-- `createStream` says of it: whether the listeners are set.
pub data Outcome : Type 0 where
  answered : ℕ → List (Text × Option Value) → Reply → Outcome
  proxied : Exchange → Bool → Outcome

abbrev pub plain_headers : List (Text × Option Value)
plain_headers = (codes "Content-Type", some (one (codes "text/plain; charset=utf-8"))) ∷ []

abbrev pub answer : ℕ → String → Outcome
answer status text = answered status plain_headers (plain text)

-- The tests `if (value)` of a header that may be missing.
abbrev pub is_given : Option Value → Bool
is_given none = false
is_given (some (one [])) = false
is_given (some (one (c ∷ s))) = true
is_given (some (several texts)) = true

unfoldable pub forward_host : Option Value → List (Text × Value) → List (Text × Value)
unfolding put
forward_host none headers = headers
forward_host (some host) headers =
    if is_given (some host) then put (codes "x-forwarded-host") host headers else headers

-- The value of `x-forwarded-for` with the address of the request's socket.
abbrev pub add_hop : Text → Option Value → Value
add_hop xff none = one xff
add_hop xff (some (one [])) = one xff
add_hop xff (some (one (c ∷ s))) = one ((c ∷ s) ++ codes ", " ++ xff)
add_hop xff (some (several texts)) = several (texts ++ xff ∷ [])

unfoldable pub forward_for : Option Text → List (Text × Value) → List (Text × Value)
unfolding get put
forward_for none headers = headers
forward_for (some xff) headers =
    if is_empty xff
    then headers
    else put (codes "x-forwarded-for") (add_hop xff (get (codes "x-forwarded-for") headers)) headers

unfoldable pub forward_proto : Bool → List (Text × Value) → List (Text × Value)
unfolding get put
forward_proto encrypted headers =
    if is_given (get (codes "x-forwarded-proto") headers)
    then headers
    else put (codes "x-forwarded-proto") (one (if encrypted then codes "https" else codes "http"))
        headers

abbrev pub present : Text × Value → Text × Option Value
present (key, value) = (key, some value)

-- The headers of REQ_META.
unfoldable pub forward_headers : Incoming → List (Text × Value)
unfolding sanitize_headers get forward_host forward_for forward_proto
forward_headers req = forward_proto req.encrypted (
    forward_for req.remote_address (
      forward_host (get (codes "host") req.headers)
        (sanitize_headers true (map present req.headers))))

-- The end of `_proxyHttpRequest`, for the client and the id that were found; `g` is the state before
-- the allocation.
unfoldable pub proxy_to :
    Net → Config → ℕ → Incoming → Global → Option ℕ → Option ℕ → Global → Outcome × Global
unfolding create_stream forward_headers
proxy_to net config ref req g none id allocated =
    (answered 503 no_store_headers (error "tunnel_unavailable" "No tunnel client connected"), g)
proxy_to net config ref req g (some ws) none allocated =
    (answer 503 "No available stream id", allocated)
proxy_to net config ref req g (some ws) (some id) allocated =
    let meta : RequestMeta = record {
      method = req.method;
      url = req.url;
      headers = forward_headers req;
    } in
    let (x, made) = create_stream net config ref id ws meta req.is_head g.streams in
    (proxied x made, record allocated { streams = x.streams })

-- `_proxyHttpRequest`; `ref` is the reference of the state object that it makes.
unfoldable pub proxy_http_request :
    Net → Config → Sockets → Clients → ℕ → ℕ → Incoming → Global → Outcome × Global
unfolding get get_active_client allocate_stream_id proxy_to
proxy_http_request net config sockets clients max_concurrent_streams ref req g =
    let (id, allocated) = allocate_stream_id g in
    if is_given (get (codes "upgrade") req.headers)
    then (answer 501 "Upgrade is not supported by this tunnel", g)
    else if leb max_concurrent_streams (length g.streams)
    then (answer 503 "Too many concurrent streams", g)
    else proxy_to net config ref req g (get_active_client sockets clients) id allocated
