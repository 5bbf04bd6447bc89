-- ===== src/TunnelClient/Requests.antt =====
-- serve/client.js: `handleReqMeta`, the case REQ_META of `handleServerFrame`, up to the local request.
pub mod Bodies
use nodejs_wss_service_bridg.Base.{
  ℕ, ◌+◌, ◌≡◌, refl, ap, ◌∙◌, Bool, true, false, not, ◌&&◌, ◌||◌, List, [], ◌∷◌, ◌++◌, Option, none,
  some, ltb, leb, length, has, arith, ◌-◌, take, drop, ◌==◌, if◌then◌else◌, if_true, if_false,
  Result, ok, err,
}
use nodejs_wss_service_bridg.Base.Map
use nodejs_wss_service_bridg.Base.Text.{Text, codes, text_eq, is_empty, index_of}
use nodejs_wss_service_bridg.Base.TextMap
use nodejs_wss_service_bridg.Protocol.{Bytes, JsonError, parse_json_payload, res_abort}
use nodejs_wss_service_bridg.Http.{Value, one, RequestMeta}
use nodejs_wss_service_bridg.Http.Headers.{sanitize_headers, text_in}
use nodejs_wss_service_bridg.Http.Forward.{present}
use nodejs_wss_service_bridg.Base.{map}
use nodejs_wss_service_bridg.TunnelClient.{
  Reason, too_many_requests, duplicate_stream_id, invalid_req_meta, target_failed, message, Effect,
  request_open, request_end, request_write, Net, Config, Stream, Client, change, emit, send_frame,
  reset_idle_timer,
}
use nodejs_wss_service_bridg.TunnelClient.TcpHandler.{new_stream}
use nodejs_wss_service_bridg.TunnelClient.Frames.{send_res_abort, handle_req_data}

-- The fields that are read of the payload, `none` where one is missing.
pub record Asked : Type 0 where
  pub url : Option Text
  pub method : Option Text
  pub headers : List (Text × Option Value)
  pub body_length : Option ℕ

pub data AskedJson : Type 0 where
  null : AskedJson
  object : Asked → AskedJson

-- TARGET_ORIGIN by its path and its host; `resolve` is the path and the query of `new URL` on it,
-- `none` for a throw, and `opens` says that `request` does not throw.
pub record Target : Type 0 where
  pub pathname : Text
  pub host : Text
  pub resolve : Text → Option (Text × Text)
  pub opens : Text → List (Text × Value) → Bool

abbrev pub or_text : Option Text → Text → Text
or_text none other = other
or_text (some []) other = other
or_text (some (c ∷ s)) other = c ∷ s

abbrev pub split_query : Text → Option ℕ → Text × Text
split_query raw none = (raw, [])
split_query raw (some i) = (take i raw, drop i raw)

abbrev pub slash_first : Text → Text
slash_first [] = codes "/"
slash_first (c ∷ s) = if c == b'/' then c ∷ s else b'/' ∷ c ∷ s

-- The path and the query, where `new URL` gives them and where it throws.
unfoldable pub path_and_query : Option (Text × Text) → Text → Text × Text
unfolding index_of
path_and_query (some (pathname, search)) raw = (or_text (some pathname) (codes "/"), search)
path_and_query none raw =
    let (pathname, search) = split_query raw (index_of b'?' raw) in (slash_first pathname, search)

unfoldable pub without_last_slash : Text → Text
without_last_slash [] = []
without_last_slash (c ∷ []) = if c == b'/' then [] else c ∷ []
without_last_slash (c ∷ d ∷ s) = c ∷ without_last_slash (d ∷ s)

-- `toUpperCase`, exact for ASCII texts.
unfoldable pub to_upper : Text → Text
to_upper [] = []
to_upper (c ∷ s) = (if leb b'a' c && leb c b'z' then c - 32 else c) ∷ to_upper s

abbrev pub is_positive : Option ℕ → Bool
is_positive none = false
is_positive (some n) = ltb 0 n

-- The test before the local request is ended.
unfoldable pub awaits_body : Text → Option ℕ → Bool
unfolding text_in
awaits_body method body_length =
    text_in method (codes "POST" ∷ codes "PUT" ∷ codes "PATCH" ∷ []) && is_positive body_length

abbrev pub http_stream : ℕ → ℕ → Stream
http_stream id ws = record (new_stream id ws) { is_tcp = false }

-- The state object in the table, its timer set.
unfoldable pub add_request : Config → ℕ → ℕ → Client → Client
unfolding reset_idle_timer
add_request config ws id c =
    let ref = c.next_object in
    reset_idle_timer config ref (record (change ref (http_stream id ws) c) {
      streams = Map.put id ref c.streams;
      next_object = ref + 1;
    })

abbrev pub local_method : Asked → Text
local_method meta = to_upper (or_text meta.method (codes "GET"))

unfoldable pub local_headers : Target → Asked → List (Text × Value)
unfolding sanitize_headers TextMap.put
local_headers target meta =
    TextMap.put (codes "host") (one target.host) (sanitize_headers true meta.headers)

-- The effect of `request`.
abbrev pub local_request : Target → ℕ → Asked → Effect
local_request target ref meta =
    let raw = or_text meta.url (codes "/") in
    let (pathname, search) = path_and_query (target.resolve raw) raw in
    request_open ref (local_method meta) (without_last_slash target.pathname ++ pathname) search
      (local_headers target meta)

-- The `try` of `handleReqMeta`, for the state object `ref` of the table.
unfoldable pub start_request : Net → Target → ℕ → AskedJson → Client → Client
unfolding to_upper send_res_abort awaits_body
start_request net target ref null c = send_res_abort net ref target_failed c
start_request net target ref (object meta) c =
    let opened =
      change ref (record (c.objects ref) { local_req = true })
        (emit (local_request target ref meta) c) in
    if not (target.opens (local_method meta) (local_headers target meta))
    then send_res_abort net ref target_failed c
    else if awaits_body (local_method meta) meta.body_length
    then opened
    else emit (request_end ref) opened

unfoldable pub read_request :
    Net → Config → Target → ℕ → ℕ → Result JsonError AskedJson → Client → Client
unfolding start_request add_request send_frame
read_request net config target ws id (err e) c =
    send_frame net ws res_abort id (message invalid_req_meta) c
read_request net config target ws id (ok meta) c =
    start_request net target c.next_object meta (add_request config ws id c)

-- `handleReqMeta`
unfoldable pub handle_req_meta :
    Net → Config → Target → (Bytes → Option AskedJson) → ℕ → ℕ → Bytes → Client → Client
unfolding read_request send_frame
handle_req_meta net config target parse ws id payload c =
    if leb config.max_concurrent_streams (length c.streams)
    then send_frame net ws res_abort id (message too_many_requests) c
    else if has id (Map.keys c.streams)
    then send_frame net ws res_abort id (message duplicate_stream_id) c
    else read_request net config target ws id
        (parse_json_payload parse config.max_frame_payload payload) c
