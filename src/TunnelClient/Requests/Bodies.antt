-- ===== src/TunnelClient/Requests/Bodies.antt =====
-- The body of a proxied request at the tunnel client.
use nodejs_wss_service_bridg.Base.{
  ℕ, ◌≡◌, refl, ap, ◌∙◌, true, false, not, ◌||◌, List, ◌∷◌, Option, none, some, leb, length, has,
  arith, ==_self, if_true, if_false, ok, map,
}
use nodejs_wss_service_bridg.Base.Map
use nodejs_wss_service_bridg.Base.Text.{Text}
use nodejs_wss_service_bridg.Protocol.{Bytes, parse_json_payload}
use nodejs_wss_service_bridg.Http.{RequestMeta}
use nodejs_wss_service_bridg.Http.Forward.{present}
use nodejs_wss_service_bridg.TunnelClient.{
  request_end, request_write, Effect, Net, Config, Stream, Client, change, emit, reset_idle_timer,
}
use nodejs_wss_service_bridg.TunnelClient.Frames.{handle_req_data}
use nodejs_wss_service_bridg.TunnelClient.Requests.{
  Asked, AskedJson, object, Target, awaits_body, add_request, local_method, local_headers,
  local_request, start_request, read_request, handle_req_meta,
}

-- What the client reads of the payload that the server makes of its `meta`.
abbrev pub as_asked : RequestMeta → Asked
as_asked meta = record {
  url = some meta.url;
  method = some meta.method;
  headers = map present meta.headers;
  body_length = none;
}

never_awaited : (method : Text) → awaits_body method none ≡ false
unfolding awaits_body
never_awaited method = ground arith

taken_chunk :
    (net : Net) (chunk : Bytes) (ref : ℕ) (d : Client)
    → (d.objects ref).cleaned ≡ false
    → (d.objects ref).local_req ≡ true
    → net.request_accepts ref d.out ≡ true
    → (handle_req_data net ref chunk d).out ≡ request_write ref chunk ∷ d.out
unfolding handle_req_data
taken_chunk net chunk ref d live asked takes =
    let waiting : ((d.objects ref).cleaned || not (d.objects ref).local_req) ≡ false =
      rw (live, asked) refl in
    ap (λ e. e.out) (if_false {A = Client} d waiting ∙ if_true {A = Client} _ takes)

changed : (ref : ℕ) (s : Stream) (d : Client) → (change ref s d).objects ref ≡ s
changed ref s d = if_true {A = Stream} (d.objects ref) (==_self ref)

added_live :
    (config : Config) (ws id : ℕ) (c : Client)
    → ((add_request config ws id c).objects c.next_object).cleaned ≡ false
unfolding add_request reset_idle_timer
added_live config ws id c = rw (==_self c.next_object) refl

module _ (net : Net) (config : Config) (target : Target) (parse : Bytes → Option AskedJson)
    (ws id : ℕ) (payload : Bytes) (meta : RequestMeta) (c : Client) where
  -- The client behind the local request, which is opened and ended.
  abbrev pub ended : Client
  ended =
      let ref = c.next_object in
      let added = add_request config ws id c in
      emit (request_end ref) (
        change ref (record (added.objects ref) { local_req = true })
          (emit (local_request target ref (as_asked meta)) added))

  start-ended :
      target.opens (local_method (as_asked meta)) (local_headers target (as_asked meta)) ≡ true
      → start_request net target c.next_object (object (as_asked meta)) (add_request config ws id c)
        ≡ ended
  unfolding start_request
  start-ended opens =
      if_false {A = Client} {b = not (target.opens _ _)} _ (ap not opens)
      ∙ if_false {A = Client} _ (never_awaited (local_method (as_asked meta)))

  read-started :
      target.opens (local_method (as_asked meta)) (local_headers target (as_asked meta)) ≡ true
      → read_request net config target ws id (ok (object (as_asked meta))) c ≡ ended
  unfolding read_request
  read-started opens = start-ended opens

  written :
      (chunk : Bytes)
      → ((out : List Effect) → net.request_accepts c.next_object out ≡ true)
      → (handle_req_data net c.next_object chunk ended).out
        ≡ request_write c.next_object chunk
          ∷ request_end c.next_object
          ∷ local_request target c.next_object (as_asked meta)
          ∷ c.out
  unfolding add_request
  written chunk takes =
      let ref = c.next_object in
      let added = add_request config ws id c in
      taken_chunk net chunk ref ended
        (ap (λ s. s.cleaned) (changed ref (record (added.objects ref) { local_req = true }) added)
          ∙ added_live config ws id c)
        (ap (λ s. s.local_req)
          (changed ref (record (added.objects ref) { local_req = true }) added))
        (takes ended.out)
      ∙ refl

  -- The body of a request that the server proxies is lost: its REQ_META has no `bodyLength`, so the
  -- tunnel client, if it is below its limit, has no stream under the id, reads the payload, and can
  -- open the local request, ends that request at once, whatever its method; and a chunk of the body
  -- that comes afterwards is written to a request that has ended, if `write` does not throw.
  pub body_written_after_end :
      (chunk : Bytes)
      → leb config.max_concurrent_streams (length c.streams) ≡ false
      → has id (Map.keys c.streams) ≡ false
      → parse_json_payload parse config.max_frame_payload payload ≡ ok (object (as_asked meta))
      → target.opens (local_method (as_asked meta)) (local_headers target (as_asked meta)) ≡ true
      → ((out : List Effect) → net.request_accepts c.next_object out ≡ true)
      → (handle_req_data net c.next_object chunk
          (handle_req_meta net config target parse ws id payload c)).out
        ≡ request_write c.next_object chunk
          ∷ request_end c.next_object
          ∷ local_request target c.next_object (as_asked meta)
          ∷ c.out
  unfolding handle_req_meta
  body_written_after_end chunk room new read opens takes =
      let handled : handle_req_meta net config target parse ws id payload c ≡ ended =
        if_false {A = Client} _ room
        ∙ if_false {A = Client} _ new
        ∙ ap (λ r. read_request net config target ws id r c) read
        ∙ read-started opens in
      ap (λ d. (handle_req_data net c.next_object chunk d).out) handled ∙ written chunk takes
