-- ===== src/TcpAgent/Requests/Answers.antt =====
-- What the server's answer to a request does to the connections that wait at the agent.
use nodejs_wss_service_bridg.Base.{
  ℕ, ◌≤◌, ◌≡◌, refl, ap, true, false, ◌&&◌, List, [], ◌∷◌, ◌++◌, Option, none, some, arith, ◌==◌,
  if_true, if_false, ==_iff, ok, has,
}
use nodejs_wss_service_bridg.Base.Map.{get, get-put}
use nodejs_wss_service_bridg.Objects.{set}
use nodejs_wss_service_bridg.Protocol.{
  Bytes, Message, Frame, parse_frame, parse_json_payload, tcp_connect_ack, tcp_abort,
}
use nodejs_wss_service_bridg.Server.{Json, object, Info}
use nodejs_wss_service_bridg.Server.ClientFrames.{json_limit}
use nodejs_wss_service_bridg.Server.Connect.{valid_request_id}
use nodejs_wss_service_bridg.TcpAgent.{Net, Pending, Agent, destroy}
use nodejs_wss_service_bridg.TcpAgent.Local.{splice_first, max_safe_integer}
use nodejs_wss_service_bridg.TcpAgent.Streams.{register_stream, new_entry}
use nodejs_wss_service_bridg.TcpAgent.Frames.{
  find_pending, register_found, destroy_found, ack_read, reject_read, handle_frame,
  handle_server_frame, handle_connect_ack, handle_connect_reject,
}
use nodejs_wss_service_bridg.TcpAgent.Requests.{
  IsNumbered, ids, splice_first-middle, others-differ, given-middle,
}

module _ (pre : List Pending) (e : Pending) (post : List Pending) (next : ℕ)
    (numbered : IsNumbered (pre ++ e ∷ post) next) (range : next ≤ max_safe_integer) where
  valid : valid_request_id (some e.request_id) ≡ some e.request_id
  valid = ground (arith, given-middle next pre e post numbered)

  found_by_id :
      (info : Info)
      → info.request_id ≡ some e.request_id
      → find_pending info (pre ++ e ∷ post) ≡ some (e, pre ++ post)
  unfolding find_pending
  found_by_id info named =
      rw (named, valid)
        (splice_first-middle (λ q. q.request_id == e.request_id) pre e post
          (others-differ next pre e post numbered) (ground arith))

module _ (net : Net) (parse : Bytes → Option Json) (a : Agent) (pre : List Pending) (e : Pending)
    (post : List Pending) (m : Message) (f : Frame) (info : Info) where
  -- The server's acknowledgement of a request registers the connection that asked, and no other: with
  -- numbered waiting connections, an acknowledgement that carries the request id of one of them takes
  -- that one out of the list, and enters a stream under the frame's id whose local socket is that of
  -- the connection, provided that the socket is not destroyed.
  pub ack-registers :
      IsNumbered (pre ++ e ∷ post) a.next_connect_request_id
      → a.next_connect_request_id ≤ max_safe_integer
      → a.pending_connects ≡ pre ++ e ∷ post
      → parse_frame m ≡ ok f
      → f.type ≡ tcp_connect_ack
      → parse_json_payload parse json_limit f.payload ≡ ok (object info)
      → info.request_id ≡ some e.request_id
      → a.destroyed e.local_socket ≡ false
      → (b : Agent) × (handle_server_frame net parse m a ≡ some b)
        × (b.pending_connects ≡ pre ++ post)
        × (get f.stream_id b.streamed_sockets ≡ some a.next_entry)
        × (b.entries a.next_entry ≡ new_entry f.stream_id e.local_socket)
  unfolding handle_server_frame handle_frame handle_connect_ack ack_read register_found
      register_stream
  ack-registers numbered range waits framed ack read named there =
      let spliced : Agent = record a { pending_connects = pre ++ post } in
      let b : Agent = register_stream f.stream_id e.local_socket spliced in
      let found : find_pending info a.pending_connects ≡ some (e, pre ++ post) =
        rw waits (found_by_id pre e post a.next_connect_request_id numbered range info named) in
      let done : ack_read f.stream_id (ok (object info)) a ≡ some b =
        ap (λ o. some (register_found f.stream_id o a)) found in
      (
        b,
        rw (framed, if_true {A = Option Agent} _ ((==_iff f.type tcp_connect_ack).1 ack), read)
            done,
        rw (if_false {A = Agent} spliced there),
        rw (if_false {A = Agent} spliced there)
            (ground (arith, get-put f.stream_id f.stream_id a.next_entry a.streamed_sockets)),
        rw (if_false {A = Agent} spliced there) (ground arith),
      )

  -- The server's rejection of a request ends the connection that asked, and no other: with numbered
  -- waiting connections, a rejection that carries the request id of one of them takes that one out of
  -- the list and destroys its local socket; the other sockets and the streams stay as they were.
  pub reject-destroys :
      IsNumbered (pre ++ e ∷ post) a.next_connect_request_id
      → a.next_connect_request_id ≤ max_safe_integer
      → a.pending_connects ≡ pre ++ e ∷ post
      → parse_frame m ≡ ok f
      → f.type ≡ tcp_abort
      → f.stream_id ≡ 0
      → parse_json_payload parse json_limit f.payload ≡ ok (object info)
      → info.request_id ≡ some e.request_id
      → (b : Agent) × (handle_server_frame net parse m a ≡ some b)
        × (b.pending_connects ≡ pre ++ post)
        × (b.destroyed ≡ set e.local_socket true a.destroyed)
        × (b.streamed_sockets ≡ a.streamed_sockets)
  unfolding handle_server_frame handle_frame handle_connect_reject reject_read destroy_found
  reject-destroys numbered range waits framed aborts unnamed read named =
      let b : Agent = destroy e.local_socket (record a { pending_connects = pre ++ post }) in
      let found : find_pending info a.pending_connects ≡ some (e, pre ++ post) =
        rw waits (found_by_id pre e post a.next_connect_request_id numbered range info named) in
      let done : reject_read (ok (object info)) a ≡ some b =
        ap (λ o. some (destroy_found o a)) found in
      let no_ack : (f.type == tcp_connect_ack) ≡ false = ground arith in
      let is_reject : (f.type == tcp_abort && f.stream_id == 0) ≡ true = ground arith in
      (
        b,
        rw
            (
              framed,
              if_false {A = Option Agent} _ no_ack,
              if_true {A = Option Agent} _ is_reject,
              read,
            )
            done,
        refl,
        refl,
        refl,
      )

module _ (net : Net) (parse : Bytes → Option Json) (a : Agent) (m : Message) (f : Frame)
    (info : Info) (id : ℕ) where
  absent-find :
      (ps : List Pending)
      → has id (ids ps) ≡ false
      → splice_first (λ q. q.request_id == id) ps ≡ none
  unfolding splice_first
  absent-find [] h = refl
  absent-find (p ∷ ps) h = ground (arith, absent-find ps)

  -- An acknowledgement that carries a valid request id which no waiting connection has is ignored:
  -- nothing of the agent changes and nothing is sent, so the server is not told that nobody holds
  -- this end of the stream.
  pub unclaimed_ack_silent :
      has id (ids a.pending_connects) ≡ false
      → valid_request_id (some id) ≡ some id
      → parse_frame m ≡ ok f
      → f.type ≡ tcp_connect_ack
      → parse_json_payload parse json_limit f.payload ≡ ok (object info)
      → info.request_id ≡ some id
      → handle_server_frame net parse m a ≡ some a
  unfolding handle_server_frame handle_frame handle_connect_ack ack_read register_found find_pending
  unclaimed_ack_silent gone valid framed ack read named =
      let missed : find_pending info a.pending_connects ≡ none =
        rw (named, valid) (absent-find a.pending_connects gone) in
      rw (framed, if_true {A = Option Agent} _ ((==_iff f.type tcp_connect_ack).1 ack), read)
        (ap (λ o. some (register_found f.stream_id o a)) missed)
