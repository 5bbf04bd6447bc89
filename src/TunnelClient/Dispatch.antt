-- ===== src/TunnelClient/Dispatch.antt =====
-- serve/client.js: `handleServerFrame`, with the handler of each type of frame.
use nodejs_wss_service_bridg.Base.{ℕ, Option, some, ◌==◌, if◌then◌else◌, Result, ok, err}
use nodejs_wss_service_bridg.Base.Map.{get}
use nodejs_wss_service_bridg.Protocol.{
  Bytes, Message, Frame, FrameError, parse_frame, tcp_open, req_meta,
}
use nodejs_wss_service_bridg.Server.{Json}
use nodejs_wss_service_bridg.TunnelClient.{Net, Config, Client}
use nodejs_wss_service_bridg.TunnelClient.Frames.{open_frame, stream_frame}
use nodejs_wss_service_bridg.TunnelClient.Requests.{AskedJson, Target, handle_req_meta}

-- `handleServerFrame`, by what `parseFrame` gives. `parse` and `parse_meta` are `JSON.parse`, by the
-- fields that are read of TCP frames and of REQ_META; `none` when an exception leaves the listener.
module _ (net : Net) (config : Config) (target : Target) (parse : Bytes → Option Json)
    (parse_meta : Bytes → Option AskedJson) where
  unfoldable pub handle_frame : ℕ → Client → Result FrameError Frame → Option Client
  unfolding open_frame stream_frame handle_req_meta
  handle_frame ws c (err e) = some c
  handle_frame ws c (ok frame) =
      if frame.type == req_meta
      then some (handle_req_meta net config target parse_meta ws frame.stream_id frame.payload c)
      else if frame.type == tcp_open
      then open_frame net config parse ws frame.stream_id frame.payload c
      else some (
          stream_frame net config parse ws frame.type frame.payload c
            (get frame.stream_id c.streams))

  unfoldable pub handle_server_frame : ℕ → Message → Client → Option Client
  unfolding handle_frame
  handle_server_frame ws m c = handle_frame ws c (parse_frame m)
