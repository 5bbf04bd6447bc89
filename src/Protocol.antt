-- ===== src/Protocol.antt =====
-- src/shared/protocol.js: the frame types, the frame codec and the conversion of messages to bytes.
-- A buffer is a list of bytes; a thrown error is the `err` of a result.
pub mod Laws
use nodejs_wss_service_bridg.Base.{
  ℕ, ◌+◌, ◌*◌, ◌/◌, ◌%◌, ◌^◌, List, [], ◌∷◌, ◌++◌, Option, none, some, ltb, ◌==◌, if◌then◌else◌,
  length, take, drop, Result, ok, err,
}

abbrev pub version : ℕ
version = 1

-- PROTO.TYPE
abbrev pub req_meta : ℕ
req_meta = 0x10

abbrev pub req_data : ℕ
req_data = 0x11

abbrev pub req_end : ℕ
req_end = 0x12

abbrev pub req_abort : ℕ
req_abort = 0x13

abbrev pub res_meta : ℕ
res_meta = 0x20

abbrev pub res_data : ℕ
res_data = 0x21

abbrev pub res_end : ℕ
res_end = 0x22

abbrev pub res_abort : ℕ
res_abort = 0x23

abbrev pub pause : ℕ
pause = 0x30

abbrev pub resume : ℕ
resume = 0x31

abbrev pub tcp_open : ℕ
tcp_open = 0x40

abbrev pub tcp_data : ℕ
tcp_data = 0x41

abbrev pub tcp_close : ℕ
tcp_close = 0x42

abbrev pub tcp_abort : ℕ
tcp_abort = 0x43

abbrev pub tcp_open_ack : ℕ
tcp_open_ack = 0x44

abbrev pub tcp_connect : ℕ
tcp_connect = 0x50

abbrev pub tcp_connect_ack : ℕ
tcp_connect_ack = 0x51

abbrev pub Bytes : Type 0
Bytes = List ℕ

pub record Frame : Type 0 where
  pub type : ℕ
  pub stream_id : ℕ
  pub payload : Bytes

pub data FrameError : Type 0 where
  too_short : FrameError
  unsupported_version : ℕ → FrameError

-- `writeUInt32BE`
abbrev pub write_uint32_be : ℕ → Bytes → Bytes
write_uint32_be n rest =
    (n / 2 ^ 24 % 256) ∷ (n / 2 ^ 16 % 256) ∷ (n / 2 ^ 8 % 256) ∷ (n % 256) ∷ rest

-- A byte store keeps the low eight bits, and `streamId >>> 0` the low thirty-two.
unfoldable pub build_frame : ℕ → ℕ → Bytes → Bytes
build_frame type stream_id payload =
    version ∷ (type % 256) ∷ write_uint32_be (stream_id % 2 ^ 32) payload

-- `readUInt32BE`
abbrev pub read_uint32_be : ℕ → ℕ → ℕ → ℕ → ℕ
read_uint32_be a b c d = a * 2 ^ 24 + b * 2 ^ 16 + c * 2 ^ 8 + d

abbrev decode : ℕ → ℕ → ℕ → ℕ → ℕ → ℕ → Bytes → Result FrameError Frame
decode v t a b c d payload =
    if v == version
    then ok (record { type = t; stream_id = read_uint32_be a b c d; payload = payload })
    else err (unsupported_version v)

unfoldable pub parse_buffer : Bytes → Result FrameError Frame
parse_buffer (v ∷ t ∷ a ∷ b ∷ c ∷ d ∷ payload) = decode v t a b c d payload
parse_buffer _ = err too_short

-- What the WebSocket library may deliver as a message.
pub data Message : Type 0 where
  buffer : Bytes → Message
  array_buffer : Bytes → Message
  view : Bytes → ℕ → ℕ → Message
  fragments : List Bytes → Message

abbrev concat : List Bytes → Bytes
concat [] = []
concat (b ∷ bs) = b ++ concat bs

unfoldable pub to_buffer : Message → Bytes
to_buffer (buffer b) = b
to_buffer (array_buffer b) = b
to_buffer (view b offset len) = take len (drop offset b)
to_buffer (fragments bs) = concat bs

unfoldable pub parse_frame : Message → Result FrameError Frame
unfolding to_buffer parse_buffer
parse_frame m = parse_buffer (to_buffer m)

pub data JsonError : Type 0 where
  empty_payload payload_too_large syntax_error : JsonError

-- `JSON.parse(payload.toString('utf8'))` is the parameter `parse`; `none` stands for its throw.
module _ {ℓ} {Json : Type ℓ} (parse : Bytes → Option Json) where
  unfoldable pub parse_json_payload : ℕ → Bytes → Result JsonError Json
  parse_json_payload limit payload =
      if length payload == 0
      then err empty_payload
      else if ltb limit (length payload)
      then err payload_too_large
      else elim (parse payload) [ none ↦ err syntax_error | some j ↦ ok j ]
