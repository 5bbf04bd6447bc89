-- ===== src/Protocol/Laws.antt =====
-- The frame codec's theorems.
use nodejs_wss_service_bridg.Base.{
  ℕ, ◌<◌, ◌≤◌, ◌^◌, ◌≡◌, ◌↔◌, ◌≢◌, ◌∷◌, arith, length, All, Option, some, ok, err,
}
use nodejs_wss_service_bridg.Protocol.{
  Bytes, Frame, too_short, unsupported_version, version, build_frame, parse_buffer, parse_frame,
  buffer, parse_json_payload,
}

abbrev pub AreBytes : Bytes → Type 0
AreBytes b = All (λ x. x < 256) b

-- What is built is parsed back: every frame whose type fits a byte and whose stream id fits
-- thirty-two bits comes back unchanged from the bytes that are sent for it.
pub parse_frame-build_frame :
    (t id : ℕ) (payload : Bytes)
    → t < 256
    → id < 2 ^ 32
    → parse_frame (buffer (build_frame t id payload))
      ≡ ok (record { type = t; stream_id = id; payload = payload })
unfolding parse_frame build_frame
parse_frame-build_frame t id payload ht hid = ground arith

-- Parsing loses nothing: numbers below 256 that parse to a frame are the bytes that would be sent for it.
pub build_frame-parse_buffer :
    (b : Bytes) (f : Frame)
    → AreBytes b
    → parse_buffer b ≡ ok f
    → build_frame f.type f.stream_id f.payload ≡ b
unfolding parse_buffer build_frame
build_frame-parse_buffer (v ∷ t ∷ a ∷ b ∷ c ∷ d ∷ payload) f h e = ground arith
build_frame-parse_buffer _ f h e = ground arith

-- A non-empty buffer is refused as too short exactly when it has fewer than six bytes, and for its
-- version exactly when it has at least six bytes and the first is not the protocol version.
pub parse_buffer_errors :
    (v : ℕ) (rest : Bytes)
    → ((parse_buffer (v ∷ rest) ≡ err too_short) ↔ (length rest < 5))
      × ((parse_buffer (v ∷ rest) ≡ err (unsupported_version v))
          ↔ ((5 ≤ length rest) × (v ≢ version)))
unfolding parse_buffer
parse_buffer_errors v (t ∷ a ∷ b ∷ c ∷ d ∷ payload) = ground arith
parse_buffer_errors v _ = ground arith

module _ {ℓ} {Json : Type ℓ} (parse : Bytes → Option Json) where
  -- A JSON payload is accepted exactly when it is not empty, not longer than the limit, and parses.
  pub parse_json_payload_iff :
      (limit : ℕ) (payload : Bytes) (j : Json)
      → (parse_json_payload parse limit payload ≡ ok j)
        ↔ ((0 < length payload) × (length payload ≤ limit) × (parse payload ≡ some j))
  unfolding parse_json_payload
  parse_json_payload_iff limit payload j = ground arith
