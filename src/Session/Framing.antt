-- ===== src/Session/Framing.antt =====
-- desktop/core/src/framing.rs: an envelope on the wire is its length, four bytes in network order,
-- and its encoding. Encoding and decoding are prost's. A stream is the bytes that come until it
-- closes.
pub mod Stream
pub mod Examples
use anyflow.Prelude.{
  ℕ, ◌-◌, ◌*◌, ◌^◌, Bool, not, Option, none, some, List, [], ◌∷◌, ◌++◌, length, take, drop, leb,
  ltb, ◌==◌, if◌then◌else◌, Bytes, Result, ok, err, to_be_bytes, from_be_bytes,
}
use anyflow.Session.Wire.{Envelope}

abbrev pub max_frame_len : ℕ
max_frame_len = 64 * 1024

pub data FrameError : Type 0 where
  frame_too_large : ℕ → ℕ → FrameError
  closed zero_length_frame decode_failed : FrameError

-- The two sides of prost.
pub record Codec : Type 0 where
  pub encode_to_vec : Envelope → Bytes
  pub decode : Bytes → Option Envelope

module _ (c : Codec) where
  -- What is written, in one piece: `body.len().try_into()` fails at `2 ^ 32`.
  pub write_envelope : Envelope → Result Bytes FrameError
  write_envelope envelope =
      let body = c.encode_to_vec envelope in
      let len = length body in
      if not (ltb len (2 ^ 32))
      then err (frame_too_large (2 ^ 32 - 1) max_frame_len)
      else if ltb max_frame_len len
      then err (frame_too_large len max_frame_len)
      else ok (to_be_bytes len ++ body)

  abbrev pub decoded : Option Envelope → Bytes → Result (Envelope × Bytes) FrameError
  decoded none rest = err decode_failed
  decoded (some envelope) rest = ok (envelope, rest)

  pub read_body : ℕ → Bytes → Result (Envelope × Bytes) FrameError
  read_body len stream =
      if ltb max_frame_len len
      then err (frame_too_large len max_frame_len)
      else if len == 0
      then err zero_length_frame
      else if ltb (length stream) len
      then err closed
      else decoded (c.decode (take len stream)) (drop len stream)

  -- The envelope, and what is left of the stream.
  pub read_envelope : Bytes → Result (Envelope × Bytes) FrameError
  unfolding read_body
  read_envelope (a ∷ b ∷ x ∷ d ∷ stream) = read_body (from_be_bytes a b x d) stream
  read_envelope _ = err closed
