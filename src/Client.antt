-- ===== src/Client.antt =====
-- src/client.rs: the consumer's frame reader and its view of packed values. The stream is the list
-- of the bytes that have not been read; its end is the peer's clean or early end of file.
pub mod Frames
pub mod Packed
use reth_statefeed.Prelude.{
  ℕ, zero, suc, ◌+◌, ◌-◌, ◌*◌, ◌/◌, Bool, Option, none, some, List, [], ◌∷◌, length, take, drop,
  ltb, leb, ◌==◌, if◌then◌else◌, Result, ok, err, ok_or, ◌>>=◌, u64_mod,
}
use reth_statefeed.Prelude.Bytes.{from_be_slice}
use reth_statefeed.Wire.{Codec, Envelope}

-- `io` is the `UnexpectedEof` of `read_exact`.
pub data ClientError : Type 0 where
  io : ClientError
  decode : ClientError
  frame_too_large : ℕ → ℕ → ClientError
  projection_length_overflow : ClientError
  invalid_projection_length : ℕ → ℕ → ClientError

-- `read_exact`: the bytes asked for and the rest of the stream.
unfoldable pub read_exact : ℕ → List ℕ → Result ClientError (List ℕ × List ℕ)
read_exact n stream = if leb n (length stream) then ok (take n stream, drop n stream) else err io

-- `FrameReader::read` behind the length prefix.
unfoldable pub payload_of : Codec → ℕ → ℕ → List ℕ → Result ClientError (Option Envelope × List ℕ)
unfolding read_exact
payload_of c max_frame_bytes length stream =
    if ltb max_frame_bytes length then err (frame_too_large length max_frame_bytes) else do
      (payload, rest) ← read_exact length stream
      envelope ← ok_or (c.decode payload) ClientError.decode
      ok (some envelope, rest)

-- `FrameReader::read` where the stream has a first byte.
unfoldable pub read_frame : Codec → ℕ → List ℕ → Result ClientError (Option Envelope × List ℕ)
unfolding read_exact payload_of
read_frame c max_frame_bytes stream = do
  (prefix, rest) ← read_exact 4 stream
  payload_of c max_frame_bytes (from_be_slice prefix) rest

-- `FrameReader::read`: the end of the stream before a length prefix is no error.
unfoldable pub read : Codec → ℕ → List ℕ → Result ClientError (Option Envelope × List ℕ)
unfolding read_frame
read c max_frame_bytes [] = ok (none, [])
read c max_frame_bytes (b ∷ bytes) = read_frame c max_frame_bytes (b ∷ bytes)
