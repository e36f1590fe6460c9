-- ===== src/Client/Frames.antt =====
-- `FrameReader::read` of src/client.rs against `encode_frame` of src/wire.rs.
use reth_statefeed.Prelude.{
  ◌≤◌, ◌<◌, ◌≡◌, ◌++◌, ℕ, List, some, ok, arith, take-append, drop-append, length, length-append,
  refl, u32_mod, [], ◌∷◌,
}
use mathlib.Core.List.{append_assoc}
use reth_statefeed.Prelude.Bytes.{to_be_bytes, length-to_be_bytes, from_be_slice-to_be_bytes}
use reth_statefeed.Wire.{Codec, Envelope, encode_frame}
use reth_statefeed.Wire.Framing.{encode_frame-eq-ok}
use reth_statefeed.Client.{read, read_frame, read_exact, payload_of}

pub read_exact-append :
    (n : ℕ) (xs ys : List ℕ) → length xs ≡ n → read_exact n (xs ++ ys) ≡ ok (xs, ys)
unfolding read_exact
read_exact-append n xs ys h =
    rw (← h) (ground (arith, length-append xs ys, take-append xs ys, drop-append xs ys))

read_of_pos :
    (c : Codec) (limit : ℕ) (stream : List ℕ)
    → 0 < length stream
    → read c limit stream ≡ read_frame c limit stream
unfolding read
read_of_pos c limit [] h = absurd (omega arith)
read_of_pos c limit (b ∷ bytes) h = refl

read-prefix :
    (c : Codec) (limit n : ℕ) (stream : List ℕ)
    → read c limit (to_be_bytes 4 n ++ stream) ≡ read_frame c limit (to_be_bytes 4 n ++ stream)
read-prefix c limit n stream =
    read_of_pos c limit (to_be_bytes 4 n ++ stream)
      (omega (arith, length-append (to_be_bytes 4 n) stream, length-to_be_bytes 4 n))

-- Behind a prefix that announces `n` bytes, the reader tests its limit and takes `n` bytes.
read_frame-prefix :
    (c : Codec) (limit n : ℕ) (stream : List ℕ)
    → n < u32_mod
    → read_frame c limit (to_be_bytes 4 n ++ stream) ≡ payload_of c limit n stream
unfolding read_frame payload_of
read_frame-prefix c limit n stream h =
    rw
      (
        read_exact-append 4 (to_be_bytes 4 n) stream (length-to_be_bytes 4 n),
        from_be_slice-to_be_bytes 4 n h,
      )
      refl

-- What `encode_frame` writes, with any bytes behind it, `read` gives back with those bytes left,
-- for every limit of the reader that covers the writer's, if the payload of the envelope has the
-- announced length and decodes.
pub read-encode_frame :
    (c : Codec) (e : Envelope) (limit reader_limit : ℕ) (frame rest : List ℕ)
    → length (c.encode e) ≡ c.encoded_len e
    → c.decode (c.encode e) ≡ some e
    → encode_frame c e limit ≡ ok frame
    → limit ≤ reader_limit
    → read c reader_limit (frame ++ rest) ≡ ok (some e, rest)
unfolding payload_of
read-encode_frame c e limit reader_limit frame rest hlen hdec henc hl =
    let (fits, small, eq) = encode_frame-eq-ok c e limit henc in
    let n = c.encoded_len e in
    let body = c.encode e in
    rw (eq, append_assoc (to_be_bytes 4 n) body rest, read-prefix c reader_limit n (body ++ rest))
      (rw (read_frame-prefix c reader_limit n (body ++ rest) small)
        (ground (arith, read_exact-append n body rest hlen)))
