-- ===== src/Wire/Framing.antt =====
-- Lemmas on `encode_frame` of src/wire.rs.
use reth_statefeed.Prelude.{◌≤◌, ◌<◌, ◌≡◌, ◌++◌, ℕ, List, ok, arith, u32_mod}
use reth_statefeed.Prelude.Bytes.{to_be_bytes}
use reth_statefeed.Wire.{Codec, Envelope, encode_frame}

pub encode_frame-eq-ok :
    (c : Codec) (e : Envelope) (limit : ℕ) {frame : List ℕ}
    → encode_frame c e limit ≡ ok frame
    → (c.encoded_len e ≤ limit)
      × (c.encoded_len e < u32_mod)
      × (frame ≡ to_be_bytes 4 (c.encoded_len e) ++ c.encode e)
unfolding encode_frame
encode_frame-eq-ok c e limit h = ground arith

-- Whether a frame is built depends on the length alone.
pub encode_frame_of_fits :
    (c : Codec) (e : Envelope) (limit : ℕ)
    → c.encoded_len e ≤ limit
    → c.encoded_len e < u32_mod
    → encode_frame c e limit ≡ ok (to_be_bytes 4 (c.encoded_len e) ++ c.encode e)
unfolding encode_frame
encode_frame_of_fits c e limit h k = ground arith
