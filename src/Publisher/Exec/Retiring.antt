-- ===== src/Publisher/Exec/Retiring.antt =====
-- `publish_retired` of src/publisher.rs: the frames that announce retired candidates.
use reth_statefeed.Prelude.{
  ℕ, ◌+◌, ◌*◌, ◌≤◌, ◌<◌, ◌≡◌, none, some, List, [], ◌∷◌, ◌++◌, All, length, map, ok, refl, arith,
  u32_mod,
}
use reth_statefeed.Prelude.Bytes.{to_be_bytes, length-to_be_bytes}
use reth_statefeed.Wire.{Codec, Envelope, Event, CandidatesRetired, RetirementReason, reason_code}
use reth_statefeed.Wire.Framing.{encode_frame_of_fits}
use reth_statefeed.Publisher.State.{Shared, Publisher}
use reth_statefeed.Publisher.Messages.{hash_bytes}
use reth_statefeed.Publisher.Retirement.{chunks_of, batch_size}
use reth_statefeed.Publisher.Retirement.Batches.{flatten, chunks_of-batch_size}
use reth_statefeed.Publisher.Exec.{
  next_sequence, envelope, publish_inner, publish_with, publish_batches, publish_retired, gets,
  pure, ◌>>=◌,
}

-- Each hash with a tag and a length of one byte.
abbrev pub hash_fields : List (List ℕ) → ℕ
hash_fields [] = 0
hash_fields (hash ∷ rest) = 2 + length hash + hash_fields rest

-- The most that protobuf takes for an envelope with a retirement of hashes of less than 128 bytes: for
-- the version 6 bytes, for the boot id its bytes, a tag and a length (11), 11 for each of the three
-- numbers, for the event a tag of two bytes and a length (12), the hashes, and 11 for the reason.
abbrev pub IsCompact : Codec → Type 0
IsCompact codec =
    (e : Envelope) (retired : CandidatesRetired)
    → e.event ≡ some (Event.candidates_retired retired)
    → All (λ hash. length hash < 128) retired.block_hashes
    → codec.encoded_len e
      ≤ 6 + (11 + length e.boot_id) + 33 + 12 + hash_fields retired.block_hashes + 11

abbrev pub retirement : RetirementReason → List ℕ → Event
retirement reason batch =
    Event.candidates_retired
      (record { block_hashes = map hash_bytes batch; reason = reason_code reason })

hash_fields-map : (batch : List ℕ) → hash_fields (map hash_bytes batch) ≡ length batch * 34
hash_fields-map [] = refl
hash_fields-map (hash ∷ rest) = omega (arith, length-to_be_bytes 32 hash, hash_fields-map rest)

are_short : (batch : List ℕ) → All (λ hash. length hash < 128) (map hash_bytes batch)
are_short [] = tt
are_short (hash ∷ rest) = (omega (arith, length-to_be_bytes 32 hash), are_short rest)

-- The frame of a batch, and the publisher's shared state after the frames of some batches.
module _ (codec : Codec) (now generation : ℕ) (reason : RetirementReason) where
  abbrev pub batch_envelope : Shared → List ℕ → Envelope
  batch_envelope shared batch =
      envelope shared now (next_sequence shared) generation (retirement reason batch)

  abbrev pub announce : Shared → List ℕ → Shared
  announce shared batch = record shared {
    sequence = shared.sequence + 1;
    published_sequence = next_sequence shared;
    frames =
        record {
          sequence = next_sequence shared;
          bytes =
              to_be_bytes 4 (codec.encoded_len (batch_envelope shared batch))
              ++ codec.encode (batch_envelope shared batch);
        }
        ∷ shared.frames;
  }

  abbrev pub announce_all : Shared → List (List ℕ) → Shared
  announce_all shared [] = shared
  announce_all shared (batch ∷ rest) = announce_all (announce shared batch) rest

-- A boot id of 16 bytes and a frame bound below 2^32.
abbrev HasRoom : Shared → Type 0
HasRoom shared = (length shared.boot_id ≡ 16) × (shared.max_frame_bytes < u32_mod)

module _ (codec : Codec) (compact : IsCompact codec) (generation : ℕ)
    (reason : RetirementReason) where
  encoded_len-le :
      (now : ℕ) (shared : Shared) (batch : List ℕ)
      → length shared.boot_id ≡ 16
      → codec.encoded_len (batch_envelope codec now generation reason shared batch)
        ≤ length batch * 34 + 256
  unfolding envelope
  encoded_len-le now shared batch boot = omega (
    arith,
    compact (batch_envelope codec now generation reason shared batch)
        (record { block_hashes = map hash_bytes batch; reason = reason_code reason }) refl
        (are_short batch),
    hash_fields-map batch,
  )

  publish_inner-batch :
      (now : ℕ) (shared : Shared) (batch : List ℕ)
      → HasRoom shared
      → length batch * 34 + 256 ≤ shared.max_frame_bytes
      → publish_inner codec now shared generation (retirement reason batch) none
        ≡ (ok (next_sequence shared), announce codec now generation reason shared batch)
  unfolding publish_inner
  publish_inner-batch now shared batch (boot, small) h =
      let fits = encoded_len-le now shared batch boot in
      rw
        (
          publish_inner,
          encode_frame_of_fits codec (batch_envelope codec now generation reason shared batch)
              shared.max_frame_bytes (omega arith) (omega arith),
        )
        refl

  publish_batches_lem :
      (batches : List (List ℕ)) (s : Publisher)
      → HasRoom s.shared
      → All
          (λ batch. (0 < length batch) × (length batch * 34 + 256 ≤ s.shared.max_frame_bytes))
          batches
      → publish_batches codec generation reason batches s
        ≡ (ok tt, record s { shared = announce_all codec s.now generation reason s.shared batches })
  unfolding publish_batches publish_with ◌>>=◌ pure
  publish_batches_lem [] s room all = refl
  publish_batches_lem (batch ∷ rest) s room ((pos, h), all) =
      rw (publish_inner-batch s.now s.shared batch room h) (
        publish_batches_lem rest
          (record s { shared = announce codec s.now generation reason s.shared batch }) room all)

  -- With a codec that encodes as protobuf does, a boot id of 16 bytes and a frame bound from 1024 below
  -- 2^32, the announcement of retired candidates does not fail: the hashes, each once and in their
  -- order, are cut into batches, none of them empty, and for each batch in its order one frame is sent,
  -- with the next sequence.
  pub publish_retired_lem :
      (hashes : List ℕ) (s : Publisher)
      → length s.shared.boot_id ≡ 16
      → 1024 ≤ s.shared.max_frame_bytes
      → s.shared.max_frame_bytes < u32_mod
      → (batches : List (List ℕ)) × (flatten batches ≡ hashes)
        × All (λ batch. 0 < length batch) batches
        × (publish_retired codec generation hashes reason s ≡ (
          ok tt,
          record s { shared = announce_all codec s.now generation reason s.shared batches },
        ))
  unfolding publish_retired gets ◌>>=◌
  publish_retired_lem hashes s boot large small =
      let batches = chunks_of (length hashes) (batch_size s.shared.max_frame_bytes) hashes in
      let (whole, fit) = chunks_of-batch_size s.shared.max_frame_bytes hashes large in
      (batches, whole, positive batches fit, publish_batches_lem batches s (boot, small) fit)
    where
      positive :
          (batches : List (List ℕ))
          → All
              (λ batch. (0 < length batch) × (length batch * 34 + 256 ≤ s.shared.max_frame_bytes))
              batches
          → All (λ batch. 0 < length batch) batches
      positive [] all = tt
      positive (batch ∷ rest) ((pos, h), all) = (pos, positive rest all)
