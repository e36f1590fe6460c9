-- ===== src/Publisher/Stream.antt =====
-- The frames of src/publisher.rs as the cursor of src/bin/statefeed-dump.rs sees them: the relation
-- between the two, and the conditions that the operations keep.
pub mod Publication
pub mod Rules
pub mod Handlers
pub mod Projecting
pub mod Heads
pub mod Recovering
pub mod Anchoring
pub mod Returning
pub mod Running
use reth_statefeed.Prelude.{
  ℕ, ◌+◌, ◌≤◌, ◌<◌, ◌≡◌, Bool, true, false, none, some, List, [], ◌∷◌, Result, ok, err, u64_mod,
}
use reth_statefeed.Wire.{Codec, Envelope, Event, encode_frame}
use reth_statefeed.Dump.{StreamPhase, live, observe}
use reth_statefeed.Publisher.State.{Error, PublishedFrame, Shared, Publisher}

-- The encoded length does not shrink when the sequence and the time of an envelope grow: they are
-- varints of protobuf.
pub record IsMonotone (codec : Codec) : Type 0 where
  pub grows :
      (e : Envelope) (sequence emitted : ℕ)
      → e.sequence ≤ sequence
      → e.emitted_at_monotonic_ns ≤ emitted
      → codec.encoded_len e
        ≤ codec.encoded_len (record e { sequence = sequence; emitted_at_monotonic_ns = emitted })

-- A consumer whose cursor stood at `start` when the frames were those of `base` has read the
-- frames sent since, the newest first, each the encoding of an envelope that the cursor accepts; its
-- cursor stands at the last phase.
pub data Delivers (codec : Codec) (limit : ℕ) (base : List PublishedFrame) (start : StreamPhase)
    : List PublishedFrame → StreamPhase → Type 0 where
  none_yet : Delivers codec limit base start base start
  next :
      {frames : List PublishedFrame} {phase phase' : StreamPhase} (frame : PublishedFrame)
      (e : Envelope) (event : Event)
      → Delivers codec limit base start frames phase
      → e.event ≡ some event
      → encode_frame codec e limit ≡ ok frame.bytes
      → observe phase e.sequence e.config_generation event ≡ ok phase'
      → Delivers codec limit base start (frame ∷ frames) phase'

module _ (codec : Codec) (base : List PublishedFrame) (start : StreamPhase) where
  -- The cursor stands at the last published sequence, and waits for a snapshot if `waiting`.
  abbrev pub DeliversTo : Bool → Shared → Type 0
  DeliversTo waiting s =
      Delivers codec s.max_frame_bytes base start s.frames (live s.published_sequence waiting)

  -- Every allocated sequence is published.
  pub record IsSynced (waiting : Bool) (s : Shared) : Type 0 where
    pub delivered : DeliversTo waiting s
    pub current : s.published_sequence ≡ s.sequence

  -- Sequences may be lost to frames that were too large, but not behind a gap.
  pub record IsBehind (s : Shared) : Type 0 where
    pub delivered : DeliversTo s.published.recovering s
    pub allocated : s.published_sequence ≤ s.sequence
    pub current : s.published.recovering ≡ true → s.published_sequence ≡ s.sequence

  -- As long as the sequences have not wrapped around.
  abbrev pub At : Bool → Shared → Type 0
  At waiting s = s.sequence < u64_mod → IsSynced waiting s

  -- Between two operations.
  pub record IsClean (s : Shared) : Type 0 where
    pub synced : At false s
    pub anchored : s.published.recovering ≡ false

  -- After an error.
  abbrev pub IsDirty : Shared → Type 0
  IsDirty s = s.sequence < u64_mod → IsBehind s
