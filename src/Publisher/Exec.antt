-- ===== src/Publisher/Exec.antt =====
-- How an operation of src/publisher.rs runs: it changes the publisher and returns a result, and what
-- was changed before an error stays changed. And `Shared::publish_inner`, the one place where
-- sequences are allocated and frames are sent.
pub mod Retiring
use reth_statefeed.Prelude.{
  ℕ, ◌+◌, ◌-◌, ◌%◌, Bool, Option, none, some, List, [], ◌∷◌, length, map, if◌then◌else◌, min, ltb,
  Result, ok, err, u64_mod,
}
use reth_statefeed.Watch.{WatchSet}
use reth_statefeed.Feed.{ForkchoiceMeta}
use reth_statefeed.Wire.{
  Codec, Envelope, Event, encode_frame, protocol_version, RetirementReason, reason_code,
}
use reth_statefeed.Publisher.State.{
  Error, encode, future_generation, SnapshotSource, CanonicalSnapshot, Projection, PublishedState,
  Shared, Candidates, Publisher,
}
use reth_statefeed.Publisher.Messages.{hash_bytes}
use reth_statefeed.Publisher.Retirement.{chunks_of, batch_size}

abbrev pub Exec : Type 0 → Type 0
Exec A = Publisher → Result Error A × Publisher

-- The state after a part of an operation goes on to the rest, unless it failed.
abbrev pub continue :
    {A B : Type 0} → Result Error A × Publisher → (A → Exec B) → Result Error B × Publisher
continue (ok a, s) f = f a s
continue (err e, s) f = (err e, s)

infixl 5 ◌>>=◌ ◌>>◌
unfoldable pub ◌>>=◌ : {A B : Type 0} → Exec A → (A → Exec B) → Exec B
◌>>=◌ m f s = continue (m s) f

abbrev pub ◌>>◌ : {B : Type 0} → Exec (Unit {0}) → Exec B → Exec B
m >> k = m >>= λ _. k

unfoldable pub pure : {A : Type 0} → A → Exec A
pure a s = (ok a, s)

unfoldable pub raise : {A : Type 0} → Error → Exec A
raise e s = (err e, s)

unfoldable pub lift : {A : Type 0} → Result Error A → Exec A
lift r s = (r, s)

unfoldable pub gets : {A : Type 0} → (Publisher → A) → Exec A
gets f s = (ok (f s), s)

-- A change of the candidates alone; it reads the clock.
unfoldable pub modify_cache : (ℕ → Candidates → Candidates) → Exec (Unit {0})
modify_cache f s = (ok tt, record s { cache = f s.now s.cache })

-- The same with a result, or an error.
unfoldable pub on_cache : {A : Type 0} → (Candidates → Result Error A × Candidates) → Exec A
on_cache f s = let (r, c) = f s.cache in (r, record s { cache = c })

abbrev pub published : Publisher → PublishedState
published s = s.shared.published

abbrev pub active_generation : Publisher → ℕ
active_generation s = s.shared.published.canonical.watch_set.generation

-- Older generations are ignored, newer ones are an error.
unfoldable pub in_generation : {A : Type 0} → ℕ → A → Exec A → Exec A
in_generation generation stale body = do
  active ← gets active_generation
  if ltb generation active
      then pure stale
      else if ltb active generation
      then raise future_generation
      else body

-- `monotonic_ns`.
abbrev pub monotonic_ns : Shared → ℕ → ℕ
monotonic_ns shared now = min (now - shared.started_at) (u64_mod - 1)

-- An envelope with its sequence and its time.
abbrev pub envelope_at : Shared → ℕ → ℕ → ℕ → Event → Envelope
envelope_at shared sequence generation emitted event = record {
  protocol_version = protocol_version;
  boot_id = shared.boot_id;
  sequence = sequence;
  config_generation = generation;
  emitted_at_monotonic_ns = emitted;
  event = some event;
}

-- `Shared::envelope`.
unfoldable pub envelope : Shared → ℕ → ℕ → ℕ → Event → Envelope
envelope shared now sequence generation event =
    envelope_at shared sequence generation (monotonic_ns shared now) event

-- The state that a publication installs for reconnect handshakes.
pub record NextState : Type 0 where
  pub canonical : Projection
  pub forkchoice : Option ForkchoiceMeta
  pub recovering : Bool

abbrev pub next_published : PublishedState → Option NextState → ℕ → PublishedState
next_published old none sequence = old
next_published old (some next) sequence = record {
  canonical = next.canonical;
  forkchoice = next.forkchoice;
  effective_sequence = sequence;
  recovering = next.recovering;
}

-- The sequence that the next allocation returns.
abbrev pub next_sequence : Shared → ℕ
next_sequence shared = (shared.sequence + 1) % u64_mod

-- A frame that is too large has its sequence allocated all the same.
unfoldable pub publish_inner :
    Codec → ℕ → Shared → ℕ → Event → Option NextState → Result Error ℕ × Shared
publish_inner codec now shared generation event next_state =
    let sequence = next_sequence shared in
    let allocated = record shared { sequence = shared.sequence + 1 } in
    elim (encode_frame codec (envelope shared now sequence generation event)
      shared.max_frame_bytes) [
        | err e ↦ (err (encode e), allocated)
        | ok frame ↦ (
          ok sequence,
          record allocated {
            published = next_published shared.published next_state sequence;
            published_sequence = sequence;
            frames = record { sequence = sequence; bytes = frame } ∷ shared.frames;
          },
        )
      ]

-- `validate_event_frame`: the widest sequence and time that the event can get.
unfoldable pub validate_event_frame : Codec → Shared → ℕ → Event → Result Error (Unit {0})
validate_event_frame codec shared generation event =
    elim (encode_frame codec (envelope_at shared (u64_mod - 1) generation (u64_mod - 1) event)
      shared.max_frame_bytes) [ err e ↦ err (encode e) | ok frame ↦ ok tt ]

module _ (codec : Codec) where
  unfoldable pub publish_with : ℕ → Event → Option NextState → Exec ℕ
  publish_with generation event next_state s =
      let (r, shared) = publish_inner codec s.now s.shared generation event next_state in
      (r, record s { shared = shared })

  abbrev pub publish : ℕ → Event → Exec ℕ
  publish generation event = publish_with generation event none

  abbrev pub publish_state : ℕ → Event → Projection → Option ForkchoiceMeta → Bool → Exec ℕ
  publish_state generation event canonical forkchoice recovering =
      publish_with generation event
        (some (record { canonical = canonical; forkchoice = forkchoice; recovering = recovering }))

  unfoldable pub publish_batches : ℕ → RetirementReason → List (List ℕ) → Exec (Unit {0})
  publish_batches generation reason [] = pure tt
  publish_batches generation reason (batch ∷ rest) = do
    _ ← publish generation (
        Event.candidates_retired
          (record { block_hashes = map hash_bytes batch; reason = reason_code reason }))
    publish_batches generation reason rest

  -- Batches that stay below the frame bound.
  unfoldable pub publish_retired : ℕ → List ℕ → RetirementReason → Exec (Unit {0})
  publish_retired generation hashes reason = do
    limit ← gets (λ s. s.shared.max_frame_bytes)
    publish_batches generation reason (chunks_of (length hashes) (batch_size limit) hashes)

module _ (source : SnapshotSource) where
  unfoldable pub load_latest : WatchSet → Exec CanonicalSnapshot
  load_latest watch_set s = (source.load_latest s.loads watch_set, record s { loads = s.loads + 1 })

  -- The error of the source is handed over, for callers that go on without the projection.
  unfoldable pub try_load_at : WatchSet → ℕ → Exec (Result Error Projection)
  try_load_at watch_set block_hash s =
      (ok (source.load_at s.loads watch_set block_hash), record s { loads = s.loads + 1 })
