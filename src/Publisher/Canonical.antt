-- ===== src/Publisher/Canonical.antt =====
-- Canonical transitions and forkchoice fences in src/publisher.rs: `canonical` and
-- `forkchoice_applied`.
use reth_statefeed.Prelude.{
  ℕ, Bool, true, false, not, ◌&&◌, ◌||◌, Option, none, some, List, leb, ltb, ◌==◌, if◌then◌else◌,
  Result, ok, err, is_some_and, ensure,
}
use reth_statefeed.Prelude
use reth_statefeed.Prelude.Map.{get, insert}
use reth_statefeed.Watch.{WatchSet}
use reth_statefeed.Feed.{AppliedForkchoiceMeta, CheckpointMeta, resolve}
use reth_statefeed.Wire.{Codec, Event}
use reth_statefeed.Publisher.State.{
  Error, future_generation, canonical_identity, forkchoice_head_mismatch, SnapshotSource,
  Projection, CandidateStage, Candidates,
}
use reth_statefeed.Publisher.Candidates.{schedule_expiry}
use reth_statefeed.Publisher.Finality.{begin_finality_sweep}
use reth_statefeed.Publisher.Messages.{hash_bytes, block_ref, forkchoice_view}
use reth_statefeed.Publisher.Validate.{
  validate_projection_dictionary, validate_projection_shape, validate_forkchoice_checkpoints,
  canonical_changed_bitmap,
}
use reth_statefeed.Publisher.Exec.{
  Exec, ◌>>=◌, ◌>>◌, pure, raise, lift, gets, modify_cache, published, active_generation,
  publish_state, try_load_at,
}
use reth_statefeed.Publisher.Lifecycle.{insert_candidate, process_finality_budget}
use reth_statefeed.Publisher.Project.{cached_projection}

-- The identity check of `canonical`: the hash, and the number if the caller expects one.
unfoldable pub check_identity : Projection → Option ℕ → ℕ → Result Error (Unit {0})
check_identity projection expected_block_number block_hash =
    ensure
      (projection.block.hash == block_hash
        && not
            (is_some_and expected_block_number (λ number. not (projection.block.number == number))))
      canonical_identity

-- The checks of `canonical` on the new projection, and the bitmap of the transition.
unfoldable pub check_canonical : Projection → Projection → Option ℕ → ℕ → Result Error (List ℕ)
check_canonical previous projection expected_block_number block_hash =
    Prelude.◌>>=◌ (validate_projection_dictionary projection previous.watch_set) λ _.
      Prelude.◌>>=◌ (check_identity projection expected_block_number block_hash) λ _.
        Prelude.◌>>=◌ (validate_projection_shape projection)
          λ _. canonical_changed_bitmap previous projection

-- The first sequence of a candidate that had none is that of its canonical frame.
unfoldable pub first_sequence_from : Candidates → ℕ → ℕ → Candidates
first_sequence_from c block_hash sequence = elim (get c.candidates block_hash) [
  | none ↦ c
  | some candidate ↦
      if candidate.first_sequence == 0
      then record c {
        candidates =
            insert c.candidates block_hash (record candidate { first_sequence = sequence });
      }
      else c
]

-- The candidate fields after the canonical frame.
unfoldable pub select_canonical : ℕ → Candidates → ℕ → ℕ → ℕ → Candidates
select_canonical now c previous block_hash sequence =
    first_sequence_from (schedule_expiry (record c { canonical_hash = block_hash }) now previous)
      block_hash sequence

abbrev pub differs : Option CheckpointMeta → CheckpointMeta → Bool
differs none finalized = true
differs (some last) finalized = not (last.number == finalized.number && last.hash == finalized.hash)

module _ (codec : Codec) where
  -- The frame, the handshake state and the records of a transition to a checked projection.
  unfoldable pub install_canonical : ℕ → Projection → List ℕ → Exec Bool
  install_canonical block_hash projection changed_bitmap = do
    previous ← gets (λ s. s.cache.canonical_hash)
    insert_candidate codec projection CandidateStage.validated true 0
    sequence ←
        publish_state codec projection.watch_set.generation
          (Event.canonical_head (record {
            previous_block_hash = hash_bytes previous;
            block = some (block_ref projection.block);
            values = projection.values;
            changed_bitmap = changed_bitmap;
          }))
          projection none false
    modify_cache (λ now c. select_canonical now c previous block_hash sequence)
    pure true

  -- A finalized checkpoint that is new starts a sweep.
  unfoldable pub note_finalized : ℕ → Option CheckpointMeta → Exec (Unit {0})
  note_finalized generation none = pure tt
  note_finalized generation (some finalized) = do
    last ← gets (λ s. s.cache.last_finalized)
    budget ← gets (λ s. s.cache.retirement_work_budget)
    if not (differs last finalized) then pure tt else do
      modify_cache
          (λ now c. begin_finality_sweep (record c { last_finalized = some finalized }) finalized)
      _ ← process_finality_budget codec generation budget
      pure tt

  -- The fence for a head whose projection is published.
  unfoldable pub publish_fence : AppliedForkchoiceMeta → Exec Bool
  publish_fence applied = do
    projection ← gets (λ s. (published s).canonical)
    if not (projection.block.hash == applied.head_hash) then raise forkchoice_head_mismatch else do
      let view = resolve applied projection.block.number
      let generation = projection.watch_set.generation
      lift (validate_forkchoice_checkpoints view)
      _ ←
          publish_state codec generation
            (Event.forkchoice_applied (record { view = some (forkchoice_view view) })) projection
            (some view) false
      note_finalized generation view.finalized
      pure true

module _ (source : SnapshotSource) where
  -- The cached projection, or that of the source.
  unfoldable pub cached_or_loaded : WatchSet → ℕ → Option Projection → Exec Projection
  cached_or_loaded watch_set block_hash (some projection) = pure projection
  cached_or_loaded watch_set block_hash none = do
    loaded ← try_load_at source watch_set block_hash
    lift loaded

  -- The projection of the new head; a cached one serves in its own generation only.
  unfoldable pub head_projection : ℕ → ℕ → WatchSet → Exec Projection
  head_projection generation block_hash watch_set = do
    active ← gets active_generation
    c ← gets (λ s. s.cache)
    cached_or_loaded watch_set block_hash
        (if generation == active then cached_projection c block_hash else none)

module _ (codec : Codec) (source : SnapshotSource) where
  unfoldable pub canonical : ℕ → ℕ → Option ℕ → ℕ → Exec Bool
  canonical generation observed_at expected_block_number block_hash = do
    active ← gets active_generation
    anchored_at ← gets (λ s. s.snapshot_anchored_at)
    previous ← gets (λ s. (published s).canonical)
    if ltb active generation
        then raise future_generation
        else if leb observed_at anchored_at
        then pure false
        else if block_hash == previous.block.hash
        then pure false
        else do
          projection ← head_projection source generation block_hash previous.watch_set
          changed_bitmap ←
              lift (check_canonical previous projection expected_block_number block_hash)
          install_canonical codec block_hash projection changed_bitmap

  unfoldable pub forkchoice_applied : ℕ → ℕ → AppliedForkchoiceMeta → Exec Bool
  forkchoice_applied generation observed_at applied = do
    active ← gets active_generation
    anchored_at ← gets (λ s. s.snapshot_anchored_at)
    head ← gets (λ s. s.cache.canonical_hash)
    if ltb active generation
        then raise future_generation
        else if leb observed_at anchored_at
        then pure false
        else if head == applied.head_hash
        then publish_fence codec applied
        else do
          _ ← canonical generation observed_at none applied.head_hash
          publish_fence codec applied
