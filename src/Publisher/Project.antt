-- ===== src/Publisher/Project.antt =====
-- Speculative candidates in src/publisher.rs: `project_candidate`, `promote_validated`, `rejected`.
use reth_statefeed.Prelude.{
  ℕ, ◌+◌, ◌-◌, ◌*◌, Bool, true, false, not, ◌&&◌, ◌||◌, Option, none, some, String, List, [],
  length, contains, replicate, is_some, is_some_and, ltb, leb, ◌==◌, if◌then◌else◌, Result, ok, err,
  u64_mod, ensure,
}
use reth_statefeed.Prelude
use reth_statefeed.Prelude.Map.{get, insert, contains_key}
use reth_statefeed.Watch.{WatchSet, SlotChange, len}
use reth_statefeed.Feed.{BlockMeta}
use reth_statefeed.Wire.{Codec, Event}
use reth_statefeed.Publisher.State.{
  Error, inconsistent_metadata, number_overflow, invalid_ancestry, generation_mismatch,
  parent_mismatch, SnapshotSource, Projection, CandidateEntry, CandidateStage, DeferredExecuted,
  Candidates,
}
use reth_statefeed.Publisher.Candidates.{saturating_mul, remove_candidate_tree}
use reth_statefeed.Publisher.Messages.{hash_bytes, block_state, stage_wire}
use reth_statefeed.Publisher.Validate.{
  bitmap_len, apply_changes, validate_projection_dictionary, validate_projection_shape,
}
use reth_statefeed.Publisher.Exec.{
  Exec, ◌>>=◌, ◌>>◌, pure, raise, lift, gets, modify_cache, published, publish, try_load_at,
  in_generation,
}
use reth_statefeed.Publisher.Lifecycle.{insert_candidate, insert_deferred_executed}

abbrev pub same_block : BlockMeta → BlockMeta → Bool
same_block a b =
    a.number == b.number
    && (a.hash == b.hash && (a.parent_hash == b.parent_hash && a.timestamp == b.timestamp))

abbrev pub is_executed : CandidateStage → Bool
is_executed CandidateStage.executed = true
is_executed CandidateStage.validated = false

-- `number.checked_add(1)`.
abbrev pub child_number : ℕ → Result Error ℕ
child_number number = if ltb (number + 1) u64_mod then ok (number + 1) else err number_overflow

-- The checks on a cached parent; its values are the base of the child's.
unfoldable pub values_of_parent : ℕ → WatchSet → BlockMeta → Projection → Result Error (List ℕ)
values_of_parent generation watch_set block parent =
    Prelude.◌>>=◌ (child_number parent.block.number) λ expected_number.
      if not (block.number == expected_number)
      then err invalid_ancestry
      else if not (parent.watch_set.generation == generation)
          || not (length parent.values == saturating_mul (len watch_set) 32)
      then err generation_mismatch
      else ok parent.values

-- The checks on a parent that the source has loaded.
unfoldable pub values_of_loaded : WatchSet → BlockMeta → Projection → Result Error (List ℕ)
values_of_loaded watch_set block projection =
    Prelude.◌>>=◌ (validate_projection_dictionary projection watch_set) λ _.
      Prelude.◌>>=◌ (child_number projection.block.number) λ expected_number.
        if not (projection.block.hash == block.parent_hash) || not (expected_number == block.number)
        then err parent_mismatch
        else Prelude.◌>>=◌ (validate_projection_shape projection) λ _. ok projection.values

-- The projection that a candidate has, if it is cached with one.
abbrev pub cached_projection : Candidates → ℕ → Option Projection
cached_projection c hash = elim (get c.candidates hash) [
  | none ↦ none
  | some candidate ↦ candidate.projection
]

abbrev pub set_validated : Candidates → ℕ → CandidateEntry → Candidates
set_validated c hash candidate = record c {
  candidates = insert c.candidates hash (record candidate { stage = CandidateStage.validated });
}

-- The candidates that a REJECTED may end.
unfoldable pub rejectable : Candidates → ℕ → Bool
rejectable c block_hash =
    is_some_and (get c.candidates block_hash) (λ candidate. is_executed candidate.stage)
    || contains_key c.deferred_executed block_hash

module _ (codec : Codec) where
  -- `promote_validated` where the candidate has a record.
  unfoldable pub promote_candidate : ℕ → ℕ → CandidateEntry → Exec Bool
  promote_candidate generation block_hash candidate = elim candidate.stage [
    | CandidateStage.validated ↦ pure false
    | CandidateStage.executed ↦ elim candidate.projection [
      | none ↦ do modify_cache (λ now c. set_validated c block_hash candidate); pure false
      | some projection ↦
          if not (projection.watch_set.generation == generation) then pure false else do
            _ ←
                publish codec generation
                  (Event.block_validated (record { block_hash = hash_bytes block_hash }))
            modify_cache (λ now c. set_validated c block_hash candidate)
            pure true
    ]
  ]

  unfoldable pub rejected : ℕ → ℕ → String → Exec Bool
  rejected generation block_hash reason = in_generation generation false (do
    c ← gets (λ s. s.cache)
    if not (rejectable c block_hash) then pure false else do
      _ ←
          publish codec generation
            (Event.block_rejected (record { block_hash = hash_bytes block_hash; reason = reason }))
      modify_cache (λ now c. remove_candidate_tree c block_hash true)
      pure true)

module _ (codec : Codec) (source : SnapshotSource) where
  -- The end of `project_candidate`: the child's values, its frame and its record.
  unfoldable pub assemble :
      ℕ → WatchSet → BlockMeta → List SlotChange → CandidateStage → List ℕ → Exec Bool
  assemble generation watch_set block changes stage base = do
    (values, changed_bitmap) ←
        lift (apply_changes changes base (replicate (bitmap_len (len watch_set)) 0))
    let projection : Projection = record {
      block = block;
      watch_set = watch_set;
      values = values;
      changed_bitmap = changed_bitmap;
    }
    first_sequence ←
        publish codec generation (Event.block_state (block_state projection (stage_wire stage)))
    insert_candidate codec projection stage true first_sequence
    pure true

  -- The parent is not cached: an early candidate is deferred, a validated one reads its parent.
  unfoldable pub project_orphan :
      ℕ → WatchSet → BlockMeta → List SlotChange → CandidateStage → Exec Bool
  project_orphan generation watch_set block changes CandidateStage.executed = do
    insert_deferred_executed codec block changes
    pure false
  project_orphan generation watch_set block changes CandidateStage.validated = do
    loaded ← try_load_at source watch_set block.parent_hash
    elim loaded [
      | err e ↦ pure false
      | ok projection ↦ do
        base ← lift (values_of_loaded watch_set block projection)
        assemble generation watch_set block changes CandidateStage.validated base
    ]

  unfoldable pub project_on :
      ℕ → WatchSet → BlockMeta → List SlotChange → CandidateStage → Option Projection → Exec Bool
  project_on generation watch_set block changes stage none =
      project_orphan generation watch_set block changes stage
  project_on generation watch_set block changes stage (some parent) = do
    base ← lift (values_of_parent generation watch_set block parent)
    assemble generation watch_set block changes stage base

  -- A block that has no projection yet.
  unfoldable pub project_new : ℕ → BlockMeta → List SlotChange → CandidateStage → Exec Bool
  project_new generation block changes stage = do
    state ← gets published
    c ← gets (λ s. s.cache)
    if leb block.number state.canonical.block.number
          && not (contains_key c.candidates block.parent_hash)
        then pure false
        else project_on generation state.canonical.watch_set block changes stage
            (cached_projection c block.parent_hash)

  -- A block whose hash has a record with a projection is not projected again; validation of an
  -- executed one promotes it.
  unfoldable pub project_known :
      ℕ → BlockMeta → List SlotChange → CandidateStage → Option CandidateEntry → Exec Bool
  project_known generation block changes stage none = project_new generation block changes stage
  project_known generation block changes stage (some candidate) =
      if not (same_block candidate.block block)
      then raise inconsistent_metadata
      else elim candidate.projection [
        | none ↦ project_new generation block changes stage
        | some _ ↦
            if not (is_executed stage) && is_executed candidate.stage
            then promote_candidate codec generation block.hash candidate
            else pure false
      ]

  unfoldable pub project_candidate : ℕ → BlockMeta → List SlotChange → CandidateStage → Exec Bool
  project_candidate generation block changes stage = in_generation generation false (do
    c ← gets (λ s. s.cache)
    if contains c.tombstones block.hash
        then pure false
        else project_known generation block changes stage (get c.candidates block.hash))

  -- `promote_validated` where the hash is no candidate: a deferred block is projected now.
  unfoldable pub promote_deferred : ℕ → Option DeferredExecuted → Exec Bool
  promote_deferred generation none = pure false
  promote_deferred generation (some deferred) =
      project_candidate generation deferred.block deferred.changes CandidateStage.validated

  unfoldable pub promote_validated : ℕ → ℕ → Exec Bool
  promote_validated generation block_hash = in_generation generation false (do
    c ← gets (λ s. s.cache)
    elim (get c.candidates block_hash) [
      | some candidate ↦ promote_candidate codec generation block_hash candidate
      | none ↦ promote_deferred generation (get c.deferred_executed block_hash)
    ])
