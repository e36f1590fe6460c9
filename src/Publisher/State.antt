-- ===== src/Publisher/State.antt =====
-- The state of src/publisher.rs. `Publisher` is split in three: `Shared`, as in the program, the
-- candidate lifecycle (the fields from `candidates` to `finality_sweep`) and the rest.
use reth_statefeed.Prelude.{ℕ, Bool, Option, List, Result}
use reth_statefeed.Prelude.Map.{Map}
use reth_statefeed.Watch.{WatchSet, SlotChange}
use reth_statefeed.Feed.{BlockMeta, CheckpointMeta, ForkchoiceMeta}
use reth_statefeed.Wire.{EncodeError}

-- One constructor for each `eyre!` of the file; the messages are left out. `source` is an error of
-- the provider, `no_fuel` belongs to the model alone.
pub data Error : Type 0 where
  future_generation inconsistent_metadata number_overflow invalid_ancestry : Error
  generation_mismatch parent_mismatch invalid_key_id dictionary_mismatch : Error
  values_overflow wrong_values_length wrong_bitmap_length : Error
  snapshot_head_mismatch checkpoint_ahead finalized_ahead_of_safe : Error
  canonical_identity different_dictionaries forkchoice_head_mismatch : Error
  cannot_evict_projection metadata_bound : Error
  source no_fuel : Error
  encode : EncodeError → Error

pub record Projection : Type 0 where
  pub block : BlockMeta
  pub watch_set : WatchSet
  pub values : List ℕ
  pub changed_bitmap : List ℕ

pub record CanonicalSnapshot : Type 0 where
  pub projection : Projection
  pub anchored_at : ℕ
  pub forkchoice : ForkchoiceMeta

-- The provider behind the trait `SnapshotSource`. What it answers may change from call to call: the
-- first argument counts the calls that were made before.
pub record SnapshotSource : Type 0 where
  pub load_latest : ℕ → WatchSet → Result Error CanonicalSnapshot
  pub load_at : ℕ → WatchSet → ℕ → Result Error Projection

pub record PublishedState : Type 0 where
  pub canonical : Projection
  pub forkchoice : Option ForkchoiceMeta
  pub effective_sequence : ℕ
  pub recovering : Bool

pub record PublishedFrame : Type 0 where
  pub sequence : ℕ
  pub bytes : List ℕ

-- `sequence` counts the allocations; the value of the atomic is that number modulo 2 ^ 64.
-- `frames` is every frame sent to the broadcast channel, the newest first.
pub record Shared : Type 0 where
  pub boot_id : List ℕ
  pub chain_id : ℕ
  pub genesis_hash : ℕ
  pub started_at : ℕ
  pub sequence : ℕ
  pub published_sequence : ℕ
  pub max_frame_bytes : ℕ
  pub capabilities : ℕ
  pub published : PublishedState
  pub frames : List PublishedFrame

pub data CandidateStage : Type 0 where
  executed validated : CandidateStage

pub record CandidateEntry : Type 0 where
  pub block : BlockMeta
  pub projection : Option Projection
  pub stage : CandidateStage
  pub tracked : Bool
  pub first_sequence : ℕ
  pub incarnation : ℕ
  pub expires_at : ℕ

pub record DeferredExecuted : Type 0 where
  pub block : BlockMeta
  pub changes : List SlotChange
  pub incarnation : ℕ
  pub expires_at : ℕ

pub data FinalityClassification : Type 0 where
  compatible conflict unknown : FinalityClassification

pub record FinalityWalk : Type 0 where
  pub incarnation : ℕ
  pub root : ℕ
  pub current : ℕ
  pub path : List ℕ

pub record FinalitySweep : Type 0 where
  pub checkpoint : CheckpointMeta
  pub pending : List (ℕ × ℕ)
  pub classifications : Map FinalityClassification
  pub active : Option FinalityWalk

-- A queue of `(incarnation, hash)`, the front first.
pub record Candidates : Type 0 where
  pub candidates : Map CandidateEntry
  pub deferred_executed : Map DeferredExecuted
  pub children_by_parent : Map (List ℕ)
  pub projection_order : List (ℕ × ℕ)
  pub metadata_order : List (ℕ × ℕ)
  pub tombstones : List ℕ
  pub tombstone_order : List ℕ
  pub next_incarnation : ℕ
  pub projection_count : ℕ
  pub cache_limit : ℕ
  pub metadata_limit : ℕ
  pub candidate_retention : ℕ
  pub retirement_work_budget : ℕ
  pub canonical_hash : ℕ
  pub last_finalized : Option CheckpointMeta
  pub finality_sweep : Option FinalitySweep

-- `active_watch_set` is the watch set of the producer, which the publisher switches. `now` is what
-- `Instant::now` reads during the current operation, `loads` the calls made to the source so far.
pub record Publisher : Type 0 where
  pub shared : Shared
  pub cache : Candidates
  pub active_watch_set : WatchSet
  pub snapshot_anchored_at : ℕ
  pub now : ℕ
  pub loads : ℕ
