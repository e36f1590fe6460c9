-- ===== src/Publisher/Messages.antt =====
-- The builders of wire messages at the end of src/publisher.rs. A hash is written as 32 bytes, an
-- address as 20, the most significant byte first.
use reth_statefeed.Prelude.{ℕ, some, List, map}
use mathlib.Core.Option
use reth_statefeed.Prelude.Bytes.{to_be_bytes}
use reth_statefeed.Watch
use reth_statefeed.Watch.{WatchSet}
use reth_statefeed.Feed.{BlockMeta, CheckpointMeta, ForkchoiceMeta}
use reth_statefeed.Wire
use reth_statefeed.Wire.{
  BlockRef, BlockStage, BlockState, CheckpointRef, ConfigActivated, ForkchoiceView, Snapshot,
  stage_code,
}
use reth_statefeed.Publisher.State.{Projection, CandidateStage, executed, validated}

abbrev pub hash_bytes : ℕ → List ℕ
hash_bytes hash = to_be_bytes 32 hash

abbrev pub stage_wire : CandidateStage → BlockStage
stage_wire executed = BlockStage.executed
stage_wire validated = BlockStage.validated

unfoldable pub block_ref : BlockMeta → BlockRef
block_ref block = record {
  number = block.number;
  hash = hash_bytes block.hash;
  parent_hash = hash_bytes block.parent_hash;
  timestamp = block.timestamp;
}

unfoldable pub checkpoint_ref : CheckpointMeta → CheckpointRef
checkpoint_ref checkpoint = record { number = checkpoint.number; hash = hash_bytes checkpoint.hash }

unfoldable pub forkchoice_view : ForkchoiceMeta → ForkchoiceView
forkchoice_view view = record {
  head = some (checkpoint_ref view.head);
  safe = Option.map checkpoint_ref view.safe;
  finalized = Option.map checkpoint_ref view.finalized;
}

unfoldable pub snapshot : Projection → ForkchoiceMeta → Snapshot
snapshot projection forkchoice = record {
  block = some (block_ref projection.block);
  values = projection.values;
  forkchoice = some (forkchoice_view forkchoice);
}

unfoldable pub block_state : Projection → BlockStage → BlockState
block_state projection stage = record {
  stage = stage_code stage;
  block = some (block_ref projection.block);
  values = projection.values;
  changed_bitmap = projection.changed_bitmap;
}

unfoldable pub watch_key : Watch.WatchKey → Wire.WatchKey
watch_key key = record {
  key_id = key.key_id;
  id = key.id;
  address = to_be_bytes 20 key.address;
  slot = to_be_bytes 32 key.slot;
}

unfoldable pub config_activated : WatchSet → ConfigActivated
config_activated watch_set = record { keys = map watch_key watch_set.keys }
