-- ===== src/Dump/Checks/Converting.antt =====
-- The parts of the messages of src/publisher.rs under the checks of src/bin/statefeed-dump.rs.
use reth_statefeed.Prelude.{
  ℕ, suc, ◌+◌, ◌%◌, ◌≤◌, ◌≡◌, true, ◌&&◌, Option, none, some, List, [], ◌∷◌, length, map, ==_iff,
  ok, >>=-eq-ok, ensure, ensure-eq-ok, refl, arith, u32_mod,
}
use mathlib.Core.Option
use reth_statefeed.Prelude.Bytes.{bytes_eq, length-to_be_bytes}
use reth_statefeed.Watch.{WatchConfig, WatchKey, number_keys}
use reth_statefeed.Feed.{BlockMeta, CheckpointMeta, ForkchoiceMeta}
use reth_statefeed.Client.Packed
use reth_statefeed.Publisher.State.{Projection, checkpoint_ahead}
use reth_statefeed.Publisher.Messages.{block_ref, checkpoint_ref, forkchoice_view, watch_key}
use reth_statefeed.Publisher.Validate.{
  not_ahead, ordered, validate_forkchoice_checkpoints, validate_projection_shape,
}
use reth_statefeed.Dump.Checks.{
  validate_block_ref, validate_checkpoint, validate_forkchoice_view, packed, are_dense,
  are_coordinates, in_order,
}

pub bytes_eq_refl : (xs : List ℕ) → bytes_eq xs xs ≡ true
bytes_eq_refl [] = refl
bytes_eq_refl (x ∷ xs) = ground (arith, bytes_eq_refl xs)

validate_block_ref-block_ref :
    (block : BlockMeta) → validate_block_ref (some (block_ref block)) ≡ ok (block_ref block)
unfolding validate_block_ref block_ref
validate_block_ref-block_ref block =
    rw (length-to_be_bytes 32 block.hash, length-to_be_bytes 32 block.parent_hash) refl

validate_checkpoint-checkpoint_ref :
    (head : CheckpointMeta) (checkpoint : Option CheckpointMeta)
    → not_ahead head.number checkpoint ≡ true
    → validate_checkpoint (checkpoint_ref head) (Option.map checkpoint_ref checkpoint) ≡ ok tt
unfolding validate_checkpoint checkpoint_ref
validate_checkpoint-checkpoint_ref head none h = refl
validate_checkpoint-checkpoint_ref head (some checkpoint) h =
    rw (length-to_be_bytes 32 checkpoint.hash, h) refl

in_order-checkpoint_ref :
    (safe finalized : Option CheckpointMeta)
    → in_order (Option.map checkpoint_ref safe) (Option.map checkpoint_ref finalized)
      ≡ ordered safe finalized
unfolding checkpoint_ref
in_order-checkpoint_ref none finalized = refl
in_order-checkpoint_ref (some safe) none = refl
in_order-checkpoint_ref (some safe) (some finalized) = refl

-- A view that passes the check of the publisher passes that of the consumer.
pub validate_forkchoice_view-forkchoice_view :
    (view : ForkchoiceMeta)
    → validate_forkchoice_checkpoints view ≡ ok tt
    → validate_forkchoice_view (some (forkchoice_view view))
      ≡ ok (forkchoice_view view, checkpoint_ref view.head)
unfolding validate_forkchoice_view forkchoice_view validate_forkchoice_checkpoints checkpoint_ref
validate_forkchoice_view-forkchoice_view view h =
    let (_, ahead, rest) =
      >>=-eq-ok
        (ensure (not_ahead view.head.number view.safe && not_ahead view.head.number view.finalized)
          checkpoint_ahead)
        _ h in
    rw
      (
        length-to_be_bytes 32 view.head.hash,
        validate_checkpoint-checkpoint_ref view.head view.safe (ground arith),
        validate_checkpoint-checkpoint_ref view.head view.finalized (ground arith),
        in_order-checkpoint_ref view.safe view.finalized,
        ensure-eq-ok (ordered view.safe view.finalized) _ rest,
      )
      refl

pub are_dense-number_keys :
    (index : ℕ) (configured : List WatchConfig)
    → index + length configured ≤ u32_mod
    → are_dense index (map watch_key (number_keys index configured)) ≡ true
unfolding are_dense number_keys watch_key
are_dense-number_keys index [] h = refl
are_dense-number_keys index (key ∷ rest) h =
    rw
      (
        (==_iff (index % u32_mod) index).1 (omega arith),
        are_dense-number_keys (suc index) rest (omega arith),
      )
      refl

pub are_coordinates-watch_key : (keys : List WatchKey) → are_coordinates (map watch_key keys) ≡ true
unfolding are_coordinates watch_key
are_coordinates-watch_key [] = refl
are_coordinates-watch_key (key ∷ rest) =
    rw
      (
        length-to_be_bytes 20 key.address,
        length-to_be_bytes 32 key.slot,
        are_coordinates-watch_key rest,
      )
      refl

pub length-number_keys :
    (index : ℕ) (configured : List WatchConfig)
    → length (number_keys index configured) ≡ length configured
unfolding number_keys
length-number_keys index [] = refl
length-number_keys index (key ∷ rest) = omega (arith, length-number_keys (suc index) rest)

pub length-map-watch_key : (keys : List WatchKey) → length (map watch_key keys) ≡ length keys
length-map-watch_key [] = refl
length-map-watch_key (key ∷ rest) = omega (arith, length-map-watch_key rest)

pub packed_of_shape :
    (projection : Projection)
    → validate_projection_shape projection ≡ ok tt
    → packed projection.values (length projection.watch_set.keys)
      ≡ ok (record { bytes = projection.values })
unfolding packed validate_projection_shape Packed.new
packed_of_shape projection h = ground arith
