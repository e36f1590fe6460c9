-- ===== src/Publisher/Validate.antt =====
-- The checks of src/publisher.rs on projections, snapshots and forkchoice views, the application of
-- a block's changes, and the bitmaps of changed keys.
pub mod Bits
pub mod Bitmaps
pub mod Writes
pub mod Changes
pub mod Marks
pub mod Blocks
use Prim.Native.Nat.{bit_or}
use text.Mathlib.Text.{◌==◌ as str_eq}
use reth_statefeed.Prelude.{
  ℕ, zero, suc, ◌+◌, ◌/◌, ◌%◌, ◌^◌, Bool, true, not, ◌&&◌, ◌||◌, Option, none, some, List, [], ◌∷◌,
  length, is_empty, take, drop, replicate, leb, ◌==◌, if◌then◌else◌, Result, ok, err, ensure, ok_or,
  ◌>>=◌, ◌>>◌,
}
use reth_statefeed.Prelude.Bytes.{to_be_bytes, slice?, splice, bytes_eq, checked_mul}
use reth_statefeed.Watch.{WatchSet, WatchKey, SlotChange, len}
use reth_statefeed.Feed.{CheckpointMeta, ForkchoiceMeta}
use reth_statefeed.Publisher.State.{
  Error, dictionary_mismatch, values_overflow, wrong_values_length, wrong_bitmap_length,
  snapshot_head_mismatch, checkpoint_ahead, finalized_ahead_of_safe, different_dictionaries,
  invalid_key_id, Projection, CanonicalSnapshot,
}
use reth_statefeed.Publisher.Candidates.{saturating_mul}
use reth_statefeed.Publisher.Retirement.{saturating_add}

-- `n.div_ceil(8)`.
abbrev pub bitmap_len : ℕ → ℕ
bitmap_len n = (n + 7) / 8

unfoldable pub same_key : WatchKey → WatchKey → Bool
same_key actual expected =
    actual.key_id == expected.key_id
    && (str_eq actual.id expected.id
        && (actual.address == expected.address && actual.slot == expected.slot))

unfoldable pub same_keys : List WatchKey → List WatchKey → Bool
same_keys [] expected = true
same_keys (a ∷ actual) [] = true
same_keys (a ∷ actual) (e ∷ expected) = same_key a e && same_keys actual expected

-- Two pointers to one dictionary are equal by the comparison too.
unfoldable pub validate_projection_dictionary : Projection → WatchSet → Result Error (Unit {0})
validate_projection_dictionary projection expected =
    let actual = projection.watch_set in
    ensure
      (actual.generation == expected.generation
        && (length actual.keys == length expected.keys && same_keys actual.keys expected.keys))
      dictionary_mismatch

-- One round of the loop over the checkpoints that are set.
abbrev pub not_ahead : ℕ → Option CheckpointMeta → Bool
not_ahead head none = true
not_ahead head (some checkpoint) = leb checkpoint.number head

abbrev pub ordered : Option CheckpointMeta → Option CheckpointMeta → Bool
ordered none finalized = true
ordered (some safe) none = true
ordered (some safe) (some finalized) = leb finalized.number safe.number

unfoldable pub validate_forkchoice_checkpoints : ForkchoiceMeta → Result Error (Unit {0})
validate_forkchoice_checkpoints view = do
  ensure (not_ahead view.head.number view.safe && not_ahead view.head.number view.finalized)
      checkpoint_ahead
  ensure (ordered view.safe view.finalized) finalized_ahead_of_safe

unfoldable pub validate_snapshot_view : CanonicalSnapshot → Result Error (Unit {0})
validate_snapshot_view snapshot = do
  ensure
      (snapshot.forkchoice.head.number == snapshot.projection.block.number
        && snapshot.forkchoice.head.hash == snapshot.projection.block.hash)
      snapshot_head_mismatch
  validate_forkchoice_checkpoints snapshot.forkchoice

unfoldable pub validate_projection_shape : Projection → Result Error (Unit {0})
validate_projection_shape projection = do
  expected_values ← ok_or (checked_mul (len projection.watch_set) 32) values_overflow
  ensure (length projection.values == expected_values) wrong_values_length
  ensure
      (is_empty projection.changed_bitmap
        || length projection.changed_bitmap == bitmap_len (len projection.watch_set))
      wrong_bitmap_length

-- `bytes[i] |= mask`.
unfoldable pub or_at : List ℕ → ℕ → ℕ → List ℕ
or_at [] i mask = []
or_at (b ∷ bs) zero mask = bit_or b mask ∷ bs
or_at (b ∷ bs) (suc i) mask = b ∷ or_at bs i mask

-- `bitmap[index / 8] |= 1 << (index % 8)`.
unfoldable pub set_bit : List ℕ → ℕ → List ℕ
set_bit bitmap index = or_at bitmap (index / 8) (2 ^ (index % 8))

-- The loop of `project_candidate` over the changes of a block: the values and the bitmap.
unfoldable pub apply_changes : List SlotChange → List ℕ → List ℕ → Result Error (List ℕ × List ℕ)
apply_changes [] values bitmap = ok (values, bitmap)
apply_changes (change ∷ rest) values bitmap =
    let offset = saturating_mul change.key_id 32 in
    let next = to_be_bytes 32 change.new_value in
    elim (slice? values offset (saturating_add offset 32)) [
      | none ↦ err invalid_key_id
      | some value ↦
          let same = bytes_eq value next in
          apply_changes rest (if same then values else splice values offset next)
            (if same then bitmap else set_bit bitmap change.key_id)
    ]

-- The loop of `canonical_changed_bitmap` over 32-byte chunks, on the number of chunks.
unfoldable pub compare_chunks : ℕ → ℕ → List ℕ → List ℕ → List ℕ → List ℕ
compare_chunks zero index before after changed = changed
compare_chunks (suc n) index before after changed =
    compare_chunks n (index + 1) (drop 32 before) (drop 32 after)
      (if bytes_eq (take 32 before) (take 32 after) then changed else set_bit changed index)

unfoldable pub canonical_changed_bitmap : Projection → Projection → Result Error (List ℕ)
canonical_changed_bitmap previous next =
    let size = bitmap_len (len next.watch_set) in
    if not (previous.watch_set.generation == next.watch_set.generation)
      || not (length previous.values == length next.values)
    then err different_dictionaries
    else if next.block.parent_hash == previous.block.hash && length next.changed_bitmap == size
    then ok next.changed_bitmap
    else ok
        (compare_chunks (length next.values / 32) 0 previous.values next.values (replicate size 0))
