-- ===== src/Integration/Loading/Still.antt =====
-- `load_latest` of src/reth_integration.rs while no update of the tracker happens.
use reth_statefeed.Prelude.{ℕ, ◌+◌, ◌≤◌, ◌≡◌, Option, none, some, Result, ok, err}
use reth_statefeed.Watch.{WatchSet}
use reth_statefeed.Feed.{AppliedForkchoiceMeta, CheckpointMeta, ForkchoiceMeta, resolve}
use reth_statefeed.Publisher.State.{CanonicalSnapshot, Projection}
use reth_statefeed.Integration.Snapshots.{SnapshotError, ChainInfo, World}

-- The provider's canonical head, with its checkpoints.
pub record CanonicalHead : Type 0 where
  pub selected : ChainInfo
  pub safe : Option CheckpointMeta
  pub finalized : Option CheckpointMeta

-- Without a view: the provider answers the same head at all times.
abbrev pub IsSettled : World → ℕ → CanonicalHead → Option AppliedForkchoiceMeta → Type 0
IsSettled w t head (some view) = Unit
IsSettled w t head none =
    ((s : ℕ) → t ≤ s → w.chain_info s ≡ ok head.selected)
    × ((s : ℕ) → t ≤ s → w.safe_block s ≡ ok head.safe)
    × ((s : ℕ) → t ≤ s → w.finalized_block s ≡ ok head.finalized)

-- The block that is read, the time at which the read of it begins, and the view of its snapshot.
abbrev pub hash_to_read : CanonicalHead → Option AppliedForkchoiceMeta → ℕ
hash_to_read head none = head.selected.best_hash
hash_to_read head (some view) = view.head_hash

abbrev pub begin_read : ℕ → Option AppliedForkchoiceMeta → ℕ
begin_read t none = t + 1 + 1 + 1 + 1
begin_read t (some view) = t + 1

abbrev pub view_of : CanonicalHead → Option AppliedForkchoiceMeta → ℕ → ForkchoiceMeta
view_of head (some view) number = resolve view number
view_of head none number = record {
  head = record { number = head.selected.best_number; hash = head.selected.best_hash };
  safe = head.safe;
  finalized = head.finalized;
}

-- The snapshot of a projection that was read until a time, or the error of the read.
abbrev pub snapshot_of :
    World
    → (ℕ → ForkchoiceMeta)
    → Result SnapshotError Projection × ℕ
    → Result SnapshotError CanonicalSnapshot
snapshot_of w view (err e, end) = err e
snapshot_of w view (ok projection, end) = ok (record {
  projection = projection;
  anchored_at = w.instant end;
  forkchoice = view projection.block.number;
})

module _ (w : World) (watch_set : WatchSet) (t : ℕ) (head : CanonicalHead) where
  -- The result of a read without a view, and the time after its confirmation.
  abbrev read_head :
      Result SnapshotError Projection × ℕ → Result SnapshotError CanonicalSnapshot × ℕ
  read_head (err e, end) = (err e, end + 1 + 1)
  read_head (ok projection, end) =
      (snapshot_of w (view_of head none) (ok projection, end), end + 1 + 1 + 1 + 1 + 1)
