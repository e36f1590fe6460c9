-- ===== src/Integration/Loading/Forward.antt =====
-- Time passes in an attempt of `load_latest` of src/reth_integration.rs.
use reth_statefeed.Prelude.{ℕ, Bool, Option, none, some, Result, ok, err, arith}
use reth_statefeed.Watch.{WatchSet}
use reth_statefeed.Feed.{CheckpointMeta, AppliedForkchoiceMeta}
use reth_statefeed.Publisher.State.{Projection}
use reth_statefeed.Integration.{TrackedForkchoice}
use reth_statefeed.Integration.Snapshots.{
  SnapshotError, ChainInfo, World, ◌>>=◌, attempt, at, load_tracker, load_at,
}
use reth_statefeed.Integration.Snapshots.Reads.{IsForward, IsForward->>=}
use reth_statefeed.Integration.Loading.{
  settle_applied, settle_physical, attempt_from, attempt_applied, attempt_physical,
}

pub IsForward-load_at :
    (w : World) (watch_set : WatchSet) (hash : ℕ) → IsForward (load_at w watch_set hash)
unfolding load_at
IsForward-load_at w watch_set hash =
    IsForward->>= _ _ (λ t. omega arith)
      λ found.
        IsForward->>= _ _ (λ t. omega arith)
          λ header.
            IsForward->>= _ _ (λ t. omega arith)
              λ state. IsForward->>= _ _ (λ t. omega arith) λ values. λ t. omega arith

module _ (w : World) (watch_set : WatchSet) where
  IsForward-settle_applied :
      (last : Bool) (selected : TrackedForkchoice) (view : AppliedForkchoiceMeta)
      (read : Result SnapshotError Projection)
      → IsForward (settle_applied w watch_set last selected view read)
  unfolding settle_applied ◌>>=◌
  IsForward-settle_applied last selected view (err e) t = ground arith
  IsForward-settle_applied last selected view (ok projection) t = ground arith

  IsForward-settle_physical :
      (last : Bool) (before : TrackedForkchoice) (selected : ChainInfo)
      (safe finalized : Option CheckpointMeta) (read : Result SnapshotError Projection)
      → IsForward (settle_physical w watch_set last before selected safe finalized read)
  unfolding settle_physical
  IsForward-settle_physical last before selected safe finalized (err e) =
      IsForward->>= (load_tracker w) _ (λ t. omega arith)
        λ after. IsForward->>= (at w.chain_info) _ (λ t. omega arith) λ confirmed. λ t. ground arith
  IsForward-settle_physical last before selected safe finalized (ok projection) =
      IsForward->>= (at (λ t. ok (w.instant t))) _ (λ t. omega arith)
        λ anchored_at.
          IsForward->>= (load_tracker w) _ (λ t. omega arith)
            λ after.
              IsForward->>= (at w.chain_info) _ (λ t. omega arith)
                λ confirmed.
                  IsForward->>= (at w.safe_block) _ (λ t. omega arith)
                    λ safe'.
                      IsForward->>= (at w.finalized_block) _ (λ t. omega arith)
                        λ finalized'. λ t. ground arith

  IsForward-attempt : (hash : ℕ) → IsForward (attempt (load_at w watch_set hash))
  IsForward-attempt hash = IsForward-load_at w watch_set hash

  pub IsForward-attempt_from :
      (last : Bool) (before : TrackedForkchoice) (view : Option AppliedForkchoiceMeta)
      → IsForward (attempt_from w watch_set last before view)
  unfolding attempt_from attempt_applied attempt_physical
  IsForward-attempt_from last before (some view) =
      IsForward->>= (attempt (load_at w watch_set view.head_hash)) _
        (IsForward-attempt view.head_hash) (IsForward-settle_applied last before view)
  IsForward-attempt_from last before none =
      IsForward->>= (at w.chain_info) _ (λ t. omega arith)
        λ selected.
          IsForward->>= (at w.safe_block) _ (λ t. omega arith)
            λ safe.
              IsForward->>= (at w.finalized_block) _ (λ t. omega arith)
                λ finalized.
                  IsForward->>= (attempt (load_at w watch_set selected.best_hash)) _
                    (IsForward-attempt selected.best_hash)
                    (IsForward-settle_physical last before selected safe finalized)
