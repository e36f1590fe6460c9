-- ===== src/Integration/Loading.antt =====
-- `load_latest` of src/reth_integration.rs: a snapshot whose anchor did not move while it was read.
pub mod Forward
pub mod Viewed
pub mod Still
use reth_statefeed.Prelude.{
  ℕ, zero, suc, ◌+◌, Bool, true, false, not, ◌&&◌, ◌||◌, Option, none, some, is_some, opt_eq, ◌==◌,
  if◌then◌else◌, Result, ok, err,
}
use reth_statefeed.Watch.{WatchSet}
use reth_statefeed.Feed.{CheckpointMeta, AppliedForkchoiceMeta, resolve}
use reth_statefeed.Publisher.State.{CanonicalSnapshot, Projection}
use reth_statefeed.Integration.{TrackedForkchoice}
use reth_statefeed.Integration.Snapshots.{
  SnapshotError, forkchoice_kept_changing, canonical_kept_changing, unreachable, ChainInfo, World,
  Read, ◌>>=◌, pure, fail, attempt, at, load_tracker, load_at,
}

-- `BlockNumHash` and its option, compared.
abbrev pub same_checkpoint : Option CheckpointMeta → Option CheckpointMeta → Bool
same_checkpoint none none = true
same_checkpoint none (some b) = false
same_checkpoint (some a) none = false
same_checkpoint (some a) (some b) = a.number == b.number && a.hash == b.hash

-- An attempt ends with a snapshot, or with none where the next attempt is made.
module _ (w : World) (watch_set : WatchSet) where
  -- With an applied view: what follows the read at its head, with the revision confirmed.
  unfoldable pub settle_applied :
      Bool
      → TrackedForkchoice
      → AppliedForkchoiceMeta
      → Result SnapshotError Projection
      → Read (Option CanonicalSnapshot)
  settle_applied last selected view (err e) = do
    confirmed ← load_tracker w
    if not (confirmed.revision == selected.revision) && not last then pure none else fail e
  settle_applied last selected view (ok projection) = do
    anchored_at ← at (λ t. ok (w.instant t))
    confirmed ← load_tracker w
    if confirmed.revision == selected.revision
        then pure (
            some (record {
              projection = projection;
              anchored_at = anchored_at;
              forkchoice = resolve view projection.block.number;
            }))
        else if last
        then fail (forkchoice_kept_changing selected.revision confirmed.revision)
        else pure none

  unfoldable pub attempt_applied :
      Bool → TrackedForkchoice → AppliedForkchoiceMeta → Read (Option CanonicalSnapshot)
  unfolding settle_applied
  attempt_applied last selected view = do
    read ← attempt (load_at w watch_set view.head_hash)
    settle_applied last selected view read

  -- The confirmation of a head that the provider selected.
  abbrev pub is_confirmed :
      TrackedForkchoice
      → TrackedForkchoice
      → ChainInfo
      → ChainInfo
      → Option CheckpointMeta
      → Option CheckpointMeta
      → Option CheckpointMeta
      → Option CheckpointMeta
      → Bool
  is_confirmed before after selected confirmed safe safe' finalized finalized' =
      after.revision == before.revision
      && (not (is_some after.view)
          && (confirmed.best_hash == selected.best_hash
              && (same_checkpoint safe' safe && same_checkpoint finalized' finalized)))

  -- Without an applied view: the provider's canonical state, read and confirmed.
  unfoldable pub settle_physical :
      Bool
      → TrackedForkchoice
      → ChainInfo
      → Option CheckpointMeta
      → Option CheckpointMeta
      → Result SnapshotError Projection
      → Read (Option CanonicalSnapshot)
  settle_physical last before selected safe finalized (err e) = do
    after ← load_tracker w
    confirmed ← at w.chain_info
    if (not (after.revision == before.revision) || not (confirmed.best_hash == selected.best_hash))
          && not last
        then pure none
        else fail e
  settle_physical last before selected safe finalized (ok projection) = do
    anchored_at ← at (λ t. ok (w.instant t))
    after ← load_tracker w
    confirmed ← at w.chain_info
    safe' ← at w.safe_block
    finalized' ← at w.finalized_block
    if is_confirmed before after selected confirmed safe safe' finalized finalized'
        then pure (
            some (record {
              projection = projection;
              anchored_at = anchored_at;
              forkchoice = record {
                head = record { number = selected.best_number; hash = selected.best_hash };
                safe = safe;
                finalized = finalized;
              };
            }))
        else if not last
        then pure none
        else if after.revision == before.revision
        then fail (canonical_kept_changing selected.best_hash confirmed.best_hash)
        else fail (forkchoice_kept_changing before.revision after.revision)

  unfoldable pub attempt_physical : Bool → TrackedForkchoice → Read (Option CanonicalSnapshot)
  unfolding settle_physical
  attempt_physical last before = do
    selected ← at w.chain_info
    safe ← at w.safe_block
    finalized ← at w.finalized_block
    read ← attempt (load_at w watch_set selected.best_hash)
    settle_physical last before selected safe finalized read

  unfoldable pub attempt_from :
      Bool → TrackedForkchoice → Option AppliedForkchoiceMeta → Read (Option CanonicalSnapshot)
  unfolding attempt_applied attempt_physical
  attempt_from last before (some view) = attempt_applied last before view
  attempt_from last before none = attempt_physical last before

  unfoldable pub attempt_once : Bool → Read (Option CanonicalSnapshot)
  unfolding attempt_from
  attempt_once last = do before ← load_tracker w; attempt_from last before before.view

  -- The loop on the attempts that are left; an attempt without a snapshot is repeated.
  unfoldable pub unless_found :
      Read CanonicalSnapshot → Option CanonicalSnapshot → Read CanonicalSnapshot
  unless_found next (some snapshot) = pure snapshot
  unless_found next none = next

  unfoldable pub load_attempts : ℕ → Read CanonicalSnapshot
  unfolding unless_found
  load_attempts zero = fail unreachable
  load_attempts (suc left) = do
    found ← attempt_once (left == 0)
    unless_found (load_attempts left) found

  -- `RethSnapshotSource::load_latest`, of four attempts.
  unfoldable pub load_latest : Read CanonicalSnapshot
  unfolding load_attempts
  load_latest = load_attempts 4
