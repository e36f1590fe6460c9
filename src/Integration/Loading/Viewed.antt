-- ===== src/Integration/Loading/Viewed.antt =====
-- `load_latest` of src/reth_integration.rs with a view of the tracker, while no update happens.
use reth_statefeed.Prelude.{
  ℕ, ◌+◌, ◌≤◌, ◌≡◌, Bool, true, Option, some, ◌==◌, ==_iff, suc, Result, ok, err, refl, ap, ◌∙◌,
  arith,
}
use reth_statefeed.Watch.{WatchSet}
use reth_statefeed.Feed.{AppliedForkchoiceMeta, resolve}
use reth_statefeed.Publisher.State.{CanonicalSnapshot, Projection}
use reth_statefeed.Integration.{TrackedForkchoice}
use reth_statefeed.Integration.Snapshots.{
  SnapshotError, World, Read, continue, ◌>>=◌, tracked, load_at,
}
use reth_statefeed.Integration.Loading.{
  settle_applied, attempt_applied, attempt_from, attempt_once, unless_found, load_attempts,
}
use reth_statefeed.Integration.Loading.Forward.{IsForward-load_at}

-- One read at the head of a view, its clock read and its confirmation.
abbrev pub read_once :
    World
    → AppliedForkchoiceMeta
    → Result SnapshotError Projection × ℕ
    → Result SnapshotError CanonicalSnapshot × ℕ
read_once w view (err e, end) = (err e, end + 1)
read_once w view (ok projection, end) = (
  ok (record {
    projection = projection;
    anchored_at = w.instant end;
    forkchoice = resolve view projection.block.number;
  }),
  end + 1 + 1,
)

-- The result of an attempt that ends the loop.
abbrev pub found_once :
    {A : Type 0} → Result SnapshotError A × ℕ → Result SnapshotError (Option A) × ℕ
found_once (err e, end) = (err e, end)
found_once (ok a, end) = (ok (some a), end)

module _ (w : World) (watch_set : WatchSet) where
  pub continue-found_once :
      (next : Read CanonicalSnapshot) (r : Result SnapshotError CanonicalSnapshot × ℕ)
      → continue (unless_found w watch_set next) (found_once r) ≡ r
  unfolding unless_found
  continue-found_once next (err e, end) = refl
  continue-found_once next (ok a, end) = refl

  settle_applied-still :
      (last : Bool) (selected : TrackedForkchoice) (view : AppliedForkchoiceMeta)
      (r : Result SnapshotError Projection × ℕ)
      → ((s : ℕ) → r.1 ≤ s → (tracked w s).revision ≡ selected.revision)
      → settle_applied w watch_set last selected view r.0 r.1 ≡ found_once (read_once w view r)
  unfolding settle_applied ◌>>=◌
  settle_applied-still last selected view (err e, end) still = rw (confirmed end (omega arith)) refl
    where
      confirmed : (s : ℕ) → end ≤ s → ((tracked w s).revision == selected.revision) ≡ true
      confirmed s h = (==_iff (tracked w s).revision selected.revision).1 (still s h)
  settle_applied-still last selected view (ok projection, end) still =
      rw (confirmed (end + 1) (omega arith)) refl
    where
      confirmed : (s : ℕ) → end ≤ s → ((tracked w s).revision == selected.revision) ≡ true
      confirmed s h = (==_iff (tracked w s).revision selected.revision).1 (still s h)

  attempt_applied-still :
      (last : Bool) (selected : TrackedForkchoice) (view : AppliedForkchoiceMeta) (t : ℕ)
      → ((s : ℕ) → t ≤ s → (tracked w s).revision ≡ selected.revision)
      → attempt_applied w watch_set last selected view t
        ≡ found_once (read_once w view (load_at w watch_set view.head_hash t))
  unfolding attempt_applied ◌>>=◌
  attempt_applied-still last selected view t still =
      settle_applied-still last selected view (load_at w watch_set view.head_hash t)
        λ s h. still s (omega (arith, IsForward-load_at w watch_set view.head_hash t))

  attempt_from-still :
      (last : Bool) (selected : TrackedForkchoice) (view : AppliedForkchoiceMeta) (t : ℕ)
      → selected.view ≡ some view
      → ((s : ℕ) → t ≤ s → (tracked w s).revision ≡ selected.revision)
      → attempt_from w watch_set last selected selected.view t
        ≡ found_once (read_once w view (load_at w watch_set view.head_hash t))
  unfolding attempt_from
  attempt_from-still last selected view t seen still =
      rw seen (attempt_applied-still last selected view t still)

  pub load_attempts-still :
      (left t : ℕ) (view : AppliedForkchoiceMeta)
      → (tracked w t).view ≡ some view
      → ((s : ℕ) → t ≤ s → (tracked w s).revision ≡ (tracked w t).revision)
      → load_attempts w watch_set (suc left) t
        ≡ read_once w view (load_at w watch_set view.head_hash (t + 1))
  unfolding load_attempts attempt_once ◌>>=◌
  load_attempts-still left t view seen still =
      ap (continue (unless_found w watch_set (load_attempts w watch_set left))) (
        attempt_from-still (left == 0) (tracked w t) view (t + 1) seen λ s h. still s (omega arith))
      ∙ continue-found_once (load_attempts w watch_set left)
          (read_once w view (load_at w watch_set view.head_hash (t + 1)))
