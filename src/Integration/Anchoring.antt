-- ===== src/Integration/Anchoring.antt =====
-- The anchor of the snapshots that `load_latest` of src/reth_integration.rs returns.
pub mod Applied
pub mod Physical
pub mod Loops
use reth_statefeed.Prelude.{
  ℕ, zero, suc, ◌+◌, ◌%◌, ◌≤◌, ◌<◌, ◌≡◌, Bool, true, false, not, ◌&&◌, ◌||◌, Option, none, some,
  is_some, ◌==◌, if◌then◌else◌, Result, ok, err, refl, sym, ap, subst, ◌∙◌, arith, u64_mod, ==_iff,
  Bool-cases, inl, inr, Option-cases,
}
use reth_statefeed.Watch.{WatchSet}
use reth_statefeed.Feed.{CheckpointMeta, AppliedForkchoiceMeta, resolve}
use reth_statefeed.Publisher.State.{CanonicalSnapshot, Projection}
use reth_statefeed.Integration.{TrackedForkchoice, update, updated}
use reth_statefeed.Integration.Snapshots.{
  SnapshotError, ChainInfo, World, Read, ◌>>=◌, pure, fail, attempt, at, tracked, load_tracker,
  load_at,
}
use reth_statefeed.Integration.Snapshots.Reads.{
  IsForward, IsForward->>=, IsForward-at, IsForward-if, at-eq-ok, >>=-eq-ok-read, attempt-eq-ok,
  if-eq-ok,
}
use reth_statefeed.Integration.Loading.{
  same_checkpoint, is_confirmed, settle_applied, settle_physical, attempt_from, unless_found,
  attempt_applied, attempt_physical, attempt_once, load_attempts, load_latest,
}

-- Updates are never undone, and there are fewer than 2^64 of them.
pub record IsTimely (w : World) : Type 0 where
  pub monotone : (s t : ℕ) → s ≤ t → w.applied s ≤ w.applied t
  pub bounded : (t : ℕ) → w.applied t < u64_mod

-- The anchor is the applied view of the tracker, or the state that the provider called canonical
-- before the projection was read and after.
pub data IsSelected (w : World) (opened start end : ℕ) (s : CanonicalSnapshot) : Type 0 where
  by_forkchoice :
      (view : AppliedForkchoiceMeta)
      → (tracked w opened).view ≡ some view
      → s.forkchoice ≡ resolve view s.projection.block.number
      → IsSelected w opened start end s
  by_provider :
      (tracked w opened).view ≡ none
      → (before after : ℕ) → opened < before
      → before < start
      → end < after
      → w.chain_info before
        ≡ ok (record { best_number = s.forkchoice.head.number; best_hash = s.forkchoice.head.hash })
      → ((n : ℕ) × (w.chain_info after
            ≡ ok (record { best_number = n; best_hash = s.forkchoice.head.hash })))
      → (w.safe_block (before + 1) ≡ ok s.forkchoice.safe)
      → (w.finalized_block (before + 1 + 1) ≡ ok s.forkchoice.finalized)
      → (w.safe_block (after + 1) ≡ ok s.forkchoice.safe)
      → (w.finalized_block (after + 1 + 1) ≡ ok s.forkchoice.finalized)
      → IsSelected w opened start end s

-- A snapshot that was read between two times at which, and between which, the tracker was the same.
pub record IsAnchored (w : World) (watch_set : WatchSet) (first last : ℕ) (s : CanonicalSnapshot)
    : Type 0 where
  pub opened : ℕ
  pub start : ℕ
  pub end : ℕ
  pub closed : ℕ
  pub opens : first ≤ opened
  pub starts : opened < start
  pub ends : end < closed
  pub closes : closed < last
  pub loaded : load_at w watch_set s.forkchoice.head.hash start ≡ (ok s.projection, end)
  pub timed : s.anchored_at ≡ w.instant end
  pub still : (t : ℕ) → opened ≤ t → t ≤ closed → tracked w t ≡ tracked w opened
  pub selected : IsSelected w opened start end s

updated-revision :
    (updates : ℕ → Option AppliedForkchoiceMeta) (n : ℕ)
    → ((updated updates n).next_revision ≡ n % u64_mod)
      × ((updated updates n).latest.revision ≡ n % u64_mod)
unfolding updated update
updated-revision updates zero = (refl, refl)
updated-revision updates (suc n) =
    let (next, _) = updated-revision updates n in (omega (arith, next), omega (arith, next))

pub tracked_still :
    (w : World) (a b : ℕ)
    → IsTimely w
    → a ≤ b
    → (tracked w b).revision ≡ (tracked w a).revision
    → (t : ℕ) → a ≤ t
    → t ≤ b
    → tracked w t ≡ tracked w a
tracked_still w a b timely ab same t le ge =
    ap (λ n. (updated w.updates n).latest)
      (omega (
        arith,
        timely.monotone a t le,
        timely.monotone t b ge,
        timely.bounded a,
        timely.bounded b,
        (updated-revision w.updates (w.applied a)).1,
        (updated-revision w.updates (w.applied b)).1,
        same,
      ))

pub same_checkpoint-eq : (a b : Option CheckpointMeta) → same_checkpoint a b ≡ true → a ≡ b
same_checkpoint-eq none none h = refl
same_checkpoint-eq none (some b) h = ground arith
same_checkpoint-eq (some a) none h = ground arith
same_checkpoint-eq (some a) (some b) h = ground arith

pub found-same :
    (P : CanonicalSnapshot → ℕ → Type 0) (a b : CanonicalSnapshot) (m n : ℕ)
    → ◌≡◌ {A = Result SnapshotError (Option CanonicalSnapshot) × ℕ}
        (ok (some a), m)
        (ok (some b), n)
    → P a m
    → P b n
found-same P a b m n h p = subst (P b) time (subst (λ c. P c m) same p)
  where
    same : a ≡ b
    same = cc

    time : m ≡ n
    time = cc
