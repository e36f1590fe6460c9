-- ===== src/Integration/Anchoring/Applied.antt =====
-- Attempts of `load_latest` of src/reth_integration.rs with an applied view.
use reth_statefeed.Prelude.{
  ℕ, ◌+◌, ◌≤◌, ◌<◌, ◌≡◌, Bool, some, ◌==◌, Result, ok, err, refl, subst, arith, ==_iff, Bool-cases,
  inl, inr,
}
use reth_statefeed.Watch.{WatchSet}
use reth_statefeed.Feed.{AppliedForkchoiceMeta, resolve}
use reth_statefeed.Publisher.State.{CanonicalSnapshot, Projection}
use reth_statefeed.Integration.Snapshots.{SnapshotError, World, ◌>>=◌, attempt, tracked, load_at}
use reth_statefeed.Integration.Snapshots.Reads.{>>=-eq-ok-read, attempt-eq-ok}
use reth_statefeed.Integration.Loading.{settle_applied, attempt_applied}
use reth_statefeed.Integration.Anchoring.{
  IsTimely, by_forkchoice, IsAnchored, tracked_still, found-same,
}
use reth_statefeed.Integration.Loading.Forward.{IsForward-load_at}

module _ (w : World) (watch_set : WatchSet) (timely : IsTimely w) (first opened : ℕ)
    (last : Bool) where
  confirmed_applied :
      (view : AppliedForkchoiceMeta) (projection : Projection) (start end : ℕ)
      → (tracked w opened).view ≡ some view
      → first ≤ opened
      → opened < start
      → start ≤ end
      → load_at w watch_set view.head_hash start ≡ (ok projection, end)
      → (tracked w (end + 1)).revision ≡ (tracked w opened).revision
      → IsAnchored w watch_set first (end + 1 + 1) (record {
        projection = projection;
        anchored_at = w.instant end;
        forkchoice = resolve view projection.block.number;
      })
  unfolding resolve
  confirmed_applied view projection start end seen h₁ h₂ h₃ loaded same = record {
    opened = opened;
    start = start;
    end = end;
    closed = end + 1;
    opens = h₁;
    starts = h₂;
    ends = omega arith;
    closes = omega arith;
    loaded = loaded;
    timed = refl;
    still = tracked_still w opened (end + 1) timely (omega arith) same;
    selected = by_forkchoice view seen refl;
  }

  settle_applied-IsAnchored :
      (view : AppliedForkchoiceMeta) (start end : ℕ) (read : Result SnapshotError Projection)
      {s : CanonicalSnapshot} {t' : ℕ}
      → (tracked w opened).view ≡ some view
      → first ≤ opened
      → opened < start
      → start ≤ end
      → load_at w watch_set view.head_hash start ≡ (read, end)
      → settle_applied w watch_set last (tracked w opened) view read end ≡ (ok (some s), t')
      → IsAnchored w watch_set first t' s
  unfolding settle_applied ◌>>=◌
  settle_applied-IsAnchored view start end (err e) seen h₁ h₂ h₃ loaded h = ground arith
  settle_applied-IsAnchored view start end (ok projection) {s = s} {t' = t'} seen h₁ h₂ h₃ loaded
        h =
      elim (Bool-cases ((tracked w (end + 1)).revision == (tracked w opened).revision)) [
        | inl same ↦
            found-same (λ s t. IsAnchored w watch_set first t s)
              (record {
                projection = projection;
                anchored_at = w.instant end;
                forkchoice = resolve view projection.block.number;
              })
              s (end + 1 + 1) t' (rw same at h)
              (confirmed_applied view projection start end seen h₁ h₂ h₃ loaded
                ((==_iff (tracked w (end + 1)).revision (tracked w opened).revision).0 same))
        | inr moved ↦ ground arith
      ]

  pub attempt_applied-IsAnchored :
      (view : AppliedForkchoiceMeta) (t : ℕ) {s : CanonicalSnapshot} {t' : ℕ}
      → (tracked w opened).view ≡ some view
      → first ≤ opened
      → opened < t
      → attempt_applied w watch_set last (tracked w opened) view t ≡ (ok (some s), t')
      → IsAnchored w watch_set first t' s
  unfolding attempt_applied
  attempt_applied-IsAnchored view t seen h₁ h₂ h =
      let (read, end, loads, rest) =
        >>=-eq-ok-read (attempt (load_at w watch_set view.head_hash)) _ t h in
      let loaded = attempt-eq-ok (load_at w watch_set view.head_hash) t loads in
      settle_applied-IsAnchored view t end read seen h₁ h₂
        (subst (λ r. t ≤ r.1) loaded (IsForward-load_at w watch_set view.head_hash t)) loaded rest
