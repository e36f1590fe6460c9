-- ===== src/Integration/Anchoring/Physical.antt =====
-- Attempts of `load_latest` of src/reth_integration.rs on the state of the provider.
use reth_statefeed.Prelude.{
  ℕ, ◌+◌, ◌≤◌, ◌<◌, ◌≡◌, Bool, true, not, ◌&&◌, ◌||◌, Option, none, some, ◌==◌, if◌then◌else◌,
  Result, ok, err, refl, ap, subst, ◌∙◌, arith, Bool-cases, inl, inr,
}
use reth_statefeed.Watch.{WatchSet}
use reth_statefeed.Feed.{CheckpointMeta}
use reth_statefeed.Publisher.State.{CanonicalSnapshot, Projection}
use reth_statefeed.Integration.Snapshots.{
  SnapshotError, ChainInfo, World, ◌>>=◌, pure, fail, attempt, tracked, load_at,
}
use reth_statefeed.Integration.Snapshots.Reads.{at-eq-ok, >>=-eq-ok-read, attempt-eq-ok}
use reth_statefeed.Integration.Loading.{is_confirmed, settle_physical, attempt_physical}
use reth_statefeed.Integration.Anchoring.{
  IsTimely, by_provider, IsAnchored, tracked_still, same_checkpoint-eq, found-same,
}
use reth_statefeed.Integration.Loading.Forward.{IsForward-load_at}

module _ (w : World) (watch_set : WatchSet) (timely : IsTimely w) (first opened : ℕ)
    (last : Bool) where
  confirmed_physical :
      (selected confirmed : ChainInfo) (safe finalized safe' finalized' : Option CheckpointMeta)
      (projection : Projection) (before end : ℕ)
      → (tracked w opened).view ≡ none
      → first ≤ opened
      → opened < before
      → before + 3 ≤ end
      → w.chain_info before ≡ ok selected
      → w.safe_block (before + 1) ≡ ok safe
      → w.finalized_block (before + 1 + 1) ≡ ok finalized
      → load_at w watch_set selected.best_hash (before + 1 + 1 + 1) ≡ (ok projection, end)
      → w.chain_info (end + 1 + 1) ≡ ok confirmed
      → w.safe_block (end + 1 + 1 + 1) ≡ ok safe'
      → w.finalized_block (end + 1 + 1 + 1 + 1) ≡ ok finalized'
      → is_confirmed w watch_set
          (tracked w opened)
          (tracked w (end + 1))
          selected
          confirmed
          safe
          safe'
          finalized
          finalized'
        ≡ true
      → IsAnchored w watch_set first (end + 1 + 1 + 1 + 1 + 1) (record {
        projection = projection;
        anchored_at = w.instant end;
        forkchoice = record {
          head = record { number = selected.best_number; hash = selected.best_hash };
          safe = safe;
          finalized = finalized;
        };
      })
  confirmed_physical selected confirmed safe finalized safe' finalized' projection before end seen
        h₁ h₂ h₃ c₁ s₁ f₁ loaded c₂ s₂ f₂ good =
      record {
        opened = opened;
        start = before + 1 + 1 + 1;
        end = end;
        closed = end + 1;
        opens = h₁;
        starts = omega arith;
        ends = omega arith;
        closes = omega arith;
        loaded = loaded;
        timed = refl;
        still = tracked_still w opened (end + 1) timely (omega arith) (ground arith);
        selected =
            by_provider seen before (end + 1 + 1) h₂ (omega arith) (omega arith) c₁
              (
                confirmed.best_number,
                c₂
                    ∙ ap (λ b. ok (record { best_number = confirmed.best_number; best_hash = b }))
                        best,
              )
              s₁ f₁ (s₂ ∙ ap ok (same_checkpoint-eq safe' safe (ground arith)))
              (f₂ ∙ ap ok (same_checkpoint-eq finalized' finalized (ground arith)));
      }
    where
      best : confirmed.best_hash ≡ selected.best_hash
      best = ground arith

  settle_physical-IsAnchored :
      (selected : ChainInfo) (safe finalized : Option CheckpointMeta) (before end : ℕ)
      (read : Result SnapshotError Projection) {s : CanonicalSnapshot} {t' : ℕ}
      → (tracked w opened).view ≡ none
      → first ≤ opened
      → opened < before
      → before + 3 ≤ end
      → w.chain_info before ≡ ok selected
      → w.safe_block (before + 1) ≡ ok safe
      → w.finalized_block (before + 1 + 1) ≡ ok finalized
      → load_at w watch_set selected.best_hash (before + 1 + 1 + 1) ≡ (read, end)
      → settle_physical w watch_set last (tracked w opened) selected safe finalized read end
        ≡ (ok (some s), t')
      → IsAnchored w watch_set first t' s
  unfolding settle_physical ◌>>=◌
  settle_physical-IsAnchored selected safe finalized before end (err e) {s = s} {t' = t'} seen h₁ h₂
        h₃ c₁ s₁ f₁ loaded h =
      let (confirmed, _, rest) = at-eq-ok w.chain_info _ (end + 1) h in
      absurd (
        never
          (not ((tracked w end).revision == (tracked w opened).revision)
            || not (confirmed.best_hash == selected.best_hash))
          _ rest)
    where
      never :
          (b : Bool) (t : ℕ)
          → ◌≡◌ {A = Result SnapshotError (Option CanonicalSnapshot) × ℕ}
              ((if b && not last then pure none else fail e) t)
              (ok (some s), t')
          → ⊥
      never b t h = ground arith
  settle_physical-IsAnchored selected safe finalized before end (ok projection) {s = s} {t' = t'}
        seen h₁ h₂ h₃ c₁ s₁ f₁ loaded h =
      let (confirmed, c₂, r₂) = at-eq-ok w.chain_info _ (end + 1 + 1) h in
      let (safe', s₂, r₃) = at-eq-ok w.safe_block _ _ r₂ in
      let (finalized', f₂, r₄) = at-eq-ok w.finalized_block _ _ r₃ in
      elim (Bool-cases (
        is_confirmed w watch_set (tracked w opened) (tracked w (end + 1)) selected confirmed safe
          safe' finalized finalized')) [
            | inl good ↦
                found-same (λ s t. IsAnchored w watch_set first t s) _ s _ t' (rw good at r₄)
                  (confirmed_physical selected confirmed safe finalized safe' finalized' projection
                    before end seen h₁ h₂ h₃ c₁ s₁ f₁ loaded c₂ s₂ f₂ good)
            | inr moved ↦ ground arith
          ]

  pub attempt_physical-IsAnchored :
      (t : ℕ) {s : CanonicalSnapshot} {t' : ℕ}
      → (tracked w opened).view ≡ none
      → first ≤ opened
      → opened < t
      → attempt_physical w watch_set last (tracked w opened) t ≡ (ok (some s), t')
      → IsAnchored w watch_set first t' s
  unfolding attempt_physical
  attempt_physical-IsAnchored t seen h₁ h₂ h =
      let (selected, c₁, r₁) = at-eq-ok w.chain_info _ t h in
      let (safe, s₁, r₂) = at-eq-ok w.safe_block _ _ r₁ in
      let (finalized, f₁, r₃) = at-eq-ok w.finalized_block _ _ r₂ in
      let (read, end, loads, r₄) =
        >>=-eq-ok-read (attempt (load_at w watch_set selected.best_hash)) _ (t + 1 + 1 + 1) r₃ in
      let loaded = attempt-eq-ok (load_at w watch_set selected.best_hash) (t + 1 + 1 + 1) loads in
      settle_physical-IsAnchored selected safe finalized t end read seen h₁ h₂
        (omega (
          arith,
          subst (λ r. t + 1 + 1 + 1 ≤ r.1) loaded
              (IsForward-load_at w watch_set selected.best_hash (t + 1 + 1 + 1)),
        ))
        c₁ s₁ f₁ loaded r₄
