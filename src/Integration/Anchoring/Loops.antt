-- ===== src/Integration/Anchoring/Loops.antt =====
-- The loop of `load_latest` of src/reth_integration.rs.
use reth_statefeed.Prelude.{
  ℕ, zero, suc, ◌+◌, ◌≤◌, ◌<◌, ◌≡◌, Bool, Option, none, some, ◌==◌, Result, ok, refl, ap, subst,
  ◌∙◌, arith,
}
use reth_statefeed.Watch.{WatchSet}
use reth_statefeed.Feed.{AppliedForkchoiceMeta}
use reth_statefeed.Publisher.State.{CanonicalSnapshot}
use reth_statefeed.Integration.Snapshots.{◌>>=◌, SnapshotError, World, Read, tracked}
use reth_statefeed.Integration.Snapshots.Reads.{>>=-eq-ok-read}
use reth_statefeed.Integration.Loading.{
  attempt_from, unless_found, attempt_once, load_attempts, load_latest,
}
use reth_statefeed.Integration.Anchoring.{IsTimely, IsAnchored}
use reth_statefeed.Integration.Loading.Forward.{IsForward-attempt_from}
use reth_statefeed.Integration.Anchoring.Applied.{attempt_applied-IsAnchored}
use reth_statefeed.Integration.Anchoring.Physical.{attempt_physical-IsAnchored}

returned-same :
    (P : CanonicalSnapshot → ℕ → Type 0) (a b : CanonicalSnapshot) (m n : ℕ)
    → ◌≡◌ {A = Result SnapshotError CanonicalSnapshot × ℕ} (ok a, m) (ok b, n)
    → P a m
    → P b n
returned-same P a b m n h p = subst (P b) time (subst (λ c. P c m) same p)
  where
    same : a ≡ b
    same = cc

    time : m ≡ n
    time = cc

module _ (w : World) (watch_set : WatchSet) (timely : IsTimely w) where
  attempt_from-IsAnchored :
      (first opened : ℕ) (last : Bool) (view : Option AppliedForkchoiceMeta) (t : ℕ)
      {s : CanonicalSnapshot} {t' : ℕ}
      → (tracked w opened).view ≡ view
      → first ≤ opened
      → opened < t
      → attempt_from w watch_set last (tracked w opened) view t ≡ (ok (some s), t')
      → IsAnchored w watch_set first t' s
  unfolding attempt_from
  attempt_from-IsAnchored first opened last none t seen h₁ h₂ h =
      attempt_physical-IsAnchored w watch_set timely first opened last t seen h₁ h₂ h
  attempt_from-IsAnchored first opened last (some view) t seen h₁ h₂ h =
      attempt_applied-IsAnchored w watch_set timely first opened last view t seen h₁ h₂ h

  -- An attempt with a snapshot ends the loop, and one without is repeated.
  unless_found-IsAnchored :
      (next : Read CanonicalSnapshot) (first t : ℕ) (found : Option CanonicalSnapshot) (t₁ : ℕ)
      {s : CanonicalSnapshot} {t' : ℕ}
      → ((s : CanonicalSnapshot) → found ≡ some s → IsAnchored w watch_set first t₁ s)
      → (next t₁ ≡ (ok s, t') → IsAnchored w watch_set first t' s)
      → unless_found w watch_set next found t₁ ≡ (ok s, t')
      → IsAnchored w watch_set first t' s
  unfolding unless_found
  unless_found-IsAnchored next first t none t₁ now later h = later h
  unless_found-IsAnchored next first t (some found) t₁ {s = s} {t' = t'} now later h =
      returned-same (λ s t. IsAnchored w watch_set first t s) found s t₁ t' h (now found refl)

  load_attempts-IsAnchored :
      (left first t : ℕ) {s : CanonicalSnapshot} {t' : ℕ}
      → first ≤ t
      → load_attempts w watch_set left t ≡ (ok s, t')
      → IsAnchored w watch_set first t' s
  unfolding load_attempts attempt_once ◌>>=◌
  load_attempts-IsAnchored zero first t h₁ h = cc
  load_attempts-IsAnchored (suc left) first t {s = s} {t' = t'} h₁ h =
      let (found, t₁, tried, rest) = >>=-eq-ok-read (attempt_once w watch_set (left == 0)) _ t h in
      unless_found-IsAnchored (load_attempts w watch_set left) first t found t₁
        (λ s' same.
          attempt_from-IsAnchored first t (left == 0) (tracked w t).view (t + 1) refl h₁
            (omega arith) (tried ∙ ap (λ f. (ok f, t₁)) same))
        (load_attempts-IsAnchored left first t₁ (
          omega (
            arith,
            h₁,
            subst (λ r. t + 1 ≤ r.1) tried
                (IsForward-attempt_from w watch_set (left == 0) (tracked w t) (tracked w t).view
                  (t + 1)),
          )))
        rest

-- While updates of the tracker are never undone and there are fewer than 2^64 of them, a snapshot
-- that `load_latest` returns was read, at the head of its forkchoice view, between two times of the
-- call at which, and between which, the tracker was the same. If the tracker had a view, the
-- forkchoice is that view resolved at the number of the block; otherwise its head is the one that
-- the provider named before the read and again after it, as are the safe and the finalized block.
-- Its anchor instant is that of the end of the read.
pub load_latest-IsAnchored :
    (w : World) (watch_set : WatchSet) (t : ℕ) (s : CanonicalSnapshot) (t' : ℕ)
    → IsTimely w
    → load_latest w watch_set t ≡ (ok s, t')
    → IsAnchored w watch_set t t' s
unfolding load_latest
load_latest-IsAnchored w watch_set t s t' timely h =
    load_attempts-IsAnchored w watch_set timely 4 t t (omega arith) h
