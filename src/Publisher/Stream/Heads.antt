-- ===== src/Publisher/Stream/Heads.antt =====
-- The canonical transitions and forkchoice fences of src/publisher.rs keep the stream in order.
use reth_statefeed.Prelude.{ℕ, refl, true, Option, none, some, List}
use reth_statefeed.Watch.{WatchSet}
use reth_statefeed.Feed.{CheckpointMeta, AppliedForkchoiceMeta}
use reth_statefeed.Wire.{Codec}
use reth_statefeed.Dump.{StreamPhase}
use reth_statefeed.Publisher.State.{PublishedFrame, SnapshotSource, Projection}
use reth_statefeed.Publisher.Canonical.{
  install_canonical, cached_or_loaded, head_projection, canonical, note_finalized, publish_fence,
  forkchoice_applied,
}
use reth_statefeed.Publisher.Stream.Rules.{
  Keeps, Keeps-pure, Keeps-raise, Keeps-lift, Keeps-gets, Keeps-bind, Keeps-if, Keeps-publish_with,
}
use reth_statefeed.Publisher.Stream.Handlers.{
  keeps_rules, insert_candidate-Keeps, process_finality_budget-Keeps,
}

module _ (codec : Codec) (base : List PublishedFrame) (start : StreamPhase) where
  install_canonical-Keeps :
      (block_hash : ℕ) (projection : Projection) (changed_bitmap : List ℕ)
      → Keeps codec base start (install_canonical codec block_hash projection changed_bitmap)
  unfolding install_canonical
  install_canonical-Keeps block_hash projection changed_bitmap =
      Keeps-bind codec base start (Keeps-gets codec base start _) λ previous.
        Keeps-bind codec base start (insert_candidate-Keeps codec base start projection _ true 0)
          λ _.
            Keeps-bind codec base start
              (Keeps-publish_with codec base start _ _ _ (refl, refl, refl) refl)
              λ _. search keeps_rules

module _ (codec : Codec) (source : SnapshotSource) where
  module _ (base : List PublishedFrame) (start : StreamPhase) where
    cached_or_loaded-Keeps :
        (watch_set : WatchSet) (block_hash : ℕ) (found : Option Projection)
        → Keeps codec base start (cached_or_loaded source watch_set block_hash found)
    unfolding cached_or_loaded
    cached_or_loaded-Keeps watch_set block_hash none = search keeps_rules
    cached_or_loaded-Keeps watch_set block_hash (some projection) =
        Keeps-pure codec base start projection

    head_projection-Keeps :
        (generation block_hash : ℕ) (watch_set : WatchSet)
        → Keeps codec base start (head_projection source generation block_hash watch_set)
    unfolding head_projection
    head_projection-Keeps generation block_hash watch_set =
        search (keeps_rules, cached_or_loaded-Keeps)

    canonical-Keeps :
        (generation observed_at : ℕ) (expected : Option ℕ) (block_hash : ℕ)
        → Keeps codec base start (canonical codec source generation observed_at expected block_hash)
    unfolding canonical
    canonical-Keeps generation observed_at expected block_hash =
        search (keeps_rules, head_projection-Keeps, install_canonical-Keeps) depth 12

    note_finalized-Keeps :
        (generation : ℕ) (finalized : Option CheckpointMeta)
        → Keeps codec base start (note_finalized codec generation finalized)
    unfolding note_finalized
    note_finalized-Keeps generation none = Keeps-pure codec base start tt
    note_finalized-Keeps generation (some finalized) =
        search (keeps_rules, process_finality_budget-Keeps) depth 12

    publish_fence-Keeps :
        (applied : AppliedForkchoiceMeta) → Keeps codec base start (publish_fence codec applied)
    unfolding publish_fence
    publish_fence-Keeps applied =
        Keeps-bind codec base start (Keeps-gets codec base start _) λ projection.
          Keeps-if codec base start _ (Keeps-raise codec base start _) (
            Keeps-bind codec base start (Keeps-lift codec base start _) λ _.
              Keeps-bind codec base start
                (Keeps-publish_with codec base start _ _ _ (refl, refl, refl) refl)
                λ _. search (keeps_rules, note_finalized-Keeps))

    pub forkchoice_applied-Keeps :
        (generation observed_at : ℕ) (applied : AppliedForkchoiceMeta)
        → Keeps codec base start (forkchoice_applied codec source generation observed_at applied)
    unfolding forkchoice_applied
    forkchoice_applied-Keeps generation observed_at applied =
        search (keeps_rules, canonical-Keeps, publish_fence-Keeps) depth 12
