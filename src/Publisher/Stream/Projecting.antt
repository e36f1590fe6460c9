-- ===== src/Publisher/Stream/Projecting.antt =====
-- The handlers of candidates in src/publisher.rs keep the stream in order.
use reth_statefeed.Prelude.{
  ℕ, refl, false, not, ◌&&◌, Option, none, some, String, List, ok, err, if◌then◌else◌,
}
use reth_statefeed.Prelude.Map.{get}
use reth_statefeed.Watch.{WatchSet, SlotChange}
use reth_statefeed.Feed.{BlockMeta}
use reth_statefeed.Wire.{Codec}
use reth_statefeed.Dump.{StreamPhase}
use reth_statefeed.Publisher.State.{
  PublishedFrame, SnapshotSource, Projection, CandidateEntry, CandidateStage, DeferredExecuted,
}
use reth_statefeed.Publisher.Exec.{Exec, in_generation, pure}
use reth_statefeed.Publisher.Project.{
  assemble, project_orphan, project_on, project_new, promote_candidate, project_known, is_executed,
  project_candidate, promote_deferred, promote_validated, rejected,
}
use reth_statefeed.Publisher.Stream.Rules.{
  Keeps, Keeps-pure, Keeps-raise, Keeps-lift, Keeps-gets, Keeps-try_load_at, Keeps-bind, Keeps-if,
  Keeps-publish_with,
}
use reth_statefeed.Publisher.Stream.Handlers.{
  keeps_rules, insert_candidate-Keeps, insert_deferred_executed-Keeps,
}

module _ (codec : Codec) (base : List PublishedFrame) (start : StreamPhase) where
  pub in_generation-Keeps :
      {A : Type 0} (generation : ℕ) (stale : A) {body : Exec A}
      → Keeps codec base start body
      → Keeps codec base start (in_generation generation stale body)
  unfolding in_generation
  in_generation-Keeps generation stale k = search keeps_rules depth 8

  promote_candidate-Keeps :
      (generation block_hash : ℕ) (candidate : CandidateEntry)
      → Keeps codec base start (promote_candidate codec generation block_hash candidate)
  unfolding promote_candidate
  promote_candidate-Keeps generation block_hash candidate =
      cases candidate.stage candidate.projection
    where
      cases :
          (stage : CandidateStage) (projection : Option Projection)
          → Keeps codec base start (
              promote_candidate codec generation block_hash
                (record candidate { stage = stage; projection = projection }))
      cases CandidateStage.validated projection = Keeps-pure codec base start false
      cases CandidateStage.executed none = search keeps_rules
      cases CandidateStage.executed (some projection) =
          Keeps-if codec base start _ (Keeps-pure codec base start false) (
            Keeps-bind codec base start
              (Keeps-publish_with codec base start generation _ none (refl, refl, refl) tt)
              (λ _. search keeps_rules))

  pub rejected-Keeps :
      (generation block_hash : ℕ) (reason : String)
      → Keeps codec base start (rejected codec generation block_hash reason)
  unfolding rejected
  rejected-Keeps generation block_hash reason = in_generation-Keeps generation false (
      Keeps-bind codec base start (Keeps-gets codec base start _) λ c.
        Keeps-if codec base start _ (Keeps-pure codec base start false) (
          Keeps-bind codec base start
            (Keeps-publish_with codec base start generation _ none (refl, refl, refl) tt)
            (λ _. search keeps_rules)))

module _ (codec : Codec) (source : SnapshotSource) where
  module _ (base : List PublishedFrame) (start : StreamPhase) where
    assemble-Keeps :
        (generation : ℕ) (watch_set : WatchSet) (block : BlockMeta) (changes : List SlotChange)
        (stage : CandidateStage) (values : List ℕ)
        → Keeps codec base start
            (assemble codec source generation watch_set block changes stage values)
    unfolding assemble
    assemble-Keeps generation watch_set block changes stage values =
        Keeps-bind codec base start (Keeps-lift codec base start _) λ pair.
          Keeps-bind codec base start
            (Keeps-publish_with codec base start generation _ none (refl, refl, refl) tt)
            λ _. search (keeps_rules, insert_candidate-Keeps)

    project_orphan-Keeps :
        (generation : ℕ) (watch_set : WatchSet) (block : BlockMeta) (changes : List SlotChange)
        (stage : CandidateStage)
        → Keeps codec base start
            (project_orphan codec source generation watch_set block changes stage)
    unfolding project_orphan
    project_orphan-Keeps generation watch_set block changes CandidateStage.executed =
        search (keeps_rules, insert_deferred_executed-Keeps)
    project_orphan-Keeps generation watch_set block changes CandidateStage.validated =
        Keeps-bind codec base start (Keeps-try_load_at codec base start _ _ _) (elim [
          | err e ↦ Keeps-pure codec base start false
          | ok projection ↦ search (keeps_rules, assemble-Keeps)
        ])

    project_on-Keeps :
        (generation : ℕ) (watch_set : WatchSet) (block : BlockMeta) (changes : List SlotChange)
        (stage : CandidateStage) (parent : Option Projection)
        → Keeps codec base start
            (project_on codec source generation watch_set block changes stage parent)
    unfolding project_on
    project_on-Keeps generation watch_set block changes stage none =
        project_orphan-Keeps generation watch_set block changes stage
    project_on-Keeps generation watch_set block changes stage (some parent) =
        search (keeps_rules, assemble-Keeps)

    project_new-Keeps :
        (generation : ℕ) (block : BlockMeta) (changes : List SlotChange) (stage : CandidateStage)
        → Keeps codec base start (project_new codec source generation block changes stage)
    unfolding project_new
    project_new-Keeps generation block changes stage =
        search (keeps_rules, project_on-Keeps) depth 8

    project_known-Keeps :
        (generation : ℕ) (block : BlockMeta) (changes : List SlotChange) (stage : CandidateStage)
        (known : Option CandidateEntry)
        → Keeps codec base start (project_known codec source generation block changes stage known)
    unfolding project_known
    project_known-Keeps generation block changes stage none =
        project_new-Keeps generation block changes stage
    project_known-Keeps generation block changes stage (some candidate) =
        Keeps-if codec base start _ (Keeps-raise codec base start _) (cases candidate.projection)
      where
        cases :
            (projection : Option Projection)
            → Keeps codec base start (elim projection [
              | none ↦ project_new codec source generation block changes stage
              | some _ ↦
                  if not (is_executed stage) && is_executed candidate.stage
                  then promote_candidate codec generation block.hash candidate
                  else pure false
            ])
        cases none = project_new-Keeps generation block changes stage
        cases (some _) =
            Keeps-if codec base start _
              (promote_candidate-Keeps codec base start generation block.hash candidate)
              (Keeps-pure codec base start false)

    pub project_candidate-Keeps :
        (generation : ℕ) (block : BlockMeta) (changes : List SlotChange) (stage : CandidateStage)
        → Keeps codec base start (project_candidate codec source generation block changes stage)
    unfolding project_candidate
    project_candidate-Keeps generation block changes stage =
        in_generation-Keeps codec base start generation false
          (search (keeps_rules, project_known-Keeps))

    promote_deferred-Keeps :
        (generation : ℕ) (deferred : Option DeferredExecuted)
        → Keeps codec base start (promote_deferred codec source generation deferred)
    unfolding promote_deferred
    promote_deferred-Keeps generation none = Keeps-pure codec base start false
    promote_deferred-Keeps generation (some deferred) =
        project_candidate-Keeps generation deferred.block deferred.changes CandidateStage.validated

    pub promote_validated-Keeps :
        (generation block_hash : ℕ)
        → Keeps codec base start (promote_validated codec source generation block_hash)
    unfolding promote_validated
    promote_validated-Keeps generation block_hash =
        in_generation-Keeps codec base start generation false (
          Keeps-bind codec base start (Keeps-gets codec base start _) λ c.
            elim (get c.candidates block_hash)
              as (λ found. Keeps codec base start (elim found [
                | some candidate ↦ promote_candidate codec generation block_hash candidate
                | none ↦
                    promote_deferred codec source generation (get c.deferred_executed block_hash)
              ])) [
                | none ↦ promote_deferred-Keeps generation (get c.deferred_executed block_hash)
                | some candidate ↦
                    promote_candidate-Keeps codec base start generation block_hash candidate
              ])
