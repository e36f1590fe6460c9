-- ===== src/Publisher/Stream/Handlers.antt =====
-- Every operation of src/publisher.rs that publishes ordinary events keeps the stream in order.
use reth_statefeed.Prelude.{ℕ, refl, Bool, none, List, [], ◌∷◌}
use reth_statefeed.Watch.{SlotChange}
use reth_statefeed.Feed.{BlockMeta}
use reth_statefeed.Wire.{Codec, RetirementReason}
use reth_statefeed.Dump.{StreamPhase}
use reth_statefeed.Publisher.State.{PublishedFrame, Projection, CandidateStage}
use reth_statefeed.Publisher.Exec.{publish_batches, publish_retired}
use reth_statefeed.Publisher.Lifecycle.{
  trim_projection_cache, trim_metadata, insert_candidate, insert_deferred_executed,
  process_finality_budget, maintain,
}
use reth_statefeed.Publisher.Stream.Rules.{
  Keeps, Keeps-pure, Keeps-raise, Keeps-lift, Keeps-gets, Keeps-modify_cache, Keeps-on_cache,
  Keeps-load_latest, Keeps-try_load_at, Keeps-bind, Keeps-if, Keeps-publish_with,
}

pub ruleset keeps_rules = (
  Keeps-pure, Keeps-raise, Keeps-lift, Keeps-gets, Keeps-modify_cache, Keeps-on_cache,
  Keeps-try_load_at, Keeps-bind, Keeps-if,
)

module _ (codec : Codec) (base : List PublishedFrame) (start : StreamPhase) where
  pub publish_batches-Keeps :
      (generation : ℕ) (reason : RetirementReason) (batches : List (List ℕ))
      → Keeps codec base start (publish_batches codec generation reason batches)
  unfolding publish_batches
  publish_batches-Keeps generation reason [] = Keeps-pure codec base start tt
  publish_batches-Keeps generation reason (batch ∷ rest) =
      Keeps-bind codec base start
        (Keeps-publish_with codec base start generation _ none (refl, refl, refl) tt)
        (λ _. publish_batches-Keeps generation reason rest)

  pub publish_retired-Keeps :
      (generation : ℕ) (hashes : List ℕ) (reason : RetirementReason)
      → Keeps codec base start (publish_retired codec generation hashes reason)
  unfolding publish_retired
  publish_retired-Keeps generation hashes reason = search (keeps_rules, publish_batches-Keeps)

  pub trim_projection_cache-Keeps :
      (generation : ℕ) → Keeps codec base start (trim_projection_cache codec generation)
  unfolding trim_projection_cache
  trim_projection_cache-Keeps generation = search (keeps_rules, publish_retired-Keeps)

  pub trim_metadata-Keeps :
      (generation : ℕ) → Keeps codec base start (trim_metadata codec generation)
  unfolding trim_metadata
  trim_metadata-Keeps generation = search (keeps_rules, publish_retired-Keeps)

  pub insert_candidate-Keeps :
      (projection : Projection) (stage : CandidateStage) (tracked : Bool) (first_sequence : ℕ)
      → Keeps codec base start (insert_candidate codec projection stage tracked first_sequence)
  unfolding insert_candidate
  insert_candidate-Keeps projection stage tracked first_sequence =
      search (keeps_rules, trim_projection_cache-Keeps, trim_metadata-Keeps)

  pub insert_deferred_executed-Keeps :
      (block : BlockMeta) (changes : List SlotChange)
      → Keeps codec base start (insert_deferred_executed codec block changes)
  unfolding insert_deferred_executed
  insert_deferred_executed-Keeps block changes = search (keeps_rules, trim_metadata-Keeps) depth 10

  pub process_finality_budget-Keeps :
      (generation budget : ℕ)
      → Keeps codec base start (process_finality_budget codec generation budget)
  unfolding process_finality_budget
  process_finality_budget-Keeps generation budget =
      search (keeps_rules, publish_retired-Keeps) depth 10

  pub maintain-Keeps : Keeps codec base start (maintain codec)
  unfolding maintain
  maintain-Keeps =
      search (keeps_rules, publish_retired-Keeps, process_finality_budget-Keeps) depth 12
