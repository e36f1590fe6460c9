-- ===== src/Publisher/Lifecycle.antt =====
-- The operations of src/publisher.rs that bound the candidates and publish what they retire:
-- `trim_projection_cache`, `trim_metadata`, `insert_candidate`, `insert_deferred_executed`,
-- `process_finality_budget` and `maintain`.
use reth_statefeed.Prelude.{ℕ, ◌-◌, Bool, ◌||◌, List, [], contains, if◌then◌else◌, ok}
use reth_statefeed.Prelude.Map.{contains_key}
use reth_statefeed.Watch.{SlotChange}
use reth_statefeed.Feed.{BlockMeta}
use reth_statefeed.Wire.{Codec, RetirementReason}
use reth_statefeed.Publisher.State.{Projection, CandidateStage}
use reth_statefeed.Publisher.Retirement.{
  trim_projections, trim_projections_fuel, trim_records, trim_records_fuel, due, expire,
}
use reth_statefeed.Publisher.Finality.{process_finality}
use reth_statefeed.Publisher.Insertion.{insert_entry, insert_deferred}
use reth_statefeed.Publisher.Exec.{
  Exec, ◌>>=◌, ◌>>◌, pure, gets, modify_cache, on_cache, active_generation, publish_retired,
}

module _ (codec : Codec) where
  unfoldable pub trim_projection_cache : ℕ → Exec (Unit {0})
  trim_projection_cache generation = do
    retired ← on_cache (λ c. trim_projections (trim_projections_fuel c) 0 [] c)
    publish_retired codec generation retired RetirementReason.cache_evicted

  unfoldable pub trim_metadata : ℕ → Exec (Unit {0})
  trim_metadata generation = do
    retired ← on_cache (λ c. trim_records (trim_records_fuel c) [] c)
    publish_retired codec generation retired RetirementReason.cache_evicted

  unfoldable pub insert_candidate : Projection → CandidateStage → Bool → ℕ → Exec (Unit {0})
  insert_candidate projection stage tracked first_sequence = do
    modify_cache (λ now c. insert_entry c now projection stage tracked first_sequence)
    trim_projection_cache projection.watch_set.generation
    trim_metadata projection.watch_set.generation

  unfoldable pub insert_deferred_executed : BlockMeta → List SlotChange → Exec (Unit {0})
  insert_deferred_executed block changes = do
    c ← gets (λ s. s.cache)
    if contains c.tombstones block.hash || contains_key c.candidates block.hash then pure tt else do
      modify_cache (λ now c. insert_deferred c now block changes)
      generation ← gets active_generation
      trim_metadata generation

  -- The work done is what `maintain` deducts from its budget.
  unfoldable pub process_finality_budget : ℕ → ℕ → Exec ℕ
  process_finality_budget generation budget = do
    (work, retired) ←
        on_cache
          (λ c. let (work, retired, c') = process_finality c budget in (ok (work, retired), c'))
    publish_retired codec generation retired RetirementReason.finalized_conflict
    pure work

  unfoldable pub maintain : Exec (Unit {0})
  maintain = do
    now ← gets (λ s. s.now)
    generation ← gets active_generation
    budget ← gets (λ s. s.cache.retirement_work_budget)
    finality_work ← process_finality_budget generation budget
    expired ← on_cache (λ c.
        let (expired, c') = expire (due c now (budget - finality_work)) [] c in (ok expired, c'))
    publish_retired codec generation expired RetirementReason.retention_expired
