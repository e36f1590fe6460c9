-- ===== src/Publisher/Insertion.antt =====
-- How src/publisher.rs brings candidates in: `new_configured`, `reset_candidates`, and the parts of
-- `insert_candidate` and `insert_deferred_executed` that come before the bounds are enforced.
use reth_statefeed.Prelude.{
  ℕ, ◌+◌, Bool, true, false, not, ◌&&◌, ◌||◌, Option, none, some, List, [], ◌∷◌, ◌++◌, is_some,
  or_else, if◌then◌else◌,
}
use mathlib.Core.Option
use reth_statefeed.Prelude.Map.{get, remove, insert}
use reth_statefeed.Watch.{SlotChange}
use reth_statefeed.Feed.{BlockMeta, ForkchoiceMeta}
use reth_statefeed.Publisher.State.{
  Candidates, CandidateEntry, CandidateStage, validated, Projection,
}
use reth_statefeed.Publisher.Candidates.{allocate_incarnation, add_child}
use reth_statefeed.Publisher.Finality.{queue_finality_check}

-- The entry of a canonical anchor.
abbrev pub anchor_entry : Projection → ℕ → ℕ → CandidateEntry
anchor_entry projection incarnation expires_at = record {
  block = projection.block;
  projection = some projection;
  stage = validated;
  tracked = true;
  first_sequence = 0;
  incarnation = incarnation;
  expires_at = expires_at;
}

pub record CandidatePolicy : Type 0 where
  pub projection_limit : ℕ
  pub metadata_limit : ℕ
  pub retention : ℕ
  pub work_budget : ℕ

-- The candidate fields of `new_configured`.
unfoldable pub new_candidates : Projection → ForkchoiceMeta → CandidatePolicy → ℕ → Candidates
new_candidates initial initial_forkchoice policy now = record {
  candidates = (initial.block.hash, anchor_entry initial 1 (now + policy.retention)) ∷ [];
  deferred_executed = [];
  children_by_parent = [];
  projection_order = (1, initial.block.hash) ∷ [];
  metadata_order = (1, initial.block.hash) ∷ [];
  tombstones = [];
  tombstone_order = [];
  next_incarnation = 2;
  projection_count = 1;
  cache_limit = policy.projection_limit;
  metadata_limit = policy.metadata_limit;
  candidate_retention = policy.retention;
  retirement_work_budget = policy.work_budget;
  canonical_hash = initial.block.hash;
  last_finalized = initial_forkchoice.finalized;
  finality_sweep = none;
}

-- All candidates go; the anchor alone is left, under a fresh incarnation.
unfoldable pub reset_candidates : Candidates → ℕ → Projection → ForkchoiceMeta → Candidates
reset_candidates c now projection view =
    let hash = projection.block.hash in
    let (incarnation, c') = allocate_incarnation c in
    record c' {
      candidates = (hash, anchor_entry projection incarnation (now + c.candidate_retention)) ∷ [];
      deferred_executed = [];
      children_by_parent = [];
      projection_order = (incarnation, hash) ∷ [];
      metadata_order = (incarnation, hash) ∷ [];
      tombstones = [];
      tombstone_order = [];
      projection_count = 1;
      canonical_hash = hash;
      last_finalized = view.finalized;
      finality_sweep = none;
    }

-- `existing.unwrap_or_else(|| self.allocate_incarnation())`.
unfoldable pub incarnation_or_new : Candidates → Option ℕ → ℕ × Candidates
incarnation_or_new c none = allocate_incarnation c
incarnation_or_new c (some incarnation) = (incarnation, c)

-- What both insertions do for a hash that had no record.
unfoldable pub enqueue_record : Candidates → ℕ → ℕ → Candidates
enqueue_record c incarnation hash =
    queue_finality_check
      (record c { metadata_order = c.metadata_order ++ (incarnation, hash) ∷ [] }) incarnation hash

abbrev pub gain_projection : Bool → ℕ × ℕ → Candidates → Candidates
gain_projection false entry c = c
gain_projection true entry c = record c {
  projection_count = c.projection_count + 1;
  projection_order = c.projection_order ++ entry ∷ [];
}

-- The occupied entry of `insert_candidate`. The incarnation stays.
unfoldable pub refresh_entry :
    CandidateEntry → Projection → CandidateStage → Bool → ℕ → ℕ → CandidateEntry
refresh_entry entry projection stage tracked first_sequence expires_at = record {
  block = projection.block;
  projection = some projection;
  stage = stage;
  tracked = entry.tracked || tracked;
  first_sequence = if tracked && not entry.tracked then first_sequence else entry.first_sequence;
  incarnation = entry.incarnation;
  expires_at = expires_at;
}

-- `insert_candidate` before the caches are trimmed.
unfoldable pub insert_entry : Candidates → ℕ → Projection → CandidateStage → Bool → ℕ → Candidates
insert_entry c now projection stage tracked first_sequence =
    let hash = projection.block.hash in
    let expires_at = now + c.candidate_retention in
    let replaced_deferred = get c.deferred_executed hash in
    let existing =
      or_else (Option.map (λ entry. entry.incarnation) (get c.candidates hash))
        (Option.map (λ entry. entry.incarnation) replaced_deferred) in
    let (incarnation, c') =
      incarnation_or_new (record c { deferred_executed = remove c.deferred_executed hash })
        existing in
    elim (get c'.candidates hash) [
      | some entry ↦
          gain_projection (not (is_some entry.projection)) (incarnation, hash)
            (record c' {
              candidates =
                  insert c'.candidates hash
                    (refresh_entry entry projection stage tracked first_sequence expires_at);
            })
      | none ↦
          let placed = record c' {
            candidates = insert c'.candidates hash (record {
              block = projection.block;
              projection = some projection;
              stage = stage;
              tracked = tracked;
              first_sequence = first_sequence;
              incarnation = incarnation;
              expires_at = expires_at;
            });
          } in
          let linked =
            if is_some replaced_deferred
            then placed
            else add_child placed projection.block.parent_hash hash in
          gain_projection true (incarnation, hash)
            (if is_some existing then linked else enqueue_record linked incarnation hash)
    ]

-- `insert_deferred_executed` before the metadata is trimmed, for a hash that is no candidate.
unfoldable pub insert_deferred : Candidates → ℕ → BlockMeta → List SlotChange → Candidates
insert_deferred c now block changes =
    let existing = Option.map (λ entry. entry.incarnation) (get c.deferred_executed block.hash) in
    let (incarnation, c') = incarnation_or_new c existing in
    let placed = record c' {
      deferred_executed = insert c'.deferred_executed block.hash (record {
        block = block;
        changes = changes;
        incarnation = incarnation;
        expires_at = now + c.candidate_retention;
      });
    } in
    if is_some existing
    then placed
    else enqueue_record (add_child placed block.parent_hash block.hash) incarnation block.hash
