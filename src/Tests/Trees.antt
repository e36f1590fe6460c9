-- ===== src/Tests/Trees.antt =====
-- Witnesses of the theorems on the removal and the retirement of candidates.
use reth_statefeed.Prelude.{
  ok, ℕ, ◌+◌, ◌<◌, length, All, replicate, ◌≡◌, refl, false, true, List, [], ◌∷◌, arith,
}
use reth_statefeed.Prelude.Map.{get}
use reth_statefeed.Feed.{BlockMeta}
use reth_statefeed.Publisher.State.{Candidates, DeferredExecuted}
use reth_statefeed.Publisher.Candidates.{remove_tree, count_children, remove_candidate_tree}
use reth_statefeed.Publisher.Candidates.Removal.{IsGone}
use reth_statefeed.Publisher.Candidates.Links.{IsLink, itself, below}
use reth_statefeed.Publisher.Candidates.Rounds.{IsSameRecord, leads_nowhere}
use reth_statefeed.Publisher.Candidates.Descendants.{
  remove_candidate_tree-removes, remove_candidate_tree-spares,
}
use reth_statefeed.Publisher.Insertion.{anchor_entry}
use reth_statefeed.Publisher.Retirement.{trim_projections, trim_projections_fuel}
use reth_statefeed.Publisher.Retirement.Evictions.{IsBounded, Keeps, trim_projections_lem}
use mathlib.Core.Option
use reth_statefeed.Wire.{Codec, Event, RetirementReason}
use reth_statefeed.Publisher.State.{Publisher}
use reth_statefeed.Publisher.Exec.{publish_retired}
use reth_statefeed.Publisher.Exec.Retiring.{
  hash_fields, IsCompact, announce_all, publish_retired_lem,
}
use reth_statefeed.Publisher.Retirement.Batches.{flatten}
use reth_statefeed.Tests.Samples.{
  sample_cache, sample_codec, sample_publisher, rival_two, block_one, block_two, projection_at,
}

abbrev child_of_rival : BlockMeta
child_of_rival = record { number = 3; hash = 303; parent_hash = 202; timestamp = 36 }

abbrev waiting : BlockMeta → ℕ → DeferredExecuted
waiting block incarnation = record {
  block = block;
  changes = [];
  incarnation = incarnation;
  expires_at = 140;
}

-- A rival of block 2 and its child, both below the canonical block 1.
abbrev sample_tree : Candidates
sample_tree = record sample_cache {
  deferred_executed = (303, waiting child_of_rival 3) ∷ (202, waiting rival_two 2) ∷ [];
  children_by_parent = (202, 303 ∷ []) ∷ (101, 202 ∷ []) ∷ [];
  metadata_order = (1, 101) ∷ (2, 202) ∷ (3, 303) ∷ [];
}

remove_candidate_tree-removes_example :
    ((remove_tree (1 + count_children sample_tree.children_by_parent) (202 ∷ []) true sample_tree).0
      ≡ [])
    × IsGone (remove_candidate_tree sample_tree 202 true) 303
unfolding get
remove_candidate_tree-removes_example =
    remove_candidate_tree-removes sample_tree 202 303 true (omega arith) (below refl (itself 303))

no_children : (t : ℕ) → ¬ IsLink sample_tree.children_by_parent 303 t
unfolding get
no_children t link = ground arith

remove_candidate_tree-spares_example :
    IsSameRecord sample_tree (remove_candidate_tree sample_tree 303 false) 202
remove_candidate_tree-spares_example =
    remove_candidate_tree-spares sample_tree 303 202 false
      (leads_nowhere sample_tree.children_by_parent 303 303 202 no_children refl (omega arith))

-- Three projections where two are allowed, the canonical one the oldest.
abbrev crowded : Candidates
crowded = record sample_cache {
  candidates =
      (101, anchor_entry (projection_at block_one) 1 130)
      ∷ (102, anchor_entry (projection_at block_two) 2 130)
      ∷ (202, anchor_entry (projection_at rival_two) 3 130)
      ∷ [];
  projection_order = (1, 101) ∷ (2, 102) ∷ (3, 202) ∷ [];
  projection_count = 3;
}

trim_projections_lem_example :
    IsBounded (trim_projections (trim_projections_fuel crowded) 0 [] crowded)
    × Keeps crowded (trim_projections (trim_projections_fuel crowded) 0 [] crowded).1
trim_projections_lem_example = trim_projections_lem crowded

abbrev forty : List ℕ
forty = replicate 40 101

-- A codec with the lengths of protobuf.
abbrev event_len : Event → ℕ
event_len (Event.candidates_retired retired) = hash_fields retired.block_hashes + 11
event_len other = 0

abbrev compact_codec : Codec
compact_codec = record sample_codec {
  encoded_len =
      λ e. 6 + (11 + length e.boot_id) + 33 + 12 + Option.get_or (Option.map event_len e.event) 0;
}

compact_codec-IsCompact : IsCompact compact_codec
compact_codec-IsCompact e retired h short = rw h (omega arith)

abbrev retiring : Publisher
retiring = record sample_publisher {
  shared = record sample_publisher.shared { boot_id = replicate 16 7; max_frame_bytes = 1024 };
}

publish_retired_lem_example :
    (batches : List (List ℕ)) × (flatten batches ≡ forty)
    × All (λ batch. 0 < length batch) batches
    × (publish_retired compact_codec 1 forty RetirementReason.retention_expired retiring ≡ (
      ok tt,
      record retiring {
        shared =
            announce_all compact_codec retiring.now 1 RetirementReason.retention_expired
              retiring.shared batches;
      },
    ))
publish_retired_lem_example =
    publish_retired_lem compact_codec compact_codec-IsCompact 1 RetirementReason.retention_expired
      forty retiring refl (omega arith) (omega arith)
