-- ===== src/Publisher/Finality.antt =====
-- The finality sweep of src/publisher.rs: candidates that conflict with the finalized checkpoint
-- are found by a walk over their ancestry, in steps that a budget counts.
use reth_statefeed.Prelude.{
  ℕ, zero, suc, ◌+◌, ◌-◌, Bool, true, false, not, ◌&&◌, ◌||◌, Option, none, some, List, [], ◌∷◌,
  ◌++◌, length, retain, contains, is_empty, is_some, ltb, ◌==◌, if◌then◌else◌,
}
use reth_statefeed.Prelude.Map.{Map, get, insert}
use reth_statefeed.Feed.{BlockMeta, CheckpointMeta}
use reth_statefeed.Publisher.State.{
  Candidates, FinalitySweep, FinalityWalk, FinalityClassification, compatible, conflict, unknown,
}
use reth_statefeed.Publisher.Candidates.{saturating_mul, is_current, block_meta, remove_one}

unfoldable pub begin_finality_sweep : Candidates → CheckpointMeta → Candidates
begin_finality_sweep c checkpoint = record c {
  finality_sweep = some (record {
    checkpoint = checkpoint;
    pending = c.metadata_order;
    classifications = [];
    active = none;
  });
}

-- The sweep that takes the new pair in: the running one, or a fresh one for the last checkpoint.
unfoldable pub enqueue_check :
    Option FinalitySweep → Option CheckpointMeta → ℕ × ℕ → Option FinalitySweep
enqueue_check (some sweep) last entry =
    some (record sweep { pending = sweep.pending ++ entry ∷ [] })
enqueue_check none (some checkpoint) entry =
    some (record {
      checkpoint = checkpoint;
      pending = entry ∷ [];
      classifications = [];
      active = none;
    })
enqueue_check none none entry = none

unfoldable pub compact_sweep : Candidates → Option FinalitySweep → Option FinalitySweep
compact_sweep c none = none
compact_sweep c (some sweep) =
    if ltb (saturating_mul c.metadata_limit 2) (length sweep.pending)
    then some (record sweep { pending = retain (is_current c) sweep.pending })
    else some sweep

unfoldable pub queue_finality_check : Candidates → ℕ → ℕ → Candidates
queue_finality_check c incarnation hash = record c {
  finality_sweep =
      compact_sweep c (enqueue_check c.finality_sweep c.last_finalized (incarnation, hash));
}

-- The part of `advance_finality_walk` behind the lookup of the parent.
unfoldable pub follow_parent :
    Candidates
    → FinalityWalk
    → BlockMeta
    → Option BlockMeta
    → Option FinalityClassification × FinalityWalk
follow_parent c walk block none =
    (some (if contains c.tombstones block.parent_hash then conflict else unknown), walk)
follow_parent c walk block (some parent) =
    if parent.number == block.number - 1
    then (none, record walk { path = walk.path ++ walk.current ∷ []; current = parent.hash })
    else (some unknown, walk)

-- The part behind the lookup of the current block. At number 0 `checked_sub` fails.
unfoldable pub classify_block :
    Candidates
    → FinalityWalk
    → CheckpointMeta
    → Option BlockMeta
    → Option FinalityClassification × FinalityWalk
classify_block c walk finalized none = (some unknown, walk)
classify_block c walk finalized (some block) =
    if block.number == finalized.number
    then (some (if block.hash == finalized.hash then compatible else conflict), walk)
    else if ltb block.number finalized.number
    then (some compatible, walk)
    else if block.number == 0
    then (some unknown, walk)
    else follow_parent c walk block (block_meta c block.parent_hash)

-- One step of a walk: the classification of its root if it is known, and the walk.
unfoldable pub advance_finality_walk :
    Candidates → FinalityWalk → CheckpointMeta → Option FinalityClassification × FinalityWalk
advance_finality_walk c walk finalized = classify_block c walk finalized (block_meta c walk.current)

abbrev pub is_unknown : FinalityClassification → Bool
is_unknown unknown = true
is_unknown _ = false

abbrev pub is_conflict : FinalityClassification → Bool
is_conflict conflict = true
is_conflict _ = false

-- `classifications.insert` for each hash of the path.
unfoldable pub remember_path :
    Map FinalityClassification → FinalityClassification → List ℕ → Map FinalityClassification
remember_path m classification [] = m
remember_path m classification (hash ∷ path) =
    remember_path (insert m hash classification) classification path

-- The state of the loop of `process_finality_budget`.
pub record Sweeping : Type 0 where
  pub sweep : FinalitySweep
  pub retired : List ℕ
  pub cache : Candidates

-- A known classification holds for the whole path.
unfoldable pub memoize :
    Map FinalityClassification → FinalityWalk → FinalityClassification → Map FinalityClassification
memoize m walk classification =
    if is_unknown classification
    then m
    else remember_path (insert m walk.current classification) classification walk.path

-- The end of a round whose walk is classified: the root of a conflict is removed for good, and
-- retired if consumers track it.
unfoldable pub settle : Sweeping → FinalityWalk → FinalityClassification → Sweeping
settle l walk classification =
    let sweep = record (l.sweep) {
      classifications = memoize l.sweep.classifications walk classification;
    } in
    elim (is_conflict classification && is_current l.cache (walk.incarnation, walk.root)) [
      | false ↦ record l { sweep = sweep }
      | true ↦
          let (tracked, c) = remove_one l.cache walk.root true in
          record {
            sweep = sweep;
            retired = if tracked then l.retired ++ walk.root ∷ [] else l.retired;
            cache = c;
          }
    ]

-- A round with its walk at hand; the sweep holds no active walk.
unfoldable pub walk_round : Sweeping → FinalityWalk → Sweeping
walk_round l walk = elim (get l.sweep.classifications walk.current) [
  | some classification ↦ settle l walk classification
  | none ↦
      let (found, walk') = advance_finality_walk l.cache walk l.sweep.checkpoint in
      elim found [
        | some classification ↦ settle l walk' classification
        | none ↦ record l { sweep = record (l.sweep) { active = some walk' } }
      ]
]

-- The loop: the budget left, the work done, and its state. Each round is one unit of work.
unfoldable pub sweep_loop : ℕ → ℕ → Sweeping → ℕ × Sweeping
sweep_loop zero work l = (work, l)
sweep_loop (suc budget) work l = elim l.sweep.active [
  | some walk ↦
      sweep_loop budget (work + 1)
        (walk_round (record l { sweep = record (l.sweep) { active = none } }) walk)
  | none ↦ elim l.sweep.pending [
    | [] ↦ (work, l)
    | next ∷ rest ↦
        let popped = record l { sweep = record (l.sweep) { pending = rest } } in
        elim (not (is_current l.cache next) || next.1 == l.cache.canonical_hash) [
          | true ↦ sweep_loop budget (work + 1) popped
          | false ↦ sweep_loop budget (work + 1) (
              walk_round popped
                (record { incarnation = next.0; root = next.1; current = next.1; path = [] }))
        ]
  ]
]

-- What is left of a sweep after the loop.
abbrev pub unfinished : FinalitySweep → Option FinalitySweep
unfinished sweep = if not (is_empty sweep.pending) || is_some sweep.active then some sweep else none

-- `process_finality_budget` up to its publication: the work, the hashes to retire, the state.
unfoldable pub process_finality : Candidates → ℕ → ℕ × List ℕ × Candidates
process_finality c budget = elim c.finality_sweep [
  | none ↦ (0, [], c)
  | some sweep ↦
      let (work, l) =
        sweep_loop budget 0
          (record { sweep = sweep; retired = []; cache = record c { finality_sweep = none } }) in
      (
        work,
        l.retired,
        elim (unfinished l.sweep) [
          | none ↦ l.cache
          | some left ↦ record (l.cache) { finality_sweep = some left }
        ],
      )
]
