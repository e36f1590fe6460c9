-- ===== src/Publisher/Candidates.antt =====
-- The maps and queues of candidates in src/publisher.rs: lookups, children, tombstones, removal.
pub mod Removal
pub mod Links
pub mod Rounds
pub mod Descendants
use reth_statefeed.Prelude.{
  ℕ, zero, suc, ◌+◌, ◌-◌, ◌*◌, ◌%◌, Bool, false, not, ◌&&◌, Option, none, some, List, [], ◌∷◌, ◌++◌,
  length, retain, contains, is_empty, is_some, is_some_and, or_else, opt_eq, ltb, ◌==◌,
  if◌then◌else◌, min, max, u64_mod,
}
use mathlib.Core.Option
use mathlib.Core.List.{reverse}
use reth_statefeed.Prelude.Map.{Map, get, remove, insert}
use reth_statefeed.Feed.{BlockMeta}
use reth_statefeed.Publisher.State.{Candidates}

-- `saturating_mul` on 64 bits.
abbrev pub saturating_mul : ℕ → ℕ → ℕ
saturating_mul a b = min (a * b) (u64_mod - 1)

unfoldable pub block_meta : Candidates → ℕ → Option BlockMeta
block_meta c hash =
    or_else (Option.map (λ entry. entry.block) (get c.candidates hash))
      (Option.map (λ entry. entry.block) (get c.deferred_executed hash))

unfoldable pub current_incarnation : Candidates → ℕ → Option ℕ
current_incarnation c hash =
    or_else (Option.map (λ entry. entry.incarnation) (get c.candidates hash))
      (Option.map (λ entry. entry.incarnation) (get c.deferred_executed hash))

unfoldable pub metadata_len : Candidates → ℕ
metadata_len c = length c.candidates + length c.deferred_executed

-- `wrapping_add(1).max(1)`.
unfoldable pub allocate_incarnation : Candidates → ℕ × Candidates
allocate_incarnation c =
    (c.next_incarnation, record c { next_incarnation = max ((c.next_incarnation + 1) % u64_mod) 1 })

-- The vector of children of a parent, empty if there is none.
abbrev pub children_of : Map (List ℕ) → ℕ → List ℕ
children_of m parent = Option.get_or (get m parent) []

unfoldable pub add_child : Candidates → ℕ → ℕ → Candidates
add_child c parent child =
    let children = children_of c.children_by_parent parent in
    let added = if contains children child then children else children ++ child ∷ [] in
    record c { children_by_parent = insert c.children_by_parent parent added }

-- The last step of `remove_one` on the index: the child leaves its parent's vector.
unfoldable pub drop_child : Map (List ℕ) → ℕ → ℕ → Map (List ℕ)
drop_child m parent child = elim (get m parent) [
  | none ↦ m
  | some children ↦
      let left = retain (λ other. not (other == child)) children in
      if is_empty left then remove m parent else insert m parent left
]

-- The loop of `insert_tombstone`. With an empty queue the program would not leave the loop; the set
-- and its queue hold the same hashes, so that the queue is not empty there.
unfoldable pub trim_tombstones : ℕ → List ℕ → List ℕ → List ℕ × List ℕ
trim_tombstones limit tombstones [] = (tombstones, [])
trim_tombstones limit tombstones (oldest ∷ order) =
    let rest = trim_tombstones limit (retain (λ other. not (other == oldest)) tombstones) order in
    if ltb limit (length tombstones) then rest else (tombstones, oldest ∷ order)

unfoldable pub insert_tombstone : Candidates → ℕ → Candidates
insert_tombstone c hash =
    let fresh = not (contains c.tombstones hash) in
    let tombstones = if fresh then hash ∷ c.tombstones else c.tombstones in
    let order = if fresh then c.tombstone_order ++ hash ∷ [] else c.tombstone_order in
    let (kept, kept_order) = trim_tombstones c.metadata_limit tombstones order in
    record c { tombstones = kept; tombstone_order = kept_order }

-- Whether a queued pair names the current record of its hash, and one that holds a projection.
abbrev pub is_current : Candidates → ℕ × ℕ → Bool
is_current c (incarnation, hash) = opt_eq (current_incarnation c hash) (some incarnation)

abbrev pub is_current_projection : Candidates → ℕ × ℕ → Bool
is_current_projection c (incarnation, hash) =
    is_some_and (get c.candidates hash)
      (λ entry. entry.incarnation == incarnation && is_some entry.projection)

unfoldable pub compact_order_queues_if_needed : Candidates → Candidates
compact_order_queues_if_needed c = record c {
  metadata_order =
      if ltb (saturating_mul c.metadata_limit 2) (length c.metadata_order)
      then retain (is_current c) c.metadata_order
      else c.metadata_order;
  projection_order =
      if ltb (saturating_mul c.cache_limit 2) (length c.projection_order)
      then retain (is_current_projection c) c.projection_order
      else c.projection_order;
}

-- The two removals at the head of `remove_one`: the parent, whether the record was tracked, and
-- the state without the record.
unfoldable pub take_candidate : Candidates → ℕ → Option ℕ × Bool × Candidates
take_candidate c hash = elim (get c.candidates hash) [
  | none ↦ (none, false, c)
  | some candidate ↦ (
    some candidate.block.parent_hash,
    candidate.tracked,
    record c {
      candidates = remove c.candidates hash;
      projection_count =
          if is_some candidate.projection then c.projection_count - 1 else c.projection_count;
    },
  )
]

unfoldable pub take_deferred : Candidates → ℕ → Option ℕ → Option ℕ × Candidates
take_deferred c hash parent = elim (get c.deferred_executed hash) [
  | none ↦ (parent, c)
  | some deferred ↦ (
    some deferred.block.parent_hash,
    record c { deferred_executed = remove c.deferred_executed hash },
  )
]

abbrev pub unlink : Candidates → Option ℕ → ℕ → Candidates
unlink c none hash = c
unlink c (some parent) hash = record c {
  children_by_parent = drop_child c.children_by_parent parent hash;
}

-- Removes one metadata record; true if consumers still tracked its projection.
unfoldable pub remove_one : Candidates → ℕ → Bool → Bool × Candidates
remove_one c hash consensus_terminal =
    let (parent, tracked, c₁) = take_candidate c hash in
    let (parent', c₂) = take_deferred c₁ hash parent in
    let c₃ = unlink c₂ parent' hash in
    let c₄ = if consensus_terminal then insert_tombstone c₃ hash else c₃ in
    (tracked, compact_order_queues_if_needed c₄)

-- The loop of `remove_candidate_tree` on fuel: the stack, its top first, and the state.
unfoldable pub remove_tree : ℕ → List ℕ → Bool → Candidates → List ℕ × Candidates
remove_tree fuel [] terminal c = ([], c)
remove_tree zero (hash ∷ pending) terminal c = (hash ∷ pending, c)
remove_tree (suc fuel) (hash ∷ pending) terminal c =
    let children = children_of c.children_by_parent hash in
    let c' = record c { children_by_parent = remove c.children_by_parent hash } in
    remove_tree fuel (reverse children ++ pending) terminal (remove_one c' hash terminal).1

-- The number of links in the index of children.
unfoldable pub count_children : Map (List ℕ) → ℕ
count_children [] = 0
count_children ((parent, children) ∷ rest) = length children + count_children rest

unfoldable pub remove_candidate_tree : Candidates → ℕ → Bool → Candidates
remove_candidate_tree c root consensus_terminal =
    if root == c.canonical_hash
    then c
    else (remove_tree (1 + count_children c.children_by_parent) (root ∷ []) consensus_terminal c).1

unfoldable pub schedule_expiry : Candidates → ℕ → ℕ → Candidates
schedule_expiry c now hash = if hash == c.canonical_hash then c else elim (get c.candidates hash) [
  | some candidate ↦ record c {
    candidates =
        insert c.candidates hash (record candidate { expires_at = now + c.candidate_retention });
  }
  | none ↦ elim (get c.deferred_executed hash) [
    | none ↦ c
    | some deferred ↦ record c {
      deferred_executed =
          insert c.deferred_executed hash
            (record deferred { expires_at = now + c.candidate_retention });
    }
  ]
]
