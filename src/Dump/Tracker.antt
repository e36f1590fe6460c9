-- ===== src/Dump/Tracker.antt =====
-- `CandidateTracker` of src/bin/statefeed-dump.rs. Its keys are hashes that `main` has checked to be
-- of 32 bytes, here the numbers that those bytes write.
pub mod Bounds
pub mod Removal
pub mod Subtrees
use reth_statefeed.Prelude.{
  ℕ, zero, suc, ◌+◌, Bool, not, Option, none, some, List, [], ◌∷◌, ◌++◌, length, is_empty, retain,
  ltb, ◌==◌, if◌then◌else◌,
}
use mathlib.Core.Option
use mathlib.Core.List.{reverse}
use reth_statefeed.Prelude.Map.{Map, get, remove, insert, contains_key}

pub record CandidateTracker : Type 0 where
  pub parents : Map ℕ
  pub children : Map (List ℕ)
  pub insertion_order : List ℕ
  pub limit : ℕ

abbrev pub new_tracker : ℕ → CandidateTracker
new_tracker limit = record { parents = []; children = []; insertion_order = []; limit = limit }

unfoldable pub remove_child : Map (List ℕ) → ℕ → ℕ → Map (List ℕ)
remove_child m parent child = elim (get m parent) [
  | none ↦ m
  | some children ↦
      let left = retain (λ candidate. not (candidate == child)) children in
      if is_empty left then remove m parent else insert m parent left
]

-- The `if let` of `remove_exact`.
abbrev pub remove_link : Option ℕ → ℕ → CandidateTracker → CandidateTracker
remove_link none hash t = t
remove_link (some parent) hash t = record t {
  parents = remove t.parents hash;
  children = remove_child t.children parent hash;
}

unfoldable pub remove_exact : ℕ → CandidateTracker → CandidateTracker
unfolding remove_child
remove_exact hash t =
    let t' = remove_link (get t.parents hash) hash t in
    record t' { insertion_order = retain (λ candidate. not (candidate == hash)) t'.insertion_order }

-- `entry(parent).or_default().push(hash)`.
abbrev pub push_child : Map (List ℕ) → ℕ → ℕ → Map (List ℕ)
push_child m parent hash = insert m parent (Option.get_or (get m parent) [] ++ hash ∷ [])

-- The `match` of `insert` on the entry of the hash.
unfoldable pub link : Option ℕ → ℕ → ℕ → CandidateTracker → CandidateTracker
unfolding remove_child
link none hash parent_hash t = record t {
  insertion_order = t.insertion_order ++ hash ∷ [];
  parents = insert t.parents hash parent_hash;
  children = push_child t.children parent_hash hash;
}
link (some previous) hash parent_hash t = record t {
  parents = insert t.parents hash parent_hash;
  children =
      if previous == parent_hash
      then t.children
      else push_child (remove_child t.children previous hash) parent_hash hash;
}

-- A round of the loop of `insert`; with an empty queue the program would not leave the loop.
abbrev pub evict_oldest : CandidateTracker → CandidateTracker
evict_oldest t = elim t.insertion_order [
  | [] ↦ t
  | oldest ∷ rest ↦ remove_exact oldest (record t { insertion_order = rest })
]

unfoldable pub trim : ℕ → CandidateTracker → CandidateTracker
unfolding remove_exact
trim zero t = t
trim (suc fuel) t =
    let rest = trim fuel (evict_oldest t) in if ltb t.limit (length t.parents) then rest else t

-- `insert`, on one round for each place of the queue.
unfoldable pub insert_candidate : ℕ → ℕ → CandidateTracker → CandidateTracker
unfolding link trim
insert_candidate hash parent_hash t =
    let t' = link (get t.parents hash) hash parent_hash t in trim (length t'.insertion_order) t'

abbrev pub clear : CandidateTracker → CandidateTracker
clear t = record t { parents = []; children = []; insertion_order = [] }

-- The loop of `remove_tree` on the stack, the top first; it returns what is left of the stack.
unfoldable pub remove_pending : ℕ → List ℕ → CandidateTracker → List ℕ × CandidateTracker
unfolding remove_exact
remove_pending fuel [] t = ([], t)
remove_pending zero (hash ∷ pending) t = (hash ∷ pending, t)
remove_pending (suc fuel) (hash ∷ pending) t =
    remove_pending fuel (reverse (Option.get_or (get t.children hash) []) ++ pending)
      (remove_exact hash (record t { children = remove t.children hash }))

unfoldable pub count_links : Map (List ℕ) → ℕ
count_links [] = 0
count_links ((parent, children) ∷ rest) = length children + count_links rest

unfoldable pub remove_tree : ℕ → CandidateTracker → CandidateTracker
unfolding remove_pending count_links
remove_tree root t =
    let t' = (remove_pending (count_links t.children + 1) (root ∷ []) t).1 in
    record t' { insertion_order = retain (contains_key t'.parents) t'.insertion_order }
