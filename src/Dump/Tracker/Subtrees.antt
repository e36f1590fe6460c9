-- ===== src/Dump/Tracker/Subtrees.antt =====
-- The loop of `remove_tree` in src/bin/statefeed-dump.rs: its end, and what it removes.
use reth_statefeed.Prelude.{
  ℕ, zero, suc, ◌+◌, ◌≤◌, ◌≡◌, ◌⊎◌, true, not, none, List, [], ◌∷◌, ◌++◌, length, length-retain-le,
  length-append, length-reverse, contains, contains-append, contains-reverse, ◌==◌, refl, arith,
  Bool-cases, Option-cases, inl, inr,
}
use mathlib.Core.Option
use mathlib.Core.List.{reverse}
use reth_statefeed.Prelude.Map.{Map, get, remove, insert}
use reth_statefeed.Dump.Tracker.{
  CandidateTracker, remove_child, remove_exact, remove_pending, count_links, remove_tree,
}
use reth_statefeed.Dump.Tracker.Bounds.{remove_exact-parents}

count_links-remove :
    (m : Map (List ℕ)) (gone : ℕ)
    → count_links (remove m gone) + length (Option.get_or (get m gone) []) ≤ count_links m
unfolding count_links remove get
count_links-remove [] gone = omega arith
count_links-remove ((p, children) ∷ m) gone = ground (arith, count_links-remove m gone)

count_links-remove_child :
    (m : Map (List ℕ)) (parent gone : ℕ) → count_links (remove_child m parent gone) ≤ count_links m
unfolding remove_child count_links insert
count_links-remove_child m parent gone = elim (Option-cases (get m parent)) [
  | inl missing ↦ rw (remove_child, missing) (omega arith)
  | inr (children, there) ↦
      rw (remove_child, there)
        (ground (
          arith,
          count_links-remove m parent,
          length-retain-le (λ candidate. not (candidate == gone)) children,
        ))
]

count_links-remove_exact :
    (hash : ℕ) (t : CandidateTracker)
    → count_links (remove_exact hash t).children ≤ count_links t.children
unfolding remove_exact
count_links-remove_exact hash t = elim (Option-cases (get t.parents hash)) [
  | inl missing ↦ rw (remove_exact, missing) (omega arith)
  | inr (parent, there) ↦ rw (remove_exact, there) (count_links-remove_child t.children parent hash)
]

remove_pending-ends :
    (fuel : ℕ) (pending : List ℕ) (t : CandidateTracker)
    → length pending + count_links t.children ≤ fuel
    → (remove_pending fuel pending t).0 ≡ []
unfolding remove_pending
remove_pending-ends fuel [] t h = refl
remove_pending-ends zero (hash ∷ pending) t h = absurd (omega arith)
remove_pending-ends (suc fuel) (hash ∷ pending) t h =
    let t' : CandidateTracker = record t { children = remove t.children hash } in
    let below = Option.get_or (get t.children hash) [] in
    remove_pending-ends fuel (reverse below ++ pending) (remove_exact hash t') (
      omega (
        arith,
        h,
        length-append (reverse below) pending,
        length-reverse below,
        count_links-remove t.children hash,
        count_links-remove_exact hash t',
      ))

-- After the loop nothing is known of a hash that was on the stack or unknown before.
remove_pending-removes :
    (fuel : ℕ) (pending : List ℕ) (t : CandidateTracker) (k : ℕ)
    → length pending + count_links t.children ≤ fuel
    → (contains pending k ≡ true) ⊎ (get t.parents k ≡ none)
    → get (remove_pending fuel pending t).1.parents k ≡ none
unfolding remove_pending
remove_pending-removes fuel [] t k h (inl queued) = cc
remove_pending-removes fuel [] t k h (inr unknown) = unknown
remove_pending-removes zero (hash ∷ pending) t k h k_is = absurd (omega arith)
remove_pending-removes (suc fuel) (hash ∷ pending) t k h k_is =
    let t' : CandidateTracker = record t { children = remove t.children hash } in
    let below = Option.get_or (get t.children hash) [] in
    remove_pending-removes fuel (reverse below ++ pending) (remove_exact hash t') k
      (omega (
        arith,
        h,
        length-append (reverse below) pending,
        length-reverse below,
        count_links-remove t.children hash,
        count_links-remove_exact hash t',
      ))
      (elim (Bool-cases (hash == k)) [
        | inl same ↦ inr (rw (remove_exact-parents hash k t', same) refl)
        | inr other ↦ elim k_is [
          | inl queued ↦ inl (ground (arith, contains-append (reverse below) pending k))
          | inr unknown ↦ inr (rw (remove_exact-parents hash k t', other) unknown)
        ]
      ])

remove_pending-removes_child :
    (fuel : ℕ) (hash : ℕ) (t : CandidateTracker) (k : ℕ)
    → 1 + count_links t.children ≤ fuel
    → contains (Option.get_or (get t.children hash) []) k ≡ true
    → get (remove_pending fuel (hash ∷ []) t).1.parents k ≡ none
unfolding remove_pending
remove_pending-removes_child zero hash t k h below = absurd (omega arith)
remove_pending-removes_child (suc fuel) hash t k h below =
    let t' : CandidateTracker = record t { children = remove t.children hash } in
    let children = Option.get_or (get t.children hash) [] in
    remove_pending-removes fuel (reverse children ++ []) (remove_exact hash t') k
      (omega (
        arith,
        h,
        length-append (reverse children) [],
        length-reverse children,
        count_links-remove t.children hash,
        count_links-remove_exact hash t',
      ))
      (inl (ground (arith, contains-append (reverse children) [] k, contains-reverse children k)))

-- The loop of `remove_tree` ends with an empty stack, on one round for each link and one more, and
-- then neither the root nor a child that was filed under it is known.
pub remove_tree-removes :
    (root : ℕ) (t : CandidateTracker)
    → ((remove_pending (count_links t.children + 1) (root ∷ []) t).0 ≡ [])
      × (get (remove_tree root t).parents root ≡ none)
      × ((k : ℕ)
          → contains (Option.get_or (get t.children root) []) k ≡ true
          → get (remove_tree root t).parents k ≡ none)
unfolding remove_tree
remove_tree-removes root t = (
  remove_pending-ends (count_links t.children + 1) (root ∷ []) t (omega arith),
  remove_pending-removes (count_links t.children + 1) (root ∷ []) t root (omega arith)
      (inl (ground arith)),
  λ k below. remove_pending-removes_child (count_links t.children + 1) root t k (omega arith) below,
)
