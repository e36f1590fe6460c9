-- ===== src/Publisher/Candidates/Descendants.antt =====
-- That `remove_candidate_tree` of src/publisher.rs ends, and that it removes a whole subtree.
use reth_statefeed.Prelude.{
  ℕ, zero, suc, ◌+◌, ◌≤◌, ◌≡◌, ◌≢◌, Bool, true, false, List, [], ◌∷◌, ◌++◌, refl, ◌∙◌, subst,
  ==_iff, length, length-append, length-reverse, contains, contains-append, contains-reverse, ◌==◌,
  arith, inl, inr, Bool-cases,
}
use mathlib.Core.List.{reverse}
use reth_statefeed.Prelude.Map.{Map}
use reth_statefeed.Publisher.State.{Candidates}
use reth_statefeed.Publisher.Candidates.{
  children_of, remove_tree, remove_candidate_tree, count_children,
}
use reth_statefeed.Publisher.Candidates.Removal.{IsGone}
use reth_statefeed.Publisher.Candidates.Links.{Descends, itself, below, Descends-mono}
use reth_statefeed.Publisher.Candidates.Rounds.{
  after_round, IsTrimmed, IsTrimmed-after_round, IsLink-of_after_round, IsSameRecord,
  IsSameRecord-after_round, IsGone-after_round, leads_nowhere, detour,
}

-- With a round of fuel for each hash on the stack and for each link, the loop ends with an empty
-- stack.
remove_tree-ends :
    (fuel : ℕ) (pending : List ℕ) (terminal : Bool) (c : Candidates)
    → length pending + count_children c.children_by_parent ≤ fuel
    → (remove_tree fuel pending terminal c).0 ≡ []
unfolding remove_tree
remove_tree-ends fuel [] terminal c h = refl
remove_tree-ends zero (hash ∷ pending) terminal c h = absurd (omega arith)
remove_tree-ends (suc fuel) (hash ∷ pending) terminal c h =
    let (_, _, fewer) = IsTrimmed-after_round c hash terminal in
    let children = children_of c.children_by_parent hash in
    remove_tree-ends fuel (reverse children ++ pending) terminal (after_round c hash terminal)
      (omega (arith, fewer, length-append (reverse children) pending, length-reverse children))

remove_tree-keeps :
    (fuel : ℕ) (pending : List ℕ) (terminal : Bool) (c : Candidates) (d : ℕ)
    → IsGone c d
    → IsGone (remove_tree fuel pending terminal c).1 d
unfolding remove_tree
remove_tree-keeps fuel [] terminal c d gone = gone
remove_tree-keeps zero (hash ∷ pending) terminal c d gone = gone
remove_tree-keeps (suc fuel) (hash ∷ pending) terminal c d gone =
    remove_tree-keeps fuel (reverse (children_of c.children_by_parent hash) ++ pending) terminal
      (after_round c hash terminal) d (IsGone-after_round c hash d terminal (inr gone))

remove_tree-removes :
    (fuel : ℕ) (pending : List ℕ) (terminal : Bool) (c : Candidates) (s d : ℕ)
    → length pending + count_children c.children_by_parent ≤ fuel
    → contains pending s ≡ true
    → Descends c.children_by_parent s d
    → IsGone (remove_tree fuel pending terminal c).1 d
unfolding remove_tree
remove_tree-removes fuel [] terminal c s d h on path = absurd (ground arith)
remove_tree-removes zero (hash ∷ pending) terminal c s d h on path = absurd (omega arith)
remove_tree-removes (suc fuel) (hash ∷ pending) terminal c s d h on path =
    elim (Bool-cases (hash == d)) [
      | inl same ↦
          remove_tree-keeps fuel next terminal c' d
            (IsGone-after_round c hash d terminal (inl ((==_iff hash d).0 same)))
      | inr differs ↦ elim (detour m m' hash s d trimmed (ground arith) path) [
        | inr (y, link, path') ↦
            remove_tree-removes fuel next terminal c' y d enough
              (rw (contains-append (reverse children) pending y, contains-reverse children y, link)
                refl)
              path'
        | inl path' ↦ elim (Bool-cases (hash == s)) [
          | inl from ↦
              absurd
                (leads_nowhere m' hash s d trimmed.1 ((==_iff hash s).0 from) (ground arith) path')
          | inr not_from ↦
              remove_tree-removes fuel next terminal c' s d enough
                (rw (contains-append (reverse children) pending s) (ground arith)) path'
        ]
      ]
    ]
  where
    m : Map (List ℕ)
    m = c.children_by_parent

    children : List ℕ
    children = children_of m hash

    next : List ℕ
    next = reverse children ++ pending

    c' : Candidates
    c' = after_round c hash terminal

    m' : Map (List ℕ)
    m' = c'.children_by_parent

    trimmed : IsTrimmed m hash m'
    trimmed = IsTrimmed-after_round c hash terminal

    enough : length next + count_children m' ≤ fuel
    enough =
        omega (arith, trimmed.2, length-append (reverse children) pending, length-reverse children)

remove_tree-spares :
    (fuel : ℕ) (pending : List ℕ) (terminal : Bool) (c : Candidates) (d : ℕ)
    → ((s : ℕ) → contains pending s ≡ true → ¬ Descends c.children_by_parent s d)
    → IsSameRecord c (remove_tree fuel pending terminal c).1 d
unfolding remove_tree
remove_tree-spares fuel [] terminal c d apart = (refl, refl)
remove_tree-spares zero (hash ∷ pending) terminal c d apart = (refl, refl)
remove_tree-spares (suc fuel) (hash ∷ pending) terminal c d apart =
    let (candidates, deferred) =
      remove_tree-spares fuel (reverse children ++ pending) terminal c' d apart' in
    let (candidates', deferred') = IsSameRecord-after_round c hash d terminal other in
    (candidates ∙ candidates', deferred ∙ deferred')
  where
    m : Map (List ℕ)
    m = c.children_by_parent

    children : List ℕ
    children = children_of m hash

    c' : Candidates
    c' = after_round c hash terminal

    other : hash ≢ d
    other same = apart hash (ground arith) (subst (Descends m hash) same (itself hash))

    older : (s : ℕ) → Descends c'.children_by_parent s d → Descends m s d
    older s = Descends-mono m c'.children_by_parent s d (IsLink-of_after_round c hash terminal)

    apart' :
        (s : ℕ)
        → contains (reverse children ++ pending) s ≡ true
        → ¬ Descends c'.children_by_parent s d
    apart' s on path = elim (Bool-cases (contains children s)) [
      | inl child ↦ apart hash (ground arith) (below child (older s path))
      | inr not_child ↦
          apart s
            (ground
              (arith, contains-append (reverse children) pending s, contains-reverse children s))
            (older s path)
    ]

ordinary_root :
    (c : Candidates) (root : ℕ) → root ≢ c.canonical_hash → (root == c.canonical_hash) ≡ false
ordinary_root c root ne = ground arith

only_root : (root s : ℕ) → contains (root ∷ []) s ≡ true → s ≡ root
only_root root s on = ground arith

-- A tree whose root is not the canonical head is removed whole: the loop ends, and no record of the
-- root or of a hash that the links lead to from it is left.
pub remove_candidate_tree-removes :
    (c : Candidates) (root d : ℕ) (terminal : Bool)
    → root ≢ c.canonical_hash
    → Descends c.children_by_parent root d
    → ((remove_tree (1 + count_children c.children_by_parent) (root ∷ []) terminal c).0 ≡ [])
      × IsGone (remove_candidate_tree c root terminal) d
unfolding remove_candidate_tree
remove_candidate_tree-removes c root d terminal ne path =
    let fuel = 1 + count_children c.children_by_parent in
    (
      remove_tree-ends fuel (root ∷ []) terminal c (omega arith),
      rw (ordinary_root c root ne) (
          remove_tree-removes fuel (root ∷ []) terminal c root d (omega arith) (ground arith) path),
    )

-- The record of a hash that the links do not lead to from the root stays as it is.
pub remove_candidate_tree-spares :
    (c : Candidates) (root d : ℕ) (terminal : Bool)
    → ¬ Descends c.children_by_parent root d
    → IsSameRecord c (remove_candidate_tree c root terminal) d
unfolding remove_candidate_tree
remove_candidate_tree-spares c root d terminal apart =
    elim (Bool-cases (root == c.canonical_hash)) [
      | inl head ↦ rw head (refl, refl)
      | inr ordinary ↦ rw ordinary (
          remove_tree-spares (1 + count_children c.children_by_parent) (root ∷ []) terminal c d
            λ s on path.
              apart (subst (λ s. Descends c.children_by_parent s d) (only_root root s on) path))
    ]
