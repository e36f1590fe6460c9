-- ===== src/Publisher/Candidates/Rounds.antt =====
-- One round of the loop of `remove_candidate_tree` in src/publisher.rs.
use reth_statefeed.Prelude.{
  ℕ, ◌+◌, ◌≤◌, ◌≡◌, ◌≢◌, ◌⊎◌, Bool, Option, none, some, List, refl, sym, subst, ==_iff, length,
  ◌==◌, arith, inl, inr, Bool-cases,
}
use reth_statefeed.Prelude.Map.{Map, get, remove}
use reth_statefeed.Publisher.State.{Candidates}
use reth_statefeed.Publisher.Candidates.{children_of, unlink, remove_one, count_children}
use reth_statefeed.Publisher.Candidates.Removal.{IsGone, remove_one_lem}
use reth_statefeed.Publisher.Candidates.Links.{
  IsLink, Descends, itself, below, IsLink-remove, IsLink-removed, IsLink-drop_child,
  IsLink-of_drop_child, IsLink-of_remove, count_children-remove, count_children-drop_child,
}

-- The state after one round of the loop.
abbrev pub after_round : Candidates → ℕ → Bool → Candidates
after_round c hash terminal =
    let c' = record c { children_by_parent = remove c.children_by_parent hash } in
    (remove_one c' hash terminal).1

-- What one round does to the index: it takes the links from the hash and the one to it.
abbrev pub IsTrimmed : Map (List ℕ) → ℕ → Map (List ℕ) → Type 0
IsTrimmed m hash m' =
    ((s t : ℕ) → hash ≢ s → hash ≢ t → IsLink m s t → IsLink m' s t)
    × ((t : ℕ) → ¬ IsLink m' hash t)
    × (count_children m' + length (children_of m hash) ≤ count_children m)

IsTrimmed-unlink :
    (c : Candidates) (m : Map (List ℕ)) (hash : ℕ) (parent : Option ℕ)
    → c.children_by_parent ≡ remove m hash
    → IsTrimmed m hash (unlink c parent hash).children_by_parent
IsTrimmed-unlink c m hash none h = rw h (
  λ s t ne ne' link. IsLink-remove m hash s t ne link,
  λ t link. IsLink-removed m hash t link,
  count_children-remove m hash,
)
IsTrimmed-unlink c m hash (some parent) h = rw h (
  λ s t ne ne' link.
      IsLink-drop_child (remove m hash) parent hash s t ne' (IsLink-remove m hash s t ne link),
  λ t link. IsLink-removed m hash t (IsLink-of_drop_child (remove m hash) parent hash hash t link),
  omega
      (arith, count_children-remove m hash, count_children-drop_child (remove m hash) parent hash),
)

pub IsTrimmed-after_round :
    (c : Candidates) (hash : ℕ) (terminal : Bool)
    → IsTrimmed c.children_by_parent hash (after_round c hash terminal).children_by_parent
IsTrimmed-after_round c hash terminal =
    let c' : Candidates = record c { children_by_parent = remove c.children_by_parent hash } in
    let (_, _, (parent, same)) = remove_one_lem c' hash hash terminal in
    rw same (IsTrimmed-unlink c' c.children_by_parent hash parent refl)

-- No round adds a link.
pub IsLink-of_after_round :
    (c : Candidates) (hash : ℕ) (terminal : Bool) (s t : ℕ)
    → IsLink (after_round c hash terminal).children_by_parent s t
    → IsLink c.children_by_parent s t
IsLink-of_after_round c hash terminal s t =
    let c' : Candidates = record c { children_by_parent = remove c.children_by_parent hash } in
    let (_, _, (parent, same)) = remove_one_lem c' hash hash terminal in
    rw same (unlinked c' parent refl)
  where
    unlinked :
        (c' : Candidates) (parent : Option ℕ)
        → c'.children_by_parent ≡ remove c.children_by_parent hash
        → IsLink (unlink c' parent hash).children_by_parent s t
        → IsLink c.children_by_parent s t
    unlinked c' none h link = IsLink-of_remove c.children_by_parent hash s t (rw h at link)
    unlinked c' (some parent) h link =
        IsLink-of_remove c.children_by_parent hash s t
          (rw h at (IsLink-of_drop_child c'.children_by_parent parent hash s t link))

-- Both maps have the same record of a hash.
abbrev pub IsSameRecord : Candidates → Candidates → ℕ → Type 0
IsSameRecord c c' d =
    (get c'.candidates d ≡ get c.candidates d)
    × (get c'.deferred_executed d ≡ get c.deferred_executed d)

pub IsSameRecord-after_round :
    (c : Candidates) (hash d : ℕ) (terminal : Bool)
    → hash ≢ d
    → IsSameRecord c (after_round c hash terminal) d
IsSameRecord-after_round c hash d terminal ne =
    let c' : Candidates = record c { children_by_parent = remove c.children_by_parent hash } in
    let (candidates, deferred, _) = remove_one_lem c' hash d terminal in
    rw (candidates, deferred) (ground arith)

pub IsGone-after_round :
    (c : Candidates) (hash other : ℕ) (terminal : Bool)
    → (hash ≡ other) ⊎ IsGone c other
    → IsGone (after_round c hash terminal) other
IsGone-after_round c hash other terminal h =
    let c' : Candidates = record c { children_by_parent = remove c.children_by_parent hash } in
    let (candidates, deferred, _) = remove_one_lem c' hash other terminal in
    rw (candidates, deferred) (ground arith)

-- A hash without links leads to itself alone.
pub leads_nowhere :
    (m : Map (List ℕ)) (hash s d : ℕ)
    → ((t : ℕ) → ¬ IsLink m hash t)
    → hash ≡ s
    → hash ≢ d
    → ¬ Descends m s d
leads_nowhere m hash _ _ cut same ne (itself s) = ne same
leads_nowhere m hash _ d cut same ne (below {parent = p} {child = x} link path) =
    cut x (subst (λ s. IsLink m s x) (sym same) link)

-- A path to another hash survives the round, or begins at a child of the hash that is removed.
pub detour :
    (m m' : Map (List ℕ)) (hash s d : ℕ)
    → IsTrimmed m hash m'
    → hash ≢ d
    → Descends m s d
    → Descends m' s d ⊎ ((y : ℕ) × IsLink m hash y × Descends m' y d)
detour m m' hash _ _ trimmed ne (itself s) = inl (itself s)
detour m m' hash _ d (keeps, cut, fewer) ne (below {parent = p} {child = x} link path) =
    elim (detour m m' hash x d (keeps, cut, fewer) ne path) [
      | inr found ↦ inr found
      | inl path' ↦ elim (Bool-cases (hash == p)) [
        | inl from ↦ inr (x, subst (λ s. IsLink m s x) (sym ((==_iff hash p).0 from)) link, path')
        | inr not_from ↦ elim (Bool-cases (hash == x)) [
          | inl to ↦ absurd (leads_nowhere m' hash x d cut ((==_iff hash x).0 to) ne path')
          | inr not_to ↦ inl (below (keeps p x (ground arith) (ground arith) link) path')
        ]
      ]
    ]
