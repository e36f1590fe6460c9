-- ===== src/Dump/Tracker/Removal.antt =====
-- Sequences of calls of `CandidateTracker` in src/bin/statefeed-dump.rs.
use reth_statefeed.Prelude.{
  ℕ, zero, suc, ◌+◌, ◌≤◌, ◌≡◌, Bool, true, List, [], ◌∷◌, ◌++◌, length, retain, contains, ◌==◌,
  refl, sym, ◌∙◌, subst, arith, Bool-cases, Option-cases, ==_iff, inl, inr,
}
use mathlib.Core.Option
use mathlib.Core.List.{reverse}
use reth_statefeed.Prelude.Map.{get, remove, contains_key, length-remove-le}
use reth_statefeed.Dump.Tracker.{
  CandidateTracker, new_tracker, remove_exact, insert_candidate, clear, remove_pending, count_links,
  remove_tree,
}
use reth_statefeed.Dump.Tracker.Bounds.{
  IsBounded, remove_exact-order, IsTracked-remove_exact, IsBounded-insert_candidate,
}

remove_exact-length :
    (hash : ℕ) (t : CandidateTracker) → length (remove_exact hash t).parents ≤ length t.parents
unfolding remove_exact
remove_exact-length hash t = elim (Option-cases (get t.parents hash)) [
  | inl missing ↦ rw (remove_exact, missing) (omega arith)
  | inr (parent, there) ↦ rw (remove_exact, there) (length-remove-le t.parents hash)
]

IsBounded-remove_exact :
    (hash : ℕ) (t : CandidateTracker) → IsBounded t → IsBounded (remove_exact hash t)
IsBounded-remove_exact hash t (tracked, small) = (
  IsTracked-remove_exact hash t.insertion_order t (λ k known. ground (arith, tracked k known)),
  omega (arith, remove_exact-length hash t, (remove_exact-order hash t).1),
)

IsBounded-remove_pending :
    (fuel : ℕ) (pending : List ℕ) (t : CandidateTracker)
    → IsBounded t
    → IsBounded (remove_pending fuel pending t).1
      × ((remove_pending fuel pending t).1.limit ≡ t.limit)
unfolding remove_pending
IsBounded-remove_pending fuel [] t b = (b, refl)
IsBounded-remove_pending zero (hash ∷ pending) t b = (b, refl)
IsBounded-remove_pending (suc fuel) (hash ∷ pending) t b =
    let t' : CandidateTracker = record t { children = remove t.children hash } in
    let (b', same) =
      IsBounded-remove_pending fuel (reverse (Option.get_or (get t.children hash) []) ++ pending)
        (remove_exact hash t') (IsBounded-remove_exact hash t' b) in
    (b', same ∙ (remove_exact-order hash t').1)

contains-retain_kept :
    (p : ℕ → Bool) (xs : List ℕ) (k : ℕ)
    → p k ≡ true
    → contains xs k ≡ true
    → contains (retain p xs) k ≡ true
contains-retain_kept p [] k kept h = h
contains-retain_kept p (x ∷ xs) k kept h = elim (Bool-cases (x == k)) [
  | inl same ↦ rw (subst (λ j. p j ≡ true) (sym ((==_iff x k).0 same)) kept) (ground arith)
  | inr other ↦ ground (arith, contains-retain_kept p xs k kept)
]

IsBounded-remove_tree :
    (root : ℕ) (t : CandidateTracker)
    → IsBounded t
    → IsBounded (remove_tree root t) × ((remove_tree root t).limit ≡ t.limit)
unfolding remove_tree
IsBounded-remove_tree root t b =
    let ((tracked, small), same) =
      IsBounded-remove_pending (count_links t.children + 1) (root ∷ []) t b in
    let t' = (remove_pending (count_links t.children + 1) (root ∷ []) t).1 in
    (
      (
        λ k known.
            contains-retain_kept (contains_key t'.parents) t'.insertion_order k known
              (tracked k known),
        small,
      ),
      same,
    )

pub data TrackerCall : Type 0 where
  insertion : ℕ → ℕ → TrackerCall
  exact_removal tree_removal : ℕ → TrackerCall
  clearing : TrackerCall

unfoldable pub call_tracker : TrackerCall → CandidateTracker → CandidateTracker
unfolding insert_candidate remove_exact remove_tree
call_tracker (insertion hash parent_hash) t = insert_candidate hash parent_hash t
call_tracker (exact_removal hash) t = remove_exact hash t
call_tracker (tree_removal root) t = remove_tree root t
call_tracker clearing t = clear t

unfoldable pub call_all : List TrackerCall → CandidateTracker → CandidateTracker
unfolding call_tracker
call_all [] t = t
call_all (c ∷ rest) t = call_all rest (call_tracker c t)

IsBounded-call_tracker :
    (c : TrackerCall) (t : CandidateTracker)
    → IsBounded t
    → IsBounded (call_tracker c t) × ((call_tracker c t).limit ≡ t.limit)
unfolding call_tracker get
IsBounded-call_tracker (insertion hash parent_hash) t b =
    IsBounded-insert_candidate hash parent_hash t b.0
IsBounded-call_tracker (exact_removal hash) t b =
    (IsBounded-remove_exact hash t b, (remove_exact-order hash t).1)
IsBounded-call_tracker (tree_removal root) t b = IsBounded-remove_tree root t b
IsBounded-call_tracker clearing t b = ((λ k known. known, omega arith), refl)

IsBounded-call_all :
    (cs : List TrackerCall) (t : CandidateTracker)
    → IsBounded t
    → IsBounded (call_all cs t) × ((call_all cs t).limit ≡ t.limit)
unfolding call_all
IsBounded-call_all [] t b = (b, refl)
IsBounded-call_all (c ∷ rest) t b =
    let (b', same) = IsBounded-call_tracker c t b in
    let (b'', same') = IsBounded-call_all rest (call_tracker c t) b' in (b'', same' ∙ same)

-- Whatever is inserted, removed and cleared, a new tracker knows no more hashes than its limit, and
-- all of them wait in its queue: the eviction loop of `insert` ends, and never on an empty queue.
pub call_all-bounded :
    (limit : ℕ) (cs : List TrackerCall)
    → (length (call_all cs (new_tracker limit)).parents ≤ limit)
      × ((k : ℕ)
          → contains_key (call_all cs (new_tracker limit)).parents k ≡ true
          → contains (call_all cs (new_tracker limit)).insertion_order k ≡ true)
unfolding get
call_all-bounded limit cs =
    let ((tracked, small), same) =
      IsBounded-call_all cs (new_tracker limit) (λ k known. known, omega arith) in
    (omega (arith, small, same), tracked)
