-- ===== src/Publisher/Candidates/Removal.antt =====
-- What `remove_one` of src/publisher.rs does to the records and to the index of children.
use reth_statefeed.Prelude.{
  ℕ, ◌≡◌, Bool, true, false, Option, none, some, refl, sym, ap, ◌∙◌, ==_iff, if◌then◌else◌, ◌==◌,
  inl, inr, Option-cases, Bool-cases,
}
use reth_statefeed.Prelude.Map.{Map, get, get-remove}
use reth_statefeed.Publisher.State.{Candidates}
use reth_statefeed.Publisher.Candidates.{
  drop_child, take_candidate, take_deferred, unlink, remove_one, insert_tombstone,
  compact_order_queues_if_needed,
}

-- No record of a hash.
abbrev pub IsGone : Candidates → ℕ → Type 0
IsGone c hash = (get c.candidates hash ≡ none) × (get c.deferred_executed hash ≡ none)

-- A map that does not hold a hash reads as if one entry of that hash had been removed.
get_of_missing :
    {V : Type 0} (m : Map V) (hash other : ℕ)
    → get m hash ≡ none
    → get m other ≡ (if hash == other then none else get m other)
get_of_missing m hash other missing = elim (Bool-cases (hash == other)) [
  | inl same ↦ rw same (ap (get m) (sym ((==_iff hash other).0 same)) ∙ missing)
  | inr differs ↦ rw differs refl
]

-- The end of `remove_one` touches neither the records nor the index.
abbrev finish : Bool → ℕ → Candidates → Candidates
finish terminal hash c =
    compact_order_queues_if_needed (if terminal then insert_tombstone c hash else c)

finish_lem :
    (terminal : Bool) (hash : ℕ) (c : Candidates)
    → ((finish terminal hash c).candidates ≡ c.candidates)
      × ((finish terminal hash c).deferred_executed ≡ c.deferred_executed)
      × ((finish terminal hash c).children_by_parent ≡ c.children_by_parent)
unfolding insert_tombstone compact_order_queues_if_needed
finish_lem true hash c = (refl, refl, refl)
finish_lem false hash c = (refl, refl, refl)

unlink_lem :
    (c : Candidates) (parent : Option ℕ) (hash : ℕ)
    → ((unlink c parent hash).candidates ≡ c.candidates)
      × ((unlink c parent hash).deferred_executed ≡ c.deferred_executed)
unlink_lem c none hash = (refl, refl)
unlink_lem c (some parent) hash = (refl, refl)

take_candidate_lem :
    (c : Candidates) (hash other : ℕ)
    → (get (take_candidate c hash).2.candidates other
        ≡ (if hash == other then none else get c.candidates other))
      × ((take_candidate c hash).2.deferred_executed ≡ c.deferred_executed)
      × ((take_candidate c hash).2.children_by_parent ≡ c.children_by_parent)
unfolding take_candidate
take_candidate_lem c hash other = elim (Option-cases (get c.candidates hash)) [
  | inl missing ↦
      rw (take_candidate, missing) (get_of_missing c.candidates hash other missing, refl, refl)
  | inr (entry, there) ↦ rw (take_candidate, there) (get-remove c.candidates hash other, refl, refl)
]

take_deferred_lem :
    (c : Candidates) (hash other : ℕ) (parent : Option ℕ)
    → ((take_deferred c hash parent).1.candidates ≡ c.candidates)
      × (get (take_deferred c hash parent).1.deferred_executed other
          ≡ (if hash == other then none else get c.deferred_executed other))
      × ((take_deferred c hash parent).1.children_by_parent ≡ c.children_by_parent)
unfolding take_deferred
take_deferred_lem c hash other parent = elim (Option-cases (get c.deferred_executed hash)) [
  | inl missing ↦
      rw (take_deferred, missing)
        (refl, get_of_missing c.deferred_executed hash other missing, refl)
  | inr (entry, there) ↦
      rw (take_deferred, there) (refl, get-remove c.deferred_executed hash other, refl)
]

-- The record of the hash goes, every other one stays, and the index loses at most the link to it.
pub remove_one_lem :
    (c : Candidates) (hash other : ℕ) (terminal : Bool)
    → (get (remove_one c hash terminal).1.candidates other
        ≡ (if hash == other then none else get c.candidates other))
      × (get (remove_one c hash terminal).1.deferred_executed other
          ≡ (if hash == other then none else get c.deferred_executed other))
      × ((parent : Option ℕ) × ((remove_one c hash terminal).1.children_by_parent
            ≡ (unlink c parent hash).children_by_parent))
unfolding remove_one
remove_one_lem c hash other terminal =
    let (candidates₁, deferred₁, children₁) = take_candidate_lem c hash other in
    let c₁ = (take_candidate c hash).2 in
    let parent = (take_candidate c hash).0 in
    let (candidates₂, deferred₂, children₂) = take_deferred_lem c₁ hash other parent in
    let c₂ = (take_deferred c₁ hash parent).1 in
    let parent' = (take_deferred c₁ hash parent).0 in
    let (candidates₃, deferred₃) = unlink_lem c₂ parent' hash in
    let (candidates₄, deferred₄, children₄) = finish_lem terminal hash (unlink c₂ parent' hash) in
    (
      ap (λ m. get m other) (candidates₄ ∙ candidates₃ ∙ candidates₂) ∙ candidates₁,
      ap (λ m. get m other) (deferred₄ ∙ deferred₃)
          ∙ deferred₂
          ∙ ap (λ m. if hash == other then none else get m other) deferred₁,
      (parent', children₄ ∙ same_index c₂ c parent' (children₂ ∙ children₁)),
    )
  where
    same_index :
        (c₂ c : Candidates) (parent : Option ℕ)
        → c₂.children_by_parent ≡ c.children_by_parent
        → (unlink c₂ parent hash).children_by_parent ≡ (unlink c parent hash).children_by_parent
    same_index c₂ c none h = h
    same_index c₂ c (some parent) h = ap (λ m. drop_child m parent hash) h
