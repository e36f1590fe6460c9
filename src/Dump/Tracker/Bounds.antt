-- ===== src/Dump/Tracker/Bounds.antt =====
-- The bounds and the ends of the loops of `CandidateTracker` in src/bin/statefeed-dump.rs.
use reth_statefeed.Prelude.{
  ℕ, zero, suc, ◌≤◌, ◌≡◌, ◌≢◌, true, false, not, none, is_some, List, [], ◌∷◌, length, retain,
  length-retain-le, contains, contains-append, contains-retain_other, ltb, ◌==◌, ==_iff,
  if◌then◌else◌, refl, sym, ap, ◌∙◌, subst, arith, Bool-cases, Option-cases, List-cases, inl, inr,
}
use reth_statefeed.Prelude.Map.{Map, get, contains_key, get-remove, get-insert}
use reth_statefeed.Dump.Tracker.{CandidateTracker, remove_exact, link, trim, insert_candidate}

-- Every known hash waits in the queue.
abbrev pub IsTracked : CandidateTracker → Type 0
IsTracked t = (k : ℕ) → contains_key t.parents k ≡ true → contains t.insertion_order k ≡ true

pub remove_exact-parents :
    (hash k : ℕ) (t : CandidateTracker)
    → get (remove_exact hash t).parents k ≡ (if hash == k then none else get t.parents k)
unfolding remove_exact
remove_exact-parents hash k t = elim (Option-cases (get t.parents hash)) [
  | inl missing ↦
      rw (remove_exact, missing)
        (elim (Bool-cases (hash == k)) [
          | inl same ↦ rw same (ap (get t.parents) (sym ((==_iff hash k).0 same)) ∙ missing)
          | inr other ↦ rw other refl
        ])
  | inr (parent, there) ↦ rw (remove_exact, there) (get-remove t.parents hash k)
]

pub remove_exact-order :
    (hash : ℕ) (t : CandidateTracker)
    → ((remove_exact hash t).insertion_order
        ≡ retain (λ candidate. not (candidate == hash)) t.insertion_order)
      × ((remove_exact hash t).limit ≡ t.limit)
unfolding remove_exact
remove_exact-order hash t = elim (Option-cases (get t.parents hash)) [
  | inl missing ↦ rw (remove_exact, missing) (refl, refl)
  | inr (parent, there) ↦ rw (remove_exact, there) (refl, refl)
]

pub IsTracked-remove_exact :
    (hash : ℕ) (rest : List ℕ) (t : CandidateTracker)
    → IsTracked (record t { insertion_order = hash ∷ rest })
    → IsTracked (remove_exact hash (record t { insertion_order = rest }))
IsTracked-remove_exact hash rest t tracked k known =
    let t' : CandidateTracker = record t { insertion_order = rest } in
    let ne : hash ≢ k = λ same. never (rw (remove_exact-parents hash k t') at known) same in
    rw (remove_exact-order hash t').0 (
      contains-retain_other rest hash k ne
      ∙ behind ne (tracked k (still (rw (remove_exact-parents hash k t') at known))))
  where
    never : is_some (if hash == k then none else get t.parents k) ≡ true → hash ≡ k → ⊥
    never known same = ground arith

    still :
        is_some (if hash == k then none else get t.parents k) ≡ true
        → contains_key t.parents k ≡ true
    still known = ground arith

    behind : hash ≢ k → contains (hash ∷ rest) k ≡ true → contains rest k ≡ true
    behind ne h = ground arith

contains_key-head : (k v : ℕ) (m : Map ℕ) → contains_key ((k, v) ∷ m) k ≡ true
unfolding get
contains_key-head k v m = ground arith

-- With nothing in the queue there is no known hash.
empty_of_tracked :
    (parents : Map ℕ)
    → ((k : ℕ) → contains_key parents k ≡ true → false ≡ true)
    → length parents ≡ 0
empty_of_tracked [] none_known = refl
empty_of_tracked ((k, v) ∷ rest) none_known =
    absurd (ground (arith, none_known k (contains_key-head k v rest)))

-- The loop of `insert` ends within its bound.
trim_lem :
    (fuel : ℕ) (t : CandidateTracker)
    → length t.insertion_order ≤ fuel
    → IsTracked t
    → IsTracked (trim fuel t)
      × (length (trim fuel t).parents ≤ t.limit)
      × ((trim fuel t).limit ≡ t.limit)
unfolding trim
trim_lem zero t few tracked = elim (List-cases t.insertion_order) [
  | inl nothing ↦ (
    tracked,
    omega (
      arith,
      empty_of_tracked t.parents
          (λ k known. subst (λ order. contains order k ≡ true) nothing (tracked k known)),
    ),
    refl,
  )
  | inr (oldest, rest, queued) ↦ absurd (omega (arith, ap length queued))
]
trim_lem (suc fuel) t few tracked = elim (Bool-cases (ltb t.limit (length t.parents))) [
  | inr small ↦ rw (trim, small) (tracked, ground arith, refl)
  | inl large ↦ elim (List-cases t.insertion_order) [
    | inl nothing ↦ absurd (
        ground (
          arith,
          empty_of_tracked t.parents
              (λ k known. subst (λ order. contains order k ≡ true) nothing (tracked k known)),
        ))
    | inr (oldest, rest, queued) ↦
        rw (trim, large, queued)
          (let t' = remove_exact oldest (record t { insertion_order = rest }) in
            let (order, limit) = remove_exact-order oldest (record t { insertion_order = rest }) in
            let (tracked', small, same) =
              trim_lem fuel t'
                (omega (
                  arith,
                  ap length order,
                  ap length queued,
                  length-retain-le (λ candidate. not (candidate == oldest)) rest,
                ))
                (IsTracked-remove_exact oldest rest t
                  λ k known. subst (λ order. contains order k ≡ true) queued (tracked k known)) in
            (tracked', omega (arith, small, limit), same ∙ limit))
  ]
]

-- A tracker within its bound.
abbrev pub IsBounded : CandidateTracker → Type 0
IsBounded t = IsTracked t × (length t.parents ≤ t.limit)

IsTracked-link :
    (hash parent_hash : ℕ) (t : CandidateTracker)
    → IsTracked t
    → IsTracked (link (get t.parents hash) hash parent_hash t)
unfolding link
IsTracked-link hash parent_hash t tracked = elim (Option-cases (get t.parents hash)) [
  | inl missing ↦
      rw (link, missing)
        (λ k known. ground (
          arith,
          contains-append t.insertion_order (hash ∷ []) k,
          tracked k,
          get-insert t.parents hash k parent_hash,
          known,
        ))
  | inr (previous, there) ↦
      rw (link, there)
        (λ k known. elim (Bool-cases (hash == k)) [
          | inl same ↦
              subst (λ j. contains t.insertion_order j ≡ true) ((==_iff hash k).0 same)
                (tracked hash (rw there refl))
          | inr other ↦ tracked k (ground (arith, get-insert t.parents hash k parent_hash, known))
        ])
]

link-limit :
    (hash parent_hash : ℕ) (t : CandidateTracker)
    → (link (get t.parents hash) hash parent_hash t).limit ≡ t.limit
unfolding link
link-limit hash parent_hash t = elim (Option-cases (get t.parents hash)) [
  | inl missing ↦ rw (link, missing) refl
  | inr (previous, there) ↦ rw (link, there) refl
]

pub IsBounded-insert_candidate :
    (hash parent_hash : ℕ) (t : CandidateTracker)
    → IsTracked t
    → IsBounded (insert_candidate hash parent_hash t)
      × ((insert_candidate hash parent_hash t).limit ≡ t.limit)
unfolding insert_candidate
IsBounded-insert_candidate hash parent_hash t tracked =
    let t' = link (get t.parents hash) hash parent_hash t in
    let (tracked', small, same) =
      trim_lem (length t'.insertion_order) t' (omega arith)
        (IsTracked-link hash parent_hash t tracked) in
    ((tracked', omega (arith, small, same)), same ∙ link-limit hash parent_hash t)
