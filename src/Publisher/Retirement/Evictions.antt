-- ===== src/Publisher/Retirement/Evictions.antt =====
-- What the loop of `trim_projection_cache` in src/publisher.rs ends with.
use reth_statefeed.Prelude.{
  ℕ, zero, suc, ◌+◌, ◌-◌, ◌≤◌, ◌<◌, ◌≡◌, ◌⊎◌, true, false, Option, none, some, List, [], ◌∷◌, refl,
  ◌∙◌, ==_iff, length, length-append, Result, ok, err, ◌==◌, ltb, arith, inl, inr, Bool-cases,
  Option-cases, List-cases, le_of_ltb,
}
use reth_statefeed.Feed.{BlockMeta}
use reth_statefeed.Prelude.Map.{get, get-insert}
use reth_statefeed.Publisher.State.{
  Error, cannot_evict_projection, Candidates, CandidateEntry, CandidateStage,
}
use reth_statefeed.Publisher.Candidates.{is_current_projection}
use reth_statefeed.Publisher.Retirement.{
  evict, clear_projection, trim_projections, trim_projections_fuel, saturating_add,
}

-- The cache is within its bound or its queue is exhausted; a failure is the program's own.
abbrev pub IsBounded : Result Error (List ℕ) × Candidates → Type 0
IsBounded (ok retired, c) = (c.projection_count ≤ c.cache_limit) ⊎ (c.projection_order ≡ [])
IsBounded (err e, c) = e ≡ cannot_evict_projection

-- What every record keeps when its projection is dropped.
abbrev pub lasting : Option CandidateEntry → Option (BlockMeta × CandidateStage × ℕ × ℕ × ℕ)
lasting none = none
lasting (some entry) =
    some (entry.block, entry.stage, entry.first_sequence, entry.incarnation, entry.expires_at)

-- From one state of the cache to a later one: the canonical head has its projection still, no
-- record is gone, and the policy is the same.
abbrev pub Keeps : Candidates → Candidates → Type 0
Keeps c c' =
    (c'.canonical_hash ≡ c.canonical_hash)
    × (c'.cache_limit ≡ c.cache_limit)
    × (get c'.candidates c.canonical_hash ≡ get c.candidates c.canonical_hash)
    × ((hash : ℕ) → lasting (get c'.candidates hash) ≡ lasting (get c.candidates hash))

Keeps-clear_projection :
    (c : Candidates) (hash : ℕ) (entry : CandidateEntry)
    → (hash == c.canonical_hash) ≡ false
    → get c.candidates hash ≡ some entry
    → Keeps c (clear_projection c hash entry)
Keeps-clear_projection c hash entry ne there = (
  refl,
  refl,
  rw (get-insert c.candidates hash c.canonical_hash _, ne) refl,
  λ other. elim (Bool-cases (hash == other)) [
    | inl same ↦
        rw (get-insert c.candidates hash other _, same, ← (==_iff hash other).0 same, there) refl
    | inr differs ↦ rw (get-insert c.candidates hash other _, differs) refl
  ],
)

evict_lem :
    (c : Candidates) (oldest : ℕ × ℕ) (retired : List ℕ)
    → (length (evict c oldest retired).1.projection_order ≤ length c.projection_order + 1)
      × Keeps c (evict c oldest retired).1
unfolding evict
evict_lem c (incarnation, oldest) retired = elim (Bool-cases (oldest == c.canonical_hash)) [
  | inl head ↦
      rw (evict, head)
        (
          omega (arith, length-append c.projection_order ((incarnation, oldest) ∷ [])),
          (refl, refl, refl, λ hash. refl),
        )
  | inr ordinary ↦ elim (Option-cases (get c.candidates oldest)) [
    | inl missing ↦ rw (evict, ordinary, missing) (omega arith, (refl, refl, refl, λ hash. refl))
    | inr (entry, there) ↦
        rw (evict, ordinary, there)
          (omega arith, Keeps-clear_projection c oldest entry ordinary there)
  ]
]

Keeps-trans : (c c' c'' : Candidates) → Keeps c c' → Keeps c' c'' → Keeps c c''
Keeps-trans c c' c'' (head, limit, canonical, records) (head', limit', canonical', records') = (
  head' ∙ head,
  limit' ∙ limit,
  (rw head at canonical') ∙ canonical,
  λ hash. records' hash ∙ records hash,
)

-- A round of the loop behind its pop.
abbrev after_pop :
    ℕ → ℕ → List ℕ → Candidates → ℕ × ℕ → List (ℕ × ℕ) → Result Error (List ℕ) × Candidates
after_pop fuel examined retired c oldest rest =
    let popped = record c { projection_order = rest } in
    elim (is_current_projection c oldest) [
      | false ↦ trim_projections fuel (examined + 1) retired popped
      | true ↦
          let (retired', c') = evict popped oldest retired in
          elim (ltb (saturating_add (length c'.projection_order) 1) (examined + 1)) [
            | true ↦ (err cannot_evict_projection, c')
            | false ↦ trim_projections fuel (examined + 1) retired' c'
          ]
    ]

-- What the loop is shown to do on some fuel.
abbrev IsTrimming : ℕ → Type 0
IsTrimming fuel =
    (examined : ℕ) (retired : List ℕ) (c : Candidates)
    → length c.projection_order + (length c.projection_order + 1 - examined) < fuel
    → IsBounded (trim_projections fuel examined retired c)
      × Keeps c (trim_projections fuel examined retired c).1

after_pop_lem :
    (fuel : ℕ)
    → IsTrimming fuel
    → (examined : ℕ) (retired : List ℕ) (c : Candidates) (oldest : ℕ × ℕ) (rest : List (ℕ × ℕ))
    → length rest + 1 + (length rest + 2 - examined) < suc fuel
    → IsBounded (after_pop fuel examined retired c oldest rest)
      × Keeps c (after_pop fuel examined retired c oldest rest).1
after_pop_lem fuel ih examined retired c oldest rest h =
    let popped : Candidates = record c { projection_order = rest } in
    elim (Bool-cases (is_current_projection c oldest)) [
      | inr stale ↦ rw (after_pop, stale) (ih (examined + 1) retired popped (omega arith))
      | inl current ↦
          let (few, keeps) = evict_lem popped oldest retired in
          let retired' = (evict popped oldest retired).0 in
          let c' = (evict popped oldest retired).1 in
          let bound = saturating_add (length c'.projection_order) 1 in
          elim (Bool-cases (ltb bound (examined + 1))) [
            | inl failed ↦ rw (after_pop, current, failed) (refl, keeps)
            | inr more ↦
                let (bounded, later) =
                  ih (examined + 1) retired' c'
                    (omega (arith, few, le_of_ltb bound (examined + 1) more)) in
                rw (after_pop, current, more)
                  (
                    bounded,
                    Keeps-trans c c' (trim_projections fuel (examined + 1) retired' c').1 keeps
                        later,
                  )
          ]
    ]

trim_projections-IsTrimming : (fuel : ℕ) → IsTrimming fuel
unfolding trim_projections
trim_projections-IsTrimming zero examined retired c h = absurd (omega arith)
trim_projections-IsTrimming (suc fuel) examined retired c h =
    elim (Bool-cases (ltb c.cache_limit c.projection_count)) [
      | inr within ↦
          rw (trim_projections, within)
            (
              inl (le_of_ltb c.cache_limit c.projection_count within),
              (refl, refl, refl, λ hash. refl),
            )
      | inl over ↦ elim (List-cases c.projection_order) [
        | inl exhausted ↦
            rw (trim_projections, over, exhausted) (inr exhausted, (refl, refl, refl, λ hash. refl))
        | inr (oldest, rest, order) ↦
            rw (trim_projections, over, order)
              (after_pop_lem fuel (trim_projections-IsTrimming fuel) examined retired c oldest rest
                (omega (arith, longer order)))
      ]
    ]
  where
    longer :
        {oldest : ℕ × ℕ} {rest : List (ℕ × ℕ)}
        → c.projection_order ≡ oldest ∷ rest
        → length c.projection_order ≡ length rest + 1
    longer order = rw order (omega arith)

-- From any state, the loop of `trim_projection_cache` ends within the fuel of the model: the cache is
-- within its bound or its queue is exhausted, or the failure is the program's own. Whatever the loop
-- does, the canonical head keeps its projection, no record is removed, and every record keeps its
-- block, stage, first sequence, incarnation and deadline.
pub trim_projections_lem :
    (c : Candidates)
    → IsBounded (trim_projections (trim_projections_fuel c) 0 [] c)
      × Keeps c (trim_projections (trim_projections_fuel c) 0 [] c).1
trim_projections_lem c = trim_projections-IsTrimming (trim_projections_fuel c) 0 [] c (omega arith)
