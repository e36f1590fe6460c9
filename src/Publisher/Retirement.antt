-- ===== src/Publisher/Retirement.antt =====
-- The loops of src/publisher.rs that hold the caches to their bounds, on fuel, and the choice of
-- expired records in `maintain`. What they retire is published by their callers.
pub mod Evictions
pub mod Batches
use reth_statefeed.Prelude.{
  ℕ, zero, suc, ◌+◌, ◌-◌, ◌*◌, ◌/◌, max, true, false, not, ◌&&◌, none, some, List, [], ◌∷◌, ◌++◌,
  length, take, drop, ltb, leb, ◌==◌, if◌then◌else◌, min, u64_mod, Result, ok, err,
}
use reth_statefeed.Prelude.Map.{Map, get, insert}
use reth_statefeed.Publisher.State.{
  Error, cannot_evict_projection, metadata_bound, no_fuel, Candidates, CandidateEntry,
  DeferredExecuted,
}
use reth_statefeed.Publisher.Candidates.{
  is_current, is_current_projection, metadata_len, remove_one,
}

-- `saturating_add` on 64 bits.
abbrev pub saturating_add : ℕ → ℕ → ℕ
saturating_add a b = min (a + b) (u64_mod - 1)

abbrev pub clear_projection : Candidates → ℕ → CandidateEntry → Candidates
clear_projection c hash entry = record c {
  candidates = insert c.candidates hash (record entry { projection = none; tracked = false });
  projection_count = c.projection_count - 1;
}

-- What a round of `trim_projection_cache` does with a current projection: the canonical one goes to
-- the back of the queue, any other is dropped, and retired if consumers track it.
unfoldable pub evict : Candidates → ℕ × ℕ → List ℕ → List ℕ × Candidates
evict c (incarnation, oldest) retired = elim (oldest == c.canonical_hash) [
  | true ↦
      (retired, record c { projection_order = c.projection_order ++ (incarnation, oldest) ∷ [] })
  | false ↦ elim (get c.candidates oldest) [
    | none ↦ (retired, c)
    | some entry ↦
        (if entry.tracked then retired ++ oldest ∷ [] else retired, clear_projection c oldest entry)
  ]
]

-- The loop of `trim_projection_cache`: the hashes to retire, and the state.
unfoldable pub trim_projections : ℕ → ℕ → List ℕ → Candidates → Result Error (List ℕ) × Candidates
trim_projections zero examined retired c = (err no_fuel, c)
trim_projections (suc fuel) examined retired c = elim (ltb c.cache_limit c.projection_count) [
  | false ↦ (ok retired, c)
  | true ↦ elim c.projection_order [
    | [] ↦ (ok retired, c)
    | oldest ∷ rest ↦
        let popped = record c { projection_order = rest } in
        elim (is_current_projection c oldest) [
          | false ↦ trim_projections fuel (examined + 1) retired popped
          | true ↦
              let (retired', c') = evict popped oldest retired in
              elim (ltb (saturating_add (length c'.projection_order) 1) (examined + 1)) [
                | true ↦ (err cannot_evict_projection, c')
                | false ↦ trim_projections fuel (examined + 1) retired' c'
              ]
        ]
  ]
]

-- Two rounds for each queued pair, and three.
abbrev pub trim_projections_fuel : Candidates → ℕ
trim_projections_fuel c = 2 * length c.projection_order + 3

-- The loop of `trim_metadata`.
unfoldable pub trim_records : ℕ → List ℕ → Candidates → Result Error (List ℕ) × Candidates
trim_records zero retired c = (err no_fuel, c)
trim_records (suc fuel) retired c = elim (ltb c.metadata_limit (metadata_len c)) [
  | false ↦ (ok retired, c)
  | true ↦ elim c.metadata_order [
    | [] ↦ (err metadata_bound, c)
    | oldest ∷ rest ↦
        let popped = record c { metadata_order = rest } in
        elim (is_current c oldest) [
          | false ↦ trim_records fuel retired popped
          | true ↦ elim (oldest.1 == c.canonical_hash) [
            | true ↦
                trim_records fuel retired (record popped { metadata_order = rest ++ oldest ∷ [] })
            | false ↦
                let (tracked, c') = remove_one popped oldest.1 false in
                trim_records fuel (if tracked then retired ++ oldest.1 ∷ [] else retired) c'
          ]
        ]
  ]
]

-- One round for each queued pair, and one.
abbrev pub trim_records_fuel : Candidates → ℕ
trim_records_fuel c = length c.metadata_order + 1

-- The records of `maintain` that are due: the hashes of a map whose deadline has passed, but not
-- the canonical one.
unfoldable pub due_candidates : Candidates → ℕ → Map CandidateEntry → List ℕ
due_candidates c now [] = []
due_candidates c now ((hash, entry) ∷ rest) =
    let later = due_candidates c now rest in
    if not (hash == c.canonical_hash) && leb entry.expires_at now then hash ∷ later else later

unfoldable pub due_deferred : Candidates → ℕ → Map DeferredExecuted → List ℕ
due_deferred c now [] = []
due_deferred c now ((hash, entry) ∷ rest) =
    let later = due_deferred c now rest in
    if not (hash == c.canonical_hash) && leb entry.expires_at now then hash ∷ later else later

unfoldable pub due : Candidates → ℕ → ℕ → List ℕ
due c now ttl_budget =
    let first = take ttl_budget (due_candidates c now c.candidates) in
    if ltb (length first) ttl_budget
    then first ++ take (ttl_budget - length first) (due_deferred c now c.deferred_executed)
    else first

-- The removals of `maintain`: those of the removed that consumers tracked, and the state.
unfoldable pub expire : List ℕ → List ℕ → Candidates → List ℕ × Candidates
expire [] expired c = (expired, c)
expire (hash ∷ rest) expired c =
    let (tracked, c') = remove_one c hash false in
    expire rest (if tracked then expired ++ hash ∷ [] else expired) c'

-- The number of hashes in a frame of `publish_retired`.
abbrev pub batch_size : ℕ → ℕ
batch_size max_frame_bytes = max (max (max_frame_bytes - 256) 32 / 34) 1

-- `hashes.chunks(batch_size)` on fuel.
unfoldable pub chunks_of : ℕ → ℕ → List ℕ → List (List ℕ)
chunks_of zero size hashes = []
chunks_of (suc fuel) size [] = []
chunks_of (suc fuel) size (h ∷ hashes) =
    take size (h ∷ hashes) ∷ chunks_of fuel size (drop size (h ∷ hashes))
