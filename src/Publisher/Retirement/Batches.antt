-- ===== src/Publisher/Retirement/Batches.antt =====
-- The batches of `publish_retired` in src/publisher.rs.
use reth_statefeed.Prelude.{
  ℕ, zero, suc, ◌+◌, ◌*◌, ◌≤◌, ◌<◌, ◌≡◌, List, [], ◌∷◌, ◌++◌, refl, ap, ◌∙◌, length, take, drop,
  length-take, length-drop, All, arith,
}
use reth_statefeed.Publisher.Retirement.{chunks_of, batch_size}

abbrev pub flatten : List (List ℕ) → List ℕ
flatten [] = []
flatten (batch ∷ rest) = batch ++ flatten rest

append-take_and_drop : (n : ℕ) (xs : List ℕ) → take n xs ++ drop n xs ≡ xs
append-take_and_drop zero xs = refl
append-take_and_drop (suc n) [] = refl
append-take_and_drop (suc n) (x ∷ xs) = ap (◌∷◌ x) (append-take_and_drop n xs)

flatten-chunks_of :
    (fuel size : ℕ) (hashes : List ℕ)
    → 0 < size
    → length hashes ≤ fuel
    → flatten (chunks_of fuel size hashes) ≡ hashes
unfolding chunks_of
flatten-chunks_of zero size [] pos h = refl
flatten-chunks_of zero size (x ∷ hashes) pos h = absurd (omega arith)
flatten-chunks_of (suc fuel) size [] pos h = refl
flatten-chunks_of (suc fuel) size (x ∷ hashes) pos h =
    ap (λ later. take size (x ∷ hashes) ++ later)
      (flatten-chunks_of fuel size (drop size (x ∷ hashes)) pos
        (omega (arith, length-drop size (x ∷ hashes))))
    ∙ append-take_and_drop size (x ∷ hashes)

All-chunks_of :
    (fuel size : ℕ) (hashes : List ℕ)
    → 0 < size
    → All (λ batch. (0 < length batch) × (length batch ≤ size)) (chunks_of fuel size hashes)
unfolding chunks_of
All-chunks_of zero size hashes pos = tt
All-chunks_of (suc fuel) size [] pos = tt
All-chunks_of (suc fuel) size (x ∷ hashes) pos = (
  (omega (arith, length-take size (x ∷ hashes)), omega (arith, length-take size (x ∷ hashes))),
  All-chunks_of fuel size (drop size (x ∷ hashes)) pos,
)

All-mono :
    (P Q : List ℕ → Type 0) (batches : List (List ℕ))
    → ((batch : List ℕ) → P batch → Q batch)
    → All P batches
    → All Q batches
All-mono P Q [] more all = tt
All-mono P Q (batch ∷ rest) more (first, others) = (more batch first, All-mono P Q rest more others)

-- With the smallest frame bound that a configuration may have, or a larger one: the batches hold the
-- retired hashes, each once and in their order; none is empty, and 34 bytes for each hash of a batch
-- leave 256 bytes of the frame.
pub chunks_of-batch_size :
    (limit : ℕ) (hashes : List ℕ)
    → 1024 ≤ limit
    → (flatten (chunks_of (length hashes) (batch_size limit) hashes) ≡ hashes)
      × All
          (λ batch. (0 < length batch) × (length batch * 34 + 256 ≤ limit))
          (chunks_of (length hashes) (batch_size limit) hashes)
chunks_of-batch_size limit hashes large = (
  flatten-chunks_of (length hashes) (batch_size limit) hashes (omega arith) (omega arith),
  All-mono (λ batch. (0 < length batch) × (length batch ≤ batch_size limit))
      (λ batch. (0 < length batch) × (length batch * 34 + 256 ≤ limit))
      (chunks_of (length hashes) (batch_size limit) hashes) (λ batch (pos, few). (pos, omega arith))
      (All-chunks_of (length hashes) (batch_size limit) hashes (omega arith)),
)
