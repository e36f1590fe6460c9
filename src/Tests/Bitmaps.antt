-- ===== src/Tests/Bitmaps.antt =====
-- Witnesses of the theorems on the bitmaps of changed keys.
use reth_statefeed.Prelude.{
  ℕ, ◌≤◌, ◌≡◌, ◌≢◌, ◌⊎◌, ◌↔◌, refl, List, [], ◌∷◌, ◌++◌, length, replicate, ok, All, arith,
}
use reth_statefeed.Prelude.Slices.{value_bytes}
use reth_statefeed.Publisher.State.{Projection}
use reth_statefeed.Publisher.Validate.{apply_changes, canonical_changed_bitmap}
use reth_statefeed.Publisher.Validate.Bits.{bit}
use reth_statefeed.Publisher.Validate.Bitmaps.{canonical_changed_bitmap_iff}
use reth_statefeed.Publisher.Validate.Marks.{apply_changes-IsMarked}
use reth_statefeed.Tests.Samples.{block_two, rival_two, sample_set, projection_at, changes_two}

-- A sibling of the canonical block, with another value at the second key.
abbrev rival : Projection
rival = record {
  block = rival_two;
  watch_set = sample_set;
  values = replicate 63 0 ++ (9 ∷ []);
  changed_bitmap = [];
}

canonical_changed_bitmap_iff_example :
    (bitmap : List ℕ) × (canonical_changed_bitmap (projection_at block_two) rival ≡ ok bitmap)
    × (length bitmap ≡ 1)
    × (bit bitmap 1 ≤ 1)
    × ((bit bitmap 1 ≡ 0) ↔ (value_bytes (replicate 64 0) 1 ≡ value_bytes rival.values 1))
canonical_changed_bitmap_iff_example =
    canonical_changed_bitmap_iff (projection_at block_two) rival 1 refl refl refl
      (λ e. absurd (omega arith)) (omega arith)

apply_changes-IsMarked_example :
    (values' : List ℕ) × (bitmap' : List ℕ) × (apply_changes changes_two (replicate 64 0) (0 ∷ [])
      ≡ ok (values', bitmap'))
    × ((bit bitmap' 1 ≡ 1)
        ⊎ ((bit bitmap' 1 ≡ 0) × (value_bytes values' 1 ≡ value_bytes (replicate 64 0) 1)))
    × (All (λ change. change.key_id ≢ 1) changes_two → bit bitmap' 1 ≡ 0)
apply_changes-IsMarked_example =
    apply_changes-IsMarked changes_two (replicate 64 0) 2 1 refl (omega arith)
      ((omega arith, omega arith), tt)
