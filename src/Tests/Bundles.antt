-- ===== src/Tests/Bundles.antt =====
-- Witnesses of the theorems on the extraction of changes.
use reth_statefeed.Prelude.{
  ℕ, ◌*◌, ◌≡◌, length, replicate, or_else, ok, refl, ◌↔◌, true, false, List, [], ◌∷◌, arith,
}
use reth_statefeed.Watch.{WatchKey, SlotChange, number_keys, compile}
use reth_statefeed.Config.Validated.{AreDistinct, validate_iff}
use reth_statefeed.Feed.Extract.{BundleState, extract_changes}
use reth_statefeed.Prelude.Members.{In}
use reth_statefeed.Feed.Extract.Accounts.{expected_of, IsBundle}
use reth_statefeed.Feed.Extract.Bundles.{IsExpected, extract_changes_iff}
use reth_statefeed.Prelude.Map.{get}
use reth_statefeed.Client.Packed
use reth_statefeed.Publisher.Validate.{apply_changes}
use reth_statefeed.Publisher.Validate.Blocks.{AreWords, apply_changes-extract_changes}
use reth_statefeed.Tests.Services.{usable, usable_accepted}

usable-AreDistinct : AreDistinct usable.watch
usable-AreDistinct = ((validate_iff usable).0 usable_accepted).distinct

-- A watched account with one written slot of three, and another one that is destroyed.
abbrev bundle : BundleState
bundle =
    (
      17,
      record {
        was_destroyed = false;
        storage =
            (5, record { is_changed = true; present_value = 40 })
            ∷ (6, record { is_changed = false; present_value = 41 })
            ∷ (7, record { is_changed = true; present_value = 42 })
            ∷ [];
      },
    )
    ∷ (19, record { was_destroyed = true; storage = [] })
    ∷ []

bundle-IsBundle : IsBundle bundle
bundle-IsBundle = (
  (((λ h. omega arith), tt), (tt, tt)),
  (
    (((λ h. omega arith), ((λ h. omega arith), tt)), (((λ h. omega arith), tt), (tt, tt))),
    (tt, tt),
  ),
)

abbrev change : SlotChange
change = record { key_id = 0; new_value = 40 }

extract_changes_iff_example :
    In change (extract_changes (compile 3 usable.watch) bundle)
    ↔ IsExpected usable.watch bundle change
extract_changes_iff_example =
    extract_changes_iff 3 usable.watch bundle change usable-AreDistinct bundle-IsBundle

bundle-AreWords : AreWords bundle
unfolding get
bundle-AreWords a s v h = ground arith

apply_changes-extract_changes_example :
    (values' : List ℕ) × (bitmap' : List ℕ) × (apply_changes
        (extract_changes (compile 3 usable.watch) bundle)
        (replicate 64 0)
        (0 ∷ [])
      ≡ ok (values', bitmap'))
    × (length values' ≡ 2 * 32)
    × ((key : WatchKey)
        → In key (number_keys 0 usable.watch)
        → Packed.get (record { bytes = values' }) key.key_id
          ≡ or_else
              (expected_of (get bundle key.address) key.slot)
              (Packed.get (record { bytes = replicate 64 0 }) key.key_id))
apply_changes-extract_changes_example =
    apply_changes-extract_changes 3 usable.watch bundle (replicate 64 0) (0 ∷ []) usable-AreDistinct
      bundle-IsBundle bundle-AreWords (omega arith) (omega arith) refl
