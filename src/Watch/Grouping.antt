-- ===== src/Watch/Grouping.antt =====
-- What `WatchSet::compile` of src/watch.rs files under an address, and what `WatchSet::address`
-- finds there.
use reth_statefeed.Prelude.{
  ℕ, ◌<◌, ◌≡◌, none, some, List, [], ◌∷◌, ◌++◌, refl, ◌==◌, ltb, ltb→lt, if◌then◌else◌, All, arith,
  inl, inr, Bool-cases,
}
use mathlib.Core.Option
use reth_statefeed.Prelude.Map.{Map, get}
use reth_statefeed.Watch.{SlotWatch, push_grouped}

-- Strictly sorted by the addresses.
abbrev pub IsSorted : Map (List SlotWatch) → Type 0
IsSorted [] = Unit
IsSorted (entry ∷ rest) = All (λ later. entry.0 < later.0) rest × IsSorted rest

pub get_of_above :
    (grouped : Map (List SlotWatch)) (a : ℕ)
    → All (λ later. a < later.0) grouped
    → get grouped a ≡ none
unfolding get
get_of_above [] a above = refl
get_of_above ((b, slots) ∷ rest) a (first, above) = ground (arith, get_of_above rest a above)

All-above_mono :
    (grouped : Map (List SlotWatch)) (a b : ℕ)
    → a < b
    → All (λ later. b < later.0) grouped
    → All (λ later. a < later.0) grouped
All-above_mono [] a b h above = tt
All-above_mono (entry ∷ rest) a b h (first, above) = (omega arith, All-above_mono rest a b h above)

All-above_push :
    (grouped : Map (List SlotWatch)) (low a : ℕ) (s : SlotWatch)
    → low < a
    → All (λ later. low < later.0) grouped
    → All (λ later. low < later.0) (push_grouped grouped a s)
unfolding push_grouped
All-above_push [] low a s h above = (h, tt)
All-above_push ((b, slots) ∷ rest) low a s h (first, above) =
    ground (arith, All-above_push rest low a s h above)

pub IsSorted-push_grouped :
    (grouped : Map (List SlotWatch)) (a : ℕ) (s : SlotWatch)
    → IsSorted grouped
    → IsSorted (push_grouped grouped a s)
unfolding push_grouped
IsSorted-push_grouped [] a s sorted = (tt, tt)
IsSorted-push_grouped ((b, slots) ∷ rest) a s (above, sorted) = elim (Bool-cases (a == b)) [
  | inl same ↦ rw same (above, sorted)
  | inr differs ↦ elim (Bool-cases (ltb a b)) [
    | inl before ↦
        rw (differs, before)
          ((ltb→lt a b before, All-above_mono rest a b (ltb→lt a b before) above), (above, sorted))
    | inr behind ↦
        rw (differs, behind)
          (All-above_push rest b a s (ground arith) above, IsSorted-push_grouped rest a s sorted)
  ]
]

-- One key goes to the end of the slots of its address.
pub get-push_grouped :
    (grouped : Map (List SlotWatch)) (a : ℕ) (s : SlotWatch) (other : ℕ)
    → IsSorted grouped
    → get (push_grouped grouped a s) other ≡ (
        if a == other then some (Option.get_or (get grouped a) [] ++ s ∷ []) else get grouped other)
unfolding push_grouped get
get-push_grouped [] a s other sorted = refl
get-push_grouped ((b, slots) ∷ rest) a s other (above, sorted) = elim (Bool-cases (a == b)) [
  | inl same ↦ rw (push_grouped, same) (ground arith)
  | inr differs ↦ elim (Bool-cases (ltb a b)) [
    | inl before ↦
        rw (push_grouped, differs, before)
          (ground (arith, get_of_above rest a (All-above_mono rest a b (ltb→lt a b before) above)))
    | inr behind ↦
        rw (push_grouped, differs, behind) (ground (arith, get-push_grouped rest a s other sorted))
  ]
]
