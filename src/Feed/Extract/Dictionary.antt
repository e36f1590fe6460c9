-- ===== src/Feed/Extract/Dictionary.antt =====
-- The slots of a dictionary that `WatchSet::compile` of src/watch.rs made, as `extract_changes` of
-- src/feed.rs meets them.
use reth_statefeed.Prelude.{
  ℕ, suc, ◌≡◌, ◌≢◌, ◌<◌, true, ◌↔◌, List, [], ◌∷◌, All, length, leb, ltb, ◌==◌, ==_iff, refl, sym,
  subst, arith, Bool-cases, inl, inr,
}
use reth_statefeed.Watch.{
  WatchConfig, WatchKey, SlotWatch, insert_slot, sort_slots, number_keys, address_watch,
  slot_hash_index_threshold,
}
use reth_statefeed.Watch.Lookup.{slots_of}
use reth_statefeed.Watch.Sorting.{All-insert_slot, All-sort_slots, In-sort_slots}
use reth_statefeed.Watch.Entries.{IsKeyOf, In-slots_of}
use reth_statefeed.Config.Validated.{AreApart, AreDistinct}
use reth_statefeed.Feed.Extract.Searching.{IsAscending}
use reth_statefeed.Prelude.Members.{In}
use reth_statefeed.Feed.Extract.Indexes.{AreSlots, IsIndexed}

IsAscending-insert_slot :
    (s : SlotWatch) (slots : List SlotWatch)
    → All (λ later. s.slot ≢ later.slot) slots
    → IsAscending slots
    → IsAscending (insert_slot s slots)
unfolding insert_slot
IsAscending-insert_slot s [] apart sorted = (tt, tt)
IsAscending-insert_slot s (t ∷ rest) (first, apart) (above, sorted) =
    elim (Bool-cases (leb s.slot t.slot)) [
      | inl front ↦ rw front ((lower front, All-lower rest (lower front) above), (above, sorted))
      | inr behind ↦ rw behind (
        All-insert_slot (λ later. t.slot < later.slot) s rest (ground arith) above,
        IsAscending-insert_slot s rest apart sorted,
      )
    ]
  where
    lower : leb s.slot t.slot ≡ true → s.slot < t.slot
    lower h = ground arith

    All-lower :
        (slots : List SlotWatch)
        → s.slot < t.slot
        → All (λ later. t.slot < later.slot) slots
        → All (λ later. s.slot < later.slot) slots
    All-lower [] h all = tt
    All-lower (u ∷ slots) h (h', all) = (omega arith, All-lower slots h all)

IsAscending-sort_slots : (slots : List SlotWatch) → AreSlots slots → IsAscending (sort_slots slots)
unfolding sort_slots
IsAscending-sort_slots [] distinct = tt
IsAscending-sort_slots (s ∷ rest) (apart, distinct) =
    IsAscending-insert_slot s (sort_slots rest)
      (All-sort_slots (λ later. s.slot ≢ later.slot) rest apart)
      (IsAscending-sort_slots rest distinct)

-- Keys with storage coordinates of their own.
abbrev pub ArePlaced : List WatchKey → Type 0
ArePlaced [] = Unit
ArePlaced (key ∷ rest) =
    All (λ later. ¬ ((key.address ≡ later.address) × (key.slot ≡ later.slot))) rest × ArePlaced rest

All-number_keys :
    (a s index : ℕ) (configured : List WatchConfig)
    → All (λ later. ¬ ((a ≡ later.address) × (s ≡ later.slot))) configured
    → All (λ later. ¬ ((a ≡ later.address) × (s ≡ later.slot))) (number_keys index configured)
unfolding number_keys
All-number_keys a s index [] all = tt
All-number_keys a s index (key ∷ rest) (first, all) =
    (first, All-number_keys a s (suc index) rest all)

All-coordinates :
    (key : WatchConfig) (rest : List WatchConfig)
    → All (AreApart key) rest
    → All (λ later. ¬ ((key.address ≡ later.address) × (key.slot ≡ later.slot))) rest
All-coordinates key [] all = tt
All-coordinates key (other ∷ rest) ((_, apart), all) = (apart, All-coordinates key rest all)

pub ArePlaced-number_keys :
    (index : ℕ) (configured : List WatchConfig)
    → AreDistinct configured
    → ArePlaced (number_keys index configured)
unfolding number_keys
ArePlaced-number_keys index [] distinct = tt
ArePlaced-number_keys index (key ∷ rest) (apart, distinct) = (
  All-number_keys key.address key.slot (suc index) rest (All-coordinates key rest apart),
  ArePlaced-number_keys (suc index) rest distinct,
)

All-slots_of :
    (a s : ℕ) (keys : List WatchKey)
    → All (λ later. ¬ ((a ≡ later.address) × (s ≡ later.slot))) keys
    → All (λ later. s ≢ later.slot) (slots_of a keys)
All-slots_of a s [] all = tt
All-slots_of a s (key ∷ rest) (first, all) = elim (Bool-cases (key.address == a)) [
  | inl same ↦
      rw same (λ h. first (sym ((==_iff key.address a).0 same), h), All-slots_of a s rest all)
  | inr other ↦ rw other (All-slots_of a s rest all)
]

AreSlots-slots_of : (a : ℕ) (keys : List WatchKey) → ArePlaced keys → AreSlots (slots_of a keys)
AreSlots-slots_of a [] placed = tt
AreSlots-slots_of a (key ∷ rest) (apart, placed) = elim (Bool-cases (key.address == a)) [
  | inl same ↦ rw same (
    All-slots_of a key.slot rest (
        subst (λ b. All (λ later. ¬ ((b ≡ later.address) × (key.slot ≡ later.slot))) rest)
          ((==_iff key.address a).0 same) apart),
    AreSlots-slots_of a rest placed,
  )
  | inr other ↦ rw other (AreSlots-slots_of a rest placed)
]

-- The entry that `compile` makes of the keys of an address.
pub address_watch_lem :
    (a : ℕ) (keys : List WatchKey)
    → ArePlaced keys
    → IsAscending (address_watch (a, slots_of a keys)).slots
      × IsIndexed (address_watch (a, slots_of a keys))
      × ((w : SlotWatch) → In w (address_watch (a, slots_of a keys)).slots ↔ IsKeyOf a keys w)
unfolding address_watch
address_watch_lem a keys placed = (
  IsAscending-sort_slots (slots_of a keys) (AreSlots-slots_of a keys placed),
  elim (Bool-cases (ltb slot_hash_index_threshold (length (sort_slots (slots_of a keys))))) [
    | inl many ↦ rw many (inr refl)
    | inr few ↦ rw few (inl refl)
  ],
  λ w.
      let (from, to) = In-sort_slots w (slots_of a keys) in
      let (from', to') = In-slots_of a keys w in (λ i. from' (from i), λ k. to (to' k)),
)
