-- ===== src/Watch/Entries.antt =====
-- The entries that `WatchSet::compile` of src/watch.rs makes, slot by slot.
use reth_statefeed.Prelude.{
  ℕ, ◌+◌, ◌%◌, ◌≡◌, ◌↔◌, false, Option, none, some, List, [], ◌∷◌, All, ◌≤◌, ltb, if◌then◌else◌,
  length, get_elem?, ◌==◌, ==_iff, refl, ap, ◌∙◌, arith, Bool-cases, inl, inr, u32_mod,
}
use mathlib.Core.Option
use reth_statefeed.Prelude.Members.{In}
use reth_statefeed.Watch.{
  WatchConfig, WatchKey, SlotWatch, AddressWatch, collect_slots, slot_hash_index_threshold, address,
}
use reth_statefeed.Watch.Lookup.{slots_of}

-- A key of an address.
abbrev pub IsKeyOf : ℕ → List WatchKey → SlotWatch → Type 0
IsKeyOf a keys w =
    (key : WatchKey) × In key keys
    × (key.address ≡ a)
    × (key.slot ≡ w.slot)
    × (key.key_id ≡ w.key_id)

pub In-slots_of :
    (a : ℕ) (keys : List WatchKey) (w : SlotWatch) → In w (slots_of a keys) ↔ IsKeyOf a keys w
In-slots_of a [] w = (λ i. absurd i, λ (_, i, _, _, _). absurd i)
In-slots_of a (key ∷ rest) w =
    let (from, to) = In-slots_of a rest w in
    elim (Bool-cases (key.address == a)) [
      | inl same ↦ rw same (
        λ i. elim i [
          | inl here ↦ (
            key,
            inl refl,
            (==_iff key.address a).0 same,
            ap (λ x. x.slot) here,
            ap (λ x. x.key_id) here,
          )
          | inr later ↦
              let (k, there, at_a, at_slot, at_id) = from later in
              (k, inr there, at_a, at_slot, at_id)
        ],
        λ (k, there, at_a, at_slot, at_id). elim there [
          | inl here ↦
              inl (both key (ap (λ x. x.slot) here ∙ at_slot) (ap (λ x. x.key_id) here ∙ at_id))
          | inr later ↦ inr (to (k, later, at_a, at_slot, at_id))
        ],
      )
      | inr other ↦ rw other (
        λ i. let (k, there, at_a, at_slot, at_id) = from i in (k, inr there, at_a, at_slot, at_id),
        λ (k, there, at_a, at_slot, at_id). elim there [
          | inl here ↦ absurd (elsewhere other (ap (λ x. x.address) here ∙ at_a))
          | inr later ↦ to (k, later, at_a, at_slot, at_id)
        ],
      )
    ]
  where
    both :
        (k : WatchKey)
        → k.slot ≡ w.slot
        → k.key_id ≡ w.key_id
        → record { slot = k.slot; key_id = k.key_id } ≡ w
    both k h h' =
        ap (λ s. record { slot = s; key_id = k.key_id }) h
        ∙ ap (λ n. record { slot = w.slot; key_id = n }) h'

    elsewhere : (key.address == a) ≡ false → key.address ≡ a → ⊥
    elsewhere other same = ground arith

-- A key of a configuration at an address: its slot, and its position as the dense id.
abbrev pub IsConfigured : ℕ → ℕ → List WatchConfig → SlotWatch → Type 0
IsConfigured first a configured w =
    (i : ℕ) × (key : WatchConfig) × (get_elem? configured i ≡ some key)
    × (key.address ≡ a)
    × (key.slot ≡ w.slot)
    × ((first + i) % u32_mod ≡ w.key_id)

-- Sorted by slot; two slots may be the same.
abbrev pub IsRising : List SlotWatch → Type 0
IsRising [] = Unit
IsRising (s ∷ rest) = All (λ later. s.slot ≤ later.slot) rest × IsRising rest

-- What the entry of an address has to be, for a configuration.
abbrev pub IsEntryOf : ℕ → List WatchConfig → Option AddressWatch → Type 0
IsEntryOf a configured none = (w : SlotWatch) → ¬ IsConfigured 0 a configured w
IsEntryOf a configured (some aw) =
    (aw.address ≡ a)
    × ((w : SlotWatch) × IsConfigured 0 a configured w)
    × ((w : SlotWatch) → In w aw.slots ↔ IsConfigured 0 a configured w)
    × IsRising aw.slots
    × (aw.slot_to_key ≡ (
        if ltb slot_hash_index_threshold (length aw.slots) then collect_slots [] aw.slots else []))
