-- ===== src/Feed/Extract/Indexes.antt =====
-- How `extract_account_changes` of src/feed.rs finds the key of a slot: by the search or by the index.
use reth_statefeed.Prelude.{
  ℕ, ◌≡◌, ◌≢◌, ◌<◌, if◌then◌else◌, ◌⊎◌, ◌↔◌, false, Option, none, some, or_else, List, [], ◌∷◌, All,
  is_empty, ◌==◌, ==_iff, refl, sym, ap, ◌∙◌, arith, Bool-cases, inl, inr,
}
use reth_statefeed.Prelude.Map.{Map, get, insert, get-insert}
use reth_statefeed.Watch.{SlotWatch, AddressWatch, collect_slots}
use reth_statefeed.Feed.Extract.{key_of_slot}
use reth_statefeed.Feed.Extract.Searching.{IsAscending, IsWatched, find_slot_iff}
use reth_statefeed.Prelude.Members.{In}

-- Slots of an address, each once.
abbrev pub AreSlots : List SlotWatch → Type 0
AreSlots [] = Unit
AreSlots (w ∷ rest) = All (λ later. w.slot ≢ later.slot) rest × AreSlots rest

AreSlots-of_IsAscending : (slots : List SlotWatch) → IsAscending slots → AreSlots slots
AreSlots-of_IsAscending [] sorted = tt
AreSlots-of_IsAscending (w ∷ rest) (first, sorted) =
    (apart rest first, AreSlots-of_IsAscending rest sorted)
  where
    apart :
        (slots : List SlotWatch)
        → All (λ later. w.slot < later.slot) slots
        → All (λ later. w.slot ≢ later.slot) slots
    apart [] all = tt
    apart (u ∷ slots) (h, all) = ((λ same. omega arith), apart slots all)

-- The first slot of a list that is the given one.
abbrev lookup_slot : List SlotWatch → ℕ → Option ℕ
lookup_slot [] k = none
lookup_slot (w ∷ rest) k = if w.slot == k then some w.key_id else lookup_slot rest k

slot_later :
    (slots : List SlotWatch) (k : ℕ) (w : SlotWatch)
    → All (λ later. k ≢ later.slot) slots
    → In w slots
    → k ≢ w.slot
slot_later [] k w apart there = absurd there
slot_later (u ∷ slots) k w (first, apart) (inl same) = λ h. first (h ∙ sym (ap (λ x. x.slot) same))
slot_later (u ∷ slots) k w (first, apart) (inr later) = slot_later slots k w apart later

lookup_slot_iff :
    (slots : List SlotWatch) (k id : ℕ)
    → AreSlots slots
    → (lookup_slot slots k ≡ some id) ↔ IsWatched slots k id
lookup_slot_iff [] k id distinct = (λ h. cc, λ (w, there, _, _). absurd there)
lookup_slot_iff (w ∷ rest) k id (apart, distinct) =
    let (from, to) = lookup_slot_iff rest k id distinct in
    (
      λ h. elim (Bool-cases (w.slot == k)) [
        | inl same ↦ (w, inl refl, (==_iff w.slot k).0 same, ground arith)
        | inr other ↦
            let (u, there, at_k, at_id) = from (rw other at h) in (u, inr there, at_k, at_id)
      ],
      λ (u, there, at_k, at_id). elim there [
        | inl here ↦
            rw ((==_iff w.slot k).1 (ap (λ x. x.slot) here ∙ at_k))
              (ap (λ x. some x.key_id) here ∙ ap some at_id)
        | inr later ↦
            rw (differs (λ h. slot_later rest w.slot u apart later (h ∙ sym at_k)))
              (to (u, later, at_k, at_id))
      ],
    )
  where
    differs : w.slot ≢ k → (w.slot == k) ≡ false
    differs ne = ground arith

lookup_slot_apart :
    (slots : List SlotWatch) (j k : ℕ)
    → All (λ later. j ≢ later.slot) slots
    → j ≡ k
    → lookup_slot slots k ≡ none
lookup_slot_apart [] j k apart same = refl
lookup_slot_apart (w ∷ slots) j k (first, apart) same =
    rw (differs (λ h. first (same ∙ sym h))) (lookup_slot_apart slots j k apart same)
  where
    differs : w.slot ≢ k → (w.slot == k) ≡ false
    differs ne = ground arith

or_else_none : (o : Option ℕ) (k : ℕ) → or_else o (get {V = ℕ} [] k) ≡ o
unfolding get
or_else_none none k = refl
or_else_none (some a) k = refl

collect_slots_lem :
    (m : Map ℕ) (slots : List SlotWatch) (k : ℕ)
    → AreSlots slots
    → get (collect_slots m slots) k ≡ or_else (lookup_slot slots k) (get m k)
unfolding collect_slots
collect_slots_lem m [] k distinct = refl
collect_slots_lem m (w ∷ rest) k (apart, distinct) =
    collect_slots_lem (insert m w.slot w.key_id) rest k distinct ∙ elim (Bool-cases (w.slot == k)) [
      | inl same ↦
          rw
            (
              same,
              get-insert m w.slot k w.key_id,
              same,
              lookup_slot_apart rest w.slot k apart ((==_iff w.slot k).0 same),
            )
            refl
      | inr other ↦ rw (other, get-insert m w.slot k w.key_id, other) refl
    ]

-- The index by hash of an address, where there is one, is that of its slots.
abbrev pub IsIndexed : AddressWatch → Type 0
IsIndexed aw = (aw.slot_to_key ≡ []) ⊎ (aw.slot_to_key ≡ collect_slots [] aw.slots)

pub key_of_slot_iff :
    (aw : AddressWatch) (k id : ℕ)
    → IsAscending aw.slots
    → IsIndexed aw
    → (key_of_slot aw k ≡ some id) ↔ IsWatched aw.slots k id
unfolding key_of_slot
key_of_slot_iff aw k id sorted indexed = elim (Bool-cases (is_empty aw.slot_to_key)) [
  | inl none_there ↦ rw (key_of_slot, none_there) (find_slot_iff aw.slots k id sorted)
  | inr some_there ↦
      rw (key_of_slot, some_there, collected some_there)
        (lookup_slot_iff aw.slots k id (AreSlots-of_IsAscending aw.slots sorted))
]
  where
    collected : is_empty aw.slot_to_key ≡ false → get aw.slot_to_key k ≡ lookup_slot aw.slots k
    collected some_there = elim indexed [
      | inl nothing ↦ absurd (ground (arith, ap is_empty nothing, some_there))
      | inr made ↦
          ap (λ m. get m k) made
          ∙ collect_slots_lem [] aw.slots k (AreSlots-of_IsAscending aw.slots sorted)
          ∙ or_else_none (lookup_slot aw.slots k) k
    ]
