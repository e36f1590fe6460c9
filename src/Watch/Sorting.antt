-- ===== src/Watch/Sorting.antt =====
-- The sort of the slots of an address in src/watch.rs.
use reth_statefeed.Prelude.{◌↔◌, List, [], ◌∷◌, All, leb, Bool-cases, inl, inr}
use reth_statefeed.Prelude.Members.{In}
use reth_statefeed.Watch.{SlotWatch, insert_slot, sort_slots}

pub All-insert_slot :
    (P : SlotWatch → Type 0) (s : SlotWatch) (slots : List SlotWatch)
    → P s
    → All P slots
    → All P (insert_slot s slots)
unfolding insert_slot
All-insert_slot P s [] h all = (h, tt)
All-insert_slot P s (t ∷ rest) h (first, all) = elim (Bool-cases (leb s.slot t.slot)) [
  | inl front ↦ rw front (h, (first, all))
  | inr behind ↦ rw behind (first, All-insert_slot P s rest h all)
]

pub All-sort_slots :
    (P : SlotWatch → Type 0) (slots : List SlotWatch) → All P slots → All P (sort_slots slots)
unfolding sort_slots
All-sort_slots P [] all = tt
All-sort_slots P (s ∷ rest) (h, all) =
    All-insert_slot P s (sort_slots rest) h (All-sort_slots P rest all)

In-insert_slot :
    (w s : SlotWatch) (slots : List SlotWatch) → In w (insert_slot s slots) ↔ In w (s ∷ slots)
unfolding insert_slot
In-insert_slot w s [] = (λ i. i, λ i. i)
In-insert_slot w s (t ∷ rest) = elim (Bool-cases (leb s.slot t.slot)) [
  | inl front ↦ rw front (λ i. i, λ i. i)
  | inr behind ↦
      let (from, to) = In-insert_slot w s rest in
      rw behind (
        λ i. elim i [
          | inl here ↦ inr (inl here)
          | inr later ↦ elim (from later) [ inl here ↦ inl here | inr there ↦ inr (inr there) ]
        ],
        λ i. elim i [
          | inl here ↦ inr (to (inl here))
          | inr (inl here) ↦ inl here
          | inr (inr there) ↦ inr (to (inr there))
        ],
      )
]

pub In-sort_slots : (w : SlotWatch) (slots : List SlotWatch) → In w (sort_slots slots) ↔ In w slots
unfolding sort_slots
In-sort_slots w [] = (λ i. i, λ i. i)
In-sort_slots w (s ∷ rest) =
    let (from, to) = In-insert_slot w s (sort_slots rest) in
    let (from', to') = In-sort_slots w rest in
    (
      λ i. elim (from i) [ inl here ↦ inl here | inr later ↦ inr (from' later) ],
      λ i. to (elim i [ inl here ↦ inl here | inr later ↦ inr (to' later) ]),
    )
