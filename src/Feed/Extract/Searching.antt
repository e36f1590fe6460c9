-- ===== src/Feed/Extract/Searching.antt =====
-- The binary search of `extract_account_changes` in src/feed.rs over the sorted slots of an address.
use reth_statefeed.Prelude.{
  ℕ, zero, suc, ◌+◌, ◌-◌, ◌/◌, ◌≤◌, ◌<◌, ◌≡◌, ◌↔◌, Option, none, some, List, [], ◌∷◌, All, length,
  get_elem?, leb, ltb, ◌==◌, ==_iff, if◌then◌else◌, refl, sym, ap, ◌∙◌, subst, arith, Bool-cases,
  inl, inr,
}
use reth_statefeed.Watch.{SlotWatch}
use reth_statefeed.Feed.Extract.{halve, narrow, find_slot}
use reth_statefeed.Prelude.Members.{In, In-of_get_elem?, position_of}

-- Strictly sorted by slot.
abbrev pub IsAscending : List SlotWatch → Type 0
IsAscending [] = Unit
IsAscending (w ∷ rest) = All (λ later. w.slot < later.slot) rest × IsAscending rest

abbrev pub IsWatched : List SlotWatch → ℕ → ℕ → Type 0
IsWatched slots k id = (w : SlotWatch) × In w slots × (w.slot ≡ k) × (w.key_id ≡ id)

get_of_lt :
    (slots : List SlotWatch) (i : ℕ)
    → i < length slots
    → (w : SlotWatch) × (get_elem? slots i ≡ some w)
get_of_lt [] i h = absurd (omega arith)
get_of_lt (u ∷ slots) zero h = (u, refl)
get_of_lt (u ∷ slots) (suc i) h = get_of_lt slots i (omega arith)

above :
    (slots : List SlotWatch) (low : ℕ) (w : SlotWatch)
    → All (λ later. low < later.slot) slots
    → In w slots
    → low < w.slot
above [] low w all there = absurd there
above (u ∷ slots) low w (first, all) (inl same) = subst (λ x. low < x.slot) same first
above (u ∷ slots) low w (first, all) (inr later) = above slots low w all later

slots_in_order :
    (slots : List SlotWatch) (i j : ℕ) (v w : SlotWatch)
    → IsAscending slots
    → get_elem? slots i ≡ some v
    → get_elem? slots j ≡ some w
    → i < j
    → v.slot < w.slot
slots_in_order [] i j v w sorted hv hw h = cc
slots_in_order (u ∷ slots) i zero v w sorted hv hw h = absurd (omega arith)
slots_in_order (u ∷ slots) zero (suc j) v w (first, sorted) hv hw h =
    subst (λ x. x.slot < w.slot) (unwrap hv)
      (above slots u.slot w first (In-of_get_elem? slots j w hw))
  where
    unwrap : ◌≡◌ {A = Option SlotWatch} (some u) (some v) → u ≡ v
    unwrap h = cc
slots_in_order (u ∷ slots) (suc i) (suc j) v w (first, sorted) hv hw h =
    slots_in_order slots i j v w sorted hv hw (omega arith)

-- On which side of another slot a slot stands.
before_of_lt :
    (slots : List SlotWatch) (i j : ℕ) (w m : SlotWatch)
    → IsAscending slots
    → get_elem? slots i ≡ some w
    → get_elem? slots j ≡ some m
    → w.slot < m.slot
    → i < j
before_of_lt slots i j w m sorted hw hm h = elim (Bool-cases (ltb i j)) [
  | inl before ↦ ground arith
  | inr behind ↦ elim (Bool-cases (i == j)) [
    | inl same ↦ absurd (apart (unwrap (sym hw ∙ ap (get_elem? slots) ((==_iff i j).0 same) ∙ hm)))
    | inr differs ↦ absurd (later (slots_in_order slots j i m w sorted hm hw (ground arith)))
  ]
]
  where
    unwrap : ◌≡◌ {A = Option SlotWatch} (some w) (some m) → w.slot ≡ m.slot
    unwrap h = cc

    apart : w.slot ≡ m.slot → ⊥
    apart same = omega arith

    later : m.slot < w.slot → ⊥
    later h' = omega arith

behind_of_ge :
    (slots : List SlotWatch) (i j : ℕ) (w m : SlotWatch)
    → IsAscending slots
    → get_elem? slots i ≡ some w
    → get_elem? slots j ≡ some m
    → m.slot ≤ w.slot
    → j ≤ i
behind_of_ge slots i j w m sorted hw hm h = elim (Bool-cases (ltb i j)) [
  | inl before ↦ absurd (lower (slots_in_order slots i j w m sorted hw hm (ground arith)))
  | inr behind ↦ ground arith
]
  where
    lower : w.slot < m.slot → ⊥
    lower h' = omega arith

-- A round: the position stays in the window.
halve_lem :
    (slots : List SlotWatch) (base size i : ℕ) (w m : SlotWatch)
    → IsAscending slots
    → get_elem? slots i ≡ some w
    → get_elem? slots (base + size / 2) ≡ some m
    → base ≤ i
    → i < base + size
    → base + size ≤ length slots
    → 1 < size
    → (halve w.slot base (base + size / 2) (some m) ≤ i)
      × (i < halve w.slot base (base + size / 2) (some m) + (size - size / 2))
      × (halve w.slot base (base + size / 2) (some m) + (size - size / 2) ≤ length slots)
halve_lem slots base size i w m sorted hw hm low high fits more =
    elim (Bool-cases (ltb w.slot m.slot)) [
      | inl before ↦
          let side = before_of_lt slots i (base + size / 2) w m sorted hw hm (ground arith) in
          rw before (low, omega arith, omega arith)
      | inr behind ↦
          let side = behind_of_ge slots i (base + size / 2) w m sorted hw hm (ground arith) in
          rw behind (side, omega arith, omega arith)
    ]

-- The window keeps the position of a slot until it is the only one.
narrow_lem :
    (fuel : ℕ) (slots : List SlotWatch) (base size i : ℕ) (w : SlotWatch)
    → IsAscending slots
    → get_elem? slots i ≡ some w
    → base ≤ i
    → i < base + size
    → base + size ≤ length slots
    → size ≤ fuel + 1
    → narrow fuel slots w.slot base size ≡ i
unfolding narrow
narrow_lem zero slots base size i w sorted at low high fits enough = omega arith
narrow_lem (suc fuel) slots base size i w sorted at low high fits enough =
    elim (Bool-cases (leb size 1)) [
      | inl one ↦ rw one (ground arith)
      | inr more ↦
          let (m, here) = get_of_lt slots (base + size / 2) (ground arith) in
          let (low', high', fits') =
            halve_lem slots base size i w m sorted at here low high fits (ground arith) in
          rw (more, here)
            (narrow_lem fuel slots (halve w.slot base (base + size / 2) (some m)) (size - size / 2)
              i w sorted at low' high' fits' (ground arith))
    ]

-- The search finds the key of a slot of the list just where the list has the slot.
pub find_slot_iff :
    (slots : List SlotWatch) (k id : ℕ)
    → IsAscending slots
    → (find_slot slots k ≡ some id) ↔ IsWatched slots k id
unfolding find_slot
find_slot_iff slots k id sorted = (λ h. found (get_elem? slots i) refl h, there)
  where
    i : ℕ
    i = narrow (length slots) slots k 0 (length slots)

    found :
        (o : Option SlotWatch)
        → get_elem? slots i ≡ o
        → (elim o [ none ↦ none | some w ↦ if w.slot == k then some w.key_id else none ]) ≡ some id
        → IsWatched slots k id
    found none at h = cc
    found (some w) at h = (w, In-of_get_elem? slots i w at, ground arith, ground arith)

    there : IsWatched slots k id → find_slot slots k ≡ some id
    there (w, member, at_k, at_id) =
        let (j, small, at) = position_of slots w member in
        subst (λ key. find_slot slots key ≡ some id) at_k
          (rw
            (
              find_slot,
              narrow_lem (length slots) slots 0 (length slots) j w sorted at (omega arith)
                  (omega arith) (omega arith) (omega arith),
              at,
              (==_iff w.slot w.slot).1 refl,
            )
            (ap some at_id))
