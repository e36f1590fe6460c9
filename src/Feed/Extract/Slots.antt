-- ===== src/Feed/Extract/Slots.antt =====
-- `extract_account_changes` of src/feed.rs against the changes that are expected of an account: the
-- loop over the watched slots and the loop over the storage find the same.
use reth_statefeed.Prelude.{
  ℕ, ◌≡◌, ◌↔◌, Bool, true, false, ◌||◌, Option, none, some, List, [], ◌∷◌, if◌then◌else◌, refl, ap,
  ◌∙◌, Option-cases, inl, inr,
}
use reth_statefeed.Prelude.Members.{In, In-append}
use reth_statefeed.Prelude.Map.{get}
use reth_statefeed.Watch.{SlotWatch, SlotChange}
use reth_statefeed.Feed.Extract.{StorageSlot, BundleAccount, watched_change, scan_watched}

-- The new value that a block leaves at a slot of an account, where it is written or cleared.
abbrev pub present : Bool → Option StorageSlot → Option ℕ
present destroyed none = if destroyed then some 0 else none
present destroyed (some slot) =
    if slot.is_changed || destroyed then some slot.present_value else none

abbrev pub expected_in : BundleAccount → ℕ → Option ℕ
expected_in account slot = present account.was_destroyed (get account.storage slot)

-- The change is the expected one of a watched slot.
abbrev pub IsExpectedAt : BundleAccount → List SlotWatch → SlotChange → Type 0
IsExpectedAt account slots c =
    (w : SlotWatch) × In w slots
    × (w.key_id ≡ c.key_id)
    × (expected_in account w.slot ≡ some c.new_value)

pub one_change :
    (k v : ℕ) (c : SlotChange)
    → In c (record { key_id = k; new_value = v } ∷ [])
      ↔ ((k ≡ c.key_id) × (◌≡◌ {A = Option ℕ} (some v) (some c.new_value)))
one_change k v c = (
  λ i. elim i [
    | inl same ↦ (ap (λ d. d.key_id) same, ap (λ d. some d.new_value) same)
    | inr none_there ↦ absurd none_there
  ],
  λ (key, value). inl (both key (unwrap value)),
)
  where
    unwrap : ◌≡◌ {A = Option ℕ} (some v) (some c.new_value) → v ≡ c.new_value
    unwrap h = cc

    both : k ≡ c.key_id → v ≡ c.new_value → record { key_id = k; new_value = v } ≡ c
    both h h' =
        ap (λ n. record { key_id = n; new_value = v }) h
        ∙ ap (λ n. record { key_id = c.key_id; new_value = n }) h'

no_change :
    (k : ℕ) (c : SlotChange)
    → In c [] ↔ ((k ≡ c.key_id) × (◌≡◌ {A = Option ℕ} none (some c.new_value)))
no_change k c = (λ none_there. absurd none_there, λ (key, value). cc)

watched_change_iff :
    (account : BundleAccount) (w : SlotWatch) (c : SlotChange)
    → In c (watched_change account w)
      ↔ ((w.key_id ≡ c.key_id) × (expected_in account w.slot ≡ some c.new_value))
unfolding watched_change
watched_change_iff account w c = elim (Option-cases (get account.storage w.slot)) [
  | inl missing ↦ rw (watched_change, missing) (at_missing account.was_destroyed)
  | inr (slot, there) ↦
      rw (watched_change, there)
        (at_slot (slot.is_changed || account.was_destroyed) slot.present_value)
]
  where
    at_missing :
        (destroyed : Bool)
        → In c (if destroyed then record { key_id = w.key_id; new_value = 0 } ∷ [] else []) ↔ (
            (w.key_id ≡ c.key_id)
            × (◌≡◌ {A = Option ℕ} (if destroyed then some 0 else none) (some c.new_value)))
    at_missing true = one_change w.key_id 0 c
    at_missing false = no_change w.key_id c

    at_slot :
        (kept : Bool) (v : ℕ)
        → In c (if kept then record { key_id = w.key_id; new_value = v } ∷ [] else []) ↔ (
            (w.key_id ≡ c.key_id)
            × (◌≡◌ {A = Option ℕ} (if kept then some v else none) (some c.new_value)))
    at_slot true v = one_change w.key_id v c
    at_slot false v = no_change w.key_id c

pub scan_watched_iff :
    (account : BundleAccount) (slots : List SlotWatch) (c : SlotChange)
    → In c (scan_watched account slots) ↔ IsExpectedAt account slots c
unfolding scan_watched
scan_watched_iff account [] c =
    (λ none_there. absurd none_there, λ (w, none_there, _, _). none_there)
scan_watched_iff account (w ∷ slots) c =
    let (split, join) = In-append c (watched_change account w) (scan_watched account slots) in
    let (from, to) = watched_change_iff account w c in
    let (from', to') = scan_watched_iff account slots c in
    (
      λ i. elim (split i) [
        | inl here ↦ let (key, value) = from here in (w, inl refl, key, value)
        | inr later ↦ let (w', there, key, value) = from' later in (w', inr there, key, value)
      ],
      λ (w', there, key, value). join (elim there [
        | inl same ↦
            inl (
              to (ap (λ x. x.key_id) same ∙ key, ap (λ x. expected_in account x.slot) same ∙ value))
        | inr later ↦ inr (to' (w', later, key, value))
      ]),
    )
