-- ===== src/Feed/Extract/Storage.antt =====
-- The loop of `extract_account_changes` in src/feed.rs over the storage of an account.
use reth_statefeed.Prelude.{
  ℕ, ◌≡◌, ◌↔◌, Bool, true, false, ◌||◌, Option, none, some, [], ◌∷◌, length, leb, refl, ap, ◌∙◌,
  subst, arith, Bool-cases, Option-cases, inl, inr,
}
use reth_statefeed.Prelude.Map.{Map, get}
use reth_statefeed.Watch.{AddressWatch, SlotChange}
use reth_statefeed.Feed.Extract.{
  StorageSlot, BundleAccount, key_of_slot, stored_change, scan_storage, extract_account_changes,
}
use reth_statefeed.Feed.Extract.Searching.{IsAscending}
use reth_statefeed.Prelude.Members.{IsUnique, In-of_get, get-of_In, In, In-append}
use reth_statefeed.Feed.Extract.Slots.{
  one_change, present, expected_in, IsExpectedAt, scan_watched_iff,
}
use reth_statefeed.Feed.Extract.Indexes.{IsIndexed, key_of_slot_iff}

stored_change_iff :
    (aw : AddressWatch) (k : ℕ) (slot : StorageSlot) (c : SlotChange)
    → In c (stored_change aw k slot) ↔ (
        (slot.is_changed ≡ true)
        × (key_of_slot aw k ≡ some c.key_id)
        × (slot.present_value ≡ c.new_value))
unfolding stored_change
stored_change_iff aw k slot c = elim (Bool-cases slot.is_changed) [
  | inr same ↦ rw (stored_change, same) (λ none_there. absurd none_there, λ (changed, _, _). cc)
  | inl changed ↦
      rw (stored_change, changed)
        (elim (Option-cases (key_of_slot aw k)) [
          | inl missing ↦ rw missing (λ none_there. absurd none_there, λ (_, found, _). cc)
          | inr (id, there) ↦ rw there (kept id slot.present_value)
        ])
]
  where
    unwrap : (a b : ℕ) → ◌≡◌ {A = Option ℕ} (some a) (some b) → a ≡ b
    unwrap a b h = cc

    kept :
        (id v : ℕ)
        → In c (record { key_id = id; new_value = v } ∷ [])
          ↔ ((true ≡ true) × (◌≡◌ {A = Option ℕ} (some id) (some c.key_id)) × (v ≡ c.new_value))
    kept id v =
        let (from, to) = one_change id v c in
        (
          λ i. let (key, value) = from i in (refl, ap some key, unwrap v c.new_value value),
          λ (_, key, value). to (unwrap id c.key_id key, ap some value),
        )

-- What is pushed in the loop over entries of the storage.
abbrev IsStored : AddressWatch → Map StorageSlot → SlotChange → Type 0
IsStored aw entries c =
    (k : ℕ) × (slot : StorageSlot) × In (k, slot) entries
    × (slot.is_changed ≡ true)
    × (key_of_slot aw k ≡ some c.key_id)
    × (slot.present_value ≡ c.new_value)

scan_storage_iff :
    (aw : AddressWatch) (entries : Map StorageSlot) (c : SlotChange)
    → In c (scan_storage aw entries) ↔ IsStored aw entries c
unfolding scan_storage
scan_storage_iff aw [] c =
    (λ none_there. absurd none_there, λ (_, _, none_there, _, _, _). absurd none_there)
scan_storage_iff aw ((j, slot) ∷ rest) c =
    let (split, join) = In-append c (stored_change aw j slot) (scan_storage aw rest) in
    let (from, to) = stored_change_iff aw j slot c in
    let (from', to') = scan_storage_iff aw rest c in
    (
      λ i. elim (split i) [
        | inl here ↦
            let (changed, key, value) = from here in (j, slot, inl refl, changed, key, value)
        | inr later ↦
            let (k, slot', there, changed, key, value) = from' later in
            (k, slot', inr there, changed, key, value)
      ],
      λ (k, slot', there, changed, key, value). join (elim there [
        | inl same ↦ inl (
            to (
              ap (λ e. e.1.is_changed) same ∙ changed,
              ap (λ e. key_of_slot aw e.0) same ∙ key,
              ap (λ e. e.1.present_value) same ∙ value,
            ))
        | inr later ↦ inr (to' (k, slot', later, changed, key, value))
      ]),
    )

present-changed :
    (o : Option StorageSlot) (v : ℕ)
    → present false o ≡ some v
    → (slot : StorageSlot) × (o ≡ some slot) × (slot.is_changed ≡ true) × (slot.present_value ≡ v)
present-changed none v h = cc
present-changed (some slot) v h = (slot, refl, ground arith, ground arith)

-- An account that is not destroyed, with each slot of its storage once: the smaller side may be
-- scanned.
scan_storage-IsExpectedAt :
    (aw : AddressWatch) (account : BundleAccount) (c : SlotChange)
    → account.was_destroyed ≡ false
    → IsUnique account.storage
    → IsAscending aw.slots
    → IsIndexed aw
    → In c (scan_storage aw account.storage) ↔ IsExpectedAt account aw.slots c
scan_storage-IsExpectedAt aw account c alive unique sorted indexed =
    let (from, to) = scan_storage_iff aw account.storage c in
    (
      λ i.
          let (k, slot, there, changed, key, value) = from i in
          let (w, watched, at_k, at_id) = (key_of_slot_iff aw k c.key_id sorted indexed).0 key in
          (
            w,
            watched,
            at_id,
            ap (expected_in account) at_k
                ∙ ap (present account.was_destroyed) (get-of_In account.storage k slot unique there)
                ∙ still account.was_destroyed slot changed
                ∙ ap some value,
          ),
      λ (w, watched, key, value).
          let (slot, there, changed, same) =
            present-changed (get account.storage w.slot) c.new_value (
              subst (λ d. present d (get account.storage w.slot) ≡ some c.new_value) alive value) in
          to (
            w.slot,
            slot,
            In-of_get account.storage w.slot slot there,
            changed,
            (key_of_slot_iff aw w.slot c.key_id sorted indexed).1 (w, watched, refl, key),
            same,
          ),
    )
  where
    still :
        (d : Bool) (slot : StorageSlot)
        → slot.is_changed ≡ true
        → present d (some slot) ≡ some slot.present_value
    still d slot changed = ground arith

-- The changes of an account are those that are expected of its watched slots, whichever side is
-- scanned.
pub extract_account_changes_iff :
    (aw : AddressWatch) (account : BundleAccount) (c : SlotChange)
    → IsUnique account.storage
    → IsAscending aw.slots
    → IsIndexed aw
    → In c (extract_account_changes aw account) ↔ IsExpectedAt account aw.slots c
unfolding extract_account_changes
extract_account_changes_iff aw account c unique sorted indexed =
    elim (Bool-cases (account.was_destroyed || leb (length aw.slots) (length account.storage))) [
      | inl watched ↦ rw (extract_account_changes, watched) (scan_watched_iff account aw.slots c)
      | inr stored ↦
          rw (extract_account_changes, stored)
            (scan_storage-IsExpectedAt aw account c (ground arith) unique sorted indexed)
    ]
