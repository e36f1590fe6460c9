-- ===== src/Feed/Extract.antt =====
-- `extract_changes` of src/feed.rs: the watched storage updates of an execution bundle. A bundle
-- is what the program reads of revm's `BundleState`: accounts by address, each with the answer of
-- `was_destroyed` and its storage, and for each slot the answers of `is_changed` and
-- `present_value`.
pub mod Slots
pub mod Searching
pub mod Indexes
pub mod Storage
pub mod Dictionary
pub mod Accounts
pub mod Bundles
use reth_statefeed.Prelude.{
  ℕ, zero, suc, ◌+◌, ◌-◌, ◌/◌, ltb, get_elem?, Bool, ◌||◌, Option, none, some, List, [], ◌∷◌, ◌++◌,
  length, is_empty, leb, ◌==◌, if◌then◌else◌,
}
use mathlib.Core.Option
use reth_statefeed.Prelude.Map.{Map, get}
use reth_statefeed.Watch.{WatchSet, AddressWatch, SlotWatch, SlotChange, address}

pub record StorageSlot : Type 0 where
  pub is_changed : Bool
  pub present_value : ℕ

pub record BundleAccount : Type 0 where
  pub was_destroyed : Bool
  pub storage : Map StorageSlot

abbrev pub BundleState : Type 0
BundleState = Map BundleAccount

-- What the loop over the watched slots pushes for one of them.
unfoldable pub watched_change : BundleAccount → SlotWatch → List SlotChange
watched_change account watched = elim (get account.storage watched.slot) [
  | some slot ↦
      if slot.is_changed || account.was_destroyed
      then record { key_id = watched.key_id; new_value = slot.present_value } ∷ []
      else []
  | none ↦
      if account.was_destroyed then record { key_id = watched.key_id; new_value = 0 } ∷ [] else []
]

unfoldable pub scan_watched : BundleAccount → List SlotWatch → List SlotChange
scan_watched account [] = []
scan_watched account (watched ∷ rest) = watched_change account watched ++ scan_watched account rest

-- Where the window begins after the slot in its middle is compared.
abbrev pub halve : ℕ → ℕ → ℕ → Option SlotWatch → ℕ
halve slot_key base mid none = base
halve slot_key base mid (some watched) = if ltb slot_key watched.slot then base else mid

-- The loop of `binary_search_by_key`: a window of the slots is halved until one slot is left. It
-- returns where that slot stands; each round takes at least one slot from the window.
unfoldable pub narrow : ℕ → List SlotWatch → ℕ → ℕ → ℕ → ℕ
narrow zero slots slot_key base size = base
narrow (suc fuel) slots slot_key base size =
    let half = size / 2 in
    let mid = base + half in
    let rest =
      narrow fuel slots slot_key (halve slot_key base mid (get_elem? slots mid)) (size - half) in
    if leb size 1 then base else rest

-- `binary_search_by_key` and the key id of the slot that it finds.
unfoldable pub find_slot : List SlotWatch → ℕ → Option ℕ
unfolding narrow
find_slot slots slot_key =
    elim (get_elem? slots (narrow (length slots) slots slot_key 0 (length slots))) [
      | none ↦ none
      | some watched ↦ if watched.slot == slot_key then some watched.key_id else none
    ]

unfoldable pub key_of_slot : AddressWatch → ℕ → Option ℕ
key_of_slot address_watch slot_key =
    if is_empty address_watch.slot_to_key
    then find_slot address_watch.slots slot_key
    else get address_watch.slot_to_key slot_key

-- What the loop over the storage pushes for one slot of it.
unfoldable pub stored_change : AddressWatch → ℕ → StorageSlot → List SlotChange
stored_change address_watch slot_key slot =
    if slot.is_changed
    then elim (key_of_slot address_watch slot_key) [
      | none ↦ []
      | some key_id ↦ record { key_id = key_id; new_value = slot.present_value } ∷ []
    ]
    else []

unfoldable pub scan_storage : AddressWatch → Map StorageSlot → List SlotChange
scan_storage address_watch [] = []
scan_storage address_watch ((slot_key, slot) ∷ rest) =
    stored_change address_watch slot_key slot ++ scan_storage address_watch rest

-- The changes that the function pushes; the smaller side is iterated.
unfoldable pub extract_account_changes : AddressWatch → BundleAccount → List SlotChange
extract_account_changes address_watch account =
    if account.was_destroyed || leb (length address_watch.slots) (length account.storage)
    then scan_watched account address_watch.slots
    else scan_storage address_watch account.storage

unfoldable pub scan_addresses : BundleState → List AddressWatch → List SlotChange
scan_addresses state [] = []
scan_addresses state (address_watch ∷ rest) =
    Option.get_or
      (Option.map (extract_account_changes address_watch) (get state address_watch.address)) []
    ++ scan_addresses state rest

unfoldable pub scan_accounts : WatchSet → BundleState → List SlotChange
scan_accounts watch_set [] = []
scan_accounts watch_set ((a, account) ∷ rest) =
    Option.get_or
      (Option.map (λ address_watch. extract_account_changes address_watch account)
        (address watch_set a))
      []
    ++ scan_accounts watch_set rest

unfoldable pub extract_changes : WatchSet → BundleState → List SlotChange
extract_changes watch_set state =
    if leb (length watch_set.addresses) (length state)
    then scan_addresses state watch_set.addresses
    else scan_accounts watch_set state
