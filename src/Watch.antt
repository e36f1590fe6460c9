-- ===== src/Watch.antt =====
-- src/watch.rs: the immutable dictionary of watched storage slots. Addresses, slots and values are
-- numbers (20 and 32 bytes wide in the program). A `BTreeMap` is an association list that is
-- sorted by its keys.
pub mod Matching
pub mod Grouping
pub mod Lookup
pub mod Sorting
pub mod Entries
use text.Mathlib.Text.{◌==◌ as str_eq}
use reth_statefeed.Prelude.{
  ℕ, suc, ◌%◌, Bool, true, ◌&&◌, Option, none, some, String, List, [], ◌∷◌, ◌++◌, map, length,
  is_empty, get_elem?, ltb, leb, ◌==◌, if◌then◌else◌, u32_mod,
}
use reth_statefeed.Prelude.Map.{Map, get, insert}

-- `WatchConfig` of src/config.rs.
pub record WatchConfig : Type 0 where
  pub id : String
  pub address : ℕ
  pub slot : ℕ

pub record WatchKey : Type 0 where
  pub key_id : ℕ
  pub id : String
  pub address : ℕ
  pub slot : ℕ

pub record SlotWatch : Type 0 where
  pub slot : ℕ
  pub key_id : ℕ

pub record AddressWatch : Type 0 where
  pub address : ℕ
  pub slots : List SlotWatch
  pub slot_to_key : Map ℕ

pub record WatchSet : Type 0 where
  pub generation : ℕ
  pub keys : List WatchKey
  pub addresses : List AddressWatch
  pub address_to_index : Map ℕ

pub record SlotChange : Type 0 where
  pub key_id : ℕ
  pub new_value : ℕ

abbrev pub slot_hash_index_threshold : ℕ
slot_hash_index_threshold = 8

-- The first loop of `compile`: a dense id for each configured key.
unfoldable pub number_keys : ℕ → List WatchConfig → List WatchKey
number_keys index [] = []
number_keys index (key ∷ rest) =
    record { key_id = index % u32_mod; id = key.id; address = key.address; slot = key.slot }
    ∷ number_keys (suc index) rest

-- `grouped.entry(address).or_default().push(slot)`.
unfoldable pub push_grouped : List (ℕ × List SlotWatch) → ℕ → SlotWatch → List (ℕ × List SlotWatch)
push_grouped [] address slot = (address, slot ∷ []) ∷ []
push_grouped ((a, slots) ∷ rest) address slot =
    let later = (a, slots) ∷ push_grouped rest address slot in
    if address == a
    then (a, slots ++ slot ∷ []) ∷ rest
    else if ltb address a
    then (address, slot ∷ []) ∷ (a, slots) ∷ rest
    else later

unfoldable pub group_keys : List (ℕ × List SlotWatch) → List WatchKey → List (ℕ × List SlotWatch)
unfolding push_grouped
group_keys grouped [] = grouped
group_keys grouped (key ∷ rest) =
    group_keys (push_grouped grouped key.address (record { slot = key.slot; key_id = key.key_id }))
      rest

-- `sort_unstable_by_key`: the order of equal slots is one that the program may choose.
unfoldable pub insert_slot : SlotWatch → List SlotWatch → List SlotWatch
insert_slot s [] = s ∷ []
insert_slot s (t ∷ rest) =
    let later = t ∷ insert_slot s rest in if leb s.slot t.slot then s ∷ t ∷ rest else later

unfoldable pub sort_slots : List SlotWatch → List SlotWatch
unfolding insert_slot
sort_slots [] = []
sort_slots (s ∷ rest) = insert_slot s (sort_slots rest)

-- `slots.iter().map(..).collect()` into a hash map: a later entry replaces an earlier one.
unfoldable pub collect_slots : Map ℕ → List SlotWatch → Map ℕ
collect_slots m [] = m
collect_slots m (s ∷ rest) = collect_slots (insert m s.slot s.key_id) rest

unfoldable pub address_watch : ℕ × List SlotWatch → AddressWatch
unfolding sort_slots collect_slots
address_watch (address, unsorted) =
    let slots = sort_slots unsorted in
    record {
      address = address;
      slots = slots;
      slot_to_key =
          if ltb slot_hash_index_threshold (length slots) then collect_slots [] slots else [];
    }

unfoldable pub index_addresses : ℕ → Map ℕ → List AddressWatch → Map ℕ
index_addresses index m [] = m
index_addresses index m (watch ∷ rest) =
    index_addresses (suc index) (insert m watch.address index) rest

unfoldable pub compile : ℕ → List WatchConfig → WatchSet
unfolding number_keys group_keys address_watch index_addresses
compile generation configured =
    let keys = number_keys 0 configured in
    let addresses = map address_watch (group_keys [] keys) in
    record {
      generation = generation;
      keys = keys;
      addresses = addresses;
      address_to_index = index_addresses 0 [] addresses;
    }

-- The configured slots of an address, if the account is watched.
unfoldable pub address : WatchSet → ℕ → Option AddressWatch
address w a = elim (get w.address_to_index a) [
  | none ↦ none
  | some index ↦ get_elem? w.addresses index
]

abbrev pub len : WatchSet → ℕ
len w = length w.keys

abbrev pub has_no_keys : WatchSet → Bool
has_no_keys w = is_empty w.keys

-- One entry of the dictionary against one of a configuration.
unfoldable pub matches_key : WatchKey → WatchConfig → Bool
matches_key active configured =
    str_eq active.id configured.id
    && (active.address == configured.address && active.slot == configured.slot)

unfoldable pub all_match : List WatchKey → List WatchConfig → Bool
unfolding matches_key
all_match [] configured = true
all_match (k ∷ ks) [] = true
all_match (k ∷ ks) (c ∷ cs) = matches_key k c && all_match ks cs

unfoldable pub matches_config : WatchSet → List WatchConfig → Bool
unfolding all_match
matches_config w configured = length w.keys == length configured && all_match w.keys configured
