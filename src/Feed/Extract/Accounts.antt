-- ===== src/Feed/Extract/Accounts.antt =====
-- `extract_changes` of src/feed.rs on a compiled dictionary: whichever side is scanned, it finds the
-- changes that are expected of the configured keys.
use reth_statefeed.Prelude.{
  ℕ, ◌≡◌, ◌≢◌, ◌<◌, ◌↔◌, Option, none, some, List, [], ◌∷◌, map, All, refl, sym, ap, ◌∙◌, subst,
  arith, Option-cases, inl, inr,
}
use mathlib.Core.Option
use reth_statefeed.Prelude.Map.{Map, get}
use reth_statefeed.Watch.{
  WatchConfig, WatchKey, SlotWatch, AddressWatch, SlotChange, number_keys, group_keys,
  address_watch, compile, address,
}
use reth_statefeed.Watch.Grouping.{IsSorted}
use reth_statefeed.Watch.Lookup.{
  slots_of, filed, address-compile, IsSorted-group_keys, get-group_keys, get_of_empty,
}
use reth_statefeed.Config.Validated.{AreDistinct}
use reth_statefeed.Feed.Extract.{
  BundleAccount, BundleState, extract_account_changes, scan_addresses, scan_accounts,
}
use reth_statefeed.Prelude.Members.{IsUnique, In-of_get, get-of_In, In, In-append}
use reth_statefeed.Feed.Extract.Slots.{expected_in}
use reth_statefeed.Feed.Extract.Storage.{extract_account_changes_iff}
use reth_statefeed.Feed.Extract.Dictionary.{ArePlaced, ArePlaced-number_keys, address_watch_lem}
use reth_statefeed.Watch.Entries.{In-slots_of}

-- The new value that a bundle leaves at a storage coordinate, where it is written or cleared.
abbrev pub expected_of : Option BundleAccount → ℕ → Option ℕ
expected_of none slot = none
expected_of (some account) slot = expected_in account slot

-- A bundle with each account, and each slot of an account, once.
abbrev pub IsBundle : BundleState → Type 0
IsBundle state = IsUnique state × All (λ entry. IsUnique entry.1.storage) state

IsUnique-of_IsSorted : (grouped : Map (List SlotWatch)) → IsSorted grouped → IsUnique grouped
IsUnique-of_IsSorted [] sorted = tt
IsUnique-of_IsSorted ((a, slots) ∷ rest) (above, sorted) =
    (apart rest above, IsUnique-of_IsSorted rest sorted)
  where
    apart : (m : Map (List SlotWatch)) → All (λ later. a < later.0) m → All (λ later. a ≢ later.0) m
    apart [] all = tt
    apart (entry ∷ m) (h, all) = ((λ same. omega arith), apart m all)

module _ (generation : ℕ) (configured : List WatchConfig) (distinct : AreDistinct configured) where
  abbrev pub keys : List WatchKey
  keys = number_keys 0 configured

  placed : ArePlaced keys
  placed = ArePlaced-number_keys 0 configured distinct

  -- A change of a key of an address.
  abbrev pub IsChangeAt : ℕ → BundleAccount → SlotChange → Type 0
  IsChangeAt a account c =
      (key : WatchKey) × In key keys
      × (key.address ≡ a)
      × (key.key_id ≡ c.key_id)
      × (expected_in account key.slot ≡ some c.new_value)

  pub extract_iff :
      (a : ℕ) (account : BundleAccount) (c : SlotChange)
      → IsUnique account.storage
      → In c (extract_account_changes (address_watch (a, slots_of a keys)) account)
        ↔ IsChangeAt a account c
  extract_iff a account c unique =
      let (slots, indexed, members) = address_watch_lem a keys placed in
      let (from, to) =
        extract_account_changes_iff (address_watch (a, slots_of a keys)) account c unique slots
          indexed in
      (
        λ i.
            let (w, watched, at_id, value) = from i in
            let (key, there, at_a, at_slot, same_id) = (members w).0 watched in
            (key, there, at_a, same_id ∙ at_id, ap (expected_in account) at_slot ∙ value),
        λ (key, there, at_a, at_id, value). to (
          record { slot = key.slot; key_id = key.key_id },
          (members (record { slot = key.slot; key_id = key.key_id })).1
              (key, there, at_a, refl, refl),
          at_id,
          value,
        ),
      )

  -- The account of an address that may have no entry in the dictionary.
  abbrev changes_at : ℕ → BundleAccount → List SlotChange
  changes_at a account =
      Option.get_or
        (Option.map (λ aw. extract_account_changes aw account)
          (address (compile generation configured) a))
        []

  changes_at_iff :
      (a : ℕ) (account : BundleAccount) (c : SlotChange)
      → IsUnique account.storage
      → In c (changes_at a account) ↔ IsChangeAt a account c
  changes_at_iff a account c unique =
      rw (address-compile generation configured a) (by_slots (slots_of a keys) refl)
    where
      by_slots :
          (slots : List SlotWatch)
          → slots_of a keys ≡ slots
          → In c (
              Option.get_or
                (Option.map
                  (λ aw. extract_account_changes aw account)
                  (Option.map (λ slots. address_watch (a, slots)) (filed none slots)))
                [])
            ↔ IsChangeAt a account c
      by_slots [] same = (
        λ none_there. absurd none_there,
        λ (key, there, at_a, at_id, value).
            subst (In (record { slot = key.slot; key_id = key.key_id })) same (
              (In-slots_of a keys (record { slot = key.slot; key_id = key.key_id })).1
                (key, there, at_a, refl, refl)),
      )
      by_slots (s ∷ slots) same =
          subst
            (λ l.
              In c (extract_account_changes (address_watch (a, l)) account)
              ↔ IsChangeAt a account c)
            same (extract_iff a account c unique)

  pub scan_accounts_iff :
      (entries : BundleState) (c : SlotChange)
      → All (λ entry. IsUnique entry.1.storage) entries
      → In c (scan_accounts (compile generation configured) entries)
        ↔ ((a : ℕ) × (account : BundleAccount) × In (a, account) entries × IsChangeAt a account c)
  unfolding scan_accounts
  scan_accounts_iff [] c all =
      (λ none_there. absurd none_there, λ (_, _, none_there, _). absurd none_there)
  scan_accounts_iff ((a, account) ∷ rest) c (unique, all) =
      let (split, join) =
        In-append c (changes_at a account) (scan_accounts (compile generation configured) rest) in
      let (from, to) = changes_at_iff a account c unique in
      let (from', to') = scan_accounts_iff rest c all in
      (
        λ i. elim (split i) [
          | inl here ↦ (a, account, inl refl, from here)
          | inr later ↦
              let (b, account', there, change) = from' later in (b, account', inr there, change)
        ],
        λ (b, account', there, change). join (elim there [
          | inl same ↦ inl (to (subst (λ e. IsChangeAt e.0 e.1 c) (sym same) change))
          | inr later ↦ inr (to' (b, account', later, change))
        ]),
      )

  -- What the loop over the dictionary pushes for one entry.
  abbrev changes_of : BundleState → AddressWatch → List SlotChange
  changes_of state aw =
      Option.get_or (Option.map (extract_account_changes aw) (get state aw.address)) []

  abbrev pub IsScanned : BundleState → List AddressWatch → SlotChange → Type 0
  IsScanned state aws c =
      (aw : AddressWatch) × (account : BundleAccount) × In aw aws
      × (get state aw.address ≡ some account)
      × In c (extract_account_changes aw account)

  changes_of_iff :
      (state : BundleState) (aw : AddressWatch) (c : SlotChange)
      → In c (changes_of state aw) ↔ (
          (account : BundleAccount) × (get state aw.address ≡ some account)
          × In c (extract_account_changes aw account))
  changes_of_iff state aw c = elim (Option-cases (get state aw.address)) [
    | inl missing ↦ rw missing (λ none_there. absurd none_there, λ (_, found, _). cc)
    | inr (account, there) ↦ rw there (
      λ i. (account, refl, i),
      λ (account', found, i).
          subst (λ b. In c (extract_account_changes aw b)) (sym (unwrap account account' found)) i,
    )
  ]
    where
      unwrap : (a b : BundleAccount) → ◌≡◌ {A = Option BundleAccount} (some a) (some b) → a ≡ b
      unwrap a b h = cc

  pub scan_addresses_iff :
      (state : BundleState) (aws : List AddressWatch) (c : SlotChange)
      → In c (scan_addresses state aws) ↔ IsScanned state aws c
  unfolding scan_addresses
  scan_addresses_iff state [] c =
      (λ none_there. absurd none_there, λ (_, _, none_there, _, _). absurd none_there)
  scan_addresses_iff state (aw ∷ rest) c =
      let (split, join) = In-append c (changes_of state aw) (scan_addresses state rest) in
      let (from, to) = changes_of_iff state aw c in
      let (from', to') = scan_addresses_iff state rest c in
      (
        λ i. elim (split i) [
          | inl here ↦
              let (account, found, change) = from here in (aw, account, inl refl, found, change)
          | inr later ↦
              let (aw', account, there, found, change) = from' later in
              (aw', account, inr there, found, change)
        ],
        λ (aw', account, there, found, change). join (elim there [
          | inl same ↦ inl (
              to (
                account,
                ap (λ x. get state x.address) same ∙ found,
                subst (λ x. In c (extract_account_changes x account)) (sym same) change,
              ))
          | inr later ↦ inr (to' (aw', account, later, found, change))
        ]),
      )

  pub In-map :
      (grouped : Map (List SlotWatch)) (aw : AddressWatch)
      → In aw (map address_watch grouped) ↔ (
          (a : ℕ) × (slots : List SlotWatch) × In (a, slots) grouped
          × (address_watch (a, slots) ≡ aw))
  In-map [] aw = (λ none_there. absurd none_there, λ (_, _, none_there, _). absurd none_there)
  In-map ((b, slots) ∷ rest) aw =
      let (from, to) = In-map rest aw in
      (
        λ i. elim i [
          | inl here ↦ (b, slots, inl refl, here)
          | inr later ↦ let (a, slots', there, same) = from later in (a, slots', inr there, same)
        ],
        λ (a, slots', there, same). elim there [
          | inl here ↦ inl (ap address_watch here ∙ same)
          | inr later ↦ inr (to (a, slots', later, same))
        ],
      )

  pub address_of : (a : ℕ) (slots : List SlotWatch) → (address_watch (a, slots)).address ≡ a
  unfolding address_watch
  address_of a slots = refl

  -- The entries of the dictionary are those of the addresses of the keys.
  pub In-grouped :
      (a : ℕ) (slots : List SlotWatch)
      → In (a, slots) (group_keys [] keys)
      → slots_of a keys ≡ slots
  In-grouped a slots there = filed_same (slots_of a keys) (
      ap (λ o. filed o (slots_of a keys)) (sym (get_of_empty a))
      ∙ sym (get-group_keys keys [] a tt)
      ∙ get-of_In (group_keys [] keys) a slots
          (IsUnique-of_IsSorted (group_keys [] keys) (IsSorted-group_keys keys [] tt)) there)
    where
      filed_same : (l : List SlotWatch) → filed none l ≡ some slots → l ≡ slots
      filed_same [] h = cc
      filed_same (s ∷ l) h = cc

  pub In-of_key :
      (key : WatchKey)
      → In key keys
      → In (key.address, slots_of key.address keys) (group_keys [] keys)
  In-of_key key there = In-of_get (group_keys [] keys) key.address (slots_of key.address keys) (
      get-group_keys keys [] key.address tt
      ∙ ap (λ o. filed o (slots_of key.address keys)) (get_of_empty key.address)
      ∙ filed_some (slots_of key.address keys) refl)
    where
      filed_some : (l : List SlotWatch) → slots_of key.address keys ≡ l → filed none l ≡ some l
      filed_some [] same = absurd (
          subst (In (record { slot = key.slot; key_id = key.key_id })) same (
            (In-slots_of key.address keys (record { slot = key.slot; key_id = key.key_id })).1
              (key, there, refl, refl, refl)))
      filed_some (s ∷ l) same = refl
