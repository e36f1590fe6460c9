-- ===== src/Feed/Extract/Bundles.antt =====
-- `extract_changes` of src/feed.rs: the changes of a bundle.
use reth_statefeed.Prelude.{
  ℕ, ◌≡◌, ◌↔◌, Option, none, some, List, [], ◌∷◌, map, All, length, leb, refl, sym, ap, ◌∙◌, subst,
  Bool-cases, inl, inr,
}
use reth_statefeed.Prelude.Map.{get}
use reth_statefeed.Watch.{
  WatchConfig, WatchKey, SlotChange, number_keys, group_keys, address_watch, compile,
}
use reth_statefeed.Watch.Lookup.{slots_of}
use reth_statefeed.Config.Validated.{AreDistinct}
use reth_statefeed.Feed.Extract.{
  BundleAccount, BundleState, extract_account_changes, scan_addresses, scan_accounts,
  extract_changes,
}
use reth_statefeed.Prelude.Members.{IsUnique, In-of_get, get-of_In, In}
use reth_statefeed.Feed.Extract.Slots.{expected_in}
use reth_statefeed.Feed.Extract.Accounts.{
  expected_of, IsBundle, IsChangeAt, extract_iff, scan_accounts_iff, scan_addresses_iff, In-map,
  address_of, In-grouped, In-of_key,
}

-- A change is the expected one of a configured key.
abbrev pub IsExpected : List WatchConfig → BundleState → SlotChange → Type 0
IsExpected configured state c =
    (key : WatchKey) × In key (number_keys 0 configured)
    × (key.key_id ≡ c.key_id)
    × (expected_of (get state key.address) key.slot ≡ some c.new_value)

storage_of :
    (state : BundleState) (a : ℕ) (account : BundleAccount)
    → All (λ entry. IsUnique entry.1.storage) state
    → In (a, account) state
    → IsUnique account.storage
storage_of [] a account all there = absurd there
storage_of (entry ∷ state) a account (unique, all) (inl same) =
    subst (λ e. IsUnique e.1.storage) same unique
storage_of (entry ∷ state) a account (unique, all) (inr later) =
    storage_of state a account all later

account_of :
    (found : Option BundleAccount) (slot v : ℕ)
    → expected_of found slot ≡ some v
    → (account : BundleAccount) × (found ≡ some account) × (expected_in account slot ≡ some v)
account_of none slot v h = cc
account_of (some account) slot v h = (account, refl, h)

module _ (generation : ℕ) (configured : List WatchConfig) (distinct : AreDistinct configured)
    (state : BundleState) (bundle : IsBundle state) (c : SlotChange) where
  -- A change at an account of the bundle.
  IsExpected-at :
      (a : ℕ) (account : BundleAccount)
      → get state a ≡ some account
      → IsChangeAt generation configured distinct a account c
      → IsExpected configured state c
  IsExpected-at a account found (key, there, at_a, at_id, value) = (
    key,
    there,
    at_id,
    ap (λ b. expected_of (get state b) key.slot) at_a
        ∙ ap (λ o. expected_of o key.slot) found
        ∙ value,
  )

  IsUnique-at :
      (a : ℕ) (account : BundleAccount) → get state a ≡ some account → IsUnique account.storage
  IsUnique-at a account found =
      storage_of state a account bundle.1 (In-of_get state a account found)

  scan_addresses-IsExpected :
      In c (scan_addresses state (map address_watch (group_keys [] (number_keys 0 configured))))
      ↔ IsExpected configured state c
  scan_addresses-IsExpected =
      let aws = map address_watch (group_keys [] (number_keys 0 configured)) in
      let (from, to) = scan_addresses_iff generation configured distinct state aws c in
      (
        λ i.
            let (aw, account, there, found, change) = from i in
            let (a, slots, entry, same) =
              (In-map generation configured distinct (group_keys [] (number_keys 0 configured))
                  aw).0
                there in
            let whole : address_watch (a, slots_of a (number_keys 0 configured)) ≡ aw =
              ap (λ l. address_watch (a, l))
                (In-grouped generation configured distinct a slots entry)
              ∙ same in
            let found' : get state a ≡ some account =
              ap (get state)
                (sym (address_of generation configured distinct a slots) ∙ ap (λ x. x.address) same)
              ∙ found in
            IsExpected-at a account found' (
              (extract_iff generation configured distinct a account c
                  (IsUnique-at a account found')).0
                (subst (λ x. In c (extract_account_changes x account)) (sym whole) change)),
        λ (key, there, at_id, value).
            let (account, found, value') =
              account_of (get state key.address) key.slot c.new_value value in
            let entry =
              address_watch (key.address, slots_of key.address (number_keys 0 configured)) in
            to (
              entry,
              account,
              (In-map generation configured distinct (group_keys [] (number_keys 0 configured))
                    entry).1
                  (
                    key.address,
                    slots_of key.address (number_keys 0 configured),
                    In-of_key generation configured distinct key there,
                    refl,
                  ),
              ap (get state) (
                    address_of generation configured distinct key.address
                      (slots_of key.address (number_keys 0 configured)))
                  ∙ found,
              (extract_iff generation configured distinct key.address account c
                    (IsUnique-at key.address account found)).1
                  (key, there, refl, at_id, value'),
            ),
      )

  scan_accounts-IsExpected :
      In c (scan_accounts (compile generation configured) state) ↔ IsExpected configured state c
  scan_accounts-IsExpected =
      let (from, to) = scan_accounts_iff generation configured distinct state c bundle.1 in
      (
        λ i.
            let (a, account, there, change) = from i in
            IsExpected-at a account (get-of_In state a account bundle.0 there) change,
        λ (key, there, at_id, value).
            let (account, found, value') =
              account_of (get state key.address) key.slot c.new_value value in
            to (
              key.address,
              account,
              In-of_get state key.address account found,
              (key, there, refl, at_id, value'),
            ),
      )

-- On the dictionary that `compile` makes of a configuration whose keys have names and storage
-- coordinates of their own, and on a bundle with each account and each slot once, a change is pushed
-- by `extract_changes` if and only if it is the expected one of a key: under the key's dense id, the
-- present value where the slot is written or its account destroyed, and zero where the account is
-- destroyed and the slot is not in the bundle. Neither the side that is scanned nor the index by hash
-- matters.
pub extract_changes_iff :
    (generation : ℕ) (configured : List WatchConfig) (state : BundleState) (c : SlotChange)
    → AreDistinct configured
    → IsBundle state
    → In c (extract_changes (compile generation configured) state) ↔ IsExpected configured state c
unfolding extract_changes compile
extract_changes_iff generation configured state c distinct bundle =
    elim (Bool-cases (leb (length (compile generation configured).addresses) (length state))) [
      | inl few ↦
          rw (extract_changes, few)
            (scan_addresses-IsExpected generation configured distinct state bundle c)
      | inr many ↦
          rw (extract_changes, many)
            (scan_accounts-IsExpected generation configured distinct state bundle c)
    ]
