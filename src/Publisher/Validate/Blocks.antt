-- ===== src/Publisher/Validate/Blocks.antt =====
-- From the bundle of a block to its packed values: `extract_changes` of src/feed.rs, then the loop of
-- `project_candidate` in src/publisher.rs.
use reth_statefeed.Prelude.{
  ℕ, suc, ◌+◌, ◌*◌, ◌^◌, ◌≤◌, ◌<◌, ◌≡◌, ◌≢◌, ◌⊎◌, false, Option, none, some, or_else, List, [], ◌∷◌,
  All, length, ◌==◌, ==_iff, ok, refl, sym, ap, ◌∙◌, subst, arith, u32_mod, u64_mod, Bool-cases,
  Option-cases, inl, inr,
}
use reth_statefeed.Prelude.Map.{get}
use reth_statefeed.Watch.{WatchConfig, WatchKey, SlotChange, number_keys, compile}
use reth_statefeed.Config.Validated.{AreDistinct}
use reth_statefeed.Client.Packed
use reth_statefeed.Feed.Extract.{BundleState, extract_changes}
use reth_statefeed.Prelude.Members.{In}
use reth_statefeed.Feed.Extract.Accounts.{expected_of, IsBundle}
use reth_statefeed.Feed.Extract.Bundles.{extract_changes_iff}
use reth_statefeed.Publisher.Validate.{apply_changes}
use reth_statefeed.Publisher.Validate.Writes.{IsWatchedChange}
use reth_statefeed.Publisher.Validate.Changes.{latest_value, apply_changes-get}

number_keys-bounds :
    (index : ℕ) (configured : List WatchConfig) (key : WatchKey)
    → index + length configured ≤ u32_mod
    → In key (number_keys index configured)
    → (index ≤ key.key_id) × (key.key_id < index + length configured)
unfolding number_keys
number_keys-bounds index [] key few there = absurd there
number_keys-bounds index (first ∷ rest) key few (inl same) =
    (omega (arith, ap (λ k. k.key_id) same), omega (arith, ap (λ k. k.key_id) same))
number_keys-bounds index (first ∷ rest) key few (inr later) =
    let (low, high) = number_keys-bounds (suc index) rest key (omega arith) later in
    (omega arith, omega arith)

-- Dense ids name their keys.
number_keys-injective :
    (index : ℕ) (configured : List WatchConfig) (a b : WatchKey)
    → index + length configured ≤ u32_mod
    → In a (number_keys index configured)
    → In b (number_keys index configured)
    → a.key_id ≡ b.key_id
    → a ≡ b
unfolding number_keys
number_keys-injective index [] a b few there there' same = absurd there
number_keys-injective index (first ∷ rest) a b few (inl here) (inl here') same = sym here ∙ here'
number_keys-injective index (first ∷ rest) a b few (inl here) (inr later) same =
    let (low, _) = number_keys-bounds (suc index) rest b (omega arith) later in
    absurd (omega (arith, ap (λ k. k.key_id) here))
number_keys-injective index (first ∷ rest) a b few (inr later) (inl here) same =
    let (low, _) = number_keys-bounds (suc index) rest a (omega arith) later in
    absurd (omega (arith, ap (λ k. k.key_id) here))
number_keys-injective index (first ∷ rest) a b few (inr later) (inr later') same =
    number_keys-injective (suc index) rest a b (omega arith) later later' same

-- Where all changes of a key write one value, and the old value is that one or is overwritten.
latest_value-written :
    (key v : ℕ) (old : Option ℕ) (changes : List SlotChange)
    → ((c : SlotChange) → In c changes → c.key_id ≡ key → c.new_value ≡ v)
    → (old ≡ some v) ⊎ ((c : SlotChange) × In c changes × (c.key_id ≡ key))
    → latest_value key old changes ≡ some v
latest_value-written key v old [] same (inl kept) = kept
latest_value-written key v old [] same (inr (c, there, _)) = absurd there
latest_value-written key v old (first ∷ rest) same written =
    elim (Bool-cases (first.key_id == key)) [
      | inl hit ↦ rw hit (
          latest_value-written key v (some first.new_value) rest (λ c there. same c (inr there))
            (inl (ap some (same first (inl refl) ((==_iff first.key_id key).0 hit)))))
      | inr miss ↦ rw miss (
          latest_value-written key v old rest (λ c there. same c (inr there))
            (elim written [
              | inl kept ↦ inl kept
              | inr (c, inl here, at_key) ↦ absurd (missed miss (ap (λ d. d.key_id) here ∙ at_key))
              | inr (c, inr later, at_key) ↦ inr (c, later, at_key)
            ]))
    ]
  where
    missed : (first.key_id == key) ≡ false → first.key_id ≡ key → ⊥
    missed miss h = ground arith

latest_value-kept :
    (key : ℕ) (old : Option ℕ) (changes : List SlotChange)
    → ((c : SlotChange) → In c changes → c.key_id ≢ key)
    → latest_value key old changes ≡ old
latest_value-kept key old [] apart = refl
latest_value-kept key old (first ∷ rest) apart =
    rw (missed (apart first (inl refl)))
      (latest_value-kept key old rest (λ c there. apart c (inr there)))
  where
    missed : first.key_id ≢ key → (first.key_id == key) ≡ false
    missed h = ground arith

All-of_In :
    (P : SlotChange → Type 0) (changes : List SlotChange)
    → ((c : SlotChange) → In c changes → P c)
    → All P changes
All-of_In P [] h = tt
All-of_In P (first ∷ rest) h = (h first (inl refl), All-of_In P rest (λ c there. h c (inr there)))

-- A bundle of 256-bit words.
abbrev pub AreWords : BundleState → Type 0
AreWords state = (a s v : ℕ) → expected_of (get state a) s ≡ some v → v < 256 ^ 32

module _ (generation : ℕ) (configured : List WatchConfig) (state : BundleState)
    (distinct : AreDistinct configured) (bundle : IsBundle state)
    (few : length configured ≤ u32_mod) where
  abbrev changes : List SlotChange
  changes = extract_changes (compile generation configured) state

  changes-watched : AreWords state → All (IsWatchedChange (length configured)) changes
  changes-watched words = All-of_In (IsWatchedChange (length configured)) changes λ c there.
      let (key, known, at_id, value) =
        (extract_changes_iff generation configured state c distinct bundle).0 there in
      let (_, high) = number_keys-bounds 0 configured key (omega arith) known in
      (omega (arith, at_id, high), words key.address key.slot c.new_value value)

  -- A change under the id of a key is the one that is expected of it.
  change_of_key :
      (key : WatchKey) (c : SlotChange)
      → In key (number_keys 0 configured)
      → In c changes
      → c.key_id ≡ key.key_id
      → expected_of (get state key.address) key.slot ≡ some c.new_value
  change_of_key key c known there same =
      let (key', known', at_id, value) =
        (extract_changes_iff generation configured state c distinct bundle).0 there in
      subst (λ k. expected_of (get state k.address) k.slot ≡ some c.new_value)
        (number_keys-injective 0 configured key' key (omega arith) known' known (at_id ∙ same))
        value

  latest_value-changes :
      (key : WatchKey) (old : Option ℕ)
      → In key (number_keys 0 configured)
      → latest_value key.key_id old changes
        ≡ or_else (expected_of (get state key.address) key.slot) old
  latest_value-changes key old known =
      elim (Option-cases (expected_of (get state key.address) key.slot)) [
        | inl nothing ↦ rw nothing (
            latest_value-kept key.key_id old changes λ c there same.
              never c.new_value (sym nothing ∙ change_of_key key c known there same))
        | inr (v, expected) ↦ rw expected (
            latest_value-written key.key_id v old changes
              (λ c there same.
                unwrap c.new_value v (sym (change_of_key key c known there same) ∙ expected))
              (inr (
                record { key_id = key.key_id; new_value = v },
                (extract_changes_iff generation configured state
                      (record { key_id = key.key_id; new_value = v }) distinct bundle).1
                    (key, known, refl, expected),
                refl,
              )))
      ]
    where
      never : (v : ℕ) → ◌≡◌ {A = Option ℕ} none (some v) → ⊥
      never v h = cc

      unwrap : (a b : ℕ) → ◌≡◌ {A = Option ℕ} (some a) (some b) → a ≡ b
      unwrap a b h = cc

-- The changes that `extract_changes` finds in the bundle of a block, with the dictionary of a
-- configuration of keys with names and coordinates of their own, are all applied to packed values of
-- those keys. `PackedValues::get` then reads, under the id of each configured key, the value that the
-- bundle leaves at its coordinate (the present one where the slot is written or its account is
-- destroyed, zero where a destroyed account lacks the slot), and the old value where it leaves none.
-- The bundle has each account and each slot once and holds 256-bit words; there are at most 2^32 keys,
-- and their values take less than 2^64 bytes.
pub apply_changes-extract_changes :
    (generation : ℕ) (configured : List WatchConfig) (state : BundleState) (values bitmap : List ℕ)
    → AreDistinct configured
    → IsBundle state
    → AreWords state
    → length configured ≤ u32_mod
    → length configured * 32 < u64_mod
    → length values ≡ length configured * 32
    → (values' : List ℕ) × (bitmap' : List ℕ) × (apply_changes
          (extract_changes (compile generation configured) state)
          values
          bitmap
        ≡ ok (values', bitmap'))
      × (length values' ≡ length configured * 32)
      × ((key : WatchKey)
          → In key (number_keys 0 configured)
          → Packed.get (record { bytes = values' }) key.key_id
            ≡ or_else
                (expected_of (get state key.address) key.slot)
                (Packed.get (record { bytes = values }) key.key_id))
apply_changes-extract_changes generation configured state values bitmap distinct bundle words few
      small long =
    let (values', bitmap', done, long', reads) =
      apply_changes-get (extract_changes (compile generation configured) state) values bitmap
        (length configured) long small
        (changes-watched generation configured state distinct bundle few words) in
    (
      values',
      bitmap',
      done,
      long',
      λ key known.
          reads key.key_id
          ∙ latest_value-changes generation configured state distinct bundle few key
              (Packed.get (record { bytes = values }) key.key_id) known,
    )
