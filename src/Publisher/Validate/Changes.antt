-- ===== src/Publisher/Validate/Changes.antt =====
-- What the loop of `project_candidate` in src/publisher.rs over the changes of a block does to the
-- packed values that `PackedValues` of src/client.rs reads.
use reth_statefeed.Prelude.{
  ℕ, ◌+◌, ◌*◌, ◌<◌, ◌≡◌, Option, some, List, [], ◌∷◌, length, All, ◌==◌, if◌then◌else◌, ok, refl,
  sym, ap, ◌∙◌, arith, u64_mod, Bool-cases, inl, inr, ==_iff,
}
use reth_statefeed.Prelude.Bytes.{to_be_bytes, splice, bytes_eq}
use reth_statefeed.Prelude.Slices.{value_bytes}
use reth_statefeed.Watch.{SlotChange}
use reth_statefeed.Client.Packed
use reth_statefeed.Client.Packed.{PackedValues}
use reth_statefeed.Publisher.Candidates.{saturating_mul}
use reth_statefeed.Publisher.Retirement.{saturating_add}
use reth_statefeed.Publisher.Validate.{apply_changes, set_bit}
use reth_statefeed.Publisher.Validate.Writes.{
  IsWatchedChange, slice?-value, written, length-written, get-written, get-written-other,
}

-- The value of a key after the changes of a block: that of its last change, or the old one.
abbrev pub latest_value : ℕ → Option ℕ → List SlotChange → Option ℕ
latest_value key old [] = old
latest_value key old (change ∷ rest) =
    latest_value key (if change.key_id == key then some change.new_value else old) rest

-- The bitmap after one change.
abbrev pub marked : List ℕ → List ℕ → SlotChange → List ℕ
marked values bitmap change =
    if bytes_eq (value_bytes values change.key_id) (to_be_bytes 32 change.new_value)
    then bitmap
    else set_bit bitmap change.key_id

-- One round of the loop, on a watched key.
pub apply_changes-step :
    (values bitmap : List ℕ) (n : ℕ) (change : SlotChange) (rest : List SlotChange)
    → length values ≡ n * 32
    → n * 32 < u64_mod
    → change.key_id < n
    → apply_changes (change ∷ rest) values bitmap
      ≡ apply_changes rest (written values change) (marked values bitmap change)
unfolding apply_changes
apply_changes-step values bitmap n change rest h hn hk =
    rw
      (
        apply_changes,
        offset change.key_id (omega arith),
        end change.key_id (omega arith),
        slice?-value values n change.key_id h hk,
      )
      (ap
        (λ start.
          apply_changes rest
            (if bytes_eq (value_bytes values change.key_id) (to_be_bytes 32 change.new_value)
              then values
              else splice values start (to_be_bytes 32 change.new_value))
            (marked values bitmap change))
        (offset change.key_id (omega arith)))
  where
    offset : (k : ℕ) → k * 32 < u64_mod → saturating_mul k 32 ≡ k * 32
    offset k hk = omega arith

    end : (k : ℕ) → k * 32 + 32 < u64_mod → saturating_add (k * 32) 32 ≡ k * 32 + 32
    end k hk = omega arith

latest_value-written :
    (values : List ℕ) (n key : ℕ) (change : SlotChange) (rest : List SlotChange)
    → length values ≡ n * 32
    → n * 32 < u64_mod
    → IsWatchedChange n change
    → latest_value key (Packed.get (record { bytes = written values change }) key) rest
      ≡ latest_value key (Packed.get (record { bytes = values }) key) (change ∷ rest)
latest_value-written values n key change rest h hn (hk, hv) =
    elim (Bool-cases (change.key_id == key)) [
      | inl same ↦ rw same (
          ap (λ old. latest_value key old rest)
            (ap (Packed.get (record { bytes = written values change }))
                (sym ((==_iff change.key_id key).0 same))
              ∙ get-written values n change h hn (hk, hv)))
      | inr differs ↦ rw differs (
          ap (λ old. latest_value key old rest)
            (get-written-other values n key change h hn hk (ground arith)))
    ]

-- Changes of watched keys to 256-bit words are all applied: the packed values keep their length,
-- and `PackedValues::get` reads, for every key, the value of its last change and the old value
-- where it has none.
pub apply_changes-get :
    (changes : List SlotChange) (values bitmap : List ℕ) (n : ℕ)
    → length values ≡ n * 32
    → n * 32 < u64_mod
    → All (IsWatchedChange n) changes
    → (values' : List ℕ) × (bitmap' : List ℕ) × (apply_changes changes values bitmap
        ≡ ok (values', bitmap'))
      × (length values' ≡ n * 32)
      × ((key : ℕ)
          → Packed.get (record { bytes = values' }) key
            ≡ latest_value key (Packed.get (record { bytes = values }) key) changes)
unfolding apply_changes
apply_changes-get [] values bitmap n h hn hc = (values, bitmap, refl, h, λ key. refl)
apply_changes-get (change ∷ rest) values bitmap n h hn ((hk, hv), hrest) =
    let (values', bitmap', done, long, reads) =
      apply_changes-get rest (written values change) (marked values bitmap change) n
        (length-written values n change h hk) hn hrest in
    (
      values',
      bitmap',
      apply_changes-step values bitmap n change rest h hn hk ∙ done,
      long,
      λ key. reads key ∙ latest_value-written values n key change rest h hn (hk, hv),
    )
