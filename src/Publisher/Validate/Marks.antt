-- ===== src/Publisher/Validate/Marks.antt =====
-- The bitmap that `project_candidate` in src/publisher.rs leaves beside the packed values.
use reth_statefeed.Prelude.{
  ℕ, ◌*◌, ◌/◌, ◌%◌, ◌<◌, ◌≡◌, ◌≢◌, ◌⊎◌, List, [], ◌∷◌, length, replicate, All, ◌==◌, ok, refl, ◌∙◌,
  subst, arith, u64_mod, Bool-cases, inl, inr, ==_iff,
}
use reth_statefeed.Prelude.Bytes.{to_be_bytes, bytes_eq}
use reth_statefeed.Prelude.Slices.{value_bytes}
use reth_statefeed.Watch.{SlotChange}
use reth_statefeed.Publisher.Validate.{apply_changes, bitmap_len}
use reth_statefeed.Publisher.Validate.Writes.{
  IsWatchedChange, written, length-written, value_bytes-written-other,
}
use reth_statefeed.Publisher.Validate.Changes.{marked, apply_changes-step}
use reth_statefeed.Publisher.Validate.Bits.{
  IsBitmap-zeros, bit-zeros, bit, IsBitmap, IsBitmap-set_bit, bit-set_bit-same, bit-set_bit-other,
}

-- What holds of a key between two states of the values and the bitmap: it is marked, or neither its
-- bit nor its value has changed.
abbrev pub IsMarked : ℕ → List ℕ × List ℕ → List ℕ × List ℕ → Type 0
IsMarked key (values, bitmap) (values', bitmap') =
    (bit bitmap' key ≡ 1)
    ⊎ ((bit bitmap' key ≡ bit bitmap key) × (value_bytes values' key ≡ value_bytes values key))

IsMarked-trans :
    (key : ℕ) (a b c : List ℕ × List ℕ) → IsMarked key a b → IsMarked key b c → IsMarked key a c
IsMarked-trans key a b c p (inl one) = inl one
IsMarked-trans key a b c (inl one) (inr (same, kept)) = inl (same ∙ one)
IsMarked-trans key a b c (inr (same, kept)) (inr (same', kept')) = inr (same' ∙ same, kept' ∙ kept)

IsBitmap-marked :
    (n : ℕ) (values bitmap : List ℕ) (change : SlotChange)
    → IsBitmap n bitmap
    → IsBitmap n (marked values bitmap change)
IsBitmap-marked n values bitmap change h =
    elim (Bool-cases
      (bytes_eq (value_bytes values change.key_id) (to_be_bytes 32 change.new_value))) [
        | inl same ↦ rw same h
        | inr differs ↦ rw differs (IsBitmap-set_bit n bitmap change.key_id h)
      ]

bit-marked-other :
    (n : ℕ) (values bitmap : List ℕ) (change : SlotChange) (key : ℕ)
    → IsBitmap n bitmap
    → change.key_id < n
    → change.key_id ≢ key
    → bit (marked values bitmap change) key ≡ bit bitmap key
bit-marked-other n values bitmap change key h hk ne =
    elim (Bool-cases
      (bytes_eq (value_bytes values change.key_id) (to_be_bytes 32 change.new_value))) [
        | inl same ↦ rw same refl
        | inr differs ↦ rw differs (bit-set_bit-other n bitmap change.key_id key h hk ne)
      ]

IsMarked-own :
    (n : ℕ) (values bitmap : List ℕ) (change : SlotChange)
    → IsBitmap n bitmap
    → change.key_id < n
    → IsMarked change.key_id (values, bitmap) (written values change, marked values bitmap change)
IsMarked-own n values bitmap change h hk =
    elim (Bool-cases
      (bytes_eq (value_bytes values change.key_id) (to_be_bytes 32 change.new_value))) [
        | inl same ↦ inr (rw same refl, rw same refl)
        | inr differs ↦ inl (rw differs (bit-set_bit-same n bitmap change.key_id h hk))
      ]

IsMarked-step :
    (n : ℕ) (values bitmap : List ℕ) (change : SlotChange) (key : ℕ)
    → length values ≡ n * 32
    → IsBitmap n bitmap
    → change.key_id < n
    → IsMarked key (values, bitmap) (written values change, marked values bitmap change)
IsMarked-step n values bitmap change key long h hk = elim (Bool-cases (change.key_id == key)) [
  | inl same ↦
      subst (λ k. IsMarked k (values, bitmap) (written values change, marked values bitmap change))
        ((==_iff change.key_id key).0 same) (IsMarked-own n values bitmap change h hk)
  | inr differs ↦ inr (
    bit-marked-other n values bitmap change key h hk (ground arith),
    value_bytes-written-other values n key change long hk (ground arith),
  )
]

marks :
    (changes : List SlotChange) (values bitmap : List ℕ) (n key : ℕ)
    → length values ≡ n * 32
    → n * 32 < u64_mod
    → All (IsWatchedChange n) changes
    → IsBitmap n bitmap
    → (values' : List ℕ) × (bitmap' : List ℕ) × (apply_changes changes values bitmap
        ≡ ok (values', bitmap'))
      × IsMarked key (values, bitmap) (values', bitmap')
      × (All (λ change. change.key_id ≢ key) changes → bit bitmap' key ≡ bit bitmap key)
unfolding apply_changes
marks [] values bitmap n key h hn hc hb = (values, bitmap, refl, inr (refl, refl), λ none. refl)
marks (change ∷ rest) values bitmap n key h hn ((hk, hv), hrest) hb =
    let (values', bitmap', done, mark, kept) =
      marks rest (written values change) (marked values bitmap change) n key
        (length-written values n change h hk) hn hrest
        (IsBitmap-marked n values bitmap change hb) in
    (
      values',
      bitmap',
      apply_changes-step values bitmap n change rest h hn hk ∙ done,
      IsMarked-trans key (values, bitmap) (written values change, marked values bitmap change)
          (values', bitmap') (IsMarked-step n values bitmap change key h hb hk) mark,
      λ (other, others). kept others ∙ bit-marked-other n values bitmap change key hb hk other,
    )

-- Changes of watched keys to 256-bit words are all applied. From a bitmap without a bit set, the
-- bit of each key is 1, or it is 0 and the key has its old value; and it is 0 if no change is for
-- the key.
pub apply_changes-IsMarked :
    (changes : List SlotChange) (values : List ℕ) (n key : ℕ)
    → length values ≡ n * 32
    → n * 32 < u64_mod
    → All (IsWatchedChange n) changes
    → (values' : List ℕ) × (bitmap' : List ℕ) × (apply_changes changes values
          (replicate (bitmap_len n) 0)
        ≡ ok (values', bitmap'))
      × ((bit bitmap' key ≡ 1)
          ⊎ ((bit bitmap' key ≡ 0) × (value_bytes values' key ≡ value_bytes values key)))
      × (All (λ change. change.key_id ≢ key) changes → bit bitmap' key ≡ 0)
apply_changes-IsMarked changes values n key h hn hc =
    let (values', bitmap', done, mark, kept) =
      marks changes values (replicate (bitmap_len n) 0) n key h hn hc (IsBitmap-zeros n) in
    let clear = bit-zeros (bitmap_len n) (key / 8) (key % 8) in
    (
      values',
      bitmap',
      done,
      elim mark [ inl one ↦ inl one | inr (same, old) ↦ inr (same ∙ clear, old) ],
      λ none. kept none ∙ clear,
    )
