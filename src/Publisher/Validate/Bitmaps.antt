-- ===== src/Publisher/Validate/Bitmaps.antt =====
-- `canonical_changed_bitmap` of src/publisher.rs, bit by bit.
use reth_statefeed.Prelude.{
  ℕ, zero, suc, ◌+◌, ◌*◌, ◌/◌, ◌%◌, ◌^◌, ◌≤◌, ◌<◌, ◌≡◌, ◌≢◌, ◌↔◌, true, false, List, [], ◌∷◌,
  length, replicate, take, drop, if◌then◌else◌, refl, arith, Bool-cases, inl, inr, ◌∙◌, subst, ok,
  length-replicate,
}
use reth_statefeed.Prelude.Bytes.{bytes_eq}
use reth_statefeed.Prelude.Slices.{value_bytes, value_bytes-suc}
use reth_statefeed.Publisher.Validate.Writes.{bytes_eq→eq}
use reth_statefeed.Publisher.Validate.Bits.{
  bit, IsBitmap, IsBitmap-set_bit, IsBitmap-zeros, bit-zeros, bit-set_bit-same, bit-set_bit-other,
  length-or_at,
}
use reth_statefeed.Watch.{len}
use reth_statefeed.Publisher.State.{Projection}
use reth_statefeed.Publisher.Validate.{
  set_bit, compare_chunks, bitmap_len, canonical_changed_bitmap,
}

-- The bit after one chunk is compared.
abbrev marked : List ℕ → List ℕ → List ℕ → ℕ → List ℕ
marked before after changed index =
    if bytes_eq (take 32 before) (take 32 after) then changed else set_bit changed index

IsBitmap-marked :
    (n index : ℕ) (before after changed : List ℕ)
    → IsBitmap n changed
    → IsBitmap n (marked before after changed index)
IsBitmap-marked n index before after changed h =
    elim (Bool-cases (bytes_eq (take 32 before) (take 32 after))) [
      | inl same ↦ rw same h
      | inr differs ↦ rw differs (IsBitmap-set_bit n changed index h)
    ]

bit-marked-other :
    (n index other : ℕ) (before after changed : List ℕ)
    → IsBitmap n changed
    → index < n
    → index ≢ other
    → bit (marked before after changed index) other ≡ bit changed other
bit-marked-other n index other before after changed h hi ne =
    elim (Bool-cases (bytes_eq (take 32 before) (take 32 after))) [
      | inl same ↦ rw same refl
      | inr differs ↦ rw differs (bit-set_bit-other n changed index other h hi ne)
    ]

bit-marked-same :
    (n index : ℕ) (before after changed : List ℕ)
    → IsBitmap n changed
    → index < n
    → bit changed index ≡ 0
    → bit (marked before after changed index) index
      ≡ (if bytes_eq (take 32 before) (take 32 after) then 0 else 1)
bit-marked-same n index before after changed h hi clear =
    elim (Bool-cases (bytes_eq (take 32 before) (take 32 after))) [
      | inl same ↦ rw same clear
      | inr differs ↦ rw differs (bit-set_bit-same n changed index h hi)
    ]

length-compare_chunks :
    (m index : ℕ) (before after changed : List ℕ)
    → length (compare_chunks m index before after changed) ≡ length changed
unfolding compare_chunks set_bit
length-compare_chunks zero index before after changed = refl
length-compare_chunks (suc m) index before after changed =
    length-compare_chunks m (index + 1) (drop 32 before) (drop 32 after)
      (marked before after changed index)
    ∙ elim (Bool-cases (bytes_eq (take 32 before) (take 32 after))) [
      | inl same ↦ rw same refl
      | inr differs ↦ rw differs (length-or_at changed (index / 8) (2 ^ (index % 8)))
    ]

-- The bits of the keys before the chunks are left as they are.
bit-compare_chunks-before :
    (m n index : ℕ) (before after changed : List ℕ) (key : ℕ)
    → IsBitmap n changed
    → index + m ≤ n
    → key < index
    → bit (compare_chunks m index before after changed) key ≡ bit changed key
unfolding compare_chunks
bit-compare_chunks-before zero n index before after changed key h fits hk = refl
bit-compare_chunks-before (suc m) n index before after changed key h fits hk =
    bit-compare_chunks-before m n (index + 1) (drop 32 before) (drop 32 after)
      (marked before after changed index) key (IsBitmap-marked n index before after changed h)
      (omega arith) (omega arith)
    ∙ bit-marked-other n index key before after changed h (omega arith) (λ e. absurd (omega arith))

bit-compare_chunks :
    (m n index : ℕ) (before after changed : List ℕ) (key : ℕ)
    → IsBitmap n changed
    → index + m ≤ n
    → key < m
    → ((other : ℕ) → index ≤ other → other < n → bit changed other ≡ 0)
    → bit (compare_chunks m index before after changed) (index + key)
      ≡ (if bytes_eq (value_bytes before key) (value_bytes after key) then 0 else 1)
unfolding compare_chunks
bit-compare_chunks zero n index before after changed key h fits hk clear = absurd (omega arith)
bit-compare_chunks (suc m) n index before after changed zero h fits hk clear =
    subst
      (λ i.
        bit (compare_chunks (suc m) index before after changed) i
        ≡ (if bytes_eq (value_bytes before 0) (value_bytes after 0) then 0 else 1))
      (position index)
      (bit-compare_chunks-before m n (index + 1) (drop 32 before) (drop 32 after)
          (marked before after changed index) index (IsBitmap-marked n index before after changed h)
          (omega arith) (omega arith)
        ∙ bit-marked-same n index before after changed h (omega arith)
            (clear index (omega arith) (omega arith)))
  where
    position : (i : ℕ) → i ≡ i + 0
    position i = omega arith
bit-compare_chunks (suc m) n index before after changed (suc key) h fits hk clear =
    subst
      (λ i.
        bit (compare_chunks (suc m) index before after changed) i
        ≡ (if bytes_eq (value_bytes before (suc key)) (value_bytes after (suc key)) then 0 else 1))
      (position index key)
      (rw (value_bytes-suc before key, value_bytes-suc after key)
        (bit-compare_chunks m n (index + 1) (drop 32 before) (drop 32 after)
          (marked before after changed index) key (IsBitmap-marked n index before after changed h)
          (omega arith) (omega arith) later))
  where
    position : (i k : ℕ) → i + 1 + k ≡ i + suc k
    position i k = omega arith

    later :
        (other : ℕ)
        → index + 1 ≤ other
        → other < n
        → bit (marked before after changed index) other ≡ 0
    later other hi ho =
        bit-marked-other n index other before after changed h (omega arith)
          (λ e. absurd (omega arith))
        ∙ clear other (omega arith) ho

bytes_eq_refl : (xs : List ℕ) → bytes_eq xs xs ≡ true
bytes_eq_refl [] = refl
bytes_eq_refl (x ∷ xs) = ground (arith, bytes_eq_refl xs)

of_marks :
    (before after : List ℕ) (b : ℕ)
    → b ≡ (if bytes_eq before after then 0 else 1)
    → (b ≤ 1) × ((b ≡ 0) ↔ (before ≡ after))
of_marks before after b h = elim (Bool-cases (bytes_eq before after)) [
  | inl same ↦ (ground arith, ((λ z. bytes_eq→eq before after same), λ e. ground arith))
  | inr differs ↦ (ground arith, ((λ z. absurd (ground arith)), λ e. absurd (differ e differs)))
]
  where
    differ : before ≡ after → bytes_eq before after ≡ false → ⊥
    differ e f = ground (arith, subst (λ xs. bytes_eq before xs ≡ true) e (bytes_eq_refl before))

bit-compare_chunks-zeros :
    (n : ℕ) (before after : List ℕ) (key : ℕ)
    → key < n
    → bit (compare_chunks n 0 before after (replicate (bitmap_len n) 0)) key
      ≡ (if bytes_eq (value_bytes before key) (value_bytes after key) then 0 else 1)
bit-compare_chunks-zeros n before after key hk =
    subst
      (λ k.
        bit (compare_chunks n 0 before after (replicate (bitmap_len n) 0)) k
        ≡ (if bytes_eq (value_bytes before key) (value_bytes after key) then 0 else 1))
      (position key)
      (bit-compare_chunks n n 0 before after (replicate (bitmap_len n) 0) key (IsBitmap-zeros n)
        (omega arith) hk (λ other lo hi. bit-zeros (bitmap_len n) (other / 8) (other % 8)))
  where
    position : (k : ℕ) → 0 + k ≡ k
    position k = omega arith

compared :
    (previous next : Projection)
    → previous.watch_set.generation ≡ next.watch_set.generation
    → length previous.values ≡ len next.watch_set * 32
    → length next.values ≡ len next.watch_set * 32
    → next.block.parent_hash ≢ previous.block.hash
    → canonical_changed_bitmap previous next
      ≡ ok (
          compare_chunks
            (len next.watch_set)
            0
            previous.values
            next.values
            (replicate (bitmap_len (len next.watch_set)) 0))
unfolding canonical_changed_bitmap
compared previous next same hp hn apart = ground (arith, count (len next.watch_set))
  where
    count : (n : ℕ) → n * 32 / 32 ≡ n
    count n = omega arith

-- Where two projections are on the same dictionary, with a value of 32 bytes for each key, and the
-- second is not the child of the first, their bitmap has a byte for each eight keys, and the bit of
-- a key is 0 just where the two projections have the same value for it, and otherwise 1.
pub canonical_changed_bitmap_iff :
    (previous next : Projection) (key : ℕ)
    → previous.watch_set.generation ≡ next.watch_set.generation
    → length previous.values ≡ len next.watch_set * 32
    → length next.values ≡ len next.watch_set * 32
    → next.block.parent_hash ≢ previous.block.hash
    → key < len next.watch_set
    → (bitmap : List ℕ) × (canonical_changed_bitmap previous next ≡ ok bitmap)
      × (length bitmap ≡ bitmap_len (len next.watch_set))
      × (bit bitmap key ≤ 1)
      × ((bit bitmap key ≡ 0) ↔ (value_bytes previous.values key ≡ value_bytes next.values key))
canonical_changed_bitmap_iff previous next key same hp hn apart hk =
    let n = len next.watch_set in
    let zeros = replicate (bitmap_len n) 0 in
    let bitmap = compare_chunks n 0 previous.values next.values zeros in
    let (bound, marks) =
      of_marks (value_bytes previous.values key) (value_bytes next.values key) (bit bitmap key)
        (bit-compare_chunks-zeros n previous.values next.values key hk) in
    (
      bitmap,
      compared previous next same hp hn apart,
      length-compare_chunks n 0 previous.values next.values zeros
          ∙ length-replicate (bitmap_len n) 0,
      bound,
      marks,
    )
