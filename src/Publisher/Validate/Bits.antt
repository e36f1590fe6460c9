-- ===== src/Publisher/Validate/Bits.antt =====
-- The bits of the bitmaps of src/publisher.rs.
use Prim.Native.Nat.{bit_or}
use native.Mathlib.Nat.{zero-div}
use reth_statefeed.Prelude.{
  ℕ, zero, suc, ◌*◌, ◌/◌, ◌%◌, ◌^◌, ◌≤◌, ◌<◌, ◌≡◌, ◌≢◌, Bool, true, ◌&&◌, List, [], ◌∷◌, All,
  length, length-replicate, replicate, ltb, ◌==◌, if◌then◌else◌, refl, arith,
}
use reth_statefeed.Publisher.Validate.{or_at, set_bit, bitmap_len}

abbrev pub digit : ℕ → ℕ → ℕ
digit b j = b / 2 ^ j % 2

abbrev pub bit_at : List ℕ → ℕ → ℕ → ℕ
bit_at [] i j = 0
bit_at (b ∷ bs) zero j = digit b j
bit_at (b ∷ bs) (suc i) j = bit_at bs i j

-- The bit of a key.
abbrev pub bit : List ℕ → ℕ → ℕ
bit bitmap key = bit_at bitmap (key / 8) (key % 8)

abbrev pub AreBytes : List ℕ → Type 0
AreBytes bs = All (λ b. b < 256) bs

-- A test that passes on each number under a bound.
abbrev passes : (ℕ → Bool) → ℕ → Bool
passes test zero = true
passes test (suc bound) = passes test bound && test bound

test_of_passes :
    (bound : ℕ) {value : ℕ} (test : ℕ → Bool)
    → value < bound
    → passes test bound ≡ true
    → test value ≡ true
test_of_passes zero test under passed = absurd (omega arith)
test_of_passes (suc bound) {value = value} test under passed =
    ground (arith, test_of_passes bound {value = value} test)

abbrev sets : ℕ → ℕ → ℕ → Bool
sets b s j =
    ltb (bit_or b (2 ^ s)) 256 && digit (bit_or b (2 ^ s)) j == (if s == j then 1 else digit b j)

abbrev sets_digits : ℕ → ℕ → Bool
sets_digits b s = passes (sets b s) 8

abbrev sets_byte : ℕ → Bool
sets_byte b = passes (sets_digits b) 8

-- Every byte, position to set and position to read.
sets_table : passes sets_byte 256 ≡ true
sets_table = refl

sets_lem : (b s j : ℕ) → b < 256 → s < 8 → j < 8 → sets b s j ≡ true
sets_lem b s j hb hs hj =
    let byte = test_of_passes 256 {value = b} sets_byte hb sets_table in
    let digits = test_of_passes 8 {value = s} (sets_digits b) hs byte in
    test_of_passes 8 {value = j} (sets b s) hj digits

bit_at-or_at :
    (bs : List ℕ) (i i' s j : ℕ)
    → AreBytes bs
    → i < length bs
    → s < 8
    → j < 8
    → bit_at (or_at bs i (2 ^ s)) i' j ≡ (if i == i' && s == j then 1 else bit_at bs i' j)
unfolding or_at
bit_at-or_at [] i i' s j bytes hi hs hj = absurd (omega arith)
bit_at-or_at (b ∷ bs) zero zero s j (hb, bytes) hi hs hj = ground (arith, sets_lem b s j hb hs hj)
bit_at-or_at (b ∷ bs) zero (suc i') s j bytes hi hs hj = ground arith
bit_at-or_at (b ∷ bs) (suc i) zero s j bytes hi hs hj = ground arith
bit_at-or_at (b ∷ bs) (suc i) (suc i') s j (hb, bytes) hi hs hj =
    ground (arith, bit_at-or_at bs i i' s j bytes (omega arith) hs hj)

AreBytes-or_at : (bs : List ℕ) (i s : ℕ) → AreBytes bs → s < 8 → AreBytes (or_at bs i (2 ^ s))
unfolding or_at
AreBytes-or_at [] i s bytes hs = tt
AreBytes-or_at (b ∷ bs) zero s (hb, bytes) hs =
    (ground (arith, sets_lem b s 0 hb hs (omega arith)), bytes)
AreBytes-or_at (b ∷ bs) (suc i) s (hb, bytes) hs = (hb, AreBytes-or_at bs i s bytes hs)

pub length-or_at : (bs : List ℕ) (i mask : ℕ) → length (or_at bs i mask) ≡ length bs
unfolding or_at
length-or_at [] i mask = refl
length-or_at (b ∷ bs) zero mask = refl
length-or_at (b ∷ bs) (suc i) mask = ground (arith, length-or_at bs i mask)

-- A bitmap with a bit for each of the first keys.
abbrev pub IsBitmap : ℕ → List ℕ → Type 0
IsBitmap n bitmap = AreBytes bitmap × n ≤ length bitmap * 8

pub IsBitmap-set_bit :
    (n : ℕ) (bitmap : List ℕ) (key : ℕ) → IsBitmap n bitmap → IsBitmap n (set_bit bitmap key)
unfolding set_bit
IsBitmap-set_bit n bitmap key (bytes, h) = (
  AreBytes-or_at bitmap (key / 8) (key % 8) bytes (omega arith),
  omega (arith, length-or_at bitmap (key / 8) (2 ^ (key % 8))),
)

pub bit-set_bit-same :
    (n : ℕ) (bitmap : List ℕ) (key : ℕ)
    → IsBitmap n bitmap
    → key < n
    → bit (set_bit bitmap key) key ≡ 1
unfolding set_bit
bit-set_bit-same n bitmap key (bytes, h) hk = ground (
  arith,
  bit_at-or_at bitmap (key / 8) (key / 8) (key % 8) (key % 8) bytes (omega arith) (omega arith)
      (omega arith),
)

pub bit-set_bit-other :
    (n : ℕ) (bitmap : List ℕ) (key other : ℕ)
    → IsBitmap n bitmap
    → key < n
    → key ≢ other
    → bit (set_bit bitmap key) other ≡ bit bitmap other
unfolding set_bit
bit-set_bit-other n bitmap key other (bytes, h) hk ne = ground (
  arith,
  bit_at-or_at bitmap (key / 8) (other / 8) (key % 8) (other % 8) bytes (omega arith) (omega arith)
      (omega arith),
)

pub bit-zeros : (size i j : ℕ) → bit_at (replicate size 0) i j ≡ 0
bit-zeros zero i j = refl
bit-zeros (suc size) zero j = rw (zero-div (2 ^ j)) refl
bit-zeros (suc size) (suc i) j = bit-zeros size i j

AreBytes-replicate : (size : ℕ) → AreBytes (replicate size 0)
AreBytes-replicate zero = tt
AreBytes-replicate (suc size) = (omega arith, AreBytes-replicate size)

-- The bitmap that the loop starts from has room for all keys, and no bit is set.
pub IsBitmap-zeros : (n : ℕ) → IsBitmap n (replicate (bitmap_len n) 0)
IsBitmap-zeros n =
    (AreBytes-replicate (bitmap_len n), omega (arith, length-replicate {A = ℕ} (bitmap_len n) 0))
