-- ===== src/Prelude/Slices.antt =====
-- Packed strings of 32-byte values: the slice of a value, and what a write to one value changes.
use mathlib.Core.List.{append_assoc}
use native.Mathlib.Nat.{suc-add, zero-add}
use reth_statefeed.Prelude.Lists.{
  length, take, drop, length-append, length-take, length-drop, take-append, drop-append,
}
use reth_statefeed.Prelude.Bytes.{splice}
use Prim.Native.Nat.{ℕ, zero, suc, ◌+◌, ◌*◌, ◌≤◌}
use mathlib.Core.Path.{◌≡◌, refl, sym, ap, ◌∙◌}
use mathlib.Core.Logic.{◌≢◌}
use mathlib.Core.List.{List, [], ◌∷◌, ◌++◌}
use native.Mathlib.Omega.{arith}

module _ {ℓ} {A : Type ℓ} where
  drop-nil : (k : ℕ) → drop {A = A} k [] ≡ []
  drop-nil zero = refl
  drop-nil (suc k) = refl

  take-nil : (k : ℕ) → take {A = A} k [] ≡ []
  take-nil zero = refl
  take-nil (suc k) = refl

module _ {ℓ} {A : Type ℓ} where
  pub drop-drop : (m n : ℕ) (xs : List A) → drop n (drop m xs) ≡ drop (m + n) xs
  drop-drop zero n xs = rw zero-add
  drop-drop (suc m) n [] = rw suc-add (drop-nil n)
  drop-drop (suc m) n (x ∷ xs) = rw suc-add (drop-drop m n xs)

  pub take_add : (m n : ℕ) (xs : List A) → take (m + n) xs ≡ take m xs ++ take n (drop m xs)
  take_add zero n xs = rw zero-add
  take_add (suc m) n [] = rw suc-add (sym (take-nil n))
  take_add (suc m) n (x ∷ xs) = rw suc-add (ap (◌∷◌ x) (take_add m n xs))

-- The bytes of the value with an index.
abbrev pub value_bytes : List ℕ → ℕ → List ℕ
value_bytes bytes index = take 32 (drop (index * 32) bytes)

-- A slice behind the first value is one of the rest.
pub value_bytes-suc :
    (bytes : List ℕ) (index : ℕ) → value_bytes bytes (suc index) ≡ value_bytes (drop 32 bytes) index
value_bytes-suc bytes index =
    ap (take 32) (ap (λ n. drop n bytes) (offset index) ∙ sym (drop-drop 32 (index * 32) bytes))
  where
    offset : (i : ℕ) → suc i * 32 ≡ 32 + i * 32
    offset i = omega arith

splice-suc :
    (bytes new : List ℕ) (index : ℕ)
    → splice bytes (suc index * 32) new ≡ take 32 bytes ++ splice (drop 32 bytes) (index * 32) new
splice-suc bytes new index =
    rw (offset index, regroup) (rw (take_add 32 (index * 32) bytes, append_assoc, drop-drop) refl)
  where
    offset : (i : ℕ) → suc i * 32 ≡ 32 + i * 32
    offset i = omega arith

    regroup : 32 + index * 32 + length new ≡ 32 + (index * 32 + length new)
    regroup = omega arith

-- A write of 32 bytes at the place of one value keeps the length, gives that value its bytes and
-- leaves the others.
pub length-splice :
    (bytes new : List ℕ) (start : ℕ)
    → start + length new ≤ length bytes
    → length (splice bytes start new) ≡ length bytes
length-splice bytes new start h = omega (
  arith,
  length-append (take start bytes) (new ++ drop (start + length new) bytes),
  length-append new (drop (start + length new) bytes),
  length-take start bytes,
  length-drop (start + length new) bytes,
)

pub take_of_length : (n : ℕ) (xs ys : List ℕ) → length xs ≡ n → take n (xs ++ ys) ≡ xs
take_of_length n xs ys h = rw (← h) (take-append xs ys)

drop_of_length : (n : ℕ) (xs ys : List ℕ) → length xs ≡ n → drop n (xs ++ ys) ≡ ys
drop_of_length n xs ys h = rw (← h) (drop-append xs ys)

splice-zero : (bytes new : List ℕ) → splice bytes (0 * 32) new ≡ new ++ drop (length new) bytes
splice-zero bytes new = ap (λ n. new ++ drop n bytes) (zero-add (length new))

-- Behind a block of 32 bytes, the values of a packed string start anew.
pub value_bytes_of_append :
    (block rest : List ℕ) (index : ℕ)
    → length block ≡ 32
    → value_bytes (block ++ rest) (suc index) ≡ value_bytes rest index
value_bytes_of_append block rest index h =
    rw (value_bytes-suc (block ++ rest) index, drop_of_length 32 block rest h) refl

-- The value that a write of 32 bytes is for, and every other one.
pub value_bytes-splice :
    (bytes new : List ℕ) (index : ℕ)
    → length new ≡ 32
    → index * 32 + 32 ≤ length bytes
    → value_bytes (splice bytes (index * 32) new) index ≡ new
value_bytes-splice bytes new zero hnew h =
    rw (splice-zero bytes new) (take_of_length 32 new (drop (length new) bytes) hnew)
value_bytes-splice bytes new (suc index) hnew h =
    rw
      (
        splice-suc bytes new index,
        value_bytes_of_append (take 32 bytes) (splice (drop 32 bytes) (index * 32) new) index
            (omega (arith, length-take 32 bytes)),
      )
      (value_bytes-splice (drop 32 bytes) new index hnew (omega (arith, length-drop 32 bytes)))

pub value_bytes-splice-other :
    (bytes new : List ℕ) (index other : ℕ)
    → length new ≡ 32
    → index * 32 + 32 ≤ length bytes
    → index ≢ other
    → value_bytes (splice bytes (index * 32) new) other ≡ value_bytes bytes other
value_bytes-splice-other bytes new zero zero hnew h ne = absurd (ne refl)
value_bytes-splice-other bytes new zero (suc other) hnew h ne =
    ap (λ b. value_bytes b (suc other)) (splice-zero bytes new)
    ∙ value_bytes_of_append new (drop (length new) bytes) other hnew
    ∙ ap (λ n. value_bytes (drop n bytes) other) hnew
    ∙ sym (value_bytes-suc bytes other)
value_bytes-splice-other bytes new (suc index) zero hnew h ne = rw (splice-suc bytes new index) (
    take_of_length 32 (take 32 bytes) (splice (drop 32 bytes) (index * 32) new)
      (omega (arith, length-take 32 bytes)))
value_bytes-splice-other bytes new (suc index) (suc other) hnew h ne =
    rw
      (
        splice-suc bytes new index,
        value_bytes_of_append (take 32 bytes) (splice (drop 32 bytes) (index * 32) new) other
            (omega (arith, length-take 32 bytes)),
        value_bytes-suc bytes other,
      )
      (value_bytes-splice-other (drop 32 bytes) new index other hnew
        (omega (arith, length-drop 32 bytes)) (λ e. ne (ap suc e)))
