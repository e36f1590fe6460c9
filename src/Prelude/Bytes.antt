-- ===== src/Prelude/Bytes.antt =====
-- Byte strings: slices, equality, and big-endian words (`to_be_bytes`, `from_be_slice`).
use Prim.Native.Nat.{ℕ, zero, suc, ◌+◌, ◌-◌, ◌*◌, ◌/◌, ◌%◌, ◌^◌, ◌<◌}
use mathlib.Core.Path.{◌≡◌, refl}
use mathlib.Core.List.{List, [], ◌∷◌, ◌++◌}
use native.Mathlib.Nat.{pow-suc}
use native.Mathlib.Omega.{arith}
use reth_statefeed.Prelude.Lists.{length, length-append, take, drop}
use reth_statefeed.Prelude.Tests.{ltb, leb, ◌==◌, if◌then◌else◌, u64_mod}
use mathlib.Core.Bool.{Bool, true, false, ◌&&◌}
use mathlib.Core.Option.{Option, none, some}

-- `checked_mul`, `checked_add` and `checked_sub` on 64 bits.
abbrev pub checked_mul : ℕ → ℕ → Option ℕ
checked_mul a b = if ltb (a * b) u64_mod then some (a * b) else none

abbrev pub checked_add : ℕ → ℕ → Option ℕ
checked_add a b = if ltb (a + b) u64_mod then some (a + b) else none

-- `bytes.get(start..end)`.
abbrev pub slice? : List ℕ → ℕ → ℕ → Option (List ℕ)
slice? bytes start end =
    if leb start end
    then if leb end (length bytes) then some (take (end - start) (drop start bytes)) else none
    else none

-- `copy_from_slice` into the bytes from `start` on.
abbrev pub splice : List ℕ → ℕ → List ℕ → List ℕ
splice bytes start new = take start bytes ++ (new ++ drop (start + length new) bytes)

abbrev pub bytes_eq : List ℕ → List ℕ → Bool
bytes_eq [] [] = true
bytes_eq [] (b ∷ bs) = false
bytes_eq (a ∷ as') [] = false
bytes_eq (a ∷ as') (b ∷ bs) = a == b && bytes_eq as' bs

-- The `n` low bytes of a word, the most significant first.
unfoldable pub to_be_bytes : ℕ → ℕ → List ℕ
to_be_bytes zero x = []
to_be_bytes (suc n) x = to_be_bytes n (x / 256) ++ x % 256 ∷ []

-- One round of `from_be_slice` shifts the word and adds a byte.
unfoldable pub from_be_onto : ℕ → List ℕ → ℕ
from_be_onto acc [] = acc
from_be_onto acc (b ∷ bs) = from_be_onto (acc * 256 + b) bs

unfoldable pub from_be_slice : List ℕ → ℕ
unfolding from_be_onto
from_be_slice bs = from_be_onto 0 bs

pub length-to_be_bytes : (n x : ℕ) → length (to_be_bytes n x) ≡ n
unfolding to_be_bytes
length-to_be_bytes zero x = refl
length-to_be_bytes (suc n) x =
    omega (
      arith,
      length-append (to_be_bytes n (x / 256)) (x % 256 ∷ []),
      length-to_be_bytes n (x / 256),
    )

from_be_onto-append :
    (acc : ℕ) (bs : List ℕ) (b : ℕ)
    → from_be_onto acc (bs ++ b ∷ []) ≡ from_be_onto acc bs * 256 + b
unfolding from_be_onto
from_be_onto-append acc [] b = refl
from_be_onto-append acc (c ∷ bs) b = from_be_onto-append (acc * 256 + c) bs b

-- A word that fits comes back from its bytes.
pub from_be_slice-to_be_bytes : (n x : ℕ) → x < 256 ^ n → from_be_slice (to_be_bytes n x) ≡ x
unfolding from_be_slice to_be_bytes
from_be_slice-to_be_bytes zero x h = omega arith
from_be_slice-to_be_bytes (suc n) x h = omega (
  arith,
  from_be_onto-append 0 (to_be_bytes n (x / 256)) (x % 256),
  from_be_slice-to_be_bytes n (x / 256) (omega (arith, pow-suc 256 n)),
)
