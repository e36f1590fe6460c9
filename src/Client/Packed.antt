-- ===== src/Client/Packed.antt =====
-- `PackedValues` of src/client.rs: a checked view of packed 32-byte values.
use reth_statefeed.Prelude.{
  ℕ, ◌/◌, Option, none, some, List, length, ◌==◌, if◌then◌else◌, Result, ok, err, ok_or, ◌>>=◌,
}
use reth_statefeed.Prelude.Bytes.{from_be_slice, checked_mul, checked_add, slice?}
use reth_statefeed.Client.{ClientError, projection_length_overflow, invalid_projection_length}

pub record PackedValues : Type 0 where
  pub bytes : List ℕ

unfoldable pub new : List ℕ → ℕ → Result ClientError PackedValues
new bytes key_count = do
  expected ← ok_or (checked_mul key_count 32) projection_length_overflow
  if length bytes == expected
      then ok (record { bytes = bytes })
      else err (invalid_projection_length (length bytes) expected)

unfoldable pub len : PackedValues → ℕ
len v = length v.bytes / 32

unfoldable pub get : PackedValues → ℕ → Option ℕ
get v key_id = elim (checked_mul key_id 32) [
  | none ↦ none
  | some start ↦ elim (checked_add start 32) [
    | none ↦ none
    | some end ↦ elim (slice? v.bytes start end) [
      | none ↦ none
      | some value ↦ some (from_be_slice value)
    ]
  ]
]
