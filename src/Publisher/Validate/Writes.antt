-- ===== src/Publisher/Validate/Writes.antt =====
-- One change of the loop of `project_candidate` in src/publisher.rs, as `PackedValues::get` of
-- src/client.rs reads it.
use reth_statefeed.Prelude.{
  ℕ, ◌+◌, ◌-◌, ◌*◌, ◌^◌, ◌≤◌, ◌<◌, ◌≡◌, ◌≢◌, true, none, some, List, [], ◌∷◌, length, ltb,
  if◌then◌else◌, refl, arith, u64_mod, Bool-cases, inl, inr, ltb→lt, le_of_ltb,
}
use reth_statefeed.Prelude.Bytes.{
  to_be_bytes, from_be_slice, length-to_be_bytes, from_be_slice-to_be_bytes, slice?, splice,
  bytes_eq,
}
use reth_statefeed.Prelude.Slices.{
  value_bytes, length-splice, value_bytes-splice, value_bytes-splice-other,
}
use reth_statefeed.Watch.{SlotChange}
use reth_statefeed.Client.Packed
use reth_statefeed.Client.Packed.{PackedValues}

-- A change of a watched key to a 256-bit word.
abbrev pub IsWatchedChange : ℕ → SlotChange → Type 0
IsWatchedChange n change = change.key_id < n × change.new_value < 256 ^ 32

pub slice?-value :
    (bytes : List ℕ) (n key : ℕ)
    → length bytes ≡ n * 32
    → key < n
    → slice? bytes (key * 32) (key * 32 + 32) ≡ some (value_bytes bytes key)
slice?-value bytes n key h hk = rw (width (key * 32)) (ground arith)
  where
    width : (k : ℕ) → 32 ≡ k + 32 - k
    width k = omega arith

pub get-value :
    (bytes : List ℕ) (n key : ℕ)
    → length bytes ≡ n * 32
    → n * 32 < u64_mod
    → key < n
    → Packed.get (record { bytes = bytes }) key ≡ some (from_be_slice (value_bytes bytes key))
unfolding Packed.get
get-value bytes n key h hn hk = ground (arith, slice?-value bytes n key h hk)

get_of_ge :
    (bytes : List ℕ) (n key : ℕ)
    → length bytes ≡ n * 32
    → n ≤ key
    → Packed.get (record { bytes = bytes }) key ≡ none
unfolding Packed.get
get_of_ge bytes n key h hk = ground arith

pub bytes_eq→eq : (xs ys : List ℕ) → bytes_eq xs ys ≡ true → xs ≡ ys
bytes_eq→eq [] [] h = refl
bytes_eq→eq [] (y ∷ ys) h = ground arith
bytes_eq→eq (x ∷ xs) [] h = ground arith
bytes_eq→eq (x ∷ xs) (y ∷ ys) h = ground (arith, bytes_eq→eq xs ys)

-- The values after one change, as the loop writes them.
abbrev pub written : List ℕ → SlotChange → List ℕ
written values change =
    let next = to_be_bytes 32 change.new_value in
    if bytes_eq (value_bytes values change.key_id) next
    then values
    else splice values (change.key_id * 32) next

pub length-written :
    (values : List ℕ) (n : ℕ) (change : SlotChange)
    → length values ≡ n * 32
    → change.key_id < n
    → length (written values change) ≡ n * 32
length-written values n change h hk =
    let next = to_be_bytes 32 change.new_value in
    ground (
      arith,
      length-splice values next (change.key_id * 32)
          (omega (arith, length-to_be_bytes 32 change.new_value)),
    )

value_bytes-written :
    (values : List ℕ) (n : ℕ) (change : SlotChange)
    → length values ≡ n * 32
    → change.key_id < n
    → value_bytes (written values change) change.key_id ≡ to_be_bytes 32 change.new_value
value_bytes-written values n change h hk =
    let next = to_be_bytes 32 change.new_value in
    elim (Bool-cases (bytes_eq (value_bytes values change.key_id) next)) [
      | inl same ↦ rw same (bytes_eq→eq (value_bytes values change.key_id) next same)
      | inr differs ↦ rw differs (
          value_bytes-splice values next change.key_id (length-to_be_bytes 32 change.new_value)
            (omega arith))
    ]

pub value_bytes-written-other :
    (values : List ℕ) (n key : ℕ) (change : SlotChange)
    → length values ≡ n * 32
    → change.key_id < n
    → change.key_id ≢ key
    → value_bytes (written values change) key ≡ value_bytes values key
value_bytes-written-other values n key change h hk ne =
    let next = to_be_bytes 32 change.new_value in
    elim (Bool-cases (bytes_eq (value_bytes values change.key_id) next)) [
      | inl same ↦ rw same refl
      | inr differs ↦ rw differs (
          value_bytes-splice-other values next change.key_id key
            (length-to_be_bytes 32 change.new_value) (omega arith) ne)
    ]

-- One change, as `PackedValues::get` sees it: at its key, and at any other one.
pub get-written :
    (values : List ℕ) (n : ℕ) (change : SlotChange)
    → length values ≡ n * 32
    → n * 32 < u64_mod
    → IsWatchedChange n change
    → Packed.get (record { bytes = written values change }) change.key_id ≡ some change.new_value
get-written values n change h hn (hk, hv) =
    rw
      (
        get-value (written values change) n change.key_id (length-written values n change h hk) hn
            hk,
        value_bytes-written values n change h hk,
        from_be_slice-to_be_bytes 32 change.new_value hv,
      )
      refl

pub get-written-other :
    (values : List ℕ) (n key : ℕ) (change : SlotChange)
    → length values ≡ n * 32
    → n * 32 < u64_mod
    → change.key_id < n
    → change.key_id ≢ key
    → Packed.get (record { bytes = written values change }) key
      ≡ Packed.get (record { bytes = values }) key
get-written-other values n key change h hn hk ne =
    let long = length-written values n change h hk in
    elim (Bool-cases (ltb key n)) [
      | inl watched ↦
          let hkey = ltb→lt key n watched in
          rw
            (
              get-value (written values change) n key long hn hkey,
              get-value values n key h hn hkey,
              value_bytes-written-other values n key change h hk ne,
            )
            refl
      | inr outside ↦
          let hkey = le_of_ltb key n outside in
          rw (get_of_ge (written values change) n key long hkey, get_of_ge values n key h hkey) refl
    ]
