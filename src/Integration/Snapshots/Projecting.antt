-- ===== src/Integration/Snapshots/Projecting.antt =====
-- What `load_at` of src/reth_integration.rs reads from the state of a block.
use reth_statefeed.Prelude.{
  ℕ, zero, suc, ◌+◌, ◌*◌, ◌^◌, ◌<◌, ◌≡◌, Option, none, some, List, [], ◌∷◌, ◌++◌, length, get_elem?,
  Result, ok, err, ok_or, subst, refl, ap, ◌∙◌, arith, u64_mod, length-append,
}
use mathlib.Core.Option
use reth_statefeed.Prelude.Bytes.{
  length-to_be_bytes, from_be_slice-to_be_bytes, to_be_bytes, from_be_slice,
}
use reth_statefeed.Prelude.Slices.{value_bytes, take_of_length, value_bytes_of_append}
use reth_statefeed.Watch.{WatchSet, WatchKey}
use reth_statefeed.Client.Packed
use reth_statefeed.Feed.{BlockMeta}
use reth_statefeed.Publisher.Validate.{validate_projection_shape}
use reth_statefeed.Publisher.State.{Projection}
use reth_statefeed.Publisher.Validate.Writes.{get-value}
use reth_statefeed.Integration.Snapshots.{
  SnapshotError, Header, World, StateView, push_value, read_values, load_at, header_not_found,
}
use reth_statefeed.Integration.Snapshots.Reads.{at-eq-ok, lift-eq-ok}

-- A state of 256-bit words.
abbrev pub IsWide : StateView → Type 0
IsWide state = (a s v : ℕ) → state a s ≡ ok (some v) → v < 256 ^ 32

-- The 32 bytes at the place of each key are its word in the state, zero where there is none.
abbrev pub AreValues : StateView → List WatchKey → List ℕ → Type 0
AreValues state keys values =
    (i : ℕ) (key : WatchKey)
    → get_elem? keys i ≡ some key
    → (value : Option ℕ) × (state key.address key.slot ≡ ok value)
      × (value_bytes values i ≡ to_be_bytes 32 (Option.get_or value 0))

push_value-eq-ok :
    (now : Result SnapshotError (Option ℕ)) (later : Result SnapshotError (List ℕ))
    {values : List ℕ}
    → push_value now later ≡ ok values
    → (value : Option ℕ) × (rest : List ℕ) × (now ≡ ok value)
      × (later ≡ ok rest)
      × (values ≡ to_be_bytes 32 (Option.get_or value 0) ++ rest)
push_value-eq-ok (err e) later h = cc
push_value-eq-ok (ok value) (err e) h = cc
push_value-eq-ok (ok value) (ok rest) h = (value, rest, refl, refl, cc)

read_values_lem :
    (state : StateView) (keys : List WatchKey) {values : List ℕ}
    → read_values state keys ≡ ok values
    → (length values ≡ length keys * 32) × AreValues state keys values
unfolding read_values
read_values_lem state [] {values = values} h = (ap length none_read, λ i key found. cc)
  where
    none_read : values ≡ []
    none_read = cc
read_values_lem state (key ∷ rest) {values = values} h =
    let (value, more, now, later, same) =
      push_value-eq-ok (state key.address key.slot) (read_values state rest) h in
    let (long, reads) = read_values_lem state rest later in
    let first = to_be_bytes 32 (Option.get_or value 0) in
    (
      omega (
        arith,
        ap length same,
        length-append first more,
        length-to_be_bytes 32 (Option.get_or value 0),
        long,
      ),
      λ i other found. rw same (at_index value more i other now reads found),
    )
  where
    at_index :
        (value : Option ℕ) (more : List ℕ) (i : ℕ) (other : WatchKey)
        → state key.address key.slot ≡ ok value
        → AreValues state rest more
        → get_elem? (key ∷ rest) i ≡ some other
        → (v : Option ℕ) × (state other.address other.slot ≡ ok v)
          × (value_bytes (to_be_bytes 32 (Option.get_or value 0) ++ more) i
              ≡ to_be_bytes 32 (Option.get_or v 0))
    at_index value more zero other now reads found = (
      value,
      ap (λ k. state k.address k.slot) same_key ∙ now,
      take_of_length 32 (to_be_bytes 32 (Option.get_or value 0)) more
          (length-to_be_bytes 32 (Option.get_or value 0)),
    )
      where
        same_key : other ≡ key
        same_key = cc
    at_index value more (suc i) other now reads found =
        let (v, read, bytes) = reads i other found in
        (
          v,
          read,
          value_bytes_of_append (to_be_bytes 32 (Option.get_or value 0)) more i
                (length-to_be_bytes 32 (Option.get_or value 0))
              ∙ bytes,
        )

-- The projection of a block: its header, and the words of its state at the keys.
pub record IsReadAt (w : World) (watch_set : WatchSet) (hash t : ℕ) (p : Projection) : Type 0 where
  pub header : Header
  pub state : StateView
  pub header_read : w.sealed_header_by_hash t hash ≡ ok (some header)
  pub state_read : w.state_by_block_hash (t + 1) hash ≡ ok state
  pub same_hash : p.block.hash ≡ hash
  pub same_number : p.block.number ≡ header.number
  pub same_parent : p.block.parent_hash ≡ header.parent_hash
  pub same_timestamp : p.block.timestamp ≡ header.timestamp
  pub same_set : p.watch_set ≡ watch_set
  pub shape : validate_projection_shape p ≡ ok tt
  pub words :
      (i : ℕ) (key : WatchKey)
      → get_elem? watch_set.keys i ≡ some key
      → (value : Option ℕ) × (state key.address key.slot ≡ ok value)
        × (Packed.get (record { bytes = p.values }) i ≡ some (Option.get_or value 0))

get_elem?-lt :
    (keys : List WatchKey) (i : ℕ) (key : WatchKey) → get_elem? keys i ≡ some key → i < length keys
get_elem?-lt [] i key h = cc
get_elem?-lt (k ∷ keys) zero key h = omega arith
get_elem?-lt (k ∷ keys) (suc i) key h = omega (arith, get_elem?-lt keys i key h)

get_or-lt :
    (state : StateView) (a s : ℕ) (value : Option ℕ)
    → IsWide state
    → state a s ≡ ok value
    → Option.get_or value 0 < 256 ^ 32
get_or-lt state a s none wide h = omega arith
get_or-lt state a s (some v) wide h = wide a s v h

shape_of_length :
    (watch_set : WatchSet) (block : BlockMeta) (values : List ℕ)
    → length watch_set.keys * 32 < u64_mod
    → length values ≡ length watch_set.keys * 32
    → validate_projection_shape
        (record { block = block; watch_set = watch_set; values = values; changed_bitmap = [] })
      ≡ ok tt
unfolding validate_projection_shape
shape_of_length watch_set block values few long = ground arith

-- A projection that `load_at` returns has the block of the header that the provider has for the
-- hash, the shape that `validate_projection_shape` asks for, and at the place of each key the word
-- that the state of the block holds at the key's coordinate, or zero. The state is one of 256-bit
-- words, and the values of the keys take less than 2^64 bytes.
pub load_at-IsReadAt :
    (w : World) (watch_set : WatchSet) (hash t : ℕ) (p : Projection) (t' : ℕ)
    → length watch_set.keys * 32 < u64_mod
    → ((s : ℕ) (state : StateView) → w.state_by_block_hash s hash ≡ ok state → IsWide state)
    → load_at w watch_set hash t ≡ (ok p, t')
    → IsReadAt w watch_set hash t p
unfolding load_at
load_at-IsReadAt w watch_set hash t p t' few wide h =
    let (found, h₁, r₁) = at-eq-ok (λ t. w.sealed_header_by_hash t hash) _ t h in
    let (header, h₂, r₂) = lift-eq-ok (ok_or found header_not_found) _ _ r₁ in
    let (state, h₃, r₃) = at-eq-ok (λ t. w.state_by_block_hash t hash) _ _ r₂ in
    let (values, h₄, r₄) = lift-eq-ok (read_values state watch_set.keys) _ _ r₃ in
    let (long, reads) = read_values_lem state watch_set.keys h₄ in
    subst (IsReadAt w watch_set hash t) (same_projection header values r₄) (record {
      header = header;
      state = state;
      header_read = h₁ ∙ ap ok (found_header found h₂);
      state_read = h₃;
      same_hash = refl;
      same_number = refl;
      same_parent = refl;
      same_timestamp = refl;
      same_set = refl;
      shape = shape_of_length watch_set _ values few long;
      words = λ i key at_i.
          let (value, read, bytes) = reads i key at_i in
          (
            value,
            read,
            get-value values (length watch_set.keys) i long few
                  (get_elem?-lt watch_set.keys i key at_i)
                ∙ ap (λ b. some (from_be_slice b)) bytes
                ∙ ap some (
                    from_be_slice-to_be_bytes 32 (Option.get_or value 0)
                      (get_or-lt state key.address key.slot value (wide (t + 1) state h₃) read)),
          );
    })
  where
    found_header :
        (found : Option Header) {header : Header}
        → ok_or found header_not_found ≡ ok header
        → found ≡ some header
    found_header none h = cc
    found_header (some a) h = cc

    read_projection : Header → List ℕ → Projection
    read_projection header values = record {
      block = record {
        number = header.number;
        hash = hash;
        parent_hash = header.parent_hash;
        timestamp = header.timestamp;
      };
      watch_set = watch_set;
      values = values;
      changed_bitmap = [];
    }

    same_projection :
        (header : Header) (values : List ℕ) {end : ℕ}
        → ◌≡◌ {A = Result SnapshotError Projection × ℕ}
            (ok (read_projection header values), end)
            (ok p, t')
        → read_projection header values ≡ p
    same_projection header values h = cc
