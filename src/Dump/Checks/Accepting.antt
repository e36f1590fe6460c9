-- ===== src/Dump/Checks/Accepting.antt =====
-- The diagnostic consumer of src/bin/statefeed-dump.rs against the messages and the checks of
-- src/publisher.rs.
use reth_statefeed.Prelude.{
  ℕ, ◌^◌, ◌≤◌, ◌<◌, ◌≡◌, true, ◌&&◌, some, List, [], ◌∷◌, length, ◌==◌, ok, ◌>>=◌, >>=-eq-ok,
  ensure, ensure-eq-ok, refl, sym, ap, ◌∙◌, arith, u32_mod,
}
use reth_statefeed.Prelude.Bytes.{
  to_be_bytes, from_be_slice, bytes_eq, length-to_be_bytes, from_be_slice-to_be_bytes,
}
use reth_statefeed.Watch.{WatchConfig, WatchSet, compile, number_keys}
use reth_statefeed.Wire.{Event}
use reth_statefeed.Publisher.State.{CanonicalSnapshot, snapshot_head_mismatch}
use reth_statefeed.Publisher.Messages
use reth_statefeed.Publisher.Messages.{block_ref, checkpoint_ref, forkchoice_view, watch_key}
use reth_statefeed.Publisher.Validate.{validate_snapshot_view, validate_projection_shape}
use reth_statefeed.Prelude.Map.{get, insert, remove}
use reth_statefeed.Dump.Tracker.{CandidateTracker, insert_candidate, clear, link, trim}
use reth_statefeed.Dump.Checks.{DumpState, validate_generation, at_least, on_event}
use reth_statefeed.Dump.Checks.Converting.{
  bytes_eq_refl, validate_forkchoice_view-forkchoice_view, are_dense-number_keys,
  are_coordinates-watch_key, length-number_keys, length-map-watch_key, packed_of_shape,
}

-- The consumer's state after it was told the dictionary.
abbrev pub told : ℕ → WatchSet → DumpState → DumpState
told generation watch_set s = record s {
  key_count = length watch_set.keys;
  active_generation = some generation;
  candidates = clear s.candidates;
}

-- A configuration of at most 2^32 keys is accepted by a consumer with no later generation.
on_event-config_activated :
    (generation : ℕ) (configured : List WatchConfig) (s : DumpState)
    → length configured ≤ u32_mod
    → at_least s.active_generation generation ≡ true
    → on_event generation
        (Event.config_activated (Messages.config_activated (compile generation configured)))
        s
      ≡ ok (told generation (compile generation configured) s)
unfolding on_event Messages.config_activated compile
on_event-config_activated generation configured s few later =
    rw
      (
        later,
        are_dense-number_keys 0 configured (omega arith),
        are_coordinates-watch_key (number_keys 0 configured),
        length-map-watch_key (number_keys 0 configured),
      )
      refl

on_event-snapshot :
    (generation : ℕ) (loaded : CanonicalSnapshot) (s : DumpState)
    → s.active_generation ≡ some generation
    → s.key_count ≡ length loaded.projection.watch_set.keys
    → validate_snapshot_view loaded ≡ ok tt
    → validate_projection_shape loaded.projection ≡ ok tt
    → on_event generation (Event.snapshot (Messages.snapshot loaded.projection loaded.forkchoice)) s
      ≡ ok (record s {
        candidates =
            insert_candidate
              (from_be_slice (to_be_bytes 32 loaded.projection.block.hash))
              (from_be_slice (to_be_bytes 32 loaded.projection.block.parent_hash))
              (clear s.candidates);
      })
unfolding on_event Messages.snapshot validate_snapshot_view validate_generation block_ref
    checkpoint_ref
on_event-snapshot generation loaded s active keys view shape =
    let (_, same, rest) =
      >>=-eq-ok
        (ensure
          (loaded.forkchoice.head.number == loaded.projection.block.number
            && loaded.forkchoice.head.hash == loaded.projection.block.hash)
          snapshot_head_mismatch)
        _ view in
    rw
      (
        active,
        in_generation generation,
        length-to_be_bytes 32 loaded.projection.block.hash,
        length-to_be_bytes 32 loaded.projection.block.parent_hash,
        validate_forkchoice_view-forkchoice_view loaded.forkchoice rest,
        heads loaded.forkchoice.head.number loaded.projection.block.number
            loaded.forkchoice.head.hash loaded.projection.block.hash
            (ensure-eq-ok _ snapshot_head_mismatch same),
        keys,
        packed_of_shape loaded.projection shape,
      )
      refl
  where
    in_generation : (g : ℕ) → validate_generation (some g) g ≡ ok tt
    in_generation g = ground arith

    heads :
        (number number' hash hash' : ℕ)
        → (number == number' && hash == hash') ≡ true
        → (number == number' && bytes_eq (to_be_bytes 32 hash) (to_be_bytes 32 hash')) ≡ true
    heads number number' hash hash' h =
        rw (same_number, ap (to_be_bytes 32) same_hash, bytes_eq_refl (to_be_bytes 32 hash')) refl
      where
        same_number : (number == number') ≡ true
        same_number = ground arith

        same_hash : hash ≡ hash'
        same_hash = ground arith

length-keys-compile : (g : ℕ) (c : List WatchConfig) → length (compile g c).keys ≡ length c
unfolding compile
length-keys-compile g c = length-number_keys 0 c

-- A tracker that knows one block.
abbrev pub knows_one : ℕ → ℕ → ℕ → CandidateTracker
knows_one hash parent_hash limit = record {
  parents = (hash, parent_hash) ∷ [];
  children = (parent_hash, hash ∷ []) ∷ [];
  insertion_order = hash ∷ [];
  limit = limit;
}

insert_candidate-clear :
    (hash parent_hash : ℕ) (t : CandidateTracker)
    → 1 ≤ t.limit
    → insert_candidate hash parent_hash (clear t) ≡ knows_one hash parent_hash t.limit
unfolding insert_candidate link trim get insert remove
insert_candidate-clear hash parent_hash t h = ground arith

-- A consumer that knows no later generation, and whose tracker may hold a block, accepts the two
-- messages by which the publisher anchors a stream: the dictionary of a configuration of at most 2^32
-- keys, and a snapshot on that dictionary that passes the publisher's checks on its view and its
-- shape, with hashes of 32 bytes. It then knows the generation, the number of the keys, and of
-- candidates the block of the snapshot alone, under its parent.
pub on_event-greeting :
    (generation : ℕ) (configured : List WatchConfig) (loaded : CanonicalSnapshot) (s : DumpState)
    → loaded.projection.watch_set ≡ compile generation configured
    → length configured ≤ u32_mod
    → loaded.projection.block.hash < 256 ^ 32
    → loaded.projection.block.parent_hash < 256 ^ 32
    → 1 ≤ s.candidates.limit
    → at_least s.active_generation generation ≡ true
    → validate_snapshot_view loaded ≡ ok tt
    → validate_projection_shape loaded.projection ≡ ok tt
    → (on_event generation
          (Event.config_activated (Messages.config_activated (compile generation configured)))
          s
        >>= on_event generation
            (Event.snapshot (Messages.snapshot loaded.projection loaded.forkchoice)))
      ≡ ok (record s {
        key_count = length configured;
        active_generation = some generation;
        candidates =
            knows_one loaded.projection.block.hash loaded.projection.block.parent_hash
              s.candidates.limit;
      })
on_event-greeting generation configured loaded s same few hash parent room later view shape =
    ap
      (λ r.
        r
        >>= on_event generation
            (Event.snapshot (Messages.snapshot loaded.projection loaded.forkchoice)))
      (on_event-config_activated generation configured s few later)
    ∙ on_event-snapshot generation loaded (told generation (compile generation configured) s) refl
        (ap (λ w. length w.keys) (sym same)) view shape
    ∙ ap (λ c. ok (record (told generation (compile generation configured) s) { candidates = c }))
        (rw
          (
            from_be_slice-to_be_bytes 32 loaded.projection.block.hash hash,
            from_be_slice-to_be_bytes 32 loaded.projection.block.parent_hash parent,
          )
          (insert_candidate-clear loaded.projection.block.hash loaded.projection.block.parent_hash
            s.candidates room))
    ∙ ap
        (λ n. ok (record s {
          key_count = n;
          active_generation = some generation;
          candidates =
              knows_one loaded.projection.block.hash loaded.projection.block.parent_hash
                s.candidates.limit;
        }))
        (length-keys-compile generation configured)
