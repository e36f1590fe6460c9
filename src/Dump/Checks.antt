-- ===== src/Dump/Checks.antt =====
-- The loop of `main` in src/bin/statefeed-dump.rs: what the diagnostic consumer checks of each
-- envelope, and what it keeps. The lines it prints are left out.
pub mod Converting
pub mod Accepting
use Prim.Native.Nat.{bit_and}
use Prim.Native.String
use reth_statefeed.Prelude.{
  ℕ, zero, suc, ◌+◌, ◌/◌, ◌^◌, Bool, true, false, not, ◌&&◌, ◌||◌, Option, none, some, is_some_and,
  String, List, [], ◌∷◌, length, is_empty, ltb, leb, ◌==◌, opt_eq, if◌then◌else◌, Result, ok, err,
  ensure, ok_or, ◌>>=◌, ◌>>◌,
}
use reth_statefeed.Prelude.Bytes.{bytes_eq, from_be_slice}
use reth_statefeed.Wire.{
  Envelope, Event, hello, config_activated, snapshot, block_state, block_validated, block_rejected,
  canonical_head, forkchoice_applied, candidates_retired, gap, WatchKey, BlockRef, CheckpointRef,
  ForkchoiceView, protocol_version,
}
use reth_statefeed.Client.{ClientError}
use reth_statefeed.Client.Packed.{PackedValues, new}
use reth_statefeed.Dump.{StreamError, StreamPhase, observe}
use reth_statefeed.Dump.Tracker.{
  CandidateTracker, insert_candidate, remove_exact, remove_tree, clear,
}

-- One constructor for each `ensure!`, `ok_or_else` and `map_err`.
pub data CheckError : Type 0 where
  unsupported_version bad_boot_id boot_id_changed no_event : CheckError
  bad_genesis incomplete_capabilities : CheckError
  generation_regressed sparse_dictionary bad_coordinate : CheckError
  wrong_generation no_block bad_block_hash bad_parent_hash : CheckError
  no_view no_head bad_head_hash bad_checkpoint_hash checkpoint_ahead finalized_ahead : CheckError
  head_mismatch unknown_stage unspecified_stage executed_unadvertised bad_bitmap : CheckError
  bad_previous_hash bad_hash no_reason forkchoice_unadvertised : CheckError
  retirement_unadvertised unknown_reason unspecified_reason empty_batch : CheckError
  cursor : StreamError → CheckError
  values : ClientError → CheckError

-- The variables of `main`.
pub record DumpState : Type 0 where
  pub phase : StreamPhase
  pub active_generation : Option ℕ
  pub key_count : ℕ
  pub boot_id : Option (List ℕ)
  pub capabilities : ℕ
  pub candidates : CandidateTracker

-- `capabilities & bit != 0`.
abbrev pub has_capability : ℕ → ℕ → Bool
has_capability capabilities bit = not (bit_and capabilities bit == 0)

abbrev pub cap_executed : ℕ
cap_executed = 16

abbrev pub cap_forkchoice_applied : ℕ
cap_forkchoice_applied = 32

abbrev pub cap_candidate_retirement : ℕ
cap_candidate_retirement = 64

unfoldable pub validate_generation : Option ℕ → ℕ → Result CheckError (Unit {0})
validate_generation active event = ensure (opt_eq active (some event)) wrong_generation

unfoldable pub validate_block_ref : Option BlockRef → Result CheckError BlockRef
validate_block_ref reference = do
  block ← ok_or reference no_block
  ensure (length block.hash == 32) bad_block_hash
  ensure (length block.parent_hash == 32) bad_parent_hash
  ok block

-- A round of the loop over the checkpoints that are set.
unfoldable pub validate_checkpoint :
    CheckpointRef → Option CheckpointRef → Result CheckError (Unit {0})
validate_checkpoint head none = ok tt
validate_checkpoint head (some checkpoint) = do
  ensure (length checkpoint.hash == 32) bad_checkpoint_hash
  ensure (leb checkpoint.number head.number) checkpoint_ahead

abbrev pub in_order : Option CheckpointRef → Option CheckpointRef → Bool
in_order none finalized = true
in_order (some safe) none = true
in_order (some safe) (some finalized) = leb finalized.number safe.number

-- The view, beside its head.
unfoldable pub validate_forkchoice_view :
    Option ForkchoiceView → Result CheckError (ForkchoiceView × CheckpointRef)
unfolding validate_checkpoint
validate_forkchoice_view reference = do
  view ← ok_or reference no_view
  head ← ok_or view.head no_head
  ensure (length head.hash == 32) bad_head_hash
  validate_checkpoint head view.safe
  validate_checkpoint head view.finalized
  ensure (in_order view.safe view.finalized) finalized_ahead
  ok (view, head)

-- `PackedValues::new` under `?`.
unfoldable pub packed : List ℕ → ℕ → Result CheckError PackedValues
packed bytes key_count = elim (new bytes key_count) [ err e ↦ err (values e) | ok v ↦ ok v ]

unfoldable pub are_dense : ℕ → List WatchKey → Bool
are_dense index [] = true
are_dense index (key ∷ keys) = key.key_id == index && are_dense (suc index) keys

unfoldable pub are_coordinates : List WatchKey → Bool
are_coordinates [] = true
are_coordinates (key ∷ keys) =
    (length key.address == 20 && length key.slot == 32) && are_coordinates keys

-- The loop over a retirement batch.
unfoldable pub retire : List (List ℕ) → CandidateTracker → Result CheckError CandidateTracker
retire [] t = ok t
retire (hash ∷ rest) t = do
  ensure (length hash == 32) bad_hash
  retire rest (remove_exact (from_be_slice hash) t)

abbrev pub track : BlockRef → CandidateTracker → CandidateTracker
track block = insert_candidate (from_be_slice block.hash) (from_be_slice block.parent_hash)

abbrev pub bitmap_len : ℕ → ℕ
bitmap_len key_count = (key_count + 7) / 8

abbrev pub at_least : Option ℕ → ℕ → Bool
at_least none generation = true
at_least (some active) generation = leb active generation

abbrev pub is_blank_text : String → Bool
is_blank_text text = String.len text == 0

-- The `match` on the event.
unfoldable pub on_event : ℕ → Event → DumpState → Result CheckError DumpState
unfolding validate_generation validate_block_ref validate_forkchoice_view packed are_dense
    are_coordinates retire
on_event generation (hello event) s = do
  ensure (length event.genesis_hash == 32) bad_genesis
  ensure
      (not (has_capability event.capabilities cap_executed)
        || (has_capability event.capabilities cap_forkchoice_applied
            && has_capability event.capabilities cap_candidate_retirement))
      incomplete_capabilities
  ok (record s { capabilities = event.capabilities })
on_event generation (config_activated event) s = do
  ensure (at_least s.active_generation generation) generation_regressed
  ensure (are_dense 0 event.keys) sparse_dictionary
  ensure (are_coordinates event.keys) bad_coordinate
  ok (record s {
    key_count = length event.keys;
    active_generation = some generation;
    candidates = clear s.candidates;
  })
on_event generation (snapshot event) s = do
  validate_generation s.active_generation generation
  block ← validate_block_ref event.block
  (view, head) ← validate_forkchoice_view event.forkchoice
  ensure (head.number == block.number && bytes_eq head.hash block.hash) head_mismatch
  _ ← packed event.values s.key_count
  ok (record s { candidates = track block (clear s.candidates) })
on_event generation (block_state event) s = do
  validate_generation s.active_generation generation
  block ← validate_block_ref event.block
  ensure (leb event.stage 2) unknown_stage
  ensure (not (event.stage == 0)) unspecified_stage
  ensure (not (event.stage == 1) || has_capability s.capabilities cap_executed)
      executed_unadvertised
  ensure (length event.changed_bitmap == bitmap_len s.key_count) bad_bitmap
  _ ← packed event.values s.key_count
  ok (record s { candidates = track block s.candidates })
on_event generation (canonical_head event) s = do
  validate_generation s.active_generation generation
  block ← validate_block_ref event.block
  ensure (length event.previous_block_hash == 32) bad_previous_hash
  ensure (is_empty event.changed_bitmap || length event.changed_bitmap == bitmap_len s.key_count)
      bad_bitmap
  _ ← packed event.values s.key_count
  ok (record s { candidates = track block s.candidates })
on_event generation (block_validated event) s = do
  validate_generation s.active_generation generation
  ensure (length event.block_hash == 32) bad_hash
  ok s
on_event generation (block_rejected event) s = do
  validate_generation s.active_generation generation
  ensure (length event.block_hash == 32) bad_hash
  ensure (not (is_blank_text event.reason)) no_reason
  ok (record s { candidates = remove_tree (from_be_slice event.block_hash) s.candidates })
on_event generation (forkchoice_applied event) s = do
  validate_generation s.active_generation generation
  ensure (has_capability s.capabilities cap_forkchoice_applied) forkchoice_unadvertised
  _ ← validate_forkchoice_view event.view
  ok s
on_event generation (candidates_retired event) s = do
  validate_generation s.active_generation generation
  ensure (has_capability s.capabilities cap_candidate_retirement) retirement_unadvertised
  ensure (leb event.reason 4) unknown_reason
  ensure (not (event.reason == 0)) unspecified_reason
  ensure (not (is_empty event.block_hashes)) empty_batch
  candidates ← retire event.block_hashes s.candidates
  ok (record s { candidates = candidates })
on_event generation (gap event) s = do
  validate_generation s.active_generation generation
  ensure (not (is_blank_text event.reason)) no_reason
  ok (record s { candidates = clear s.candidates })

abbrev pub same_boot : Option (List ℕ) → List ℕ → Bool
same_boot none boot_id = true
same_boot (some expected) boot_id = bytes_eq expected boot_id

-- `cursor.observe` under `?`.
unfoldable pub follow : StreamPhase → ℕ → ℕ → Event → Result CheckError StreamPhase
follow phase sequence generation event = elim (observe phase sequence generation event) [
  | err e ↦ err (cursor e)
  | ok next ↦ ok next
]

-- One turn of the loop.
unfoldable pub on_envelope : Envelope → DumpState → Result CheckError DumpState
unfolding on_event follow
on_envelope envelope s = do
  ensure (envelope.protocol_version == protocol_version) unsupported_version
  ensure (length envelope.boot_id == 16) bad_boot_id
  ensure (same_boot s.boot_id envelope.boot_id) boot_id_changed
  event ← ok_or envelope.event no_event
  phase ← follow s.phase envelope.sequence envelope.config_generation event
  on_event envelope.config_generation event
      (record s { boot_id = some envelope.boot_id; phase = phase })
