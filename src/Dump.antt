-- ===== src/Dump.antt =====
-- src/bin/statefeed-dump.rs: the protocol cursor of the diagnostic consumer.
pub mod Tracker
pub mod Checks
use reth_statefeed.Prelude.{
  ℕ, Bool, true, false, Option, none, some, ltb, ◌==◌, opt_eq, if◌then◌else◌, Result, ok, ensure,
  ◌>>◌,
}
use reth_statefeed.Prelude.Bytes.{checked_add}
use reth_statefeed.Wire.{Event}

-- One constructor for each `ensure!` of the cursor.
pub data StreamError : Type 0 where
  not_hello not_config not_snapshot handshake_sequence handshake_generation : StreamError
  late_hello snapshot_expected snapshot_sequence gap_claim gap_sequence live_sequence : StreamError

pub data StreamPhase : Type 0 where
  hello : StreamPhase
  config : ℕ → ℕ → StreamPhase
  initial_snapshot : ℕ → ℕ → StreamPhase
  live : ℕ → Bool → StreamPhase

abbrev pub is_hello : Event → Bool
is_hello (Event.hello _) = true
is_hello _ = false

abbrev pub is_config : Event → Bool
is_config (Event.config_activated _) = true
is_config _ = false

abbrev pub is_snapshot : Event → Bool
is_snapshot (Event.snapshot _) = true
is_snapshot _ = false

-- The claim of a gap event.
abbrev pub gap_of : Event → Option ℕ
gap_of (Event.gap gap) = some gap.last_contiguous_sequence
gap_of _ = none

unfoldable pub validate_handshake_position : ℕ → ℕ → ℕ → ℕ → Result StreamError (Unit {0})
validate_handshake_position sequence generation baseline generation' = do
  ensure (sequence == baseline) handshake_sequence
  ensure (generation == generation') handshake_generation

-- `Some(sequence) == last_sequence.checked_add(1)`.
abbrev pub follows : ℕ → ℕ → Bool
follows sequence last_sequence = opt_eq (some sequence) (checked_add last_sequence 1)

-- The live phase behind the test for a late hello, when no snapshot is required.
unfoldable pub observe_open : ℕ → ℕ → Event → Option ℕ → Result StreamError StreamPhase
observe_open last_sequence sequence event (some claim) = do
  ensure (claim == last_sequence) gap_claim
  ensure (ltb last_sequence sequence) gap_sequence
  ok (live sequence true)
observe_open last_sequence sequence event none = do
  ensure (follows sequence last_sequence) live_sequence
  ok (live sequence (is_config event))

unfoldable pub observe_live : ℕ → Bool → ℕ → Event → Result StreamError StreamPhase
unfolding observe_open
observe_live last_sequence true sequence event = do
  ensure (is_snapshot event) snapshot_expected
  ensure (follows sequence last_sequence) snapshot_sequence
  ok (live sequence false)
observe_live last_sequence false sequence event =
    observe_open last_sequence sequence event (gap_of event)

-- `StreamCursor::observe`: the phase after an event, or why it is refused.
unfoldable pub observe : StreamPhase → ℕ → ℕ → Event → Result StreamError StreamPhase
unfolding validate_handshake_position observe_live
observe hello sequence generation event = do
  ensure (is_hello event) not_hello
  ok (config sequence generation)
observe (config baseline generation') sequence generation event = do
  ensure (is_config event) not_config
  validate_handshake_position sequence generation baseline generation'
  ok (initial_snapshot baseline generation)
observe (initial_snapshot baseline generation') sequence generation event = do
  ensure (is_snapshot event) not_snapshot
  validate_handshake_position sequence generation baseline generation'
  ok (live baseline false)
observe (live last_sequence snapshot_required) sequence generation event = do
  ensure (if is_hello event then false else true) late_hello
  observe_live last_sequence snapshot_required sequence event
