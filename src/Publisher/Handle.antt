-- ===== src/Publisher/Handle.antt =====
-- The dispatch of src/publisher.rs (`handle`, `handle_control`) and the loop of `run_publisher`, one
-- turn at a time. Which channel is ready, and how long, is the environment's choice: it is the list
-- of turns. The metrics are left out.
use reth_statefeed.Prelude.{
  ℕ, Bool, true, false, String, List, [], ◌∷◌, leb, ltb, if◌then◌else◌, Result, ok, err,
}
use reth_statefeed.Feed.{
  FeedEvent, executed, validated, validated_fallback, canonical_state_reset, forkchoice_applied,
  rejected, ControlEvent, activate_config,
}
use reth_statefeed.Wire.{Codec}
use reth_statefeed.Publisher.State.{
  Error, future_generation, SnapshotSource, CandidateStage, Publisher,
}
use reth_statefeed.Publisher.Exec.{Exec, ◌>>=◌, ◌>>◌, pure, raise, gets, active_generation}
use reth_statefeed.Publisher.Lifecycle.{maintain}
use reth_statefeed.Publisher.Project
use reth_statefeed.Publisher.Project.{project_candidate, promote_validated}
use reth_statefeed.Publisher.Canonical
use reth_statefeed.Publisher.Recovery.{
  is_ok, announce_gap, reanchor, activate, recover_until_success,
}

-- What one turn of the loop takes up: an event of either queue, a loss of queued events, or the
-- tick of the maintenance timer.
pub data Turn : Type 0 where
  data_event : FeedEvent → Turn
  control_event : ControlEvent → Turn
  pending_loss : Turn
  maintenance : Turn

-- A projection event that the snapshot covers already is dropped.
unfoldable pub unless_covered : ℕ → Exec Bool → Exec Bool
unless_covered observed_at body = do
  anchored_at ← gets (λ s. s.snapshot_anchored_at)
  if leb observed_at anchored_at then pure false else body

module _ (codec : Codec) (source : SnapshotSource) where
  unfoldable pub gap_and_reanchor : String → Exec (Unit {0})
  gap_and_reanchor reason = do announce_gap codec reason; reanchor codec source

  -- The handler of `CanonicalStateReset`.
  unfoldable pub reset : ℕ → ℕ → Exec Bool
  reset generation observed_at = do
    active ← gets active_generation
    anchored_at ← gets (λ s. s.snapshot_anchored_at)
    if ltb active generation
        then raise future_generation
        else if leb observed_at anchored_at
        then pure false
        else do gap_and_reanchor "canonical_state_reset"; pure true

  -- True if the event was published, which only the latency metrics use.
  unfoldable pub handle : FeedEvent → Exec Bool
  handle (executed observed_at generation block changes) =
      unless_covered observed_at
        (project_candidate codec source generation block changes CandidateStage.executed)
  handle (validated observed_at generation block_hash) =
      promote_validated codec source generation block_hash
  handle (validated_fallback observed_at generation block changes) =
      unless_covered observed_at
        (project_candidate codec source generation block changes CandidateStage.validated)
  handle (canonical_state_reset observed_at generation head) = reset generation observed_at
  handle (forkchoice_applied observed_at generation view) =
      Canonical.forkchoice_applied codec source generation observed_at view
  handle (rejected observed_at generation block_hash reason) =
      Project.rejected codec generation block_hash reason

  -- The Boolean is the acknowledgement; a failed activation is no error of the loop.
  unfoldable pub handle_control : ControlEvent → Exec Bool
  handle_control (activate_config watch_set) s =
      let (r, s') = activate codec source watch_set s in (ok (is_ok r), s')

  -- After an error the loop recovers, or ends by a shutdown.
  unfoldable pub or_recover :
      {A : Type 0} → ℕ → String → Result Error A × Publisher → Bool × Publisher
  or_recover waits reason (ok a, s) = (true, s)
  or_recover waits reason (err e, s) = recover_until_success codec source waits reason s

  unfoldable pub take_turn : ℕ → Turn → Publisher → Bool × Publisher
  take_turn waits (data_event event) s = or_recover waits "publisher_error" (handle event s)
  take_turn waits (control_event event) s =
      or_recover waits "publisher_error" (handle_control event s)
  take_turn waits pending_loss s =
      recover_until_success codec source waits "engine_queue_overflow" s
  take_turn waits maintenance s = or_recover waits "candidate_maintenance_error" (maintain codec s)

  -- The loop over the turns: each with the time at which it is taken and the patience that its
  -- recovery would have before a shutdown. It ends early when a recovery is shut down.
  unfoldable pub run : List (ℕ × ℕ × Turn) → Publisher → Bool × Publisher
  run [] s = (true, s)
  run ((now, waits, turn) ∷ turns) s =
      let (alive, s') = take_turn waits turn (record s { now = now }) in
      let rest = run turns s' in if alive then rest else (false, s')
