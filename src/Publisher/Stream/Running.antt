-- ===== src/Publisher/Stream/Running.antt =====
-- The handlers and the loop of `run_publisher` in src/publisher.rs: whatever the engine, the source,
-- the configuration and the clock do, a consumer can follow the frames.
use reth_statefeed.Prelude.{
  ℕ, ◌≡◌, ◌<◌, Bool, true, false, String, List, [], ◌∷◌, Result, ok, err, if◌then◌else◌, u64_mod,
}
use reth_statefeed.Feed.{
  FeedEvent, executed, validated, validated_fallback, canonical_state_reset, forkchoice_applied,
  rejected, ControlEvent, activate_config,
}
use reth_statefeed.Wire.{Codec}
use reth_statefeed.Dump.{StreamPhase, live}
use reth_statefeed.Publisher.State.{Error, PublishedFrame, SnapshotSource, Publisher}
use reth_statefeed.Publisher.Exec.{Exec, ◌>>=◌, continue}
use reth_statefeed.Publisher.Recovery.{announce_gap, reanchor}
use reth_statefeed.Publisher.Handle.{
  gap_and_reanchor, reset, unless_covered, handle, handle_control, Turn, data_event, control_event,
  pending_loss, maintenance, or_recover, take_turn, run,
}
use reth_statefeed.Publisher.Stream.{IsMonotone, Delivers, none_yet, DeliversTo, IsClean}
use reth_statefeed.Publisher.Stream.Rules.{Keeps, Post, IsDirty-of_IsClean}
use reth_statefeed.Publisher.Stream.Handlers.{keeps_rules, maintain-Keeps}
use reth_statefeed.Publisher.Stream.Projecting.{
  project_candidate-Keeps, promote_validated-Keeps, rejected-Keeps,
}
use reth_statefeed.Publisher.Stream.Heads.{forkchoice_applied-Keeps}
use reth_statefeed.Publisher.Stream.Recovering.{AfterGap, announce_gap_lem}
use reth_statefeed.Publisher.Stream.Anchoring.{
  Alive, AfterAnchor, reanchor_lem, activate-IsClean, recover_until_success-Alive,
}

module _ (codec : Codec) (source : SnapshotSource) (mono : IsMonotone codec) where
  module _ (base : List PublishedFrame) (start : StreamPhase) where
    Post-of_AfterAnchor :
        (r : Result Error (Unit {0})) (s : Publisher)
        → AfterAnchor codec source mono base start (r, s)
        → Post codec base start (r, s)
    Post-of_AfterAnchor (ok u) s a = a
    Post-of_AfterAnchor (err e) s a = a.0

    gap_and_reanchor-Keeps :
        (reason : String) → Keeps codec base start (gap_and_reanchor codec source reason)
    unfolding gap_and_reanchor ◌>>=◌
    gap_and_reanchor-Keeps reason = record {
      at = λ s c. cases (announce_gap codec reason s).0 _ (
          announce_gap_lem codec base start reason s (IsDirty-of_IsClean codec base start c)
            c.anchored);
    }
      where
        cases :
            (r : Result Error (Unit {0})) (s' : Publisher)
            → AfterGap codec base start (r, s')
            → Post codec base start (continue (r, s') (λ _. reanchor codec source))
        cases (ok u) s' a =
            Post-of_AfterAnchor (reanchor codec source s').0 _
              (reanchor_lem codec source mono base start s' a)
        cases (err e) s' a = a.0

    unless_covered-Keeps :
        (observed_at : ℕ) {body : Exec Bool}
        → Keeps codec base start body
        → Keeps codec base start (unless_covered observed_at body)
    unfolding unless_covered
    unless_covered-Keeps observed_at k = search keeps_rules

    reset-Keeps :
        (generation observed_at : ℕ)
        → Keeps codec base start (reset codec source generation observed_at)
    unfolding reset
    reset-Keeps generation observed_at = search (keeps_rules, gap_and_reanchor-Keeps) depth 10

    handle-Keeps : (event : FeedEvent) → Keeps codec base start (handle codec source event)
    unfolding handle
    handle-Keeps (executed observed_at generation block changes) =
        unless_covered-Keeps observed_at
          (project_candidate-Keeps codec source base start generation block changes _)
    handle-Keeps (validated observed_at generation block_hash) =
        promote_validated-Keeps codec source base start generation block_hash
    handle-Keeps (validated_fallback observed_at generation block changes) =
        unless_covered-Keeps observed_at
          (project_candidate-Keeps codec source base start generation block changes _)
    handle-Keeps (canonical_state_reset observed_at generation head) =
        reset-Keeps generation observed_at
    handle-Keeps (forkchoice_applied observed_at generation view) =
        forkchoice_applied-Keeps codec source base start generation observed_at view
    handle-Keeps (rejected observed_at generation block_hash reason) =
        rejected-Keeps codec base start generation block_hash reason

    handle_control-Post :
        (event : ControlEvent) (s : Publisher)
        → IsClean codec base start s.shared
        → Post codec base start (handle_control codec source event s)
    unfolding handle_control
    handle_control-Post (activate_config watch_set) s c =
        activate-IsClean codec source mono base start watch_set s c

    or_recover-Alive :
        {A : Type 0} (waits : ℕ) (reason : String) (r : Result Error A) (s : Publisher)
        → Post codec base start (r, s)
        → Alive codec source mono base start (or_recover codec source waits reason (r, s))
    unfolding or_recover
    or_recover-Alive waits reason (ok a) s p = p
    or_recover-Alive waits reason (err e) s p =
        recover_until_success-Alive codec source mono base start waits reason s p

    take_turn-Alive :
        (waits : ℕ) (turn : Turn) (s : Publisher)
        → IsClean codec base start s.shared
        → Alive codec source mono base start (take_turn codec source waits turn s)
    unfolding take_turn
    take_turn-Alive waits (data_event event) s c =
        or_recover-Alive waits _ _ _ ((handle-Keeps event).at s c)
    take_turn-Alive waits (control_event event) s c =
        or_recover-Alive waits _ _ _ (handle_control-Post event s c)
    take_turn-Alive waits pending_loss s c =
        recover_until_success-Alive codec source mono base start waits _ s
          (IsDirty-of_IsClean codec base start c)
    take_turn-Alive waits maintenance s c =
        or_recover-Alive waits _ _ _ ((maintain-Keeps codec base start).at s c)

    run-Alive :
        (turns : List (ℕ × ℕ × Turn)) (s : Publisher)
        → IsClean codec base start s.shared
        → Alive codec source mono base start (run codec source turns s)
    unfolding run
    run-Alive [] s c = c
    run-Alive ((now, waits, turn) ∷ turns) s c =
        cases (take_turn codec source waits turn (record s { now = now }))
          (take_turn-Alive waits turn (record s { now = now }) c) (run-Alive turns)
      where
        cases :
            (t : Bool × Publisher)
            → Alive codec source mono base start t
            → ((s' : Publisher)
                → IsClean codec base start s'.shared
                → Alive codec source mono base start (run codec source turns s'))
            → Alive codec source mono base start
                (if t.0 then run codec source turns t.1 else (false, t.1))
        cases (true, s') a ih = ih s' a
        cases (false, s') a ih = a

    DeliversTo-of_Alive :
        (t : Bool × Publisher)
        → Alive codec source mono base start t
        → t.1.shared.sequence < u64_mod
        → DeliversTo codec base start t.1.shared.published.recovering t.1.shared
    DeliversTo-of_Alive (true, s) c small = (IsDirty-of_IsClean codec base start c small).delivered
    DeliversTo-of_Alive (false, s) d small = (d small).delivered

-- Started where a consumer is connected, with every allocated sequence published, no recovery open
-- and the cursor at the last published sequence: after any turns of the loop (engine events,
-- configuration requests, queue losses, maintenance) at any times, with any answers of the source and
-- any patience of the recoveries, the cursor has accepted every frame sent since, in its order and
-- with its checks on sequences, gaps and snapshots, and stands at the last published sequence,
-- waiting for a snapshot exactly if a recovery is open. The codec's length must be monotone in the
-- sequence and the time, and the sequences must not have wrapped around.
pub run-Delivers :
    (codec : Codec) (source : SnapshotSource) (turns : List (ℕ × ℕ × Turn)) (s : Publisher)
    → IsMonotone codec
    → s.shared.published_sequence ≡ s.shared.sequence
    → s.shared.published.recovering ≡ false
    → (run codec source turns s).1.shared.sequence < u64_mod
    → Delivers codec
        (run codec source turns s).1.shared.max_frame_bytes
        s.shared.frames
        (live s.shared.published_sequence false)
        (run codec source turns s).1.shared.frames
        (live
          (run codec source turns s).1.shared.published_sequence
          (run codec source turns s).1.shared.published.recovering)
run-Delivers codec source turns s mono synced calm small =
    DeliversTo-of_Alive codec source mono base start (run codec source turns s)
      (run-Alive codec source mono base start turns s (record {
        synced = λ _. record { delivered = none_yet; current = synced };
        anchored = calm;
      }))
      small
  where
    base : List PublishedFrame
    base = s.shared.frames

    start : StreamPhase
    start = live s.shared.published_sequence false
