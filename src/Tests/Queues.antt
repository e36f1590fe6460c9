-- ===== src/Tests/Queues.antt =====
-- Witnesses of the theorems on the enqueue word.
use reth_statefeed.Prelude.{◌+◌, ◌≤◌, ◌<◌, ◌≡◌, false, true, List, [], ◌∷◌, refl, arith}
use reth_statefeed.Feed.{FeedEvent, validated}
use reth_statefeed.Feed.Enqueue.{
  Channel, channel, enqueue_locked, is_locked, drop_count, counting, reserved, Operation, call,
  proceed, receive_event, execute, operate, advance, reserve, take_pending_loss, take_loss,
}
use reth_statefeed.Feed.Enqueue.Reserving.{one_if, total, IsSound}
use reth_statefeed.Feed.Enqueue.Waking.{execute-notified}
use reth_statefeed.Feed.Enqueue.Ordering.{execute-queued}
use reth_statefeed.Feed.Enqueue.Accounting.{counts, execute-drop_count}

abbrev pub sample_event : FeedEvent
sample_event = validated 20 1 101

-- Two producers meet: the second is refused, counts its loss and notifies while the first sends.
abbrev pub collision : List Operation
collision =
    call 0 sample_event
    ∷ call 1 sample_event
    ∷ proceed 1
    ∷ proceed 0
    ∷ proceed 1
    ∷ proceed 1
    ∷ proceed 0
    ∷ proceed 0
    ∷ []

word-collision : (execute (channel 4 2) collision).word ≡ 1
unfolding execute operate advance reserve take_pending_loss
word-collision = refl

execute-notified_example : (execute (channel 4 2) collision).notified ≡ true
unfolding execute operate advance reserve take_pending_loss
execute-notified_example =
    execute-notified 4 2 collision (refl, (refl, tt)) refl (omega (arith, word-collision))

-- The first producer has the reservation, the second has counted a loss.
abbrev pub contended : Channel
contended = record (channel 4 2) {
  word = enqueue_locked + 1;
  producers = reserved sample_event ∷ counting false ∷ [];
}

contended-IsSound : IsSound contended
contended-IsSound = ((omega arith, omega arith), omega arith)

execute-queued_example :
    (0
      < drop_count
          (execute contended
            (proceed 0 ∷ proceed 0 ∷ proceed 0 ∷ call 0 sample_event ∷ receive_event ∷ [])).word)
    × ((execute contended
          (proceed 0 ∷ proceed 0 ∷ proceed 0 ∷ call 0 sample_event ∷ receive_event ∷ [])).queued
        ≤ contended.queued + one_if (is_locked contended.word))
execute-queued_example =
    execute-queued contended
      (proceed 0 ∷ proceed 0 ∷ proceed 0 ∷ call 0 sample_event ∷ receive_event ∷ [])
      contended-IsSound (omega arith) (refl, (refl, (refl, (refl, (refl, tt)))))

abbrev pub collision_and_recovery : List Operation
collision_and_recovery =
    call 0 sample_event
    ∷ call 1 sample_event
    ∷ proceed 1
    ∷ proceed 0
    ∷ proceed 0
    ∷ take_loss
    ∷ call 2 sample_event
    ∷ []

execute-drop_count_example :
    (execute (channel 4 3) collision_and_recovery).recovered
      + drop_count (execute (channel 4 3) collision_and_recovery).word
    ≡ (execute (channel 4 3) collision_and_recovery).total_dropped_events
      + total counts (execute (channel 4 3) collision_and_recovery).producers
execute-drop_count_example = execute-drop_count 4 3 collision_and_recovery (omega arith)
