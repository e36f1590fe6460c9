-- ===== src/Feed/Enqueue/Accounting.antt =====
-- That the pending count of src/feed.rs and what the publisher took of it add up to the drops.
use reth_statefeed.Prelude.{
  ℕ, ◌+◌, ◌≤◌, ◌<◌, ◌≡◌, Option, none, some, List, [], ◌∷◌, refl, length, get_elem?, arith,
}
use reth_statefeed.Feed.{FeedEvent}
use reth_statefeed.Feed.Enqueue.{
  Stage, idle, refused, reserved, overflowed, counting, releasing, notifying, Channel, channel,
  enqueue_locked, drop_count, advance, reserve, Operation, call, proceed, receive_loss, take_loss,
  receive_event, disconnect, operate, execute, put, start, go_on, take_pending_loss,
}
use reth_statefeed.Feed.Enqueue.Reserving.{total, total-set, advance-producers, reserve-producers}
use reth_statefeed.Feed.Enqueue.Waking.{total-replicate}

-- One for a producer between the two counters of `record_drop`.
abbrev pub counts : Stage → ℕ
counts idle = 0
counts refused = 0
counts (reserved event) = 0
counts overflowed = 0
counts (counting holding) = 1
counts releasing = 0
counts notifying = 0

-- What was taken and what is pending is what was counted, and no more than the operations.
abbrev Balanced : ℕ → Channel → Type 0
Balanced steps c =
    (c.recovered + drop_count c.word ≡ c.total_dropped_events + total counts c.producers)
    × (c.recovered + drop_count c.word ≤ steps)

abbrev BalancedBeside : ℕ → ℕ → Channel × Stage → Type 0
BalancedBeside steps others (c, stage) =
    (c.recovered + drop_count c.word ≡ c.total_dropped_events + (others + counts stage))
    × (c.recovered + drop_count c.word ≤ steps)

module _ (steps : ℕ) (small : steps + 1 < enqueue_locked) where
  advance-Balanced :
      (c : Channel) (stage : Stage) (others : ℕ)
      → BalancedBeside steps others (c, stage)
      → BalancedBeside (steps + 1) others (advance c stage)
  unfolding advance
  advance-Balanced c idle others (same, few) = (same, omega arith)
  advance-Balanced c refused others (same, few) = (ground arith, ground arith)
  advance-Balanced c (reserved event) others (same, few) = ground arith
  advance-Balanced c overflowed others (same, few) = (ground arith, ground arith)
  advance-Balanced c (counting holding) others (same, few) = ground arith
  advance-Balanced c releasing others (same, few) = ground arith
  advance-Balanced c notifying others (same, few) = (same, omega arith)

  reserve-Balanced :
      (c : Channel) (event : FeedEvent) (others : ℕ)
      → BalancedBeside steps others (c, idle)
      → BalancedBeside (steps + 1) others (reserve c event)
  unfolding reserve
  reserve-Balanced c event others (same, few) = ground arith

  Balanced-put :
      (c : Channel) (i : ℕ) (old : Stage) (next : Channel × Stage)
      → get_elem? c.producers i ≡ some old
      → next.0.producers ≡ c.producers
      → ((others : ℕ)
          → BalancedBeside steps others (c, old)
          → BalancedBeside (steps + 1) others next)
      → Balanced steps c
      → Balanced (steps + 1) (put i next)
  Balanced-put c i old (c', new) hget same keeps (sum, few) =
      let (others, before, after) = total-set counts c.producers i old hget in
      rw (same, after new) (keeps others (omega (arith, before), few))

  Balanced-start :
      (c : Channel) (i : ℕ) (event : FeedEvent)
      → Balanced steps c
      → Balanced (steps + 1) (operate c (call i event))
  unfolding operate
  Balanced-start c i event (sum, few) = cases (get_elem? c.producers i) refl
    where
      cases :
          (found : Option Stage)
          → get_elem? c.producers i ≡ found
          → Balanced (steps + 1) (start c i event found)
      cases (some idle) h =
          Balanced-put c i idle (reserve c event) h (reserve-producers c event)
            (reserve-Balanced c event) (sum, few)
      cases none h = (sum, omega arith)
      cases (some refused) h = (sum, omega arith)
      cases (some (reserved event')) h = (sum, omega arith)
      cases (some overflowed) h = (sum, omega arith)
      cases (some (counting holding)) h = (sum, omega arith)
      cases (some releasing) h = (sum, omega arith)
      cases (some notifying) h = (sum, omega arith)

  Balanced-operate :
      (c : Channel) (operation : Operation)
      → Balanced steps c
      → Balanced (steps + 1) (operate c operation)
  unfolding operate take_pending_loss
  Balanced-operate c (call i event) b = Balanced-start c i event b
  Balanced-operate c (proceed i) (sum, few) = cases (get_elem? c.producers i) refl
    where
      cases :
          (found : Option Stage)
          → get_elem? c.producers i ≡ found
          → Balanced (steps + 1) (go_on c i found)
      cases none h = (sum, omega arith)
      cases (some stage) h =
          Balanced-put c i stage (advance c stage) h (advance-producers c stage)
            (advance-Balanced c stage) (sum, few)
  Balanced-operate c receive_loss (sum, few) = ground arith
  Balanced-operate c take_loss (sum, few) = ground arith
  Balanced-operate c receive_event (sum, few) = (sum, omega arith)
  Balanced-operate c disconnect (sum, few) = (sum, omega arith)

Balanced-execute :
    (operations : List Operation) (c : Channel) (steps : ℕ)
    → steps + length operations < enqueue_locked
    → Balanced steps c
    → Balanced (steps + length operations) (execute c operations)
unfolding execute
Balanced-execute [] c steps small (sum, few) = (sum, omega arith)
Balanced-execute (operation ∷ rest) c steps small b =
    let (sum, few) =
      Balanced-execute rest (operate c operation) (steps + 1) (omega arith)
        (Balanced-operate steps (omega arith) c operation b) in
    (sum, omega arith)

-- In an execution of fewer than 2^63 operations, in any order, the losses that the publisher took
-- and the losses that are pending are exactly those of `total_dropped_events` and of the producers
-- that are about to count theirs there.
pub execute-drop_count :
    (capacity threads : ℕ) (operations : List Operation)
    → length operations < enqueue_locked
    → (execute (channel capacity threads) operations).recovered
        + drop_count (execute (channel capacity threads) operations).word
      ≡ (execute (channel capacity threads) operations).total_dropped_events
        + total counts (execute (channel capacity threads) operations).producers
execute-drop_count capacity threads operations small =
    let (sum, few) =
      Balanced-execute operations (channel capacity threads) 0 (omega arith)
        (omega (arith, total-replicate counts threads refl), omega arith) in
    sum
