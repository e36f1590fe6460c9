-- ===== src/Feed/Enqueue/Ordering.antt =====
-- That no event which is published after a loss overtakes it in src/feed.rs: while a loss is
-- pending, the queue takes at most the event of the producer that has the reservation already.
use reth_statefeed.Prelude.{
  ℕ, ◌+◌, ◌≤◌, ◌<◌, ◌≡◌, Bool, true, false, Option, none, some, List, [], ◌∷◌, refl, get_elem?, All,
  arith,
}
use reth_statefeed.Feed.{FeedEvent}
use reth_statefeed.Feed.Enqueue.{
  Stage, idle, refused, reserved, overflowed, counting, releasing, notifying, Channel, is_locked,
  drop_count, advance, reserve, Operation, call, proceed, receive_loss, take_loss, receive_event,
  disconnect, operate, execute, put, start, go_on,
}
use reth_statefeed.Feed.Enqueue.Reserving.{
  holds, total, total-set, one_if, IsSound, advance-producers, reserve-producers,
}

-- One for a producer that is about to send its event.
abbrev pub sends : Stage → ℕ
sends idle = 0
sends refused = 0
sends (reserved event) = 1
sends overflowed = 0
sends (counting holding) = 0
sends releasing = 0
sends notifying = 0

abbrev pub leaves_loss : Operation → Bool
leaves_loss (call i event) = true
leaves_loss (proceed i) = true
leaves_loss receive_loss = true
leaves_loss take_loss = false
leaves_loss receive_event = true
leaves_loss disconnect = true

-- A loss is pending, and the queue has taken or can take no more than `limit` events.
abbrev Blocked : ℕ → Channel → Type 0
Blocked limit c = (0 < drop_count c.word) × (c.queued + total sends c.producers ≤ limit)

abbrev BlockedBeside : ℕ → ℕ → Channel × Stage → Type 0
BlockedBeside limit others (c, stage) =
    (0 < drop_count c.word) × (c.queued + (others + sends stage) ≤ limit)

advance-Blocked :
    (c : Channel) (stage : Stage) (limit others : ℕ)
    → BlockedBeside limit others (c, stage)
    → BlockedBeside limit others (advance c stage)
unfolding advance
advance-Blocked c idle limit others b = b
advance-Blocked c refused limit others (lost, few) = (ground arith, few)
advance-Blocked c (reserved event) limit others (lost, few) = ground arith
advance-Blocked c overflowed limit others (lost, few) = (ground arith, few)
advance-Blocked c (counting holding) limit others (lost, few) = ground arith
advance-Blocked c releasing limit others (lost, few) = ground arith
advance-Blocked c notifying limit others b = b

reserve-Blocked :
    (c : Channel) (event : FeedEvent) (limit others : ℕ)
    → BlockedBeside limit others (c, idle)
    → BlockedBeside limit others (reserve c event)
unfolding reserve
reserve-Blocked c event limit others (lost, few) = ground arith

Blocked-put :
    (c : Channel) (i : ℕ) (old : Stage) (next : Channel × Stage) (limit : ℕ)
    → get_elem? c.producers i ≡ some old
    → next.0.producers ≡ c.producers
    → ((others : ℕ) → BlockedBeside limit others (c, old) → BlockedBeside limit others next)
    → Blocked limit c
    → Blocked limit (put i next)
Blocked-put c i old (c', new) limit hget same keeps (lost, few) =
    let (others, before, after) = total-set sends c.producers i old hget in
    rw (same, after new) (keeps others (lost, omega (arith, before)))

Blocked-start :
    (c : Channel) (i : ℕ) (event : FeedEvent) (limit : ℕ)
    → Blocked limit c
    → Blocked limit (operate c (call i event))
unfolding operate
Blocked-start c i event limit b = cases (get_elem? c.producers i) refl
  where
    cases :
        (found : Option Stage)
        → get_elem? c.producers i ≡ found
        → Blocked limit (start c i event found)
    cases (some idle) h =
        Blocked-put c i idle (reserve c event) limit h (reserve-producers c event)
          (reserve-Blocked c event limit) b
    cases none h = b
    cases (some refused) h = b
    cases (some (reserved event')) h = b
    cases (some overflowed) h = b
    cases (some (counting holding)) h = b
    cases (some releasing) h = b
    cases (some notifying) h = b

Blocked-operate :
    (c : Channel) (operation : Operation) (limit : ℕ)
    → leaves_loss operation ≡ true
    → Blocked limit c
    → Blocked limit (operate c operation)
unfolding operate
Blocked-operate c (call i event) limit left b = Blocked-start c i event limit b
Blocked-operate c (proceed i) limit left b = cases (get_elem? c.producers i) refl
  where
    cases :
        (found : Option Stage) → get_elem? c.producers i ≡ found → Blocked limit (go_on c i found)
    cases none h = b
    cases (some stage) h =
        Blocked-put c i stage (advance c stage) limit h (advance-producers c stage)
          (advance-Blocked c stage limit) b
Blocked-operate c receive_loss limit left (lost, few) = ground arith
Blocked-operate c take_loss limit left b = absurd (ground arith)
Blocked-operate c receive_event limit left b = b
Blocked-operate c disconnect limit left b = b

Blocked-execute :
    (operations : List Operation) (c : Channel) (limit : ℕ)
    → All (λ operation. leaves_loss operation ≡ true) operations
    → Blocked limit c
    → Blocked limit (execute c operations)
unfolding execute
Blocked-execute [] c limit left b = b
Blocked-execute (operation ∷ rest) c limit (first, others) b =
    Blocked-execute rest (operate c operation) limit others
      (Blocked-operate c operation limit first b)

sends-holds : (stage : Stage) → sends stage ≤ holds stage
sends-holds idle = omega arith
sends-holds refused = omega arith
sends-holds (reserved event) = omega arith
sends-holds overflowed = omega arith
sends-holds (counting true) = omega arith
sends-holds (counting false) = omega arith
sends-holds releasing = omega arith
sends-holds notifying = omega arith

total-sends-holds : (producers : List Stage) → total sends producers ≤ total holds producers
total-sends-holds [] = omega arith
total-sends-holds (stage ∷ rest) = omega (arith, sends-holds stage, total-sends-holds rest)

-- From a sound channel with a pending loss, and as long as the publisher does not take it, the loss
-- stays pending whatever the producers do, and the queue takes one more event at most: that of the
-- producer that had the reservation when the loss was counted, and none if there was no such
-- producer.
pub execute-queued :
    (c : Channel) (operations : List Operation)
    → IsSound c
    → 0 < drop_count c.word
    → All (λ operation. leaves_loss operation ≡ true) operations
    → (0 < drop_count (execute c operations).word)
      × ((execute c operations).queued ≤ c.queued + one_if (is_locked c.word))
execute-queued c operations ((alone, word_eq), notice) lost left =
    let (still, few) =
      Blocked-execute operations c (c.queued + total sends c.producers) left (lost, omega arith) in
    (still, grind (arith, total-sends-holds c.producers))
