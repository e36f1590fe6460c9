-- ===== src/Feed/Enqueue.antt =====
-- The enqueue word of `FeedProducer` in src/feed.rs, which producers and the publisher change by
-- atomic operations. The producers are threads inside `try_send`, each at a point between two of
-- its operations; an execution is a list of operations, in the order in which memory sees them.
-- `tx` is a bounded queue and `loss_tx` a channel that holds one notification.
pub mod Reserving
pub mod Waking
pub mod Accounting
pub mod Ordering
use reth_statefeed.Prelude.{
  ℕ, ◌+◌, ◌-◌, ◌*◌, ◌%◌, min, Bool, true, false, Option, none, some, List, [], ◌∷◌, ◌++◌, length,
  replicate, get_elem?, set, ltb, leb, ◌==◌, if◌then◌else◌,
}
use reth_statefeed.Feed.{FeedEvent}

-- `ENQUEUE_LOCKED`; `DROP_COUNT_MASK` keeps what is below it.
abbrev pub enqueue_locked : ℕ
enqueue_locked = 9223372036854775808

abbrev pub is_locked : ℕ → Bool
is_locked word = leb enqueue_locked word

abbrev pub drop_count : ℕ → ℕ
drop_count word = word % enqueue_locked

-- The update of `record_drop`: the low bits count up and stay below the lock bit.
abbrev pub count_drop : ℕ → ℕ
count_drop word =
    let dropped = min (drop_count word + 1) (enqueue_locked - 1) in
    if is_locked word then enqueue_locked + dropped else dropped

-- Where a producer is: not inside `try_send`; refused by the `compare_exchange`; with the
-- reservation, before its `try_send` on the queue; with the reservation, in front of a full queue;
-- between the two counters of `record_drop`, with the reservation or without; before `fetch_and`;
-- before `notify_loss`.
pub data Stage : Type 0 where
  idle : Stage
  refused : Stage
  reserved : FeedEvent → Stage
  overflowed : Stage
  counting : Bool → Stage
  releasing : Stage
  notifying : Stage

-- `word` is `enqueue_state`, `notified` says that the loss channel holds its notification, `queue`
-- is what `tx` holds and `queued` counts what it took. `awake` is the publisher's: it has received
-- a notification and has not called `take_pending_loss` since; `recovered` is what those calls
-- returned.
pub record Channel : Type 0 where
  pub word : ℕ
  pub queue : List FeedEvent
  pub capacity : ℕ
  pub connected : Bool
  pub queued : ℕ
  pub total_dropped_events : ℕ
  pub notified : Bool
  pub awake : Bool
  pub recovered : ℕ
  pub producers : List Stage

-- `FeedProducer::channel`, for a number of threads.
abbrev pub channel : ℕ → ℕ → Channel
channel capacity threads = record {
  word = 0;
  queue = [];
  capacity = capacity;
  connected = true;
  queued = 0;
  total_dropped_events = 0;
  notified = false;
  awake = false;
  recovered = 0;
  producers = replicate threads idle;
}

-- The next atomic operation of a producer inside `try_send`, and where it is then.
unfoldable pub advance : Channel → Stage → Channel × Stage
advance c idle = (c, idle)
advance c refused = (record c { word = count_drop c.word }, counting false)
advance c (reserved event) =
    if c.connected
    then if ltb (length c.queue) c.capacity
      then (record c { queue = c.queue ++ event ∷ []; queued = c.queued + 1 }, releasing)
      else (c, overflowed)
    else (c, releasing)
advance c overflowed = (record c { word = count_drop c.word }, counting true)
advance c (counting holding) = (
  record c { total_dropped_events = c.total_dropped_events + 1 },
  if holding then releasing else notifying,
)
advance c releasing =
    (record c { word = drop_count c.word }, if drop_count c.word == 0 then idle else notifying)
advance c notifying = (record c { notified = true }, idle)

-- The `compare_exchange` with which `try_send` begins.
unfoldable pub reserve : Channel → FeedEvent → Channel × Stage
reserve c event =
    if c.word == 0 then (record c { word = enqueue_locked }, reserved event) else (c, refused)

-- `take_pending_loss`: the exchange that succeeds, or the load that ends its loop.
unfoldable pub take_pending_loss : Channel → ℕ × Channel
take_pending_loss c = if is_locked c.word then (0, c) else (c.word, record c { word = 0 })

-- A producer calls `try_send` or goes on in it; the publisher receives a notification, takes the
-- pending loss, receives an event, or goes away.
pub data Operation : Type 0 where
  call : ℕ → FeedEvent → Operation
  proceed : ℕ → Operation
  receive_loss : Operation
  take_loss : Operation
  receive_event : Operation
  disconnect : Operation

abbrev pub put : ℕ → Channel × Stage → Channel
put i (c, stage) = record c { producers = set c.producers i stage }

abbrev pub start : Channel → ℕ → FeedEvent → Option Stage → Channel
start c i event (some idle) = put i (reserve c event)
start c i event other = c

abbrev pub go_on : Channel → ℕ → Option Stage → Channel
go_on c i none = c
go_on c i (some stage) = put i (advance c stage)

abbrev pub rest_of : List FeedEvent → List FeedEvent
rest_of [] = []
rest_of (event ∷ rest) = rest

-- One operation; one that cannot happen leaves everything as it is.
unfoldable pub operate : Channel → Operation → Channel
operate c (call i event) = start c i event (get_elem? c.producers i)
operate c (proceed i) = go_on c i (get_elem? c.producers i)
operate c receive_loss = if c.notified then record c { notified = false; awake = true } else c
operate c take_loss =
    let (dropped, c') = take_pending_loss c in
    record c' { awake = false; recovered = c.recovered + dropped }
operate c receive_event = record c { queue = rest_of c.queue }
operate c disconnect = record c { connected = false }

unfoldable pub execute : Channel → List Operation → Channel
execute c [] = c
execute c (operation ∷ rest) = execute (operate c operation) rest
