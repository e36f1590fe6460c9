-- ===== src/Feed/Enqueue/Reserving.antt =====
-- The reservation bit and the notifications of the enqueue word of src/feed.rs: how every operation
-- counts the producers that hold the reservation and those that are about to notify.
use reth_statefeed.Prelude.{
  ℕ, zero, suc, ◌+◌, ◌*◌, ◌%◌, ◌≤◌, ◌≡◌, min, Bool, true, false, Option, none, some, List, [], ◌∷◌,
  refl, get_elem?, set, arith, Bool-cases, ltb, length, inl, inr,
}
use reth_statefeed.Feed.{FeedEvent}
use reth_statefeed.Feed.Enqueue.{
  Stage, idle, refused, reserved, overflowed, counting, releasing, notifying, Channel,
  enqueue_locked, drop_count, advance, reserve, Operation, call, proceed, receive_loss, take_loss,
  receive_event, disconnect, operate, execute, put, start, go_on, take_pending_loss,
}

-- One for a producer that has the reservation, and one for a producer that counted a loss without
-- it and has not notified yet.
abbrev pub holds : Stage → ℕ
holds idle = 0
holds refused = 0
holds (reserved event) = 1
holds overflowed = 1
holds (counting true) = 1
holds (counting false) = 0
holds releasing = 1
holds notifying = 0

abbrev pub announces : Stage → ℕ
announces idle = 0
announces refused = 0
announces (reserved event) = 0
announces overflowed = 0
announces (counting true) = 0
announces (counting false) = 1
announces releasing = 0
announces notifying = 1

abbrev pub total : (Stage → ℕ) → List Stage → ℕ
total f [] = 0
total f (stage ∷ rest) = f stage + total f rest

abbrev pub one_if : Bool → ℕ
one_if true = 1
one_if false = 0

-- The sum over the producers, with the summand of one of them apart.
pub total-set :
    (f : Stage → ℕ) (producers : List Stage) (i : ℕ) (old : Stage)
    → get_elem? producers i ≡ some old
    → (others : ℕ) × (total f producers ≡ others + f old)
      × ((new : Stage) → total f (set producers i new) ≡ others + f new)
total-set f [] i old h = absurd (ground arith)
total-set f (p ∷ rest) zero old h = (total f rest, grind arith, λ new. omega arith)
total-set f (p ∷ rest) (suc i) old h =
    let (others, before, after) = total-set f rest i old h in
    (f p + others, omega (arith, before), λ new. omega (arith, after new))

-- The word is the reservation, which one producer at most holds, and the count of losses.
abbrev pub Guards : ℕ → ℕ → Type 0
Guards word holders = (holders ≤ 1) × (word ≡ holders * enqueue_locked + word % enqueue_locked)

-- Where a loss is pending, a producer has the reservation, or one is about to notify, or the
-- notification is there, or the publisher is about to take the loss.
abbrev pub Notices : Channel → ℕ → ℕ → Type 0
Notices c holders announcing =
    min 1 (drop_count c.word) ≤ holders + announcing + one_if c.notified + one_if c.awake

abbrev pub IsSound : Channel → Type 0
IsSound c =
    Guards c.word (total holds c.producers)
    × Notices c (total holds c.producers) (total announces c.producers)

-- Every operation of a producer keeps both, beside any other producers.
abbrev pub Sound : ℕ → ℕ → Channel × Stage → Type 0
Sound holders announcing (c, stage) =
    Guards c.word (holders + holds stage)
    × Notices c (holders + holds stage) (announcing + announces stage)

pub advance-Sound :
    (c : Channel) (stage : Stage) (h a : ℕ) → Sound h a (c, stage) → Sound h a (advance c stage)
unfolding advance
advance-Sound c idle h a s = s
advance-Sound c refused h a ((alone, word_eq), notice) = ((alone, ground arith), ground arith)
advance-Sound c (reserved event) h a s = elim (Bool-cases c.connected) [
  | inr gone ↦ rw gone s
  | inl there ↦ elim (Bool-cases (ltb (length c.queue) c.capacity)) [
    | inl room ↦ rw (there, room) s
    | inr full ↦ rw (there, full) s
  ]
]
advance-Sound c overflowed h a ((alone, word_eq), notice) = ((alone, ground arith), ground arith)
advance-Sound c (counting true) h a s = s
advance-Sound c (counting false) h a s = s
advance-Sound c releasing h a ((alone, word_eq), notice) = ground arith
advance-Sound c notifying h a ((alone, word_eq), notice) = ((alone, word_eq), omega arith)

reserve-Sound :
    (c : Channel) (event : FeedEvent) (h a : ℕ) → Sound h a (c, idle) → Sound h a (reserve c event)
unfolding reserve
reserve-Sound c event h a ((alone, word_eq), notice) = ground arith

-- With other producers beside it, an operation of one producer keeps the whole channel sound.
IsSound-put :
    (c : Channel) (i : ℕ) (old : Stage) (next : Channel × Stage)
    → get_elem? c.producers i ≡ some old
    → next.0.producers ≡ c.producers
    → ((h a : ℕ) → Sound h a (c, old) → Sound h a next)
    → IsSound c
    → IsSound (put i next)
IsSound-put c i old (c', new) hget same keeps ((alone, word_eq), notice) =
    let (h, holds_old, holds_new) = total-set holds c.producers i old hget in
    let (a, announces_old, announces_new) = total-set announces c.producers i old hget in
    let before : Sound h a (c, old) =
      rw (← holds_old, ← announces_old) ((alone, word_eq), notice) in
    rw (same, holds_new new, announces_new new) (keeps h a before)

pub advance-producers : (c : Channel) (stage : Stage) → (advance c stage).0.producers ≡ c.producers
unfolding advance
advance-producers c idle = refl
advance-producers c refused = refl
advance-producers c (reserved event) = ground arith
advance-producers c overflowed = refl
advance-producers c (counting holding) = refl
advance-producers c releasing = refl
advance-producers c notifying = refl

pub reserve-producers :
    (c : Channel) (event : FeedEvent) → (reserve c event).0.producers ≡ c.producers
unfolding reserve
reserve-producers c event = ground arith

IsSound-start :
    (c : Channel) (i : ℕ) (event : FeedEvent) → IsSound c → IsSound (operate c (call i event))
unfolding operate
IsSound-start c i event s = cases (get_elem? c.producers i) refl
  where
    cases :
        (found : Option Stage) → get_elem? c.producers i ≡ found → IsSound (start c i event found)
    cases (some idle) h =
        IsSound-put c i idle (reserve c event) h (reserve-producers c event) (reserve-Sound c event)
          s
    cases none h = s
    cases (some refused) h = s
    cases (some (reserved event')) h = s
    cases (some overflowed) h = s
    cases (some (counting holding)) h = s
    cases (some releasing) h = s
    cases (some notifying) h = s

IsSound-go_on : (c : Channel) (i : ℕ) → IsSound c → IsSound (operate c (proceed i))
unfolding operate
IsSound-go_on c i s = cases (get_elem? c.producers i) refl
  where
    cases : (found : Option Stage) → get_elem? c.producers i ≡ found → IsSound (go_on c i found)
    cases none h = s
    cases (some stage) h =
        IsSound-put c i stage (advance c stage) h (advance-producers c stage)
          (advance-Sound c stage) s

-- Every operation of a producer or of the publisher keeps the channel sound.
pub IsSound-operate :
    (c : Channel) (operation : Operation) → IsSound c → IsSound (operate c operation)
unfolding operate take_pending_loss
IsSound-operate c (call i event) s = IsSound-start c i event s
IsSound-operate c (proceed i) s = IsSound-go_on c i s
IsSound-operate c receive_loss (guards, notice) = ground arith
IsSound-operate c take_loss ((alone, word_eq), notice) = ground arith
IsSound-operate c receive_event s = s
IsSound-operate c disconnect s = s

pub IsSound-execute :
    (operations : List Operation) (c : Channel) → IsSound c → IsSound (execute c operations)
unfolding execute
IsSound-execute [] c s = s
IsSound-execute (operation ∷ rest) c s =
    IsSound-execute rest (operate c operation) (IsSound-operate c operation s)
