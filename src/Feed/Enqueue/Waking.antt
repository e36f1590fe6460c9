-- ===== src/Feed/Enqueue/Waking.antt =====
-- That no loss which src/feed.rs records goes unnoticed, and that no later event overtakes it.
use reth_statefeed.Prelude.{
  ℕ, zero, suc, ◌<◌, ◌≡◌, true, false, List, [], ◌∷◌, refl, replicate, All, arith,
}
use reth_statefeed.Feed.Enqueue.{Stage, idle, Channel, channel, Operation, execute}
use reth_statefeed.Feed.Enqueue.Reserving.{holds, announces, total, IsSound, IsSound-execute}

pub total-replicate :
    (f : Stage → ℕ) (threads : ℕ) → f idle ≡ 0 → total f (replicate threads idle) ≡ 0
total-replicate f zero h = refl
total-replicate f (suc threads) h = omega (arith, total-replicate f threads h)

IsSound-channel : (capacity threads : ℕ) → IsSound (channel capacity threads)
IsSound-channel capacity threads =
    rw (total-replicate holds threads refl, total-replicate announces threads refl)
      ((omega arith, omega arith), omega arith)

-- No producer is inside `try_send`.
abbrev pub AreIdle : List Stage → Type 0
AreIdle producers = All (λ stage. stage ≡ idle) producers

total_of_AreIdle :
    (f : Stage → ℕ) (producers : List Stage)
    → f idle ≡ 0
    → AreIdle producers
    → total f producers ≡ 0
total_of_AreIdle f [] h idles = refl
total_of_AreIdle f (p ∷ rest) h (first, others) =
    rw first (omega (arith, total_of_AreIdle f rest h others))

-- After any operations of any number of producers and of the publisher, in any order: once no
-- producer is inside `try_send`, a loss that is pending has its notification in the channel, unless
-- the publisher has received one and is about to take the loss.
pub execute-notified :
    (capacity threads : ℕ) (operations : List Operation)
    → AreIdle (execute (channel capacity threads) operations).producers
    → (execute (channel capacity threads) operations).awake ≡ false
    → 0 < (execute (channel capacity threads) operations).word
    → (execute (channel capacity threads) operations).notified ≡ true
execute-notified capacity threads operations idles asleep lost =
    read (execute (channel capacity threads) operations) idles asleep lost
      (IsSound-execute operations (channel capacity threads) (IsSound-channel capacity threads))
  where
    read :
        (c : Channel)
        → AreIdle c.producers
        → c.awake ≡ false
        → 0 < c.word
        → IsSound c
        → c.notified ≡ true
    read c idles asleep lost ((alone, word_eq), notice) = grind (
      arith,
      total_of_AreIdle holds c.producers refl idles,
      total_of_AreIdle announces c.producers refl idles,
    )
