-- ===== src/Publisher/Reload.antt =====
-- `run_config_reloader` of src/publisher.rs: what a reload decides, and the loop that asks for an
-- activation. What the environment does is an argument: the watcher, the signals and the timer wake
-- the task, and the publisher answers its requests.
pub mod Generations
use Prim.Native.Char.{Char, code}
use Prim.Native.String
use text.Mathlib.Text.{◌==◌ as str_eq}
use reth_statefeed.Prelude.{
  ℕ, ◌+◌, ◌*◌, ◌-◌, Bool, true, false, not, ◌&&◌, ◌||◌, retain, Option, none, some, opt_eq, String,
  List, [], ◌∷◌, ◌==◌, if◌then◌else◌, min, u64_mod, Result, ok, err,
}
use reth_statefeed.Watch.{WatchConfig, WatchSet, compile, matches_config}
use reth_statefeed.Config.{StreamConfig, Config, ConfigError, ConfigSource, load, is_absolute}

-- The task's own state, the watch set of the producer, and every watch set that was asked for, the
-- newest first, with the generation that was active then.
pub record Reloader : Type 0 where
  pub next_generation : ℕ
  pub active : WatchSet
  pub requested : List (ℕ × WatchSet)

abbrev pub saturating_succ : ℕ → ℕ
saturating_succ n = min (n + 1) (u64_mod - 1)

abbrev pub start_reloader : WatchSet → Reloader
start_reloader active = record {
  next_generation = saturating_succ active.generation;
  active = active;
  requested = [];
}

abbrev pub same_bool : Bool → Bool → Bool
same_bool true b = b
same_bool false b = not b

-- The text between the separators of a path.
abbrev pub attach : Char → List String → List String
attach c [] = String.◌∷◌ c String.[] ∷ []
attach c (part ∷ parts) = String.◌∷◌ c part ∷ parts

abbrev pub segments : String → List String
segments String.[] = String.[] ∷ []
segments (String.◌∷◌ c path) =
    let rest = segments path in if code c == 47 then String.[] ∷ rest else attach c rest

-- Repeated separators and the parts `.` are passed over.
abbrev pub is_named : String → Bool
is_named part = not (str_eq part "" || str_eq part ".")

-- `Path::components` on Unix behind the root: a part `.` counts only at the start of a relative path.
abbrev pub components : Bool → List String → List String
components absolute [] = []
components true (part ∷ parts) = retain is_named (part ∷ parts)
components false (part ∷ parts) =
    if str_eq part "." then part ∷ retain is_named parts else retain is_named (part ∷ parts)

abbrev pub same_parts : List String → List String → Bool
same_parts [] [] = true
same_parts [] (b ∷ others) = false
same_parts (a ∷ rest) [] = false
same_parts (a ∷ rest) (b ∷ others) = str_eq a b && same_parts rest others

-- `PartialEq for PathBuf`.
unfoldable pub same_path : String → String → Bool
same_path a b =
    same_bool (is_absolute a) (is_absolute b)
    && same_parts (components (is_absolute a) (segments a))
        (components (is_absolute b) (segments b))

-- `PartialEq for StreamConfig`, derived.
unfoldable pub same_stream : StreamConfig → StreamConfig → Bool
unfolding same_path
same_stream a b =
    same_bool a.publish_executed b.publish_executed
    && (same_path a.socket b.socket
        && (a.socket_mode == b.socket_mode
            && (a.queue_capacity == b.queue_capacity
                && (a.candidate_cache_blocks == b.candidate_cache_blocks
                    && (a.candidate_metadata_entries == b.candidate_metadata_entries
                        && (a.candidate_retention == b.candidate_retention
                            && (a.retirement_work_budget == b.retirement_work_budget
                                && (a.consumer_buffer == b.consumer_buffer
                                    && (a.max_consumers == b.max_consumers
                                        && (a.max_frame_bytes == b.max_frame_bytes
                                            && (opt_eq a.publisher_cpu b.publisher_cpu
                                                && a.publisher_spin_us
                                                  == b.publisher_spin_us)))))))))))

pub data Decision : Type 0 where
  reload_rejected stream_changed unchanged : Decision
  activation : WatchSet → Decision

-- What follows the read of the file.
unfoldable pub decide : StreamConfig → Reloader → Result ConfigError Config → Decision
unfolding same_stream
decide immutable r (err e) = reload_rejected
decide immutable r (ok config) =
    if not (same_stream config.stream immutable)
    then stream_changed
    else if matches_config r.active config.watch
    then unchanged
    else activation (compile r.next_generation config.watch)

-- How a request ends: `activated` and `activation_failed` are the two answers of the publisher to a
-- queued request, `stopped` is a shutdown or a channel that is closed.
pub data Answer : Type 0 where
  activated activation_failed queue_full stopped : Answer

-- What ends the wait before a retry: the timer, a signal or an event of the watcher, or a shutdown or
-- a source of wakes that is closed.
pub data Wake : Type 0 where
  timeout newer_file shutdown : Wake

-- What is left of a turn: a turn that ends, a task that returns, or a reload that a newer file
-- supersedes. `waiting` is a loop that the environment has not yet ended.
pub data Outcome : Type 0 where
  ended returned superseded waiting : Outcome

-- The publisher has switched the producer to the watch set before it answers `activated`.
abbrev pub switch : WatchSet → Reloader → Reloader
switch watch_set r = record r {
  active = watch_set;
  next_generation = saturating_succ r.next_generation;
}

abbrev pub request : WatchSet → Reloader → Reloader
request watch_set r = record r { requested = (r.active.generation, watch_set) ∷ r.requested }

-- The delay after a retry, in nanoseconds.
unfoldable pub next_delay : ℕ → ℕ
next_delay delay = min (delay * 2) 1000000000

-- The inner loop, with the delay of the next wait.
unfoldable pub request_loop :
    WatchSet → ℕ → List (Answer × Wake) → Reloader → Outcome × ℕ × Reloader
unfolding next_delay
request_loop watch_set delay [] r = (waiting, delay, r)
request_loop watch_set delay ((activated, wake) ∷ rest) r =
    (ended, delay, switch watch_set (request watch_set r))
request_loop watch_set delay ((stopped, wake) ∷ rest) r = (returned, delay, request watch_set r)
request_loop watch_set delay ((answer, newer_file) ∷ rest) r =
    (superseded, delay, request watch_set r)
request_loop watch_set delay ((answer, shutdown) ∷ rest) r = (returned, delay, request watch_set r)
request_loop watch_set delay ((answer, timeout) ∷ rest) r =
    request_loop watch_set (next_delay delay) rest (request watch_set r)

unfoldable pub on_decision : Decision → List (Answer × Wake) → Reloader → Outcome × Reloader
unfolding request_loop
on_decision (activation watch_set) answers r =
    let (outcome, _, r') = request_loop watch_set 25000000 answers r in (outcome, r')
on_decision decision answers r = (ended, r)

-- One turn: the file is read and decided on.
unfoldable pub reload :
    ConfigSource → String → StreamConfig → List (Answer × Wake) → Reloader → Outcome × Reloader
unfolding decide on_decision
reload source path immutable answers r =
    on_decision (decide immutable r (load source path)) answers r

-- A turn that returned is the last one; so is one that the environment has not ended.
unfoldable pub after_turn : Outcome → Reloader → Reloader → Reloader
after_turn ended r later = later
after_turn superseded r later = later
after_turn returned r later = r
after_turn waiting r later = r

-- Turns of the task, each with what the file system and the publisher answer.
unfoldable pub run_reloads :
    String → StreamConfig → List (ConfigSource × List (Answer × Wake)) → Reloader → Reloader
unfolding reload after_turn
run_reloads path immutable [] r = r
run_reloads path immutable ((source, answers) ∷ rest) r =
    let (outcome, r') = reload source path immutable answers r in
    after_turn outcome r' (run_reloads path immutable rest r')
