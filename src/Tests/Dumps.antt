-- ===== src/Tests/Dumps.antt =====
-- Witnesses of the theorems on the diagnostic consumer.
use reth_statefeed.Prelude.{
  ℕ, ◌+◌, ◌≤◌, ◌≡◌, true, none, some, List, [], ◌∷◌, length, replicate, contains, ok, ◌>>=◌, refl,
  arith,
}
use mathlib.Core.Option
use reth_statefeed.Prelude.Map.{get, contains_key}
use reth_statefeed.Watch.{WatchConfig, compile}
use reth_statefeed.Wire.{Event}
use reth_statefeed.Dump.{StreamPhase}
use reth_statefeed.Publisher.State.{CanonicalSnapshot}
use reth_statefeed.Publisher.Messages
use reth_statefeed.Dump.Tracker.{
  CandidateTracker, new_tracker, remove_pending, count_links, remove_tree,
}
use reth_statefeed.Dump.Tracker.Removal.{
  TrackerCall, insertion, exact_removal, tree_removal, clearing, call_all, call_all-bounded,
}
use reth_statefeed.Dump.Tracker.Subtrees.{remove_tree-removes}
use reth_statefeed.Dump.Checks.{DumpState, on_event}
use reth_statefeed.Dump.Checks.Accepting.{knows_one, on_event-greeting}
use reth_statefeed.Tests.Program.{program}
use reth_statefeed.Tests.Samples.{block_two, view_at}

-- More insertions than the limit allows.
abbrev tracker_calls : List TrackerCall
tracker_calls =
    insertion 101 100
    ∷ insertion 102 101
    ∷ insertion 202 101
    ∷ exact_removal 202
    ∷ tree_removal 102
    ∷ clearing
    ∷ insertion 103 102
    ∷ []

call_all-bounded_example :
    (length (call_all tracker_calls (new_tracker 2)).parents ≤ 2)
    × ((k : ℕ)
        → contains_key (call_all tracker_calls (new_tracker 2)).parents k ≡ true
        → contains (call_all tracker_calls (new_tracker 2)).insertion_order k ≡ true)
call_all-bounded_example = call_all-bounded 2 tracker_calls

abbrev family : CandidateTracker
family = record {
  parents = (103, 102) ∷ (102, 101) ∷ (101, 100) ∷ [];
  children = (102, 103 ∷ []) ∷ (101, 102 ∷ []) ∷ (100, 101 ∷ []) ∷ [];
  insertion_order = 101 ∷ 102 ∷ 103 ∷ [];
  limit = 8;
}

remove_tree-removes_example :
    ((remove_pending (count_links family.children + 1) (102 ∷ []) family).0 ≡ [])
    × (get (remove_tree 102 family).parents 102 ≡ none)
    × ((k : ℕ)
        → contains (Option.get_or (get family.children 102) []) k ≡ true
        → get (remove_tree 102 family).parents k ≡ none)
remove_tree-removes_example = remove_tree-removes 102 family

abbrev configured : List WatchConfig
configured = record { id = "psm.balance"; address = 17; slot = 5 } ∷ []

abbrev greeted : CanonicalSnapshot
greeted = record {
  projection = record {
    block = block_two;
    watch_set = compile 3 configured;
    values = replicate 32 0;
    changed_bitmap = [];
  };
  anchored_at = 9;
  forkchoice = view_at block_two;
}

abbrev consumer : DumpState
consumer = record {
  phase = StreamPhase.hello;
  active_generation = some 2;
  key_count = 0;
  boot_id = none;
  capabilities = 127;
  candidates = new_tracker 4;
}

on_event-greeting_example :
    (on_event 3 (Event.config_activated (Messages.config_activated (compile 3 configured))) consumer
      >>= on_event 3 (Event.snapshot (Messages.snapshot greeted.projection greeted.forkchoice)))
    ≡ ok (record consumer {
      key_count = 1;
      active_generation = some 3;
      candidates = knows_one 102 101 4;
    })
unfolding program
on_event-greeting_example =
    on_event-greeting 3 configured greeted consumer refl (omega arith) (omega arith) (omega arith)
      (omega arith) refl refl refl
