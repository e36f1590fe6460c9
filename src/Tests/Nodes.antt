-- ===== src/Tests/Nodes.antt =====
-- Witnesses of the theorems on the snapshots of a node and on the hooks of its validator.
use reth_statefeed.Prelude.{
  ℕ, ◌≡◌, refl, subst, false, true, none, some, List, [], ◌∷◌, ◌++◌, ok, arith,
}
use reth_statefeed.Prelude.Bytes.{to_be_bytes}
use reth_statefeed.Feed.{resolve}
use reth_statefeed.Publisher.State.{Projection, CanonicalSnapshot}
use reth_statefeed.Integration.{updated, update, default_tracker}
use reth_statefeed.Integration.Snapshots.{World, StateView, ◌>>=◌, read_values, load_at}
use reth_statefeed.Integration.Snapshots.Projecting.{IsWide, IsReadAt, load_at-IsReadAt}
use reth_statefeed.Integration.Loading.{
  settle_applied, attempt_applied, attempt_from, attempt_once, unless_found, load_attempts,
  load_latest,
}
use reth_statefeed.Integration.Loading.Still.{CanonicalHead}
use reth_statefeed.Integration.Anchoring.{IsTimely, IsAnchored}
use reth_statefeed.Integration.Anchoring.Loops.{load_latest-IsAnchored}
use reth_statefeed.Integration.Hooks.{EngineValidator, payload, block, valid, invalid}
use reth_statefeed.Integration.Hooks.Fences.{
  HookCall, validation, fence, call_hooks, fenced_view, rejections, call_hooks-view,
  call_hooks-rejections,
}
use reth_statefeed.Tests.Samples.{sample_set, applied_two, block_two}

abbrev seven : StateView
seven a k = ok (some 7)

seven-IsWide : IsWide seven
seven-IsWide a k v h = ground arith

-- One fence was applied before the calls; every slot holds seven.
abbrev node : World
node = record {
  updates = λ n. some applied_two;
  applied = λ t. 1;
  instant = λ t. t;
  chain_info = λ t. ok (record { best_number = 2; best_hash = 102 });
  safe_block = λ t. ok none;
  finalized_block = λ t. ok none;
  sealed_header_by_hash =
      λ t hash. ok (some (record { number = 2; parent_hash = 101; timestamp = 24 }));
  state_by_block_hash = λ t hash. ok seven;
}

node-IsTimely : IsTimely node
node-IsTimely = record { monotone = λ s t h. omega arith; bounded = λ t. omega arith }

abbrev node_projection : Projection
node_projection = record {
  block = block_two;
  watch_set = sample_set;
  values = to_be_bytes 32 7 ++ to_be_bytes 32 7;
  changed_bitmap = [];
}

abbrev node_snapshot : CanonicalSnapshot
node_snapshot = record {
  projection = node_projection;
  anchored_at = 3;
  forkchoice = resolve applied_two 2;
}

node-IsWide : (s : ℕ) (state : StateView) → node.state_by_block_hash s 102 ≡ ok state → IsWide state
node-IsWide s state h = subst IsWide same seven-IsWide
  where
    same : seven ≡ state
    same = cc

load_at-IsReadAt_example : IsReadAt node sample_set 102 1 node_projection
unfolding load_at read_values ◌>>=◌ to_be_bytes
load_at-IsReadAt_example =
    load_at-IsReadAt node sample_set 102 1 node_projection 3 (omega arith) node-IsWide refl

load_latest-IsAnchored_example : IsAnchored node sample_set 0 5 node_snapshot
unfolding load_latest load_attempts unless_found attempt_once attempt_from attempt_applied
    settle_applied load_at read_values ◌>>=◌ to_be_bytes resolve updated update
load_latest-IsAnchored_example =
    load_latest-IsAnchored node sample_set 0 node_snapshot 5 node-IsTimely refl

-- A node whose tracker has no view.
abbrev bare_node : World
bare_node = record node { applied = λ t. 0 }

abbrev head_two : CanonicalHead
head_two = record {
  selected = record { best_number = 2; best_hash = 102 };
  safe = none;
  finalized = none;
}

abbrev engine : EngineValidator
engine = record {
  producer = record {
    watch_set = sample_set;
    now = 5;
    offered = [];
    control = [];
    control_connected = true;
  };
  forkchoice_tracker = default_tracker;
  publish_executed = false;
}

abbrev engine_calls : List HookCall
engine_calls =
    validation 102 (valid (record { block = block_two; state = [] }))
    ∷ fence applied_two
    ∷ validation 202 (invalid (block true))
    ∷ validation 203 (invalid (block false))
    ∷ validation 204 (invalid payload)
    ∷ []

call_hooks-view_example :
    (call_hooks engine_calls engine).forkchoice_tracker.latest.view
    ≡ fenced_view none (call_hooks engine_calls engine).producer.offered
call_hooks-view_example = call_hooks-view engine_calls engine refl refl

call_hooks-rejections_example :
    rejections (call_hooks engine_calls engine).producer.offered ≡ 202 ∷ []
call_hooks-rejections_example = call_hooks-rejections engine_calls engine
