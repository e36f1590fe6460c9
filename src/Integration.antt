-- ===== src/Integration.antt =====
-- src/reth_integration.rs: the tracker of the applied forkchoice and the hooks of the engine
-- validator. The children read snapshots from a provider of Reth.
pub mod Snapshots
pub mod Loading
pub mod Anchoring
pub mod Hooks
use reth_statefeed.Prelude.{ℕ, suc, zero, ◌+◌, ◌%◌, Bool, Option, none, some, u64_mod}
use reth_statefeed.Feed.{AppliedForkchoiceMeta}

pub record TrackedForkchoice : Type 0 where
  pub revision : ℕ
  pub view : Option AppliedForkchoiceMeta

-- `AppliedForkchoiceTrackerInner`.
pub record Tracker : Type 0 where
  pub next_revision : ℕ
  pub latest : TrackedForkchoice

-- `Default for AppliedForkchoiceTracker`.
abbrev pub default_tracker : Tracker
default_tracker = record { next_revision = 0; latest = record { revision = 0; view = none } }

-- `fetch_add` returns the old value, both additions wrap.
unfoldable pub update : Option AppliedForkchoiceMeta → Tracker → Tracker
update view tracker =
    let revision = (tracker.next_revision + 1) % u64_mod in
    record { next_revision = revision; latest = record { revision = revision; view = view } }

-- The tracker after the first updates of a sequence.
unfoldable pub updated : (ℕ → Option AppliedForkchoiceMeta) → ℕ → Tracker
unfolding update
updated updates zero = default_tracker
updated updates (suc n) = update (updates n) (updated updates n)
