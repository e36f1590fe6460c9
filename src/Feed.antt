-- ===== src/Feed.antt =====
-- src/feed.rs: the events that the engine thread hands to the publisher. Block hashes are numbers,
-- instants are numbers of nanoseconds on one monotonic clock.
pub mod Enqueue
pub mod Extract
pub mod Produce
use reth_statefeed.Prelude.{ℕ, Option, none, some, String, List, leb, if◌then◌else◌}
use reth_statefeed.Watch.{SlotChange, WatchSet}

pub record BlockMeta : Type 0 where
  pub number : ℕ
  pub hash : ℕ
  pub parent_hash : ℕ
  pub timestamp : ℕ

pub record CheckpointMeta : Type 0 where
  pub number : ℕ
  pub hash : ℕ

pub record ForkchoiceMeta : Type 0 where
  pub head : CheckpointMeta
  pub safe : Option CheckpointMeta
  pub finalized : Option CheckpointMeta

pub record AppliedForkchoiceMeta : Type 0 where
  pub head_hash : ℕ
  pub safe : Option CheckpointMeta
  pub finalized : Option CheckpointMeta

-- `coherent` of `resolve`, under `and_then`.
abbrev pub coherent : ℕ → Option CheckpointMeta → Option CheckpointMeta
coherent head_number none = none
coherent head_number (some checkpoint) =
    if leb checkpoint.number head_number then some checkpoint else none

-- The numbered view at the head's number; checkpoints above it are dropped.
unfoldable pub resolve : AppliedForkchoiceMeta → ℕ → ForkchoiceMeta
resolve view head_number = record {
  head = record { number = head_number; hash = view.head_hash };
  safe = coherent head_number view.safe;
  finalized = coherent head_number view.finalized;
}

pub data FeedEvent : Type 0 where
  executed : ℕ → ℕ → BlockMeta → List SlotChange → FeedEvent
  validated : ℕ → ℕ → ℕ → FeedEvent
  validated_fallback : ℕ → ℕ → BlockMeta → List SlotChange → FeedEvent
  canonical_state_reset : ℕ → ℕ → CheckpointMeta → FeedEvent
  forkchoice_applied : ℕ → ℕ → AppliedForkchoiceMeta → FeedEvent
  rejected : ℕ → ℕ → ℕ → String → FeedEvent

-- The acknowledgement channel of the request is the Boolean that `handle_control` returns.
pub data ControlEvent : Type 0 where
  activate_config : WatchSet → ControlEvent
