-- ===== src/Feed/Produce.antt =====
-- The calls of `FeedProducer` in src/feed.rs by which the engine thread publishes. Each builds one
-- event from the clock and the active watch set, and hands it to `try_send` (Feed.Enqueue).
use reth_statefeed.Prelude.{ℕ, Bool, String, List, [], ◌∷◌, is_empty, if◌then◌else◌}
use reth_statefeed.Watch.{WatchSet}
use reth_statefeed.Feed.{
  BlockMeta, CheckpointMeta, AppliedForkchoiceMeta, FeedEvent, ControlEvent, activate_config,
}
use reth_statefeed.Feed.Extract.{BundleState, extract_changes}

-- `now` is what `Instant::now` reads; `offered` is every event that `try_send` was called with, the
-- newest first. `control` is the control channel, which holds one request.
pub record Producer : Type 0 where
  pub watch_set : WatchSet
  pub now : ℕ
  pub offered : List FeedEvent
  pub control : List ControlEvent
  pub control_connected : Bool

abbrev pub offer : FeedEvent → Producer → Producer
offer event p = record p { offered = event ∷ p.offered }

-- `FeedProducer::activate`.
abbrev pub activate_watch_set : WatchSet → Producer → Producer
activate_watch_set watch_set p = record p { watch_set = watch_set }

unfoldable pub publish_executed : BlockMeta → BundleState → Producer → Producer
publish_executed block bundle p =
    offer
      (FeedEvent.executed p.now p.watch_set.generation block (extract_changes p.watch_set bundle)) p

unfoldable pub publish_validated : ℕ → Producer → Producer
publish_validated block_hash p =
    offer (FeedEvent.validated p.now p.watch_set.generation block_hash) p

unfoldable pub publish_validated_fallback : BlockMeta → BundleState → Producer → Producer
publish_validated_fallback block bundle p =
    offer
      (FeedEvent.validated_fallback p.now p.watch_set.generation block
        (extract_changes p.watch_set bundle))
      p

unfoldable pub publish_canonical_state_reset : CheckpointMeta → Producer → Producer
publish_canonical_state_reset head p =
    offer (FeedEvent.canonical_state_reset p.now p.watch_set.generation head) p

unfoldable pub publish_forkchoice_applied : AppliedForkchoiceMeta → Producer → Producer
publish_forkchoice_applied view p =
    offer (FeedEvent.forkchoice_applied p.now p.watch_set.generation view) p

unfoldable pub publish_rejected : ℕ → String → Producer → Producer
publish_rejected block_hash reason p =
    offer (FeedEvent.rejected p.now p.watch_set.generation block_hash reason) p

pub data ActivationRequest : Type 0 where
  queued full disconnected : ActivationRequest

-- The completion that a queued request returns is the acknowledgement of its `ControlEvent`.
unfoldable pub request_activation : WatchSet → Producer → ActivationRequest × Producer
request_activation watch_set p =
    if p.control_connected
    then if is_empty p.control
      then (queued, record p { control = activate_config watch_set ∷ [] })
      else (full, p)
    else (disconnected, p)
