-- ===== src/Integration/Hooks.antt =====
-- The hooks of `StatefeedEngineValidator` in src/reth_integration.rs. What the wrapped validator does
-- is its own: a hook is what the wrapper does beside it, on the tracker and on the producer.
pub mod Fences
use reth_statefeed.Prelude.{ℕ, Bool, Option, none, some, if◌then◌else◌}
use reth_statefeed.Feed.{BlockMeta, CheckpointMeta, AppliedForkchoiceMeta}
use reth_statefeed.Feed.Extract.{BundleState}
use reth_statefeed.Feed.Produce
use reth_statefeed.Feed.Produce.{Producer}
use reth_statefeed.Integration.{Tracker, update}

-- A block that Reth executed, as far as the wrapper reads it.
pub record ExecutedBlock : Type 0 where
  pub block : BlockMeta
  pub state : BundleState

-- `InsertPayloadError`: of a payload, or of a block, with the answer of `is_validation_error`.
pub data InsertPayloadError : Type 0 where
  payload : InsertPayloadError
  block : Bool → InsertPayloadError

pub data ValidationOutcome : Type 0 where
  valid : ExecutedBlock → ValidationOutcome
  invalid : InsertPayloadError → ValidationOutcome

-- The wrapper's own state.
pub record EngineValidator : Type 0 where
  pub producer : Producer
  pub forkchoice_tracker : Tracker
  pub publish_executed : Bool

abbrev pub on_producer : (Producer → Producer) → EngineValidator → EngineValidator
on_producer f v = record v { producer = f v.producer }

-- `StatefeedExecutionObserver::on_executed`; the observer is installed with `publish_executed` only.
unfoldable pub on_executed : ExecutedBlock → EngineValidator → EngineValidator
on_executed executed v =
    if v.publish_executed
    then on_producer (Produce.publish_executed executed.block executed.state) v
    else v

unfoldable pub publish_validated_fallback : ExecutedBlock → EngineValidator → EngineValidator
publish_validated_fallback executed =
    on_producer (Produce.publish_validated_fallback executed.block executed.state)

unfoldable pub on_validated : ExecutedBlock → EngineValidator → EngineValidator
unfolding publish_validated_fallback
on_validated executed v =
    if v.publish_executed
    then on_producer (Produce.publish_validated executed.block.hash) v
    else publish_validated_fallback executed v

-- An error rejects a block where it is the block's own validation error.
unfoldable pub publish_rejected_if_invalid :
    ℕ → InsertPayloadError → EngineValidator → EngineValidator
publish_rejected_if_invalid block_hash payload v = v
publish_rejected_if_invalid block_hash (block is_validation_error) v =
    if is_validation_error
    then on_producer (Produce.publish_rejected block_hash "block_validation_failed") v
    else v

-- `validate_payload` and `validate_block` behind the call of the wrapped validator.
unfoldable pub after_validation : ℕ → ValidationOutcome → EngineValidator → EngineValidator
unfolding on_validated publish_rejected_if_invalid
after_validation block_hash (valid executed) v = on_validated executed v
after_validation block_hash (invalid error) v = publish_rejected_if_invalid block_hash error v

-- Only a block that the wrapped validator inserted is published.
unfoldable pub on_inserted_executed_block : Option ExecutedBlock → EngineValidator → EngineValidator
unfolding publish_validated_fallback
on_inserted_executed_block none v = v
on_inserted_executed_block (some executed) v = publish_validated_fallback executed v

unfoldable pub on_canonical_state_reset : CheckpointMeta → EngineValidator → EngineValidator
on_canonical_state_reset head v =
    on_producer (Produce.publish_canonical_state_reset head)
      (record v { forkchoice_tracker = update none v.forkchoice_tracker })

unfoldable pub on_forkchoice_applied : AppliedForkchoiceMeta → EngineValidator → EngineValidator
on_forkchoice_applied view v =
    on_producer (Produce.publish_forkchoice_applied view)
      (record v { forkchoice_tracker = update (some view) v.forkchoice_tracker })
