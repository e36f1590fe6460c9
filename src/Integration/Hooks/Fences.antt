-- ===== src/Integration/Hooks/Fences.antt =====
-- Sequences of calls of the hooks of `StatefeedEngineValidator` in src/reth_integration.rs.
use reth_statefeed.Prelude.{
  ℕ, ◌≡◌, true, false, Option, none, some, List, [], ◌∷◌, refl, sym, ap, ◌∙◌, arith,
}
use reth_statefeed.Feed.{
  CheckpointMeta, AppliedForkchoiceMeta, FeedEvent, executed, validated, validated_fallback,
  canonical_state_reset, forkchoice_applied, rejected,
}
use reth_statefeed.Feed.Produce
use reth_statefeed.Integration.{update}
use reth_statefeed.Integration.Hooks.{
  ExecutedBlock, payload, block, ValidationOutcome, valid, invalid, EngineValidator, on_executed,
  publish_validated_fallback, on_validated, publish_rejected_if_invalid, after_validation,
  on_inserted_executed_block, on_canonical_state_reset, on_forkchoice_applied,
}

-- A call of the engine: of the execution observer, of a validation with its outcome, of an insertion
-- with what the wrapped validator returned, and of the two hooks on the canonical state.
pub data HookCall : Type 0 where
  execution : ExecutedBlock → HookCall
  validation : ℕ → ValidationOutcome → HookCall
  insertion : Option ExecutedBlock → HookCall
  state_reset : CheckpointMeta → HookCall
  fence : AppliedForkchoiceMeta → HookCall

unfoldable pub call_hook : HookCall → EngineValidator → EngineValidator
unfolding on_executed after_validation on_inserted_executed_block on_canonical_state_reset
    on_forkchoice_applied
call_hook (execution output) v = on_executed output v
call_hook (validation block_hash outcome) v = after_validation block_hash outcome v
call_hook (insertion inserted) v = on_inserted_executed_block inserted v
call_hook (state_reset head) v = on_canonical_state_reset head v
call_hook (fence view) v = on_forkchoice_applied view v

-- The calls in the order of time.
unfoldable pub call_hooks : List HookCall → EngineValidator → EngineValidator
unfolding call_hook
call_hooks [] v = v
call_hooks (call ∷ rest) v = call_hooks rest (call_hook call v)

-- What the newest fence among offered events, the newest first, says of the applied view.
abbrev pub fenced_view :
    Option AppliedForkchoiceMeta → List FeedEvent → Option AppliedForkchoiceMeta
fenced_view before [] = before
fenced_view before (forkchoice_applied t generation view ∷ rest) = some view
fenced_view before (canonical_state_reset t generation head ∷ rest) = none
fenced_view before (executed t generation meta changes ∷ rest) = fenced_view before rest
fenced_view before (validated t generation hash ∷ rest) = fenced_view before rest
fenced_view before (validated_fallback t generation meta changes ∷ rest) = fenced_view before rest
fenced_view before (rejected t generation hash reason ∷ rest) = fenced_view before rest

-- The hashes of the blocks that offered events reject.
abbrev pub rejections : List FeedEvent → List ℕ
rejections [] = []
rejections (rejected t generation hash reason ∷ rest) = hash ∷ rejections rest
rejections (forkchoice_applied t generation view ∷ rest) = rejections rest
rejections (canonical_state_reset t generation head ∷ rest) = rejections rest
rejections (executed t generation meta changes ∷ rest) = rejections rest
rejections (validated t generation hash ∷ rest) = rejections rest
rejections (validated_fallback t generation meta changes ∷ rest) = rejections rest

-- The hashes of the blocks that the wrapped validator found invalid, behind those known before.
abbrev pub found_invalid : List HookCall → List ℕ → List ℕ
found_invalid [] known = known
found_invalid (validation hash (invalid (block true)) ∷ rest) known =
    found_invalid rest (hash ∷ known)
found_invalid (validation hash (invalid (block false)) ∷ rest) known = found_invalid rest known
found_invalid (validation hash (invalid payload) ∷ rest) known = found_invalid rest known
found_invalid (validation hash (valid output) ∷ rest) known = found_invalid rest known
found_invalid (execution output ∷ rest) known = found_invalid rest known
found_invalid (insertion inserted ∷ rest) known = found_invalid rest known
found_invalid (state_reset head ∷ rest) known = found_invalid rest known
found_invalid (fence view ∷ rest) known = found_invalid rest known

-- The tracker holds what the newest offered fence says.
abbrev pub IsLed : EngineValidator → Type 0
IsLed v = v.forkchoice_tracker.latest.view ≡ fenced_view none v.producer.offered

call_hook-IsLed : (call : HookCall) (v : EngineValidator) → IsLed v → IsLed (call_hook call v)
unfolding call_hook on_validated publish_validated_fallback publish_rejected_if_invalid update
    Produce.publish_executed Produce.publish_validated Produce.publish_validated_fallback
    Produce.publish_canonical_state_reset Produce.publish_forkchoice_applied
    Produce.publish_rejected
call_hook-IsLed (execution output) v h = ground arith
call_hook-IsLed (validation hash (valid output)) v h = ground arith
call_hook-IsLed (validation hash (invalid payload)) v h = h
call_hook-IsLed (validation hash (invalid (block true))) v h = h
call_hook-IsLed (validation hash (invalid (block false))) v h = h
call_hook-IsLed (insertion none) v h = h
call_hook-IsLed (insertion (some output)) v h = h
call_hook-IsLed (state_reset head) v h = refl
call_hook-IsLed (fence view) v h = refl

call_hooks-IsLed :
    (calls : List HookCall) (v : EngineValidator) → IsLed v → IsLed (call_hooks calls v)
unfolding call_hooks
call_hooks-IsLed [] v h = h
call_hooks-IsLed (call ∷ rest) v h =
    call_hooks-IsLed rest (call_hook call v) (call_hook-IsLed call v h)

-- A call offers a rejection just where the wrapped validator found a block invalid.
call_hook-rejections :
    (call : HookCall) (v : EngineValidator)
    → rejections (call_hook call v).producer.offered
      ≡ found_invalid (call ∷ []) (rejections v.producer.offered)
unfolding call_hook on_validated publish_validated_fallback publish_rejected_if_invalid update
    Produce.publish_executed Produce.publish_validated Produce.publish_validated_fallback
    Produce.publish_canonical_state_reset Produce.publish_forkchoice_applied
    Produce.publish_rejected
call_hook-rejections (execution output) v = ground arith
call_hook-rejections (validation hash (valid output)) v = ground arith
call_hook-rejections (validation hash (invalid payload)) v = refl
call_hook-rejections (validation hash (invalid (block true))) v = refl
call_hook-rejections (validation hash (invalid (block false))) v = refl
call_hook-rejections (insertion none) v = refl
call_hook-rejections (insertion (some output)) v = refl
call_hook-rejections (state_reset head) v = refl
call_hook-rejections (fence view) v = refl

found_invalid-cons :
    (call : HookCall) (rest : List HookCall) (known : List ℕ)
    → found_invalid rest (found_invalid (call ∷ []) known) ≡ found_invalid (call ∷ rest) known
found_invalid-cons (execution output) rest known = refl
found_invalid-cons (validation hash (valid output)) rest known = refl
found_invalid-cons (validation hash (invalid payload)) rest known = refl
found_invalid-cons (validation hash (invalid (block true))) rest known = refl
found_invalid-cons (validation hash (invalid (block false))) rest known = refl
found_invalid-cons (insertion inserted) rest known = refl
found_invalid-cons (state_reset head) rest known = refl
found_invalid-cons (fence view) rest known = refl

-- Whatever the engine calls on a validator that starts with a tracker without a view and without
-- offered events, the tracker holds the view of the newest fence that was offered to the queue, or
-- none after a reset: a snapshot that is anchored at it is as recent as every fence.
pub call_hooks-view :
    (calls : List HookCall) (v : EngineValidator)
    → v.producer.offered ≡ []
    → v.forkchoice_tracker.latest.view ≡ none
    → (call_hooks calls v).forkchoice_tracker.latest.view
      ≡ fenced_view none (call_hooks calls v).producer.offered
call_hooks-view calls v offered view =
    call_hooks-IsLed calls v (view ∙ sym (ap (fenced_view none) offered))

-- Whatever the engine calls, the blocks that the offered events reject are, in order, those that the
-- wrapped validator found invalid by a validation error of the block itself: errors of the payload,
-- of the provider and of the execution reject nothing.
pub call_hooks-rejections :
    (calls : List HookCall) (v : EngineValidator)
    → rejections (call_hooks calls v).producer.offered
      ≡ found_invalid calls (rejections v.producer.offered)
unfolding call_hooks
call_hooks-rejections [] v = refl
call_hooks-rejections (call ∷ rest) v =
    call_hooks-rejections rest (call_hook call v)
    ∙ ap (found_invalid rest) (call_hook-rejections call v)
    ∙ found_invalid-cons call rest (rejections v.producer.offered)
