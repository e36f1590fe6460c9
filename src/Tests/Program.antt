-- ===== src/Tests/Program.antt =====
-- Everything that a run of the model computes with, for the `unfolding` lines of the tests.
use reth_statefeed.Prelude.Map.{get, remove, insert}
use reth_statefeed.Prelude.Bytes.{to_be_bytes, from_be_onto, from_be_slice}
use reth_statefeed.Watch.{
  number_keys, push_grouped, group_keys, insert_slot, sort_slots, collect_slots, address_watch,
  index_addresses, compile, address, matches_key, all_match, matches_config,
}
use reth_statefeed.Feed.{resolve}
use reth_statefeed.Wire.{encode_frame}
use reth_statefeed.Client.{read_exact, payload_of, read_frame, read}
use reth_statefeed.Client.Packed.{new, len, get as packed_get}
use reth_statefeed.Dump.{validate_handshake_position, observe_open, observe_live, observe}
use reth_statefeed.Publisher.Candidates.{
  block_meta, current_incarnation, metadata_len, allocate_incarnation, add_child, drop_child,
  trim_tombstones, insert_tombstone, compact_order_queues_if_needed, take_candidate, take_deferred,
  remove_one, remove_tree, count_children, remove_candidate_tree, schedule_expiry,
}
use reth_statefeed.Publisher.Canonical.{
  check_identity, check_canonical, first_sequence_from, select_canonical, install_canonical,
  note_finalized, publish_fence, cached_or_loaded, head_projection, canonical, forkchoice_applied,
}
use reth_statefeed.Publisher.Exec.{
  ◌>>=◌, pure, raise, lift, gets, modify_cache, on_cache, in_generation, envelope, publish_inner,
  validate_event_frame, publish_with, publish_batches, publish_retired, load_latest, try_load_at,
}
use reth_statefeed.Publisher.Finality.{
  begin_finality_sweep, enqueue_check, compact_sweep, queue_finality_check, follow_parent,
  classify_block, advance_finality_walk, remember_path, memoize, settle, walk_round, sweep_loop,
  process_finality,
}
use reth_statefeed.Publisher.Handle.{
  unless_covered, gap_and_reanchor, reset, handle, handle_control, or_recover, take_turn, run,
}
use reth_statefeed.Publisher.Insertion.{
  new_candidates, reset_candidates, incarnation_or_new, enqueue_record, refresh_entry, insert_entry,
  insert_deferred,
}
use reth_statefeed.Publisher.Lifecycle.{
  trim_projection_cache, trim_metadata, insert_candidate, insert_deferred_executed,
  process_finality_budget, maintain,
}
use reth_statefeed.Publisher.Messages.{
  block_ref, checkpoint_ref, forkchoice_view, snapshot, block_state, watch_key, config_activated,
}
use reth_statefeed.Publisher.Project.{
  values_of_parent, values_of_loaded, rejectable, promote_candidate, rejected, assemble,
  project_orphan, project_on, project_new, project_known, project_candidate, promote_deferred,
  promote_validated,
}
use reth_statefeed.Publisher.Recovery.{
  validate_projection_frames, check_snapshot, announce_gap, install_snapshot, install_config,
  check_config_frames, reanchor, activate, attempt_reanchor, recovery_round, recovery_loop,
  recover_until_success,
}
use reth_statefeed.Publisher.Retirement.{
  evict, trim_projections, trim_records, due_candidates, due_deferred, due, expire, chunks_of,
}
use reth_statefeed.Publisher.Validate.{
  same_key, same_keys, validate_projection_dictionary, validate_forkchoice_checkpoints,
  validate_snapshot_view, validate_projection_shape, or_at, set_bit, apply_changes, compare_chunks,
  canonical_changed_bitmap,
}

unfoldable pub program : Unit {0}
unfolding get remove insert to_be_bytes from_be_onto from_be_slice number_keys push_grouped
    group_keys insert_slot sort_slots collect_slots address_watch index_addresses compile address
    matches_key all_match matches_config resolve encode_frame read_exact payload_of read_frame read
    new len packed_get validate_handshake_position observe_open observe_live observe block_meta
    current_incarnation metadata_len allocate_incarnation add_child drop_child trim_tombstones
    insert_tombstone compact_order_queues_if_needed take_candidate take_deferred remove_one
    remove_tree count_children remove_candidate_tree schedule_expiry check_identity check_canonical
    first_sequence_from select_canonical install_canonical note_finalized publish_fence
    cached_or_loaded head_projection canonical forkchoice_applied ◌>>=◌ pure raise lift gets
    modify_cache on_cache in_generation envelope publish_inner validate_event_frame publish_with
    publish_batches publish_retired load_latest try_load_at begin_finality_sweep enqueue_check
    compact_sweep queue_finality_check follow_parent classify_block advance_finality_walk
    remember_path memoize settle walk_round sweep_loop process_finality unless_covered
    gap_and_reanchor reset handle handle_control or_recover take_turn run new_candidates
    reset_candidates incarnation_or_new enqueue_record refresh_entry insert_entry insert_deferred
    trim_projection_cache trim_metadata insert_candidate insert_deferred_executed
    process_finality_budget maintain block_ref checkpoint_ref forkchoice_view snapshot block_state
    watch_key config_activated values_of_parent values_of_loaded rejectable promote_candidate
    rejected assemble project_orphan project_on project_new project_known project_candidate
    promote_deferred promote_validated validate_projection_frames check_snapshot announce_gap
    install_snapshot install_config check_config_frames reanchor activate attempt_reanchor
    recovery_round recovery_loop recover_until_success evict trim_projections trim_records
    due_candidates due_deferred due expire chunks_of same_key same_keys
    validate_projection_dictionary validate_forkchoice_checkpoints validate_snapshot_view
    validate_projection_shape or_at set_bit apply_changes compare_chunks canonical_changed_bitmap
program = tt
