-- ===== src/Publisher/Recovery.antt =====
-- Gaps, snapshots and configuration switches in src/publisher.rs: `announce_gap`, `reanchor`,
-- `recover_until_success` and `activate`.
use reth_statefeed.Prelude.{
  ℕ, zero, suc, ◌+◌, Bool, true, false, Option, none, some, String, List, [], replicate, leb,
  if◌then◌else◌, Result, ok, err,
}
use reth_statefeed.Prelude
use reth_statefeed.Watch.{WatchSet, len}
use reth_statefeed.Feed.{ForkchoiceMeta}
use reth_statefeed.Wire.{Codec, Event, BlockStage, BlockState}
use reth_statefeed.Publisher.State.{
  Error, SnapshotSource, CanonicalSnapshot, Projection, Shared, Publisher,
}
use reth_statefeed.Publisher.Insertion.{reset_candidates}
use reth_statefeed.Publisher.Messages.{
  hash_bytes, block_ref, block_state, snapshot, config_activated,
}
use reth_statefeed.Publisher.Validate.{
  bitmap_len, validate_snapshot_view, validate_projection_dictionary, validate_projection_shape,
}
use reth_statefeed.Publisher.Exec.{
  Exec, ◌>>=◌, ◌>>◌, pure, lift, gets, modify_cache, published, active_generation,
  validate_event_frame, publish, publish_state, load_latest,
}

abbrev pub is_ok : {A : Type 0} → Result Error A → Bool
is_ok (ok a) = true
is_ok (err e) = false

-- `[0xff; n]`: the widest bitmap.
abbrev pub worst_case_block : Projection → BlockState
worst_case_block projection = record (block_state projection BlockStage.validated) {
  changed_bitmap = replicate (bitmap_len (len projection.watch_set)) 0xff;
}

unfoldable pub validate_projection_frames :
    Codec → Shared → Projection → ForkchoiceMeta → Result Error (Unit {0})
validate_projection_frames codec shared projection forkchoice =
    let generation = projection.watch_set.generation in
    let worst = worst_case_block projection in
    Prelude.◌>>=◌ (validate_projection_shape projection) λ _.
      Prelude.◌>>=◌
        (validate_event_frame codec shared generation
          (Event.snapshot (snapshot projection forkchoice)))
        λ _.
          Prelude.◌>>=◌ (validate_event_frame codec shared generation (Event.block_state worst))
            λ _. validate_event_frame codec shared generation (
              Event.canonical_head (record {
                previous_block_hash = hash_bytes 0;
                block = some (block_ref projection.block);
                values = projection.values;
                changed_bitmap = worst.changed_bitmap;
              }))

-- The checks of `reanchor` and `activate` on a loaded snapshot.
unfoldable pub check_snapshot : WatchSet → CanonicalSnapshot → Result Error (Unit {0})
check_snapshot watch_set loaded =
    Prelude.◌>>=◌ (validate_snapshot_view loaded)
      λ _. validate_projection_dictionary loaded.projection watch_set

abbrev pub set_anchor : ℕ → Exec (Unit {0})
set_anchor anchored_at s = (ok tt, record s { snapshot_anchored_at = anchored_at })

-- `producer.activate`.
abbrev pub set_watch_set : WatchSet → Exec (Unit {0})
set_watch_set watch_set s = (ok tt, record s { active_watch_set = watch_set })

module _ (codec : Codec) where
  -- The last contiguous sequence is the last one that was published.
  unfoldable pub announce_gap : String → Exec (Unit {0})
  announce_gap reason = do
    shared ← gets (λ s. s.shared)
    let canonical = shared.published.canonical
    _ ←
        publish_state codec canonical.watch_set.generation
          (Event.gap
            (record { last_contiguous_sequence = shared.published_sequence; reason = reason }))
          canonical none true
    pure tt

  -- The anchor, the candidates and the snapshot frame of a loaded snapshot that passed its checks.
  unfoldable pub install_snapshot : CanonicalSnapshot → Exec (Unit {0})
  install_snapshot loaded = do
    let projection = loaded.projection
    set_anchor loaded.anchored_at
    modify_cache (λ now c. reset_candidates c now projection loaded.forkchoice)
    _ ←
        publish_state codec projection.watch_set.generation
          (Event.snapshot (snapshot projection loaded.forkchoice)) projection
          (some loaded.forkchoice) false
    pure tt

  -- The anchor, the candidates, both frames and the producer's dictionary of a configuration.
  unfoldable pub install_config : WatchSet → CanonicalSnapshot → Exec (Unit {0})
  install_config watch_set loaded = do
    let projection = loaded.projection
    set_anchor loaded.anchored_at
    modify_cache (λ now c. reset_candidates c now projection loaded.forkchoice)
    _ ←
        publish_state codec watch_set.generation
          (Event.config_activated (config_activated watch_set)) projection (some loaded.forkchoice)
          false
    _ ← publish codec watch_set.generation (Event.snapshot (snapshot projection loaded.forkchoice))
    set_watch_set watch_set

-- The frames of a configuration are checked before anything is changed.
unfoldable pub check_config_frames :
    Codec → Shared → WatchSet → CanonicalSnapshot → Result Error (Unit {0})
check_config_frames codec shared watch_set loaded =
    Prelude.◌>>=◌
      (validate_event_frame codec shared watch_set.generation
        (Event.config_activated (config_activated watch_set)))
      λ _. validate_projection_frames codec shared loaded.projection loaded.forkchoice

module _ (codec : Codec) (source : SnapshotSource) where
  unfoldable pub reanchor : Exec (Unit {0})
  reanchor = do
    watch_set ← gets (λ s. (published s).canonical.watch_set)
    loaded ← load_latest source watch_set
    lift (check_snapshot watch_set loaded)
    shared ← gets (λ s. s.shared)
    lift (validate_projection_frames codec shared loaded.projection loaded.forkchoice)
    install_snapshot codec loaded

  unfoldable pub activate : WatchSet → Exec (Unit {0})
  activate watch_set = do
    current ← gets active_generation
    if leb watch_set.generation current then pure tt else do
      loaded ← load_latest source watch_set
      lift (check_snapshot watch_set loaded)
      shared ← gets (λ s. s.shared)
      lift (check_config_frames codec shared watch_set loaded)
      install_config codec watch_set loaded

  -- A round whose gap is announced: it still is, and whether the stream is anchored again.
  unfoldable pub attempt_reanchor : Publisher → Bool × Bool × Publisher
  attempt_reanchor s = let (r, s') = reanchor s in (true, is_ok r, s')

  -- One round of `recover_until_success`: whether the gap is announced after it, and whether the
  -- stream is anchored again.
  unfoldable pub recovery_round : String → Bool → Publisher → Bool × Bool × Publisher
  recovery_round reason true s = attempt_reanchor s
  recovery_round reason false s =
      let (r, s') = announce_gap codec reason s in
      let next = attempt_reanchor s' in if is_ok r then next else (false, false, s')

  -- The loop: `waits` is the number of rounds after which the wait for the retry times out; then a
  -- shutdown is received instead. True if the stream is anchored again.
  unfoldable pub recovery_loop : ℕ → String → Bool → Publisher → Bool × Publisher
  recovery_loop zero reason gap_announced s =
      let (announced, done, s') = recovery_round reason gap_announced s in (done, s')
  recovery_loop (suc waits) reason gap_announced s =
      let (announced, done, s') = recovery_round reason gap_announced s in
      let rest = recovery_loop waits reason announced s' in if done then (true, s') else rest

  unfoldable pub recover_until_success : ℕ → String → Publisher → Bool × Publisher
  recover_until_success waits reason s = recovery_loop waits reason (published s).recovering s
