-- ===== src/Tests/Samples.antt =====
-- A dictionary of two slots, three blocks, a source, a codec and a publisher.
use reth_statefeed.Prelude.{
  ℕ, zero, suc, ◌+◌, ◌^◌, false, Option, none, some, List, [], ◌∷◌, Result, ok, err, replicate,
}
use reth_statefeed.Watch.{WatchSet, SlotChange}
use reth_statefeed.Feed.{BlockMeta, ForkchoiceMeta, AppliedForkchoiceMeta}
use reth_statefeed.Wire.{Codec, Envelope, Event}
use reth_statefeed.Publisher.State.{
  Error, SnapshotSource, CanonicalSnapshot, Projection, Shared, Candidates, Publisher,
}
use reth_statefeed.Publisher.Insertion.{anchor_entry}

abbrev pub sample_set : WatchSet
sample_set = record {
  generation = 1;
  keys =
      record { key_id = 0; id = "psm.balance"; address = 17; slot = 5 }
      ∷ record { key_id = 1; id = "gsm.limit"; address = 18; slot = 6 }
      ∷ [];
  addresses = [];
  address_to_index = [];
}

abbrev pub block_one : BlockMeta
block_one = record { number = 1; hash = 101; parent_hash = 100; timestamp = 12 }

abbrev pub block_two : BlockMeta
block_two = record { number = 2; hash = 102; parent_hash = 101; timestamp = 24 }

abbrev pub rival_two : BlockMeta
rival_two = record { number = 2; hash = 202; parent_hash = 101; timestamp = 24 }

abbrev pub projection_at : BlockMeta → Projection
projection_at block = record {
  block = block;
  watch_set = sample_set;
  values = replicate 64 0;
  changed_bitmap = [];
}

abbrev pub view_at : BlockMeta → ForkchoiceMeta
view_at block = record {
  head = record { number = block.number; hash = block.hash };
  safe = none;
  finalized = none;
}

abbrev pub snapshot_at : BlockMeta → ℕ → CanonicalSnapshot
snapshot_at block anchored_at = record {
  projection = projection_at block;
  anchored_at = anchored_at;
  forkchoice = view_at block;
}

-- The first call fails, later ones answer with block 2.
abbrev pub sample_latest : ℕ → Result Error CanonicalSnapshot
sample_latest zero = err Error.source
sample_latest (suc n) = ok (snapshot_at block_two 40)

abbrev pub sample_source : SnapshotSource
sample_source = record {
  load_latest = λ loads watch_set. sample_latest loads;
  load_at = λ loads watch_set hash. err Error.source;
}

abbrev pub sample_envelope : ℕ → ℕ → Envelope
sample_envelope sequence generation = record {
  protocol_version = 2;
  boot_id = [];
  sequence = sequence;
  config_generation = generation;
  emitted_at_monotonic_ns = 0;
  event = some (Event.gap (record { last_contiguous_sequence = 3; reason = "publisher_error" }));
}

-- Two bytes carry the sequence and the generation of gaps; all else is fixed.
abbrev pub sample_decode : List ℕ → Option Envelope
sample_decode (sequence ∷ generation ∷ rest) = some (sample_envelope sequence generation)
sample_decode _ = none

abbrev pub sample_codec : Codec
sample_codec = record {
  encoded_len = λ e. 2;
  encode = λ e. e.sequence ∷ e.config_generation ∷ [];
  decode = sample_decode;
}

abbrev pub sample_shared : Shared
sample_shared = record {
  boot_id = [];
  chain_id = 1;
  genesis_hash = 99;
  started_at = 0;
  sequence = 0;
  published_sequence = 0;
  max_frame_bytes = 1024;
  capabilities = 127;
  published = record {
    canonical = projection_at block_one;
    forkchoice = some (view_at block_one);
    effective_sequence = 0;
    recovering = false;
  };
  frames = [];
}

abbrev pub sample_cache : Candidates
sample_cache = record {
  candidates = (101, anchor_entry (projection_at block_one) 1 130) ∷ [];
  deferred_executed = [];
  children_by_parent = [];
  projection_order = (1, 101) ∷ [];
  metadata_order = (1, 101) ∷ [];
  tombstones = [];
  tombstone_order = [];
  next_incarnation = 2;
  projection_count = 1;
  cache_limit = 2;
  metadata_limit = 4;
  candidate_retention = 120;
  retirement_work_budget = 8;
  canonical_hash = 101;
  last_finalized = none;
  finality_sweep = none;
}

abbrev pub sample_publisher : Publisher
sample_publisher = record {
  shared = sample_shared;
  cache = sample_cache;
  active_watch_set = sample_set;
  snapshot_anchored_at = 10;
  now = 10;
  loads = 0;
}

abbrev pub changes_two : List SlotChange
changes_two = record { key_id = 1; new_value = 2 ^ 200 + 7 } ∷ []

abbrev pub applied_two : AppliedForkchoiceMeta
applied_two = record {
  head_hash = 102;
  safe = some (record { number = 1; hash = 101 });
  finalized = some (record { number = 1; hash = 101 });
}
