-- ===== src/Wire.antt =====
-- src/wire.rs: the messages of protocol version 2 and their framing. Byte strings are lists of
-- numbers. The protobuf encoding is that of the crate `prost` and enters as a `Codec`.
pub mod Framing
use reth_statefeed.Prelude.{
  ℕ, ◌+◌, ◌≤◌, ◌<◌, ◌≡◌, Bool, Option, none, some, String, List, ◌++◌, length, ltb, if◌then◌else◌,
  Result, ok, err, u32_mod, u64_mod,
}
use reth_statefeed.Prelude.Bytes.{to_be_bytes}

abbrev pub protocol_version : ℕ
protocol_version = 2

pub record WatchKey : Type 0 where
  pub key_id : ℕ
  pub id : String
  pub address : List ℕ
  pub slot : List ℕ

pub record BlockRef : Type 0 where
  pub number : ℕ
  pub hash : List ℕ
  pub parent_hash : List ℕ
  pub timestamp : ℕ

pub record CheckpointRef : Type 0 where
  pub number : ℕ
  pub hash : List ℕ

pub record ForkchoiceView : Type 0 where
  pub head : Option CheckpointRef
  pub safe : Option CheckpointRef
  pub finalized : Option CheckpointRef

-- `#[repr(i32)]`: the numbers are those of the wire.
pub data BlockStage : Type 0 where
  unspecified executed validated : BlockStage

pub data RetirementReason : Type 0 where
  unspecified finalized_conflict cache_evicted retention_expired source_pruned : RetirementReason

abbrev pub stage_code : BlockStage → ℕ
stage_code BlockStage.unspecified = 0
stage_code BlockStage.executed = 1
stage_code BlockStage.validated = 2

abbrev pub reason_code : RetirementReason → ℕ
reason_code RetirementReason.unspecified = 0
reason_code RetirementReason.finalized_conflict = 1
reason_code RetirementReason.cache_evicted = 2
reason_code RetirementReason.retention_expired = 3
reason_code RetirementReason.source_pruned = 4

pub record Hello : Type 0 where
  pub service_version : String
  pub chain_id : ℕ
  pub genesis_hash : List ℕ
  pub capabilities : ℕ

pub record ConfigActivated : Type 0 where
  pub keys : List WatchKey

pub record Snapshot : Type 0 where
  pub block : Option BlockRef
  pub values : List ℕ
  pub forkchoice : Option ForkchoiceView

pub record BlockState : Type 0 where
  pub stage : ℕ
  pub block : Option BlockRef
  pub values : List ℕ
  pub changed_bitmap : List ℕ

pub record BlockValidated : Type 0 where
  pub block_hash : List ℕ

pub record BlockRejected : Type 0 where
  pub block_hash : List ℕ
  pub reason : String

pub record CanonicalHead : Type 0 where
  pub previous_block_hash : List ℕ
  pub block : Option BlockRef
  pub values : List ℕ
  pub changed_bitmap : List ℕ

pub record ForkchoiceApplied : Type 0 where
  pub view : Option ForkchoiceView

pub record CandidatesRetired : Type 0 where
  pub block_hashes : List (List ℕ)
  pub reason : ℕ

pub record Gap : Type 0 where
  pub last_contiguous_sequence : ℕ
  pub reason : String

-- `envelope::Event`.
pub data Event : Type 0 where
  hello : Hello → Event
  config_activated : ConfigActivated → Event
  snapshot : Snapshot → Event
  block_state : BlockState → Event
  block_validated : BlockValidated → Event
  block_rejected : BlockRejected → Event
  canonical_head : CanonicalHead → Event
  gap : Gap → Event
  forkchoice_applied : ForkchoiceApplied → Event
  candidates_retired : CandidatesRetired → Event

pub record Envelope : Type 0 where
  pub protocol_version : ℕ
  pub boot_id : List ℕ
  pub sequence : ℕ
  pub config_generation : ℕ
  pub emitted_at_monotonic_ns : ℕ
  pub event : Option Event

-- What the program calls of `prost::Message` for `Envelope`.
pub record Codec : Type 0 where
  pub encoded_len : Envelope → ℕ
  pub encode : Envelope → List ℕ
  pub decode : List ℕ → Option Envelope

pub data EncodeError : Type 0 where
  frame_too_large : ℕ → ℕ → EncodeError
  length_overflow : EncodeError

-- A four-byte big-endian length, then the payload. `payload_len + 4` is checked on `usize`.
unfoldable pub encode_frame : Codec → Envelope → ℕ → Result EncodeError (List ℕ)
encode_frame c envelope max_frame_bytes =
    let payload_len = c.encoded_len envelope in
    if ltb max_frame_bytes payload_len
    then err (frame_too_large payload_len max_frame_bytes)
    else if ltb payload_len u32_mod
    then if ltb (payload_len + 4) u64_mod
      then ok (to_be_bytes 4 payload_len ++ c.encode envelope)
      else err length_overflow
    else err length_overflow
