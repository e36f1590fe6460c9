-- ===== src/Integration/Snapshots.antt =====
-- What src/reth_integration.rs reads while the node goes on: the tracker, the clock, and the
-- provider of Reth. Each read happens at a time, and the next one at a later time.
pub mod Reads
pub mod Projecting
use reth_statefeed.Prelude.{
  ℕ, ◌+◌, Bool, true, false, Option, none, some, List, [], ◌∷◌, ◌++◌, Result, ok, err, ok_or,
  if◌then◌else◌,
}
use mathlib.Core.Option
use reth_statefeed.Prelude.Bytes.{to_be_bytes}
use reth_statefeed.Watch.{WatchSet, WatchKey}
use reth_statefeed.Feed.{BlockMeta, CheckpointMeta, AppliedForkchoiceMeta}
use reth_statefeed.Publisher.State.{Projection}
use reth_statefeed.Integration.{TrackedForkchoice, updated}

-- `provider` is an error of the provider.
pub data SnapshotError : Type 0 where
  provider header_not_found unreachable : SnapshotError
  forkchoice_kept_changing canonical_kept_changing : ℕ → ℕ → SnapshotError

pub record ChainInfo : Type 0 where
  pub best_number : ℕ
  pub best_hash : ℕ

pub record Header : Type 0 where
  pub number : ℕ
  pub parent_hash : ℕ
  pub timestamp : ℕ

-- The state of one block, which no longer changes: what a storage read of it answers.
abbrev pub StateView : Type 0
StateView = ℕ → ℕ → Result SnapshotError (Option ℕ)

-- What a read at a time answers. `updates` are the arguments of the tracker's updates, in their
-- order, and `applied` says how many of them happened before a time.
pub record World : Type 0 where
  pub updates : ℕ → Option AppliedForkchoiceMeta
  pub applied : ℕ → ℕ
  pub instant : ℕ → ℕ
  pub chain_info : ℕ → Result SnapshotError ChainInfo
  pub safe_block : ℕ → Result SnapshotError (Option CheckpointMeta)
  pub finalized_block : ℕ → Result SnapshotError (Option CheckpointMeta)
  pub sealed_header_by_hash : ℕ → ℕ → Result SnapshotError (Option Header)
  pub state_by_block_hash : ℕ → ℕ → Result SnapshotError StateView

-- Code that reads: its result and the time after it.
abbrev pub Read : Type 0 → Type 0
Read A = ℕ → Result SnapshotError A × ℕ

-- `?`: an error ends the code.
abbrev pub continue :
    {A B : Type 0} → (A → Read B) → Result SnapshotError A × ℕ → Result SnapshotError B × ℕ
continue f (err e, t) = (err e, t)
continue f (ok a, t) = f a t

infixl 5 ◌>>=◌ ◌>>◌
unfoldable pub ◌>>=◌ : {A B : Type 0} → Read A → (A → Read B) → Read B
◌>>=◌ m f t = continue f (m t)

unfoldable pub ◌>>◌ : {B : Type 0} → Read (Unit {0}) → Read B → Read B
unfolding ◌>>=◌
m >> k = m >>= λ _. k

abbrev pub pure : {A : Type 0} → A → Read A
pure a t = (ok a, t)

abbrev pub fail : {A : Type 0} → SnapshotError → Read A
fail e t = (err e, t)

-- `match` on a result of code that reads.
abbrev pub attempt : {A : Type 0} → Read A → Read (Result SnapshotError A)
attempt m t = let (r, t') = m t in (ok r, t')

-- A result that takes no read.
abbrev pub lift : {A : Type 0} → Result SnapshotError A → Read A
lift r t = (r, t)

-- One read.
abbrev pub at : {A : Type 0} → (ℕ → Result SnapshotError A) → Read A
at answer t = (answer t, t + 1)

-- `AppliedForkchoiceTracker::load`.
abbrev pub tracked : World → ℕ → TrackedForkchoice
tracked w t = (updated w.updates (w.applied t)).latest

abbrev pub load_tracker : World → Read TrackedForkchoice
load_tracker w = at (λ t. ok (tracked w t))

-- One round of the loop over the keys: 32 bytes for each; a slot without a value reads as zero.
abbrev pub push_value :
    Result SnapshotError (Option ℕ) → Result SnapshotError (List ℕ) → Result SnapshotError (List ℕ)
push_value (err e) later = err e
push_value (ok value) (err e) = err e
push_value (ok value) (ok values) = ok (to_be_bytes 32 (Option.get_or value 0) ++ values)

unfoldable pub read_values : StateView → List WatchKey → Result SnapshotError (List ℕ)
read_values state [] = ok []
read_values state (key ∷ rest) = push_value (state key.address key.slot) (read_values state rest)

-- `RethSnapshotSource::load_at`.
unfoldable pub load_at : World → WatchSet → ℕ → Read Projection
load_at w watch_set block_hash = do
  found ← at (λ t. w.sealed_header_by_hash t block_hash)
  header ← lift (ok_or found header_not_found)
  state ← at (λ t. w.state_by_block_hash t block_hash)
  values ← lift (read_values state watch_set.keys)
  pure (record {
    block = record {
      number = header.number;
      hash = block_hash;
      parent_hash = header.parent_hash;
      timestamp = header.timestamp;
    };
    watch_set = watch_set;
    values = values;
    changed_bitmap = [];
  })
