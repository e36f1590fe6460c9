-- ===== src/Publisher/Serve.antt =====
-- A consumer of src/publisher.rs: its handshake, and the frames it is sent, while publications go
-- on. `publish_inner` is cut into the steps that another thread can see.
pub mod Handshake
pub mod Baseline
use Prim.Native.Nat.{bit_or}
use reth_statefeed.Prelude.{
  ℕ, zero, suc, ◌+◌, ◌-◌, Bool, true, false, not, ◌&&◌, Option, none, some, String, List, [], ◌∷◌,
  length, ltb, leb, ◌==◌, if◌then◌else◌, max, Result, ok, err, ensure, ok_or, ◌>>=◌, ◌>>◌,
}
use reth_statefeed.Wire.{Codec, Event, Hello, EncodeError, encode_frame}
use reth_statefeed.Publisher.State.{Error, Projection, PublishedState, PublishedFrame, Shared}
use reth_statefeed.Feed.{ForkchoiceMeta}
use reth_statefeed.Publisher.Messages.{hash_bytes, config_activated, snapshot}
use reth_statefeed.Publisher.Exec.{
  NextState, envelope, next_published, next_sequence, validate_event_frame,
}
use reth_statefeed.Publisher.Recovery.{validate_projection_frames}

-- The bits of `capabilities`.
abbrev pub base_capabilities : ℕ
base_capabilities = 1 + 2 + 4 + 8 + 32 + 64

unfoldable pub advertised_capabilities : Bool → ℕ
advertised_capabilities publish_executed =
    bit_or base_capabilities (if publish_executed then 16 else 0)

-- Why a consumer is not served, or no longer. `refused` is an error of encoding.
pub data ConsumerError : Type 0 where
  recovery_in_progress transition_in_progress incoherent_head lagged : ConsumerError
  refused : EncodeError → ConsumerError

-- `version` is the version of the package.
module _ (codec : Codec) (version : String) where
  abbrev pub hello_event : Shared → Event
  hello_event shared = Event.hello (record {
    service_version = version;
    chain_id = shared.chain_id;
    genesis_hash = hash_bytes shared.genesis_hash;
    capabilities = shared.capabilities;
  })

  unfoldable pub validate_handshake_frames :
      Shared → Projection → ForkchoiceMeta → Result Error (Unit {0})
  validate_handshake_frames shared projection forkchoice = do
    validate_event_frame codec shared projection.watch_set.generation (hello_event shared)
    validate_event_frame codec shared projection.watch_set.generation
        (Event.config_activated (config_activated projection.watch_set))
    validate_projection_frames codec shared projection forkchoice

  -- `write_event`: the bytes that are written.
  unfoldable pub write_event : Shared → ℕ → ℕ → ℕ → Event → Result ConsumerError (List ℕ)
  write_event shared now sequence generation event =
      elim (encode_frame codec (envelope shared now sequence generation event)
        shared.max_frame_bytes) [ err e ↦ err (refused e) | ok frame ↦ ok frame ]

  -- The frames that are written first, in their order; `clock` is read for each.
  unfoldable pub write_handshake :
      (ℕ → ℕ) → Shared → ℕ → Projection → ForkchoiceMeta → Result ConsumerError (List (List ℕ))
  unfolding write_event
  write_handshake clock shared baseline canonical forkchoice = do
    hello ←
        write_event shared (clock 0) baseline canonical.watch_set.generation (hello_event shared)
    config ←
        write_event shared (clock 1) baseline canonical.watch_set.generation
          (Event.config_activated (config_activated canonical.watch_set))
    image ←
        write_event shared (clock 2) baseline canonical.watch_set.generation
          (Event.snapshot (snapshot canonical forkchoice))
    ok (hello ∷ config ∷ image ∷ [])

  abbrev pub baseline_of : ℕ → PublishedState → ℕ
  baseline_of committed_sequence published = max committed_sequence published.effective_sequence

  -- The checks on the loaded state, and the frames of the handshake.
  unfoldable pub handshake :
      (ℕ → ℕ) → Shared → ℕ → PublishedState → Result ConsumerError (List (List ℕ))
  unfolding write_handshake
  handshake clock shared committed_sequence published = do
    ensure (not published.recovering) recovery_in_progress
    forkchoice ← ok_or published.forkchoice transition_in_progress
    ensure
        (forkchoice.head.hash == published.canonical.block.hash
          && forkchoice.head.number == published.canonical.block.number)
        incoherent_head
    write_handshake clock shared (baseline_of committed_sequence published) published.canonical
        forkchoice

-- A publication between its steps: encoded, with its state stored, with its sequence committed.
pub data Publication : Type 0 where
  idle : Publication
  encoded : ℕ → List ℕ → Option NextState → Publication
  stored committed : ℕ → List ℕ → Publication

-- A consumer: `subscribed` knows how many frames were sent before, `loaded` the committed sequence
-- too; `serving` the baseline, the state it was shown, how many frames it has passed, and the frames
-- written to it, the newest first.
pub data Consumer : Type 0 where
  connecting : Consumer
  subscribed : ℕ → Consumer
  loaded : ℕ → ℕ → Consumer
  closed : ConsumerError → Consumer
  serving : ℕ → PublishedState → ℕ → List PublishedFrame → Consumer

-- `history` is no state of the program: every publication that was encoded, the newest first, with
-- the state for handshakes after it.
pub record Service : Type 0 where
  pub shared : Shared
  pub publication : Publication
  pub consumer : Consumer
  pub history : List (ℕ × PublishedState)

-- A publication starts, goes on by a step, or the consumer does, at a time.
pub data Move : Type 0 where
  publish : ℕ → ℕ → Event → Option NextState → Move
  proceed : Move
  consume : (ℕ → ℕ) → Move

-- A frame of those sent, the newest first, by its place from the oldest on.
unfoldable pub frame_at : List PublishedFrame → ℕ → Option PublishedFrame
frame_at [] i = none
frame_at (frame ∷ older) i = if length older == i then some frame else frame_at older i

module _ (codec : Codec) (version : String) (capacity : ℕ) where
  -- `publish_inner` up to the encoded frame.
  unfoldable pub begin : ℕ → ℕ → Event → Option NextState → Service → Service
  begin now generation event next_state w =
      let sequence = next_sequence w.shared in
      let allocated = record w.shared { sequence = w.shared.sequence + 1 } in
      elim (encode_frame codec (envelope w.shared now sequence generation event)
        w.shared.max_frame_bytes) [
          | err e ↦ record w { shared = allocated }
          | ok frame ↦ record w {
            shared = allocated;
            publication = encoded sequence frame next_state;
            history = (sequence, next_published w.shared.published next_state sequence) ∷ w.history;
          }
        ]

  -- The rest of `publish_inner`: the state, the committed sequence, the frame.
  unfoldable pub continue_publication : Publication → Service → Service
  continue_publication idle w = w
  continue_publication (encoded sequence frame next_state) w = record w {
    shared = record w.shared { published = next_published w.shared.published next_state sequence };
    publication = stored sequence frame;
  }
  continue_publication (stored sequence frame) w = record w {
    shared = record w.shared { published_sequence = sequence };
    publication = committed sequence frame;
  }
  continue_publication (committed sequence frame) w = record w {
    shared = record w.shared {
      frames = record { sequence = sequence; bytes = frame } ∷ w.shared.frames;
    };
    publication = idle;
  }

  -- The publisher has one thread: a publication starts when the one before is done.
  unfoldable pub publish_when_idle :
      Publication → ℕ → ℕ → Event → Option NextState → Service → Service
  unfolding begin
  publish_when_idle idle now generation event next_state w = begin now generation event next_state w
  publish_when_idle p now generation event next_state w = w

  -- `frames.recv`: the next frame, none where all were read, or the loss of frames that the channel
  -- no longer holds.
  unfoldable pub receive :
      ℕ → PublishedState → ℕ → List PublishedFrame → List PublishedFrame → Consumer
  unfolding frame_at
  receive baseline state passed written frames =
      if ltb (passed + capacity) (length frames)
      then closed lagged
      else elim (frame_at frames passed) [
        | none ↦ serving baseline state passed written
        | some frame ↦
            serving baseline state (passed + 1)
              (if ltb baseline frame.sequence then frame ∷ written else written)
      ]

  -- A step of `serve_consumer`.
  unfoldable pub serve : (ℕ → ℕ) → Shared → Consumer → Consumer
  unfolding handshake receive
  serve clock shared connecting = subscribed (length shared.frames)
  serve clock shared (subscribed before) = loaded before shared.published_sequence
  serve clock shared (loaded before committed_sequence) =
      elim (handshake codec version clock shared committed_sequence shared.published) [
        | err e ↦ closed e
        | ok written ↦
            serving (baseline_of codec version committed_sequence shared.published) shared.published
              before []
      ]
  serve clock shared (closed e) = closed e
  serve clock shared (serving baseline state passed written) =
      receive baseline state passed written shared.frames

  unfoldable pub move : Move → Service → Service
  unfolding publish_when_idle continue_publication serve
  move (publish now generation event next_state) w =
      publish_when_idle w.publication now generation event next_state w
  move proceed w = continue_publication w.publication w
  move (consume clock) w = record w { consumer = serve clock w.shared w.consumer }

  unfoldable pub run_moves : List Move → Service → Service
  unfolding move
  run_moves [] w = w
  run_moves (m ∷ rest) w = run_moves rest (move m w)
