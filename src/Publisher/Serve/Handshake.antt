-- ===== src/Publisher/Serve/Handshake.antt =====
-- The handshake of `serve_consumer` in src/publisher.rs against the cursor of the consumer, and
-- against the checks that are made before a state is published.
use reth_statefeed.Prelude.{
  ℕ, ◌-◌, ◌≤◌, ◌<◌, ◌≡◌, true, false, not, ◌&&◌, some, String, List, [], ◌∷◌, ◌++◌, ◌==◌, ==_iff,
  Result, ok, ensure, ok_or, >>=-eq-ok, ensure-eq-ok, refl, subst, arith, u64_mod, inl, inr,
}
use reth_statefeed.Prelude.Bytes.{to_be_bytes}
use reth_statefeed.Feed.{ForkchoiceMeta}
use reth_statefeed.Wire.{Codec, Envelope, Event, encode_frame}
use reth_statefeed.Wire.Framing.{encode_frame-eq-ok, encode_frame_of_fits}
use reth_statefeed.Dump.{
  StreamPhase, hello, config, initial_snapshot, live, observe, is_config, is_snapshot,
}
use reth_statefeed.Publisher.State.{Projection, PublishedState, PublishedFrame, Shared}
use reth_statefeed.Publisher.Exec.{envelope, envelope_at, validate_event_frame}
use reth_statefeed.Publisher.Messages.{config_activated, snapshot}
use reth_statefeed.Publisher.Recovery.{validate_projection_frames}
use reth_statefeed.Publisher.Validate.{validate_projection_shape}
use reth_statefeed.Publisher.Stream.{IsMonotone, Delivers, none_yet, next}
use reth_statefeed.Publisher.Stream.Publication.{Result-cases}
use reth_statefeed.Publisher.Serve.{
  ConsumerError, recovery_in_progress, transition_in_progress, incoherent_head, hello_event,
  validate_handshake_frames, write_event, write_handshake, baseline_of, handshake,
}

observe-initial_config :
    (baseline generation : ℕ) (event : Event)
    → is_config event ≡ true
    → observe (config baseline generation) baseline generation event
      ≡ ok (initial_snapshot baseline generation)
unfolding observe
observe-initial_config baseline generation event h = ground arith

observe-initial_snapshot :
    (baseline generation : ℕ) (event : Event)
    → is_snapshot event ≡ true
    → observe (initial_snapshot baseline generation) baseline generation event
      ≡ ok (live baseline false)
unfolding observe
observe-initial_snapshot baseline generation event h = ground arith

module _ (codec : Codec) (version : String) where
  write_event-eq-ok :
      (shared : Shared) (now sequence generation : ℕ) (event : Event) {frame : List ℕ}
      → write_event codec version shared now sequence generation event ≡ ok frame
      → encode_frame codec (envelope shared now sequence generation event) shared.max_frame_bytes
        ≡ ok frame
  unfolding write_event
  write_event-eq-ok shared now sequence generation event h = ground arith

  -- The frames as a consumer reads them, the newest first.
  abbrev pub read_frames : ℕ → List (List ℕ) → List PublishedFrame → List PublishedFrame
  read_frames sequence [] before = before
  read_frames sequence (bytes ∷ rest) before =
      read_frames sequence rest (record { sequence = sequence; bytes = bytes } ∷ before)

  wrote :
      (shared : Shared) (now sequence generation : ℕ) (event : Event) (bytes : List ℕ)
      {frames : List PublishedFrame} {phase phase' : StreamPhase}
      → write_event codec version shared now sequence generation event ≡ ok bytes
      → observe phase sequence generation event ≡ ok phase'
      → Delivers codec shared.max_frame_bytes [] hello frames phase
      → Delivers codec shared.max_frame_bytes [] hello
          (record { sequence = sequence; bytes = bytes } ∷ frames)
          phase'
  unfolding envelope
  wrote shared now sequence generation event bytes written accepted before =
      next (record { sequence = sequence; bytes = bytes })
        (envelope shared now sequence generation event) event before refl
        (write_event-eq-ok shared now sequence generation event written) accepted

  write_handshake-Delivers :
      (clock : ℕ → ℕ) (shared : Shared) (baseline : ℕ) (canonical : Projection)
      (forkchoice : ForkchoiceMeta) {written : List (List ℕ)}
      → write_handshake codec version clock shared baseline canonical forkchoice ≡ ok written
      → Delivers codec shared.max_frame_bytes [] hello
          (read_frames baseline written [])
          (live baseline false)
  unfolding write_handshake observe
  write_handshake-Delivers clock shared baseline canonical forkchoice {written = written} h =
      let generation = canonical.watch_set.generation in
      let (f₁, w₁, r₁) =
        >>=-eq-ok
          (write_event codec version shared (clock 0) baseline generation
            (hello_event codec version shared))
          _ h in
      let (f₂, w₂, r₂) =
        >>=-eq-ok
          (write_event codec version shared (clock 1) baseline generation
            (Event.config_activated (config_activated canonical.watch_set)))
          _ r₁ in
      let (f₃, w₃, r₃) =
        >>=-eq-ok
          (write_event codec version shared (clock 2) baseline generation
            (Event.snapshot (snapshot canonical forkchoice)))
          _ r₂ in
      subst
        (λ w.
          Delivers codec shared.max_frame_bytes [] hello (read_frames baseline w [])
            (live baseline false))
        (all_written f₁ f₂ f₃ r₃)
        (wrote shared (clock 2) baseline generation _ f₃ w₃
          (observe-initial_snapshot baseline generation
            (Event.snapshot (snapshot canonical forkchoice)) refl)
          (wrote shared (clock 1) baseline generation _ f₂ w₂
            (observe-initial_config baseline generation
              (Event.config_activated (config_activated canonical.watch_set)) refl)
            (wrote shared (clock 0) baseline generation _ f₁ w₁ refl none_yet)))
    where
      all_written :
          (f₁ f₂ f₃ : List ℕ)
          → ◌≡◌ {A = Result ConsumerError (List (List ℕ))} (ok (f₁ ∷ f₂ ∷ f₃ ∷ [])) (ok written)
          → f₁ ∷ f₂ ∷ f₃ ∷ [] ≡ written
      all_written f₁ f₂ f₃ h = cc

  -- The handshake of a consumer that is served is accepted by its cursor, which then stands live at
  -- the baseline; the state it shows is not in recovery, and its forkchoice head is its block.
  pub handshake-Delivers :
      (clock : ℕ → ℕ) (shared : Shared) (committed_sequence : ℕ) (published : PublishedState)
      {written : List (List ℕ)}
      → handshake codec version clock shared committed_sequence published ≡ ok written
      → Delivers codec shared.max_frame_bytes [] hello
          (read_frames (baseline_of codec version committed_sequence published) written [])
          (live (baseline_of codec version committed_sequence published) false)
        × (published.recovering ≡ false)
  unfolding handshake
  handshake-Delivers clock shared committed_sequence published h =
      let (_, calm, h₁) = >>=-eq-ok (ensure (not published.recovering) recovery_in_progress) _ h in
      let (forkchoice, _, h₂) =
        >>=-eq-ok (ok_or published.forkchoice transition_in_progress) _ h₁ in
      let (_, _, h₃) =
        >>=-eq-ok
          (ensure
            (forkchoice.head.hash == published.canonical.block.hash
              && forkchoice.head.number == published.canonical.block.number)
            incoherent_head)
          _ h₂ in
      (
        write_handshake-Delivers clock shared
            (baseline_of codec version committed_sequence published) published.canonical forkchoice
            h₃,
        ground (arith, ensure-eq-ok (not published.recovering) recovery_in_progress calm),
      )

  -- A checked event is written, whatever the sequence and the time are by then.
  write_event_of_checked :
      (shared : Shared) (now sequence generation : ℕ) (event : Event)
      → IsMonotone codec
      → sequence < u64_mod
      → validate_event_frame codec shared generation event ≡ ok tt
      → (frame : List ℕ) × (write_event codec version shared now sequence generation event
          ≡ ok frame)
  unfolding validate_event_frame write_event envelope
  write_event_of_checked shared now sequence generation event mono small valid =
      elim (Result-cases (encode_frame codec widest shared.max_frame_bytes)) [
        | inr (e, bad) ↦ absurd (ground arith)
        | inl (frame, good) ↦
            let (fits, few, _) = encode_frame-eq-ok codec widest shared.max_frame_bytes good in
            (
              to_be_bytes 4 (codec.encoded_len (envelope shared now sequence generation event))
                  ++ codec.encode (envelope shared now sequence generation event),
              rw
                  (
                    write_event,
                    encode_frame_of_fits codec (envelope shared now sequence generation event)
                        shared.max_frame_bytes (omega (arith, shorter)) (omega (arith, shorter)),
                  )
                  refl,
            )
      ]
    where
      widest : Envelope
      widest = envelope_at shared (u64_mod - 1) generation (u64_mod - 1) event

      shorter :
          codec.encoded_len (envelope shared now sequence generation event)
          ≤ codec.encoded_len widest
      shorter =
          mono.grows (envelope shared now sequence generation event) (u64_mod - 1) (u64_mod - 1)
            (omega arith) (omega arith)

  -- The three events of a checked state are written.
  write_handshake_of_checked :
      (clock : ℕ → ℕ) (shared : Shared) (baseline : ℕ) (canonical : Projection)
      (forkchoice : ForkchoiceMeta)
      → IsMonotone codec
      → baseline < u64_mod
      → validate_handshake_frames codec version shared canonical forkchoice ≡ ok tt
      → (written : List (List ℕ)) × (write_handshake codec version clock shared baseline canonical
            forkchoice
          ≡ ok written)
  unfolding validate_handshake_frames validate_projection_frames write_handshake
  write_handshake_of_checked clock shared baseline canonical forkchoice mono small valid =
      let generation = canonical.watch_set.generation in
      let (_, v₁, r₁) =
        >>=-eq-ok (validate_event_frame codec shared generation (hello_event codec version shared))
          _ valid in
      let (_, v₂, r₂) =
        >>=-eq-ok
          (validate_event_frame codec shared generation
            (Event.config_activated (config_activated canonical.watch_set)))
          _ r₁ in
      let (_, _, r₃) = >>=-eq-ok (validate_projection_shape canonical) _ r₂ in
      let (_, v₃, _) =
        >>=-eq-ok
          (validate_event_frame codec shared generation
            (Event.snapshot (snapshot canonical forkchoice)))
          _ r₃ in
      let (f₁, w₁) =
        write_event_of_checked shared (clock 0) baseline generation
          (hello_event codec version shared) mono small v₁ in
      let (f₂, w₂) =
        write_event_of_checked shared (clock 1) baseline generation
          (Event.config_activated (config_activated canonical.watch_set)) mono small v₂ in
      let (f₃, w₃) =
        write_event_of_checked shared (clock 2) baseline generation
          (Event.snapshot (snapshot canonical forkchoice)) mono small v₃ in
      (f₁ ∷ f₂ ∷ f₃ ∷ [], rw (write_handshake, w₁, w₂, w₃) refl)

  -- Where the state that a consumer loads passed `validate_handshake_frames` with its forkchoice view,
  -- which it has outside recoveries and transitions, and its head is the block of that view, the
  -- handshake succeeds at any baseline below 2^64 and at any time, the length of the codec being
  -- monotone: no frame is too large by then.
  pub handshake_of_checked :
      (clock : ℕ → ℕ) (shared : Shared) (committed_sequence : ℕ) (published : PublishedState)
      (forkchoice : ForkchoiceMeta)
      → IsMonotone codec
      → committed_sequence < u64_mod
      → published.effective_sequence < u64_mod
      → published.recovering ≡ false
      → published.forkchoice ≡ some forkchoice
      → forkchoice.head.hash ≡ published.canonical.block.hash
      → forkchoice.head.number ≡ published.canonical.block.number
      → validate_handshake_frames codec version shared published.canonical forkchoice ≡ ok tt
      → (written : List (List ℕ)) × (handshake codec version clock shared committed_sequence
            published
          ≡ ok written)
  unfolding handshake
  handshake_of_checked clock shared committed_sequence published forkchoice mono small₁ small₂ calm
        has same_hash same_number valid =
      let (written, w) =
        write_handshake_of_checked clock shared
          (baseline_of codec version committed_sequence published) published.canonical forkchoice
          mono (omega arith) valid in
      (
        written,
        rw
            (
              handshake,
              calm,
              has,
              (==_iff forkchoice.head.hash published.canonical.block.hash).1 same_hash,
              (==_iff forkchoice.head.number published.canonical.block.number).1 same_number,
            )
            w,
      )
