-- ===== src/Publisher/Stream/Publication.antt =====
-- One publication as the cursor sees it.
use reth_statefeed.Prelude.{
  ℕ, ◌+◌, ◌-◌, ◌≤◌, ◌<◌, ◌≡◌, ◌⊎◌, inl, inr, refl, Bool, true, false, Option, none, some, List, ◌∷◌,
  Result, ok, err, u64_mod, arith, ap,
}
use reth_statefeed.Wire.{Codec, Envelope, Event, EncodeError, encode_frame}
use reth_statefeed.Wire.Framing.{encode_frame-eq-ok, encode_frame_of_fits}
use reth_statefeed.Dump.{StreamPhase, live, observe, is_hello, is_config, is_snapshot, gap_of}
use reth_statefeed.Publisher.State.{encode, PublishedFrame, Shared}
use reth_statefeed.Publisher.Exec.{
  NextState, publish_inner, envelope, envelope_at, next_sequence, next_published,
  validate_event_frame,
}
use reth_statefeed.Publisher.Stream.{next, IsMonotone, DeliversTo}

pub Result-cases {ℓ κ} :
    {E : Type ℓ} {A : Type κ} (r : Result E A) → ((a : A) × (r ≡ ok a)) ⊎ ((e : E) × (r ≡ err e))
Result-cases (ok a) = inl (a, refl)
Result-cases (err e) = inr (e, refl)

-- An event that an open cursor takes for any other reason than a gap or a configuration.
abbrev pub IsPlain : Event → Type 0
IsPlain event = (is_hello event ≡ false) × (is_config event ≡ false) × (gap_of event ≡ none)

pub observe-plain :
    (n generation : ℕ) (event : Event)
    → n + 1 < u64_mod
    → IsPlain event
    → observe (live n false) (n + 1) generation event ≡ ok (live (n + 1) false)
unfolding observe
observe-plain n generation event h p = ground arith

pub observe-config :
    (n generation : ℕ) (event : Event)
    → n + 1 < u64_mod
    → is_config event ≡ true
    → observe (live n false) (n + 1) generation event ≡ ok (live (n + 1) true)
unfolding observe
observe-config n generation event h p = ground arith

pub observe-snapshot :
    (n generation : ℕ) (event : Event)
    → n + 1 < u64_mod
    → is_snapshot event ≡ true
    → observe (live n true) (n + 1) generation event ≡ ok (live (n + 1) false)
unfolding observe
observe-snapshot n generation event h p = ground arith

pub observe-gap :
    (n m generation : ℕ) (event : Event)
    → n ≤ m
    → gap_of event ≡ some n
    → observe (live n false) (m + 1) generation event ≡ ok (live (m + 1) true)
unfolding observe
observe-gap n m generation event h p = ground arith

-- The state of `Shared` after a frame was sent.
abbrev pub sent : Shared → List ℕ → Option NextState → Shared
sent s frame next_state = record s {
  sequence = s.sequence + 1;
  published = next_published s.published next_state (next_sequence s);
  published_sequence = next_sequence s;
  frames = record { sequence = next_sequence s; bytes = frame } ∷ s.frames;
}

module _ (codec : Codec) (now : ℕ) (s : Shared) (generation : ℕ) (event : Event) where
  abbrev pub next_envelope : Envelope
  next_envelope = envelope s now (next_sequence s) generation event

  pub publish_inner-sent :
      (next_state : Option NextState) (frame : List ℕ)
      → encode_frame codec next_envelope s.max_frame_bytes ≡ ok frame
      → publish_inner codec now s generation event next_state
        ≡ (ok (next_sequence s), sent s frame next_state)
  unfolding publish_inner
  publish_inner-sent next_state frame h = rw (h, publish_inner)

  pub publish_inner-lost :
      (next_state : Option NextState) {e : EncodeError}
      → encode_frame codec next_envelope s.max_frame_bytes ≡ err e
      → publish_inner codec now s generation event next_state
        ≡ (err (encode e), record s { sequence = s.sequence + 1 })
  unfolding publish_inner
  publish_inner-lost next_state h = rw (h, publish_inner)

  -- A checked event is sent, whatever the sequence and the time are by then.
  pub encode_frame_of_checked :
      IsMonotone codec
      → (checked : Shared) → checked.boot_id ≡ s.boot_id
      → checked.max_frame_bytes ≡ s.max_frame_bytes
      → validate_event_frame codec checked generation event ≡ ok tt
      → (frame : List ℕ) × (encode_frame codec next_envelope s.max_frame_bytes ≡ ok frame)
  unfolding validate_event_frame envelope
  encode_frame_of_checked mono checked boot limit valid =
      elim (Result-cases (encode_frame codec widest checked.max_frame_bytes)) [
        | inr (e, bad) ↦ absurd (ground arith)
        | inl (frame, good) ↦
            let (fits, small, _) = encode_frame-eq-ok codec widest checked.max_frame_bytes good in
            (
              _,
              encode_frame_of_fits codec next_envelope s.max_frame_bytes
                  (omega (arith, shorter, same)) (omega (arith, shorter, same)),
            )
      ]
    where
      widest : Envelope
      widest = envelope_at checked (u64_mod - 1) generation (u64_mod - 1) event

      shorter :
          codec.encoded_len next_envelope
          ≤ codec.encoded_len (envelope_at s (u64_mod - 1) generation (u64_mod - 1) event)
      shorter = mono.grows next_envelope (u64_mod - 1) (u64_mod - 1) (omega arith) (omega arith)

      same :
          codec.encoded_len widest
          ≡ codec.encoded_len (envelope_at s (u64_mod - 1) generation (u64_mod - 1) event)
      same = ap (λ b. codec.encoded_len (record widest { boot_id = b })) boot

  module _ (base : List PublishedFrame) (start : StreamPhase) where
    pub deliver :
        (waiting waiting' : Bool) (next_state : Option NextState) (frame : List ℕ)
        → DeliversTo codec base start waiting s
        → observe (live s.published_sequence waiting) (s.sequence + 1) generation event
          ≡ ok (live (s.sequence + 1) waiting')
        → s.sequence + 1 < u64_mod
        → encode_frame codec next_envelope s.max_frame_bytes ≡ ok frame
        → DeliversTo codec base start waiting' (sent s frame next_state)
    unfolding envelope
    deliver waiting waiting' next_state frame d accepted small h =
        let e : next_sequence s ≡ s.sequence + 1 = omega arith in
        next (record { sequence = next_sequence s; bytes = frame }) next_envelope event d refl h
          (rw e accepted)
