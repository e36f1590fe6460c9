-- ===== src/Publisher/Serve/Baseline/Interleaving.antt =====
-- Any interleaving of publications with a consumer that connects, in src/publisher.rs.
use reth_statefeed.Prelude.{
  ℕ, ◌+◌, ◌≤◌, ◌<◌, ◌≡◌, Option, String, List, [], ◌∷◌, length, refl, subst, arith, u64_mod, inl,
  inr,
}
use reth_statefeed.Wire.{Codec, Event, encode_frame}
use reth_statefeed.Publisher.State.{PublishedState, PublishedFrame}
use reth_statefeed.Publisher.Exec.{NextState, envelope, next_published, next_sequence}
use reth_statefeed.Publisher.Stream.Publication.{Result-cases}
use reth_statefeed.Publisher.Serve.{
  Publication, idle, encoded, stored, committed, connecting, serving, Service, Move, publish,
  proceed, consume, begin, continue_publication, publish_when_idle, move, run_moves,
}
use reth_statefeed.Publisher.Serve.Baseline.{
  state_at, AreSent, IsCoherent, begin-IsCoherent, continue_publication-IsCoherent,
}
use reth_statefeed.Publisher.Serve.Baseline.Consuming.{
  after, oldest, Served, Served-sent, Served-committed, Served-allocated, Served-begun,
  serve-Served,
}

abbrev IsSound : PublishedState → Service → Type 0
IsSound initial w =
    IsCoherent initial w
    × Served initial w.history w.shared.sequence w.shared.published_sequence w.shared.frames
        w.consumer

module _ (codec : Codec) (version : String) (capacity : ℕ) (initial : PublishedState) where
  continue_publication-IsSound :
      (w : Service) (p : Publication)
      → IsSound initial (record w { publication = p })
      → IsSound initial
          (continue_publication codec version capacity p (record w { publication = p }))
  unfolding continue_publication
  continue_publication-IsSound w idle s = s
  continue_publication-IsSound w (encoded sequence frame next_state) (c, s) = (
    continue_publication-IsCoherent codec version capacity initial w
        (encoded sequence frame next_state) c,
    s,
  )
  continue_publication-IsSound w (stored sequence frame) (c, s) = (
    continue_publication-IsCoherent codec version capacity initial w (stored sequence frame) c,
    Served-committed initial w.history w.shared.sequence w.shared.published_sequence sequence
        w.shared.frames w.consumer (omega (arith, c.stage.1)) s,
  )
  continue_publication-IsSound w (committed sequence frame) (c, s) = (
    continue_publication-IsCoherent codec version capacity initial w (committed sequence frame) c,
    Served-sent initial w.history w.shared.sequence w.shared.published_sequence _ w.shared.frames
        w.consumer s,
  )

  begin-IsSound :
      (w : Service) (now generation : ℕ) (event : Event) (next_state : Option NextState)
      → w.shared.sequence + 1 < u64_mod
      → IsSound initial (record w { publication = idle })
      → IsSound initial (
          begin codec version capacity now generation event next_state
            (record w { publication = idle }))
  unfolding begin
  begin-IsSound w now generation event next_state small (c, s) = (
    begin-IsCoherent codec version capacity initial w now generation event next_state small c,
    elim (Result-cases (
        encode_frame codec (envelope w.shared now (next_sequence w.shared) generation event)
          w.shared.max_frame_bytes)) [
            | inl (frame, good) ↦
                rw (begin, good)
                  (Served-begun initial w.history w.shared.sequence w.shared.published_sequence
                    (next_sequence w.shared)
                    (next_published w.shared.published next_state (next_sequence w.shared))
                    w.shared.frames w.consumer (omega arith) s)
            | inr (e, bad) ↦
                rw (begin, bad)
                  (Served-allocated initial w.history w.shared.sequence w.shared.published_sequence
                    w.shared.frames w.consumer s)
          ],
  )

  begin-sequence :
      (w : Service) (now generation : ℕ) (event : Event) (next_state : Option NextState)
      → (begin codec version capacity now generation event next_state w).shared.sequence
        ≡ w.shared.sequence + 1
  unfolding begin
  begin-sequence w now generation event next_state =
      elim (Result-cases (
        encode_frame codec (envelope w.shared now (next_sequence w.shared) generation event)
          w.shared.max_frame_bytes)) [
            | inl (frame, good) ↦ rw (begin, good) refl
            | inr (e, bad) ↦ rw (begin, bad) refl
          ]

  publish_when_idle-IsSound :
      (w : Service) (p : Publication) (now generation : ℕ) (event : Event)
      (next_state : Option NextState)
      → (publish_when_idle codec version capacity p now generation event next_state
          (record w { publication = p })).shared.sequence
        < u64_mod
      → IsSound initial (record w { publication = p })
      → IsSound initial (
          publish_when_idle codec version capacity p now generation event next_state
            (record w { publication = p }))
  unfolding publish_when_idle
  publish_when_idle-IsSound w idle now generation event next_state small s =
      begin-IsSound w now generation event next_state
        (omega (
          arith,
          begin-sequence (record w { publication = idle }) now generation event next_state,
          small,
        ))
        s
  publish_when_idle-IsSound w (encoded sequence frame next) now generation event next_state small
        s =
      s
  publish_when_idle-IsSound w (stored sequence frame) now generation event next_state small s = s
  publish_when_idle-IsSound w (committed sequence frame) now generation event next_state small s = s

  move-IsSound :
      (m : Move) (w : Service)
      → (move codec version capacity m w).shared.sequence < u64_mod
      → IsSound initial w
      → IsSound initial (move codec version capacity m w)
  unfolding move
  move-IsSound (publish now generation event next_state) w small s =
      publish_when_idle-IsSound w w.publication now generation event next_state small s
  move-IsSound proceed w small s = continue_publication-IsSound w w.publication s
  move-IsSound (consume clock) w small (c, s) = (
    record { ordered = c.ordered; sent = c.sent; stage = c.stage },
    serve-Served codec version capacity initial clock w w.consumer c s,
  )

  publish_when_idle-sequence :
      (w : Service) (p : Publication) (now generation : ℕ) (event : Event)
      (next_state : Option NextState)
      → w.shared.sequence
        ≤ (publish_when_idle codec version capacity p now generation event next_state
            w).shared.sequence
  unfolding publish_when_idle
  publish_when_idle-sequence w idle now generation event next_state =
      omega (arith, begin-sequence w now generation event next_state)
  publish_when_idle-sequence w (encoded sequence frame next) now generation event next_state =
      omega arith
  publish_when_idle-sequence w (stored sequence frame) now generation event next_state = omega arith
  publish_when_idle-sequence w (committed sequence frame) now generation event next_state =
      omega arith

  continue_publication-sequence :
      (w : Service) (p : Publication)
      → w.shared.sequence ≤ (continue_publication codec version capacity p w).shared.sequence
  unfolding continue_publication
  continue_publication-sequence w idle = omega arith
  continue_publication-sequence w (encoded sequence frame next) = omega arith
  continue_publication-sequence w (stored sequence frame) = omega arith
  continue_publication-sequence w (committed sequence frame) = omega arith

  move-sequence :
      (m : Move) (w : Service)
      → w.shared.sequence ≤ (move codec version capacity m w).shared.sequence
  unfolding move
  move-sequence (publish now generation event next_state) w =
      publish_when_idle-sequence w w.publication now generation event next_state
  move-sequence proceed w = continue_publication-sequence w w.publication
  move-sequence (consume clock) w = omega arith

  run_moves-sequence :
      (moves : List Move) (w : Service)
      → w.shared.sequence ≤ (run_moves codec version capacity moves w).shared.sequence
  unfolding run_moves
  run_moves-sequence [] w = omega arith
  run_moves-sequence (m ∷ rest) w =
      omega (arith, move-sequence m w, run_moves-sequence rest (move codec version capacity m w))

  run_moves-IsSound :
      (moves : List Move) (w : Service)
      → (run_moves codec version capacity moves w).shared.sequence < u64_mod
      → IsSound initial w
      → IsSound initial (run_moves codec version capacity moves w)
  unfolding run_moves
  run_moves-IsSound [] w small s = s
  run_moves-IsSound (m ∷ rest) w small s =
      run_moves-IsSound rest (move codec version capacity m w) small (
        move-IsSound m w
          (omega (arith, run_moves-sequence rest (move codec version capacity m w), small)) s)

-- Started with no publication under way, and with every frame that was sent at or below the committed
-- sequence, in any interleaving of publications' steps with those of a consumer that connects: the
-- state that a served consumer was shown is the one that the publications up to its baseline leave
-- for handshakes, and the frames written to it are, in their order, exactly those above the baseline
-- among all the frames that were sent, as far as it has passed them: none was missed before it
-- subscribed. The sequences have not wrapped around.
pub run_moves-serving :
    (codec : Codec) (version : String) (capacity : ℕ) (moves : List Move) (w : Service)
    (baseline : ℕ) (state : PublishedState) (passed : ℕ) (written : List PublishedFrame)
    → w.publication ≡ idle
    → w.consumer ≡ connecting
    → w.history ≡ []
    → w.shared.published_sequence ≤ w.shared.sequence
    → w.shared.published.effective_sequence ≤ w.shared.published_sequence
    → AreSent w.shared.published_sequence w.shared.frames
    → (run_moves codec version capacity moves w).shared.sequence < u64_mod
    → (run_moves codec version capacity moves w).consumer ≡ serving baseline state passed written
    → (state
        ≡ state_at w.shared.published (run_moves codec version capacity moves w).history baseline)
      × (passed ≤ length (run_moves codec version capacity moves w).shared.frames)
      × (written
          ≡ after baseline (oldest passed (run_moves codec version capacity moves w).shared.frames))
run_moves-serving codec version capacity moves w baseline state passed written quiet new fresh
      ordered effective sent small served =
    let (_, shown, long, all) =
      subst
        (Served w.shared.published end.history end.shared.sequence end.shared.published_sequence
          end.shared.frames)
        served
        (run_moves-IsSound codec version capacity w.shared.published moves w small start).1 in
    (shown, long, all)
  where
    end : Service
    end = run_moves codec version capacity moves w

    start : IsSound w.shared.published w
    start = (
      record { ordered = ordered; sent = sent; stage = rw (quiet, fresh) (effective, λ n h. refl) },
      rw new tt,
    )
