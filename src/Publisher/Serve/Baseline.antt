-- ===== src/Publisher/Serve/Baseline.antt =====
-- The interleavings of a publication and of a consumer that connects, in src/publisher.rs: what the
-- consumer is shown and what it is sent.
pub mod Consuming
pub mod Interleaving
use reth_statefeed.Prelude.{
  ℕ, zero, suc, ◌+◌, ◌%◌, ◌≤◌, ◌<◌, ◌≡◌, Bool, true, false, Option, none, some, String, List, [],
  ◌∷◌, length, leb, ltb, if◌then◌else◌, All, Result, ok, err, refl, sym, ap, ◌∙◌, arith, u64_mod,
  inl, inr, Bool-cases, leb→le, le→leb,
}
use reth_statefeed.Wire.{Codec, Event, encode_frame}
use reth_statefeed.Publisher.State.{PublishedState, PublishedFrame, Shared}
use reth_statefeed.Publisher.Exec.{NextState, envelope, next_published, next_sequence}
use reth_statefeed.Publisher.Stream.Publication.{Result-cases}
use reth_statefeed.Publisher.Serve.{
  Publication, idle, encoded, stored, committed, Consumer, Service, begin, continue_publication,
  publish_when_idle,
}

-- The state for handshakes after the publications up to a sequence.
abbrev pub state_at : PublishedState → List (ℕ × PublishedState) → ℕ → PublishedState
state_at initial [] n = initial
state_at initial ((sequence, state) ∷ older) n =
    if leb sequence n then state else state_at initial older n

abbrev pub AreSent : ℕ → List PublishedFrame → Type 0
AreSent n frames = All (λ frame. frame.sequence ≤ n) frames

-- What the memory of the program says of the history, between the steps of a publication.
abbrev pub IsStaged : PublishedState → List (ℕ × PublishedState) → Shared → Publication → Type 0
IsStaged initial history s idle =
    (s.published.effective_sequence ≤ s.published_sequence)
    × ((n : ℕ) → s.published.effective_sequence ≤ n → state_at initial history n ≡ s.published)
IsStaged initial history s (encoded sequence frame next_state) =
    (sequence ≡ s.sequence)
    × (s.published_sequence < sequence)
    × (s.published.effective_sequence ≤ s.published_sequence)
    × ((n : ℕ)
        → s.published.effective_sequence ≤ n
        → n < sequence
        → state_at initial history n ≡ s.published)
    × ((n : ℕ)
        → sequence ≤ n
        → state_at initial history n ≡ next_published s.published next_state sequence)
IsStaged initial history s (stored sequence frame) =
    (sequence ≡ s.sequence)
    × (s.published_sequence < sequence)
    × (s.published.effective_sequence ≤ sequence)
    × ((n : ℕ) → s.published.effective_sequence ≤ n → state_at initial history n ≡ s.published)
IsStaged initial history s (committed sequence frame) =
    (sequence ≡ s.sequence)
    × (s.published_sequence ≡ sequence)
    × (s.published.effective_sequence ≤ sequence)
    × ((n : ℕ) → s.published.effective_sequence ≤ n → state_at initial history n ≡ s.published)

pub record IsCoherent (initial : PublishedState) (w : Service) : Type 0 where
  pub ordered : w.shared.published_sequence ≤ w.shared.sequence
  pub sent : AreSent w.shared.published_sequence w.shared.frames
  pub stage : IsStaged initial w.history w.shared w.publication

AreSent-le : (m n : ℕ) (frames : List PublishedFrame) → m ≤ n → AreSent m frames → AreSent n frames
AreSent-le m n [] h all = tt
AreSent-le m n (frame ∷ frames) h (first, all) = (omega arith, AreSent-le m n frames h all)

next_published-before :
    (old : PublishedState) (next_state : Option NextState) (sequence n : ℕ)
    → (next_published old next_state sequence).effective_sequence ≤ n
    → n < sequence
    → next_published old next_state sequence ≡ old
next_published-before old none sequence n h k = refl
next_published-before old (some next_state) sequence n h k = absurd (omega arith)

effective_before :
    (old : PublishedState) (next_state : Option NextState) (sequence n : ℕ)
    → (next_published old next_state sequence).effective_sequence ≤ n
    → n < sequence
    → old.effective_sequence ≤ n
effective_before old none sequence n h k = h
effective_before old (some next_state) sequence n h k = absurd (omega arith)

next_published-effective :
    (old : PublishedState) (next_state : Option NextState) (sequence : ℕ)
    → old.effective_sequence ≤ sequence
    → (next_published old next_state sequence).effective_sequence ≤ sequence
next_published-effective old none sequence h = h
next_published-effective old (some next_state) sequence h = omega arith

module _ (codec : Codec) (version : String) (capacity : ℕ) (initial : PublishedState) where
  pub continue_publication-IsCoherent :
      (w : Service) (p : Publication)
      → IsCoherent initial (record w { publication = p })
      → IsCoherent initial
          (continue_publication codec version capacity p (record w { publication = p }))
  unfolding continue_publication
  continue_publication-IsCoherent w idle c = c
  continue_publication-IsCoherent w (encoded sequence frame next_state) c =
      let (same, later, effective, before, from) = c.stage in
      record {
        ordered = c.ordered;
        sent = c.sent;
        stage = (
          same,
          later,
          next_published-effective w.shared.published next_state sequence (omega arith),
          λ n h. elim (Bool-cases (leb sequence n)) [
            | inl reached ↦ from n (leb→le sequence n reached)
            | inr early ↦
                before n
                  (effective_before w.shared.published next_state sequence n h (ground arith))
                  (ground arith)
                ∙ sym (
                    next_published-before w.shared.published next_state sequence n h (ground arith))
          ],
        );
      }
  continue_publication-IsCoherent w (stored sequence frame) c =
      let (same, later, effective, states) = c.stage in
      record {
        ordered = omega arith;
        sent = AreSent-le w.shared.published_sequence sequence w.shared.frames (omega arith) c.sent;
        stage = (same, refl, effective, states);
      }
  continue_publication-IsCoherent w (committed sequence frame) c =
      let (same, done, effective, states) = c.stage in
      record { ordered = c.ordered; sent = (omega arith, c.sent); stage = (omega arith, states) }

  -- The publication that starts is the newest of the history.
  begun-IsCoherent :
      (w : Service) (frame : List ℕ) (next_state : Option NextState)
      → w.shared.sequence + 1 < u64_mod
      → IsCoherent initial (record w { publication = idle })
      → IsCoherent initial (record w {
        shared = record w.shared { sequence = w.shared.sequence + 1 };
        publication = encoded (next_sequence w.shared) frame next_state;
        history =
            (
              next_sequence w.shared,
              next_published w.shared.published next_state (next_sequence w.shared),
            )
            ∷ w.history;
      })
  begun-IsCoherent w frame next_state small c =
      let (effective, states) = c.stage in
      let exact : next_sequence w.shared ≡ w.shared.sequence + 1 = omega arith in
      record {
        ordered = omega (arith, c.ordered);
        sent = c.sent;
        stage = (
          exact,
          omega (arith, c.ordered),
          effective,
          λ n h k. rw (not_yet n k) (states n h),
          λ n h. rw (le→leb (next_sequence w.shared) n h) refl,
        );
      }
    where
      not_yet : (n : ℕ) → n < next_sequence w.shared → leb (next_sequence w.shared) n ≡ false
      not_yet n h = ground arith

  pub begin-IsCoherent :
      (w : Service) (now generation : ℕ) (event : Event) (next_state : Option NextState)
      → w.shared.sequence + 1 < u64_mod
      → IsCoherent initial (record w { publication = idle })
      → IsCoherent initial (
          begin codec version capacity now generation event next_state
            (record w { publication = idle }))
  unfolding begin
  begin-IsCoherent w now generation event next_state small c =
      elim (Result-cases (
        encode_frame codec (envelope w.shared now (next_sequence w.shared) generation event)
          w.shared.max_frame_bytes)) [
            | inl (frame, good) ↦ rw (begin, good) (begun-IsCoherent w frame next_state small c)
            | inr (e, bad) ↦
                rw (begin, bad)
                  (record { ordered = omega (arith, c.ordered); sent = c.sent; stage = c.stage })
          ]
