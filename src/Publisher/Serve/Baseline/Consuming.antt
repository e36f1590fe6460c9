-- ===== src/Publisher/Serve/Baseline/Consuming.antt =====
-- The consumer's side of the interleavings in src/publisher.rs.
use reth_statefeed.Prelude.{
  ℕ, suc, ◌+◌, ◌≤◌, ◌<◌, ◌≡◌, true, false, some, String, List, [], ◌∷◌, length, leb, ltb, le→leb,
  if◌then◌else◌, refl, sym, ap, ◌∙◌, arith, max, inl, inr, Bool-cases, Option-cases, ◌==◌,
}
use reth_statefeed.Wire.{Codec}
use reth_statefeed.Publisher.State.{PublishedState, PublishedFrame, Shared}
use reth_statefeed.Publisher.Stream.Publication.{Result-cases}
use reth_statefeed.Publisher.Serve.{
  Publication, idle, encoded, stored, committed, Consumer, connecting, subscribed, loaded, closed,
  serving, Service, frame_at, receive, serve, handshake,
}
use reth_statefeed.Publisher.Serve.Baseline.{state_at, AreSent, IsStaged, IsCoherent}

-- The frames, the newest first, with a sequence above a baseline.
abbrev pub after : ℕ → List PublishedFrame → List PublishedFrame
after baseline [] = []
after baseline (frame ∷ older) =
    if ltb baseline frame.sequence then frame ∷ after baseline older else after baseline older

-- The oldest frames, as many as are asked for.
abbrev pub oldest : ℕ → List PublishedFrame → List PublishedFrame
oldest n [] = []
oldest n (frame ∷ older) = if leb (suc (length older)) n then frame ∷ older else oldest n older

-- What a consumer has, in terms of the history and of the frames.
abbrev pub Served :
    PublishedState → List (ℕ × PublishedState) → ℕ → ℕ → List PublishedFrame → Consumer → Type 0
Served initial history allocated published frames connecting = Unit
Served initial history allocated published frames (closed e) = Unit
Served initial history allocated published frames (subscribed before) = before ≤ length frames
Served initial history allocated published frames (loaded before committed_sequence) =
    (before ≤ length frames)
    × (committed_sequence ≤ published)
    × AreSent committed_sequence (oldest before frames)
Served initial history allocated published frames (serving baseline state passed written) =
    (baseline ≤ allocated)
    × (state ≡ state_at initial history baseline)
    × (passed ≤ length frames)
    × (written ≡ after baseline (oldest passed frames))

module _ (initial : PublishedState) where
  oldest-cons :
      (n : ℕ) (frame : PublishedFrame) (frames : List PublishedFrame)
      → n ≤ length frames
      → oldest n (frame ∷ frames) ≡ oldest n frames
  oldest-cons n frame frames h = ground arith

  -- Another frame, a later committed sequence, a later publication.
  pub Served-sent :
      (history : List (ℕ × PublishedState)) (allocated published : ℕ) (frame : PublishedFrame)
      (frames : List PublishedFrame) (c : Consumer)
      → Served initial history allocated published frames c
      → Served initial history allocated published (frame ∷ frames) c
  Served-sent history allocated published frame frames connecting s = s
  Served-sent history allocated published frame frames (closed e) s = s
  Served-sent history allocated published frame frames (subscribed before) s = omega arith
  Served-sent history allocated published frame frames (loaded before committed_sequence)
        (long, below, all) =
      (omega arith, below, rw (oldest-cons before frame frames long) all)
  Served-sent history allocated published frame frames (serving baseline state passed written)
        (b, s, long, w) =
      (b, s, omega arith, rw (oldest-cons passed frame frames long) w)

  pub Served-committed :
      (history : List (ℕ × PublishedState)) (allocated published published' : ℕ)
      (frames : List PublishedFrame) (c : Consumer)
      → published ≤ published'
      → Served initial history allocated published frames c
      → Served initial history allocated published' frames c
  Served-committed history allocated published published' frames connecting h s = s
  Served-committed history allocated published published' frames (closed e) h s = s
  Served-committed history allocated published published' frames (subscribed before) h s = s
  Served-committed history allocated published published' frames (loaded before committed_sequence)
        h (long, below, all) =
      (long, omega arith, all)
  Served-committed history allocated published published' frames
        (serving baseline state passed written) h s =
      s

  pub Served-allocated :
      (history : List (ℕ × PublishedState)) (allocated published : ℕ) (frames : List PublishedFrame)
      (c : Consumer)
      → Served initial history allocated published frames c
      → Served initial history (allocated + 1) published frames c
  Served-allocated history allocated published frames connecting s = s
  Served-allocated history allocated published frames (closed e) s = s
  Served-allocated history allocated published frames (subscribed before) s = s
  Served-allocated history allocated published frames (loaded before committed_sequence) s = s
  Served-allocated history allocated published frames (serving baseline state passed written)
        (b, s, long, w) =
      (omega arith, s, long, w)

  pub Served-begun :
      (history : List (ℕ × PublishedState)) (allocated published sequence : ℕ)
      (next : PublishedState) (frames : List PublishedFrame) (c : Consumer)
      → sequence ≡ allocated + 1
      → Served initial history allocated published frames c
      → Served initial ((sequence, next) ∷ history) (allocated + 1) published frames c
  Served-begun history allocated published sequence next frames connecting h s = s
  Served-begun history allocated published sequence next frames (closed e) h s = s
  Served-begun history allocated published sequence next frames (subscribed before) h s = s
  Served-begun history allocated published sequence next frames (loaded before committed_sequence) h
        s =
      s
  Served-begun history allocated published sequence next frames
        (serving baseline state passed written) h (b, s, long, w) =
      (omega arith, rw (early baseline b) s, long, w)
    where
      early : (n : ℕ) → n ≤ allocated → leb sequence n ≡ false
      early n k = ground arith

  AreSent-oldest :
      (n k : ℕ) (frames : List PublishedFrame) → AreSent n frames → AreSent n (oldest k frames)
  AreSent-oldest n k [] all = tt
  AreSent-oldest n k (frame ∷ older) (first, all) = elim (Bool-cases (leb (suc (length older)) k)) [
    | inl whole ↦ rw whole (first, all)
    | inr part ↦ rw part (AreSent-oldest n k older all)
  ]

  after_of_sent :
      (n baseline : ℕ) (frames : List PublishedFrame)
      → n ≤ baseline
      → AreSent n frames
      → after baseline frames ≡ []
  after_of_sent n baseline [] h all = refl
  after_of_sent n baseline (frame ∷ older) h (first, all) =
      ground (arith, after_of_sent n baseline older h all)

  oldest-all : (n : ℕ) (frames : List PublishedFrame) → length frames ≤ n → oldest n frames ≡ frames
  oldest-all n [] h = refl
  oldest-all n (frame ∷ older) h = ground arith

  oldest-next :
      (frames : List PublishedFrame) (n : ℕ) (frame : PublishedFrame)
      → frame_at frames n ≡ some frame
      → (n < length frames) × (oldest (n + 1) frames ≡ frame ∷ oldest n frames)
  unfolding frame_at
  oldest-next [] n frame h = cc
  oldest-next (f ∷ older) n frame h = elim (Bool-cases (length older == n)) [
    | inl here ↦ (
      ground arith,
      rw
          (
            le→leb (suc (length older)) (n + 1) (ground arith),
            too_long n (ground arith),
            oldest-all n older (ground arith),
          )
          (ap (λ g. g ∷ older) (same_frame here)),
    )
    | inr there ↦
        let (less, same) = oldest-next older n frame (ground arith) in
        (omega arith, rw (too_long (n + 1) (omega arith), too_long n (omega arith)) same)
  ]
    where
      too_long : (m : ℕ) → m < suc (length older) → leb (suc (length older)) m ≡ false
      too_long m k = ground arith

      same_frame : (length older == n) ≡ true → f ≡ frame
      same_frame here = ground arith

  effective_le :
      (history : List (ℕ × PublishedState)) (s : Shared) (p : Publication)
      → s.published_sequence ≤ s.sequence
      → IsStaged initial history s p
      → s.published.effective_sequence ≤ s.sequence
  effective_le history s idle h (effective, _) = omega arith
  effective_le history s (encoded sequence frame next_state) h (same, later, effective, _, _) =
      omega arith
  effective_le history s (stored sequence frame) h (same, later, effective, _) = omega arith
  effective_le history s (committed sequence frame) h (same, done, effective, _) = omega arith

  -- The stored state is the one of the history at any baseline that a consumer can compute from it.
  shown :
      (history : List (ℕ × PublishedState)) (s : Shared) (p : Publication) (committed_sequence : ℕ)
      → committed_sequence ≤ s.published_sequence
      → IsStaged initial history s p
      → s.published
        ≡ state_at initial history (max committed_sequence s.published.effective_sequence)
  shown history s idle n h (effective, states) =
      sym (states (max n s.published.effective_sequence) (omega arith))
  shown history s (encoded sequence frame next_state) n h (same, later, effective, before, _) =
      sym (before (max n s.published.effective_sequence) (omega arith) (omega arith))
  shown history s (stored sequence frame) n h (same, later, effective, states) =
      sym (states (max n s.published.effective_sequence) (omega arith))
  shown history s (committed sequence frame) n h (same, done, effective, states) =
      sym (states (max n s.published.effective_sequence) (omega arith))

module _ (codec : Codec) (version : String) (capacity : ℕ) (initial : PublishedState) where
  receive-Served :
      (history : List (ℕ × PublishedState)) (allocated published : ℕ) (frames : List PublishedFrame)
      (baseline : ℕ) (state : PublishedState) (passed : ℕ) (written : List PublishedFrame)
      → Served initial history allocated published frames (serving baseline state passed written)
      → Served initial history allocated published frames
          (receive codec version capacity baseline state passed written frames)
  unfolding receive
  receive-Served history allocated published frames baseline state passed written (b, s, long, w) =
      elim (Bool-cases (ltb (passed + capacity) (length frames))) [
        | inl lost ↦ rw (receive, lost) tt
        | inr kept ↦ elim (Option-cases (frame_at frames passed)) [
          | inl none_left ↦ rw (receive, kept, none_left) (b, s, long, w)
          | inr (frame, found) ↦
              let (less, grown) = oldest-next initial frames passed frame found in
              rw (receive, kept, found)
                (
                  b,
                  s,
                  omega arith,
                  ap (λ old. if ltb baseline frame.sequence then frame ∷ old else old) w
                      ∙ sym (ap (after baseline) grown),
                )
        ]
      ]

  pub serve-Served :
      (clock : ℕ → ℕ) (w : Service) (c : Consumer)
      → IsCoherent initial w
      → Served initial w.history w.shared.sequence w.shared.published_sequence w.shared.frames c
      → Served initial w.history w.shared.sequence w.shared.published_sequence w.shared.frames
          (serve codec version capacity clock w.shared c)
  unfolding serve
  serve-Served clock w connecting c s = omega arith
  serve-Served clock w (subscribed before) c s = (
    s,
    omega arith,
    AreSent-oldest initial w.shared.published_sequence before w.shared.frames c.sent,
  )
  serve-Served clock w (loaded before committed_sequence) c (long, below, all) =
      elim (Result-cases
        (handshake codec version clock w.shared committed_sequence w.shared.published)) [
          | inr (e, refused) ↦ rw (serve, refused) tt
          | inl (written, accepted) ↦
              rw (serve, accepted)
                (
                  omega (
                    arith,
                    c.ordered,
                    effective_le initial w.history w.shared w.publication c.ordered c.stage,
                  ),
                  shown initial w.history w.shared w.publication committed_sequence below c.stage,
                  long,
                  sym (
                      after_of_sent initial committed_sequence _ (oldest before w.shared.frames)
                        (omega arith) all),
                )
        ]
  serve-Served clock w (closed e) c s = s
  serve-Served clock w (serving baseline state passed written) c s =
      receive-Served w.history w.shared.sequence w.shared.published_sequence w.shared.frames
        baseline state passed written s
