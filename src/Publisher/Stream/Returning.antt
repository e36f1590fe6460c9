-- ===== src/Publisher/Stream/Returning.antt =====
-- That `recover_until_success` of src/publisher.rs comes back when its source does.
use reth_statefeed.Prelude.{
  ℕ, zero, suc, ◌+◌, ◌≤◌, ◌≡◌, ◌⊎◌, inl, inr, refl, ◌∙◌, Bool, true, false, String, List, ok, err,
  arith, subst, some, none,
}
use reth_statefeed.Watch.{WatchSet}
use reth_statefeed.Wire.{Codec, Event}
use reth_statefeed.Dump.{StreamPhase}
use reth_statefeed.Publisher.State.{
  Error, PublishedFrame, SnapshotSource, CanonicalSnapshot, Publisher,
}
use reth_statefeed.Publisher.Exec.{
  ◌>>=◌, modify_cache, NextState, pure, lift, gets, validate_event_frame, load_latest,
  active_generation, published,
}
use reth_statefeed.Publisher.Messages.{snapshot}
use reth_statefeed.Publisher.Recovery.{
  is_ok, announce_gap, reanchor, check_snapshot, install_snapshot, validate_projection_frames,
  attempt_reanchor, recovery_round, recovery_loop, recover_until_success,
}
use reth_statefeed.Publisher.Stream.{IsMonotone, IsClean, IsDirty}
use reth_statefeed.Publisher.Stream.Publication.{Result-cases, sent}
use reth_statefeed.Publisher.Stream.Recovering.{publish_with_checked, next_of, anchored_at}
use reth_statefeed.Publisher.Stream.Anchoring.{snapshot_checked, recover_until_success-Alive, Alive}

module _ (codec : Codec) (source : SnapshotSource) (mono : IsMonotone codec) where
  -- The source answers the load with a number by a snapshot that passes every check.
  pub record Answers (s : Publisher) (load : ℕ) : Type 0 where
    pub loaded : CanonicalSnapshot
    pub answer : source.load_latest load (published s).canonical.watch_set ≡ ok loaded
    pub valid : check_snapshot (published s).canonical.watch_set loaded ≡ ok tt
    pub fits : validate_projection_frames codec s.shared loaded.projection loaded.forkchoice ≡ ok tt

  install_snapshot-ok :
      (loaded : CanonicalSnapshot) (s : Publisher)
      → validate_event_frame codec s.shared loaded.projection.watch_set.generation
          (Event.snapshot (snapshot loaded.projection loaded.forkchoice))
        ≡ ok tt
      → is_ok (install_snapshot codec loaded s).0 ≡ true
  unfolding install_snapshot ◌>>=◌ pure modify_cache
  install_snapshot-ok loaded s valid =
      let generation = loaded.projection.watch_set.generation in
      let event = Event.snapshot (snapshot loaded.projection loaded.forkchoice) in
      let n : NextState = next_of loaded in
      let (frame, h, e) =
        publish_with_checked codec mono generation event (some n) (anchored_at loaded s) s.shared
          refl refl valid in
      rw e refl

  -- The state behind a load that did not anchor the stream.
  abbrev after_load : Publisher → Publisher
  after_load s = record s { loads = s.loads + 1 }

  reanchor-cases :
      (s : Publisher)
      → (is_ok (reanchor codec source s).0 ≡ true)
        ⊎ ((e : Error) × (reanchor codec source s ≡ (err e, after_load s)))
  unfolding reanchor ◌>>=◌ gets lift load_latest
  reanchor-cases s = elim (Result-cases (source.load_latest s.loads watch_set)) [
    | inr (e, h) ↦ inr (e, rw h refl)
    | inl (loaded, h) ↦ elim (Result-cases (check_snapshot watch_set loaded)) [
      | inr (e, h₁) ↦ inr (e, rw (h, h₁) refl)
      | inl (_, h₁) ↦
          elim (Result-cases
            (validate_projection_frames codec s.shared loaded.projection loaded.forkchoice)) [
              | inr (e, h₂) ↦ inr (e, rw (h, h₁, h₂) refl)
              | inl (_, h₂) ↦ inl (
                  rw (h, h₁, h₂)
                    (install_snapshot-ok loaded (after_load s)
                      (snapshot_checked codec s.shared loaded.projection loaded.forkchoice h₂)))
            ]
    ]
  ]
    where
      watch_set : WatchSet
      watch_set = s.shared.published.canonical.watch_set

  reanchor-ok : (s : Publisher) → Answers s s.loads → is_ok (reanchor codec source s).0 ≡ true
  unfolding reanchor ◌>>=◌ gets lift load_latest
  reanchor-ok s a =
      rw (a.answer, a.valid, a.fits)
        (install_snapshot-ok a.loaded (after_load s)
          (snapshot_checked codec s.shared a.loaded.projection a.loaded.forkchoice a.fits))

  recovery_loop-anchors :
      (waits k : ℕ) (reason : String) (s : Publisher)
      → k ≤ waits
      → Answers s (s.loads + k)
      → (recovery_loop codec source waits reason true s).0 ≡ true
  unfolding recovery_loop recovery_round attempt_reanchor
  recovery_loop-anchors zero k reason s h a = reanchor-ok s (subst (Answers s) (omega arith) a)
  recovery_loop-anchors (suc waits) zero reason s h a =
      rw (reanchor-ok s (subst (Answers s) (omega arith) a)) refl
  recovery_loop-anchors (suc waits) (suc k) reason s h a = elim (reanchor-cases s) [
    | inl good ↦ rw good refl
    | inr (e, bad) ↦
        let b : Answers s (s.loads + 1 + k) = subst (Answers s) (omega arith) a in
        rw bad (
          recovery_loop-anchors waits k reason (after_load s) (omega arith)
            (record { loaded = b.loaded; answer = b.answer; valid = b.valid; fits = b.fits }))
  ]

  -- The gap that the loop announces first.
  abbrev pub gap_of_state : String → Publisher → Event
  gap_of_state reason s =
      Event.gap (record { last_contiguous_sequence = s.shared.published_sequence; reason = reason })

  abbrev gap_state : Publisher → NextState
  gap_state s = record { canonical = (published s).canonical; forkchoice = none; recovering = true }

  abbrev gapped : Publisher → List ℕ → Publisher
  gapped s frame = record s { shared = sent s.shared frame (some (gap_state s)) }

  announce_gap-ok :
      (reason : String) (s : Publisher)
      → validate_event_frame codec s.shared (active_generation s) (gap_of_state reason s) ≡ ok tt
      → (frame : List ℕ) × (announce_gap codec reason s ≡ (ok tt, gapped s frame))
  unfolding announce_gap ◌>>=◌ gets pure
  announce_gap-ok reason s valid =
      let (frame, h, e) =
        publish_with_checked codec mono (active_generation s) (gap_of_state reason s)
          (some (gap_state s)) s s.shared refl refl valid in
      (frame, rw e refl)

  Answers-gapped :
      (s : Publisher) (frame : List ℕ) (load : ℕ) → Answers s load → Answers (gapped s frame) load
  unfolding validate_projection_frames validate_event_frame
  Answers-gapped s frame load a = record {
    loaded = a.loaded;
    answer = a.answer;
    valid = a.valid;
    fits = a.fits;
  }

  recovery_loop-announces :
      (waits k : ℕ) (reason : String) (s : Publisher)
      → validate_event_frame codec s.shared (active_generation s) (gap_of_state reason s) ≡ ok tt
      → k ≤ waits
      → Answers s (s.loads + k)
      → (recovery_loop codec source waits reason false s).0 ≡ true
  unfolding recovery_loop recovery_round
  recovery_loop-announces waits k reason s valid h a =
      let (frame, e) = announce_gap-ok reason s valid in
      same waits frame e
      ∙ recovery_loop-anchors waits k reason (gapped s frame) h
          (Answers-gapped s frame (s.loads + k) a)
    where
      same :
          (waits : ℕ) (frame : List ℕ)
          → announce_gap codec reason s ≡ (ok tt, gapped s frame)
          → (recovery_loop codec source waits reason false s).0
            ≡ (recovery_loop codec source waits reason true (gapped s frame)).0
      same zero frame e = rw e refl
      same (suc waits) frame e = rw e refl

  recovery_loop-returns :
      (announced : Bool) (waits k : ℕ) (reason : String) (s : Publisher)
      → validate_event_frame codec s.shared (active_generation s) (gap_of_state reason s) ≡ ok tt
      → k ≤ waits
      → Answers s (s.loads + k)
      → (recovery_loop codec source waits reason announced s).0 ≡ true
  recovery_loop-returns true waits k reason s valid h a = recovery_loop-anchors waits k reason s h a
  recovery_loop-returns false waits k reason s valid h a =
      recovery_loop-announces waits k reason s valid h a

  IsClean-of_Alive :
      (base : List PublishedFrame) (start : StreamPhase) (r : Bool × Publisher)
      → r.0 ≡ true
      → Alive codec source mono base start r
      → IsClean codec base start r.1.shared
  IsClean-of_Alive base start (true, s) h a = a
  IsClean-of_Alive base start (false, s) h a = absurd (ground arith)

  -- From any state that an error leaves, if the frame of the gap fits and the source answers one of
  -- the loads that the loop has time for by a snapshot that passes the checks, the recovery ends,
  -- and it ends with a stream that is anchored again: every frame that was sent is accepted by the
  -- cursor, and the cursor waits for no snapshot.
  pub recover_until_success-IsClean :
      (base : List PublishedFrame) (start : StreamPhase) (waits k : ℕ) (reason : String)
      (s : Publisher)
      → IsDirty codec base start s.shared
      → validate_event_frame codec s.shared (active_generation s) (gap_of_state reason s) ≡ ok tt
      → k ≤ waits
      → Answers s (s.loads + k)
      → ((recover_until_success codec source waits reason s).0 ≡ true)
        × IsClean codec base start (recover_until_success codec source waits reason s).1.shared
  unfolding recover_until_success
  recover_until_success-IsClean base start waits k reason s d valid h a =
      let done = returns in
      (
        done,
        IsClean-of_Alive base start _ done
            (recover_until_success-Alive codec source mono base start waits reason s d),
      )
    where
      returns : (recover_until_success codec source waits reason s).0 ≡ true
      returns = recovery_loop-returns (published s).recovering waits k reason s valid h a
