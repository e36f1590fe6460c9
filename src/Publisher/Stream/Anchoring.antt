-- ===== src/Publisher/Stream/Anchoring.antt =====
-- `reanchor`, `activate` and the loop of `recover_until_success` in src/publisher.rs: what they leave
-- for the cursor.
use reth_statefeed.Prelude.{
  ℕ, zero, suc, ◌+◌, ◌≡◌, refl, inl, inr, Bool, true, false, String, List, Result, ok, err, arith,
  >>=-eq-ok, leb, Bool-cases, if◌then◌else◌, subst,
}
use reth_statefeed.Watch.{WatchSet}
use reth_statefeed.Feed.{ForkchoiceMeta}
use reth_statefeed.Wire.{Codec, Event}
use reth_statefeed.Dump.{StreamPhase}
use reth_statefeed.Publisher.State.{
  Error, PublishedFrame, SnapshotSource, CanonicalSnapshot, Projection, Shared, Publisher,
}
use reth_statefeed.Publisher.Exec.{
  ◌>>=◌, pure, lift, gets, validate_event_frame, load_latest, active_generation, published,
}
use reth_statefeed.Publisher.Messages.{snapshot, config_activated}
use reth_statefeed.Publisher.Validate.{
  validate_snapshot_view, validate_projection_dictionary, validate_projection_shape,
}
use reth_statefeed.Publisher.Recovery.{
  is_ok, announce_gap, install_config, reanchor, activate, check_snapshot,
  validate_projection_frames, check_config_frames, attempt_reanchor, recovery_round, recovery_loop,
  recover_until_success,
}
use reth_statefeed.Publisher.Stream.{IsMonotone, IsClean, IsDirty}
use reth_statefeed.Publisher.Stream.Publication.{Result-cases}
use reth_statefeed.Publisher.Stream.Recovering.{
  IsGapped, AfterGap, announce_gap_lem, IsDone, install_snapshot-IsDone, install_config-IsDone,
}

pub snapshot_checked :
    (codec : Codec) (s : Shared) (p : Projection) (f : ForkchoiceMeta)
    → validate_projection_frames codec s p f ≡ ok tt
    → validate_event_frame codec s p.watch_set.generation (Event.snapshot (snapshot p f)) ≡ ok tt
unfolding validate_projection_frames
snapshot_checked codec s p f h =
    let (_, _, h₁) = >>=-eq-ok (validate_projection_shape p) _ h in
    let (_, h₂, _) = >>=-eq-ok (validate_event_frame codec s p.watch_set.generation _) _ h₁ in h₂

same_generation :
    (watch_set : WatchSet) (loaded : CanonicalSnapshot)
    → check_snapshot watch_set loaded ≡ ok tt
    → loaded.projection.watch_set.generation ≡ watch_set.generation
unfolding check_snapshot validate_projection_dictionary
same_generation watch_set loaded h =
    let (_, _, h₁) = >>=-eq-ok (validate_snapshot_view loaded) _ h in ground arith

config_checked :
    (codec : Codec) (s : Shared) (watch_set : WatchSet) (loaded : CanonicalSnapshot)
    → check_config_frames codec s watch_set loaded ≡ ok tt
    → Unit {0}
      × (validate_event_frame codec s watch_set.generation
            (Event.config_activated (config_activated watch_set))
          ≡ ok tt)
      × (validate_projection_frames codec s loaded.projection loaded.forkchoice ≡ ok tt)
unfolding check_config_frames
config_checked codec s watch_set loaded h =
    >>=-eq-ok (validate_event_frame codec s watch_set.generation _) _ h

module _ (codec : Codec) (source : SnapshotSource) (mono : IsMonotone codec) where
  module _ (base : List PublishedFrame) (start : StreamPhase) where
    -- Behind a gap: the stream is anchored, or still waits behind the gap.
    abbrev pub AfterAnchor : Result Error (Unit {0}) × Publisher → Type 0
    AfterAnchor (ok _, s) = IsClean codec base start s.shared
    AfterAnchor (err _, s) = IsGapped codec base start s.shared

    AfterAnchor-of_IsDone :
        (r : Result Error (Unit {0})) (s : Publisher)
        → IsDone codec mono base start (r, s)
        → AfterAnchor (r, s)
    AfterAnchor-of_IsDone (ok u) s d = d
    AfterAnchor-of_IsDone (err e) s d = absurd d

    pub reanchor_lem :
        (s : Publisher) → IsGapped codec base start s.shared → AfterAnchor (reanchor codec source s)
    unfolding reanchor ◌>>=◌ gets lift load_latest
    reanchor_lem s g = elim (Result-cases (source.load_latest s.loads watch_set)) [
      | inr (e, h) ↦ rw h g
      | inl (loaded, h) ↦ elim (Result-cases (check_snapshot watch_set loaded)) [
        | inr (e, h₁) ↦ rw (h, h₁) g
        | inl (_, h₁) ↦
            elim (Result-cases
              (validate_projection_frames codec s.shared loaded.projection loaded.forkchoice)) [
                | inr (e, h₂) ↦ rw (h, h₁, h₂) g
                | inl (_, h₂) ↦
                    rw (h, h₁, h₂)
                      (AfterAnchor-of_IsDone _ _ (
                        install_snapshot-IsDone codec mono base start loaded
                          (record s { loads = s.loads + 1 }) g
                          (snapshot_checked codec s.shared loaded.projection loaded.forkchoice h₂)))
              ]
      ]
    ]
      where
        watch_set : WatchSet
        watch_set = s.shared.published.canonical.watch_set

    IsClean-of_IsDone :
        (r : Result Error (Unit {0})) (s : Publisher)
        → IsDone codec mono base start (r, s)
        → IsClean codec base start s.shared
    IsClean-of_IsDone (ok u) s d = d
    IsClean-of_IsDone (err e) s d = absurd d

    -- Accepted or refused, a configuration leaves the stream between two operations.
    pub activate-IsClean :
        (watch_set : WatchSet) (s : Publisher)
        → IsClean codec base start s.shared
        → IsClean codec base start (activate codec source watch_set s).1.shared
    unfolding activate ◌>>=◌ pure gets lift load_latest
    activate-IsClean watch_set s c =
        elim (Bool-cases (leb watch_set.generation (active_generation s))) [
          | inl old ↦ rw old c
          | inr new ↦ elim (Result-cases (source.load_latest s.loads watch_set)) [
            | inr (e, h) ↦ rw (new, h) c
            | inl (loaded, h) ↦ elim (Result-cases (check_snapshot watch_set loaded)) [
              | inr (e, h₁) ↦ rw (new, h, h₁) c
              | inl (_, h₁) ↦
                  elim (Result-cases (check_config_frames codec s.shared watch_set loaded)) [
                    | inr (e, h₂) ↦ rw (new, h, h₁, h₂) c
                    | inl (_, h₂) ↦
                        rw (new, h, h₁, h₂) (IsClean-of_IsDone _ _ (installed loaded h₁ h₂))
                  ]
            ]
          ]
        ]
      where
        installed :
            (loaded : CanonicalSnapshot)
            → check_snapshot watch_set loaded ≡ ok tt
            → check_config_frames codec s.shared watch_set loaded ≡ ok tt
            → IsDone codec mono base start
                (install_config codec watch_set loaded (record s { loads = s.loads + 1 }))
        installed loaded h₁ h₂ =
            let (_, config, frames) = config_checked codec s.shared watch_set loaded h₂ in
            install_config-IsDone codec mono base start watch_set loaded
              (record s { loads = s.loads + 1 }) c config
              (subst
                (λ generation.
                  validate_event_frame codec s.shared generation
                    (Event.snapshot (snapshot loaded.projection loaded.forkchoice))
                  ≡ ok tt)
                (same_generation watch_set loaded h₁)
                (snapshot_checked codec s.shared loaded.projection loaded.forkchoice frames))

    -- A state in which the loop may be: the gap is announced only if it is published.
    abbrev InRecovery : Bool → Shared → Type 0
    InRecovery announced s = IsDirty codec base start s × (s.published.recovering ≡ announced)

    abbrev AfterRound : Bool × Bool × Publisher → Type 0
    AfterRound (announced, true, s) = IsClean codec base start s.shared
    AfterRound (announced, false, s) = InRecovery announced s.shared

    attempt_reanchor_lem :
        (s : Publisher)
        → IsGapped codec base start s.shared
        → AfterRound (attempt_reanchor codec source s)
    unfolding attempt_reanchor
    attempt_reanchor_lem s g = cases (reanchor codec source s).0 _ (reanchor_lem s g)
      where
        cases :
            (r : Result Error (Unit {0})) (s' : Publisher)
            → AfterAnchor (r, s')
            → AfterRound (true, is_ok r, s')
        cases (ok u) s' a = a
        cases (err e) s' a = a

    recovery_round_lem :
        (reason : String) (announced : Bool) (s : Publisher)
        → InRecovery announced s.shared
        → AfterRound (recovery_round codec source reason announced s)
    unfolding recovery_round
    recovery_round_lem reason true s g = attempt_reanchor_lem s g
    recovery_round_lem reason false s (d, calm) =
        cases (announce_gap codec reason s).0 _ (announce_gap_lem codec base start reason s d calm)
      where
        cases :
            (r : Result Error (Unit {0})) (s' : Publisher)
            → AfterGap codec base start (r, s')
            → AfterRound (if is_ok r then attempt_reanchor codec source s' else (false, false, s'))
        cases (ok u) s' a = attempt_reanchor_lem s' a
        cases (err e) s' a = a

    -- What the recovery leaves: between two operations, or shut down and dirty.
    abbrev pub Alive : Bool × Publisher → Type 0
    Alive (true, s) = IsClean codec base start s.shared
    Alive (false, s) = IsDirty codec base start s.shared

    recovery_loop-Alive :
        (waits : ℕ) (reason : String) (announced : Bool) (s : Publisher)
        → InRecovery announced s.shared
        → Alive (recovery_loop codec source waits reason announced s)
    unfolding recovery_loop
    recovery_loop-Alive zero reason announced s i =
        cases (recovery_round codec source reason announced s)
          (recovery_round_lem reason announced s i)
      where
        cases : (t : Bool × Bool × Publisher) → AfterRound t → Alive (t.1, t.2)
        cases (announced', true, s') a = a
        cases (announced', false, s') a = a.0
    recovery_loop-Alive (suc waits) reason announced s i =
        cases (recovery_round codec source reason announced s)
          (recovery_round_lem reason announced s i) (recovery_loop-Alive waits reason)
      where
        cases :
            (t : Bool × Bool × Publisher)
            → AfterRound t
            → ((announced' : Bool) (s' : Publisher)
                → InRecovery announced' s'.shared
                → Alive (recovery_loop codec source waits reason announced' s'))
            → Alive (if t.1 then (true, t.2) else recovery_loop codec source waits reason t.0 t.2)
        cases (announced', true, s') a ih = a
        cases (announced', false, s') a ih = ih announced' s' a

    pub recover_until_success-Alive :
        (waits : ℕ) (reason : String) (s : Publisher)
        → IsDirty codec base start s.shared
        → Alive (recover_until_success codec source waits reason s)
    unfolding recover_until_success
    recover_until_success-Alive waits reason s d =
        recovery_loop-Alive waits reason (published s).recovering s (d, refl)
