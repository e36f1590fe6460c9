-- ===== src/Publisher/Stream/Recovering.antt =====
-- Gaps, snapshots and configuration switches of src/publisher.rs as the cursor sees them.
use reth_statefeed.Prelude.{
  ℕ, ◌+◌, ◌≡◌, refl, sym, ◌∙◌, inl, inr, true, false, Option, none, some, String, List, Result, ok,
  err, arith,
}
use reth_statefeed.Watch.{WatchSet}
use reth_statefeed.Wire.{Codec, Event, encode_frame}
use reth_statefeed.Dump.{StreamPhase, gap_of, is_snapshot, is_config}
use reth_statefeed.Publisher.State.{Error, PublishedFrame, CanonicalSnapshot, Shared, Publisher}
use reth_statefeed.Publisher.Exec.{
  NextState, ◌>>=◌, pure, gets, modify_cache, publish_with, validate_event_frame, next_sequence,
  active_generation,
}
use reth_statefeed.Publisher.Insertion.{reset_candidates}
use reth_statefeed.Publisher.Messages.{snapshot, config_activated}
use reth_statefeed.Publisher.Recovery.{announce_gap, install_snapshot, install_config}
use reth_statefeed.Publisher.Stream.{IsMonotone, IsClean, IsDirty, At}
use reth_statefeed.Publisher.Stream.Publication.{
  Result-cases, observe-gap, observe-snapshot, observe-config, sent, next_envelope,
  publish_inner-sent, publish_inner-lost, deliver, encode_frame_of_checked,
}

module _ (codec : Codec) (base : List PublishedFrame) (start : StreamPhase) where
  -- Behind a gap, with its snapshot to come.
  abbrev pub IsGapped : Shared → Type 0
  IsGapped s = IsDirty codec base start s × (s.published.recovering ≡ true)

  -- What an announcement leaves: a gap, or a state that a gap can follow still.
  abbrev pub AfterGap : Result Error (Unit {0}) × Publisher → Type 0
  AfterGap (ok _, s) = IsGapped s.shared
  AfterGap (err _, s) = IsDirty codec base start s.shared × (s.shared.published.recovering ≡ false)

  IsGapped-sent :
      (now generation : ℕ) (event : Event) (s : Shared) (n : NextState) (frame : List ℕ)
      → IsDirty codec base start s
      → s.published.recovering ≡ false
      → n.recovering ≡ true
      → gap_of event ≡ some s.published_sequence
      → encode_frame codec (next_envelope codec now s generation event) s.max_frame_bytes ≡ ok frame
      → IsGapped (sent s frame (some n))
  IsGapped-sent now generation event s n frame d calm recovers claim h = (
    λ small.
        let y = d (omega arith) in
        record {
          delivered = rw recovers (
              deliver codec now s generation event base start false true (some n) frame
                (rw calm at y.delivered)
                (observe-gap s.published_sequence s.sequence generation event y.allocated claim)
                small h);
          allocated = omega arith;
          current = λ _. omega arith;
        },
    recovers,
  )

  IsDirty-gap_lost :
      (s : Shared)
      → IsDirty codec base start s
      → s.published.recovering ≡ false
      → IsDirty codec base start (record s { sequence = s.sequence + 1 })
  IsDirty-gap_lost s d calm small =
      let y = d (omega arith) in
      record {
        delivered = y.delivered;
        allocated = omega (arith, y.allocated);
        current = λ r. cc (sym r ∙ calm);
      }

  pub announce_gap_lem :
      (reason : String) (s : Publisher)
      → IsDirty codec base start s.shared
      → s.shared.published.recovering ≡ false
      → AfterGap (announce_gap codec reason s)
  unfolding announce_gap ◌>>=◌ gets pure publish_with
  announce_gap_lem reason s d calm =
      elim (Result-cases (
        encode_frame codec (next_envelope codec s.now s.shared generation gap)
          s.shared.max_frame_bytes)) [
            | inl (frame, h) ↦
                rw (publish_inner-sent codec s.now s.shared generation gap _ frame h)
                  (IsGapped-sent s.now generation gap s.shared _ frame d calm refl refl h)
            | inr (e, h) ↦
                rw (publish_inner-lost codec s.now s.shared generation gap _ h)
                  (IsDirty-gap_lost s.shared d calm, calm)
          ]
    where
      generation : ℕ
      generation = active_generation s

      gap : Event
      gap =
          Event.gap
            (record { last_contiguous_sequence = s.shared.published_sequence; reason = reason })

-- The handshake state of a snapshot, and the publisher that is to publish it.
abbrev pub next_of : CanonicalSnapshot → NextState
next_of loaded = record {
  canonical = loaded.projection;
  forkchoice = some loaded.forkchoice;
  recovering = false;
}

abbrev pub anchored_at : CanonicalSnapshot → Publisher → Publisher
anchored_at loaded s = record s {
  snapshot_anchored_at = loaded.anchored_at;
  cache = reset_candidates s.cache s.now loaded.projection loaded.forkchoice;
}

module _ (codec : Codec) (mono : IsMonotone codec) where
  -- An event that was checked is published.
  pub publish_with_checked :
      (generation : ℕ) (event : Event) (n : Option NextState) (s : Publisher) (checked : Shared)
      → checked.boot_id ≡ s.shared.boot_id
      → checked.max_frame_bytes ≡ s.shared.max_frame_bytes
      → validate_event_frame codec checked generation event ≡ ok tt
      → (frame : List ℕ) × (encode_frame codec
            (next_envelope codec s.now s.shared generation event)
            s.shared.max_frame_bytes
          ≡ ok frame)
        × (publish_with codec generation event n s
            ≡ (ok (next_sequence s.shared), record s { shared = sent s.shared frame n }))
  unfolding publish_with
  publish_with_checked generation event n s checked boot limit valid =
      let (frame, h) =
        encode_frame_of_checked codec s.now s.shared generation event mono checked boot limit
          valid in
      (frame, h, rw (publish_inner-sent codec s.now s.shared generation event n frame h))

  module _ (base : List PublishedFrame) (start : StreamPhase) where
    IsClean-snapshot_sent :
        (now generation : ℕ) (event : Event) (s : Shared) (n : NextState) (frame : List ℕ)
        → IsGapped codec base start s
        → n.recovering ≡ false
        → is_snapshot event ≡ true
        → encode_frame codec (next_envelope codec now s generation event) s.max_frame_bytes
          ≡ ok frame
        → IsClean codec base start (sent s frame (some n))
    IsClean-snapshot_sent now generation event s n frame (d, gapped) calm is h = record {
      synced = λ small.
          let y = d (omega arith) in
          record {
            delivered =
                deliver codec now s generation event base start true false (some n) frame
                  (rw gapped at y.delivered)
                  (rw (y.current gapped) (observe-snapshot s.sequence generation event small is))
                  small h;
            current = omega arith;
          };
      anchored = calm;
    }

    -- What never fails from here on.
    abbrev pub IsDone : {A : Type 0} → Result Error A × Publisher → Type 0
    IsDone (ok _, s) = IsClean codec base start s.shared
    IsDone (err _, s) = ⊥

    pub install_snapshot-IsDone :
        (loaded : CanonicalSnapshot) (s : Publisher)
        → IsGapped codec base start s.shared
        → validate_event_frame codec s.shared loaded.projection.watch_set.generation
            (Event.snapshot (snapshot loaded.projection loaded.forkchoice))
          ≡ ok tt
        → IsDone (install_snapshot codec loaded s)
    unfolding install_snapshot ◌>>=◌ pure modify_cache
    install_snapshot-IsDone loaded s g valid =
        let generation = loaded.projection.watch_set.generation in
        let event = Event.snapshot (snapshot loaded.projection loaded.forkchoice) in
        let n : NextState = next_of loaded in
        let (frame, h, e) =
          publish_with_checked generation event (some n) (anchored_at loaded s) s.shared refl refl
            valid in
        rw e (IsClean-snapshot_sent s.now generation event s.shared n frame g refl refl h)

    At-config_sent :
        (now generation : ℕ) (event : Event) (s : Shared) (n : NextState) (frame : List ℕ)
        → IsClean codec base start s
        → is_config event ≡ true
        → encode_frame codec (next_envelope codec now s generation event) s.max_frame_bytes
          ≡ ok frame
        → At codec base start true (sent s frame (some n))
    At-config_sent now generation event s n frame c is h small =
        let y = c.synced (omega arith) in
        record {
          delivered =
              deliver codec now s generation event base start false true (some n) frame y.delivered
                (rw y.current (observe-config s.sequence generation event small is)) small h;
          current = omega arith;
        }

    IsClean-config_snapshot :
        (now generation : ℕ) (event : Event) (s : Shared) (frame : List ℕ)
        → At codec base start true s
        → s.published.recovering ≡ false
        → is_snapshot event ≡ true
        → encode_frame codec (next_envelope codec now s generation event) s.max_frame_bytes
          ≡ ok frame
        → IsClean codec base start (sent s frame none)
    IsClean-config_snapshot now generation event s frame a calm is h = record {
      synced = λ small.
          let y = a (omega arith) in
          record {
            delivered =
                deliver codec now s generation event base start true false none frame y.delivered
                  (rw y.current (observe-snapshot s.sequence generation event small is)) small h;
            current = omega arith;
          };
      anchored = calm;
    }

    pub install_config-IsDone :
        (watch_set : WatchSet) (loaded : CanonicalSnapshot) (s : Publisher)
        → IsClean codec base start s.shared
        → validate_event_frame codec s.shared watch_set.generation
            (Event.config_activated (config_activated watch_set))
          ≡ ok tt
        → validate_event_frame codec s.shared watch_set.generation
            (Event.snapshot (snapshot loaded.projection loaded.forkchoice))
          ≡ ok tt
        → IsDone (install_config codec watch_set loaded s)
    unfolding install_config ◌>>=◌ pure modify_cache
    install_config-IsDone watch_set loaded s c valid valid' =
        let generation = watch_set.generation in
        let event = Event.config_activated (config_activated watch_set) in
        let event' = Event.snapshot (snapshot loaded.projection loaded.forkchoice) in
        let n : NextState = next_of loaded in
        let s' = anchored_at loaded s in
        let (frame, h, e) =
          publish_with_checked generation event (some n) s' s.shared refl refl valid in
        let s'' : Publisher = record s' { shared = sent s.shared frame (some n) } in
        let (frame', h', e') =
          publish_with_checked generation event' none s'' s.shared refl refl valid' in
        rw (e, e')
          (IsClean-config_snapshot s.now generation event' (sent s.shared frame (some n)) frame'
            (At-config_sent s.now generation event s.shared n frame c refl h) refl refl h')
