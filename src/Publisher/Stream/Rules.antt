-- ===== src/Publisher/Stream/Rules.antt =====
-- What an operation keeps: started between two operations it ends between two operations, or with an
-- error in a state that a gap can follow. The rules for the parts of operations.
use reth_statefeed.Prelude.{
  ℕ, ◌+◌, ◌≡◌, inl, inr, Bool, true, false, Option, none, some, List, Result, ok, err, arith,
  if◌then◌else◌, sym, ◌∙◌,
}
use reth_statefeed.Watch.{WatchSet}
use reth_statefeed.Wire.{Codec, Event, encode_frame}
use reth_statefeed.Dump.{StreamPhase}
use reth_statefeed.Publisher.State.{
  Error, PublishedFrame, SnapshotSource, PublishedState, Shared, Candidates, Publisher,
}
use reth_statefeed.Publisher.Exec.{
  Exec, NextState, ◌>>=◌, continue, pure, raise, lift, gets, modify_cache, on_cache, publish_with,
  next_published, next_sequence, load_latest, try_load_at,
}
use reth_statefeed.Publisher.Stream.{IsClean, IsDirty}
use reth_statefeed.Publisher.Stream.Publication.{
  Result-cases, IsPlain, observe-plain, sent, next_envelope, publish_inner-sent, publish_inner-lost,
  deliver,
}

-- A publication that does not open a recovery.
abbrev pub IsCalm : Option NextState → Type 0
IsCalm none = Unit
IsCalm (some next) = next.recovering ≡ false

calm_recovering :
    (old : PublishedState) (next_state : Option NextState) (sequence : ℕ)
    → IsCalm next_state
    → old.recovering ≡ false
    → (next_published old next_state sequence).recovering ≡ false
calm_recovering old none sequence calm h = h
calm_recovering old (some next) sequence calm h = calm

module _ (codec : Codec) (base : List PublishedFrame) (start : StreamPhase) where
  pub IsDirty-of_IsClean : {s : Shared} → IsClean codec base start s → IsDirty codec base start s
  IsDirty-of_IsClean {s} c small =
      let y = c.synced small in
      record {
        delivered = rw c.anchored y.delivered;
        allocated = omega arith;
        current = λ _. y.current;
      }

  abbrev pub Post : {A : Type 0} → Result Error A × Publisher → Type 0
  Post (ok a, s) = IsClean codec base start s.shared
  Post (err e, s) = IsDirty codec base start s.shared

  pub record Keeps {A : Type 0} (m : Exec A) : Type 0 where
    pub at : (s : Publisher) → IsClean codec base start s.shared → Post (m s)

  pub Keeps-pure : {A : Type 0} (a : A) → Keeps (pure a)
  unfolding pure
  Keeps-pure a = record { at = λ s c. c }

  pub Keeps-raise : {A : Type 0} (e : Error) → Keeps (raise {A = A} e)
  unfolding raise
  Keeps-raise e = record { at = λ s c. IsDirty-of_IsClean c }

  Post-of_IsClean :
      {A : Type 0} (r : Result Error A) (s : Publisher)
      → IsClean codec base start s.shared
      → Post (r, s)
  Post-of_IsClean (ok a) s c = c
  Post-of_IsClean (err e) s c = IsDirty-of_IsClean c

  pub Keeps-lift : {A : Type 0} (r : Result Error A) → Keeps (lift r)
  unfolding lift
  Keeps-lift r = record { at = λ s c. Post-of_IsClean r s c }

  pub Keeps-gets : {A : Type 0} (f : Publisher → A) → Keeps (gets f)
  unfolding gets
  Keeps-gets f = record { at = λ s c. c }

  pub Keeps-modify_cache : (f : ℕ → Candidates → Candidates) → Keeps (modify_cache f)
  unfolding modify_cache
  Keeps-modify_cache f = record { at = λ s c. c }

  pub Keeps-on_cache :
      {A : Type 0} (f : Candidates → Result Error A × Candidates) → Keeps (on_cache f)
  unfolding on_cache
  Keeps-on_cache f = record { at = λ s c. Post-of_IsClean (f s.cache).0 _ c }

  pub Keeps-load_latest :
      (source : SnapshotSource) (watch_set : WatchSet) → Keeps (load_latest source watch_set)
  unfolding load_latest
  Keeps-load_latest source watch_set = record {
    at = λ s c. Post-of_IsClean (source.load_latest s.loads watch_set) _ c;
  }

  pub Keeps-try_load_at :
      (source : SnapshotSource) (watch_set : WatchSet) (hash : ℕ)
      → Keeps (try_load_at source watch_set hash)
  unfolding try_load_at
  Keeps-try_load_at source watch_set hash = record { at = λ s c. c }

  Post-continue :
      {A B : Type 0} (f : A → Exec B) (r : Result Error A) (s : Publisher)
      → ((a : A) → Keeps (f a))
      → Post (r, s)
      → Post (continue (r, s) f)
  Post-continue f (ok a) s k p = (k a).at s p
  Post-continue f (err e) s k p = p

  pub Keeps-bind :
      {A B : Type 0} {m : Exec A} {f : A → Exec B}
      → Keeps m
      → ((a : A) → Keeps (f a))
      → Keeps (m >>= f)
  unfolding ◌>>=◌
  Keeps-bind {m = m} {f = f} h k = record {
    at = λ s c. Post-continue f (m s).0 (m s).1 k (h.at s c);
  }

  pub Keeps-if :
      {A : Type 0} (b : Bool) {m n : Exec A} → Keeps m → Keeps n → Keeps (if b then m else n)
  Keeps-if true h k = h
  Keeps-if false h k = k

  module _ (now generation : ℕ) (event : Event) {s : Shared} (c : IsClean codec base start s) where
    IsClean-sent :
        (next_state : Option NextState) (frame : List ℕ)
        → IsPlain event
        → IsCalm next_state
        → encode_frame codec (next_envelope codec now s generation event) s.max_frame_bytes
          ≡ ok frame
        → IsClean codec base start (sent s frame next_state)
    IsClean-sent next_state frame plain calm h = record {
      synced = λ small.
          let y = c.synced (omega arith) in
          record {
            delivered =
                deliver codec now s generation event base start false false next_state frame
                  y.delivered (rw y.current (observe-plain s.sequence generation event small plain))
                  small h;
            current = omega arith;
          };
      anchored = calm_recovering s.published next_state (next_sequence s) calm c.anchored;
    }

    IsDirty-lost : IsDirty codec base start (record s { sequence = s.sequence + 1 })
    IsDirty-lost small =
        let y = c.synced (omega arith) in
        record {
          delivered = rw c.anchored y.delivered;
          allocated = omega arith;
          current = λ r. cc (sym r ∙ c.anchored);
        }

  -- A plain event reaches the cursor in its order; a frame that is too large loses its sequence.
  pub Keeps-publish_with :
      (generation : ℕ) (event : Event) (next_state : Option NextState)
      → IsPlain event
      → IsCalm next_state
      → Keeps (publish_with codec generation event next_state)
  unfolding publish_with
  Keeps-publish_with generation event next_state plain calm = record {
    at = λ s c.
        elim (Result-cases (
          encode_frame codec (next_envelope codec s.now s.shared generation event)
            s.shared.max_frame_bytes)) [
              | inl (frame, h) ↦
                  rw (publish_inner-sent codec s.now s.shared generation event next_state frame h)
                    (IsClean-sent s.now generation event c next_state frame plain calm h)
              | inr (e, h) ↦
                  rw (publish_inner-lost codec s.now s.shared generation event next_state h)
                    (IsDirty-lost s.now generation event c)
            ];
  }
