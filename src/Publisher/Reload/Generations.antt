-- ===== src/Publisher/Reload/Generations.antt =====
-- The watch sets that the reload task of src/publisher.rs asks for.
use reth_statefeed.Prelude.{
  ℕ, ◌+◌, ◌-◌, ◌≤◌, ◌<◌, ◌≡◌, true, String, List, [], ◌∷◌, All, length, Result, ok, err, ok_or,
  >>=-eq-ok, refl, sym, ap, ◌∙◌, subst, arith, u64_mod, Bool-cases, inl, inr,
}
use reth_statefeed.Watch.{WatchSet, compile, matches_config}
use reth_statefeed.Config.{
  StreamConfig, Config, ConfigError, ConfigSource, read, parse, validate, load,
}
use reth_statefeed.Publisher.Reload.{
  Reloader, same_stream, Decision, reload_rejected, stream_changed, unchanged, activation, decide,
  Answer, activated, activation_failed, queue_full, stopped, Wake, timeout, newer_file, shutdown,
  Outcome, ended, returned, superseded, waiting, request_loop, on_decision, reload, after_turn,
  run_reloads,
}

-- A dictionary of a valid configuration with the same stream settings.
abbrev pub IsCompiled : StreamConfig → WatchSet → Type 0
IsCompiled immutable watch_set =
    (config : Config) × (validate config ≡ ok tt)
    × (same_stream config.stream immutable ≡ true)
    × (watch_set ≡ compile watch_set.generation config.watch)

-- It is newer than the dictionary that is active when it is asked for.
abbrev pub IsProper : StreamConfig → ℕ × WatchSet → Type 0
IsProper immutable (active, watch_set) =
    (active < watch_set.generation) × IsCompiled immutable watch_set

abbrev pub IsOrdered : StreamConfig → Reloader → Type 0
IsOrdered immutable r =
    (r.active.generation < r.next_generation) × All (IsProper immutable) r.requested

load-validate :
    (source : ConfigSource) (path : String) (config : Config)
    → load source path ≡ ok config
    → validate config ≡ ok tt
unfolding load
load-validate source path config h =
    let (contents, _, h₁) = >>=-eq-ok (ok_or (source.read_to_string path) read) _ h in
    let (config', _, h₂) = >>=-eq-ok (ok_or (source.from_str contents) parse) _ h₁ in
    let (_, valid, same) = >>=-eq-ok (validate config') _ h₂ in
    subst (λ c. validate c ≡ ok tt) (unwrap config' same) valid
  where
    unwrap : (c : Config) → ◌≡◌ {A = Result ConfigError Config} (ok c) (ok config) → c ≡ config
    unwrap c same = cc

module _ (immutable : StreamConfig) where
  of_config :
      (source : ConfigSource) (path : String) (r : Reloader) (watch_set : WatchSet)
      (config : Config)
      → load source path ≡ ok config
      → same_stream config.stream immutable ≡ true
      → compile r.next_generation config.watch ≡ watch_set
      → (watch_set.generation ≡ r.next_generation) × IsCompiled immutable watch_set
  unfolding compile
  of_config source path r watch_set config found same made = (
    sym (ap (λ w. w.generation) made),
    (
      config,
      load-validate source path config found,
      same,
      sym made ∙ ap (λ g. compile g config.watch) (ap (λ w. w.generation) made),
    ),
  )

  decide_lem :
      (source : ConfigSource) (path : String) (r : Reloader) (watch_set : WatchSet)
      → decide immutable r (load source path) ≡ activation watch_set
      → (watch_set.generation ≡ r.next_generation) × IsCompiled immutable watch_set
  unfolding decide
  decide_lem source path r watch_set h = of_load (load source path) refl h
    where
      of_load :
          (loaded : Result ConfigError Config)
          → load source path ≡ loaded
          → decide immutable r loaded ≡ activation watch_set
          → (watch_set.generation ≡ r.next_generation) × IsCompiled immutable watch_set
      of_load (err e) found h = cc
      of_load (ok config) found h = elim (Bool-cases (same_stream config.stream immutable)) [
        | inr other ↦ absurd (changed (rw other at h))
        | inl same ↦ elim (Bool-cases (matches_config r.active config.watch)) [
          | inl matches ↦ absurd (kept (rw (same, matches) at h))
          | inr differs ↦
              of_config source path r watch_set config found same (made (rw (same, differs) at h))
        ]
      ]
        where
          changed : stream_changed ≡ activation watch_set → ⊥
          changed h = cc

          kept : unchanged ≡ activation watch_set → ⊥
          kept h = cc

          made :
              activation (compile r.next_generation config.watch) ≡ activation watch_set
              → compile r.next_generation config.watch ≡ watch_set
          made h = cc

  request_loop-next_generation :
      (watch_set : WatchSet) (answers : List (Answer × Wake)) (delay : ℕ) (r : Reloader)
      → r.next_generation < u64_mod
      → (request_loop watch_set delay answers r).2.next_generation ≤ r.next_generation + 1
  unfolding request_loop
  request_loop-next_generation watch_set [] delay r small = omega arith
  request_loop-next_generation watch_set ((activated, wake) ∷ rest) delay r small = omega arith
  request_loop-next_generation watch_set ((stopped, wake) ∷ rest) delay r small = omega arith
  request_loop-next_generation watch_set ((activation_failed, newer_file) ∷ rest) delay r small =
      omega arith
  request_loop-next_generation watch_set ((activation_failed, shutdown) ∷ rest) delay r small =
      omega arith
  request_loop-next_generation watch_set ((activation_failed, timeout) ∷ rest) delay r small =
      request_loop-next_generation watch_set rest _ _ small
  request_loop-next_generation watch_set ((queue_full, newer_file) ∷ rest) delay r small =
      omega arith
  request_loop-next_generation watch_set ((queue_full, shutdown) ∷ rest) delay r small = omega arith
  request_loop-next_generation watch_set ((queue_full, timeout) ∷ rest) delay r small =
      request_loop-next_generation watch_set rest _ _ small

  IsOrdered-request_loop :
      (watch_set : WatchSet) (answers : List (Answer × Wake)) (delay : ℕ) (r : Reloader)
      → watch_set.generation ≡ r.next_generation
      → IsCompiled immutable watch_set
      → r.next_generation < u64_mod - 1
      → IsOrdered immutable r
      → IsOrdered immutable (request_loop watch_set delay answers r).2
  unfolding request_loop
  IsOrdered-request_loop watch_set [] delay r same made small ordered = ordered
  IsOrdered-request_loop watch_set ((activated, wake) ∷ rest) delay r same made small (ahead, all) =
      (omega arith, ((omega arith, made), all))
  IsOrdered-request_loop watch_set ((stopped, wake) ∷ rest) delay r same made small (ahead, all) =
      (ahead, ((omega arith, made), all))
  IsOrdered-request_loop watch_set ((activation_failed, newer_file) ∷ rest) delay r same made small
        (ahead, all) =
      (ahead, ((omega arith, made), all))
  IsOrdered-request_loop watch_set ((activation_failed, shutdown) ∷ rest) delay r same made small
        (ahead, all) =
      (ahead, ((omega arith, made), all))
  IsOrdered-request_loop watch_set ((activation_failed, timeout) ∷ rest) delay r same made small
        (ahead, all) =
      IsOrdered-request_loop watch_set rest _ _ same made small (ahead, ((omega arith, made), all))
  IsOrdered-request_loop watch_set ((queue_full, newer_file) ∷ rest) delay r same made small
        (ahead, all) =
      (ahead, ((omega arith, made), all))
  IsOrdered-request_loop watch_set ((queue_full, shutdown) ∷ rest) delay r same made small
        (ahead, all) =
      (ahead, ((omega arith, made), all))
  IsOrdered-request_loop watch_set ((queue_full, timeout) ∷ rest) delay r same made small
        (ahead, all) =
      IsOrdered-request_loop watch_set rest _ _ same made small (ahead, ((omega arith, made), all))

  on_decision-next_generation :
      (decision : Decision) (answers : List (Answer × Wake)) (r : Reloader)
      → r.next_generation < u64_mod
      → (on_decision decision answers r).1.next_generation ≤ r.next_generation + 1
  unfolding on_decision
  on_decision-next_generation reload_rejected answers r small = omega arith
  on_decision-next_generation stream_changed answers r small = omega arith
  on_decision-next_generation unchanged answers r small = omega arith
  on_decision-next_generation (activation watch_set) answers r small =
      request_loop-next_generation watch_set answers _ r small

  IsOrdered-on_decision :
      (source : ConfigSource) (path : String) (decision : Decision) (answers : List (Answer × Wake))
      (r : Reloader)
      → decide immutable r (load source path) ≡ decision
      → r.next_generation < u64_mod - 1
      → IsOrdered immutable r
      → IsOrdered immutable (on_decision decision answers r).1
  unfolding on_decision
  IsOrdered-on_decision source path reload_rejected answers r decided small ordered = ordered
  IsOrdered-on_decision source path stream_changed answers r decided small ordered = ordered
  IsOrdered-on_decision source path unchanged answers r decided small ordered = ordered
  IsOrdered-on_decision source path (activation watch_set) answers r decided small ordered =
      let (same, made) = decide_lem source path r watch_set decided in
      IsOrdered-request_loop watch_set answers _ r same made small ordered

  IsOrdered-reload :
      (source : ConfigSource) (path : String) (answers : List (Answer × Wake)) (r : Reloader)
      → r.next_generation < u64_mod - 1
      → IsOrdered immutable r
      → IsOrdered immutable (reload source path immutable answers r).1
  unfolding reload
  IsOrdered-reload source path answers r small ordered =
      IsOrdered-on_decision source path _ answers r refl small ordered

  reload-next_generation :
      (source : ConfigSource) (path : String) (answers : List (Answer × Wake)) (r : Reloader)
      → r.next_generation < u64_mod
      → (reload source path immutable answers r).1.next_generation ≤ r.next_generation + 1
  unfolding reload
  reload-next_generation source path answers r small = on_decision-next_generation _ answers r small

  IsOrdered-after_turn :
      (outcome : Outcome) (r later : Reloader)
      → IsOrdered immutable r
      → IsOrdered immutable later
      → IsOrdered immutable (after_turn outcome r later)
  unfolding after_turn
  IsOrdered-after_turn ended r later kept next = next
  IsOrdered-after_turn superseded r later kept next = next
  IsOrdered-after_turn returned r later kept next = kept
  IsOrdered-after_turn waiting r later kept next = kept

  -- Where the watch set in use is older than the next generation and fewer turns are left than
  -- generations below 2 ^ 64 - 1, the task keeps the active generation below the next one, and every
  -- watch set it asks the publisher for is newer than the set that is active at that time and is
  -- compiled from a configuration that `validate` accepts and that leaves the stream settings as they
  -- were, whatever the files hold and however the requests end.
  pub IsOrdered-run_reloads :
      (path : String) (turns : List (ConfigSource × List (Answer × Wake))) (r : Reloader)
      → r.next_generation + length turns < u64_mod - 1
      → IsOrdered immutable r
      → IsOrdered immutable (run_reloads path immutable turns r)
  unfolding run_reloads
  IsOrdered-run_reloads path [] r small ordered = ordered
  IsOrdered-run_reloads path ((source, answers) ∷ rest) r small ordered =
      let kept = IsOrdered-reload source path answers r (omega arith) ordered in
      let step = reload-next_generation source path answers r (omega arith) in
      IsOrdered-after_turn _ _ _ kept (IsOrdered-run_reloads path rest _ (omega arith) kept)
