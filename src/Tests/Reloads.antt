-- ===== src/Tests/Reloads.antt =====
-- Witness of the theorem on the reload task.
use reth_statefeed.Prelude.{true, false, ◌≡◌, refl, some, List, [], ◌∷◌, length, arith}
use reth_statefeed.Watch.{WatchSet, compile, matches_config, number_keys}
use reth_statefeed.Config.{
  ConfigSource, load, validate, validate_stream, is_absolute, is_whitespace, is_blank, has_id,
  has_coordinate, validate_keys, projection_bytes, dictionary_bytes, required_frame_bytes,
}
use reth_statefeed.Publisher.Reload.{
  Answer, activated, activation_failed, queue_full, stopped, Wake, timeout, newer_file, run_reloads,
  start_reloader, reload, decide, same_stream, same_path, on_decision, request_loop, next_delay,
  after_turn,
}
use reth_statefeed.Publisher.Reload.Generations.{IsOrdered, IsOrdered-run_reloads}
use reth_statefeed.Tests.Services.{usable}

abbrev first_set : WatchSet
first_set = compile 0 []

abbrev disk : ConfigSource
disk = record { read_to_string = λ path. some "keys"; from_str = λ contents. some usable }

-- The first request fails and a newer file supersedes the second; the next turn succeeds, and the
-- last one finds the configuration unchanged.
abbrev turns : List (ConfigSource × List (Answer × Wake))
turns =
    (disk, (activation_failed, timeout) ∷ (queue_full, newer_file) ∷ [])
    ∷ (disk, (activated, timeout) ∷ [])
    ∷ (disk, (stopped, timeout) ∷ [])
    ∷ []

IsOrdered-run_reloads_example :
    IsOrdered usable.stream
      (run_reloads "statefeed.toml" usable.stream turns (start_reloader first_set))
unfolding compile
IsOrdered-run_reloads_example =
    IsOrdered-run_reloads usable.stream "statefeed.toml" turns (start_reloader first_set)
      (omega arith) (omega arith, tt)

requests_of_turns :
    length (run_reloads "statefeed.toml" usable.stream turns (start_reloader first_set)).requested
    ≡ 3
unfolding run_reloads reload decide load validate validate_stream is_absolute is_whitespace is_blank
    has_id has_coordinate validate_keys projection_bytes dictionary_bytes required_frame_bytes
    same_stream on_decision request_loop next_delay after_turn compile matches_config number_keys
requests_of_turns = refl

-- The equality of paths is that of their components.
same_path_of_components :
    (same_path "/run//x.sock" "/run/./x.sock/" ≡ true)
    × (same_path "/run/x.sock" "run/x.sock" ≡ false)
    × (same_path "./x" "x" ≡ false)
    × (same_path "a/../x" "x" ≡ false)
unfolding same_path is_absolute
same_path_of_components = (refl, refl, refl, refl)
