-- ===== src/Tests/Dictionaries.antt =====
-- Witnesses of the theorems on the watch dictionary.
use reth_statefeed.Prelude.{◌≡◌, ◌↔◌, true, List, [], ◌∷◌}
use reth_statefeed.Watch.{WatchConfig, compile, matches_config, address}
use reth_statefeed.Watch.Matching.{matches_config-compile}

-- Three slots of two accounts, not in the order of the addresses.
abbrev watched : List WatchConfig
watched =
    record { id = "gsm.limit"; address = 18; slot = 6 }
    ∷ record { id = "psm.balance"; address = 17; slot = 9 }
    ∷ record { id = "psm.rate"; address = 17; slot = 5 }
    ∷ []

matches_config-compile_example :
    (matches_config (compile 3 watched) watched ≡ true) ↔ (watched ≡ watched)
matches_config-compile_example = matches_config-compile 3 watched watched
