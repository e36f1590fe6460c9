-- ===== src/Tests/Services.antt =====
-- Witnesses of the theorems on configurations and on the service of consumers.
use reth_statefeed.Prelude.{
  ℕ, ◌+◌, ◌*◌, ◌/◌, ◌≤◌, ◌≡◌, ◌↔◌, refl, false, none, some, List, [], ◌∷◌, length, ok, arith,
}
use reth_statefeed.Config.{
  Config, default_stream, validate_stream, is_absolute, is_whitespace, is_blank, has_id,
  has_coordinate, validate_keys, projection_bytes, dictionary_bytes, required_frame_bytes, validate,
}
use reth_statefeed.Config.Validated.{IsUsable, dictionary_size, validate_iff, validate-fits}
use reth_statefeed.Wire.{Event}
use reth_statefeed.Dump.{hello, live}
use reth_statefeed.Publisher.State.{PublishedState, PublishedFrame}
use reth_statefeed.Publisher.Stream.{Delivers}
use reth_statefeed.Publisher.Serve.{
  Service, Move, publish, proceed, consume, idle, connecting, validate_handshake_frames,
  write_event, write_handshake, handshake, begin, continue_publication, publish_when_idle, frame_at,
  receive, serve, move, run_moves,
}
use reth_statefeed.Publisher.Serve.Handshake.{read_frames, handshake-Delivers, handshake_of_checked}
use reth_statefeed.Publisher.Serve.Baseline.{state_at}
use reth_statefeed.Publisher.Serve.Baseline.Consuming.{after, oldest}
use reth_statefeed.Publisher.Serve.Baseline.Interleaving.{run_moves-serving}
use reth_statefeed.Tests.Program.{program}
use reth_statefeed.Tests.Samples.{
  sample_codec, sample_shared, block_one, block_two, projection_at, view_at,
}
use reth_statefeed.Tests.Streams.{sample_codec-IsMonotone}

abbrev pub usable : Config
usable = record {
  stream = default_stream;
  watch =
      record { id = "psm.balance"; address = 17; slot = 5 }
      ∷ record { id = "gsm.limit"; address = 17; slot = 6 }
      ∷ [];
}

pub usable_accepted : validate usable ≡ ok tt
unfolding validate validate_stream is_absolute is_whitespace is_blank has_id has_coordinate
    validate_keys projection_bytes dictionary_bytes required_frame_bytes
usable_accepted = refl

validate_iff_example : (validate usable ≡ ok tt) ↔ IsUsable usable
validate_iff_example = validate_iff usable

validate-fits_example :
    (projection_bytes usable.watch ≡ 2 * 32 + (2 + 7) / 8 + 512)
    × (dictionary_bytes 512 usable.watch ≡ dictionary_size usable.watch)
    × (projection_bytes usable.watch ≤ 4194304)
    × (dictionary_bytes 512 usable.watch ≤ 4194304)
validate-fits_example = validate-fits usable (omega arith) usable_accepted

-- Between the two publications the consumer connects; the second is a transition that it loads
-- before the sequence is committed.
abbrev service : Service
service = record { shared = sample_shared; publication = idle; consumer = connecting; history = [] }

abbrev some_event : Event
some_event = Event.gap (record { last_contiguous_sequence = 0; reason = "publisher_error" })

abbrev clock : ℕ → ℕ
clock n = 10 + n

abbrev moves : List Move
moves =
    publish 11 1 some_event (
      some (record {
        canonical = projection_at block_two;
        forkchoice = some (view_at block_two);
        recovering = false;
      }))
    ∷ consume clock
    ∷ consume clock
    ∷ proceed
    ∷ consume clock
    ∷ proceed
    ∷ proceed
    ∷ consume clock
    ∷ publish 12 1 some_event none
    ∷ proceed
    ∷ proceed
    ∷ proceed
    ∷ consume clock
    ∷ []

abbrev second_frame : PublishedFrame
second_frame = record { sequence = 2; bytes = 0 ∷ 0 ∷ 0 ∷ 2 ∷ 2 ∷ 1 ∷ [] }

abbrev shown_state : PublishedState
shown_state = record {
  canonical = projection_at block_two;
  forkchoice = some (view_at block_two);
  effective_sequence = 1;
  recovering = false;
}

two_allocated : (run_moves sample_codec "1" 256 moves service).shared.sequence ≡ 2
unfolding program write_event write_handshake handshake begin continue_publication publish_when_idle
    frame_at receive serve move run_moves
two_allocated = refl

run_moves-serving_example :
    (shown_state
      ≡ state_at sample_shared.published (run_moves sample_codec "1" 256 moves service).history 1)
    × (2 ≤ length (run_moves sample_codec "1" 256 moves service).shared.frames)
    × (second_frame ∷ []
        ≡ after 1 (oldest 2 (run_moves sample_codec "1" 256 moves service).shared.frames))
unfolding program write_event write_handshake handshake begin continue_publication publish_when_idle
    frame_at receive serve move run_moves
run_moves-serving_example =
    run_moves-serving sample_codec "1" 256 moves service 1 shown_state 2 (second_frame ∷ []) refl
      refl refl (omega arith) (omega arith) tt (omega (arith, two_allocated)) refl

abbrev greeting : List (List ℕ)
greeting =
    (0 ∷ 0 ∷ 0 ∷ 2 ∷ 0 ∷ 1 ∷ []) ∷ (0 ∷ 0 ∷ 0 ∷ 2 ∷ 0 ∷ 1 ∷ []) ∷ (0 ∷ 0 ∷ 0 ∷ 2 ∷ 0 ∷ 1 ∷ []) ∷ []

handshake-Delivers_example :
    Delivers sample_codec 1024 [] hello (read_frames sample_codec "1" 0 greeting []) (live 0 false)
    × (false ≡ false)
unfolding program write_event write_handshake handshake
handshake-Delivers_example =
    handshake-Delivers sample_codec "1" clock sample_shared 0 sample_shared.published
      {written = greeting} refl

handshake_of_checked_example :
    (written : List (List ℕ)) × (handshake sample_codec "1" clock sample_shared 0
        sample_shared.published
      ≡ ok written)
unfolding program validate_handshake_frames
handshake_of_checked_example =
    handshake_of_checked sample_codec "1" clock sample_shared 0 sample_shared.published
      (view_at block_one) sample_codec-IsMonotone (omega arith) (omega arith) refl refl refl refl
      refl
