-- ===== src/Tests/Streams.antt =====
-- Witnesses of the theorems on frames and streams.
use reth_statefeed.Prelude.{ℕ, ◌≡◌, refl, false, some, List, [], ◌∷◌, ◌++◌, ok, arith}
use reth_statefeed.Feed.{executed, validated, forkchoice_applied, rejected}
use reth_statefeed.Client.{read}
use reth_statefeed.Client.Frames.{read-encode_frame}
use reth_statefeed.Dump.{live}
use reth_statefeed.Publisher.Handle.{Turn, data_event, pending_loss, maintenance, run}
use reth_statefeed.Publisher.Stream.{Delivers, IsMonotone}
use reth_statefeed.Publisher.Stream.Running.{run-Delivers}
use reth_statefeed.Tests.Program.{program}
use reth_statefeed.Tests.Samples.{
  sample_codec, sample_envelope, sample_source, sample_publisher, block_two, rival_two, changes_two,
  applied_two,
}

pub sample_codec-IsMonotone : IsMonotone sample_codec
sample_codec-IsMonotone = record { grows = λ e sequence emitted h k. omega arith }

read-encode_frame_example :
    read sample_codec 64 ((0 ∷ 0 ∷ 0 ∷ 2 ∷ 5 ∷ 1 ∷ []) ++ 0 ∷ [])
    ≡ ok (some (sample_envelope 5 1), 0 ∷ [])
unfolding program
read-encode_frame_example =
    read-encode_frame sample_codec (sample_envelope 5 1) 32 64 (0 ∷ 0 ∷ 0 ∷ 2 ∷ 5 ∷ 1 ∷ []) (0 ∷ [])
      refl refl refl (omega arith)

-- An executed block, its validation, its selection, a rival that is rejected, a loss whose recovery
-- needs two rounds, and a tick.
abbrev turns : List (ℕ × ℕ × Turn)
turns =
    (20, 3, data_event (executed 20 1 block_two changes_two))
    ∷ (21, 3, data_event (validated 21 1 102))
    ∷ (22, 3, data_event (forkchoice_applied 22 1 applied_two))
    ∷ (23, 3, data_event (executed 23 1 rival_two []))
    ∷ (24, 3, data_event (rejected 24 1 202 "block_validation_failed"))
    ∷ (25, 3, pending_loss)
    ∷ (26, 3, maintenance)
    ∷ []

frames_sent : (run sample_codec sample_source turns sample_publisher).1.shared.sequence ≡ 9
unfolding program
frames_sent = refl

run-Delivers_example :
    Delivers sample_codec
      (run sample_codec sample_source turns sample_publisher).1.shared.max_frame_bytes
      []
      (live 0 false)
      (run sample_codec sample_source turns sample_publisher).1.shared.frames
      (live
        (run sample_codec sample_source turns sample_publisher).1.shared.published_sequence
        (run sample_codec sample_source turns sample_publisher).1.shared.published.recovering)
run-Delivers_example =
    run-Delivers sample_codec sample_source turns sample_publisher sample_codec-IsMonotone refl refl
      (omega (arith, frames_sent))
