-- ===== src/Tests/Recoveries.antt =====
-- Witnesses of the theorems on recoveries and on the changes of a block.
use reth_statefeed.Prelude.{
  ℕ, ◌*◌, ◌≡◌, refl, true, false, Bool, List, [], ◌∷◌, length, replicate, ok, arith,
}
use reth_statefeed.Dump.{live}
use reth_statefeed.Client.Packed
use reth_statefeed.Publisher.State.{Publisher}
use reth_statefeed.Publisher.Recovery.{recover_until_success}
use reth_statefeed.Publisher.Validate.{apply_changes}
use reth_statefeed.Publisher.Validate.Changes.{apply_changes-get, latest_value}
use reth_statefeed.Publisher.Stream.{IsClean, IsDirty, none_yet}
use reth_statefeed.Publisher.Stream.Returning.{Answers, recover_until_success-IsClean}
use reth_statefeed.Tests.Program.{program}
use reth_statefeed.Tests.Streams.{sample_codec-IsMonotone}
use reth_statefeed.Tests.Samples.{
  sample_codec, sample_source, sample_publisher, block_two, snapshot_at, changes_two,
}

sample_publisher-IsDirty : IsDirty sample_codec [] (live 0 false) sample_publisher.shared
sample_publisher-IsDirty small = record {
  delivered = none_yet;
  allocated = omega arith;
  current = λ h. refl;
}

-- The source fails once.
sample_source-Answers :
    Answers sample_codec sample_source sample_codec-IsMonotone sample_publisher 1
unfolding program
sample_source-Answers = record {
  loaded = snapshot_at block_two 40;
  answer = refl;
  valid = refl;
  fits = refl;
}

abbrev recovered : Bool × Publisher
recovered = recover_until_success sample_codec sample_source 2 "publisher_error" sample_publisher

recover_until_success-IsClean_example :
    (recovered.0 ≡ true) × IsClean sample_codec [] (live 0 false) recovered.1.shared
unfolding program
recover_until_success-IsClean_example =
    recover_until_success-IsClean sample_codec sample_source sample_codec-IsMonotone []
      (live 0 false) 2 1 "publisher_error" sample_publisher sample_publisher-IsDirty refl
      (omega arith) sample_source-Answers

apply_changes-get_example :
    (values' : List ℕ) × (bitmap' : List ℕ) × (apply_changes changes_two (replicate 64 0) (0 ∷ [])
      ≡ ok (values', bitmap'))
    × (length values' ≡ 2 * 32)
    × ((key : ℕ)
        → Packed.get (record { bytes = values' }) key
          ≡ latest_value key (Packed.get (record { bytes = replicate 64 0 }) key) changes_two)
apply_changes-get_example =
    apply_changes-get changes_two (replicate 64 0) (0 ∷ []) 2 refl (omega arith)
      ((omega arith, omega arith), tt)
