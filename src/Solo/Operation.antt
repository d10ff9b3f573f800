-- ===== src/Solo/Operation.antt =====
-- `kcas` of src/kcas/mod.rs, run by one thread by itself.
use kcas.Base.{ℕ, ◌<◌, Bool, List, ok, err, ◌≡◌, ◌≢◌, refl}
use kcas.Word.{usize_max, ◌>>>◌}
use kcas.Stage.{Stage}
use kcas.Err.{FatalError, Error}
use kcas.Types.{
  get_bit_length_of_num_threads, extract_thread_from_thread_and_sequence,
  construct_thread_and_sequence, construct_stage_and_sequence, convert_thread_id_to_thread_index,
}
use kcas.Types.Marker.{IsApplicationValue, sequence_limit, num_sequence_bits}
use kcas.Kcas.{KCasWord}
use kcas.Kcas.Operation.{perform_kcas}
use kcas.Kcas.Memory.{Memory, run, returned}
use kcas.Kcas.Memory.Returns.{spurious_failures}
use kcas.Solo.Contract.{IsCall, own_sequence, Matches, IsReady, IsSwapped}
use kcas.Solo.Setup.{
  end-IsReady, swapped-IsSwapped, perform_kcas-swaps, perform_kcas-reverts, perform_kcas-refuses,
  refused-marked, start-stage,
}

-- A call of `kcas` whose targets are different and all hold their expected values, run without
-- interference, returns `Ok` with more fuel than there are spurious failures: every target then
-- holds its desired value, no other word has changed, and the slot is ready for the next operation.
pub kcas-succeeds :
    (num_threads num_words fuel thread_id : ℕ) (words : ℕ → KCasWord) (m : Memory) (o : List Bool)
    → IsCall num_threads num_words thread_id words
    → Matches num_words words m
    → spurious_failures o < fuel
    → (o' : List Bool) × (m' : Memory) × (run num_threads num_words
          (perform_kcas num_threads num_words fuel thread_id words)
          o
          m
        ≡ returned (ok tt) o' m')
      × IsSwapped num_words words m m'
      × IsReady num_threads thread_id m m'
kcas-succeeds num_threads num_words fuel thread_id words m o call matches few =
    let (o', ended, _) =
      (perform_kcas-swaps num_threads num_words fuel thread_id words m call matches).ends o few in
    (
      o',
      _,
      ended,
      swapped-IsSwapped num_threads num_words fuel thread_id words m call,
      end-IsReady num_threads num_words fuel thread_id words m call _ _,
    )

-- A call of `kcas` on different targets that meets, at the first one without its expected value,
-- another value of the application, run without interference, returns `ValueWasNotExpectedValue`
-- with more fuel than there are spurious failures: every word of the caller is as before, and the
-- slot is ready for the next operation. The sequence number has to fit beside the thread
-- identifier.
pub kcas-fails :
    (num_threads num_words fuel thread_id : ℕ) (words : ℕ → KCasWord) (m : Memory) (o : List Bool)
    (stop : ℕ)
    → IsCall num_threads num_words thread_id words
    → own_sequence m thread_id < sequence_limit num_threads
    → stop < num_words
    → ((w : ℕ) → w < stop → m.targets (words w).target_address ≡ (words w).expected_value)
    → m.targets (words stop).target_address ≢ (words stop).expected_value
    → IsApplicationValue num_threads (m.targets (words stop).target_address)
    → spurious_failures o < fuel
    → (o' : List Bool) × (m' : Memory) × (run num_threads num_words
          (perform_kcas num_threads num_words fuel thread_id words)
          o
          m
        ≡ returned (err Error.value_was_not_expected_value) o' m')
      × (m'.targets ≡ m.targets)
      × IsReady num_threads thread_id m m'
kcas-fails num_threads num_words fuel thread_id words m o stop call room below matches differs value
      few =
    let (o', ended, _) =
      (perform_kcas-reverts num_threads num_words fuel thread_id words m call stop below room
          matches differs value).ends
        o few in
    (o', _, ended, refl, end-IsReady num_threads num_words fuel thread_id words m call _ _)

-- A call of `kcas` on different targets that meets, at the first one without its expected value,
-- reserved bits above every thread identifier and not all 1, run without interference, returns the
-- fatal error that names the word, with more fuel than there are spurious failures. The words
-- before it are left with the marker of the operation, and the stage is left at `Claiming`. The
-- sequence number has to fit beside the thread identifier.
pub kcas-refuses :
    (num_threads num_words fuel thread_id : ℕ) (words : ℕ → KCasWord) (m : Memory) (o : List Bool)
    (stop : ℕ)
    → IsCall num_threads num_words thread_id words
    → own_sequence m thread_id < sequence_limit num_threads
    → stop < num_words
    → ((w : ℕ) → w < stop → m.targets (words w).target_address ≡ (words w).expected_value)
    → m.targets (words stop).target_address ≢ (words stop).expected_value
    → num_threads
      < extract_thread_from_thread_and_sequence num_threads (m.targets (words stop).target_address)
    → extract_thread_from_thread_and_sequence num_threads (m.targets (words stop).target_address)
      < usize_max >>> num_sequence_bits num_threads
    → spurious_failures o < fuel
    → (o' : List Bool) × (m' : Memory) × (run num_threads num_words
          (perform_kcas num_threads num_words fuel thread_id words)
          o
          m
        ≡ returned
            (err (
              Error.fatal (
                FatalError.top_bits_of_value_were_illegal stop
                  (words stop).target_address
                  (m.targets (words stop).target_address)
                  (get_bit_length_of_num_threads num_threads))))
            o'
            m')
      × ((w : ℕ)
          → w < stop
          → m'.targets (words w).target_address
            ≡ construct_thread_and_sequence num_threads thread_id (own_sequence m thread_id))
      × (m'.state.stage_and_sequence_numbers (convert_thread_id_to_thread_index thread_id)
          ≡ construct_stage_and_sequence Stage.claiming (own_sequence m thread_id))
kcas-refuses num_threads num_words fuel thread_id words m o stop call room below matches differs
      above inside few =
    let (o', ended, _) =
      (perform_kcas-refuses num_threads num_words fuel thread_id words m call stop below room
          matches differs above inside).ends
        o few in
    (
      o',
      _,
      ended,
      refused-marked num_threads num_words fuel thread_id words m call stop below room matches
          differs,
      start-stage num_threads num_words fuel thread_id words m call,
    )
