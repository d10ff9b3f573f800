-- ===== src/Tests/Runs.antt =====
-- Whole runs, evaluated: an operation of three words on a fresh state.
use kcas.Base.{ℕ, ◌-◌, ◌*◌, zero, suc, true, false, List, [], ◌∷◌, Result, ok, err, ◌≡◌, refl}
use kcas.Stage.{Stage, StageOutOfBoundsError, inactive, successful}
use kcas.Types.{get_bit_length_of_num_threads}
use kcas.Kcas.{State_new, KCasWord, KCasWord_new}
use kcas.Kcas.Operation.{perform_kcas, help_thread}
use kcas.Kcas.Memory.{Memory, run, Outcome, returned, panicked, exhausted}
use kcas.Sync.{◌>>=◌}
use kcas.Kcas.{
  save_word, save_words, initialize_operation, next_sequence, prepare_for_next_operation,
}
use kcas.Types.{
  convert_thread_id_to_thread_index, convert_thread_index_to_thread_id,
  sequence_mask_for_stage_and_sequence, construct_stage_and_sequence,
  extract_stage_from_stage_and_sequence, extract_sequence_from_stage_and_sequence, bit_length_loop,
  get_sequence_mask_for_thread_and_sequence, construct_thread_and_sequence,
  extract_thread_from_thread_and_sequence, extract_sequence_from_thread_and_sequence,
  is_value_a_kcas_marker,
}
use kcas.Stage.{try_from}
use kcas.Kcas.Claim.{
  after_help, examine_top_bits, claim_word_failed, cas_loop, claim_words, claim, after_claim,
  claim_and_transition, after_help_claim, help_claim_and_transition,
}
use kcas.Kcas.Concurrent.{
  concurrent_stage_change, handle_concurrent_stage_change_and_transition,
  help_concurrent_stage_change, help_handle_concurrent_stage_change_and_transition,
}
use kcas.Kcas.Operation.{help_stage}
use kcas.Kcas.Revert.{revert_words, revert, revert_and_transition, help_revert_and_transition}
use kcas.Kcas.Set.{
  set_word_failed, set_words, set, after_set, set_and_transition, after_help_set,
  help_set_and_transition,
}
use kcas.Kcas.StageChange.{
  verification_result, verify_stage_and_sequence_have_not_changed, stage_change_failed,
  change_stage_and_transition, help_stage_change_failed, help_change_stage_and_transition,
  handle_concurrent_stage_and_sequence_verification_error_and_transition,
  help_handle_concurrent_stage_and_sequence_verification_error_and_transition,
}
use kcas.Kcas.Memory.{read, write, in_bounds}
use kcas.Err.{Error}
use kcas.Solo.Spec.{all_match, multi_word_cas}
use kcas.Tests.Helping.{stopped}
use kcas.Tests.Operations.{words, memory_off}

abbrev fresh : Memory
fresh = record { state = State_new; targets = λ a. 100 * (a - 10) }

abbrev targets_after : {A : Type 0} → Outcome A → List ℕ
targets_after (returned a o m) = m.targets 10 ∷ m.targets 11 ∷ m.targets 12 ∷ []
targets_after panicked = []
targets_after exhausted = []

abbrev result_after : {A : Type 0} → Outcome A → List A
result_after (returned a o m) = a ∷ []
result_after panicked = []
result_after exhausted = []

-- The same address twice, with different expected values.
abbrev repeated : ℕ → KCasWord
repeated zero = KCasWord_new 10 0 1
repeated (suc w) = KCasWord_new 10 5 2

abbrev stage_after : {A : Type 0} → Outcome A → Result Stage StageOutOfBoundsError
stage_after (returned a o m) =
    extract_stage_from_stage_and_sequence (m.state.stage_and_sequence_numbers 0)
stage_after panicked = ok inactive
stage_after exhausted = ok inactive

-- The operation swaps the words where all have their expected values, and restores them where the
-- last one differs; a helper finishes the operation of a thread that has stopped. With an address
-- repeated the second word is not compared, and the result is not that of the specification.
runs :
    (targets_after (run 1 3 (perform_kcas 1 3 3 1 words) (true ∷ false ∷ true ∷ []) fresh)
      ≡ 50 ∷ 150 ∷ 250 ∷ [])
    × (targets_after (run 1 3 (perform_kcas 1 3 1 1 words) [] memory_off) ≡ 0 ∷ 100 ∷ 201 ∷ [])
    × (targets_after (run 2 3 (help_thread 2 3 1 (construct_thread_and_sequence 2 1 0)) [] stopped)
        ≡ 50 ∷ 150 ∷ 250 ∷ [])
    × (stage_after (run 2 3 (help_thread 2 3 1 (construct_thread_and_sequence 2 1 0)) [] stopped)
        ≡ ok successful)
    × (result_after (run 1 2 (perform_kcas 1 2 3 1 repeated) [] fresh) ≡ ok tt ∷ [])
    × (targets_after (run 1 2 (perform_kcas 1 2 3 1 repeated) [] fresh) ≡ 1 ∷ 100 ∷ 200 ∷ [])
    × ((multi_word_cas 2 repeated fresh.targets).0 ≡ err Error.value_was_not_expected_value)
unfolding all_match multi_word_cas ◌>>=◌ save_word save_words initialize_operation next_sequence
    prepare_for_next_operation convert_thread_id_to_thread_index convert_thread_index_to_thread_id
    sequence_mask_for_stage_and_sequence construct_stage_and_sequence
    extract_stage_from_stage_and_sequence extract_sequence_from_stage_and_sequence bit_length_loop
    get_bit_length_of_num_threads get_sequence_mask_for_thread_and_sequence
    construct_thread_and_sequence extract_thread_from_thread_and_sequence
    extract_sequence_from_thread_and_sequence is_value_a_kcas_marker try_from after_help
    examine_top_bits claim_word_failed cas_loop claim_words claim after_claim claim_and_transition
    after_help_claim help_claim_and_transition concurrent_stage_change
    handle_concurrent_stage_change_and_transition help_concurrent_stage_change
    help_handle_concurrent_stage_change_and_transition help_stage help_thread perform_kcas
    revert_words revert revert_and_transition help_revert_and_transition set_word_failed set_words
    set after_set set_and_transition after_help_set help_set_and_transition verification_result
    verify_stage_and_sequence_have_not_changed stage_change_failed change_stage_and_transition
    help_stage_change_failed help_change_stage_and_transition
    handle_concurrent_stage_and_sequence_verification_error_and_transition
    help_handle_concurrent_stage_and_sequence_verification_error_and_transition read write in_bounds
    run
runs = (refl, refl, refl, refl, refl, refl, refl)
