-- ===== src/Tests/Late.antt =====
-- Two threads on a new state, at a concrete schedule, evaluated: one of them helps too late.
use kcas.Base.{ℕ, zero, suc, Bool, false, List, [], ◌∷◌, ok, ◌≡◌, refl}
use kcas.Types.{get_bit_length_of_num_threads}
use kcas.Kcas.{KCasWord, KCasWord_new}
use kcas.Kcas.Operation.{perform_kcas, help_thread}
use kcas.Stage.{inactive}
use kcas.Safety.Always.{new_memory}
use kcas.Shared.Schedule.{System, advance, unless_fatal, perform_all, run_schedule, all_start}
use kcas.Sync.{◌>>=◌, ret}
use kcas.Kcas.{
  save_word, save_words, initialize_operation, next_sequence, prepare_for_next_operation,
}
use kcas.Types.{
  convert_thread_id_to_thread_index, convert_thread_index_to_thread_id,
  sequence_mask_for_stage_and_sequence, construct_stage_and_sequence,
  extract_stage_from_stage_and_sequence, extract_sequence_from_stage_and_sequence, bit_length_loop,
  get_sequence_mask_for_thread_and_sequence, construct_thread_and_sequence,
  extract_thread_from_thread_and_sequence, extract_sequence_from_thread_and_sequence,
  is_value_a_kcas_marker,
}
use kcas.Stage.{try_from}
use kcas.Kcas.Claim.{
  after_help, examine_top_bits, claim_word_failed, cas_loop, claim_words, claim, after_claim,
  claim_and_transition, after_help_claim, help_claim_and_transition,
}
use kcas.Kcas.Concurrent.{
  concurrent_stage_change, handle_concurrent_stage_change_and_transition,
  help_concurrent_stage_change, help_handle_concurrent_stage_change_and_transition,
}
use kcas.Kcas.Operation.{help_stage}
use kcas.Kcas.Revert.{revert_words, revert, revert_and_transition, help_revert_and_transition}
use kcas.Kcas.Set.{
  set_word_failed, set_words, set, after_set, set_and_transition, after_help_set,
  help_set_and_transition,
}
use kcas.Kcas.StageChange.{
  verification_result, verify_stage_and_sequence_have_not_changed, stage_change_failed,
  change_stage_and_transition, help_stage_change_failed, help_change_stage_and_transition,
  handle_concurrent_stage_and_sequence_verification_error_and_transition,
  help_handle_concurrent_stage_and_sequence_verification_error_and_transition,
}
use kcas.Kcas.Memory.{read, write, in_bounds}

-- Thread index 0 swaps the target 10 from 0 to 5 and back; thread index 1 wants to swap it from 0
-- to 7.
abbrev pub there_and_back : ℕ → List (ℕ → KCasWord)
there_and_back zero = (λ w. KCasWord_new 10 0 5) ∷ (λ w. KCasWord_new 10 5 0) ∷ []
there_and_back (suc i) = (λ w. KCasWord_new 10 0 7) ∷ []

abbrev pub unclaimed : ℕ → ℕ
unclaimed a = 0

-- Thread index 0 claims the target. Thread index 1 meets the marker and begins to help: it has loaded
-- the expected value 0. Then thread index 0 performs its two operations to the end.
abbrev pub schedule : List (ℕ × Bool)
schedule =
    (0, false)
    ∷ (0, false)
    ∷ (0, false)
    ∷ (0, false)
    ∷ (0, false)
    ∷ (0, false)
    ∷ (0, false)
    ∷ (0, false)
    ∷ (1, false)
    ∷ (1, false)
    ∷ (1, false)
    ∷ (1, false)
    ∷ (1, false)
    ∷ (1, false)
    ∷ (1, false)
    ∷ (1, false)
    ∷ (1, false)
    ∷ (1, false)
    ∷ (1, false)
    ∷ (1, false)
    ∷ (0, false)
    ∷ (0, false)
    ∷ (0, false)
    ∷ (0, false)
    ∷ (0, false)
    ∷ (0, false)
    ∷ (0, false)
    ∷ (0, false)
    ∷ (0, false)
    ∷ (0, false)
    ∷ (0, false)
    ∷ (0, false)
    ∷ (0, false)
    ∷ (0, false)
    ∷ (0, false)
    ∷ (0, false)
    ∷ (0, false)
    ∷ (0, false)
    ∷ (0, false)
    ∷ (0, false)
    ∷ (0, false)
    ∷ (0, false)
    ∷ (0, false)
    ∷ (0, false)
    ∷ (0, false)
    ∷ (0, false)
    ∷ (0, false)
    ∷ (0, false)
    ∷ (0, false)
    ∷ (0, false)
    ∷ []

abbrev pub performed : System
performed = run_schedule 2 1 schedule (all_start 2 1 3 there_and_back (new_memory unclaimed))

-- Thread index 1 goes on.
abbrev pub more : List (ℕ × Bool)
more =
    (1, false)
    ∷ (1, false)
    ∷ (1, false)
    ∷ (1, false)
    ∷ (1, false)
    ∷ (1, false)
    ∷ (1, false)
    ∷ (1, false)
    ∷ (1, false)
    ∷ (1, false)
    ∷ (1, false)
    ∷ (1, false)
    ∷ (1, false)
    ∷ (1, false)
    ∷ (1, false)
    ∷ (1, false)
    ∷ (1, false)
    ∷ (1, false)
    ∷ (1, false)
    ∷ (1, false)
    ∷ []

abbrev helped : System
helped = run_schedule 2 1 more performed

-- The same with a third thread, up to the moment at which the marker of the first operation stands in
-- the target again.
abbrev pub stuck : System
stuck =
    run_schedule 3 1 ((1, false) ∷ [])
      (run_schedule 3 1 schedule (all_start 3 1 3 there_and_back (new_memory unclaimed)))

-- After the two operations the target holds 0, as the second of them says. Then the helper puts the
-- marker of the first one there, finds that the operation is over, and takes the marker back with what
-- it loads as the expected value: that of the second one, 5. Its own operation fails. Between its two
-- steps the marker of an operation that is over stands in the target.
pub too_late :
    (performed.programs 0 ≡ ret (ok tt))
    × (performed.memory.targets 10 ≡ 0)
    × (helped.programs 1 ≡ ret (ok tt))
    × (helped.memory.targets 10 ≡ 5)
    × (stuck.memory.targets 10 ≡ construct_thread_and_sequence 3 1 0)
    × (stuck.memory.state.stage_and_sequence_numbers 0 ≡ construct_stage_and_sequence inactive 2)
    × (stuck.memory.state.stage_and_sequence_numbers 2 ≡ construct_stage_and_sequence inactive 0)
unfolding ◌>>=◌ save_word save_words initialize_operation next_sequence prepare_for_next_operation
    convert_thread_id_to_thread_index convert_thread_index_to_thread_id
    sequence_mask_for_stage_and_sequence construct_stage_and_sequence
    extract_stage_from_stage_and_sequence extract_sequence_from_stage_and_sequence bit_length_loop
    get_bit_length_of_num_threads get_sequence_mask_for_thread_and_sequence
    construct_thread_and_sequence extract_thread_from_thread_and_sequence
    extract_sequence_from_thread_and_sequence is_value_a_kcas_marker try_from after_help
    examine_top_bits claim_word_failed cas_loop claim_words claim after_claim claim_and_transition
    after_help_claim help_claim_and_transition concurrent_stage_change
    handle_concurrent_stage_change_and_transition help_concurrent_stage_change
    help_handle_concurrent_stage_change_and_transition help_stage help_thread perform_kcas
    revert_words revert revert_and_transition help_revert_and_transition set_word_failed set_words
    set after_set set_and_transition after_help_set help_set_and_transition verification_result
    verify_stage_and_sequence_have_not_changed stage_change_failed change_stage_and_transition
    help_stage_change_failed help_change_stage_and_transition
    handle_concurrent_stage_and_sequence_verification_error_and_transition
    help_handle_concurrent_stage_and_sequence_verification_error_and_transition read write in_bounds
    advance run_schedule unless_fatal perform_all
too_late = (refl, refl, refl, refl, refl, refl, refl)
