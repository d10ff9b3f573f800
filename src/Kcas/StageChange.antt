-- ===== src/Kcas/StageChange.antt =====
-- src/kcas/stage_change.rs: checking and changing the stage of an operation. The functions that
-- decide how to go on after a concurrent change call back into src/kcas/set.rs; they are in
-- Kcas/Concurrent.antt, and here they are the argument `handle`.
use kcas.Base.{ℕ, not, Result, ok, err, ◌==◌, if◌then◌else◌}
use kcas.Word.{wrapping_sub}
use kcas.Stage.{Stage, stage_eq}
use kcas.Err.{FatalError, Error, fatal_from_stage_out_of_bounds}
use kcas.Types.{
  SequenceNum, ThreadIndex, StageAndSequence, ThreadAndSequence, convert_thread_index_to_thread_id,
  construct_stage_and_sequence, extract_stage_from_stage_and_sequence,
  extract_sequence_from_stage_and_sequence,
}
use kcas.Sync.{Location, Prog, ret, ◌>>=◌, atomic_load, atomic_compare_exchange}
use kcas.Kcas.{HelpError}
use kcas.Kcas.Revert.{revert_and_transition, help_revert_and_transition}

pub data StageAndSequenceVerificationError : Type 0 where
  stage_changed : (actual_stage : Stage) → StageAndSequenceVerificationError
  sequence_changed : (actual_sequence : SequenceNum) → StageAndSequenceVerificationError
  stage_out_of_bounds : ℕ → StageAndSequenceVerificationError

-- What the loaded word says, in the order of the source's tests.
unfoldable pub verification_result :
    (expected_stage : Stage)
    → (expected_sequence : SequenceNum) → StageAndSequence
    → Result (Unit {0}) StageAndSequenceVerificationError
verification_result expected_stage expected_sequence actual_stage_and_sequence =
    let actual_sequence = extract_sequence_from_stage_and_sequence actual_stage_and_sequence in
    elim (extract_stage_from_stage_and_sequence actual_stage_and_sequence) [
      | err e ↦ err (stage_out_of_bounds e.value)
      | ok actual_stage ↦
          if not (actual_sequence == expected_sequence)
          then err (sequence_changed actual_sequence)
          else if not (stage_eq actual_stage expected_stage)
          then err (stage_changed actual_stage)
          else ok tt
    ]

unfoldable pub verify_stage_and_sequence_have_not_changed :
    ThreadIndex
    → (expected_stage : Stage) → (expected_sequence : SequenceNum)
    → Prog (Result (Unit {0}) StageAndSequenceVerificationError)
unfolding verification_result
verify_stage_and_sequence_have_not_changed thread_index expected_stage expected_sequence = do
  actual_stage_and_sequence ← atomic_load (Location.stage_and_sequence_number thread_index)
  ret (verification_result expected_stage expected_sequence actual_stage_and_sequence)

-- `handle_concurrent_stage_change_and_transition` and its helper's version, as arguments.
abbrev pub Handler : Type 0 → Type 0
Handler E =
    ThreadIndex
    → SequenceNum
    → ThreadAndSequence
    → (current_stage actual_stage : Stage) → Prog (Result (Unit {0}) E)

module _ (num_words : ℕ) where
  -- After the compare-exchange of `change_stage_and_transition` has failed.
  unfoldable pub stage_change_failed :
      (handle : Handler Error)
      → ThreadIndex
      → SequenceNum
      → ThreadAndSequence
      → (current_stage : Stage) → (actual_stage_and_sequence : StageAndSequence)
      → Prog (Result (Unit {0}) Error)
  stage_change_failed handle thread_index sequence thread_and_sequence current_stage actual =
      elim (extract_stage_from_stage_and_sequence actual) [
        | err e ↦ ret (err (Error.fatal (fatal_from_stage_out_of_bounds e)))
        | ok actual_stage ↦
            if not (extract_sequence_from_stage_and_sequence actual == sequence)
            then revert_and_transition thread_index thread_and_sequence (wrapping_sub num_words 1) (
                ret (
                  err (
                    Error.fatal (
                      FatalError.sequence_num_changed_by_non_originating_thread
                        (convert_thread_index_to_thread_id thread_index)))))
            else handle thread_index sequence thread_and_sequence current_stage actual_stage
      ]

  unfoldable pub change_stage_and_transition :
      (handle : Handler Error)
      → ThreadIndex
      → SequenceNum
      → ThreadAndSequence
      → (current_stage desired_stage : Stage) → (next_function : Prog (Result (Unit {0}) Error))
      → Prog (Result (Unit {0}) Error)
  unfolding stage_change_failed
  change_stage_and_transition handle thread_index sequence thread_and_sequence current_stage
        desired_stage next_function =
      do
        cas_result ←
            atomic_compare_exchange (Location.stage_and_sequence_number thread_index)
              (construct_stage_and_sequence current_stage sequence)
              (construct_stage_and_sequence desired_stage sequence)
        elim cas_result [
          | ok _ ↦ next_function
          | err actual ↦
              stage_change_failed handle thread_index sequence thread_and_sequence current_stage
                actual
        ]

  -- After the compare-exchange of `help_change_stage_and_transition` has failed.
  unfoldable pub help_stage_change_failed :
      (handle : Handler HelpError)
      → ThreadIndex
      → SequenceNum
      → ThreadAndSequence
      → (current_stage : Stage) → (actual_stage_and_sequence : StageAndSequence)
      → Prog (Result (Unit {0}) HelpError)
  help_stage_change_failed handle thread_index sequence thread_and_sequence current_stage actual =
      elim (extract_stage_from_stage_and_sequence actual) [
        | err e ↦ ret (err (HelpError.fatal (fatal_from_stage_out_of_bounds e)))
        | ok actual_stage ↦
            let actual_sequence = extract_sequence_from_stage_and_sequence actual in
            if not (actual_sequence == sequence)
            then help_revert_and_transition thread_index thread_and_sequence
                (wrapping_sub num_words 1)
                (ret (
                  err (
                    HelpError.sequence_changed_while_helping
                      (convert_thread_index_to_thread_id thread_index) sequence actual_sequence)))
            else handle thread_index sequence thread_and_sequence current_stage actual_stage
      ]

  unfoldable pub help_change_stage_and_transition :
      (handle : Handler HelpError)
      → ThreadIndex
      → SequenceNum
      → ThreadAndSequence
      → (current_stage desired_stage : Stage) → (next_function : Prog (Result (Unit {0}) HelpError))
      → Prog (Result (Unit {0}) HelpError)
  unfolding help_stage_change_failed
  help_change_stage_and_transition handle thread_index sequence thread_and_sequence current_stage
        desired_stage next_function =
      do
        cas_result ←
            atomic_compare_exchange (Location.stage_and_sequence_number thread_index)
              (construct_stage_and_sequence current_stage sequence)
              (construct_stage_and_sequence desired_stage sequence)
        elim cas_result [
          | ok _ ↦ next_function
          | err actual ↦
              help_stage_change_failed handle thread_index sequence thread_and_sequence
                current_stage actual
        ]

  unfoldable pub handle_concurrent_stage_and_sequence_verification_error_and_transition :
      (handle : Handler Error)
      → ThreadIndex
      → SequenceNum
      → ThreadAndSequence
      → (current_stage : Stage) → StageAndSequenceVerificationError
      → Prog (Result (Unit {0}) Error)
  handle_concurrent_stage_and_sequence_verification_error_and_transition handle thread_index
        sequence thread_and_sequence current_stage (stage_changed actual_stage) =
      handle thread_index sequence thread_and_sequence current_stage actual_stage
  handle_concurrent_stage_and_sequence_verification_error_and_transition handle thread_index
        sequence thread_and_sequence current_stage (sequence_changed actual_sequence) =
      ret (
        err (
          Error.fatal (
            FatalError.sequence_num_changed_by_non_originating_thread
              (convert_thread_index_to_thread_id thread_index))))
  handle_concurrent_stage_and_sequence_verification_error_and_transition handle thread_index
        sequence thread_and_sequence current_stage (stage_out_of_bounds actual_stage_number) =
      ret (err (Error.fatal (FatalError.stage_out_of_bounds actual_stage_number)))

  unfoldable pub help_handle_concurrent_stage_and_sequence_verification_error_and_transition :
      (handle : Handler HelpError)
      → ThreadIndex
      → SequenceNum
      → ThreadAndSequence
      → (current_stage : Stage) → StageAndSequenceVerificationError
      → Prog (Result (Unit {0}) HelpError)
  help_handle_concurrent_stage_and_sequence_verification_error_and_transition handle thread_index
        sequence thread_and_sequence current_stage (stage_changed actual_stage) =
      handle thread_index sequence thread_and_sequence current_stage actual_stage
  help_handle_concurrent_stage_and_sequence_verification_error_and_transition handle thread_index
        sequence thread_and_sequence current_stage (sequence_changed actual_sequence) =
      help_revert_and_transition thread_index thread_and_sequence (wrapping_sub num_words 1) (
        ret (
          err (
            HelpError.sequence_changed_while_helping
              (convert_thread_index_to_thread_id thread_index) sequence actual_sequence)))
  help_handle_concurrent_stage_and_sequence_verification_error_and_transition handle thread_index
        sequence thread_and_sequence current_stage (stage_out_of_bounds actual_stage_number) =
      ret (err (HelpError.fatal (FatalError.stage_out_of_bounds actual_stage_number)))
