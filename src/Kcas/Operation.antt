-- ===== src/Kcas/Operation.antt =====
-- src/kcas/mod.rs: `help_thread`, and `kcas`, the whole operation.
use kcas.Base.{ℕ, zero, suc, not, Result, ok, err, ◌==◌, if◌then◌else◌}
use kcas.Word.{wrapping_sub}
use kcas.Stage.{Stage, inactive, claiming, setting, reverting, successful, reverted}
use kcas.Err.{FatalError, Error, fatal_from_stage_out_of_bounds}
use kcas.Types.{
  SequenceNum, ThreadId, ThreadAndSequence, convert_thread_id_to_thread_index,
  extract_stage_from_stage_and_sequence, extract_sequence_from_stage_and_sequence,
  construct_thread_and_sequence, extract_thread_from_thread_and_sequence,
  extract_sequence_from_thread_and_sequence,
}
use kcas.Sync.{Location, Prog, ret, out_of_fuel, ◌>>=◌, atomic_load}
use kcas.Kcas.{HelpError, KCasWord, initialize_operation}
use kcas.Kcas.Revert.{help_revert_and_transition}
use kcas.Kcas.StageChange.{Handler, help_change_stage_and_transition}
use kcas.Kcas.Set.{help_set_and_transition}
use kcas.Kcas.Concurrent.{
  handle_concurrent_stage_change_and_transition, help_handle_concurrent_stage_change_and_transition,
}
use kcas.Kcas.Claim.{claim_and_transition, help_claim_and_transition}

module _ (num_threads num_words : ℕ) where
  -- The `match stage` of `help_thread`. `help_again` is `help_thread` for the claim, and `handle`
  -- the helper's reaction to a concurrent stage change.
  unfoldable pub help_stage :
      (help_again : ThreadAndSequence → Prog (Result (Unit {0}) HelpError))
      → (handle : Handler HelpError) → (rounds : ℕ) → ThreadId
      → SequenceNum
      → ThreadAndSequence
      → Stage
      → Prog (Result (Unit {0}) HelpError)
  help_stage help_again handle rounds thread_id sequence encountered inactive =
      ret (err (HelpError.fatal (FatalError.illegal_helpee_stage inactive)))
  help_stage help_again handle rounds thread_id sequence encountered claiming =
      help_claim_and_transition num_threads num_words help_again handle rounds
        (convert_thread_id_to_thread_index thread_id) sequence encountered
  help_stage help_again handle rounds thread_id sequence encountered setting =
      help_set_and_transition num_threads num_words handle
        (convert_thread_id_to_thread_index thread_id) sequence encountered
  help_stage help_again handle rounds thread_id sequence encountered reverting =
      let thread_index = convert_thread_id_to_thread_index thread_id in
      help_revert_and_transition thread_index encountered (wrapping_sub num_words 1) (
        help_change_stage_and_transition num_words handle thread_index sequence encountered
          reverting reverted (ret (ok tt)))
  help_stage help_again handle rounds thread_id sequence encountered successful =
      ret (err (HelpError.helpee_stage_is_already_terminal thread_id successful))
  help_stage help_again handle rounds thread_id sequence encountered reverted =
      ret (err (HelpError.helpee_stage_is_already_terminal thread_id reverted))

  -- `help_thread`, with `fuel` a bound on nested help and on the rounds of each loop.
  unfoldable pub help_thread :
      (fuel : ℕ)
      → (encountered_thread_and_sequence : ThreadAndSequence) → Prog (Result (Unit {0}) HelpError)
  unfolding help_stage
  help_thread zero encountered = out_of_fuel
  help_thread (suc fuel) encountered = do
    let thread_id = extract_thread_from_thread_and_sequence num_threads encountered
    let encountered_sequence = extract_sequence_from_thread_and_sequence num_threads encountered
    stage_and_sequence ←
        atomic_load
          (Location.stage_and_sequence_number (convert_thread_id_to_thread_index thread_id))
    elim (extract_stage_from_stage_and_sequence stage_and_sequence) [
      | err e ↦ ret (err (HelpError.fatal (fatal_from_stage_out_of_bounds e)))
      | ok stage ↦
          let sequence = extract_sequence_from_stage_and_sequence stage_and_sequence in
          if not (sequence == encountered_sequence)
          then ret (
              err
                (HelpError.sequence_changed_while_helping thread_id encountered_sequence sequence))
          else help_stage (help_thread fuel)
              (help_handle_concurrent_stage_change_and_transition num_threads num_words fuel) fuel
              thread_id sequence encountered stage
    ]

  -- The function `kcas`, with `fuel` for its loops and for the threads that it helps.
  unfoldable pub perform_kcas :
      (fuel : ℕ) → ThreadId → (kcas_words : ℕ → KCasWord) → Prog (Result (Unit {0}) Error)
  unfolding help_thread
  perform_kcas fuel thread_id kcas_words = do
    let thread_index = convert_thread_id_to_thread_index thread_id
    sequence ← initialize_operation num_words thread_index kcas_words
    let thread_and_sequence = construct_thread_and_sequence num_threads thread_id sequence
    claim_and_transition num_threads num_words (help_thread fuel)
        (handle_concurrent_stage_change_and_transition num_threads num_words fuel) fuel thread_index
        sequence thread_and_sequence
