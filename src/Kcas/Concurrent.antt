-- ===== src/Kcas/Concurrent.antt =====
-- src/kcas/stage_change.rs: how to go on when another thread has changed the stage. These
-- functions and those of src/kcas/set.rs call one another, so a number of nested calls is given.
use kcas.Base.{ℕ, zero, suc, ok, err}
use kcas.Word.{wrapping_sub}
use kcas.Stage.{inactive, claiming, setting, reverting, successful, reverted}
use kcas.Err.{FatalError, Error}
use kcas.Sync.{ret, out_of_fuel, ◌>>◌}
use kcas.Kcas.{HelpError, prepare_for_next_operation}
use kcas.Kcas.Revert.{revert_and_transition, help_revert_and_transition}
use kcas.Kcas.StageChange.{Handler, help_change_stage_and_transition}
use kcas.Kcas.Set.{set_and_transition, help_set_and_transition}

module _ (num_threads num_words : ℕ) where
  -- One call, with `handle` for the calls that it leads to.
  unfoldable pub concurrent_stage_change : (handle : Handler Error) → Handler Error
  concurrent_stage_change handle thread_index sequence thread_and_sequence current_stage inactive =
      ret (err (Error.fatal (FatalError.illegal_stage_change current_stage inactive)))
  concurrent_stage_change handle thread_index sequence thread_and_sequence current_stage claiming =
      ret (err (Error.fatal (FatalError.illegal_stage_change current_stage claiming)))
  concurrent_stage_change handle thread_index sequence thread_and_sequence current_stage setting =
      set_and_transition num_threads num_words handle thread_index sequence thread_and_sequence
  concurrent_stage_change handle thread_index sequence thread_and_sequence current_stage
        successful =
      revert_and_transition thread_index thread_and_sequence (wrapping_sub num_words 1)
        (do prepare_for_next_operation num_threads thread_index sequence; ret (ok tt))
  concurrent_stage_change handle thread_index sequence thread_and_sequence current_stage _ =
      revert_and_transition thread_index thread_and_sequence (wrapping_sub num_words 1) (do
        prepare_for_next_operation num_threads thread_index sequence
        ret (err Error.value_was_not_expected_value))

  unfoldable pub handle_concurrent_stage_change_and_transition : (fuel : ℕ) → Handler Error
  unfolding concurrent_stage_change
  handle_concurrent_stage_change_and_transition zero thread_index sequence thread_and_sequence
        current_stage actual_stage =
      out_of_fuel
  handle_concurrent_stage_change_and_transition (suc fuel) thread_index sequence thread_and_sequence
        current_stage actual_stage =
      concurrent_stage_change (handle_concurrent_stage_change_and_transition fuel) thread_index
        sequence thread_and_sequence current_stage actual_stage

  -- The helper's version of one call.
  unfoldable pub help_concurrent_stage_change : (handle : Handler HelpError) → Handler HelpError
  help_concurrent_stage_change handle thread_index sequence thread_and_sequence current_stage
        inactive =
      ret (err (HelpError.fatal (FatalError.illegal_stage_change current_stage inactive)))
  help_concurrent_stage_change handle thread_index sequence thread_and_sequence current_stage
        claiming =
      ret (err (HelpError.fatal (FatalError.illegal_stage_change current_stage claiming)))
  help_concurrent_stage_change handle thread_index sequence thread_and_sequence current_stage
        setting =
      help_set_and_transition num_threads num_words handle thread_index sequence thread_and_sequence
  help_concurrent_stage_change handle thread_index sequence thread_and_sequence current_stage
        reverting =
      help_revert_and_transition thread_index thread_and_sequence (wrapping_sub num_words 1) (
        help_change_stage_and_transition num_words handle thread_index sequence thread_and_sequence
          reverting reverted (ret (ok tt)))
  help_concurrent_stage_change handle thread_index sequence thread_and_sequence current_stage _ =
      help_revert_and_transition thread_index thread_and_sequence (wrapping_sub num_words 1)
        (ret (ok tt))

  unfoldable pub help_handle_concurrent_stage_change_and_transition : (fuel : ℕ) → Handler HelpError
  unfolding help_concurrent_stage_change
  help_handle_concurrent_stage_change_and_transition zero thread_index sequence thread_and_sequence
        current_stage actual_stage =
      out_of_fuel
  help_handle_concurrent_stage_change_and_transition (suc fuel) thread_index sequence
        thread_and_sequence current_stage actual_stage =
      help_concurrent_stage_change (help_handle_concurrent_stage_change_and_transition fuel)
        thread_index sequence thread_and_sequence current_stage actual_stage
