-- ===== src/Shared/Whole.antt =====
-- The whole operation, and the help that it gives to others, keep to the discipline.
use kcas.Base.{ℕ, zero, suc, ◌+◌, ◌<◌, not, ok, ◌≡◌, refl, ◌==◌}
use kcas.Stage.{Stage, inactive, claiming, setting, reverting, successful, reverted}
use kcas.Types.{
  convert_thread_id_to_thread_index, extract_stage_from_stage_and_sequence,
  extract_sequence_from_stage_and_sequence, extract_sequence_from_thread_and_sequence,
}
use kcas.Types.StageAndSequence.{stage_sequence_limit, extract_sequence-lt}
use kcas.Word.{wrapping_sub}
use kcas.Sync.{ret, ◌>>=◌}
use kcas.Kcas.{KCasWord, save_word, save_words, initialize_operation}
use kcas.Kcas.Concurrent.{help_handle_concurrent_stage_change_and_transition}
use kcas.Kcas.Operation.{help_stage, help_thread, perform_kcas}
use kcas.Shared.Discipline.{
  Follows, MayStore, Disciplined, Disciplined->>=->>=, Disciplined-if, Disciplined-cases,
}
use kcas.Shared.Phases.{
  help_revert_and_transition-Disciplined, help_change_stage_and_transition-Disciplined,
}
use kcas.Shared.Setting.{
  help_set_and_transition-Disciplined, handle-IsDisciplinedHandler,
  help_handle-IsDisciplinedHandler,
}
use kcas.Shared.Claiming.{claim_and_transition-Disciplined, help_claim_and_transition-Disciplined}

module _ (own num_threads num_words : ℕ) where
  help_stage-Disciplined :
      (fuel thread_id sequence encountered : ℕ)
      → ((e : ℕ) → Disciplined own (help_thread num_threads num_words fuel e))
      → sequence < stage_sequence_limit
      → (stage : Stage)
      → Disciplined own (
          help_stage num_threads num_words
            (help_thread num_threads num_words fuel)
            (help_handle_concurrent_stage_change_and_transition num_threads num_words fuel)
            fuel
            thread_id
            sequence
            encountered
            stage)
  unfolding help_stage Disciplined Follows
  help_stage-Disciplined fuel thread_id sequence encountered helps small inactive = tt
  help_stage-Disciplined fuel thread_id sequence encountered helps small claiming =
      help_claim_and_transition-Disciplined own num_threads num_words _ helps fuel _ sequence
        encountered small _ (help_handle-IsDisciplinedHandler own num_threads num_words fuel)
  help_stage-Disciplined fuel thread_id sequence encountered helps small setting =
      help_set_and_transition-Disciplined own num_threads num_words _ sequence encountered small _
        (help_handle-IsDisciplinedHandler own num_threads num_words fuel)
  help_stage-Disciplined fuel thread_id sequence encountered helps small reverting =
      help_revert_and_transition-Disciplined own _ encountered (wrapping_sub num_words 1) _ (
        help_change_stage_and_transition-Disciplined own num_words (λ j. Unit {0}) _ sequence
          encountered tt small _ (help_handle-IsDisciplinedHandler own num_threads num_words fuel)
          reverting reverted (ret (ok tt)) tt tt)
  help_stage-Disciplined fuel thread_id sequence encountered helps small successful = tt
  help_stage-Disciplined fuel thread_id sequence encountered helps small reverted = tt

  -- Whatever values a helper meets, it stores to no row but its own (and so, for every `own`, to
  -- none), and swaps only targets, and stages along the stage changes with the sequence number
  -- kept.
  pub help_thread-Disciplined :
      (fuel encountered : ℕ) → Disciplined own (help_thread num_threads num_words fuel encountered)
  unfolding help_thread Disciplined ◌>>=◌
  help_thread-Disciplined zero encountered = tt
  help_thread-Disciplined (suc fuel) encountered = λ word.
      let sequence = extract_sequence_from_stage_and_sequence word in
      Disciplined-cases own (extract_stage_from_stage_and_sequence word) _ _
        (λ stage.
          Disciplined-if own
            (not (sequence == extract_sequence_from_thread_and_sequence num_threads encountered)) _
            _ tt
            (help_stage-Disciplined fuel _ sequence encountered (help_thread-Disciplined fuel)
              (extract_sequence-lt word) stage))
        (λ e. tt)

  pub save_words-Disciplined :
      (i : ℕ) (words : ℕ → KCasWord) (left w : ℕ)
      → i ≡ own
      → Disciplined own (save_words i words left w)
  unfolding save_words save_word Disciplined MayStore ◌>>=◌
  save_words-Disciplined i words zero w mine = tt
  save_words-Disciplined i words (suc left) w mine =
      (mine, (mine, (mine, save_words-Disciplined i words left (w + 1) mine)))

-- Whatever values the operation of a thread meets, it stores to its own row only, and swaps only
-- targets, and stages along the stage changes of an operation with the sequence number kept.
pub perform_kcas-Disciplined :
    (num_threads num_words fuel thread_id : ℕ) (words : ℕ → KCasWord)
    → Disciplined
        (convert_thread_id_to_thread_index thread_id)
        (perform_kcas num_threads num_words fuel thread_id words)
unfolding perform_kcas initialize_operation Disciplined MayStore ◌>>=◌
perform_kcas-Disciplined num_threads num_words fuel thread_id words =
    let i = convert_thread_id_to_thread_index thread_id in
    Disciplined->>=->>= i (save_words i words num_words 0) _ _
      (save_words-Disciplined i num_threads num_words i words num_words 0 refl)
      (λ u word. (
        refl,
        claim_and_transition-Disciplined i num_threads num_words _
            (help_thread-Disciplined i num_threads num_words fuel) fuel i _ _
            (extract_sequence-lt word) _ (handle-IsDisciplinedHandler i num_threads num_words fuel)
            refl,
      ))
