-- ===== src/Shared/Setting.antt =====
-- The setting phase, the end of an operation, and the reactions to concurrent stage changes keep to
-- the discipline.
use kcas.Base.{ℕ, zero, suc, ◌+◌, ◌<◌, Result, ok, err, ◌≡◌, ◌==◌}
use kcas.Word.{wrapping_sub}
use kcas.Err.{Error}
use kcas.Stage.{inactive, claiming, setting, reverting, successful, reverted}
use kcas.Types.StageAndSequence.{stage_sequence_limit}
use kcas.Sync.{Prog, ret, ◌>>=◌}
use kcas.Kcas.{HelpError, prepare_for_next_operation}
use kcas.Kcas.StageChange.{Handler, verify_stage_and_sequence_have_not_changed}
use kcas.Kcas.Set.{
  SetError, stage_and_sequence_verification_error, target_address_was_not_valid_pointer,
  set_word_failed, set_words, set, after_set, set_and_transition, after_help_set,
  help_set_and_transition,
}
use kcas.Kcas.Concurrent.{
  concurrent_stage_change, handle_concurrent_stage_change_and_transition,
  help_concurrent_stage_change, help_handle_concurrent_stage_change_and_transition,
}
use kcas.Shared.Discipline.{
  Follows, MayStore, MaySwap, Disciplined, Disciplined->>=, Disciplined-if, Disciplined-ret,
  Disciplined-cases,
}
use kcas.Shared.Phases.{
  IsDisciplinedHandler, revert_and_transition-Disciplined, help_revert_and_transition-Disciplined,
  verify-Disciplined, verification_error-Disciplined, help_change_stage_and_transition-Disciplined,
  help_verification_error-Disciplined,
}

pub prepare_for_next_operation-Disciplined :
    (own num_threads i sequence : ℕ)
    → i ≡ own
    → Disciplined own (prepare_for_next_operation num_threads i sequence)
unfolding prepare_for_next_operation Disciplined MayStore ◌>>=◌
prepare_for_next_operation-Disciplined own num_threads i sequence mine = (mine, tt)

module _ (own i sequence t : ℕ) where
  set_word_failed-Disciplined :
      (w : ℕ) (rest : Prog (Result (Unit {0}) SetError))
      → Disciplined own rest
      → Disciplined own (set_word_failed i sequence t w rest)
  unfolding set_word_failed
  set_word_failed-Disciplined w rest d =
      Disciplined->>= own (verify_stage_and_sequence_have_not_changed i setting sequence) _
        (verify-Disciplined own i setting sequence)
        λ r. Disciplined-cases own r _ _ (λ u. d) (λ e. Disciplined-ret own _)

  set_words-Disciplined : (left w : ℕ) → Disciplined own (set_words i sequence t left w)
  unfolding set_words Disciplined MaySwap ◌>>=◌
  set_words-Disciplined zero w = tt
  set_words-Disciplined (suc left) w = λ ptr. Disciplined-if own (ptr == 0) _ _ tt λ desired. (
    tt,
    λ r.
        Disciplined-cases own r _ _ (λ u. set_words-Disciplined left (w + 1))
          (λ actual. set_word_failed-Disciplined w _ (set_words-Disciplined left (w + 1))),
  )

  pub set-Disciplined : (num_words : ℕ) → Disciplined own (set num_words i sequence t)
  unfolding set
  set-Disciplined num_words = set_words-Disciplined num_words 0

module _ (own num_threads num_words i sequence t : ℕ)
    (small : sequence < stage_sequence_limit) where
  pub set_and_transition-Disciplined :
      (handle : Handler Error)
      → IsDisciplinedHandler own (λ j. j ≡ own) handle
      → i ≡ own
      → Disciplined own (set_and_transition num_threads num_words handle i sequence t)
  unfolding set_and_transition after_set
  set_and_transition-Disciplined handle handled mine =
      Disciplined->>= own (set num_words i sequence t) _
        (set-Disciplined own i sequence t num_words) after
    where
      after :
          (r : Result (Unit {0}) SetError)
          → Disciplined own (after_set num_threads num_words handle i sequence t r)
      after (ok _) =
          Disciplined->>= own (prepare_for_next_operation num_threads i sequence) _
            (prepare_for_next_operation-Disciplined own num_threads i sequence mine)
            (λ u. Disciplined-ret own _)
      after (err (stage_and_sequence_verification_error w error)) =
          verification_error-Disciplined own num_words (λ j. j ≡ own) i sequence t mine small handle
            handled setting error
      after (err (target_address_was_not_valid_pointer w a)) = Disciplined-ret own _

  pub help_set_and_transition-Disciplined :
      (handle : Handler HelpError)
      → IsDisciplinedHandler own (λ j. Unit {0}) handle
      → Disciplined own (help_set_and_transition num_threads num_words handle i sequence t)
  unfolding help_set_and_transition after_help_set Follows
  help_set_and_transition-Disciplined handle handled =
      Disciplined->>= own (set num_words i sequence t) _
        (set-Disciplined own i sequence t num_words) after
    where
      after :
          (r : Result (Unit {0}) SetError)
          → Disciplined own (after_help_set num_threads num_words handle i sequence t r)
      after (ok _) =
          help_change_stage_and_transition-Disciplined own num_words (λ j. Unit {0}) i sequence t tt
            small handle handled setting successful (ret (ok tt)) tt (Disciplined-ret own _)
      after (err (stage_and_sequence_verification_error w error)) =
          help_verification_error-Disciplined own num_words (λ j. Unit {0}) i sequence t tt small
            handle handled setting error
      after (err (target_address_was_not_valid_pointer w a)) = Disciplined-ret own _

module _ (own num_threads num_words : ℕ) where
  pub prepared :
      (i sequence : ℕ) (r : Result (Unit {0}) Error)
      → i ≡ own
      → Disciplined own (prepare_for_next_operation num_threads i sequence >>= λ u. ret r)
  prepared i sequence r mine =
      Disciplined->>= own (prepare_for_next_operation num_threads i sequence) _
        (prepare_for_next_operation-Disciplined own num_threads i sequence mine)
        (λ u. Disciplined-ret own _)

  -- The originator's reactions.
  pub handle-IsDisciplinedHandler :
      (fuel : ℕ)
      → IsDisciplinedHandler own
          (λ j. j ≡ own)
          (handle_concurrent_stage_change_and_transition num_threads num_words fuel)
  unfolding handle_concurrent_stage_change_and_transition concurrent_stage_change Disciplined
  handle-IsDisciplinedHandler zero i sequence t current actual mine small = tt
  handle-IsDisciplinedHandler (suc fuel) i sequence t current inactive mine small = tt
  handle-IsDisciplinedHandler (suc fuel) i sequence t current claiming mine small = tt
  handle-IsDisciplinedHandler (suc fuel) i sequence t current setting mine small =
      set_and_transition-Disciplined own num_threads num_words i sequence t small _
        (handle-IsDisciplinedHandler fuel) mine
  handle-IsDisciplinedHandler (suc fuel) i sequence t current _ mine small =
      revert_and_transition-Disciplined own i t (wrapping_sub num_words 1) _
        (prepared i sequence _ mine)

  -- The helper's reactions.
  pub help_handle-IsDisciplinedHandler :
      (fuel : ℕ)
      → IsDisciplinedHandler own
          (λ j. Unit {0})
          (help_handle_concurrent_stage_change_and_transition num_threads num_words fuel)
  unfolding help_handle_concurrent_stage_change_and_transition help_concurrent_stage_change
      Disciplined Follows
  help_handle-IsDisciplinedHandler zero i sequence t current actual may small = tt
  help_handle-IsDisciplinedHandler (suc fuel) i sequence t current inactive may small = tt
  help_handle-IsDisciplinedHandler (suc fuel) i sequence t current claiming may small = tt
  help_handle-IsDisciplinedHandler (suc fuel) i sequence t current setting may small =
      help_set_and_transition-Disciplined own num_threads num_words i sequence t small _
        (help_handle-IsDisciplinedHandler fuel)
  help_handle-IsDisciplinedHandler (suc fuel) i sequence t current reverting may small =
      help_revert_and_transition-Disciplined own i t (wrapping_sub num_words 1) _ (
        help_change_stage_and_transition-Disciplined own num_words (λ j. Unit {0}) i sequence t tt
          small _ (help_handle-IsDisciplinedHandler fuel) reverting reverted (ret (ok tt)) tt tt)
  help_handle-IsDisciplinedHandler (suc fuel) i sequence t current _ may small =
      help_revert_and_transition-Disciplined own i t (wrapping_sub num_words 1) _ tt
