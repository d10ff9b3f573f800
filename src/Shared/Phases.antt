-- ===== src/Shared/Phases.antt =====
-- The phases of an operation keep to the discipline.
use kcas.Base.{ℕ, zero, suc, ◌<◌, Result, refl, not, ◌==◌}
use kcas.Word.{wrapping_sub}
use kcas.Err.{Error}
use kcas.Stage.{Stage}
use kcas.Types.{extract_stage_from_stage_and_sequence, extract_sequence_from_stage_and_sequence}
use kcas.Types.StageAndSequence.{stage_sequence_limit}
use kcas.Sync.{Prog, ◌>>=◌}
use kcas.Kcas.{HelpError}
use kcas.Kcas.Revert.{revert_words, revert, revert_and_transition, help_revert_and_transition}
use kcas.Kcas.StageChange.{
  StageAndSequenceVerificationError, stage_changed, sequence_changed, stage_out_of_bounds,
  verify_stage_and_sequence_have_not_changed, Handler, stage_change_failed,
  change_stage_and_transition, help_stage_change_failed, help_change_stage_and_transition,
  handle_concurrent_stage_and_sequence_verification_error_and_transition,
  help_handle_concurrent_stage_and_sequence_verification_error_and_transition,
}
use kcas.Shared.Discipline.{
  Follows, MaySwap, Disciplined, Disciplined->>=, Disciplined-if, Disciplined-ret,
  Disciplined-cases,
}

-- The reactions to a concurrent stage change, for operations whose sequence number fits.
abbrev pub IsDisciplinedHandler : (own : ℕ) {E : Type 0} → (ℕ → Type 0) → Handler E → Type 0
IsDisciplinedHandler own allowed handle =
    (thread_index sequence thread_and_sequence : ℕ) (current_stage actual_stage : Stage)
    → allowed thread_index
    → sequence < stage_sequence_limit
    → Disciplined own (handle thread_index sequence thread_and_sequence current_stage actual_stage)

module _ (own : ℕ) (i t : ℕ) where
  pub revert_words-Disciplined : (left : ℕ) → Disciplined own (revert_words i t left)
  unfolding revert_words Disciplined MaySwap ◌>>=◌
  revert_words-Disciplined zero = tt
  revert_words-Disciplined (suc w) =
      λ ptr. Disciplined-if own (ptr == 0) _ _ tt (λ e. (tt, λ r. revert_words-Disciplined w))

  pub revert-Disciplined : (w : ℕ) → Disciplined own (revert i t w)
  unfolding revert Disciplined MaySwap ◌>>=◌
  revert-Disciplined w = revert_words-Disciplined (suc w)

  pub revert_and_transition-Disciplined :
      (w : ℕ) (next : Prog (Result (Unit {0}) Error))
      → Disciplined own next
      → Disciplined own (revert_and_transition i t w next)
  unfolding revert_and_transition
  revert_and_transition-Disciplined w next d =
      Disciplined->>= own (revert i t w) _ (revert-Disciplined w)
        λ r. Disciplined-cases own r _ _ (λ u. d) (λ e. Disciplined-ret own _)

  pub help_revert_and_transition-Disciplined :
      (w : ℕ) (next : Prog (Result (Unit {0}) HelpError))
      → Disciplined own next
      → Disciplined own (help_revert_and_transition i t w next)
  unfolding help_revert_and_transition
  help_revert_and_transition-Disciplined w next d =
      Disciplined->>= own (revert i t w) _ (revert-Disciplined w)
        λ r. Disciplined-cases own r _ _ (λ u. d) (λ e. Disciplined-ret own _)

pub verify-Disciplined :
    (own i : ℕ) (stage : Stage) (sequence : ℕ)
    → Disciplined own (verify_stage_and_sequence_have_not_changed i stage sequence)
unfolding verify_stage_and_sequence_have_not_changed Disciplined ◌>>=◌
verify-Disciplined own i stage sequence = λ v. tt

module _ (own : ℕ) (num_words : ℕ) (allowed : ℕ → Type 0) (i sequence t : ℕ) (may : allowed i)
    (small : sequence < stage_sequence_limit) where
  module _ (handle : Handler Error) (handled : IsDisciplinedHandler own allowed handle)
      (current : Stage) where
    stage_change_failed-Disciplined :
        (actual : ℕ)
        → Disciplined own (stage_change_failed num_words handle i sequence t current actual)
    unfolding stage_change_failed
    stage_change_failed-Disciplined actual =
        Disciplined-cases own (extract_stage_from_stage_and_sequence actual) _ _
          (λ stage.
            Disciplined-if own (not (extract_sequence_from_stage_and_sequence actual == sequence)) _
              _
              (revert_and_transition-Disciplined own i t (wrapping_sub num_words 1) _
                (Disciplined-ret own _))
              (handled i sequence t current stage may small))
          (λ e. Disciplined-ret own _)

    pub change_stage_and_transition-Disciplined :
        (desired : Stage) (next : Prog (Result (Unit {0}) Error))
        → Follows current desired
        → Disciplined own next
        → Disciplined own
            (change_stage_and_transition num_words handle i sequence t current desired next)
    unfolding change_stage_and_transition Disciplined MaySwap ◌>>=◌
    change_stage_and_transition-Disciplined desired next follows d = (
      record {
        before = current;
        after = desired;
        sequence = sequence;
        small = small;
        follows = follows;
        from = refl;
        to = refl;
      },
      λ r. Disciplined-cases own r _ _ (λ u. d) stage_change_failed-Disciplined,
    )

    pub verification_error-Disciplined :
        (error : StageAndSequenceVerificationError)
        → Disciplined own (
            handle_concurrent_stage_and_sequence_verification_error_and_transition num_words handle
              i sequence t current error)
    unfolding handle_concurrent_stage_and_sequence_verification_error_and_transition
    verification_error-Disciplined (stage_changed actual) =
        handled i sequence t current actual may small
    verification_error-Disciplined (sequence_changed actual) = Disciplined-ret own _
    verification_error-Disciplined (stage_out_of_bounds n) = Disciplined-ret own _

  module _ (handle : Handler HelpError) (handled : IsDisciplinedHandler own allowed handle)
      (current : Stage) where
    help_stage_change_failed-Disciplined :
        (actual : ℕ)
        → Disciplined own (help_stage_change_failed num_words handle i sequence t current actual)
    unfolding help_stage_change_failed
    help_stage_change_failed-Disciplined actual =
        Disciplined-cases own (extract_stage_from_stage_and_sequence actual) _ _
          (λ stage.
            Disciplined-if own (not (extract_sequence_from_stage_and_sequence actual == sequence)) _
              _
              (help_revert_and_transition-Disciplined own i t (wrapping_sub num_words 1) _
                (Disciplined-ret own _))
              (handled i sequence t current stage may small))
          (λ e. Disciplined-ret own _)

    pub help_change_stage_and_transition-Disciplined :
        (desired : Stage) (next : Prog (Result (Unit {0}) HelpError))
        → Follows current desired
        → Disciplined own next
        → Disciplined own
            (help_change_stage_and_transition num_words handle i sequence t current desired next)
    unfolding help_change_stage_and_transition Disciplined MaySwap ◌>>=◌
    help_change_stage_and_transition-Disciplined desired next follows d = (
      record {
        before = current;
        after = desired;
        sequence = sequence;
        small = small;
        follows = follows;
        from = refl;
        to = refl;
      },
      λ r. Disciplined-cases own r _ _ (λ u. d) help_stage_change_failed-Disciplined,
    )

    pub help_verification_error-Disciplined :
        (error : StageAndSequenceVerificationError)
        → Disciplined own (
            help_handle_concurrent_stage_and_sequence_verification_error_and_transition num_words
              handle i sequence t current error)
    unfolding help_handle_concurrent_stage_and_sequence_verification_error_and_transition
    help_verification_error-Disciplined (stage_changed actual) =
        handled i sequence t current actual may small
    help_verification_error-Disciplined (sequence_changed actual) =
        help_revert_and_transition-Disciplined own i t (wrapping_sub num_words 1) _
          (Disciplined-ret own _)
    help_verification_error-Disciplined (stage_out_of_bounds n) = Disciplined-ret own _
