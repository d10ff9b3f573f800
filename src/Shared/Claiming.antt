-- ===== src/Shared/Claiming.antt =====
-- The claiming phase keeps to the discipline, if the help that it gives does.
use kcas.Base.{ℕ, zero, suc, ◌+◌, ◌-◌, ◌<◌, ◌||◌, Result, ok, err, ◌≡◌, ◌==◌, leb}
use kcas.Word.{usize_bits, usize_max, ◌>>>◌}
use kcas.Err.{Error}
use kcas.Stage.{claiming, setting, reverting, reverted}
use kcas.Types.{extract_thread_from_thread_and_sequence, get_bit_length_of_num_threads}
use kcas.Types.StageAndSequence.{stage_sequence_limit}
use kcas.Sync.{Prog, ◌>>=◌}
use kcas.Kcas.{HelpError}
use kcas.Kcas.StageChange.{Handler, verify_stage_and_sequence_have_not_changed}
use kcas.Kcas.Claim.{
  ClaimError, stage_and_sequence_verification_error, value_was_not_expected_value,
  target_address_was_not_valid_pointer, fatal_error_while_helping, top_bits_of_value_were_illegal,
  after_help, examine_top_bits, claim_word_failed, cas_loop, claim_words, claim, after_claim,
  claim_and_transition, after_help_claim, help_claim_and_transition,
}
use kcas.Shared.Discipline.{
  Follows, MaySwap, Disciplined, Disciplined->>=, Disciplined-if, Disciplined-ret,
  Disciplined-cases,
}
use kcas.Shared.Phases.{
  IsDisciplinedHandler, revert_and_transition-Disciplined, help_revert_and_transition-Disciplined,
  verify-Disciplined, verification_error-Disciplined, change_stage_and_transition-Disciplined,
  help_change_stage_and_transition-Disciplined, help_verification_error-Disciplined,
}
use kcas.Shared.Setting.{
  prepared, set_and_transition-Disciplined, help_set_and_transition-Disciplined,
}

module _ (own num_threads : ℕ) (help_thread : ℕ → Prog (Result (Unit {0}) HelpError))
    (helps : (encountered : ℕ) → Disciplined own (help_thread encountered)) (i sequence t : ℕ) where
  module _ (retry : Prog (Result (Unit {0}) ClaimError)) (again : Disciplined own retry)
      (w ptr : ℕ) where
    after_help-Disciplined :
        (r : Result (Unit {0}) HelpError) → Disciplined own (after_help retry r)
    unfolding after_help
    after_help-Disciplined (ok _) = again
    after_help-Disciplined (err (HelpError.sequence_changed_while_helping _ _ _)) = again
    after_help-Disciplined (err (HelpError.helpee_stage_is_already_terminal _ _)) = again
    after_help-Disciplined (err (HelpError.fatal _)) = Disciplined-ret own _

    examine_top_bits-Disciplined :
        (actual : ℕ)
        → Disciplined own (examine_top_bits num_threads help_thread i sequence t retry w ptr actual)
    unfolding examine_top_bits
    examine_top_bits-Disciplined actual =
        let top_bits = extract_thread_from_thread_and_sequence num_threads actual in
        let kernel = usize_max >>> (usize_bits - get_bit_length_of_num_threads num_threads) in
        Disciplined-if own ((top_bits == 0) || (top_bits == kernel)) _ _ (Disciplined-ret own _) (
          Disciplined-if own (leb top_bits num_threads) _ _
            (Disciplined->>= own (help_thread actual) _ (helps actual) after_help-Disciplined)
            (Disciplined-ret own _))

    claim_word_failed-Disciplined :
        (expected actual : ℕ)
        → Disciplined own
            (claim_word_failed num_threads help_thread i sequence t retry w ptr expected actual)
    unfolding claim_word_failed
    claim_word_failed-Disciplined expected actual =
        Disciplined-if own (actual == expected) _ _ again (
          Disciplined-if own (actual == t) _ _ (Disciplined-ret own _) (
            Disciplined->>= own (verify_stage_and_sequence_have_not_changed i claiming sequence) _
              (verify-Disciplined own i claiming sequence)
              λ r.
                Disciplined-cases own r _ _ (λ u. examine_top_bits-Disciplined actual)
                  (λ e. Disciplined-ret own _)))

  cas_loop-Disciplined :
      (rounds w ptr expected : ℕ)
      → Disciplined own (cas_loop num_threads help_thread i sequence t rounds w ptr expected)
  unfolding cas_loop Disciplined MaySwap ◌>>=◌
  cas_loop-Disciplined zero w ptr expected = tt
  cas_loop-Disciplined (suc rounds) w ptr expected = (
    tt,
    λ r.
        Disciplined-cases own r _ _ (λ u. tt)
          (claim_word_failed-Disciplined _ (cas_loop-Disciplined rounds w ptr expected) w ptr
            expected),
  )

  claim_words-Disciplined :
      (rounds left w : ℕ)
      → Disciplined own (claim_words num_threads help_thread i sequence t rounds left w)
  unfolding claim_words Disciplined ◌>>=◌
  claim_words-Disciplined rounds zero w = tt
  claim_words-Disciplined rounds (suc left) w = λ ptr.
      Disciplined-if own (ptr == 0) _ _ tt λ expected.
        Disciplined->>= own (cas_loop num_threads help_thread i sequence t rounds w ptr expected) _
          (cas_loop-Disciplined rounds w ptr expected)
          λ r.
            Disciplined-cases own r _ _ (λ u. claim_words-Disciplined rounds left (w + 1)) (λ e. tt)

  pub claim-Disciplined :
      (num_words rounds : ℕ)
      → Disciplined own (claim num_threads num_words help_thread rounds i sequence t)
  unfolding claim
  claim-Disciplined num_words rounds = claim_words-Disciplined rounds num_words 0

module _ (own num_threads num_words : ℕ) (help_thread : ℕ → Prog (Result (Unit {0}) HelpError))
    (helps : (encountered : ℕ) → Disciplined own (help_thread encountered))
    (rounds i sequence t : ℕ) (small : sequence < stage_sequence_limit) where
  pub claim_and_transition-Disciplined :
      (handle : Handler Error)
      → IsDisciplinedHandler own (λ j. j ≡ own) handle
      → i ≡ own
      → Disciplined own
          (claim_and_transition num_threads num_words help_thread handle rounds i sequence t)
  unfolding claim_and_transition after_claim Follows
  claim_and_transition-Disciplined handle handled mine =
      Disciplined->>= own (claim num_threads num_words help_thread rounds i sequence t) _
        (claim-Disciplined own num_threads help_thread helps i sequence t num_words rounds) after
    where
      after :
          (r : Result (Unit {0}) ClaimError)
          → Disciplined own (after_claim num_threads num_words handle i sequence t r)
      after (ok _) =
          change_stage_and_transition-Disciplined own num_words (λ j. j ≡ own) i sequence t mine
            small handle handled claiming setting _ tt
            (set_and_transition-Disciplined own num_threads num_words i sequence t small handle
              handled mine)
      after (err (stage_and_sequence_verification_error w error)) =
          verification_error-Disciplined own num_words (λ j. j ≡ own) i sequence t mine small handle
            handled claiming error
      after (err (value_was_not_expected_value w a v)) =
          change_stage_and_transition-Disciplined own num_words (λ j. j ≡ own) i sequence t mine
            small handle handled claiming reverting _ tt
            (revert_and_transition-Disciplined own i t w _
              (prepared own num_threads num_words i sequence _ mine))
      after (err (target_address_was_not_valid_pointer w a)) = Disciplined-ret own _
      after (err (fatal_error_while_helping e)) = Disciplined-ret own _
      after (err (top_bits_of_value_were_illegal w a v b)) = Disciplined-ret own _

  pub help_claim_and_transition-Disciplined :
      (handle : Handler HelpError)
      → IsDisciplinedHandler own (λ j. Unit {0}) handle
      → Disciplined own
          (help_claim_and_transition num_threads num_words help_thread handle rounds i sequence t)
  unfolding help_claim_and_transition after_help_claim Follows
  help_claim_and_transition-Disciplined handle handled =
      Disciplined->>= own (claim num_threads num_words help_thread rounds i sequence t) _
        (claim-Disciplined own num_threads help_thread helps i sequence t num_words rounds) after
    where
      after :
          (r : Result (Unit {0}) ClaimError)
          → Disciplined own (after_help_claim num_threads num_words handle i sequence t r)
      after (ok _) =
          help_change_stage_and_transition-Disciplined own num_words (λ j. Unit {0}) i sequence t tt
            small handle handled claiming setting _ tt
            (help_set_and_transition-Disciplined own num_threads num_words i sequence t small handle
              handled)
      after (err (stage_and_sequence_verification_error w error)) =
          help_verification_error-Disciplined own num_words (λ j. Unit {0}) i sequence t tt small
            handle handled claiming error
      after (err (value_was_not_expected_value w a v)) =
          help_change_stage_and_transition-Disciplined own num_words (λ j. Unit {0}) i sequence t tt
            small handle handled claiming reverting _ tt
            (help_revert_and_transition-Disciplined own i t w _ (
              help_change_stage_and_transition-Disciplined own num_words (λ j. Unit {0}) i sequence
                t tt small handle handled reverting reverted _ tt (Disciplined-ret own _)))
      after (err (target_address_was_not_valid_pointer w a)) = Disciplined-ret own _
      after (err (fatal_error_while_helping e)) = Disciplined-ret own _
      after (err (top_bits_of_value_were_illegal w a v b)) = Disciplined-ret own _
