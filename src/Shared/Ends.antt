-- ===== src/Shared/Ends.antt =====
-- After its claim a thread comes to the end of its operation in a bounded number of accesses.
use kcas.Base.{
  ℕ, suc, ◌+◌, ◌*◌, ◌^◌, ◌≤◌, ◌<◌, not, Result, ok, err, ◌≢◌, refl, arith, ◌==◌, if◌then◌else◌,
}
use kcas.Word.{wrapping_sub}
use kcas.Err.{Error, FatalError, fatal_from_stage_out_of_bounds}
use kcas.Stage.{
  Stage, inactive, claiming, setting, reverting, successful, reverted, StageOutOfBoundsError,
}
use kcas.Types.{
  extract_stage_from_stage_and_sequence, extract_sequence_from_stage_and_sequence,
  convert_thread_index_to_thread_id,
}
use kcas.Sync.{Prog, ret, ◌>>=◌}
use kcas.Kcas.{prepare_for_next_operation}
use kcas.Kcas.Revert.{RevertError, fatal_from_revert, revert_words, revert, revert_and_transition}
use kcas.Kcas.StageChange.{
  stage_changed, sequence_changed, stage_out_of_bounds, Handler, stage_change_failed,
  change_stage_and_transition,
  handle_concurrent_stage_and_sequence_verification_error_and_transition,
}
use kcas.Kcas.Set.{SetError, set_words, set, after_set, set_and_transition}
use kcas.Kcas.Concurrent.{concurrent_stage_change, handle_concurrent_stage_change_and_transition}
use kcas.Kcas.Claim.{
  ClaimError, stage_and_sequence_verification_error, value_was_not_expected_value,
  target_address_was_not_valid_pointer, fatal_error_while_helping, top_bits_of_value_were_illegal,
  after_claim,
}
use kcas.Shared.Bounded.{Within, Anything, Within-suc, Within-le, Within->>=, Within-if}
use kcas.Shared.Loops.{SetElsewhere, revert_words-Within, set_words-Within}

-- An error of `claim` names one of the words.
abbrev pub IsClaimResult : (num_words : ℕ) → Result (Unit {0}) ClaimError → Type 0
IsClaimResult num_words (err (value_was_not_expected_value w a v)) = w < num_words
IsClaimResult num_words _ = Unit {0}

module _ (num_threads num_words : ℕ) (some_words : 1 ≤ num_words) (words_fit : num_words < 2 ^ 64)
    (i sequence marker : ℕ) where
  last_word : wrapping_sub num_words 1 < num_words
  last_word = omega (arith, some_words, words_fit)

  revert_and_transition-Within :
      (w n : ℕ) (next : Prog (Result (Unit {0}) Error))
      → w < num_words
      → Within n Anything next
      → Within (n + 3 * num_words) Anything (revert_and_transition i marker w next)
  unfolding revert_and_transition revert Within
  revert_and_transition-Within w n next below h =
      Within->>= Anything Anything (3 * num_words) n (revert_words i marker (suc w)) _
        (Within-le Anything (revert_words i marker (suc w)) (omega arith)
          (revert_words-Within i sequence marker (suc w)))
        go_on
    where
      go_on :
          (r : Result (Unit {0}) RevertError)
          → Anything r
          → Within n Anything (elim r [
            | ok _ ↦ next
            | err revert_error ↦ ret (err (Error.fatal (fatal_from_revert revert_error)))
          ])
      go_on (ok u) any = h
      go_on (err e) any = tt

  prepare-Within :
      (r : Result (Unit {0}) Error)
      → Within 1 Anything (prepare_for_next_operation num_threads i sequence >>= λ u. ret r)
  unfolding prepare_for_next_operation Within ◌>>=◌
  prepare-Within r = tt

  prepare-Within_more :
      (r : Result (Unit {0}) Error)
      → Within
          (1 + 3 * num_words)
          Anything
          (prepare_for_next_operation num_threads i sequence >>= λ u. ret r)
  prepare-Within_more r =
      Within-le Anything (prepare_for_next_operation num_threads i sequence >>= λ u. ret r)
        (omega arith) (prepare-Within r)

  -- A reaction to a stage at which there is nothing left to set.
  decided-Within :
      (fuel : ℕ) (current actual : Stage)
      → actual ≢ setting
      → Within (1 + 3 * num_words) Anything (
          handle_concurrent_stage_change_and_transition num_threads num_words
            (suc fuel)
            i
            sequence
            marker
            current
            actual)
  unfolding handle_concurrent_stage_change_and_transition concurrent_stage_change Within
  decided-Within fuel current inactive other = tt
  decided-Within fuel current claiming other = tt
  decided-Within fuel current setting other = absurd (other refl)
  decided-Within fuel current reverting other =
      revert_and_transition-Within (wrapping_sub num_words 1) 1 _ last_word (prepare-Within _)
  decided-Within fuel current successful other =
      revert_and_transition-Within (wrapping_sub num_words 1) 1 _ last_word (prepare-Within _)
  decided-Within fuel current reverted other =
      revert_and_transition-Within (wrapping_sub num_words 1) 1 _ last_word (prepare-Within _)

  decided_more :
      (fuel : ℕ) (current actual : Stage)
      → actual ≢ setting
      → Within (1 + 3 * num_words + 4 * num_words) Anything (
          handle_concurrent_stage_change_and_transition num_threads num_words
            (suc fuel)
            i
            sequence
            marker
            current
            actual)
  decided_more fuel current actual other =
      Within-le Anything
        (handle_concurrent_stage_change_and_transition num_threads num_words (suc fuel) i sequence
          marker current actual)
        (omega arith) (decided-Within fuel current actual other)

  set_and_transition-Within :
      (fuel : ℕ)
      → Within (1 + 3 * num_words + 4 * num_words) Anything (
          set_and_transition num_threads num_words
            (handle_concurrent_stage_change_and_transition num_threads num_words (suc fuel))
            i
            sequence
            marker)
  unfolding set_and_transition after_set set Within
      handle_concurrent_stage_and_sequence_verification_error_and_transition
  set_and_transition-Within fuel =
      Within->>= SetElsewhere Anything (4 * num_words) (1 + 3 * num_words)
        (set_words i sequence marker num_words 0) _ (set_words-Within i sequence marker num_words 0)
        go_on
    where
      go_on :
          (r : Result (Unit {0}) SetError)
          → SetElsewhere r
          → Within (1 + 3 * num_words) Anything (
              after_set num_threads num_words
                (handle_concurrent_stage_change_and_transition num_threads num_words (suc fuel))
                i
                sequence
                marker
                r)
      go_on (ok u) seen = prepare-Within_more (ok tt)
      go_on (err (SetError.stage_and_sequence_verification_error w (stage_changed s))) seen =
          decided-Within fuel setting s seen
      go_on (err (SetError.stage_and_sequence_verification_error w (sequence_changed n))) seen = tt
      go_on (err (SetError.stage_and_sequence_verification_error w (stage_out_of_bounds n))) seen =
          tt
      go_on (err (SetError.target_address_was_not_valid_pointer w a)) seen = tt

  -- Any reaction: two of them nested at most.
  handle-Within :
      (fuel : ℕ) (current actual : Stage)
      → Within (1 + 3 * num_words + 4 * num_words) Anything (
          handle_concurrent_stage_change_and_transition num_threads num_words
            (suc (suc fuel))
            i
            sequence
            marker
            current
            actual)
  unfolding handle_concurrent_stage_change_and_transition concurrent_stage_change Within
  handle-Within fuel current setting = set_and_transition-Within fuel
  handle-Within fuel current inactive = tt
  handle-Within fuel current claiming = tt
  handle-Within fuel current reverting =
      decided_more (suc fuel) current reverting (λ e. ground (arith, e))
  handle-Within fuel current successful =
      decided_more (suc fuel) current successful (λ e. ground (arith, e))
  handle-Within fuel current reverted =
      decided_more (suc fuel) current reverted (λ e. ground (arith, e))

  abbrev reactions : ℕ → Handler Error
  reactions fuel =
      handle_concurrent_stage_change_and_transition num_threads num_words (suc (suc fuel))

  stage_change_failed-Within :
      (fuel actual : ℕ)
      → Within
          (1 + 3 * num_words + 4 * num_words)
          Anything
          (stage_change_failed num_words (reactions fuel) i sequence marker claiming actual)
  unfolding stage_change_failed Within
  stage_change_failed-Within fuel actual = decide (extract_stage_from_stage_and_sequence actual)
    where
      decide :
          (r : Result Stage StageOutOfBoundsError)
          → Within (1 + 3 * num_words + 4 * num_words) Anything (elim r [
            | err e ↦ ret (err (Error.fatal (fatal_from_stage_out_of_bounds e)))
            | ok actual_stage ↦
                if not (extract_sequence_from_stage_and_sequence actual == sequence)
                then revert_and_transition i marker (wrapping_sub num_words 1) (
                    ret (
                      err (
                        Error.fatal (
                          FatalError.sequence_num_changed_by_non_originating_thread
                            (convert_thread_index_to_thread_id i)))))
                else reactions fuel i sequence marker claiming actual_stage
          ])
      decide (err e) = tt
      decide (ok actual_stage) =
          Within-if Anything (1 + 3 * num_words + 4 * num_words)
            (not (extract_sequence_from_stage_and_sequence actual == sequence))
            (revert_and_transition i marker (wrapping_sub num_words 1) (
              ret (
                err (
                  Error.fatal (
                    FatalError.sequence_num_changed_by_non_originating_thread
                      (convert_thread_index_to_thread_id i))))))
            _
            (λ changed.
              Within-le Anything
                (revert_and_transition i marker (wrapping_sub num_words 1) (
                  ret (
                    err (
                      Error.fatal (
                        FatalError.sequence_num_changed_by_non_originating_thread
                          (convert_thread_index_to_thread_id i))))))
                (omega arith)
                (revert_and_transition-Within (wrapping_sub num_words 1) 0 _ last_word tt))
            (λ same. handle-Within fuel claiming actual_stage)

  change-Within :
      (fuel : ℕ) (desired : Stage) (next : Prog (Result (Unit {0}) Error))
      → Within (1 + 3 * num_words + 4 * num_words) Anything next
      → Within (suc (1 + 3 * num_words + 4 * num_words)) Anything (
          change_stage_and_transition num_words
            (reactions fuel)
            i
            sequence
            marker
            claiming
            desired
            next)
  unfolding change_stage_and_transition Within ◌>>=◌
  change-Within fuel desired next h = swapped
    where
      swapped :
          (r : Result ℕ ℕ)
          → Within (1 + 3 * num_words + 4 * num_words) Anything (elim r [
            | ok _ ↦ next
            | err actual ↦
                stage_change_failed num_words (reactions fuel) i sequence marker claiming actual
          ])
      swapped (ok u) = h
      swapped (err actual) = stage_change_failed-Within fuel actual

  -- What follows the claim.
  pub after_claim-Within :
      (fuel : ℕ) (r : Result (Unit {0}) ClaimError)
      → IsClaimResult num_words r
      → Within
          (suc (1 + 3 * num_words + 4 * num_words))
          Anything
          (after_claim num_threads num_words (reactions fuel) i sequence marker r)
  unfolding after_claim Within
      handle_concurrent_stage_and_sequence_verification_error_and_transition
  after_claim-Within fuel (ok u) claimed =
      change-Within fuel setting _ (set_and_transition-Within (suc fuel))
  after_claim-Within fuel (err (stage_and_sequence_verification_error w (stage_changed s)))
        claimed =
      Within-suc Anything (1 + 3 * num_words + 4 * num_words) _ (handle-Within fuel claiming s)
  after_claim-Within fuel (err (stage_and_sequence_verification_error w (sequence_changed n)))
        claimed =
      tt
  after_claim-Within fuel (err (stage_and_sequence_verification_error w (stage_out_of_bounds n)))
        claimed =
      tt
  after_claim-Within fuel (err (value_was_not_expected_value w a v)) below =
      change-Within fuel reverting
        (revert_and_transition i marker w (
          prepare_for_next_operation num_threads i sequence >>= λ u.
          ret (err Error.value_was_not_expected_value)))
        (Within-le Anything
          (revert_and_transition i marker w (
            prepare_for_next_operation num_threads i sequence >>= λ u.
            ret (err Error.value_was_not_expected_value)))
          (omega arith)
          (revert_and_transition-Within w 1 _ below
            (prepare-Within (err Error.value_was_not_expected_value))))
  after_claim-Within fuel (err (target_address_was_not_valid_pointer w a)) claimed = tt
  after_claim-Within fuel (err (fatal_error_while_helping e)) claimed = tt
  after_claim-Within fuel (err (top_bits_of_value_were_illegal w a v b)) claimed = tt
