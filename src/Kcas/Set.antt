-- ===== src/Kcas/Set.antt =====
-- src/kcas/set.rs: swapping the markers for the desired values.
use kcas.Base.{ℕ, zero, suc, ◌+◌, Result, ok, err, ◌==◌, if◌then◌else◌}
use kcas.Stage.{Stage}
use kcas.Err.{FatalError, Error}
use kcas.Types.{WordNum, SequenceNum, ThreadIndex, ThreadAndSequence}
use kcas.Sync.{Location, Prog, ret, ◌>>=◌, ◌>>◌, atomic_load, atomic_compare_exchange}
use kcas.Kcas.{HelpError, prepare_for_next_operation}
use kcas.Kcas.StageChange.{
  StageAndSequenceVerificationError, verify_stage_and_sequence_have_not_changed, Handler,
  help_change_stage_and_transition,
  handle_concurrent_stage_and_sequence_verification_error_and_transition,
  help_handle_concurrent_stage_and_sequence_verification_error_and_transition,
}

pub data SetError : Type 0 where
  stage_and_sequence_verification_error :
      (failed_word_num : WordNum) (error : StageAndSequenceVerificationError) → SetError
  target_address_was_not_valid_pointer : (word_num target_address : ℕ) → SetError

module _ (thread_index : ThreadIndex) (sequence : SequenceNum)
    (thread_and_sequence : ThreadAndSequence) where
  -- The `match` of the loop's body. Both ends of the `Err` branch go on with the next word.
  unfoldable pub set_word_failed :
      (word_num : WordNum)
      → (rest : Prog (Result (Unit {0}) SetError)) → Prog (Result (Unit {0}) SetError)
  set_word_failed word_num rest = do
    verification ← verify_stage_and_sequence_have_not_changed thread_index Stage.setting sequence
    elim verification [
      | err error ↦ ret (err (stage_and_sequence_verification_error word_num error))
      | ok _ ↦ rest
    ]

  -- `for word_num in 0..NUM_WORDS`, from `word_num` on.
  unfoldable pub set_words : (left : ℕ) → (word_num : WordNum) → Prog (Result (Unit {0}) SetError)
  unfolding set_word_failed
  set_words zero word_num = ret (ok tt)
  set_words (suc left) word_num = do
    target_address_ptr ← atomic_load (Location.target_address thread_index word_num)
    if target_address_ptr == 0
        then ret (err (target_address_was_not_valid_pointer word_num target_address_ptr))
        else do
          desired_value ← atomic_load (Location.desired_value thread_index word_num)
          result ←
              atomic_compare_exchange (Location.target target_address_ptr) thread_and_sequence
                desired_value
          elim result [
            | ok _ ↦ set_words left (word_num + 1)
            | err actual_value ↦ set_word_failed word_num (set_words left (word_num + 1))
          ]

unfoldable pub set :
    (num_words : ℕ)
    → ThreadIndex
    → SequenceNum
    → ThreadAndSequence
    → Prog (Result (Unit {0}) SetError)
unfolding set_words
set num_words thread_index sequence thread_and_sequence =
    set_words thread_index sequence thread_and_sequence num_words 0

module _ (num_threads num_words : ℕ) where
  -- What follows the call of `set` in `set_and_transition`.
  unfoldable pub after_set :
      (handle : Handler Error)
      → ThreadIndex
      → SequenceNum
      → ThreadAndSequence
      → Result (Unit {0}) SetError
      → Prog (Result (Unit {0}) Error)
  after_set handle thread_index sequence thread_and_sequence (ok _) = do
    prepare_for_next_operation num_threads thread_index sequence
    ret (ok tt)
  after_set handle thread_index sequence thread_and_sequence
        (err (stage_and_sequence_verification_error failed_word_num error)) =
      handle_concurrent_stage_and_sequence_verification_error_and_transition num_words handle
        thread_index sequence thread_and_sequence Stage.setting error
  after_set handle thread_index sequence thread_and_sequence
        (err (target_address_was_not_valid_pointer word_num target_address)) =
      ret (
        err (Error.fatal (FatalError.target_address_was_not_valid_pointer word_num target_address)))

  unfoldable pub set_and_transition :
      (handle : Handler Error)
      → ThreadIndex
      → SequenceNum
      → ThreadAndSequence
      → Prog (Result (Unit {0}) Error)
  unfolding after_set
  set_and_transition handle thread_index sequence thread_and_sequence = do
    set_result ← set num_words thread_index sequence thread_and_sequence
    after_set handle thread_index sequence thread_and_sequence set_result

  -- What follows the call of `set` in `help_set_and_transition`.
  unfoldable pub after_help_set :
      (handle : Handler HelpError)
      → ThreadIndex
      → SequenceNum
      → ThreadAndSequence
      → Result (Unit {0}) SetError
      → Prog (Result (Unit {0}) HelpError)
  after_help_set handle thread_index sequence thread_and_sequence (ok _) =
      help_change_stage_and_transition num_words handle thread_index sequence thread_and_sequence
        Stage.setting Stage.successful (ret (ok tt))
  after_help_set handle thread_index sequence thread_and_sequence
        (err (stage_and_sequence_verification_error failed_word_num error)) =
      help_handle_concurrent_stage_and_sequence_verification_error_and_transition num_words handle
        thread_index sequence thread_and_sequence Stage.setting error
  after_help_set handle thread_index sequence thread_and_sequence
        (err (target_address_was_not_valid_pointer word_num target_address)) =
      ret (
        err (
          HelpError.fatal
            (FatalError.target_address_was_not_valid_pointer word_num target_address)))

  unfoldable pub help_set_and_transition :
      (handle : Handler HelpError)
      → ThreadIndex
      → SequenceNum
      → ThreadAndSequence
      → Prog (Result (Unit {0}) HelpError)
  unfolding after_help_set
  help_set_and_transition handle thread_index sequence thread_and_sequence = do
    set_result ← set num_words thread_index sequence thread_and_sequence
    after_help_set handle thread_index sequence thread_and_sequence set_result
