-- ===== src/Kcas/Claim.antt =====
-- src/kcas/claim.rs: swapping the expected values for markers.
use kcas.Base.{ℕ, zero, suc, ◌+◌, ◌-◌, ◌||◌, Result, ok, err, ◌==◌, leb, if◌then◌else◌}
use kcas.Word.{usize_bits, usize_max, ◌>>>◌}
use kcas.Stage.{Stage}
use kcas.Err.{FatalError, Error}
use kcas.Types.{
  WordNum, SequenceNum, ThreadIndex, ThreadAndSequence, get_bit_length_of_num_threads,
  extract_thread_from_thread_and_sequence,
}
use kcas.Sync.{
  Location, Prog, ret, out_of_fuel, ◌>>=◌, ◌>>◌, atomic_load, atomic_compare_exchange_weak,
}
use kcas.Kcas.{HelpError, prepare_for_next_operation}
use kcas.Kcas.Revert.{revert_and_transition, help_revert_and_transition}
use kcas.Kcas.StageChange.{
  StageAndSequenceVerificationError, verify_stage_and_sequence_have_not_changed, Handler,
  change_stage_and_transition, help_change_stage_and_transition,
  handle_concurrent_stage_and_sequence_verification_error_and_transition,
  help_handle_concurrent_stage_and_sequence_verification_error_and_transition,
}
use kcas.Kcas.Set.{set_and_transition, help_set_and_transition}

pub data ClaimError : Type 0 where
  stage_and_sequence_verification_error :
      (failed_word_num : WordNum) (error : StageAndSequenceVerificationError) → ClaimError
  value_was_not_expected_value : (word_num target_address actual_value : ℕ) → ClaimError
  target_address_was_not_valid_pointer : (word_num target_address : ℕ) → ClaimError
  fatal_error_while_helping : FatalError → ClaimError
  top_bits_of_value_were_illegal :
      (word_num target_address value num_reserved_bits : ℕ) → ClaimError

-- The result of helping decides between another round of `'cas_loop` and an error.
unfoldable pub after_help :
    (retry : Prog (Result (Unit {0}) ClaimError))
    → Result (Unit {0}) HelpError
    → Prog (Result (Unit {0}) ClaimError)
after_help retry (ok _) = retry
after_help retry (err (HelpError.sequence_changed_while_helping _ _ _)) = retry
after_help retry (err (HelpError.helpee_stage_is_already_terminal _ _)) = retry
after_help retry (err (HelpError.fatal fatal_error)) =
    ret (err (fatal_error_while_helping fatal_error))

-- `help_thread` of src/kcas/mod.rs calls back into this module: it is the argument `help_thread`.
module _ (num_threads : ℕ) (help_thread : ThreadAndSequence → Prog (Result (Unit {0}) HelpError))
    (thread_index : ThreadIndex) (sequence : SequenceNum)
    (thread_and_sequence : ThreadAndSequence) where
  -- The last part of the body of `'cas_loop`: what the top bits of the value say.
  unfoldable pub examine_top_bits :
      (retry : Prog (Result (Unit {0}) ClaimError))
      → (word_num target_address_ptr actual_value : ℕ) → Prog (Result (Unit {0}) ClaimError)
  unfolding after_help
  examine_top_bits retry word_num target_address_ptr actual_value =
      let bit_length_of_num_threads = get_bit_length_of_num_threads num_threads in
      let num_sequence_bits = usize_bits - bit_length_of_num_threads in
      let top_bits_if_value_is_kernel_pointer = usize_max >>> num_sequence_bits in
      let top_bits = extract_thread_from_thread_and_sequence num_threads actual_value in
      if (top_bits == 0) || (top_bits == top_bits_if_value_is_kernel_pointer)
      then ret (err (value_was_not_expected_value word_num target_address_ptr actual_value))
      else if leb top_bits num_threads
      then (help_thread actual_value >>= after_help retry)
      else ret (
          err (
            top_bits_of_value_were_illegal word_num target_address_ptr actual_value
              bit_length_of_num_threads))

  -- The body of `'cas_loop`, after a compare-exchange that failed with `actual_value`.
  unfoldable pub claim_word_failed :
      (retry : Prog (Result (Unit {0}) ClaimError))
      → (word_num target_address_ptr expected_value actual_value : ℕ)
      → Prog (Result (Unit {0}) ClaimError)
  unfolding examine_top_bits
  claim_word_failed retry word_num target_address_ptr expected_value actual_value =
      if actual_value == expected_value
      then retry
      else if actual_value == thread_and_sequence
      then ret (ok tt)
      else (do
        verification ←
            verify_stage_and_sequence_have_not_changed thread_index Stage.claiming sequence
        elim verification [
          | err error ↦ ret (err (stage_and_sequence_verification_error word_num error))
          | ok _ ↦ examine_top_bits retry word_num target_address_ptr actual_value
        ])

  -- `'cas_loop`, with a bound on the number of rounds.
  unfoldable pub cas_loop :
      (rounds : ℕ)
      → (word_num target_address_ptr expected_value : ℕ) → Prog (Result (Unit {0}) ClaimError)
  unfolding claim_word_failed
  cas_loop zero word_num target_address_ptr expected_value = out_of_fuel
  cas_loop (suc rounds) word_num target_address_ptr expected_value = do
    result ←
        atomic_compare_exchange_weak (Location.target target_address_ptr) expected_value
          thread_and_sequence
    elim result [
      | ok _ ↦ ret (ok tt)
      | err actual_value ↦
          claim_word_failed (cas_loop rounds word_num target_address_ptr expected_value) word_num
            target_address_ptr expected_value actual_value
    ]

  -- `for word_num in 0..NUM_WORDS`, from `word_num` on.
  unfoldable pub claim_words :
      (rounds left : ℕ) → (word_num : WordNum) → Prog (Result (Unit {0}) ClaimError)
  unfolding cas_loop
  claim_words rounds zero word_num = ret (ok tt)
  claim_words rounds (suc left) word_num = do
    target_address_ptr ← atomic_load (Location.target_address thread_index word_num)
    if target_address_ptr == 0
        then ret (err (target_address_was_not_valid_pointer word_num target_address_ptr))
        else do
          expected_value ← atomic_load (Location.expected_value thread_index word_num)
          claimed ← cas_loop rounds word_num target_address_ptr expected_value
          elim claimed [
            | ok _ ↦ claim_words rounds left (word_num + 1)
            | err claim_error ↦ ret (err claim_error)
          ]

-- `claim`: all words, each with at most `rounds` rounds.
unfoldable pub claim :
    (num_threads num_words : ℕ)
    → (help_thread : ThreadAndSequence → Prog (Result (Unit {0}) HelpError)) → (rounds : ℕ)
    → ThreadIndex
    → SequenceNum
    → ThreadAndSequence
    → Prog (Result (Unit {0}) ClaimError)
unfolding claim_words
claim num_threads num_words help_thread rounds thread_index sequence thread_and_sequence =
    claim_words num_threads help_thread thread_index sequence thread_and_sequence rounds num_words 0

module _ (num_threads num_words : ℕ) where
  -- What follows the call of `claim` in `claim_and_transition`.
  unfoldable pub after_claim :
      (handle : Handler Error)
      → ThreadIndex
      → SequenceNum
      → ThreadAndSequence
      → Result (Unit {0}) ClaimError
      → Prog (Result (Unit {0}) Error)
  after_claim handle thread_index sequence thread_and_sequence (ok _) =
      change_stage_and_transition num_words handle thread_index sequence thread_and_sequence
        Stage.claiming Stage.setting
        (set_and_transition num_threads num_words handle thread_index sequence thread_and_sequence)
  after_claim handle thread_index sequence thread_and_sequence
        (err (stage_and_sequence_verification_error failed_word_num error)) =
      handle_concurrent_stage_and_sequence_verification_error_and_transition num_words handle
        thread_index sequence thread_and_sequence Stage.claiming error
  after_claim handle thread_index sequence thread_and_sequence
        (err (value_was_not_expected_value word_num target_address actual_value)) =
      change_stage_and_transition num_words handle thread_index sequence thread_and_sequence
        Stage.claiming Stage.reverting
        (revert_and_transition thread_index thread_and_sequence word_num (do
          prepare_for_next_operation num_threads thread_index sequence
          ret (err Error.value_was_not_expected_value)))
  after_claim handle thread_index sequence thread_and_sequence
        (err (target_address_was_not_valid_pointer word_num target_address)) =
      ret (
        err (Error.fatal (FatalError.target_address_was_not_valid_pointer word_num target_address)))
  after_claim handle thread_index sequence thread_and_sequence
        (err (fatal_error_while_helping fatal_error)) =
      ret (err (Error.fatal fatal_error))
  after_claim handle thread_index sequence thread_and_sequence
        (err (top_bits_of_value_were_illegal word_num target_address value num_reserved_bits)) =
      ret (
        err (
          Error.fatal (
            FatalError.top_bits_of_value_were_illegal word_num target_address value
              num_reserved_bits)))

  unfoldable pub claim_and_transition :
      (help_thread : ThreadAndSequence → Prog (Result (Unit {0}) HelpError))
      → (handle : Handler Error) → (rounds : ℕ) → ThreadIndex
      → SequenceNum
      → ThreadAndSequence
      → Prog (Result (Unit {0}) Error)
  unfolding after_claim
  claim_and_transition help_thread handle rounds thread_index sequence thread_and_sequence = do
    claim_result ←
        claim num_threads num_words help_thread rounds thread_index sequence thread_and_sequence
    after_claim handle thread_index sequence thread_and_sequence claim_result

  -- What follows the call of `claim` in `help_claim_and_transition`.
  unfoldable pub after_help_claim :
      (handle : Handler HelpError)
      → ThreadIndex
      → SequenceNum
      → ThreadAndSequence
      → Result (Unit {0}) ClaimError
      → Prog (Result (Unit {0}) HelpError)
  after_help_claim handle thread_index sequence thread_and_sequence (ok _) =
      help_change_stage_and_transition num_words handle thread_index sequence thread_and_sequence
        Stage.claiming Stage.setting
        (help_set_and_transition num_threads num_words handle thread_index sequence
          thread_and_sequence)
  after_help_claim handle thread_index sequence thread_and_sequence
        (err (stage_and_sequence_verification_error failed_word_num error)) =
      help_handle_concurrent_stage_and_sequence_verification_error_and_transition num_words handle
        thread_index sequence thread_and_sequence Stage.claiming error
  after_help_claim handle thread_index sequence thread_and_sequence
        (err (value_was_not_expected_value word_num target_address actual_value)) =
      help_change_stage_and_transition num_words handle thread_index sequence thread_and_sequence
        Stage.claiming Stage.reverting
        (help_revert_and_transition thread_index thread_and_sequence word_num (
          help_change_stage_and_transition num_words handle thread_index sequence
            thread_and_sequence Stage.reverting Stage.reverted (ret (ok tt))))
  after_help_claim handle thread_index sequence thread_and_sequence
        (err (target_address_was_not_valid_pointer word_num target_address)) =
      ret (
        err (
          HelpError.fatal
            (FatalError.target_address_was_not_valid_pointer word_num target_address)))
  after_help_claim handle thread_index sequence thread_and_sequence
        (err (fatal_error_while_helping fatal_error)) =
      ret (err (HelpError.fatal fatal_error))
  after_help_claim handle thread_index sequence thread_and_sequence
        (err (top_bits_of_value_were_illegal word_num target_address value num_reserved_bits)) =
      ret (
        err (
          HelpError.fatal (
            FatalError.top_bits_of_value_were_illegal word_num target_address value
              num_reserved_bits)))

  unfoldable pub help_claim_and_transition :
      (help_thread : ThreadAndSequence → Prog (Result (Unit {0}) HelpError))
      → (handle : Handler HelpError) → (rounds : ℕ) → ThreadIndex
      → SequenceNum
      → ThreadAndSequence
      → Prog (Result (Unit {0}) HelpError)
  unfolding after_help_claim
  help_claim_and_transition help_thread handle rounds thread_index sequence thread_and_sequence = do
    claim_result ←
        claim num_threads num_words help_thread rounds thread_index sequence thread_and_sequence
    after_help_claim handle thread_index sequence thread_and_sequence claim_result
