-- ===== src/Solo/Verdict.antt =====
-- The end of `'cas_loop` for a word whose value is not the expected one: what its top bits decide.
use kcas.Base.{ℕ, ◌+◌, ◌^◌, ◌≤◌, ◌<◌, Result, err, ◌≡◌, ◌≢◌, arith}
use kcas.Word.{usize_max, ◌>>>◌}
use kcas.Types.{
  get_bit_length_of_num_threads, extract_thread_from_thread_and_sequence,
  construct_thread_and_sequence,
}
use kcas.Types.Marker.{
  num_sequence_bits, sequence_limit, IsApplicationValue, extract_thread-application,
  extract_thread-construct, kernel_top_bits-gt,
}
use kcas.Sync.{Prog, ret}
use kcas.Kcas.{HelpError}
use kcas.Kcas.Claim.{
  ClaimError, value_was_not_expected_value, top_bits_of_value_were_illegal, examine_top_bits,
}

module _ (num_threads : ℕ) (help_thread : ℕ → Prog (Result (Unit {0}) HelpError))
    (i sequence marker : ℕ) (retry : Prog (Result (Unit {0}) ClaimError)) (w ptr value : ℕ) where
  -- An application's value ends the claim: it was not the expected value.
  pub examine-application :
      num_threads + 1 < 2 ^ 64
      → IsApplicationValue num_threads value
      → examine_top_bits num_threads help_thread i sequence marker retry w ptr value
        ≡ ret (err (value_was_not_expected_value w ptr value))
  unfolding examine_top_bits
  examine-application fits h = ground (arith, extract_thread-application num_threads value fits h)

  -- Top bits that are no identifier in use, and not all 1, are refused.
  pub examine-illegal :
      num_threads < extract_thread_from_thread_and_sequence num_threads value
      → extract_thread_from_thread_and_sequence num_threads value
        < usize_max >>> num_sequence_bits num_threads
      → examine_top_bits num_threads help_thread i sequence marker retry w ptr value
        ≡ ret (
            err (
              top_bits_of_value_were_illegal w ptr value
                (get_bit_length_of_num_threads num_threads)))
  unfolding examine_top_bits
  examine-illegal above below = ground arith

-- An application's value is not the marker of any operation.
pub application-ne-marker :
    (num_threads thread_id sequence value : ℕ)
    → num_threads + 1 < 2 ^ 64
    → 1 ≤ thread_id
    → thread_id ≤ num_threads
    → sequence < sequence_limit num_threads
    → IsApplicationValue num_threads value
    → value ≢ construct_thread_and_sequence num_threads thread_id sequence
application-ne-marker num_threads thread_id sequence value fits positive below small h same =
    let top = extract_thread-construct num_threads fits thread_id sequence below small in
    ground (
      arith,
      top,
      extract_thread-application num_threads value fits h,
      kernel_top_bits-gt num_threads fits,
    )
