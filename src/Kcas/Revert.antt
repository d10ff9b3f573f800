-- ===== src/Kcas/Revert.antt =====
-- src/kcas/revert.rs: putting the expected values back in place of the markers.
use kcas.Base.{ℕ, zero, suc, Result, ok, err, ◌==◌, if◌then◌else◌}
use kcas.Err.{FatalError, Error}
use kcas.Types.{WordNum, ThreadIndex, ThreadAndSequence}
use kcas.Sync.{Location, Prog, ret, ◌>>=◌, atomic_load, atomic_compare_exchange}
use kcas.Kcas.{HelpError}

pub data RevertError : Type 0 where
  target_address_was_not_valid_pointer : (word_num target_address : ℕ) → RevertError

-- `for word_num in (0..=starting_word_num).rev()`, with `left` the words that are left: the next
-- one is number `left - 1`.
unfoldable pub revert_words :
    ThreadIndex → ThreadAndSequence → (left : ℕ) → Prog (Result (Unit {0}) RevertError)
revert_words thread_index thread_and_sequence zero = ret (ok tt)
revert_words thread_index thread_and_sequence (suc word_num) = do
  target_address_ptr ← atomic_load (Location.target_address thread_index word_num)
  if target_address_ptr == 0
      then ret (err (target_address_was_not_valid_pointer word_num target_address_ptr))
      else do
        expected_element ← atomic_load (Location.expected_value thread_index word_num)
        result ←
            atomic_compare_exchange (Location.target target_address_ptr) thread_and_sequence
              expected_element
        revert_words thread_index thread_and_sequence word_num

unfoldable pub revert :
    ThreadIndex
    → ThreadAndSequence
    → (starting_word_num : WordNum) → Prog (Result (Unit {0}) RevertError)
unfolding revert_words
revert thread_index thread_and_sequence starting_word_num =
    revert_words thread_index thread_and_sequence (suc starting_word_num)

abbrev pub fatal_from_revert : RevertError → FatalError
fatal_from_revert (target_address_was_not_valid_pointer word_num target_address_ptr) =
    FatalError.target_address_was_not_valid_pointer word_num target_address_ptr

unfoldable pub revert_and_transition :
    ThreadIndex
    → ThreadAndSequence
    → (starting_word_num : WordNum) → (next_function : Prog (Result (Unit {0}) Error))
    → Prog (Result (Unit {0}) Error)
revert_and_transition thread_index thread_and_sequence starting_word_num next_function = do
  result ← revert thread_index thread_and_sequence starting_word_num
  elim result [
    | ok _ ↦ next_function
    | err revert_error ↦ ret (err (Error.fatal (fatal_from_revert revert_error)))
  ]

unfoldable pub help_revert_and_transition :
    ThreadIndex
    → ThreadAndSequence
    → (starting_word_num : WordNum) → (next_function : Prog (Result (Unit {0}) HelpError))
    → Prog (Result (Unit {0}) HelpError)
help_revert_and_transition thread_index thread_and_sequence starting_word_num next_function = do
  result ← revert thread_index thread_and_sequence starting_word_num
  elim result [
    | ok _ ↦ next_function
    | err revert_error ↦ ret (err (HelpError.fatal (fatal_from_revert revert_error)))
  ]
