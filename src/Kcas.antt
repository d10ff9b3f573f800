-- ===== src/Kcas.antt =====
-- src/kcas/mod.rs: the shared state, the start and the end of an operation, and what helping
-- reports. `kcas` and `help_thread`, which stand on the child modules, are in Kcas/Operation.antt.
pub mod Revert
pub mod StageChange
pub mod Set
pub mod Concurrent
pub mod Claim
pub mod Operation
pub mod Memory
pub mod Sequence
use kcas.Base.{ℕ, zero, suc, ◌+◌, ◌%◌, Result, List, [], ◌∷◌}
use kcas.Word.{wrapping_add}
use kcas.Stage.{Stage}
use kcas.Err.{FatalError}
use kcas.Types.{
  WordNum, SequenceNum, ThreadId, ThreadIndex, StageAndSequence, construct_stage_and_sequence,
  extract_sequence_from_stage_and_sequence, get_sequence_mask_for_thread_and_sequence,
}
use kcas.Sync.{Location, Prog, ret, ◌>>=◌, ◌>>◌, atomic_load, atomic_store}

-- `State`: each array of atomics as a family over its indices. A family is read and written only
-- at indices below `NUM_THREADS` and `NUM_WORDS` (Kcas/Memory.antt).
pub record State : Type 0 where
  pub num_threads_in_use : ℕ
  pub thread_index_slots : ThreadIndex → ℕ
  pub target_addresses : ThreadIndex → WordNum → ℕ
  pub expected_values : ThreadIndex → WordNum → ℕ
  pub desired_values : ThreadIndex → WordNum → ℕ
  pub stage_and_sequence_numbers : ThreadIndex → ℕ

-- An `AtomicBool` holds 0 for `false` and 1 for `true`; the null pointer is 0.
abbrev pub State_new : State
State_new = record {
  num_threads_in_use = 0;
  thread_index_slots = λ i. 0;
  target_addresses = λ i w. 0;
  expected_values = λ i w. 0;
  desired_values = λ i w. 0;
  stage_and_sequence_numbers = λ i. 0;
}

-- The reference to the target is its address.
pub record KCasWord : Type 0 where
  pub target_address : ℕ
  pub expected_value : ℕ
  pub desired_value : ℕ

-- `KCasWord::new`.
abbrev pub KCasWord_new : (target_address expected_element desired_element : ℕ) → KCasWord
KCasWord_new a e d = record { target_address = a; expected_value = e; desired_value = d }

pub data HelpError : Type 0 where
  sequence_changed_while_helping :
      (thread_id : ThreadId) (original_sequence actual_sequence : SequenceNum) → HelpError
  helpee_stage_is_already_terminal : ThreadId → Stage → HelpError
  fatal : FatalError → HelpError

-- One round of the loop of `initialize_operation`.
unfoldable pub save_word : ThreadIndex → WordNum → KCasWord → Prog (Unit {0})
save_word thread_index word_num kcas_word = do
  atomic_store (Location.target_address thread_index word_num) kcas_word.target_address
  atomic_store (Location.expected_value thread_index word_num) kcas_word.expected_value
  atomic_store (Location.desired_value thread_index word_num) kcas_word.desired_value

-- The loop, from `word_num` on. The array of words is a family over the word numbers.
unfoldable pub save_words :
    ThreadIndex → (ℕ → KCasWord) → (left : ℕ) → (word_num : WordNum) → Prog (Unit {0})
save_words thread_index kcas_words zero word_num = ret tt
save_words thread_index kcas_words (suc left) word_num = do
  save_word thread_index word_num (kcas_words word_num)
  save_words thread_index kcas_words left (word_num + 1)

unfoldable pub initialize_operation :
    (num_words : ℕ) → ThreadIndex → (ℕ → KCasWord) → Prog SequenceNum
unfolding save_words save_word
initialize_operation num_words thread_index kcas_words = do
  save_words thread_index kcas_words num_words 0
  original_stage_and_sequence ← atomic_load (Location.stage_and_sequence_number thread_index)
  let sequence = extract_sequence_from_stage_and_sequence original_stage_and_sequence
  let claiming_stage_and_sequence = construct_stage_and_sequence Stage.claiming sequence
  atomic_store (Location.stage_and_sequence_number thread_index) claiming_stage_and_sequence
  ret sequence

-- `sequence + 1 % mask`: in Rust `%` binds tighter than `+`.
unfoldable pub next_sequence : (num_threads : ℕ) → SequenceNum → SequenceNum
next_sequence num_threads sequence =
    wrapping_add sequence (1 % get_sequence_mask_for_thread_and_sequence num_threads)

unfoldable pub prepare_for_next_operation :
    (num_threads : ℕ) → ThreadIndex → SequenceNum → Prog (Unit {0})
prepare_for_next_operation num_threads thread_index sequence = do
  let next_stage_and_sequence =
      construct_stage_and_sequence Stage.inactive (next_sequence num_threads sequence)
  atomic_store (Location.stage_and_sequence_number thread_index) next_stage_and_sequence
