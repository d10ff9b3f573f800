-- ===== src/Solo/Contract.antt =====
-- What a caller of `kcas` provides, and the memories in which the operation of a thread by itself
-- can end.
use kcas.Base.{ℕ, ◌+◌, ◌^◌, ◌≤◌, ◌<◌, ◌≡◌, ◌≢◌}
use kcas.Base.Family.{Distinct}
use kcas.Stage.{Stage}
use kcas.Types.{
  convert_thread_id_to_thread_index, construct_stage_and_sequence,
  extract_sequence_from_stage_and_sequence,
}
use kcas.Kcas.{KCasWord, next_sequence}
use kcas.Kcas.Memory.{Memory}

-- A call of `kcas` as the wrappers make it: an identifier in use, and references to different words.
pub record IsCall (num_threads num_words thread_id : ℕ) (words : ℕ → KCasWord) : Type 0 where
  pub fits : num_threads + 1 < 2 ^ 64
  pub positive : 1 ≤ thread_id
  pub in_use : thread_id ≤ num_threads
  pub references : (w : ℕ) → w < num_words → (words w).target_address ≢ 0
  pub apart : Distinct num_words (λ w. (words w).target_address)

-- The sequence number of the slot of thread `thread_id`.
abbrev pub own_sequence : Memory → (thread_id : ℕ) → ℕ
own_sequence m thread_id =
    extract_sequence_from_stage_and_sequence
      (m.state.stage_and_sequence_numbers (convert_thread_id_to_thread_index thread_id))

-- Every target of the operation holds its expected value.
abbrev pub Matches : (num_words : ℕ) → (ℕ → KCasWord) → Memory → Type 0
Matches num_words words m =
    (w : ℕ) → w < num_words → m.targets (words w).target_address ≡ (words w).expected_value

-- The slot is ready for the next operation, and no other thread's slot has changed.
pub record IsReady (num_threads thread_id : ℕ) (m m' : Memory) : Type 0 where
  pub own :
      m'.state.stage_and_sequence_numbers (convert_thread_id_to_thread_index thread_id)
      ≡ construct_stage_and_sequence Stage.inactive
          (next_sequence num_threads (own_sequence m thread_id))
  pub other_stages :
      (j : ℕ)
      → j ≢ convert_thread_id_to_thread_index thread_id
      → m'.state.stage_and_sequence_numbers j ≡ m.state.stage_and_sequence_numbers j
  pub slots : m'.state.thread_index_slots ≡ m.state.thread_index_slots
  pub in_use : m'.state.num_threads_in_use ≡ m.state.num_threads_in_use

-- Every target holds its desired value, and no other word has changed.
pub record IsSwapped (num_words : ℕ) (words : ℕ → KCasWord) (m m' : Memory) : Type 0 where
  pub desired :
      (w : ℕ) → w < num_words → m'.targets (words w).target_address ≡ (words w).desired_value
  pub others :
      (a : ℕ)
      → ((w : ℕ) → w < num_words → (words w).target_address ≢ a)
      → m'.targets a ≡ m.targets a
