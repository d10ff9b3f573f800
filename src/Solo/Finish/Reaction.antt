-- ===== src/Solo/Finish/Reaction.antt =====
-- A thread by itself that finds its operation finished, or given up, by a helper:
-- `handle_concurrent_stage_change_and_transition` of src/kcas/stage_change.rs.
use kcas.Base.{ℕ, suc, ◌^◌, ◌≤◌, ◌<◌, Bool, List, Result, ok, err, ◌≡◌, ◌⊎◌, arith}
use kcas.Word.{wrapping_sub}
use kcas.Err.{Error}
use kcas.Stage.{Stage, inactive, claiming, setting, reverting, successful, reverted}
use kcas.Types.{construct_thread_and_sequence, convert_thread_id_to_thread_index}
use kcas.Sync.{ret, ◌>>=◌, stage_and_sequence_number}
use kcas.Kcas.{next_sequence, prepare_for_next_operation}
use kcas.Kcas.Revert.{revert, revert_and_transition}
use kcas.Kcas.Concurrent.{concurrent_stage_change, handle_concurrent_stage_change_and_transition}
use kcas.Kcas.Memory.{run, returned, Memory, write}
use kcas.Kcas.Memory.Returns.{Returns, Returns-ret, Returns-bind, Returns-store, spurious_failures}
use kcas.Solo.Row.{stage_in_bounds}
use kcas.Solo.Finish.{IsLeft, left_at, Returns-run}
use kcas.Solo.Finish.Revert.{restored, revert-restore}

-- What an operation returns that was left at a stage after `Setting`.
abbrev pub result_of : Stage → Result (Unit {0}) Error
result_of successful = ok tt
result_of _ = err Error.value_was_not_expected_value

-- A stage at which there is nothing left to set.
abbrev pub IsDecided : Stage → Type 0
IsDecided stage = (stage ≡ successful) ⊎ ((stage ≡ reverting) ⊎ (stage ≡ reverted))

-- The markers are taken back, and the slot is ready for the next operation.
abbrev pub ready : (num_threads num_words thread_id sequence : ℕ) → Memory → Memory
ready num_threads num_words thread_id sequence m =
    left_at num_words thread_id (next_sequence num_threads sequence) inactive
      (λ w.
        restored (construct_thread_and_sequence num_threads thread_id sequence)
          (m.state.expected_values (convert_thread_id_to_thread_index thread_id) w)
          (m.targets (m.state.target_addresses (convert_thread_id_to_thread_index thread_id) w)))
      m

module _ (num_threads num_words rounds thread_id sequence : ℕ) {stage : Stage} (m : Memory)
    (left : IsLeft num_threads num_words thread_id sequence stage m) (some_words : 1 ≤ num_words)
    (words_fit : num_words < 2 ^ 64) where
  abbrev i : ℕ
  i = convert_thread_id_to_thread_index thread_id

  abbrev marker : ℕ
  marker = construct_thread_and_sequence num_threads thread_id sequence

  reverts_and_prepares :
      (r : Result (Unit {0}) Error)
      → Returns num_threads num_words rounds
          (revert_and_transition i marker
            (wrapping_sub num_words 1)
            (prepare_for_next_operation num_threads i sequence >>= λ u. ret r))
          m
          r
          (ready num_threads num_words thread_id sequence m)
  unfolding revert_and_transition prepare_for_next_operation ◌>>=◌ write
  reverts_and_prepares r =
      Returns-bind (revert i marker (wrapping_sub num_words 1)) _
        (revert-restore num_threads num_words rounds i marker left.row m.targets some_words
          words_fit)
        (Returns-store (stage_and_sequence_number i) _ _ (stage_in_bounds num_words left.row.index)
          (Returns-ret _ _))

reaction-Returns :
    (num_threads num_words rounds fuel thread_id sequence : ℕ) (current stage : Stage) (m : Memory)
    → IsLeft num_threads num_words thread_id sequence stage m
    → IsDecided stage
    → 1 ≤ num_words
    → num_words < 2 ^ 64
    → Returns num_threads num_words rounds
        (handle_concurrent_stage_change_and_transition num_threads num_words
          (suc fuel)
          (convert_thread_id_to_thread_index thread_id)
          sequence
          (construct_thread_and_sequence num_threads thread_id sequence)
          current
          stage)
        m
        (result_of stage)
        (ready num_threads num_words thread_id sequence m)
unfolding handle_concurrent_stage_change_and_transition concurrent_stage_change
reaction-Returns num_threads num_words rounds fuel thread_id sequence current inactive m left
      decided some_words words_fit =
    ground (arith, decided)
reaction-Returns num_threads num_words rounds fuel thread_id sequence current claiming m left
      decided some_words words_fit =
    ground (arith, decided)
reaction-Returns num_threads num_words rounds fuel thread_id sequence current setting m left decided
      some_words words_fit =
    ground (arith, decided)
reaction-Returns num_threads num_words rounds fuel thread_id sequence current reverting m left
      decided some_words words_fit =
    reverts_and_prepares num_threads num_words rounds thread_id sequence m left some_words words_fit
      _
reaction-Returns num_threads num_words rounds fuel thread_id sequence current successful m left
      decided some_words words_fit =
    reverts_and_prepares num_threads num_words rounds thread_id sequence m left some_words words_fit
      _
reaction-Returns num_threads num_words rounds fuel thread_id sequence current reverted m left
      decided some_words words_fit =
    reverts_and_prepares num_threads num_words rounds thread_id sequence m left some_words words_fit
      _

-- A thread that finds its operation at `Successful`, `Reverting` or `Reverted`, brought there by
-- others, and is not disturbed, returns `Ok` for `Successful` and `ValueWasNotExpectedValue` for
-- the others: every target of its row that held its marker has the expected value back, the others
-- are as they were, and its slot is ready for the next operation. Nothing else changes.
pub reaction-ends :
    (num_threads num_words fuel thread_id sequence : ℕ) (current stage : Stage) (m : Memory)
    (o : List Bool)
    → IsLeft num_threads num_words thread_id sequence stage m
    → IsDecided stage
    → 1 ≤ num_words
    → num_words < 2 ^ 64
    → (o' : List Bool) × (run num_threads num_words
          (handle_concurrent_stage_change_and_transition num_threads num_words
            (suc fuel)
            (convert_thread_id_to_thread_index thread_id)
            sequence
            (construct_thread_and_sequence num_threads thread_id sequence)
            current
            stage)
          o
          m
        ≡ returned (result_of stage) o' (ready num_threads num_words thread_id sequence m))
reaction-ends num_threads num_words fuel thread_id sequence current stage m o left decided
      some_words words_fit =
    Returns-run o (suc (spurious_failures o)) (omega arith) (
      reaction-Returns num_threads num_words _ fuel thread_id sequence current stage m left decided
        some_words words_fit)
