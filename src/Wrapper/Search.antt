-- ===== src/Wrapper/Search.antt =====
-- The search for a free thread slot takes the first one, or finds that there is none.
use kcas.Base.{
  ℕ, zero, suc, ◌+◌, ◌%◌, ◌^◌, ◌≤◌, ◌<◌, Bool, List, ok, err, ◌≡◌, ◌≢◌, refl, ◌∙◌, arith, eq→==,
  ne→==, lt→ltb,
}
use native.Mathlib.Decide.{ℕ_discrete}
use kcas.Sync.{◌>>=◌, num_threads_in_use, thread_index_slot}
use kcas.Kcas.Memory.{Memory, read, write, in_bounds, run, returned}
use kcas.Wrapper.Slots.{
  no_thread_id_available_error, slot_examined, examine_slots, find_next_available_thread_index,
}

-- Thread slot `i` is taken, and counted.
abbrev pub slot_taken : Memory → ℕ → Memory
slot_taken m i =
    write (write m (thread_index_slot i) 1) num_threads_in_use
      ((m.state.num_threads_in_use + 1) % 2 ^ 64)

-- Slot `i` is the first free one.
pub record IsFirstFree (num_threads : ℕ) (m : Memory) (i : ℕ) : Type 0 where
  pub inside : i < num_threads
  pub free : m.state.thread_index_slots i ≡ 0
  pub taken : (j : ℕ) → j < i → m.state.thread_index_slots j ≢ 0

module _ (num_threads num_words : ℕ) (o : List Bool) (m : Memory) where
  examine_slots-hit :
      (left k : ℕ)
      → k < num_threads
      → m.state.thread_index_slots k ≡ 0
      → run num_threads num_words (examine_slots (suc left) k) o m
        ≡ returned (ok k) o (slot_taken m k)
  unfolding run ◌>>=◌ examine_slots slot_examined in_bounds read write
  examine_slots-hit left k inside free =
      rw (run, lt→ltb k num_threads inside, eq→== (m.state.thread_index_slots k) 0 free) refl

  examine_slots-miss :
      (left i : ℕ)
      → i < num_threads
      → m.state.thread_index_slots i ≢ 0
      → run num_threads num_words (examine_slots (suc left) i) o m
        ≡ run num_threads num_words (examine_slots left (i + 1)) o m
  unfolding run ◌>>=◌ examine_slots slot_examined in_bounds read
  examine_slots-miss left i inside taken =
      rw (run, lt→ltb i num_threads inside, ne→== (m.state.thread_index_slots i) 0 taken) refl

  examine_slots-finds :
      (left i k : ℕ)
      → i + left ≤ num_threads
      → i ≤ k
      → k < i + left
      → m.state.thread_index_slots k ≡ 0
      → ((j : ℕ) → i ≤ j → j < k → m.state.thread_index_slots j ≢ 0)
      → run num_threads num_words (examine_slots left i) o m ≡ returned (ok k) o (slot_taken m k)
  examine_slots-finds zero i k inside from below free taken =
      let none_left : ⊥ = omega arith in elim none_left [ ]
  examine_slots-finds (suc left) i k inside from below free taken = elim (ℕ_discrete i k) [
    | yes here ↦ rw here (examine_slots-hit left k (omega arith) free)
    | no later ↦
        examine_slots-miss left i (omega arith) (taken i (omega arith) (omega arith))
        ∙ examine_slots-finds left (i + 1) k (omega arith) (omega arith) (omega arith) free
            (λ j p q. taken j (omega arith) q)
  ]

  examine_slots-full :
      (left i : ℕ)
      → i + left ≤ num_threads
      → ((j : ℕ) → i ≤ j → j < i + left → m.state.thread_index_slots j ≢ 0)
      → run num_threads num_words (examine_slots left i) o m
        ≡ returned (err no_thread_id_available_error) o m
  unfolding run examine_slots
  examine_slots-full zero i inside taken = refl
  examine_slots-full (suc left) i inside taken =
      examine_slots-miss left i (omega arith) (taken i (omega arith) (omega arith))
      ∙ examine_slots-full left (i + 1) (omega arith) (λ j p q. taken j (omega arith) (omega arith))

  -- The search takes the first free slot, counts it, and returns its index.
  pub find_next_available_thread_index-finds :
      (k : ℕ)
      → IsFirstFree num_threads m k
      → run num_threads num_words (find_next_available_thread_index num_threads) o m
        ≡ returned (ok k) o (slot_taken m k)
  unfolding find_next_available_thread_index
  find_next_available_thread_index-finds k first =
      examine_slots-finds num_threads 0 k (omega arith) (omega arith) (omega (arith, first.inside))
        first.free (λ j p below. first.taken j below)

  -- Where every slot is taken the search returns `NoThreadIdAvailableError` and changes nothing.
  pub find_next_available_thread_index-full :
      ((j : ℕ) → j < num_threads → m.state.thread_index_slots j ≢ 0)
      → run num_threads num_words (find_next_available_thread_index num_threads) o m
        ≡ returned (err no_thread_id_available_error) o m
  unfolding find_next_available_thread_index
  find_next_available_thread_index-full taken =
      examine_slots-full num_threads 0 (omega arith) (λ j p below. taken j (omega arith))
