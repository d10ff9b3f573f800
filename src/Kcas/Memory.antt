-- ===== src/Kcas/Memory.antt =====
-- The memory that programs run on, and the run of one program by itself: `State` and the caller's
-- words, the bounds of the arrays, and the accesses one after another in a sequentially consistent
-- order. A weak compare-exchange may fail spuriously; a list of Booleans says when it does.
pub mod Returns
use kcas.Base.{ℕ, Bool, true, false, ◌&&◌, List, [], ◌∷◌, Result, ok, err, ◌==◌, ltb, if◌then◌else◌}
use kcas.Base.{◌+◌, ◌%◌, ◌^◌, min, ◌≡◌, refl, inl, inr, Bool-cases}
use kcas.Base.Family.{update}
use kcas.Sync.{
  Location, num_threads_in_use, thread_index_slot, target_address, expected_value, desired_value,
  stage_and_sequence_number, target, Prog, ret, panic, out_of_fuel, load, store, compare_exchange,
  compare_exchange_weak, fetch_add, fetch_min, ◌>>=◌,
}
use kcas.Kcas.{State}

pub record Memory : Type 0 where
  pub state : State
  pub targets : (address : ℕ) → ℕ

-- The value of an atomic.
unfoldable pub read : Memory → Location → ℕ
read m num_threads_in_use = m.state.num_threads_in_use
read m (thread_index_slot i) = m.state.thread_index_slots i
read m (target_address i w) = m.state.target_addresses i w
read m (expected_value i w) = m.state.expected_values i w
read m (desired_value i w) = m.state.desired_values i w
read m (stage_and_sequence_number i) = m.state.stage_and_sequence_numbers i
read m (target a) = m.targets a

abbrev pub update_at : (ℕ → ℕ → ℕ) → ℕ → ℕ → ℕ → ℕ → ℕ → ℕ
update_at f i w v = update f i (update (f i) w v)

unfoldable pub write : Memory → Location → ℕ → Memory
write m num_threads_in_use v = record m { state = record (m.state) { num_threads_in_use = v } }
write m (thread_index_slot i) v = record m {
  state = record (m.state) { thread_index_slots = update m.state.thread_index_slots i v };
}
write m (target_address i w) v = record m {
  state = record (m.state) { target_addresses = update_at m.state.target_addresses i w v };
}
write m (expected_value i w) v = record m {
  state = record (m.state) { expected_values = update_at m.state.expected_values i w v };
}
write m (desired_value i w) v = record m {
  state = record (m.state) { desired_values = update_at m.state.desired_values i w v };
}
write m (stage_and_sequence_number i) v = record m {
  state = record (m.state) {
    stage_and_sequence_numbers = update m.state.stage_and_sequence_numbers i v;
  };
}
write m (target a) v = record m { targets = update m.targets a v }

abbrev pub cas_result : (current actual : ℕ) → Result ℕ ℕ
cas_result current actual = if actual == current then ok actual else err actual

abbrev pub cas_write : Memory → Location → (current new : ℕ) → Memory
cas_write m l current new = if read m l == current then write m l new else m

-- The weak form fails if `spurious` says so, and else does what the strong one does.
abbrev pub weak_result : (spurious : Bool) → (current actual : ℕ) → Result ℕ ℕ
weak_result true current actual = err actual
weak_result false current actual = cas_result current actual

abbrev pub weak_write : (spurious : Bool) → Memory → Location → (current new : ℕ) → Memory
weak_write true m l current new = m
weak_write false m l current new = cas_write m l current new

abbrev pub is_spurious : List Bool → Bool
is_spurious [] = false
is_spurious (b ∷ bs) = b

abbrev pub later : List Bool → List Bool
later [] = []
later (b ∷ bs) = bs

-- The end of a run, with what is left of the list of spurious failures.
pub data Outcome (A : Type 0) : Type 0 where
  returned : A → List Bool → Memory → Outcome A
  panicked : Outcome A
  exhausted : Outcome A

module _ (num_threads num_words : ℕ) where
  -- An index past the end of an array panics.
  unfoldable pub in_bounds : Location → Bool
  in_bounds num_threads_in_use = true
  in_bounds (thread_index_slot i) = ltb i num_threads
  in_bounds (target_address i w) = ltb i num_threads && ltb w num_words
  in_bounds (expected_value i w) = ltb i num_threads && ltb w num_words
  in_bounds (desired_value i w) = ltb i num_threads && ltb w num_words
  in_bounds (stage_and_sequence_number i) = ltb i num_threads
  in_bounds (target a) = true

  unfoldable pub run : {A : Type 0} → Prog A → List Bool → Memory → Outcome A
  run (ret a) o m = returned a o m
  run panic o m = panicked
  run out_of_fuel o m = exhausted
  run (load l k) o m = elim (in_bounds l) [ true ↦ run (k (read m l)) o m | false ↦ panicked ]
  run (store l v p) o m = elim (in_bounds l) [ true ↦ run p o (write m l v) | false ↦ panicked ]
  run (compare_exchange l c n k) o m = elim (in_bounds l) [
    | true ↦ run (k (cas_result c (read m l))) o (cas_write m l c n)
    | false ↦ panicked
  ]
  run (compare_exchange_weak l c n k) o m = elim (in_bounds l) [
    | true ↦
        run (k (weak_result (is_spurious o) c (read m l))) (later o)
          (weak_write (is_spurious o) m l c n)
    | false ↦ panicked
  ]
  run (fetch_add l v p) o m = elim (in_bounds l) [
    | true ↦ run p o (write m l ((read m l + v) % 2 ^ 64))
    | false ↦ panicked
  ]
  run (fetch_min l v p) o m = elim (in_bounds l) [
    | true ↦ run p o (write m l (min (read m l) v))
    | false ↦ panicked
  ]

abbrev pub and_then : {A B : Type 0} → Outcome A → (A → List Bool → Memory → Outcome B) → Outcome B
and_then (returned a o m) f = f a o m
and_then panicked f = panicked
and_then exhausted f = exhausted
