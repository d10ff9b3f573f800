-- ===== src/Shared/Schedule.antt =====
-- Interleavings: a schedule says which thread makes the next access, and whether a weak
-- compare-exchange fails spuriously there.
use kcas.Base.{ℕ, ◌+◌, ◌%◌, ◌^◌, min, Bool, List, [], ◌∷◌, Result, ok, err, ◌≢◌, if◌then◌else◌, ltb}
use kcas.Base.Family.{update}
use kcas.Err.{Error}
use kcas.Types.{convert_thread_index_to_thread_id}
use kcas.Sync.{
  Prog, ret, panic, out_of_fuel, load, store, compare_exchange, compare_exchange_weak, fetch_add,
  fetch_min, ◌>>=◌,
}
use kcas.Kcas.{KCasWord}
use kcas.Kcas.Operation.{perform_kcas}
use kcas.Kcas.Memory.{
  Memory, read, write, in_bounds, cas_result, cas_write, weak_result, weak_write,
}

-- One access of a program; a program that has ended stays as it is.
unfoldable pub advance :
    (num_threads num_words : ℕ) {A : Type 0} → (spurious : Bool) → Prog A → Memory → Prog A × Memory
advance num_threads num_words spurious (ret a) m = (ret a, m)
advance num_threads num_words spurious panic m = (panic, m)
advance num_threads num_words spurious out_of_fuel m = (out_of_fuel, m)
advance num_threads num_words spurious (load l k) m =
    if in_bounds num_threads num_words l then (k (read m l), m) else (panic, m)
advance num_threads num_words spurious (store l v p) m =
    if in_bounds num_threads num_words l then (p, write m l v) else (panic, m)
advance num_threads num_words spurious (compare_exchange l c n k) m =
    if in_bounds num_threads num_words l
    then (k (cas_result c (read m l)), cas_write m l c n)
    else (panic, m)
advance num_threads num_words spurious (compare_exchange_weak l c n k) m =
    if in_bounds num_threads num_words l
    then (k (weak_result spurious c (read m l)), weak_write spurious m l c n)
    else (panic, m)
advance num_threads num_words spurious (fetch_add l v p) m =
    if in_bounds num_threads num_words l
    then (p, write m l ((read m l + v) % 2 ^ 64))
    else (panic, m)
advance num_threads num_words spurious (fetch_min l v p) m =
    if in_bounds num_threads num_words l then (p, write m l (min (read m l) v)) else (panic, m)

-- The memory, and what each thread has still to do.
pub record System : Type 0 where
  pub memory : Memory
  pub programs : (thread_index : ℕ) → Prog (Result (Unit {0}) Error)

module _ (num_threads num_words : ℕ) where
  abbrev pub step : ℕ → Bool → System → System
  step i spurious s =
      let next = advance num_threads num_words spurious (s.programs i) s.memory in
      record { memory = next.1; programs = update s.programs i next.0 }

  unfoldable pub run_schedule : List (ℕ × Bool) → System → System
  run_schedule [] s = s
  run_schedule ((i, spurious) ∷ rest) s = run_schedule rest (step i spurious s)

-- A fatal error is the last result of a thread; after another one it goes on.
unfoldable pub unless_fatal :
    Result (Unit {0}) Error → Prog (Result (Unit {0}) Error) → Prog (Result (Unit {0}) Error)
unless_fatal (err (Error.fatal e)) next = ret (err (Error.fatal e))
unless_fatal _ next = next

-- A thread's operations one after another, up to a fatal error.
unfoldable pub perform_all :
    (num_threads num_words fuel thread_id : ℕ)
    → List (ℕ → KCasWord)
    → Prog (Result (Unit {0}) Error)
unfolding unless_fatal
perform_all num_threads num_words fuel thread_id [] = ret (ok tt)
perform_all num_threads num_words fuel thread_id (words ∷ rest) = do
  result ← perform_kcas num_threads num_words fuel thread_id words
  unless_fatal result (perform_all num_threads num_words fuel thread_id rest)

-- Every thread of a state performs any number of operations, on words of its own choice.
abbrev pub all_start :
    (num_threads num_words fuel : ℕ)
    → (operations : (thread_index : ℕ) → List (ℕ → KCasWord)) → Memory
    → System
all_start num_threads num_words fuel operations m = record {
  memory = m;
  programs = λ i.
      if ltb i num_threads
      then perform_all num_threads num_words fuel (convert_thread_index_to_thread_id i)
          (operations i)
      else ret (ok tt);
}

-- Thread `j` is not in the schedule.
abbrev pub Rests : ℕ → List (ℕ × Bool) → Type 0
Rests j [] = Unit {0}
Rests j ((i, spurious) ∷ rest) = (i ≢ j) × Rests j rest
