-- ===== src/Sync.antt =====
-- Programs over shared atomics. src/sync.rs chooses the library that implements the atomics; here
-- a program is the tree of its atomic accesses, each with the code that follows it.
use kcas.Base.{ℕ, Result}

-- The atomics of `State`, by their indices, and the caller's words, by their address.
pub data Location : Type 0 where
  num_threads_in_use : Location
  thread_index_slot : (thread_index : ℕ) → Location
  target_address : (thread_index word_num : ℕ) → Location
  expected_value : (thread_index word_num : ℕ) → Location
  desired_value : (thread_index word_num : ℕ) → Location
  stage_and_sequence_number : (thread_index : ℕ) → Location
  target : (address : ℕ) → Location

-- The continuation of a compare-exchange receives `Ok(previous)` or `Err(actual)`. Nothing in the
-- source reads the previous value that `fetch_add` and `fetch_min` return.
pub data Prog (A : Type 0) : Type 0 where
  ret : A → Prog A
  panic : Prog A
  out_of_fuel : Prog A
  load : Location → (ℕ → Prog A) → Prog A
  store : Location → ℕ → Prog A → Prog A
  compare_exchange : Location → (current new : ℕ) → (Result ℕ ℕ → Prog A) → Prog A
  compare_exchange_weak : Location → (current new : ℕ) → (Result ℕ ℕ → Prog A) → Prog A
  fetch_add : Location → ℕ → Prog A → Prog A
  fetch_min : Location → ℕ → Prog A → Prog A

infixl 5 ◌>>=◌ ◌>>◌
unfoldable pub ◌>>=◌ : {A B : Type 0} → Prog A → (A → Prog B) → Prog B
ret a >>= f = f a
panic >>= f = panic
out_of_fuel >>= f = out_of_fuel
load l k >>= f = load l (λ v. k v >>= f)
store l v p >>= f = store l v (p >>= f)
compare_exchange l c n k >>= f = compare_exchange l c n (λ r. k r >>= f)
compare_exchange_weak l c n k >>= f = compare_exchange_weak l c n (λ r. k r >>= f)
fetch_add l v p >>= f = fetch_add l v (p >>= f)
fetch_min l v p >>= f = fetch_min l v (p >>= f)

abbrev pub ◌>>◌ : {B : Type 0} → Prog (Unit {0}) → Prog B → Prog B
p >> q = p >>= λ _. q

-- Single accesses, as statements.
abbrev pub atomic_load : Location → Prog ℕ
atomic_load l = load l (λ v. ret v)

abbrev pub atomic_store : Location → ℕ → Prog (Unit {0})
atomic_store l v = store l v (ret tt)

abbrev pub atomic_compare_exchange : Location → (current new : ℕ) → Prog (Result ℕ ℕ)
atomic_compare_exchange l c n = compare_exchange l c n (λ r. ret r)

abbrev pub atomic_compare_exchange_weak : Location → (current new : ℕ) → Prog (Result ℕ ℕ)
atomic_compare_exchange_weak l c n = compare_exchange_weak l c n (λ r. ret r)

abbrev pub atomic_fetch_add : Location → ℕ → Prog (Unit {0})
atomic_fetch_add l v = fetch_add l v (ret tt)

abbrev pub atomic_fetch_min : Location → ℕ → Prog (Unit {0})
atomic_fetch_min l v = fetch_min l v (ret tt)
