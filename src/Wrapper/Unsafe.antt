-- ===== src/Wrapper/Unsafe.antt =====
-- src/wrapper.rs: `UnsafeStateWrapper`.
use kcas.Base.{ℕ, Result, ok, err}
use kcas.Err.{Error}
use kcas.Types.{
  ThreadId, ThreadIndex, convert_thread_id_to_thread_index, convert_thread_index_to_thread_id,
}
use kcas.Sync.{Location, Prog, ret, ◌>>=◌, ◌>>◌, atomic_store, atomic_fetch_min}
use kcas.Kcas.{KCasWord}
use kcas.Kcas.Operation.{perform_kcas}
use kcas.Wrapper.Slots.{NoThreadIdAvailableError, find_next_available_thread_index}

pub data UnsafeStateWrapperError : Type 0 where
  no_thread_id_available : NoThreadIdAvailableError → UnsafeStateWrapperError

pub record UnsafeStateWrapper : Type 0 where
  pub thread_id : ThreadId

-- `?` on the index, with `From<NoThreadIdAvailableError>`, and the wrapper.
unfoldable pub unsafe_from_index :
    Result ThreadIndex NoThreadIdAvailableError
    → Prog (Result UnsafeStateWrapper UnsafeStateWrapperError)
unsafe_from_index (ok thread_index) =
    ret (ok (record { thread_id = convert_thread_index_to_thread_id thread_index }))
unsafe_from_index (err e) = ret (err (no_thread_id_available e))

-- `UnsafeStateWrapper::construct`.
unfoldable pub construct_unsafe :
    (num_threads : ℕ) → Prog (Result UnsafeStateWrapper UnsafeStateWrapperError)
unfolding unsafe_from_index
construct_unsafe num_threads = do
  thread_index ← find_next_available_thread_index num_threads
  unsafe_from_index thread_index

-- `UnsafeStateWrapper::kcas`.
unfoldable pub unsafe_kcas :
    (num_threads num_words fuel : ℕ)
    → UnsafeStateWrapper
    → (kcas_words : ℕ → KCasWord) → Prog (Result (Unit {0}) Error)
unsafe_kcas num_threads num_words fuel wrapper kcas_words =
    perform_kcas num_threads num_words fuel wrapper.thread_id kcas_words

-- `drop`.
unfoldable pub drop_unsafe : UnsafeStateWrapper → Prog (Unit {0})
drop_unsafe wrapper = do
  let thread_index = convert_thread_id_to_thread_index wrapper.thread_id
  atomic_store (Location.thread_index_slot thread_index) 0
  atomic_fetch_min Location.num_threads_in_use 1
