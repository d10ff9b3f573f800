-- ===== src/Wrapper/Ref.antt =====
-- src/wrapper.rs: `RefStateWrapper`.
use kcas.Base.{ℕ, Result, ok, err}
use kcas.Err.{Error}
use kcas.Types.{
  ThreadId, ThreadIndex, convert_thread_id_to_thread_index, convert_thread_index_to_thread_id,
}
use kcas.Sync.{Location, Prog, ret, ◌>>=◌, ◌>>◌, atomic_store, atomic_fetch_min}
use kcas.Kcas.{KCasWord}
use kcas.Kcas.Operation.{perform_kcas}
use kcas.Wrapper.Slots.{NoThreadIdAvailableError, find_next_available_thread_index}

pub data RefStateWrapperError : Type 0 where
  no_thread_id_available : NoThreadIdAvailableError → RefStateWrapperError

pub record RefStateWrapper : Type 0 where
  pub thread_id : ThreadId

-- `?` on the index, with `From<NoThreadIdAvailableError>`, and the wrapper.
unfoldable pub ref_from_index :
    Result ThreadIndex NoThreadIdAvailableError → Prog (Result RefStateWrapper RefStateWrapperError)
ref_from_index (ok thread_index) =
    ret (ok (record { thread_id = convert_thread_index_to_thread_id thread_index }))
ref_from_index (err e) = ret (err (no_thread_id_available e))

-- `RefStateWrapper::construct`.
unfoldable pub construct_ref :
    (num_threads : ℕ) → Prog (Result RefStateWrapper RefStateWrapperError)
unfolding ref_from_index
construct_ref num_threads = do
  thread_index ← find_next_available_thread_index num_threads
  ref_from_index thread_index

-- `RefStateWrapper::kcas`.
unfoldable pub ref_kcas :
    (num_threads num_words fuel : ℕ)
    → RefStateWrapper
    → (kcas_words : ℕ → KCasWord) → Prog (Result (Unit {0}) Error)
ref_kcas num_threads num_words fuel wrapper kcas_words =
    perform_kcas num_threads num_words fuel wrapper.thread_id kcas_words

-- `drop`.
unfoldable pub drop_ref : RefStateWrapper → Prog (Unit {0})
drop_ref wrapper = do
  let thread_index = convert_thread_id_to_thread_index wrapper.thread_id
  atomic_store (Location.thread_index_slot thread_index) 0
  atomic_fetch_min Location.num_threads_in_use 1
