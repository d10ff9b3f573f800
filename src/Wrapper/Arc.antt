-- ===== src/Wrapper/Arc.antt =====
-- src/wrapper.rs: `ArcStateWrapper`.
use kcas.Base.{ℕ, Result, ok, err}
use kcas.Err.{Error}
use kcas.Types.{
  ThreadId, ThreadIndex, convert_thread_id_to_thread_index, convert_thread_index_to_thread_id,
}
use kcas.Sync.{Location, Prog, ret, ◌>>=◌, ◌>>◌, atomic_store, atomic_fetch_min}
use kcas.Kcas.{KCasWord}
use kcas.Kcas.Operation.{perform_kcas}
use kcas.Wrapper.Slots.{NoThreadIdAvailableError, find_next_available_thread_index}

pub data ArcStateWrapperError : Type 0 where
  no_thread_id_available : NoThreadIdAvailableError → ArcStateWrapperError

pub record ArcStateWrapper : Type 0 where
  pub thread_id : ThreadId

-- `?` on the index, with `From<NoThreadIdAvailableError>`, and the wrapper.
unfoldable pub arc_from_index :
    Result ThreadIndex NoThreadIdAvailableError → Prog (Result ArcStateWrapper ArcStateWrapperError)
arc_from_index (ok thread_index) =
    ret (ok (record { thread_id = convert_thread_index_to_thread_id thread_index }))
arc_from_index (err e) = ret (err (no_thread_id_available e))

-- `ArcStateWrapper::construct`.
unfoldable pub construct_arc :
    (num_threads : ℕ) → Prog (Result ArcStateWrapper ArcStateWrapperError)
unfolding arc_from_index
construct_arc num_threads = do
  thread_index ← find_next_available_thread_index num_threads
  arc_from_index thread_index

-- `ArcStateWrapper::kcas`.
unfoldable pub arc_kcas :
    (num_threads num_words fuel : ℕ)
    → ArcStateWrapper
    → (kcas_words : ℕ → KCasWord) → Prog (Result (Unit {0}) Error)
arc_kcas num_threads num_words fuel wrapper kcas_words =
    perform_kcas num_threads num_words fuel wrapper.thread_id kcas_words

-- `drop`.
unfoldable pub drop_arc : ArcStateWrapper → Prog (Unit {0})
drop_arc wrapper = do
  let thread_index = convert_thread_id_to_thread_index wrapper.thread_id
  atomic_store (Location.thread_index_slot thread_index) 0
  atomic_fetch_min Location.num_threads_in_use 1
