-- ===== src/Wrapper/Slots.antt =====
-- src/wrapper.rs: the search for a free thread slot, which the three wrappers share.
use kcas.Base.{ℕ, zero, suc, ◌+◌, Result, ok, err}
use kcas.Types.{ThreadIndex}
use kcas.Sync.{Location, Prog, ret, ◌>>=◌, ◌>>◌, atomic_compare_exchange, atomic_fetch_add}

pub data NoThreadIdAvailableError : Type 0 where
  no_thread_id_available_error : NoThreadIdAvailableError

-- What follows the compare-exchange on slot `i`: `next` is the rest of the loop.
unfoldable pub slot_examined :
    (i : ThreadIndex)
    → (next : Prog (Result ThreadIndex NoThreadIdAvailableError)) → (cas_result : Result ℕ ℕ)
    → Prog (Result ThreadIndex NoThreadIdAvailableError)
slot_examined i next (ok previous) = do atomic_fetch_add Location.num_threads_in_use 1; ret (ok i)
slot_examined i next (err actual) = next

-- The loop, from slot `i` on, with `left` slots to go.
unfoldable pub examine_slots :
    (left : ℕ) → (i : ThreadIndex) → Prog (Result ThreadIndex NoThreadIdAvailableError)
unfolding slot_examined
examine_slots zero i = ret (err no_thread_id_available_error)
examine_slots (suc left) i = do
  cas_result ← atomic_compare_exchange (Location.thread_index_slot i) 0 1
  slot_examined i (examine_slots left (i + 1)) cas_result

unfoldable pub find_next_available_thread_index :
    (num_threads : ℕ) → Prog (Result ThreadIndex NoThreadIdAvailableError)
find_next_available_thread_index num_threads = examine_slots num_threads 0
