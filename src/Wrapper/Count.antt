-- ===== src/Wrapper/Count.antt =====
-- The count of threads in use, which `drop` lowers to 1 whatever it was.
use kcas.Base.{ℕ, ◌+◌, ◌^◌, ◌≤◌, ◌<◌, Bool, List, ◌≡◌, ◌≢◌, arith}
use kcas.Types.{convert_thread_id_to_thread_index}
use kcas.Kcas.Memory.{Memory, run, returned, write}
use kcas.Wrapper.Arc.{ArcStateWrapper, drop_arc}
use kcas.Wrapper.Session.{release-frees}

-- Dropping a wrapper sets its thread slot free and no other, and leaves a count of 1 where it was 1
-- or more, however many other slots are taken.
pub drop_arc-forgets :
    (num_threads num_words : ℕ) (wrapper : ArcStateWrapper) (o : List Bool) (m : Memory)
    → num_threads + 1 < 2 ^ 64
    → 1 ≤ wrapper.thread_id
    → wrapper.thread_id ≤ num_threads
    → 1 ≤ m.state.num_threads_in_use
    → (m' : Memory) × (run num_threads num_words (drop_arc wrapper) o m ≡ returned tt o m')
      × (m'.state.thread_index_slots (convert_thread_id_to_thread_index wrapper.thread_id) ≡ 0)
      × ((j : ℕ)
          → j ≢ convert_thread_id_to_thread_index wrapper.thread_id
          → m'.state.thread_index_slots j ≡ m.state.thread_index_slots j)
      × (m'.state.num_threads_in_use ≡ 1)
unfolding drop_arc convert_thread_id_to_thread_index write
drop_arc-forgets num_threads num_words wrapper o m fits positive below counted = (
  _,
  release-frees num_threads num_words o m _ (omega arith),
  ground arith,
  λ j other. ground arith,
  ground arith,
)
