-- ===== src/Tests/Wrappers.antt =====
-- Wrappers at concrete inputs: 4 threads, of which only slot 1 is free.
use kcas.Base.{
  ℕ, zero, suc, ◌<◌, Bool, List, [], ok, err, ◌≡◌, ◌≢◌, refl, arith, if◌then◌else◌, ◌==◌,
}
use kcas.Types.{convert_thread_id_to_thread_index}
use kcas.Kcas.{State, State_new}
use kcas.Kcas.Memory.{Memory, run, returned}
use kcas.Solo.Spec.{multi_word_cas}
use kcas.Wrapper.Slots.{no_thread_id_available_error, find_next_available_thread_index}
use kcas.Wrapper.Arc.{construct_arc, arc_kcas, drop_arc}
use kcas.Wrapper.Ref.{construct_ref, ref_kcas, drop_ref}
use kcas.Wrapper.Unsafe.{construct_unsafe, unsafe_kcas, drop_unsafe}
use kcas.Wrapper.Search.{
  slot_taken, IsFirstFree, find_next_available_thread_index-finds,
  find_next_available_thread_index-full,
}
use kcas.Wrapper.Session.{session, IsSession, IsSessionEnd}
use kcas.Wrapper.Session.Arc.{arc_session-ends}
use kcas.Wrapper.Session.Ref.{ref_session-ends}
use kcas.Wrapper.Session.Unsafe.{unsafe_session-ends}
use kcas.Wrapper.Count.{drop_arc-forgets}
use kcas.Tests.Operations.{words, memory_off, words-apart, room, values}

abbrev partly_taken : ℕ → ℕ
partly_taken i = if i == 1 then 0 else 1

abbrev slots : State
slots = record (memory_off.state) { thread_index_slots = partly_taken; num_threads_in_use = 3 }

abbrev memory : Memory
memory = record { state = slots; targets = memory_off.targets }

abbrev full_slots : State
full_slots = record (State_new) { thread_index_slots = λ i. 1; num_threads_in_use = 4 }

abbrev full : Memory
full = record { state = full_slots; targets = λ a. 0 }

first : IsFirstFree 4 memory 1
first = record { inside = omega arith; free = refl; taken = before }
  where
    before : (j : ℕ) → j < 1 → partly_taken j ≢ 0
    before zero below e = omega (arith, e)
    before (suc j) below e = omega arith

find_next_available_thread_index-finds_example :
    run 4 3 (find_next_available_thread_index 4) [] memory
    ≡ returned (ok 1) [] (slot_taken memory 1)
find_next_available_thread_index-finds_example =
    find_next_available_thread_index-finds 4 3 [] memory 1 first

find_next_available_thread_index-full_example :
    run 4 3 (find_next_available_thread_index 4) [] full
    ≡ returned (err no_thread_id_available_error) [] full
find_next_available_thread_index-full_example =
    find_next_available_thread_index-full 4 3 [] full (λ j below e. omega (arith, e))

start : IsSession 4 3 1 words memory
start = record {
  fits = omega arith;
  first = first;
  references = λ w below e. omega arith;
  apart = words-apart;
  room = room;
  values = values;
}

arc_session-ends_example :
    (o' : List Bool) × (m' : Memory) × (run 4 3
        (session (construct_arc 4) (λ wrapper. arc_kcas 4 3 1 wrapper words) drop_arc)
        []
        memory
      ≡ returned (ok (multi_word_cas 3 words memory.targets).0) o' m')
    × IsSessionEnd 4 3 1 words memory m'
arc_session-ends_example = arc_session-ends 4 3 1 words memory [] 1 start (omega arith)

ref_session-ends_example :
    (o' : List Bool) × (m' : Memory) × (run 4 3
        (session (construct_ref 4) (λ wrapper. ref_kcas 4 3 1 wrapper words) drop_ref)
        []
        memory
      ≡ returned (ok (multi_word_cas 3 words memory.targets).0) o' m')
    × IsSessionEnd 4 3 1 words memory m'
ref_session-ends_example = ref_session-ends 4 3 1 words memory [] 1 start (omega arith)

unsafe_session-ends_example :
    (o' : List Bool) × (m' : Memory) × (run 4 3
        (session (construct_unsafe 4) (λ wrapper. unsafe_kcas 4 3 1 wrapper words) drop_unsafe)
        []
        memory
      ≡ returned (ok (multi_word_cas 3 words memory.targets).0) o' m')
    × IsSessionEnd 4 3 1 words memory m'
unsafe_session-ends_example = unsafe_session-ends 4 3 1 words memory [] 1 start (omega arith)

-- Thread 3 leaves; threads 1, 2 and 4 stay, and the count says 1.
drop_arc-forgets_example :
    (m' : Memory) × (run 4 3 (drop_arc (record { thread_id = 3 })) [] full ≡ returned tt [] m')
    × (m'.state.thread_index_slots (convert_thread_id_to_thread_index 3) ≡ 0)
    × ((j : ℕ)
        → j ≢ convert_thread_id_to_thread_index 3
        → m'.state.thread_index_slots j ≡ full.state.thread_index_slots j)
    × (m'.state.num_threads_in_use ≡ 1)
drop_arc-forgets_example =
    drop_arc-forgets 4 3 (record { thread_id = 3 }) [] full (omega arith) (omega arith)
      (omega arith) (omega arith)
