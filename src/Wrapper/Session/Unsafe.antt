-- ===== src/Wrapper/Session/Unsafe.antt =====
-- `UnsafeStateWrapper` fills the interface of the wrappers, and a session with it has the effect of
-- the specification.
use kcas.Base.{ℕ, ◌+◌, ◌^◌, ◌<◌, Bool, List, ok, err, ◌≡◌, ◌≢◌, refl, ◌∙◌, arith}
use kcas.Types.{convert_thread_index_to_thread_id}
use kcas.Kcas.{KCasWord}
use kcas.Kcas.Operation.{perform_kcas}
use kcas.Kcas.Memory.{Memory, run, returned}
use kcas.Kcas.Memory.Returns.{run->>=, spurious_failures}
use kcas.Solo.Spec.{multi_word_cas}
use kcas.Wrapper.Slots.{no_thread_id_available_error, find_next_available_thread_index}
use kcas.Wrapper.Unsafe.{
  UnsafeStateWrapper, UnsafeStateWrapperError, no_thread_id_available, unsafe_from_index,
  construct_unsafe, unsafe_kcas, drop_unsafe,
}
use kcas.Wrapper.Search.{
  slot_taken, IsFirstFree, find_next_available_thread_index-finds,
  find_next_available_thread_index-full,
}
use kcas.Wrapper.Session.{
  slot_freed, StateWrapper, convert-convert, release-frees, session, IsSession, IsSessionEnd,
  session-ends,
}

abbrev unsafe_of_index : ℕ → UnsafeStateWrapper
unsafe_of_index k = record { thread_id = convert_thread_index_to_thread_id k }

module _ (num_threads num_words : ℕ) (o : List Bool) (m : Memory) where
  construct_unsafe-takes :
      (k : ℕ)
      → IsFirstFree num_threads m k
      → run num_threads num_words (construct_unsafe num_threads) o m
        ≡ returned (ok (unsafe_of_index k)) o (slot_taken m k)
  unfolding run construct_unsafe unsafe_from_index
  construct_unsafe-takes k first =
      run->>= num_threads num_words (find_next_available_thread_index num_threads) unsafe_from_index
        o m
      ∙ rw (find_next_available_thread_index-finds num_threads num_words o m k first) refl

  -- Where every slot is taken `construct` returns `NoThreadIdAvailable` and changes nothing.
  pub construct_unsafe-full :
      ((j : ℕ) → j < num_threads → m.state.thread_index_slots j ≢ 0)
      → run num_threads num_words (construct_unsafe num_threads) o m
        ≡ returned (err (no_thread_id_available no_thread_id_available_error)) o m
  unfolding run construct_unsafe unsafe_from_index
  construct_unsafe-full taken =
      run->>= num_threads num_words (find_next_available_thread_index num_threads) unsafe_from_index
        o m
      ∙ rw (find_next_available_thread_index-full num_threads num_words o m taken) refl

  drop_unsafe-frees :
      (k : ℕ)
      → num_threads + 1 < 2 ^ 64
      → k < num_threads
      → run num_threads num_words (drop_unsafe (unsafe_of_index k)) o m
        ≡ returned tt o (slot_freed m k)
  unfolding drop_unsafe
  drop_unsafe-frees k fits inside =
      rw (convert-convert k (omega arith)) (release-frees num_threads num_words o m k inside)

unsafe_kcas-eq :
    (num_threads num_words fuel k : ℕ) (words : ℕ → KCasWord)
    → unsafe_kcas num_threads num_words fuel (unsafe_of_index k) words
      ≡ perform_kcas num_threads num_words fuel (convert_thread_index_to_thread_id k) words
unfolding unsafe_kcas
unsafe_kcas-eq num_threads num_words fuel k words = refl

abbrev unsafe_interface : (num_threads num_words : ℕ) → StateWrapper num_threads num_words
unsafe_interface num_threads num_words = record {
  Wrapper = UnsafeStateWrapper;
  WrapperError = UnsafeStateWrapperError;
  of_index = unsafe_of_index;
  construct = construct_unsafe num_threads;
  perform = unsafe_kcas num_threads num_words;
  drop = drop_unsafe;
  construct-takes = construct_unsafe-takes num_threads num_words;
  perform-eq = unsafe_kcas-eq num_threads num_words;
  drop-frees = drop_unsafe-frees num_threads num_words;
}

-- A thread that constructs the wrapper with a free slot, performs one operation and drops the
-- wrapper, without interference and with more fuel than there are spurious failures, gets the result
-- of the specification and leaves the memory of the specification, and the slots as it found them. The
-- targets are different and hold values of the application, and the sequence number of the slot fits
-- beside the thread identifier.
pub unsafe_session-ends :
    (num_threads num_words fuel : ℕ) (words : ℕ → KCasWord) (m : Memory) (o : List Bool) (k : ℕ)
    → IsSession num_threads num_words k words m
    → spurious_failures o < fuel
    → (o' : List Bool) × (m' : Memory) × (run num_threads num_words
          (session
            (construct_unsafe num_threads)
            (λ wrapper. unsafe_kcas num_threads num_words fuel wrapper words)
            drop_unsafe)
          o
          m
        ≡ returned (ok (multi_word_cas num_words words m.targets).0) o' m')
      × IsSessionEnd num_threads num_words k words m m'
unsafe_session-ends num_threads num_words = session-ends (unsafe_interface num_threads num_words)
