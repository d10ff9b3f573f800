-- ===== src/Wrapper/Session/Arc.antt =====
-- `ArcStateWrapper` fills the interface of the wrappers, and a session with it has the effect of the
-- specification.
use kcas.Base.{ℕ, ◌+◌, ◌^◌, ◌<◌, Bool, List, ok, err, ◌≡◌, ◌≢◌, refl, ◌∙◌, arith}
use kcas.Types.{convert_thread_index_to_thread_id}
use kcas.Kcas.{KCasWord}
use kcas.Kcas.Operation.{perform_kcas}
use kcas.Kcas.Memory.{Memory, run, returned}
use kcas.Kcas.Memory.Returns.{run->>=, spurious_failures}
use kcas.Solo.Spec.{multi_word_cas}
use kcas.Wrapper.Slots.{no_thread_id_available_error, find_next_available_thread_index}
use kcas.Wrapper.Arc.{
  ArcStateWrapper, ArcStateWrapperError, no_thread_id_available, arc_from_index, construct_arc,
  arc_kcas, drop_arc,
}
use kcas.Wrapper.Search.{
  slot_taken, IsFirstFree, find_next_available_thread_index-finds,
  find_next_available_thread_index-full,
}
use kcas.Wrapper.Session.{
  slot_freed, StateWrapper, convert-convert, release-frees, session, IsSession, IsSessionEnd,
  session-ends,
}

abbrev arc_of_index : ℕ → ArcStateWrapper
arc_of_index k = record { thread_id = convert_thread_index_to_thread_id k }

module _ (num_threads num_words : ℕ) (o : List Bool) (m : Memory) where
  construct_arc-takes :
      (k : ℕ)
      → IsFirstFree num_threads m k
      → run num_threads num_words (construct_arc num_threads) o m
        ≡ returned (ok (arc_of_index k)) o (slot_taken m k)
  unfolding run construct_arc arc_from_index
  construct_arc-takes k first =
      run->>= num_threads num_words (find_next_available_thread_index num_threads) arc_from_index o
        m
      ∙ rw (find_next_available_thread_index-finds num_threads num_words o m k first) refl

  -- Where every slot is taken `construct` returns `NoThreadIdAvailable` and changes nothing.
  pub construct_arc-full :
      ((j : ℕ) → j < num_threads → m.state.thread_index_slots j ≢ 0)
      → run num_threads num_words (construct_arc num_threads) o m
        ≡ returned (err (no_thread_id_available no_thread_id_available_error)) o m
  unfolding run construct_arc arc_from_index
  construct_arc-full taken =
      run->>= num_threads num_words (find_next_available_thread_index num_threads) arc_from_index o
        m
      ∙ rw (find_next_available_thread_index-full num_threads num_words o m taken) refl

  drop_arc-frees :
      (k : ℕ)
      → num_threads + 1 < 2 ^ 64
      → k < num_threads
      → run num_threads num_words (drop_arc (arc_of_index k)) o m ≡ returned tt o (slot_freed m k)
  unfolding drop_arc
  drop_arc-frees k fits inside =
      rw (convert-convert k (omega arith)) (release-frees num_threads num_words o m k inside)

arc_kcas-eq :
    (num_threads num_words fuel k : ℕ) (words : ℕ → KCasWord)
    → arc_kcas num_threads num_words fuel (arc_of_index k) words
      ≡ perform_kcas num_threads num_words fuel (convert_thread_index_to_thread_id k) words
unfolding arc_kcas
arc_kcas-eq num_threads num_words fuel k words = refl

abbrev arc_interface : (num_threads num_words : ℕ) → StateWrapper num_threads num_words
arc_interface num_threads num_words = record {
  Wrapper = ArcStateWrapper;
  WrapperError = ArcStateWrapperError;
  of_index = arc_of_index;
  construct = construct_arc num_threads;
  perform = arc_kcas num_threads num_words;
  drop = drop_arc;
  construct-takes = construct_arc-takes num_threads num_words;
  perform-eq = arc_kcas-eq num_threads num_words;
  drop-frees = drop_arc-frees num_threads num_words;
}

-- A thread that constructs the wrapper with a free slot, performs one operation and drops the
-- wrapper, without interference and with more fuel than there are spurious failures, gets the result
-- of the specification and leaves the memory of the specification, and the slots as it found them. The
-- targets are different and hold values of the application, and the sequence number of the slot fits
-- beside the thread identifier.
pub arc_session-ends :
    (num_threads num_words fuel : ℕ) (words : ℕ → KCasWord) (m : Memory) (o : List Bool) (k : ℕ)
    → IsSession num_threads num_words k words m
    → spurious_failures o < fuel
    → (o' : List Bool) × (m' : Memory) × (run num_threads num_words
          (session
            (construct_arc num_threads)
            (λ wrapper. arc_kcas num_threads num_words fuel wrapper words)
            drop_arc)
          o
          m
        ≡ returned (ok (multi_word_cas num_words words m.targets).0) o' m')
      × IsSessionEnd num_threads num_words k words m m'
arc_session-ends num_threads num_words = session-ends (arc_interface num_threads num_words)
