-- ===== src/Wrapper/Session.antt =====
-- What the three wrappers promise, as an interface, and a session of a thread on top of it: construct
-- a wrapper, perform one operation, drop the wrapper.
pub mod Arc
pub mod Ref
pub mod Unsafe
use kcas.Base.{
  ℕ, zero, suc, ◌+◌, ◌%◌, ◌^◌, ◌≤◌, ◌<◌, min, Bool, true, List, Result, ok, err, ◌≡◌, ◌≢◌, refl,
  sym, subst, ◌∙◌, ap, arith, lt→ltb,
}
use kcas.Base.Family.{Distinct, update, update_undo}
use kcas.Err.{Error}
use kcas.Types.{
  construct_stage_and_sequence, convert_thread_id_to_thread_index,
  convert_thread_index_to_thread_id, extract_sequence_from_stage_and_sequence,
}
use kcas.Types.Marker.{IsApplicationValue, sequence_limit}
use kcas.Stage.{Stage}
use kcas.Sync.{
  Prog, ret, ◌>>=◌, ◌>>◌, num_threads_in_use, thread_index_slot, atomic_store, atomic_fetch_min,
}
use kcas.Kcas.{KCasWord, next_sequence}
use kcas.Kcas.Operation.{perform_kcas}
use kcas.Kcas.Memory.{Memory, read, write, in_bounds, run, returned}
use kcas.Kcas.Memory.Returns.{run->>=, spurious_failures}
use kcas.Solo.Contract.{IsCall, own_sequence, IsReady}
use kcas.Solo.Spec.{multi_word_cas, kcas-refines-multi_word_cas}
use kcas.Wrapper.Search.{slot_taken, IsFirstFree}

-- Thread slot `i` is free again, and the count of threads is at most 1.
abbrev pub slot_freed : Memory → ℕ → Memory
slot_freed m i =
    write (write m (thread_index_slot i) 0) num_threads_in_use (min m.state.num_threads_in_use 1)

-- The operations of a wrapper and what they do when they run by themselves.
pub record StateWrapper (num_threads num_words : ℕ) : Type 1 where
  pub Wrapper : Type 0
  pub WrapperError : Type 0
  pub of_index : ℕ → Wrapper
  pub construct : Prog (Result Wrapper WrapperError)
  pub perform : (fuel : ℕ) → Wrapper → (ℕ → KCasWord) → Prog (Result (Unit {0}) Error)
  pub drop : Wrapper → Prog (Unit {0})
  pub construct-takes :
      (o : List Bool) (m : Memory) (k : ℕ)
      → IsFirstFree num_threads m k
      → run num_threads num_words construct o m ≡ returned (ok (of_index k)) o (slot_taken m k)
  pub perform-eq :
      (fuel k : ℕ) (words : ℕ → KCasWord)
      → perform fuel (of_index k) words
        ≡ perform_kcas num_threads num_words fuel (convert_thread_index_to_thread_id k) words
  pub drop-frees :
      (o : List Bool) (m : Memory) (k : ℕ)
      → num_threads + 1 < 2 ^ 64
      → k < num_threads
      → run num_threads num_words (drop (of_index k)) o m ≡ returned tt o (slot_freed m k)

-- The identifier of an index is one more, and leads back to it.
pub convert-convert :
    (k : ℕ)
    → k + 1 < 2 ^ 64
    → convert_thread_id_to_thread_index (convert_thread_index_to_thread_id k) ≡ k
unfolding convert_thread_id_to_thread_index convert_thread_index_to_thread_id
convert-convert k small = omega arith

pub thread_id-eq-suc : (k : ℕ) → k + 1 < 2 ^ 64 → convert_thread_index_to_thread_id k ≡ k + 1
unfolding convert_thread_index_to_thread_id
thread_id-eq-suc k small = omega arith

-- What the three `drop`s do with the slot.
pub release-frees :
    (num_threads num_words : ℕ) (o : List Bool) (m : Memory) (k : ℕ)
    → k < num_threads
    → run num_threads num_words
        (atomic_store (thread_index_slot k) 0 >> atomic_fetch_min num_threads_in_use 1)
        o
        m
      ≡ returned tt o (slot_freed m k)
unfolding run ◌>>=◌ in_bounds read write
release-frees num_threads num_words o m k inside = rw (run, lt→ltb k num_threads inside) refl

-- A thread that constructs a wrapper, performs one operation and drops the wrapper.
abbrev pub perform_and_drop :
    {W E : Type 0}
    → (perform : W → Prog (Result (Unit {0}) Error)) → (drop : W → Prog (Unit {0})) → Result W E
    → Prog (Result (Result (Unit {0}) Error) E)
perform_and_drop perform drop (ok wrapper) =
    perform wrapper >>= λ result. drop wrapper >> ret (ok result)
perform_and_drop perform drop (err e) = ret (err e)

abbrev pub session :
    {W E : Type 0}
    → (construct : Prog (Result W E)) → (perform : W → Prog (Result (Unit {0}) Error))
    → (drop : W → Prog (Unit {0})) → Prog (Result (Result (Unit {0}) Error) E)
session construct perform drop = construct >>= perform_and_drop perform drop

-- A session starts in a state with slot `k` as the first free one, with different words that hold
-- values of the application, and a sequence number that fits beside the thread identifier.
pub record IsSession (num_threads num_words k : ℕ) (words : ℕ → KCasWord) (m : Memory)
    : Type 0 where
  pub fits : num_threads + 1 < 2 ^ 64
  pub first : IsFirstFree num_threads m k
  pub references : (w : ℕ) → w < num_words → (words w).target_address ≢ 0
  pub apart : Distinct num_words (λ w. (words w).target_address)
  pub room :
      extract_sequence_from_stage_and_sequence (m.state.stage_and_sequence_numbers k)
      < sequence_limit num_threads
  pub values :
      (w : ℕ) → w < num_words → IsApplicationValue num_threads (m.targets (words w).target_address)

-- A session has the effect of the specification on the targets, and leaves the slots of the threads
-- as it found them, with the stage of its own slot inactive and the sequence number advanced.
pub record IsSessionEnd (num_threads num_words k : ℕ) (words : ℕ → KCasWord) (m m' : Memory)
    : Type 0 where
  pub targets : m'.targets ≡ (multi_word_cas num_words words m.targets).1
  pub slots : m'.state.thread_index_slots ≡ m.state.thread_index_slots
  pub stage :
      m'.state.stage_and_sequence_numbers k
      ≡ construct_stage_and_sequence Stage.inactive (
          next_sequence num_threads
            (extract_sequence_from_stage_and_sequence (m.state.stage_and_sequence_numbers k)))
  pub other_stages :
      (j : ℕ) → j ≢ k → m'.state.stage_and_sequence_numbers j ≡ m.state.stage_and_sequence_numbers j

session-IsCall :
    (num_threads num_words k : ℕ) (words : ℕ → KCasWord) (m : Memory)
    → IsSession num_threads num_words k words m
    → IsCall num_threads num_words (convert_thread_index_to_thread_id k) words
session-IsCall num_threads num_words k words m s =
    let identifier = thread_id-eq-suc k (omega (arith, s.fits, s.first.inside)) in
    record {
      fits = s.fits;
      positive = omega (arith, identifier);
      in_use = omega (arith, identifier, s.first.inside);
      references = s.references;
      apart = s.apart;
    }

-- The operation in the middle of the session.
session-performs :
    (num_threads num_words fuel : ℕ) (words : ℕ → KCasWord) (m : Memory) (o : List Bool) (k : ℕ)
    → IsSession num_threads num_words k words m
    → spurious_failures o < fuel
    → (o' : List Bool) × (m' : Memory) × (run num_threads num_words
          (perform_kcas num_threads num_words fuel (convert_thread_index_to_thread_id k) words)
          o
          (slot_taken m k)
        ≡ returned (multi_word_cas num_words words m.targets).0 o' m')
      × IsSessionEnd num_threads num_words k words m (slot_freed m' k)
unfolding write
session-performs num_threads num_words fuel words m o k s few =
    let back : convert_thread_id_to_thread_index (convert_thread_index_to_thread_id k) ≡ k =
      convert-convert k (omega (arith, s.fits, s.first.inside)) in
    let room : own_sequence (slot_taken m k) (convert_thread_index_to_thread_id k)
        < sequence_limit num_threads =
      rw back s.room in
    let (o', m', ended, swapped, ready) =
      kcas-refines-multi_word_cas num_threads num_words fuel (convert_thread_index_to_thread_id k)
        words (slot_taken m k) o (session-IsCall num_threads num_words k words m s) room s.values
        few in
    (
      o',
      m',
      ended,
      record {
        targets = swapped;
        slots =
            ap (λ f. update f k 0) ready.slots
            ∙ update_undo m.state.thread_index_slots k 1 0 s.first.free;
        stage =
            subst
              (λ j.
                m'.state.stage_and_sequence_numbers j
                ≡ construct_stage_and_sequence Stage.inactive (
                    next_sequence num_threads (
                      extract_sequence_from_stage_and_sequence
                        (m.state.stage_and_sequence_numbers j))))
              back ready.own;
        other_stages = λ j other. ready.other_stages j (λ e. other (e ∙ back));
      },
    )

module _ {num_threads num_words : ℕ} (interface : StateWrapper num_threads num_words) where
  pub session-ends :
      (fuel : ℕ) (words : ℕ → KCasWord) (m : Memory) (o : List Bool) (k : ℕ)
      → IsSession num_threads num_words k words m
      → spurious_failures o < fuel
      → (o' : List Bool) × (m' : Memory) × (run num_threads num_words
            (session interface.construct
              (λ wrapper. interface.perform fuel wrapper words)
              interface.drop)
            o
            m
          ≡ returned (ok (multi_word_cas num_words words m.targets).0) o' m')
        × IsSessionEnd num_threads num_words k words m m'
  unfolding run
  session-ends fuel words m o k s few =
      let wrapper = interface.of_index k in
      let perform = λ (x : interface.Wrapper). interface.perform fuel x words in
      let (o', m', ended, end) = session-performs num_threads num_words fuel words m o k s few in
      let result = (multi_word_cas num_words words m.targets).0 in
      let middle : run num_threads num_words (perform wrapper) o (slot_taken m k)
          ≡ returned result o' m' =
        rw (interface.perform-eq fuel k words) ended in
      (
        o',
        slot_freed m' k,
        run->>= num_threads num_words interface.construct (perform_and_drop perform interface.drop)
              o m
            ∙ rw (interface.construct-takes o m k s.first) (
                run->>= num_threads num_words (perform wrapper)
                  (λ r. interface.drop wrapper >> ret (ok r)) o (slot_taken m k)
                ∙ rw middle (
                    run->>= num_threads num_words (interface.drop wrapper) (λ _. ret (ok result)) o'
                      m'
                    ∙ rw (interface.drop-frees o' m' k s.fits s.first.inside) refl)),
        end,
      )
