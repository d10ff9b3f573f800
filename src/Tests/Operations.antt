-- ===== src/Tests/Operations.antt =====
-- Operations of a thread by itself, at concrete inputs: thread 2 of 4, and three words.
use kcas.Base.{
  ℕ, ◌+◌, ◌-◌, ◌*◌, ◌^◌, ◌<◌, Bool, true, List, [], ◌∷◌, ok, err, ◌≡◌, inl, refl, arith,
}
use kcas.Base.Family.{Distinct}
use kcas.Word.{usize_max, ◌>>>◌}
use kcas.Stage.{Stage, inactive}
use kcas.Err.{FatalError, Error}
use kcas.Types.{
  convert_thread_id_to_thread_index, construct_stage_and_sequence,
  extract_sequence_from_stage_and_sequence, construct_thread_and_sequence,
  extract_thread_from_thread_and_sequence, get_bit_length_of_num_threads,
}
use kcas.Types.StageAndSequence.{extract_sequence-construct}
use kcas.Types.Marker.{IsApplicationValue, num_sequence_bits, sequence_limit}
use kcas.Kcas.{State, State_new, KCasWord, KCasWord_new}
use kcas.Kcas.Operation.{perform_kcas}
use kcas.Kcas.Memory.{Memory, run, returned}
use kcas.Solo.Contract.{IsCall, own_sequence, IsReady, IsSwapped}
use kcas.Solo.Operation.{kcas-succeeds, kcas-fails, kcas-refuses}
use kcas.Solo.Spec.{multi_word_cas, kcas-refines-multi_word_cas}
use kcas.Tests.Packing.{bits_of_4, limit_of_4}

-- The words at addresses 10, 11 and 12, with the values 0, 100 and 200.
abbrev pub words : ℕ → KCasWord
words w = KCasWord_new (10 + w) (100 * w) (100 * w + 50)

-- Slot 1 has come to its operation number 7.
abbrev pub state : State
state = record (State_new) {
  stage_and_sequence_numbers = λ i. construct_stage_and_sequence inactive 7;
}

abbrev pub memory : Memory
memory = record { state = state; targets = λ a. 100 * (a - 10) }

-- The value 201 in place of 200 at address 12, and a value with reserved bits.
abbrev pub memory_off : Memory
memory_off = record { state = state; targets = λ a. 100 * (a - 10) + (a - 11) }

abbrev pub memory_illegal : Memory
memory_illegal = record { state = state; targets = λ a. 100 * (a - 10) + (a - 11) * (5 * 2 ^ 61) }

pub words-apart : Distinct 3 (λ w. (words w).target_address)
words-apart j k p q e = omega arith

call : IsCall 4 3 2 words
call = record {
  fits = omega arith;
  positive = omega arith;
  in_use = omega arith;
  references = λ w below e. omega arith;
  apart = words-apart;
}

index_of_2 : convert_thread_id_to_thread_index 2 ≡ 1
unfolding convert_thread_id_to_thread_index
index_of_2 = refl

sequence_of_7 :
    extract_sequence_from_stage_and_sequence (construct_stage_and_sequence inactive 7) ≡ 7
sequence_of_7 = extract_sequence-construct inactive 7 (omega arith)

pub room :
    extract_sequence_from_stage_and_sequence (construct_stage_and_sequence inactive 7)
    < sequence_limit 4
room = omega (arith, sequence_of_7, limit_of_4)

pub values : (w : ℕ) → w < 3 → IsApplicationValue 4 (memory_off.targets (words w).target_address)
values w below = inl (omega (arith, limit_of_4))

-- One spurious failure of the weak compare-exchange on the way.
kcas-succeeds_example :
    (o' : List Bool) × (m' : Memory) × (run 4 3 (perform_kcas 4 3 2 2 words) (true ∷ []) memory
      ≡ returned (ok tt) o' m')
    × IsSwapped 3 words memory m'
    × IsReady 4 2 memory m'
kcas-succeeds_example =
    kcas-succeeds 4 3 2 2 words memory (true ∷ []) call (λ w below. omega arith) (omega arith)

kcas-fails_example :
    (o' : List Bool) × (m' : Memory) × (run 4 3 (perform_kcas 4 3 1 2 words) [] memory_off
      ≡ returned (err Error.value_was_not_expected_value) o' m')
    × (m'.targets ≡ memory_off.targets)
    × IsReady 4 2 memory_off m'
kcas-fails_example =
    kcas-fails 4 3 1 2 words memory_off [] 2 call room (omega arith) (λ w below. omega arith)
      (λ e. omega arith) (values 2 (omega arith)) (omega arith)

-- The reserved bits of 5 * 2 ^ 61 + 200 say thread 5, and there are 4.
illegal_thread : extract_thread_from_thread_and_sequence 4 (200 + 1 * (5 * 2 ^ 61)) ≡ 5
unfolding extract_thread_from_thread_and_sequence
illegal_thread = rw bits_of_4 refl

reserved_ones : usize_max >>> num_sequence_bits 4 ≡ 7
reserved_ones = rw bits_of_4 refl

kcas-refuses_example :
    (o' : List Bool) × (m' : Memory) × (run 4 3 (perform_kcas 4 3 1 2 words) [] memory_illegal
      ≡ returned
          (err (
            Error.fatal (
              FatalError.top_bits_of_value_were_illegal 2 12
                (200 + 1 * (5 * 2 ^ 61))
                (get_bit_length_of_num_threads 4))))
          o'
          m')
    × ((w : ℕ)
        → w < 2
        → m'.targets (words w).target_address
          ≡ construct_thread_and_sequence 4 2 (own_sequence memory_illegal 2))
    × (m'.state.stage_and_sequence_numbers (convert_thread_id_to_thread_index 2)
        ≡ construct_stage_and_sequence Stage.claiming (own_sequence memory_illegal 2))
kcas-refuses_example =
    kcas-refuses 4 3 1 2 words memory_illegal [] 2 call room (omega arith) (λ w below. omega arith)
      (λ e. omega arith) (omega (arith, illegal_thread))
      (omega (arith, illegal_thread, reserved_ones)) (omega arith)

kcas-refines-multi_word_cas_example :
    (o' : List Bool) × (m' : Memory) × (run 4 3 (perform_kcas 4 3 1 2 words) [] memory_off
      ≡ returned (multi_word_cas 3 words memory_off.targets).0 o' m')
    × (m'.targets ≡ (multi_word_cas 3 words memory_off.targets).1)
    × IsReady 4 2 memory_off m'
kcas-refines-multi_word_cas_example =
    kcas-refines-multi_word_cas 4 3 1 2 words memory_off [] call room values (omega arith)
