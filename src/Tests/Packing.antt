-- ===== src/Tests/Packing.antt =====
-- The packings of src/types.rs at concrete inputs.
use kcas.Base.{
  ℕ, ◌+◌, ◌*◌, ◌/◌, ◌^◌, ◌≤◌, ◌<◌, true, false, ◌≡◌, ◌⊎◌, ◌↔◌, inl, refl, ok, err, arith,
}
use kcas.Stage.{Stage, setting}
use kcas.Types.{
  construct_stage_and_sequence, extract_stage_from_stage_and_sequence,
  extract_sequence_from_stage_and_sequence, get_bit_length_of_num_threads, bit_length_loop,
  is_value_a_kcas_marker, construct_thread_and_sequence, extract_thread_from_thread_and_sequence,
  extract_sequence_from_thread_and_sequence,
}
use kcas.Types.StageAndSequence.{stage_and_sequence_round_trip, extract_stage_cases}
use kcas.Types.Marker.{
  sequence_limit, thread_and_sequence_round_trip, application_value_is_no_marker,
  is_value_a_kcas_marker_iff,
}
use kcas.Types.BitLength.{IsBitLength, get_bit_length_of_num_threads-IsBitLength}
use kcas.Kcas.{next_sequence}
use kcas.Kcas.Sequence.{next_sequence-eq-suc}

-- The greatest of `32 + 1` identifiers needs 6 bits, 1 thread needs 2.
bit_length_32 : get_bit_length_of_num_threads 32 ≡ 6
unfolding get_bit_length_of_num_threads bit_length_loop
bit_length_32 = refl

bit_length_65536 : get_bit_length_of_num_threads 65536 ≡ 17
unfolding get_bit_length_of_num_threads bit_length_loop
bit_length_65536 = refl

pub bits_of_4 : get_bit_length_of_num_threads 4 ≡ 3
unfolding get_bit_length_of_num_threads bit_length_loop
bits_of_4 = refl

pub limit_of_4 : sequence_limit 4 ≡ 2 ^ 61
limit_of_4 = rw bits_of_4 refl

stage_and_sequence_round_trip_example :
    (extract_stage_from_stage_and_sequence (construct_stage_and_sequence setting 5) ≡ ok setting)
    × (extract_sequence_from_stage_and_sequence (construct_stage_and_sequence setting 5) ≡ 5)
stage_and_sequence_round_trip_example = stage_and_sequence_round_trip setting 5 (omega arith)

-- The stage bits of `7 << 61` are no stage.
extract_stage_cases_example :
    ((stage : Stage) × (extract_stage_from_stage_and_sequence (7 * 2 ^ 61 + 1) ≡ ok stage)
      × (construct_stage_and_sequence stage
            (extract_sequence_from_stage_and_sequence (7 * 2 ^ 61 + 1))
          ≡ 7 * 2 ^ 61 + 1))
    ⊎ ((extract_stage_from_stage_and_sequence (7 * 2 ^ 61 + 1)
          ≡ err (record { value = (7 * 2 ^ 61 + 1) / 2 ^ 61 }))
        × (6 ≤ (7 * 2 ^ 61 + 1) / 2 ^ 61))
extract_stage_cases_example = extract_stage_cases (7 * 2 ^ 61 + 1) (omega arith)

get_bit_length_of_num_threads-IsBitLength_example :
    IsBitLength (4 + 1) (get_bit_length_of_num_threads 4)
get_bit_length_of_num_threads-IsBitLength_example =
    get_bit_length_of_num_threads-IsBitLength 4 (omega arith)

thread_and_sequence_round_trip_example :
    (extract_thread_from_thread_and_sequence 4 (construct_thread_and_sequence 4 3 9) ≡ 3)
    × (extract_sequence_from_thread_and_sequence 4 (construct_thread_and_sequence 4 3 9) ≡ 9)
thread_and_sequence_round_trip_example =
    thread_and_sequence_round_trip 4 3 9 (omega arith) (omega arith) (omega (arith, limit_of_4))

application_value_is_no_marker_example : is_value_a_kcas_marker 4 100 ≡ false
application_value_is_no_marker_example =
    application_value_is_no_marker 4 100 (omega arith) (inl (omega (arith, limit_of_4)))

is_value_a_kcas_marker_iff_example : (is_value_a_kcas_marker 4 (3 * 2 ^ 61 + 9) ≡ true) ↔ (
    (thread_id : ℕ) × (sequence : ℕ) × (1 ≤ thread_id)
    × (thread_id ≤ 4)
    × (sequence < sequence_limit 4)
    × (3 * 2 ^ 61 + 9 ≡ construct_thread_and_sequence 4 thread_id sequence))
is_value_a_kcas_marker_iff_example = is_value_a_kcas_marker_iff 4 (3 * 2 ^ 61 + 9) (omega arith)

next_sequence-eq-suc_example : next_sequence 4 41 ≡ 41 + 1
next_sequence-eq-suc_example = next_sequence-eq-suc 4 41 (omega arith) (omega arith)
