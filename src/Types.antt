-- ===== src/Types.antt =====
-- src/types.rs: identifiers, and the two packings of a word, (stage, sequence) and (thread, sequence).
pub mod BitLength
pub mod StageAndSequence
pub mod Marker
use kcas.Base.{
  ℕ, zero, suc, ◌+◌, ◌-◌, bit_and, bit_or, Bool, not, ◌&&◌, Result, ◌==◌, ltb, leb, if◌then◌else◌,
}
use kcas.Word.{usize_bits, usize_max, ◌<<◌, ◌>>>◌, complement, wrapping_add, wrapping_sub}
use kcas.Stage.{Stage, as_usize, StageOutOfBoundsError, try_from}

-- The identifiers are `usize` in the source; the names say which number is meant.
abbrev pub WordNum : Type 0
WordNum = ℕ

abbrev pub SequenceNum : Type 0
SequenceNum = ℕ

abbrev pub ThreadId : Type 0
ThreadId = ℕ

abbrev pub ThreadIndex : Type 0
ThreadIndex = ℕ

abbrev pub StageAndSequence : Type 0
StageAndSequence = ℕ

abbrev pub ThreadAndSequence : Type 0
ThreadAndSequence = ℕ

unfoldable pub convert_thread_id_to_thread_index : ThreadId → ThreadIndex
convert_thread_id_to_thread_index thread_id = wrapping_sub thread_id 1

unfoldable pub convert_thread_index_to_thread_id : ThreadIndex → ThreadId
convert_thread_index_to_thread_id thread_index = wrapping_add thread_index 1

abbrev pub stage_bit_length : ℕ
stage_bit_length = 3

unfoldable pub sequence_mask_for_stage_and_sequence : ℕ
sequence_mask_for_stage_and_sequence =
    let num_sequence_bits : ℕ = usize_bits - stage_bit_length in complement (7 << num_sequence_bits)

unfoldable pub construct_stage_and_sequence : Stage → SequenceNum → StageAndSequence
construct_stage_and_sequence stage sequence =
    bit_or (as_usize stage << (usize_bits - stage_bit_length)) sequence

unfoldable pub extract_stage_from_stage_and_sequence :
    StageAndSequence → Result Stage StageOutOfBoundsError
extract_stage_from_stage_and_sequence stage_and_sequence =
    let stage_as_num : ℕ = stage_and_sequence >>> (usize_bits - stage_bit_length) in
    try_from stage_as_num

unfoldable pub extract_sequence_from_stage_and_sequence : StageAndSequence → SequenceNum
extract_sequence_from_stage_and_sequence stage_and_sequence =
    bit_and stage_and_sequence sequence_mask_for_stage_and_sequence

-- `while i != usize::BITS && num_threads_plus_one >> i != 0 { i += 1 }`, at most `rounds` times.
unfoldable pub bit_length_loop : (rounds num_threads_plus_one i : ℕ) → ℕ
bit_length_loop zero num_threads_plus_one i = i
bit_length_loop (suc rounds) num_threads_plus_one i =
    let rest = bit_length_loop rounds num_threads_plus_one (i + 1) in
    if not (i == usize_bits) && not (num_threads_plus_one >>> i == 0) then rest else i

-- `i` is `usize_bits` after as many rounds, so these are enough.
unfoldable pub get_bit_length_of_num_threads : (num_threads : ℕ) → ℕ
get_bit_length_of_num_threads num_threads =
    let num_threads_plus_one : ℕ = wrapping_add num_threads 1 in
    bit_length_loop usize_bits num_threads_plus_one 0

unfoldable pub get_sequence_mask_for_thread_and_sequence : (num_threads : ℕ) → ℕ
get_sequence_mask_for_thread_and_sequence num_threads =
    let bit_length_of_num_threads : ℕ = get_bit_length_of_num_threads num_threads in
    let num_sequence_bits : ℕ = usize_bits - bit_length_of_num_threads in
    complement (usize_max << num_sequence_bits)

unfoldable pub construct_thread_and_sequence :
    (num_threads : ℕ) → ThreadId → SequenceNum → ThreadAndSequence
construct_thread_and_sequence num_threads thread_id sequence =
    bit_or (thread_id << (usize_bits - get_bit_length_of_num_threads num_threads)) sequence

unfoldable pub extract_thread_from_thread_and_sequence :
    (num_threads : ℕ) → ThreadAndSequence → ThreadId
extract_thread_from_thread_and_sequence num_threads thread_and_sequence =
    thread_and_sequence >>> (usize_bits - get_bit_length_of_num_threads num_threads)

unfoldable pub extract_sequence_from_thread_and_sequence :
    (num_threads : ℕ) → ThreadAndSequence → SequenceNum
extract_sequence_from_thread_and_sequence num_threads thread_and_sequence =
    bit_and thread_and_sequence (get_sequence_mask_for_thread_and_sequence num_threads)

unfoldable pub is_value_a_kcas_marker : (num_threads : ℕ) → (value : ℕ) → Bool
is_value_a_kcas_marker num_threads value =
    let top_bits : ℕ = extract_thread_from_thread_and_sequence num_threads value in
    ltb 0 top_bits && leb top_bits num_threads
