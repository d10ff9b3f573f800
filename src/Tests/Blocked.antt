-- ===== src/Tests/Blocked.antt =====
-- A call of `kcas` at a target that holds the marker of an operation that is over, after the schedule
-- of Tests/Late.
use kcas.Base.{ℕ, ◌^◌, ◌≢◌, [], ◌≡◌, inl, refl, ap, ◌∙◌, arith}
use kcas.Stage.{inactive}
use kcas.Types.{
  construct_thread_and_sequence, construct_stage_and_sequence, convert_thread_id_to_thread_index,
  extract_thread_from_thread_and_sequence, extract_sequence_from_thread_and_sequence,
  extract_stage_from_stage_and_sequence, extract_sequence_from_stage_and_sequence,
  get_bit_length_of_num_threads, bit_length_loop,
}
use kcas.Types.StageAndSequence.{extract_stage-construct, extract_sequence-construct}
use kcas.Types.Marker.{sequence_limit, thread_and_sequence_round_trip}
use kcas.Kcas.{KCasWord, KCasWord_new}
use kcas.Kcas.Operation.{perform_kcas}
use kcas.Kcas.Memory.{run, exhausted}
use kcas.Solo.Contract.{IsCall, own_sequence}
use kcas.Solo.Help.{IsHelpee, current_sequence}
use kcas.Solo.Blocked.{kcas-waits}
use kcas.Tests.Late.{stuck, too_late}

-- Thread 3 wants to swap the target from 0 to 7. Thread 1 has performed two operations, and the marker
-- is that of the first one.
abbrev words : ℕ → KCasWord
words w = KCasWord_new 10 0 7

abbrev spent_marker : ℕ
spent_marker = construct_thread_and_sequence 3 1 0

marker_value : spent_marker ≡ 2 ^ 61
unfolding construct_thread_and_sequence get_bit_length_of_num_threads bit_length_loop
marker_value = refl

limit_of_3 : sequence_limit 3 ≡ 2 ^ 61
unfolding get_bit_length_of_num_threads bit_length_loop
limit_of_3 = refl

marker_fields :
    (extract_thread_from_thread_and_sequence 3 spent_marker ≡ 1)
    × (extract_sequence_from_thread_and_sequence 3 spent_marker ≡ 0)
marker_fields =
    thread_and_sequence_round_trip 3 1 0 (omega arith) (omega arith) (omega (arith, limit_of_3))

call : IsCall 3 1 3 words
call = record {
  fits = omega arith;
  positive = omega arith;
  in_use = omega arith;
  references = λ w below e. omega (arith, e);
  apart = λ j k p q e. omega (arith, p, q);
}

stage_word_of_1 :
    stuck.memory.state.stage_and_sequence_numbers
      (convert_thread_id_to_thread_index (extract_thread_from_thread_and_sequence 3 spent_marker))
    ≡ construct_stage_and_sequence inactive 2
unfolding convert_thread_id_to_thread_index
stage_word_of_1 =
    ap (λ t. stuck.memory.state.stage_and_sequence_numbers (convert_thread_id_to_thread_index t))
      marker_fields.0
    ∙ too_late.5

helpee : IsHelpee 3 spent_marker stuck.memory inactive
helpee = record {
  fits = omega arith;
  positive = omega (arith, marker_fields.0);
  in_use = omega (arith, marker_fields.0);
  holds =
      ap extract_stage_from_stage_and_sequence stage_word_of_1
      ∙ extract_stage-construct inactive 2 (omega arith);
}

spent :
    current_sequence 3 spent_marker stuck.memory
    ≢ extract_sequence_from_thread_and_sequence 3 spent_marker
spent e = omega (
  arith,
  e,
  marker_fields.1,
  ap extract_sequence_from_stage_and_sequence stage_word_of_1,
  extract_sequence-construct inactive 2 (omega arith),
)

own_sequence_of_3 : own_sequence stuck.memory 3 ≡ 0
unfolding convert_thread_id_to_thread_index
own_sequence_of_3 =
    ap extract_sequence_from_stage_and_sequence too_late.6
    ∙ extract_sequence-construct inactive 0 (omega arith)

kcas-waits_example : run 3 1 (perform_kcas 3 1 5 3 words) [] stuck.memory ≡ exhausted
kcas-waits_example =
    kcas-waits 3 1 5 3 spent_marker inactive words stuck.memory [] 0 call
      (omega (arith, own_sequence_of_3, limit_of_3)) (omega arith)
      (λ w before. absurd (omega arith)) too_late.4 (λ e. omega (arith, e, marker_value)) helpee
      (inl spent) (λ e. omega (arith, e, marker_fields.0)) (omega arith)
