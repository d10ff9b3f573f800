-- ===== src/Tests/Helping.antt =====
-- A helper at a concrete input: thread 1 of 2 has stopped in the stage `Setting` of its operation with
-- number 0, with the first of its three targets set.
use kcas.Base.{
  ℕ, zero, suc, ◌+◌, ◌-◌, ◌*◌, ◌^◌, ◌<◌, List, [], Bool, ok, err, ◌≡◌, inl, inr, refl, arith,
  if◌then◌else◌, ◌==◌, ne→==,
}
use kcas.Base.Family.{update}
use kcas.Stage.{claiming, setting, reverting, successful, reverted}
use kcas.Types.{
  construct_stage_and_sequence, construct_thread_and_sequence, convert_thread_id_to_thread_index,
  convert_thread_index_to_thread_id, get_bit_length_of_num_threads, bit_length_loop,
}
use kcas.Types.Marker.{sequence_limit}
use kcas.Sync.{◌>>=◌}
use kcas.Kcas.{State, State_new, HelpError}
use kcas.Kcas.Claim.{cas_loop, after_help_claim}
use kcas.Err.{Error}
use kcas.Solo.Finish.Reaction.{ready, reaction-ends}
use kcas.Kcas.Concurrent.{
  handle_concurrent_stage_change_and_transition, help_handle_concurrent_stage_change_and_transition,
}
use kcas.Solo.Late.{late_claim-overwrites}
use kcas.Kcas.Operation.{help_thread}
use kcas.Kcas.Memory.{Memory, run, returned}
use kcas.Solo.Finish.{IsBeingSet, IsLeft, left_at, help_thread-finishes}
use kcas.Solo.Finish.Claim.{IsBeingClaimed, help_thread-finishes_claim}
use kcas.Solo.Finish.Revert.{restored, help_thread-finishes_revert}
use kcas.Tests.Operations.{words, words-apart}

abbrev pub stopped_state : State
stopped_state = record (State_new) {
  target_addresses = λ i w. (words w).target_address;
  expected_values = λ i w. (words w).expected_value;
  desired_values = λ i w. (words w).desired_value;
  stage_and_sequence_numbers = λ i. construct_stage_and_sequence setting 0;
}

abbrev pub stopped : Memory
stopped = record {
  state = stopped_state;
  targets = λ a. if a == 10 then 50 else construct_thread_and_sequence 2 1 0;
}

marker_value : construct_thread_and_sequence 2 1 0 ≡ 2 ^ 62
unfolding construct_thread_and_sequence get_bit_length_of_num_threads bit_length_loop
marker_value = refl

pub limit_of_2 : sequence_limit 2 ≡ 2 ^ 62
unfolding get_bit_length_of_num_threads bit_length_loop
limit_of_2 = refl

index_of_1 : convert_thread_id_to_thread_index 1 ≡ 0
unfolding convert_thread_id_to_thread_index
index_of_1 = refl

being_set :
    (w : ℕ)
    → w < 3
    → IsBeingSet (construct_thread_and_sequence 2 1 0) (100 * w + 50) (stopped.targets (10 + w))
being_set zero below = inr (refl, λ e. omega (arith, e, marker_value))
being_set (suc w) below = inl (rw (ne→== (10 + suc w) 10 (omega arith)) refl)

start : IsLeft 2 3 1 0 setting stopped
start = record {
  fits = omega arith;
  in_use = omega arith;
  room = omega (arith, limit_of_2);
  small = omega arith;
  row = record {
    index = omega (arith, index_of_1);
    not_null = λ w below e. omega arith;
    apart = words-apart;
  };
  word = refl;
}

help_thread-finishes_example :
    (o' : List Bool) × (run 2 3 (help_thread 2 3 1 (construct_thread_and_sequence 2 1 0)) [] stopped
      ≡ returned (ok tt) o' (
          left_at 3 1 0 successful
            (stopped_state.desired_values (convert_thread_id_to_thread_index 1))
            stopped))
help_thread-finishes_example = help_thread-finishes 2 3 0 1 0 stopped [] start being_set

-- The same thread has stopped in the stage `Claiming`, with the first of its targets claimed.
abbrev pub claiming_state : State
claiming_state = record stopped_state {
  stage_and_sequence_numbers = λ i. construct_stage_and_sequence claiming 0;
}

abbrev pub claimed : Memory
claimed = record {
  state = claiming_state;
  targets = λ a. if a == 10 then construct_thread_and_sequence 2 1 0 else 100 * (a - 10);
}

being_claimed :
    (w : ℕ)
    → w < 3
    → IsBeingClaimed (construct_thread_and_sequence 2 1 0) (100 * w) (claimed.targets (10 + w))
being_claimed zero below = inr (refl, λ e. omega (arith, e, marker_value))
being_claimed (suc w) below = inl (rw (ne→== (10 + suc w) 10 (omega arith)) (omega arith))

claimed-IsLeft : IsLeft 2 3 1 0 claiming claimed
claimed-IsLeft = record {
  fits = omega arith;
  in_use = omega arith;
  room = omega (arith, limit_of_2);
  small = omega arith;
  row = record {
    index = omega (arith, index_of_1);
    not_null = λ w below e. omega arith;
    apart = words-apart;
  };
  word = refl;
}

help_thread-finishes_claim_example :
    (o' : List Bool) × (run 2 3 (help_thread 2 3 2 (construct_thread_and_sequence 2 1 0)) [] claimed
      ≡ returned (ok tt) o' (
          left_at 3 1 0 successful
            (claiming_state.desired_values (convert_thread_id_to_thread_index 1))
            claimed))
help_thread-finishes_claim_example =
    help_thread-finishes_claim 2 3 1 1 0 claimed [] claimed-IsLeft being_claimed (omega arith)

-- It has stopped in the stage `Reverting`, with two of its targets still claimed.
abbrev reverting_state : State
reverting_state = record stopped_state {
  stage_and_sequence_numbers = λ i. construct_stage_and_sequence reverting 0;
}

abbrev reverting_memory : Memory
reverting_memory = record { state = reverting_state; targets = stopped.targets }

reverting-IsLeft : IsLeft 2 3 1 0 reverting reverting_memory
reverting-IsLeft = record {
  fits = omega arith;
  in_use = omega arith;
  room = omega (arith, limit_of_2);
  small = omega arith;
  row = record {
    index = omega (arith, index_of_1);
    not_null = λ w below e. omega arith;
    apart = words-apart;
  };
  word = refl;
}

help_thread-finishes_revert_example :
    (o' : List Bool) × (run 2 3
        (help_thread 2 3 1 (construct_thread_and_sequence 2 1 0))
        []
        reverting_memory
      ≡ returned (ok tt) o' (
          left_at 3 1 0 reverted
            (λ w.
              restored
                (construct_thread_and_sequence 2 1 0)
                (reverting_state.expected_values (convert_thread_id_to_thread_index 1) w)
                (reverting_memory.targets
                  (reverting_state.target_addresses (convert_thread_id_to_thread_index 1) w)))
            reverting_memory))
help_thread-finishes_revert_example =
    help_thread-finishes_revert 2 3 0 1 0 reverting_memory [] reverting-IsLeft (omega arith)
      (omega arith)

reaction-ends_example :
    (o' : List Bool) × (run 2 3
        (handle_concurrent_stage_change_and_transition 2 3 1
          (convert_thread_id_to_thread_index 1)
          0
          (construct_thread_and_sequence 2 1 0)
          claiming
          reverting)
        []
        reverting_memory
      ≡ returned (err Error.value_was_not_expected_value) o' (ready 2 3 1 0 reverting_memory))
reaction-ends_example =
    reaction-ends 2 3 0 1 0 claiming reverting reverting_memory [] reverting-IsLeft (inr (inl refl))
      (omega arith) (omega arith)

-- Thread index 0 is in its operation with number 1: it wants to swap the target 10 from 5 to 0. The
-- helper is still with its operation number 0, which wanted to swap it from 0 to 5.
abbrev gone_on_state : State
gone_on_state = record (State_new) {
  target_addresses = λ i w. 10;
  expected_values = λ i w. 5;
  desired_values = λ i w. 0;
  stage_and_sequence_numbers = λ i. construct_stage_and_sequence successful 1;
}

abbrev gone_on : Memory
gone_on = record { state = gone_on_state; targets = λ a. 0 }

late_claim-overwrites_example :
    (o' : List Bool) × (run 2 1
        (cas_loop 2 (help_thread 2 1 1) 0 0 (construct_thread_and_sequence 2 1 0) 1 0 10 0
          >>= after_help_claim 2 1
              (help_handle_concurrent_stage_change_and_transition 2 1 1)
              0
              0
              (construct_thread_and_sequence 2 1 0))
        []
        gone_on
      ≡ returned
          (err (HelpError.sequence_changed_while_helping (convert_thread_index_to_thread_id 0) 0 1))
          o'
          (record { state = gone_on_state; targets = update (λ a. 0) 10 5 }))
late_claim-overwrites_example =
    late_claim-overwrites 2 1 0 0 0 1 (construct_thread_and_sequence 2 1 0) successful gone_on
      (help_handle_concurrent_stage_change_and_transition 2 1 1) (help_thread 2 1 1) []
      (record {
        index = omega arith;
        not_null = λ w below e. omega arith;
        apart = λ j k p q e. omega arith;
      })
      (omega arith) (omega arith) (omega arith) (λ e. omega (arith, e)) refl
      (λ j before. absurd (omega arith)) (omega arith)
