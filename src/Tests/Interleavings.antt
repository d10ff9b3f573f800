-- ===== src/Tests/Interleavings.antt =====
-- Two threads on one state, at concrete schedules.
use kcas.Base.{ℕ, ◌+◌, ◌^◌, Bool, true, false, List, [], ◌∷◌, ◌≡◌, arith}
use kcas.Stage.{successful}
use kcas.Types.{
  construct_stage_and_sequence, convert_thread_id_to_thread_index,
  extract_sequence_from_stage_and_sequence,
}
use kcas.Types.StageAndSequence.{extract_stage-construct}
use kcas.Kcas.{State, State_new}
use kcas.Kcas.Operation.{perform_kcas, help_thread}
use kcas.Kcas.Memory.{Memory}
use kcas.Shared.Discipline.{Disciplined}
use kcas.Shared.Whole.{perform_kcas-Disciplined, help_thread-Disciplined}
use kcas.Shared.Schedule.{System, run_schedule, all_start, Rests}
use kcas.Shared.Forward.{IsForward}
use kcas.Shared.Ownership.{others-IsForward, others-sequence, others-final, IsFinal}
use kcas.Tests.Operations.{words, memory}

-- Thread index 0 saves its three words and goes on for five accesses; then thread index 1 moves.
abbrev first : List (ℕ × Bool)
first =
    (0, false)
    ∷ (0, false)
    ∷ (0, false)
    ∷ (0, false)
    ∷ (0, false)
    ∷ (0, false)
    ∷ (0, false)
    ∷ (0, false)
    ∷ (0, false)
    ∷ (0, false)
    ∷ (0, false)
    ∷ (0, false)
    ∷ (0, false)
    ∷ (0, false)
    ∷ (0, false)
    ∷ (0, false)
    ∷ []

abbrev second : List (ℕ × Bool)
second = (1, false) ∷ (1, true) ∷ (1, false) ∷ []

second-Rests : Rests 0 second
second-Rests = ((λ e. omega (arith, e)), ((λ e. omega (arith, e)), ((λ e. omega (arith, e)), tt)))

perform_kcas-Disciplined_example :
    Disciplined (convert_thread_id_to_thread_index 2) (perform_kcas 4 3 2 2 words)
perform_kcas-Disciplined_example = perform_kcas-Disciplined 4 3 2 2 words

help_thread-Disciplined_example : Disciplined 0 (help_thread 4 3 2 (2 ^ 62 + 7))
help_thread-Disciplined_example = help_thread-Disciplined 0 4 3 2 (2 ^ 62 + 7)

abbrev halfway : System
halfway = run_schedule 2 3 first (all_start 2 3 2 (λ i. words ∷ words ∷ []) memory)

abbrev later_on : System
later_on = run_schedule 2 3 second halfway

others-IsForward_example : IsForward 0 halfway.memory later_on.memory
others-IsForward_example =
    others-IsForward 2 3 2 (λ i. words ∷ words ∷ []) memory (omega arith) first second 0
      second-Rests

others-sequence_example :
    extract_sequence_from_stage_and_sequence (later_on.memory.state.stage_and_sequence_numbers 0)
    ≡ extract_sequence_from_stage_and_sequence (halfway.memory.state.stage_and_sequence_numbers 0)
others-sequence_example =
    others-sequence 2 3 2 (λ i. words ∷ words ∷ []) memory (omega arith) first second 0 second-Rests

-- A helper has brought the operation of thread index 0 to its end.
abbrev done_state : State
done_state = record (State_new) {
  stage_and_sequence_numbers = λ i. construct_stage_and_sequence successful 7;
}

abbrev done : Memory
done = record { state = done_state; targets = λ a. 0 }

others-final_example :
    (run_schedule 2 3 second (run_schedule 2 3 [] (all_start 2 3 2 (λ i. words ∷ words ∷ []) done))
        ).memory.state.stage_and_sequence_numbers
      0
    ≡ (run_schedule 2 3 [] (all_start 2 3 2 (λ i. words ∷ words ∷ []) done)
          ).memory.state.stage_and_sequence_numbers
        0
unfolding run_schedule IsFinal
others-final_example =
    others-final 2 3 2 (λ i. words ∷ words ∷ []) done (omega arith) [] second 0 second-Rests
      successful (extract_stage-construct successful 7 (omega arith)) tt
