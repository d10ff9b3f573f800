-- ===== src/Shared/Ownership.antt =====
-- Any number of threads, any interleaving: what the others can do to the row of a thread that takes no
-- step.
use kcas.Base.{
  ℕ, ◌+◌, ◌^◌, ◌<◌, Bool, List, [], ◌∷◌, Result, ok, err, ◌≡◌, refl, inl, inr, sym, ap, ◌∙◌, subst,
  arith, ltb, Bool-cases,
}
use kcas.Stage.{Stage, inactive, claiming, setting, reverting, successful, reverted}
use kcas.Types.{
  extract_stage_from_stage_and_sequence, extract_sequence_from_stage_and_sequence,
  convert_thread_index_to_thread_id, convert_thread_id_to_thread_index,
}
use kcas.Types.StageAndSequence.{extract_sequence-construct, extract_stage-construct}
use kcas.Err.{Error}
use kcas.Sync.{Prog}
use kcas.Kcas.{KCasWord}
use kcas.Kcas.Operation.{perform_kcas}
use kcas.Kcas.Memory.{Memory}
use kcas.Shared.Discipline.{Follows, IsStageChange, Disciplined, Disciplined->>=, Disciplined-ret}
use kcas.Shared.Whole.{perform_kcas-Disciplined}
use kcas.Shared.Schedule.{System, run_schedule, perform_all, all_start, Rests, unless_fatal}
use kcas.Shared.Forward.{
  Moves, stays, moves, IsForward, IsDisciplined, run_schedule-IsDisciplined, run_schedule-IsForward,
}
use kcas.Wrapper.Session.{convert-convert}

unless_fatal-Disciplined :
    (own : ℕ) (r : Result (Unit {0}) Error) (next : Prog (Result (Unit {0}) Error))
    → Disciplined own next
    → Disciplined own (unless_fatal r next)
unfolding unless_fatal
unless_fatal-Disciplined own (ok u) next d = d
unless_fatal-Disciplined own (err (Error.fatal e)) next d = Disciplined-ret own _
unless_fatal-Disciplined own (err _) next d = d

perform_all-Disciplined :
    (num_threads num_words fuel thread_id : ℕ) (operations : List (ℕ → KCasWord))
    → Disciplined
        (convert_thread_id_to_thread_index thread_id)
        (perform_all num_threads num_words fuel thread_id operations)
unfolding perform_all
perform_all-Disciplined num_threads num_words fuel thread_id [] = Disciplined-ret _ _
perform_all-Disciplined num_threads num_words fuel thread_id (words ∷ rest) =
    Disciplined->>= _ (perform_kcas num_threads num_words fuel thread_id words) _
      (perform_kcas-Disciplined num_threads num_words fuel thread_id words)
      (λ r.
        unless_fatal-Disciplined _ r _
          (perform_all-Disciplined num_threads num_words fuel thread_id rest))

all_start-IsDisciplined :
    (num_threads num_words fuel : ℕ) (operations : ℕ → List (ℕ → KCasWord)) (m : Memory)
    → num_threads + 1 < 2 ^ 64
    → IsDisciplined (all_start num_threads num_words fuel operations m)
all_start-IsDisciplined num_threads num_words fuel operations m fits i =
    elim (Bool-cases (ltb i num_threads)) [
      | inl inside ↦
          let below : i < num_threads = ground (arith, inside) in
          rw inside (
            subst
              (λ k. Disciplined k (
                perform_all num_threads num_words fuel (convert_thread_index_to_thread_id i)
                  (operations i)))
              (convert-convert i (omega arith))
              (perform_all-Disciplined num_threads num_words fuel
                (convert_thread_index_to_thread_id i) (operations i)))
      | inr outside ↦ rw outside (Disciplined-ret i _)
    ]

change-sequence :
    {current new : ℕ}
    → IsStageChange current new
    → extract_sequence_from_stage_and_sequence new
      ≡ extract_sequence_from_stage_and_sequence current
change-sequence c =
    ap extract_sequence_from_stage_and_sequence c.to
    ∙ extract_sequence-construct c.after c.sequence c.small
    ∙ sym (extract_sequence-construct c.before c.sequence c.small)
    ∙ ap extract_sequence_from_stage_and_sequence (sym c.from)

Moves-sequence :
    {word last : ℕ}
    → Moves word last
    → extract_sequence_from_stage_and_sequence last ≡ extract_sequence_from_stage_and_sequence word
Moves-sequence (stays w) = refl
Moves-sequence (moves w n l change rest) = Moves-sequence rest ∙ change-sequence change

-- A stage that no change leads away from.
unfoldable pub IsFinal : Stage → Type 0
IsFinal claiming = ⊥
IsFinal setting = ⊥
IsFinal reverting = ⊥
IsFinal _ = Unit {0}

no_change : (before after : Stage) → IsFinal before → Follows before after → ⊥
unfolding IsFinal Follows
no_change claiming after final follows = final
no_change setting after final follows = final
no_change reverting after final follows = final
no_change inactive after final follows = follows
no_change successful after final follows = follows
no_change reverted after final follows = follows

abbrev stage_or_inactive : {E : Type 0} → Result Stage E → Stage
stage_or_inactive (ok stage) = stage
stage_or_inactive (err e) = inactive

change-before :
    {current new : ℕ} (stage : Stage) (c : IsStageChange current new)
    → extract_stage_from_stage_and_sequence current ≡ ok stage
    → stage ≡ c.before
change-before stage c held = ap stage_or_inactive (
    sym held
    ∙ ap extract_stage_from_stage_and_sequence c.from
    ∙ extract_stage-construct c.before c.sequence c.small)

Moves-final :
    {word last : ℕ} (stage : Stage)
    → Moves word last
    → extract_stage_from_stage_and_sequence word ≡ ok stage
    → IsFinal stage
    → last ≡ word
Moves-final stage (stays w) held final = refl
Moves-final stage (moves w n l change rest) held final = absurd (
    no_change change.before change.after (subst IsFinal (change-before stage change held) final)
      change.follows)

module _ (num_threads num_words fuel : ℕ) (operations : ℕ → List (ℕ → KCasWord)) (m : Memory)
    (fits : num_threads + 1 < 2 ^ 64) (first second : List (ℕ × Bool)) (j : ℕ)
    (rests : Rests j second) where
  abbrev pub halfway : System
  halfway =
      run_schedule num_threads num_words first (all_start num_threads num_words fuel operations m)

  abbrev pub later_on : System
  later_on = run_schedule num_threads num_words second halfway

  -- In any interleaving of the operations of any number of threads, any number each: between two
  -- points of time at which thread `j` takes no step, its saved words stay as they are, and its
  -- stage word changes only by the stage changes of an operation.
  pub others-IsForward : IsForward j halfway.memory later_on.memory
  others-IsForward = run_schedule-IsForward num_threads num_words j second halfway rests (
      run_schedule-IsDisciplined num_threads num_words first
        (all_start num_threads num_words fuel operations m)
        (all_start-IsDisciplined num_threads num_words fuel operations m fits))

  -- Between such points the sequence number of thread `j` does not change.
  pub others-sequence :
      extract_sequence_from_stage_and_sequence (later_on.memory.state.stage_and_sequence_numbers j)
      ≡ extract_sequence_from_stage_and_sequence (halfway.memory.state.stage_and_sequence_numbers j)
  others-sequence = Moves-sequence others-IsForward.stage

  -- Between such points a stage word with `Inactive`, `Successful` or `Reverted` does not change.
  pub others-final :
      (stage : Stage)
      → extract_stage_from_stage_and_sequence (halfway.memory.state.stage_and_sequence_numbers j)
        ≡ ok stage
      → IsFinal stage
      → later_on.memory.state.stage_and_sequence_numbers j
        ≡ halfway.memory.state.stage_and_sequence_numbers j
  others-final stage held final = Moves-final stage others-IsForward.stage held final
