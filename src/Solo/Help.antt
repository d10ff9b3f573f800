-- ===== src/Solo/Help.antt =====
-- A helper that comes too late: `help_thread` of src/kcas/mod.rs for an operation that is over.
use kcas.Base.{
  ℕ, suc, ◌+◌, ◌^◌, ◌≤◌, ◌<◌, Bool, List, ok, err, ◌≡◌, ◌≢◌, ◌⊎◌, inl, inr, refl, arith, ne→==,
  eq→==, lt→ltb,
}
use native.Mathlib.Decide.{ℕ_discrete}
use kcas.Stage.{Stage, successful, reverted}
use kcas.Types.{
  convert_thread_id_to_thread_index, extract_stage_from_stage_and_sequence,
  extract_sequence_from_stage_and_sequence, extract_thread_from_thread_and_sequence,
  extract_sequence_from_thread_and_sequence,
}
use kcas.Sync.{◌>>=◌}
use kcas.Kcas.{HelpError}
use kcas.Kcas.Operation.{help_stage, help_thread}
use kcas.Kcas.Memory.{Memory, read, in_bounds, run, returned}

-- The stage word of the thread that the marker names holds a stage.
pub record IsHelpee (num_threads encountered : ℕ) (m : Memory) (stage : Stage) : Type 0 where
  pub fits : num_threads + 1 < 2 ^ 64
  pub positive : 1 ≤ extract_thread_from_thread_and_sequence num_threads encountered
  pub in_use : extract_thread_from_thread_and_sequence num_threads encountered ≤ num_threads
  pub holds :
      extract_stage_from_stage_and_sequence (
        m.state.stage_and_sequence_numbers (
          convert_thread_id_to_thread_index
            (extract_thread_from_thread_and_sequence num_threads encountered)))
      ≡ ok stage

abbrev pub current_sequence : (num_threads encountered : ℕ) → Memory → ℕ
current_sequence num_threads encountered m = extract_sequence_from_stage_and_sequence (
    m.state.stage_and_sequence_numbers (
      convert_thread_id_to_thread_index
        (extract_thread_from_thread_and_sequence num_threads encountered)))

-- The operation of the marker is over: its thread has gone on, or the stage is `Successful` or
-- `Reverted`.
abbrev pub IsSpent : (num_threads encountered : ℕ) → Memory → Stage → Type 0
IsSpent num_threads encountered m stage =
    (current_sequence num_threads encountered m
      ≢ extract_sequence_from_thread_and_sequence num_threads encountered)
    ⊎ ((stage ≡ successful) ⊎ (stage ≡ reverted))

-- The errors of a helper after which the claim is tried again.
abbrev pub IsRetried : HelpError → Type 0
IsRetried (HelpError.fatal e) = ⊥
IsRetried e = Unit {0}

module _ (num_threads num_words fuel encountered : ℕ) (m : Memory) (o : List Bool) where
  index-lt :
      {stage : Stage}
      → IsHelpee num_threads encountered m stage
      → convert_thread_id_to_thread_index
          (extract_thread_from_thread_and_sequence num_threads encountered)
        < num_threads
  unfolding convert_thread_id_to_thread_index
  index-lt h = omega (arith, h.fits, h.positive, h.in_use)

  -- A helper that meets such a marker changes nothing, and its caller tries again.
  pub help_thread-refuses :
      (stage : Stage)
      → IsHelpee num_threads encountered m stage
      → IsSpent num_threads encountered m stage
      → (e : HelpError) × (run num_threads num_words
            (help_thread num_threads num_words (suc fuel) encountered)
            o
            m
          ≡ returned (err e) o m)
        × IsRetried e
  unfolding help_thread help_stage ◌>>=◌ in_bounds read run
  help_thread-refuses stage h spent =
      elim (ℕ_discrete (current_sequence num_threads encountered m)
        (extract_sequence_from_thread_and_sequence num_threads encountered)) [
          | no stale ↦ (
            HelpError.sequence_changed_while_helping
                (extract_thread_from_thread_and_sequence num_threads encountered)
                (extract_sequence_from_thread_and_sequence num_threads encountered)
                (current_sequence num_threads encountered m),
            rw (run, lt→ltb _ num_threads (index-lt h), h.holds, ne→== _ _ stale) refl,
            tt,
          )
          | yes same ↦ elim spent [
            | inl stale ↦ absurd (stale same)
            | inr (inl done) ↦ (
              HelpError.helpee_stage_is_already_terminal
                  (extract_thread_from_thread_and_sequence num_threads encountered) successful,
              rw (run, lt→ltb _ num_threads (index-lt h), h.holds, eq→== _ _ same, done) refl,
              tt,
            )
            | inr (inr undone) ↦ (
              HelpError.helpee_stage_is_already_terminal
                  (extract_thread_from_thread_and_sequence num_threads encountered) reverted,
              rw (run, lt→ltb _ num_threads (index-lt h), h.holds, eq→== _ _ same, undone) refl,
              tt,
            )
          ]
        ]
