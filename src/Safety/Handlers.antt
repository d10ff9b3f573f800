-- ===== src/Safety/Handlers.antt =====
-- The end of an operation, the setting transitions, and the reactions to concurrent stage changes are
-- safe.
use kcas.Base.{ℕ, zero, suc, ◌+◌, ◌<◌, true, Result, ok, err, ◌≡◌, ◌⊎◌, inl, inr, refl, arith}
use kcas.Word.{wrapping_sub}
use kcas.Err.{Error}
use kcas.Stage.{Stage, inactive, claiming, setting, reverting, successful, reverted}
use kcas.Sync.{ret, ◌>>=◌}
use kcas.Kcas.{HelpError, prepare_for_next_operation}
use kcas.Kcas.Sequence.{next_sequence-eq-suc}
use kcas.Kcas.Memory.{Memory}
use kcas.Kcas.StageChange.{Handler}
use kcas.Kcas.Set.{
  SetError, stage_and_sequence_verification_error, target_address_was_not_valid_pointer, set,
  after_set, set_and_transition, after_help_set, help_set_and_transition,
}
use kcas.Kcas.Concurrent.{
  concurrent_stage_change, handle_concurrent_stage_change_and_transition,
  help_concurrent_stage_change, help_handle_concurrent_stage_change_and_transition,
}
use kcas.Solo.Row.{stage_in_bounds}
use kcas.Safety.Order.{reaches}
use kcas.Safety.World.{IsNumber, Holds, AtLeast, words_of}
use kcas.Safety.Later.{Later, Later-trans, Later-refl}
use kcas.Safety.StageWrites.{write-stage, write-stage-Holds, write-stage-IsSound}
use kcas.Safety.Safe.{Safe, Safe->>=}
use kcas.Safety.Work.{IsWork, known_at, not_null, Kept}
use kcas.Safety.Phases.{revert_and_transition-Safe, help_revert_and_transition-Safe, last_word}
use kcas.Safety.Setting.{SetSeen, set-Safe}
use kcas.Safety.Change.{
  SafeHandler, help_change_stage_and_transition-Safe, help_verification_error-Safe,
}
use kcas.Safety.OwnChange.{verification_error-Safe}

-- The operation has returned a result that is not fatal, and its thread is ready for the next one.
abbrev pub Finished : (num_threads own sequence : ℕ) → Result (Unit {0}) Error → Memory → Type 0
Finished num_threads own sequence (err (Error.fatal e)) m = ⊥
Finished num_threads own sequence _ m = Holds num_threads (words_of m) own inactive (sequence + 1)

-- What a helper may report.
abbrev pub IsHelp : Result (Unit {0}) HelpError → Memory → Type 0
IsHelp (err (HelpError.fatal e)) m = ⊥
IsHelp _ m = Unit {0}

module _ {num_threads num_words own sequence marker : ℕ}
    (work : IsWork num_threads num_words own own sequence marker ⊥)
    (next : IsNumber num_threads (sequence + 1)) where
  pub prepare-Safe :
      {A : Type 0} (Post : A → Memory → Type 0) (r : A) (m0 : Memory) {s : Stage} (m : Memory)
      → reaches claiming s ≡ true
      → AtLeast ⊥ num_threads (words_of m0) own s sequence
      → Later num_threads num_words own m0 m
      → ((m' : Memory) → Holds num_threads (words_of m') own inactive (sequence + 1) → Post r m')
      → Safe num_threads num_words own Post
          (prepare_for_next_operation num_threads own sequence >>= λ u. ret r)
          m
  unfolding prepare_for_next_operation Safe ◌>>=◌
  prepare-Safe Post r m0 m going known later done =
      rw (next_sequence-eq-suc num_threads sequence work.fits (omega (arith, next.small))) (
        stage_in_bounds num_words work.inside,
        λ m1 l1.
            let later1 = Later-trans later l1 in
            let k = known_at work going known later1 in
            let onward : ((sequence + 1 ≡ k.count) × (reaches k.now inactive ≡ true))
                ⊎ (k.count < sequence + 1) =
              inr (elim k.order [
                | inl (same, further) ↦ omega arith
                | inr (stale, over) ↦ absurd stale
              ]) in
            let row = not_null work going known later1 in
            (
              record {
                sound = write-stage-IsSound later1.sound own k.holds inactive next onward row;
                others = λ j other.
                    write-stage later1.sound own k.holds inactive next onward row j
                      (λ e. absurd (other e));
              },
              done _ (write-stage-Holds later1.sound own k.holds inactive next onward row),
            ),
      )

  pub set_and_transition-Safe :
      (m0 : Memory) (handle : Handler Error) (m : Memory)
      → AtLeast ⊥ num_threads (words_of m0) own setting sequence
      → Later num_threads num_words own m0 m
      → SafeHandler num_threads num_words own own sequence marker ⊥
          (Finished num_threads own sequence)
          handle
          m0
      → Safe num_threads num_words own
          (Finished num_threads own sequence)
          (set_and_transition num_threads num_words handle own sequence marker)
          m
  unfolding set_and_transition after_set Safe
  set_and_transition-Safe m0 handle m known later handled =
      Safe->>= num_threads num_words own
        (Kept num_threads num_words own m0 (SetSeen num_threads own sequence ⊥))
        (Finished num_threads own sequence) (set num_words own sequence marker) _ m
        (set-Safe work m0 known m later) then
    where
      then :
          (r : Result (Unit {0}) SetError) (m' : Memory)
          → Kept num_threads num_words own m0 (SetSeen num_threads own sequence ⊥) r m'
          → Safe num_threads num_words own
              (Finished num_threads own sequence)
              (after_set num_threads num_words handle own sequence marker r)
              m'
      then (ok u) m' (seen, later') =
          prepare-Safe (Finished num_threads own sequence) (ok tt) m0 m' refl known later'
            (λ m'' h. h)
      then (err (stage_and_sequence_verification_error w e)) m' (seen, later') =
          verification_error-Safe work m0 refl known (Finished num_threads own sequence) handle m' e
            later' handled seen
      then (err (target_address_was_not_valid_pointer w a)) m' (seen, later') = elim seen [ ]

  -- The originator's reactions.
  pub handle-Safe :
      (fuel : ℕ) (m0 : Memory)
      → SafeHandler num_threads num_words own own sequence marker ⊥
          (Finished num_threads own sequence)
          (handle_concurrent_stage_change_and_transition num_threads num_words fuel)
          m0
  unfolding handle_concurrent_stage_change_and_transition concurrent_stage_change Safe
  handle-Safe zero m0 current actual m later known begun other = tt
  handle-Safe (suc fuel) m0 current inactive m later known begun other = ground arith
  handle-Safe (suc fuel) m0 current claiming m later known begun other = absurd (other refl)
  handle-Safe (suc fuel) m0 current setting m later known begun other =
      set_and_transition-Safe m _ m known (Later-refl later.sound) (handle-Safe fuel m)
  handle-Safe (suc fuel) m0 current successful m later known begun other =
      revert_and_transition-Safe work m begun known (Finished num_threads own sequence)
        (wrapping_sub num_words 1) _ m (last_word work m begun known) (Later-refl later.sound)
        (λ m' later'.
          prepare-Safe (Finished num_threads own sequence) (ok tt) m m' begun known later'
            (λ m'' h. h))
  handle-Safe (suc fuel) m0 current reverting m later known begun other =
      revert_and_transition-Safe work m begun known (Finished num_threads own sequence)
        (wrapping_sub num_words 1) _ m (last_word work m begun known) (Later-refl later.sound)
        (λ m' later'.
          prepare-Safe (Finished num_threads own sequence) (err Error.value_was_not_expected_value)
            m m' begun known later' (λ m'' h. h))
  handle-Safe (suc fuel) m0 current reverted m later known begun other =
      revert_and_transition-Safe work m begun known (Finished num_threads own sequence)
        (wrapping_sub num_words 1) _ m (last_word work m begun known) (Later-refl later.sound)
        (λ m' later'.
          prepare-Safe (Finished num_threads own sequence) (err Error.value_was_not_expected_value)
            m m' begun known later' (λ m'' h. h))

-- The helper's reactions.
module _ {num_threads num_words own i sequence marker : ℕ}
    (work : IsWork num_threads num_words own i sequence marker (Unit {0})) (mb : Memory) where
  abbrev pub Helped : Result (Unit {0}) HelpError → Memory → Type 0
  Helped = Kept num_threads num_words own mb IsHelp

  pub help_set_and_transition-Safe :
      (m0 : Memory) (handle : Handler HelpError) (m : Memory)
      → Later num_threads num_words own mb m0
      → AtLeast (Unit {0}) num_threads (words_of m0) i setting sequence
      → Later num_threads num_words own m0 m
      → SafeHandler num_threads num_words own i sequence marker (Unit {0}) Helped handle m0
      → Safe num_threads num_words own Helped
          (help_set_and_transition num_threads num_words handle i sequence marker)
          m
  unfolding help_set_and_transition after_help_set Safe
  help_set_and_transition-Safe m0 handle m back known later handled =
      Safe->>= num_threads num_words own
        (Kept num_threads num_words own m0 (SetSeen num_threads i sequence (Unit {0}))) Helped
        (set num_words i sequence marker) _ m (set-Safe work m0 known m later) then
    where
      then :
          (r : Result (Unit {0}) SetError) (m' : Memory)
          → Kept num_threads num_words own m0 (SetSeen num_threads i sequence (Unit {0})) r m'
          → Safe num_threads num_words own Helped
              (after_help_set num_threads num_words handle i sequence marker r)
              m'
      then (ok u) m' (seen, later') =
          help_change_stage_and_transition-Safe work m0 refl known Helped handle successful
            (ret (ok tt)) m' refl later' handled (λ m'' a b c l. (tt, Later-trans back l))
            (λ m'' l k. (tt, Later-trans back l))
      then (err (stage_and_sequence_verification_error w e)) m' (seen, later') =
          help_verification_error-Safe work m0 refl known Helped handle m' e later' handled
            (λ m'' a b c l. (tt, Later-trans back l)) seen
      then (err (target_address_was_not_valid_pointer w a)) m' (seen, later') = elim seen [ ]

  pub help_handle-Safe :
      (fuel : ℕ) (m0 : Memory)
      → Later num_threads num_words own mb m0
      → SafeHandler num_threads num_words own i sequence marker
          (Unit {0})
          Helped
          (help_handle_concurrent_stage_change_and_transition num_threads num_words fuel)
          m0
  unfolding help_handle_concurrent_stage_change_and_transition help_concurrent_stage_change Safe
  help_handle-Safe zero m0 back current actual m later known begun other = tt
  help_handle-Safe (suc fuel) m0 back current inactive m later known begun other = ground arith
  help_handle-Safe (suc fuel) m0 back current claiming m later known begun other =
      absurd (other refl)
  help_handle-Safe (suc fuel) m0 back current setting m later known begun other =
      let back' = Later-trans back later in
      help_set_and_transition-Safe m _ m back' known (Later-refl later.sound)
        (help_handle-Safe fuel m back')
  help_handle-Safe (suc fuel) m0 back current reverting m later known begun other =
      let back' = Later-trans back later in
      help_revert_and_transition-Safe work m begun known Helped (wrapping_sub num_words 1) _ m
        (last_word work m begun known) (Later-refl later.sound)
        (λ m' later'.
          help_change_stage_and_transition-Safe work m begun known Helped _ reverted (ret (ok tt))
            m' refl later' (help_handle-Safe fuel m back')
            (λ m'' a b c l. (tt, Later-trans back' l)) (λ m'' l k. (tt, Later-trans back' l)))
  help_handle-Safe (suc fuel) m0 back current successful m later known begun other =
      let back' = Later-trans back later in
      help_revert_and_transition-Safe work m begun known Helped (wrapping_sub num_words 1) _ m
        (last_word work m begun known) (Later-refl later.sound)
        (λ m' later'. (tt, Later-trans back' later'))
  help_handle-Safe (suc fuel) m0 back current reverted m later known begun other =
      let back' = Later-trans back later in
      help_revert_and_transition-Safe work m begun known Helped (wrapping_sub num_words 1) _ m
        (last_word work m begun known) (Later-refl later.sound)
        (λ m' later'. (tt, Later-trans back' later'))
