-- ===== src/Safety/Change.antt =====
-- A stage change is safe, and so is the reaction to another thread's.
use kcas.Base.{
  ℕ, ◌<◌, true, not, Result, err, ◌≡◌, ◌≢◌, ◌⊎◌, inl, inr, refl, sym, ap, ◌∙◌, subst, ◌==◌, ==→eq,
  if◌then◌else◌, Bool-cases,
}
use kcas.Word.{wrapping_sub}
use kcas.Stage.{Stage, claiming}
use kcas.Types.{construct_stage_and_sequence, convert_thread_index_to_thread_id}
use kcas.Sync.{Prog, ret, ◌>>=◌, stage_and_sequence_number}
use kcas.Kcas.{HelpError}
use kcas.Kcas.Memory.{Memory, read, write}
use kcas.Kcas.Revert.{help_revert_and_transition}
use kcas.Kcas.StageChange.{
  StageAndSequenceVerificationError, stage_changed, sequence_changed, stage_out_of_bounds, Handler,
  help_stage_change_failed, help_change_stage_and_transition,
  help_handle_concurrent_stage_and_sequence_verification_error_and_transition,
}
use kcas.Solo.Row.{stage_in_bounds}
use kcas.Safety.Order.{
  reaches, reaches_refl, reaches_trans, stays_on, stays_on-reaches, onward-ne-claiming,
}
use kcas.Safety.World.{Holds, AtLeast, words_of, Holds-stage, Holds-sequence}
use kcas.Safety.Later.{Later, Later-trans}
use kcas.Safety.StageWrites.{write-stage, write-stage-Holds}
use kcas.Safety.Safe.{Safe}
use kcas.Safety.Work.{IsWork, known_at, not_null, Quiet, Quiet-Guarantee, Later-Quiet}
use kcas.Safety.Phases.{help_revert_and_transition-Safe, last_word}
use kcas.Safety.Check.{Seen, still, reached}

-- The reaction to a stage that others have changed, from any memory in which it is seen.
abbrev pub SafeHandler :
    (num_threads num_words own i sequence marker : ℕ)
    → (Stale : Type 0) → {E : Type 0} → (Post : Result (Unit {0}) E → Memory → Type 0) → Handler E
    → Memory
    → Type 0
SafeHandler num_threads num_words own i sequence marker Stale Post handle m0 =
    (current actual : Stage) (m : Memory)
    → Later num_threads num_words own m0 m
    → AtLeast Stale num_threads (words_of m) i actual sequence
    → reaches claiming actual ≡ true
    → actual ≢ claiming
    → Safe num_threads num_words own Post (handle i sequence marker current actual) m

help_stage_change_failed-eq :
    {num_threads i : ℕ} {words : ℕ → ℕ} {now : Stage} {count : ℕ} (num_words sequence marker : ℕ)
    (handle : Handler HelpError) (current : Stage)
    → Holds num_threads words i now count
    → help_stage_change_failed num_words handle i sequence marker current (words i) ≡ (
        if not (count == sequence)
        then help_revert_and_transition i marker (wrapping_sub num_words 1) (
            ret (
              err (
                HelpError.sequence_changed_while_helping
                  (convert_thread_index_to_thread_id i)
                  sequence
                  count)))
        else handle i sequence marker current now)
unfolding help_stage_change_failed
help_stage_change_failed-eq num_words sequence marker handle current h =
    rw (help_stage_change_failed, Holds-stage h, Holds-sequence h) refl

module _ {num_threads num_words own i sequence marker : ℕ} {Stale : Type 0}
    (work : IsWork num_threads num_words own i sequence marker Stale) (m0 : Memory)
    {current : Stage} (going : reaches claiming current ≡ true)
    (known : AtLeast Stale num_threads (words_of m0) i current sequence) where
  -- The compare-exchange of the stage that succeeds.
  pub change-Quiet :
      (desired : Stage) (m : Memory)
      → stays_on current desired ≡ true
      → Later num_threads num_words own m0 m
      → words_of m i ≡ construct_stage_and_sequence current sequence
      → Quiet num_threads num_words own m
          (write m (stage_and_sequence_number i) (construct_stage_and_sequence desired sequence))
        × AtLeast Stale num_threads
            (words_of (
              write m
                (stage_and_sequence_number i)
                (construct_stage_and_sequence desired sequence)))
            i
            desired
            sequence
  change-Quiet desired m on later held =
      let h : Holds num_threads (words_of m) i current sequence = record {
        word = held;
        number = work.number;
      } in
      let onward : ((sequence ≡ sequence) × (reaches current desired ≡ true))
          ⊎ (sequence < sequence) =
        inl (refl, stays_on-reaches current desired on) in
      let row = not_null work going known later in
      (
        record {
          all = λ j. write-stage later.sound i h desired work.number onward row j (λ e. (refl, on));
        },
        record {
          now = desired;
          count = sequence;
          holds = write-stage-Holds later.sound i h desired work.number onward row;
          order = inl (refl, reaches_refl desired);
        },
      )

  -- The one that fails: the stage has gone on.
  pub failed-ne-claiming :
      (m : Memory) (k : AtLeast Stale num_threads (words_of m) i current sequence)
      → k.count ≡ sequence
      → words_of m i ≢ construct_stage_and_sequence current sequence
      → (reaches claiming k.now ≡ true) × (k.now ≢ claiming)
  failed-ne-claiming m k same other = (
    reaches_trans claiming current k.now going (reached k same),
    onward-ne-claiming current k.now going (reached k same) (λ e. other (
        k.holds.word
        ∙ ap (λ x. construct_stage_and_sequence x k.count) e
        ∙ ap (construct_stage_and_sequence current) same)),
  )

  pub help_change_stage_and_transition-Safe :
      (Post : Result (Unit {0}) HelpError → Memory → Type 0) (handle : Handler HelpError)
      (desired : Stage) (next : Prog (Result (Unit {0}) HelpError)) (m : Memory)
      → stays_on current desired ≡ true
      → Later num_threads num_words own m0 m
      → SafeHandler num_threads num_words own i sequence marker Stale Post handle m0
      → ((m' : Memory) (a b c : ℕ)
          → Later num_threads num_words own m0 m'
          → Post (err (HelpError.sequence_changed_while_helping a b c)) m')
      → ((m' : Memory)
          → Later num_threads num_words own m0 m'
          → AtLeast Stale num_threads (words_of m') i desired sequence
          → Safe num_threads num_words own Post next m')
      → Safe num_threads num_words own Post
          (help_change_stage_and_transition num_words handle i sequence marker current desired next)
          m
  unfolding help_change_stage_and_transition Safe ◌>>=◌ read
  help_change_stage_and_transition-Safe Post handle desired next m on later handled stale safe = (
    stage_in_bounds num_words work.inside,
    λ m1 l1.
        let later1 = Later-trans later l1 in
        (
          (λ held.
              let (step, known') = change-Quiet desired m1 on later1 held in
              (Quiet-Guarantee step, safe _ (Later-Quiet later1 step) known')),
          (λ other. failed m1 later1 other),
        ),
  )
    where
      failed :
          (m1 : Memory)
          → Later num_threads num_words own m0 m1
          → words_of m1 i ≢ construct_stage_and_sequence current sequence
          → Safe num_threads num_words own Post
              (help_stage_change_failed num_words handle i sequence marker current (words_of m1 i))
              m1
      failed m1 later1 other =
          let k = known_at work going known later1 in
          subst (λ p. Safe num_threads num_words own Post p m1)
            (sym (help_stage_change_failed-eq num_words sequence marker handle current k.holds))
            (elim (Bool-cases (k.count == sequence)) [
              | inl same ↦
                  let (begun, beyond) =
                    failed-ne-claiming m1 k (==→eq k.count sequence same) other in
                  rw same (
                    handled current k.now m1 later1 (still k (==→eq k.count sequence same)) begun
                      beyond)
              | inr differs ↦ rw differs (
                  help_revert_and_transition-Safe work m0 going known Post
                    (wrapping_sub num_words 1) _ m1 (last_word work m0 going known) later1
                    (λ m' later'. stale m' _ _ _ later'))
            ])

  pub help_verification_error-Safe :
      (Post : Result (Unit {0}) HelpError → Memory → Type 0) (handle : Handler HelpError)
      (m : Memory) (e : StageAndSequenceVerificationError)
      → Later num_threads num_words own m0 m
      → SafeHandler num_threads num_words own i sequence marker Stale Post handle m0
      → ((m' : Memory) (a b c : ℕ)
          → Later num_threads num_words own m0 m'
          → Post (err (HelpError.sequence_changed_while_helping a b c)) m')
      → Seen num_threads i sequence Stale current (err e) m
      → Safe num_threads num_words own Post
          (help_handle_concurrent_stage_and_sequence_verification_error_and_transition num_words
            handle i sequence marker current e)
          m
  unfolding help_handle_concurrent_stage_and_sequence_verification_error_and_transition Safe
  help_verification_error-Safe Post handle m (stage_changed actual) later handled stale
        (known', further, other) =
      handled current actual m later known' (reaches_trans claiming current actual going further)
        (onward-ne-claiming current actual going further other)
  help_verification_error-Safe Post handle m (sequence_changed actual) later handled stale seen =
      help_revert_and_transition-Safe work m0 going known Post (wrapping_sub num_words 1) _ m
        (last_word work m0 going known) later (λ m' later'. stale m' _ _ _ later')
  help_verification_error-Safe Post handle m (stage_out_of_bounds n) later handled stale seen =
      elim seen [ ]
