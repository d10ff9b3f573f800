-- ===== src/Safety/OwnChange.antt =====
-- The thread's own stage changes are safe: its sequence number cannot have changed.
use kcas.Base.{
  ℕ, true, not, Result, err, ◌≡◌, ◌≢◌, inl, inr, refl, sym, subst, ◌==◌, ==→eq, ==→ne,
  if◌then◌else◌, Bool-cases,
}
use kcas.Word.{wrapping_sub}
use kcas.Err.{Error, FatalError}
use kcas.Stage.{Stage, claiming}
use kcas.Types.{construct_stage_and_sequence, convert_thread_index_to_thread_id}
use kcas.Sync.{Prog, ret, ◌>>=◌}
use kcas.Kcas.Memory.{Memory, read}
use kcas.Kcas.Revert.{revert_and_transition}
use kcas.Kcas.StageChange.{
  StageAndSequenceVerificationError, stage_changed, sequence_changed, stage_out_of_bounds, Handler,
  stage_change_failed, change_stage_and_transition,
  handle_concurrent_stage_and_sequence_verification_error_and_transition,
}
use kcas.Solo.Row.{stage_in_bounds}
use kcas.Safety.Order.{reaches, reaches_trans, stays_on, onward-ne-claiming}
use kcas.Safety.World.{Holds, AtLeast, words_of, Holds-stage, Holds-sequence}
use kcas.Safety.Later.{Later, Later-trans}
use kcas.Safety.Safe.{Safe}
use kcas.Safety.Work.{IsWork, known_at, Quiet-Guarantee, Later-Quiet}
use kcas.Safety.Check.{Seen, still, gone}
use kcas.Safety.Change.{SafeHandler, failed-ne-claiming, change-Quiet}

stage_change_failed-eq :
    {num_threads i : ℕ} {words : ℕ → ℕ} {now : Stage} {count : ℕ} (num_words sequence marker : ℕ)
    (handle : Handler Error) (current : Stage)
    → Holds num_threads words i now count
    → stage_change_failed num_words handle i sequence marker current (words i) ≡ (
        if not (count == sequence)
        then revert_and_transition i marker (wrapping_sub num_words 1) (
            ret (
              err (
                Error.fatal (
                  FatalError.sequence_num_changed_by_non_originating_thread
                    (convert_thread_index_to_thread_id i)))))
        else handle i sequence marker current now)
unfolding stage_change_failed
stage_change_failed-eq num_words sequence marker handle current h =
    rw (stage_change_failed, Holds-stage h, Holds-sequence h) refl

module _ {num_threads num_words own i sequence marker : ℕ}
    (work : IsWork num_threads num_words own i sequence marker ⊥) (m0 : Memory) {current : Stage}
    (going : reaches claiming current ≡ true)
    (known : AtLeast ⊥ num_threads (words_of m0) i current sequence) where
  pub change_stage_and_transition-Safe :
      (Post : Result (Unit {0}) Error → Memory → Type 0) (handle : Handler Error) (desired : Stage)
      (next : Prog (Result (Unit {0}) Error)) (m : Memory)
      → stays_on current desired ≡ true
      → Later num_threads num_words own m0 m
      → SafeHandler num_threads num_words own i sequence marker ⊥ Post handle m0
      → ((m' : Memory)
          → Later num_threads num_words own m0 m'
          → AtLeast ⊥ num_threads (words_of m') i desired sequence
          → Safe num_threads num_words own Post next m')
      → Safe num_threads num_words own Post
          (change_stage_and_transition num_words handle i sequence marker current desired next)
          m
  unfolding change_stage_and_transition Safe ◌>>=◌ read
  change_stage_and_transition-Safe Post handle desired next m on later handled safe = (
    stage_in_bounds num_words work.inside,
    λ m1 l1.
        let later1 = Later-trans later l1 in
        (
          (λ held.
              let (step, known') = change-Quiet work m0 going known desired m1 on later1 held in
              (Quiet-Guarantee step, safe _ (Later-Quiet later1 step) known')),
          (λ other. failed m1 later1 other),
        ),
  )
    where
      failed :
          (m1 : Memory)
          → Later num_threads num_words own m0 m1
          → words_of m1 i ≢ construct_stage_and_sequence current sequence
          → Safe num_threads num_words own Post
              (stage_change_failed num_words handle i sequence marker current (words_of m1 i))
              m1
      failed m1 later1 other =
          let k = known_at work going known later1 in
          subst (λ p. Safe num_threads num_words own Post p m1)
            (sym (stage_change_failed-eq num_words sequence marker handle current k.holds))
            (elim (Bool-cases (k.count == sequence)) [
              | inl same ↦
                  let (begun, beyond) =
                    failed-ne-claiming work m0 going known m1 k (==→eq k.count sequence same)
                      other in
                  rw same (
                    handled current k.now m1 later1 (still k (==→eq k.count sequence same)) begun
                      beyond)
              | inr differs ↦ absurd (gone k (==→ne k.count sequence differs))
            ])

  pub verification_error-Safe :
      (Post : Result (Unit {0}) Error → Memory → Type 0) (handle : Handler Error) (m : Memory)
      (e : StageAndSequenceVerificationError)
      → Later num_threads num_words own m0 m
      → SafeHandler num_threads num_words own i sequence marker ⊥ Post handle m0
      → Seen num_threads i sequence ⊥ current (err e) m
      → Safe num_threads num_words own Post
          (handle_concurrent_stage_and_sequence_verification_error_and_transition num_words handle i
            sequence marker current e)
          m
  unfolding handle_concurrent_stage_and_sequence_verification_error_and_transition
  verification_error-Safe Post handle m (stage_changed actual) later handled
        (known', further, other) =
      handled current actual m later known' (reaches_trans claiming current actual going further)
        (onward-ne-claiming current actual going further other)
  verification_error-Safe Post handle m (sequence_changed actual) later handled seen = elim seen [ ]
  verification_error-Safe Post handle m (stage_out_of_bounds n) later handled seen = elim seen [ ]
