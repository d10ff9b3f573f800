-- ===== src/Safety/Phases.antt =====
-- Reverting, setting and the check of the stage are safe, for the thread itself and for helpers.
use kcas.Base.{ℕ, zero, suc, ◌≤◌, ◌<◌, true, Result, ok, err, ◌≡◌, inl, refl, arith, ◌==◌, ==→eq}
use kcas.Stage.{Stage, claiming}
use kcas.Sync.{Prog, ret, ◌>>=◌}
use kcas.Kcas.Memory.{Memory, read, in_bounds}
use kcas.Err.{Error}
use kcas.Word.{wrapping_sub}
use kcas.Kcas.{HelpError}
use kcas.Kcas.Revert.{
  RevertError, revert_words, revert, revert_and_transition, help_revert_and_transition,
  fatal_from_revert,
}
use kcas.Solo.Row.{target_in_bounds, expected_in_bounds}
use kcas.Safety.Order.{reaches}
use kcas.Safety.World.{AtLeast, words_of}
use kcas.Safety.Later.{Later, Later-trans}
use kcas.Safety.Safe.{Safe, Safe->>=, Safe-if}
use kcas.Safety.Work.{IsWork, not_null, Quiet-Guarantee, Later-Quiet, swap-Quiet, Kept}

-- `Ok`, in every case.
abbrev pub IsOk : {A E : Type 0} → Result A E → Memory → Type 0
IsOk (ok a) m = Unit {0}
IsOk (err e) m = ⊥

module _ {num_threads num_words own i sequence marker : ℕ} {Stale : Type 0}
    (work : IsWork num_threads num_words own i sequence marker Stale) (m0 : Memory) {s : Stage}
    (going : reaches claiming s ≡ true)
    (known : AtLeast Stale num_threads (words_of m0) i s sequence) where
  revert_words-Safe :
      (left : ℕ)
      → left ≤ num_words
      → (m : Memory) → Later num_threads num_words own m0 m
      → Safe num_threads num_words own
          (Kept num_threads num_words own m0 IsOk)
          (revert_words i marker left)
          m
  unfolding revert_words Safe ◌>>=◌ read in_bounds
  revert_words-Safe zero below m later = (tt, later)
  revert_words-Safe (suc w) below m later = (
    target_in_bounds num_words work.inside below,
    λ m1 l1.
        let later1 = Later-trans later l1 in
        let ptr = m1.state.target_addresses i w in
        Safe-if num_threads num_words own (Kept num_threads num_words own m0 IsOk) (ptr == 0) _ _ m1
          (λ is_null. absurd (not_null work going known later1 w below (==→eq ptr 0 is_null)))
          (λ _. (
            expected_in_bounds num_words work.inside below,
            λ m2 l2.
                let later2 = Later-trans later1 l2 in
                (
                  refl,
                  λ m3 l3.
                      let later3 = Later-trans later2 l3 in
                      let step =
                        swap-Quiet later3 ptr (m2.state.expected_values i w)
                          (inl (later2.sound.expected i w work.inside below)) in
                      (
                        (λ held. (
                          Quiet-Guarantee step,
                          revert_words-Safe w (omega arith) _ (Later-Quiet later3 step),
                        )),
                        (λ other. revert_words-Safe w (omega arith) m3 later3),
                      ),
                ),
          )),
  )

  revert-Safe :
      (w : ℕ)
      → w < num_words
      → (m : Memory) → Later num_threads num_words own m0 m
      → Safe num_threads num_words own
          (Kept num_threads num_words own m0 IsOk)
          (revert i marker w)
          m
  unfolding revert
  revert-Safe w below m later = revert_words-Safe (suc w) below m later

  pub revert_and_transition-Safe :
      (Post : Result (Unit {0}) Error → Memory → Type 0) (w : ℕ)
      (next : Prog (Result (Unit {0}) Error)) (m : Memory)
      → w < num_words
      → Later num_threads num_words own m0 m
      → ((m' : Memory)
          → Later num_threads num_words own m0 m'
          → Safe num_threads num_words own Post next m')
      → Safe num_threads num_words own Post (revert_and_transition i marker w next) m
  unfolding revert_and_transition
  revert_and_transition-Safe Post w next m below later safe =
      Safe->>= num_threads num_words own (Kept num_threads num_words own m0 IsOk) Post
        (revert i marker w) _ m (revert-Safe w below m later) then
    where
      then :
          (r : Result (Unit {0}) RevertError) (m' : Memory)
          → Kept num_threads num_words own m0 IsOk r m'
          → Safe num_threads num_words own Post
              (elim r [
                | ok _ ↦ next
                | err revert_error ↦ ret (err (Error.fatal (fatal_from_revert revert_error)))
              ])
              m'
      then (ok u) m' (fine, later') = safe m' later'
      then (err e) m' (fine, later') = elim fine [ ]

  pub help_revert_and_transition-Safe :
      (Post : Result (Unit {0}) HelpError → Memory → Type 0) (w : ℕ)
      (next : Prog (Result (Unit {0}) HelpError)) (m : Memory)
      → w < num_words
      → Later num_threads num_words own m0 m
      → ((m' : Memory)
          → Later num_threads num_words own m0 m'
          → Safe num_threads num_words own Post next m')
      → Safe num_threads num_words own Post (help_revert_and_transition i marker w next) m
  unfolding help_revert_and_transition
  help_revert_and_transition-Safe Post w next m below later safe =
      Safe->>= num_threads num_words own (Kept num_threads num_words own m0 IsOk) Post
        (revert i marker w) _ m (revert-Safe w below m later) then
    where
      then :
          (r : Result (Unit {0}) RevertError) (m' : Memory)
          → Kept num_threads num_words own m0 IsOk r m'
          → Safe num_threads num_words own Post
              (elim r [
                | ok _ ↦ next
                | err revert_error ↦ ret (err (HelpError.fatal (fatal_from_revert revert_error)))
              ])
              m'
      then (ok u) m' (fine, later') = safe m' later'
      then (err e) m' (fine, later') = elim fine [ ]

  -- Where all words are reverted, the last one is there.
  pub last_word : wrapping_sub num_words 1 < num_words
  last_word = omega (arith, work.some_words, work.words_fit)
