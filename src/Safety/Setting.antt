-- ===== src/Safety/Setting.antt =====
-- `set` is safe, for the thread itself and for helpers.
use kcas.Base.{ℕ, zero, suc, ◌+◌, ◌<◌, Result, ok, err, ◌≡◌, inl, refl, arith, ◌==◌, ==→eq}
use kcas.Stage.{setting}
use kcas.Sync.{Prog, ret, ◌>>=◌}
use kcas.Kcas.Memory.{Memory, read, in_bounds}
use kcas.Kcas.StageChange.{StageAndSequenceVerificationError}
use kcas.Kcas.Set.{
  SetError, stage_and_sequence_verification_error, target_address_was_not_valid_pointer,
  set_word_failed, set_words, set,
}
use kcas.Solo.Row.{target_in_bounds, desired_in_bounds}
use kcas.Safety.World.{AtLeast, words_of}
use kcas.Safety.Later.{Later, Later-trans}
use kcas.Safety.Safe.{Safe, Safe-if}
use kcas.Safety.Work.{IsWork, not_null, Quiet-Guarantee, Later-Quiet, swap-Quiet, Kept}
use kcas.Safety.Check.{Seen, verify-Safe}

-- What an error of `set` says.
abbrev pub SetSeen :
    (num_threads i sequence : ℕ) → (Stale : Type 0) → Result (Unit {0}) SetError → Memory → Type 0
SetSeen num_threads i sequence Stale (ok u) m = Unit {0}
SetSeen num_threads i sequence Stale (err (stage_and_sequence_verification_error w e)) m =
    Seen num_threads i sequence Stale setting (err e) m
SetSeen num_threads i sequence Stale (err (target_address_was_not_valid_pointer w a)) m = ⊥

module _ {num_threads num_words own i sequence marker : ℕ} {Stale : Type 0}
    (work : IsWork num_threads num_words own i sequence marker Stale) (m0 : Memory)
    (known : AtLeast Stale num_threads (words_of m0) i setting sequence) where
  abbrev Post : Result (Unit {0}) SetError → Memory → Type 0
  Post = Kept num_threads num_words own m0 (SetSeen num_threads i sequence Stale)

  set_word_failed-Safe :
      (w : ℕ) (rest : Prog (Result (Unit {0}) SetError)) (m : Memory)
      → Later num_threads num_words own m0 m
      → ((m' : Memory)
          → Later num_threads num_words own m0 m'
          → Safe num_threads num_words own Post rest m')
      → Safe num_threads num_words own Post (set_word_failed i sequence marker w rest) m
  unfolding set_word_failed Safe
  set_word_failed-Safe w rest m later safe = verify-Safe work m0 known Post _ m later then
    where
      then :
          (r : Result (Unit {0}) StageAndSequenceVerificationError) (m' : Memory)
          → Later num_threads num_words own m0 m'
          → Seen num_threads i sequence Stale setting r m'
          → Safe num_threads num_words own Post
              (elim r [
                | err error ↦ ret (err (stage_and_sequence_verification_error w error))
                | ok _ ↦ rest
              ])
              m'
      then (ok u) m' later' seen = safe m' later'
      then (err e) m' later' seen = (seen, later')

  set_words-Safe :
      (left w : ℕ)
      → w + left ≡ num_words
      → (m : Memory) → Later num_threads num_words own m0 m
      → Safe num_threads num_words own Post (set_words i sequence marker left w) m
  unfolding set_words Safe ◌>>=◌ read in_bounds
  set_words-Safe zero w e m later = (tt, later)
  set_words-Safe (suc left) w e m later =
      let below : w < num_words = omega arith in
      let again = λ (m' : Memory) (later' : Later num_threads num_words own m0 m').
        set_words-Safe left (w + 1) (omega arith) m' later' in
      (
        target_in_bounds num_words work.inside below,
        λ m1 l1.
            let later1 = Later-trans later l1 in
            let ptr = m1.state.target_addresses i w in
            Safe-if num_threads num_words own Post (ptr == 0) _ _ m1
              (λ is_null. absurd (not_null work refl known later1 w below (==→eq ptr 0 is_null)))
              (λ _. (
                desired_in_bounds num_words work.inside below,
                λ m2 l2.
                    let later2 = Later-trans later1 l2 in
                    (
                      refl,
                      λ m3 l3.
                          let later3 = Later-trans later2 l3 in
                          let step =
                            swap-Quiet later3 ptr (m2.state.desired_values i w)
                              (inl (later2.sound.desired i w work.inside below)) in
                          (
                            (λ held. (Quiet-Guarantee step, again _ (Later-Quiet later3 step))),
                            (λ other. set_word_failed-Safe w _ m3 later3 again),
                          ),
                    ),
              )),
      )

  pub set-Safe :
      (m : Memory)
      → Later num_threads num_words own m0 m
      → Safe num_threads num_words own Post (set num_words i sequence marker) m
  unfolding set
  set-Safe m later = set_words-Safe num_words 0 (omega arith) m later
