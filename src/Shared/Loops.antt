-- ===== src/Shared/Loops.antt =====
-- The loops of `set` and `revert` make a bounded number of accesses, whatever values they meet.
use kcas.Base.{
  ℕ, zero, suc, ◌+◌, ◌*◌, Bool, true, false, not, Result, ok, err, ◌≡◌, ◌≢◌, subst, arith, ◌==◌,
  if◌then◌else◌,
}
use kcas.Stage.{Stage, stage_eq, inactive, claiming, setting, reverting, successful, reverted}
use kcas.Types.{extract_stage_from_stage_and_sequence, extract_sequence_from_stage_and_sequence}
use kcas.Sync.{ret, ◌>>=◌}
use kcas.Kcas.Revert.{revert_words}
use kcas.Kcas.StageChange.{
  StageAndSequenceVerificationError, stage_changed, sequence_changed, stage_out_of_bounds,
  verification_result, verify_stage_and_sequence_have_not_changed,
}
use kcas.Kcas.Set.{SetError, set_words, set_word_failed}
use kcas.Shared.Bounded.{Within, Anything, Within-suc, Within-if}

-- The result of a check of the stage `Setting`, and of `set`.
abbrev pub SeenElsewhere : Result (Unit {0}) StageAndSequenceVerificationError → Type 0
SeenElsewhere (err (stage_changed s)) = s ≢ setting
SeenElsewhere _ = Unit {0}

abbrev pub SetElsewhere : Result (Unit {0}) SetError → Type 0
SetElsewhere (err (SetError.stage_and_sequence_verification_error w e)) = SeenElsewhere (err e)
SetElsewhere _ = Unit {0}

tested :
    (b : Bool) (n : ℕ) (s : Stage)
    → SeenElsewhere (
        if b
        then err (sequence_changed n)
        else if not (stage_eq s setting)
        then err (stage_changed s)
        else ok tt)
tested true n s = tt
tested false n inactive = λ e. ground (arith, e)
tested false n claiming = λ e. ground (arith, e)
tested false n setting = tt
tested false n reverting = λ e. ground (arith, e)
tested false n successful = λ e. ground (arith, e)
tested false n reverted = λ e. ground (arith, e)

module _ (i sequence marker : ℕ) where
  pub revert_words-Within : (n : ℕ) → Within (3 * n) Anything (revert_words i marker n)
  unfolding revert_words Within ◌>>=◌
  revert_words-Within zero = tt
  revert_words-Within (suc n) =
      subst (λ x. Within x Anything (revert_words i marker (suc n))) (three n)
        (λ ptr.
          Within-if Anything (suc (suc (3 * n))) (ptr == 0) _ _ (λ null. tt)
            (λ reference expected r. revert_words-Within n))
    where
      three : (k : ℕ) → suc (suc (suc (3 * k))) ≡ 3 * suc k
      three k = omega arith

  verification_result-elsewhere :
      (word : ℕ) → SeenElsewhere (verification_result setting sequence word)
  unfolding verification_result
  verification_result-elsewhere word =
      elim (extract_stage_from_stage_and_sequence word)
        as (λ r. SeenElsewhere (elim r [
          | err e ↦ err (stage_out_of_bounds e.value)
          | ok s ↦
              if not (extract_sequence_from_stage_and_sequence word == sequence)
              then err (sequence_changed (extract_sequence_from_stage_and_sequence word))
              else if not (stage_eq s setting)
              then err (stage_changed s)
              else ok tt
        ])) [
          | err e ↦ tt
          | ok s ↦ tested (not (extract_sequence_from_stage_and_sequence word == sequence)) _ s
        ]

  pub set_words-Within :
      (left w : ℕ) → Within (4 * left) SetElsewhere (set_words i sequence marker left w)
  unfolding set_words set_word_failed verify_stage_and_sequence_have_not_changed Within ◌>>=◌
  set_words-Within zero w = tt
  set_words-Within (suc left) w =
      subst (λ x. Within x SetElsewhere (set_words i sequence marker (suc left) w)) (four left)
        (λ ptr.
          Within-if SetElsewhere (suc (suc (suc (4 * left)))) (ptr == 0) _ _ (λ null. tt)
            (λ reference desired r. swapped left w r (set_words-Within left (w + 1))))
    where
      failed :
          (left' w' : ℕ) (e : Result (Unit {0}) StageAndSequenceVerificationError)
          → SeenElsewhere e
          → Within (4 * left') SetElsewhere (set_words i sequence marker left' (w' + 1))
          → Within (4 * left') SetElsewhere (elim e [
            | err error ↦ ret (err (SetError.stage_and_sequence_verification_error w' error))
            | ok _ ↦ set_words i sequence marker left' (w' + 1)
          ])
      failed left' w' (ok u) seen rest = rest
      failed left' w' (err e) seen rest = seen

      swapped :
          (left' w' : ℕ) (r : Result ℕ ℕ)
          → Within (4 * left') SetElsewhere (set_words i sequence marker left' (w' + 1))
          → Within (suc (4 * left')) SetElsewhere (elim r [
            | ok _ ↦ set_words i sequence marker left' (w' + 1)
            | err actual_value ↦
                set_word_failed i sequence marker w' (set_words i sequence marker left' (w' + 1))
          ])
      swapped left' w' (ok u) rest = Within-suc SetElsewhere (4 * left') _ rest
      swapped left' w' (err actual) rest =
          λ word. failed left' w' _ (verification_result-elsewhere word) rest

      four : (k : ℕ) → suc (suc (suc (suc (4 * k)))) ≡ 4 * suc k
      four k = omega arith
