-- ===== src/Solo/Finish/Revert.antt =====
-- A helper by itself finishes an operation that its thread has left in the stage `Reverting`.
use kcas.Base.{
  ℕ, zero, suc, ◌^◌, ◌≤◌, ◌<◌, Bool, List, Result, ok, ◌≡◌, ◌≢◌, refl, sym, ◌∙◌, ap, subst, arith,
  ◌==◌, ne→==, eq→==, if◌then◌else◌,
}
use native.Mathlib.Decide.{ℕ_discrete}
use kcas.Base.Family.{update, update_ne, overlay, overlay_values, overlay-update}
use kcas.Word.{wrapping_sub}
use kcas.Stage.{reverting, reverted}
use kcas.Types.{construct_thread_and_sequence, convert_thread_id_to_thread_index}
use kcas.Sync.{◌>>=◌, target_address, expected_value, stage_and_sequence_number, target}
use kcas.Kcas.{State}
use kcas.Kcas.StageChange.{help_change_stage_and_transition}
use kcas.Kcas.Revert.{RevertError, revert_words, revert, help_revert_and_transition}
use kcas.Kcas.Operation.{help_stage, help_thread}
use kcas.Kcas.Memory.{run, returned, Memory, read, write, in_bounds}
use kcas.Kcas.Memory.Returns.{
  Returns, Returns-ret, Returns-bind, Returns-load, Returns-hit, Returns-miss, spurious_failures,
}
use kcas.Solo.Row.{IsRow, overlaid, stage_in_bounds, target_in_bounds, expected_in_bounds}
use kcas.Solo.Finish.{IsLeft, left_at, help_thread-resumes, Returns-run, update_same}

-- A marker is taken back; another value stays.
abbrev pub restored : (marker expected value : ℕ) → ℕ
restored marker expected value = if value == marker then expected else value

module _ (num_threads num_words rounds i marker : ℕ) {s : State}
    (row : IsRow num_threads num_words i s) where
  abbrev back : (ℕ → ℕ) → ℕ → ℕ
  back g j = restored marker (s.expected_values i j) (g (s.target_addresses i j))

  revert_word :
      (n : ℕ) (g : ℕ → ℕ) {a : Result (Unit {0}) RevertError} {m' : Memory}
      → n < num_words
      → Returns num_threads num_words rounds
          (revert_words i marker n)
          (record { state = s; targets = update g (s.target_addresses i n) (back g n) })
          a
          m'
      → Returns num_threads num_words rounds
          (revert_words i marker (suc n))
          (record { state = s; targets = g })
          a
          m'
  unfolding revert_words ◌>>=◌ read write in_bounds
  revert_word n g {a} {m'} below rest =
      Returns-load (target_address i n) _ (target_in_bounds num_words row.index below) refl (
        rw (ne→== (s.target_addresses i n) 0 (row.not_null n below)) (
          Returns-load (expected_value i n) _ (expected_in_bounds num_words row.index below) refl
            (elim (ℕ_discrete (g (s.target_addresses i n)) marker) [
              | yes marked ↦
                  Returns-hit (target (s.target_addresses i n)) marker (s.expected_values i n) _
                    refl marked
                    (subst
                      (λ v.
                        Returns num_threads num_words rounds (revert_words i marker n)
                          (record { state = s; targets = update g (s.target_addresses i n) v }) a
                          m')
                      (restored-marked marked) rest)
              | no other ↦
                  Returns-miss (target (s.target_addresses i n)) marker (s.expected_values i n) _
                    refl other
                    (subst
                      (λ t.
                        Returns num_threads num_words rounds (revert_words i marker n)
                          (record { state = s; targets = t }) a m')
                      (update_same g (s.target_addresses i n) (back g n) (restored-other other))
                      rest)
            ])))
    where
      restored-marked : g (s.target_addresses i n) ≡ marker → back g n ≡ s.expected_values i n
      restored-marked e = rw (eq→== _ _ e) refl

      restored-other : g (s.target_addresses i n) ≢ marker → g (s.target_addresses i n) ≡ back g n
      restored-other e = rw (ne→== _ _ e) refl

  later_targets :
      (n : ℕ) (g : ℕ → ℕ)
      → suc n ≤ num_words
      → overlay n
          (s.target_addresses i)
          (back (update g (s.target_addresses i n) (back g n)))
          (update g (s.target_addresses i n) (back g n))
        ≡ overlay (suc n) (s.target_addresses i) (back g) g
  unfolding overlay
  later_targets n g below =
      overlay_values n (s.target_addresses i) _ (back g) _ (λ j before.
        ap (restored marker (s.expected_values i j)) (
          update_ne g (s.target_addresses i n) (s.target_addresses i j) (back g n)
            (λ e. apart j before (sym e))))
      ∙ overlay-update n (s.target_addresses i) (back g) g (s.target_addresses i n) (back g n) apart
    where
      apart : (j : ℕ) → j < n → s.target_addresses i j ≢ s.target_addresses i n
      apart j before e = omega (arith, row.apart j n (omega arith) (omega arith) e)

  -- Every word, from the last to the first.
  revert_words-restore :
      (n : ℕ) (g : ℕ → ℕ)
      → n ≤ num_words
      → Returns num_threads num_words rounds
          (revert_words i marker n)
          (record { state = s; targets = g })
          (ok tt)
          (overlaid s i n (back g) g)
  revert_words-restore zero g below = unfold revert_words overlay in Returns-ret _ _
  revert_words-restore (suc n) g below = revert_word n g (omega arith) (
      subst
        (λ t.
          Returns num_threads num_words rounds (revert_words i marker n)
            (record { state = s; targets = update g (s.target_addresses i n) (back g n) }) (ok tt)
            (record { state = s; targets = t }))
        (later_targets n g below)
        (revert_words-restore n (update g (s.target_addresses i n) (back g n)) (omega arith)))

  pub revert-restore :
      (g : ℕ → ℕ)
      → 1 ≤ num_words
      → num_words < 2 ^ 64
      → Returns num_threads num_words rounds
          (revert i marker (wrapping_sub num_words 1))
          (record { state = s; targets = g })
          (ok tt)
          (overlaid s i num_words (back g) g)
  unfolding revert
  revert-restore g some_words words_fit =
      let all : num_words ≡ suc (wrapping_sub num_words 1) = omega (arith, some_words, words_fit) in
      subst
        (λ n.
          Returns num_threads num_words rounds (revert_words i marker n)
            (record { state = s; targets = g }) (ok tt) (overlaid s i num_words (back g) g))
        all (revert_words-restore num_words g (omega arith))

-- A helper that meets the marker of an operation that its thread has left in the stage `Reverting`,
-- and is not disturbed, returns `Ok`: every target of the row that held the marker has its expected
-- value back, the others are as they were, the stage is `Reverted`, and nothing else changes.
pub help_thread-finishes_revert :
    (num_threads num_words fuel thread_id sequence : ℕ) (m : Memory) (o : List Bool)
    → IsLeft num_threads num_words thread_id sequence reverting m
    → 1 ≤ num_words
    → num_words < 2 ^ 64
    → (o' : List Bool) × (run num_threads num_words
          (help_thread num_threads num_words
            (suc fuel)
            (construct_thread_and_sequence num_threads thread_id sequence))
          o
          m
        ≡ returned (ok tt) o' (
            left_at num_words thread_id sequence reverted
              (λ w.
                restored
                  (construct_thread_and_sequence num_threads thread_id sequence)
                  (m.state.expected_values (convert_thread_id_to_thread_index thread_id) w)
                  (m.targets
                    (m.state.target_addresses (convert_thread_id_to_thread_index thread_id) w)))
              m))
unfolding help_stage help_revert_and_transition help_change_stage_and_transition ◌>>=◌ read write
help_thread-finishes_revert num_threads num_words fuel thread_id sequence m o left some_words
      words_fit =
    let i = convert_thread_id_to_thread_index thread_id in
    let marker = construct_thread_and_sequence num_threads thread_id sequence in
    Returns-run o (suc (spurious_failures o)) (omega arith) (
      help_thread-resumes num_threads num_words _ fuel thread_id sequence reverting left (
        Returns-bind (revert i marker (wrapping_sub num_words 1)) _
          (revert-restore num_threads num_words _ i marker left.row m.targets some_words words_fit)
          (Returns-hit (stage_and_sequence_number i) _ _ _
            (stage_in_bounds num_words left.row.index) left.word (Returns-ret _ _))))
