-- ===== src/Solo/Finish/Claim.antt =====
-- A helper by itself finishes an operation that its thread has left in the stage `Claiming`, with some
-- of the targets claimed.
use kcas.Base.{
  ℕ, zero, suc, ◌+◌, ◌<◌, Bool, List, Result, ok, ◌≡◌, ◌≢◌, ◌⊎◌, inl, inr, refl, sym, ◌∙◌, subst,
  arith, ne→==, eq→==,
}
use mathlib.Core.Path.{ap₂}
use kcas.Base.Family.{update_self, overlay, overlay_at, overlay_over, update_twice}
use kcas.Stage.{claiming, setting, successful}
use kcas.Types.{
  construct_stage_and_sequence, construct_thread_and_sequence, convert_thread_id_to_thread_index,
}
use kcas.Types.StageAndSequence.{stage_sequence_limit}
use kcas.Sync.{Prog, ◌>>=◌, target_address, expected_value, stage_and_sequence_number, target}
use kcas.Kcas.{State, HelpError}
use kcas.Kcas.StageChange.{Handler, help_change_stage_and_transition}
use kcas.Kcas.Claim.{
  ClaimError, claim_word_failed, cas_loop, claim_words, claim, after_help_claim,
  help_claim_and_transition,
}
use kcas.Kcas.Operation.{help_stage, help_thread}
use kcas.Kcas.Memory.{run, returned, Memory, read, write, in_bounds}
use kcas.Kcas.Memory.Returns.{
  Returns, Returns-ret, Returns-bind, Returns-load, Returns-hit, Returns-weak_miss,
  spurious_failures,
}
use native.Mathlib.Numerals.{add-one}
use kcas.Solo.Initialize.{with_stage}
use kcas.Solo.Row.{
  IsRow, overlaid, overlay-fresh, stage_in_bounds, target_in_bounds, expected_in_bounds,
}
use kcas.Solo.Claim.{claim_words-step}
use kcas.Kcas.Set.{help_set_and_transition}
use kcas.Solo.Kcas.{IsRow-with_stage}
use kcas.Solo.Finish.{
  IsLeft, left_at, help_thread-resumes, Returns-run, update_same, help_set_and_transition-finishes,
}

-- The target of a word that is being claimed holds its expected value, or already the marker.
abbrev pub IsBeingClaimed : (marker expected value : ℕ) → Type 0
IsBeingClaimed marker expected value = (value ≡ expected) ⊎ ((value ≡ marker) × (expected ≢ marker))

module _ (num_threads num_words : ℕ) (help : ℕ → Prog (Result (Unit {0}) HelpError))
    (i sequence marker : ℕ) where
  -- A word that is claimed already.
  cas_loop-marked :
      (rounds w ptr expected : ℕ) (m : Memory)
      → m.targets ptr ≡ marker
      → expected ≢ marker
      → Returns num_threads num_words rounds
          (cas_loop num_threads help i sequence marker rounds w ptr expected)
          m
          (ok tt)
          m
  unfolding cas_loop claim_word_failed ◌>>=◌ read in_bounds
  cas_loop-marked zero w ptr expected m held other = record { ends = λ o few. elim few [ ] }
  cas_loop-marked (suc rounds) w ptr expected m held other =
      Returns-weak_miss (target ptr) expected marker _ refl (λ e. other (sym e ∙ held))
        (rw (held, ne→== marker expected (λ e. other (sym e)), eq→== marker marker refl)
          (Returns-ret _ _))

  module _ (rounds : ℕ) {s : State} (row : IsRow num_threads num_words i s) (g : ℕ → ℕ)
      (being_claimed : (j : ℕ)
        → j < num_words
        → IsBeingClaimed marker (s.expected_values i j) (g (s.target_addresses i j))) where
    claim_words-goes_on :
        (left w : ℕ) {a : Result (Unit {0}) ClaimError} {m' : Memory}
        → w < num_words
        → Returns num_threads num_words rounds
            (claim_words num_threads help i sequence marker rounds left (w + 1))
            (overlaid s i (suc w) (λ w. marker) g)
            a
            m'
        → Returns num_threads num_words rounds
            (claim_words num_threads help i sequence marker rounds (suc left) w)
            (overlaid s i w (λ w. marker) g)
            a
            m'
    unfolding claim_words ◌>>=◌ read overlay
    claim_words-goes_on left w {a} {m'} below rest = elim (being_claimed w below) [
      | inl held ↦
          claim_words-step num_threads num_words help i sequence marker rounds row g left w below
            held rest
      | inr (marked, other) ↦
          let now = overlay-fresh row w below (λ w. marker) g ∙ marked in
          Returns-load (target_address i w) _ (target_in_bounds num_words row.index below) refl (
            rw (ne→== (s.target_addresses i w) 0 (row.not_null w below)) (
              Returns-load (expected_value i w) _ (expected_in_bounds num_words row.index below)
                refl
                (Returns-bind _ _
                  (cas_loop-marked rounds w (s.target_addresses i w) (s.expected_values i w)
                    (overlaid s i w (λ w. marker) g) now other)
                  (subst
                    (λ t.
                      Returns num_threads num_words rounds
                        (claim_words num_threads help i sequence marker rounds left (w + 1))
                        (record { state = s; targets = t }) a m')
                    (update_same (overlay w (s.target_addresses i) (λ w. marker) g)
                      (s.target_addresses i w) marker now)
                    rest))))
    ]

    claim_words-completes_from :
        (left w : ℕ)
        → w + left ≡ num_words
        → Returns num_threads num_words rounds
            (claim_words num_threads help i sequence marker rounds left w)
            (overlaid s i w (λ w. marker) g)
            (ok tt)
            (overlaid s i num_words (λ w. marker) g)
    claim_words-completes_from zero w e =
        let last : w ≡ num_words = omega arith in rw last (unfold claim_words in Returns-ret _ _)
    claim_words-completes_from (suc left) w e =
        claim_words-goes_on left w (omega arith)
          (rw add-one (claim_words-completes_from left (suc w) (omega arith)))

  module _ (rounds : ℕ) {s : State} (row : IsRow num_threads num_words i s)
      (small : sequence < stage_sequence_limit)
      (stage : s.stage_and_sequence_numbers i ≡ construct_stage_and_sequence claiming sequence)
      (g : ℕ → ℕ)
      (being_claimed : (j : ℕ)
        → j < num_words
        → IsBeingClaimed marker (s.expected_values i j) (g (s.target_addresses i j))) where
    abbrev set_state : State
    set_state = with_stage s i (construct_stage_and_sequence setting sequence)

    abbrev done : Memory
    done = record {
      state = with_stage s i (construct_stage_and_sequence successful sequence);
      targets = overlay num_words (s.target_addresses i) (s.desired_values i) g;
    }

    help_claim_and_transition-finishes :
        (handle : Handler HelpError)
        → Returns num_threads num_words rounds
            (help_claim_and_transition num_threads num_words help handle rounds i sequence marker)
            (record { state = s; targets = g })
            (ok tt)
            done
    unfolding help_claim_and_transition after_help_claim help_change_stage_and_transition claim
        ◌>>=◌ read write overlay
    help_claim_and_transition-finishes handle =
        Returns-bind (claim_words num_threads help i sequence marker rounds num_words 0) _
          (claim_words-completes_from rounds row g being_claimed num_words 0 (omega arith))
          (Returns-hit (stage_and_sequence_number i) _ _ _ (stage_in_bounds num_words row.index)
            stage
            (subst
              (λ m'.
                Returns num_threads num_words rounds
                  (help_set_and_transition num_threads num_words handle i sequence marker)
                  (record {
                    state = set_state;
                    targets = overlay num_words (s.target_addresses i) (λ w. marker) g;
                  })
                  (ok tt) m')
              (ap₂
                (λ t f. record { state = record s { stage_and_sequence_numbers = t }; targets = f })
                (update_twice s.stage_and_sequence_numbers i _ _)
                (overlay_over num_words (s.target_addresses i) (s.desired_values i) (λ w. marker)
                  g))
              (help_set_and_transition-finishes num_threads num_words rounds i sequence marker
                (IsRow-with_stage _ row) small (update_self s.stage_and_sequence_numbers i _)
                (overlay num_words (s.target_addresses i) (λ w. marker) g)
                (λ j below.
                  inl
                    (overlay_at num_words (s.target_addresses i) (λ w. marker) g j row.apart below))
                handle)))

-- A helper that meets the marker of an operation that its thread has left in the stage `Claiming`,
-- each target with its expected value or already the marker, and is not disturbed, returns `Ok`:
-- every target has its desired value, the stage is `Successful`, and nothing else changes. The fuel
-- is above the number of spurious failures.
pub help_thread-finishes_claim :
    (num_threads num_words fuel thread_id sequence : ℕ) (m : Memory) (o : List Bool)
    → IsLeft num_threads num_words thread_id sequence claiming m
    → ((w : ℕ)
        → w < num_words
        → IsBeingClaimed
            (construct_thread_and_sequence num_threads thread_id sequence)
            (m.state.expected_values (convert_thread_id_to_thread_index thread_id) w)
            (m.targets (m.state.target_addresses (convert_thread_id_to_thread_index thread_id) w)))
    → spurious_failures o < fuel
    → (o' : List Bool) × (run num_threads num_words
          (help_thread num_threads num_words
            (suc fuel)
            (construct_thread_and_sequence num_threads thread_id sequence))
          o
          m
        ≡ returned (ok tt) o' (
            left_at num_words thread_id sequence successful
              (m.state.desired_values (convert_thread_id_to_thread_index thread_id))
              m))
unfolding help_stage
help_thread-finishes_claim num_threads num_words fuel thread_id sequence m o left being_claimed
      few =
    Returns-run o fuel few (
      help_thread-resumes num_threads num_words fuel fuel thread_id sequence claiming left (
        help_claim_and_transition-finishes num_threads num_words
          (help_thread num_threads num_words fuel) (convert_thread_id_to_thread_index thread_id)
          sequence (construct_thread_and_sequence num_threads thread_id sequence) fuel left.row
          left.small left.word m.targets being_claimed _))
