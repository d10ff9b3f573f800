-- ===== src/Solo/Claim.antt =====
-- The claiming phase: `claim` of src/kcas/claim.rs with no other thread at work.
use kcas.Base.{
  ℕ, zero, suc, ◌+◌, ◌≤◌, ◌<◌, Bool, true, false, List, [], ◌∷◌, Result, ok, err, ◌≡◌, ◌≢◌, refl,
  ◌∙◌, ap, arith, eq→==, ne→==,
}
use kcas.Base.Family.{overlay}
use native.Mathlib.Decide.{ℕ_discrete}
use native.Mathlib.Numerals.{add-one}
use kcas.Stage.{Stage}
use kcas.Types.{construct_stage_and_sequence}
use kcas.Types.StageAndSequence.{stage_sequence_limit}
use kcas.Kcas.StageChange.{verify_stage_and_sequence_have_not_changed}
use kcas.Sync.{Prog, ret, ◌>>=◌, target_address, expected_value, target, stage_and_sequence_number}
use kcas.Kcas.{HelpError, State}
use kcas.Kcas.Claim.{ClaimError, cas_loop, claim_word_failed, claim_words, examine_top_bits}
use kcas.Kcas.Memory.{Memory, read, write, in_bounds, run}
use kcas.Kcas.Memory.Returns.{
  spurious_failures, Ends, Returns, Ends-from, Ends-weaken, Returns-ret, Returns-bind, Returns-load,
  run-weak_hit, run-weak_spurious, Returns-weak_miss,
}
use kcas.Solo.Row.{
  IsRow, overlaid, overlay-fresh, target_in_bounds, expected_in_bounds, stage_in_bounds,
  verification_result-ok,
}

module _ (num_threads num_words : ℕ) (help_thread : ℕ → Prog (Result (Unit {0}) HelpError))
    (i sequence marker : ℕ) where
  -- A compare-exchange that failed on the expected value itself is tried again.
  claim_word_failed-retries :
      (retry : Prog (Result (Unit {0}) ClaimError)) (w ptr expected actual : ℕ)
      → actual ≡ expected
      → claim_word_failed num_threads help_thread i sequence marker retry w ptr expected actual
        ≡ retry
  unfolding claim_word_failed
  claim_word_failed-retries retry w ptr expected actual same =
      rw (claim_word_failed, eq→== actual expected same)

  -- A word that holds the expected value is claimed, after as many rounds as there are spurious
  -- failures and one more.
  pub cas_loop-Ends :
      (rounds : ℕ) (o : List Bool) (w ptr expected : ℕ) (m : Memory)
      → spurious_failures o < rounds
      → m.targets ptr ≡ expected
      → Ends rounds
          (run num_threads num_words
            (cas_loop num_threads help_thread i sequence marker rounds w ptr expected)
            o
            m)
          (ok tt)
          (write m (target ptr) marker)
  unfolding ◌>>=◌ cas_loop read in_bounds
  cas_loop-Ends zero o w ptr expected m few held = elim few [ ]
  cas_loop-Ends (suc rounds) [] w ptr expected m few held =
      Ends-from (run-weak_hit num_threads num_words _ _ _ _ m refl [] refl held)
        ((Returns-ret _ _).ends [] few)
  cas_loop-Ends (suc rounds) (false ∷ o) w ptr expected m few held =
      Ends-from (run-weak_hit num_threads num_words _ _ _ _ m refl (false ∷ o) refl held)
        ((Returns-ret _ _).ends o (omega arith))
  cas_loop-Ends (suc rounds) (true ∷ o) w ptr expected m few held =
      Ends-from
        (run-weak_spurious num_threads num_words _ _ _ _ m refl (true ∷ o) refl
          ∙ ap (λ p. run num_threads num_words p o m)
              (claim_word_failed-retries
                (cas_loop num_threads help_thread i sequence marker rounds w ptr expected) w ptr
                expected (m.targets ptr) held))
        (Ends-weaken (cas_loop-Ends rounds o w ptr expected m (omega arith) held))

  module _ (rounds : ℕ) {s : State} (row : IsRow num_threads num_words i s) (h : ℕ → ℕ) where
    -- One word: its target still holds the caller's value, since no other word has that target.
    pub claim_words-step :
        (left w : ℕ) {a : Result (Unit {0}) ClaimError} {m' : Memory}
        → w < num_words
        → h (s.target_addresses i w) ≡ s.expected_values i w
        → Returns num_threads num_words rounds
            (claim_words num_threads help_thread i sequence marker rounds left (w + 1))
            (overlaid s i (suc w) (λ w. marker) h)
            a
            m'
        → Returns num_threads num_words rounds
            (claim_words num_threads help_thread i sequence marker rounds (suc left) w)
            (overlaid s i w (λ w. marker) h)
            a
            m'
    unfolding claim_words ◌>>=◌ read write overlay
    claim_words-step left w below matches rest =
        Returns-load (target_address i w) _ (target_in_bounds num_words row.index below) refl (
          rw (ne→== (s.target_addresses i w) 0 (row.not_null w below)) (
            Returns-load (expected_value i w) _ (expected_in_bounds num_words row.index below) refl
              (Returns-bind _ _ first rest)))
      where
        held :
            overlay w (s.target_addresses i) (λ w. marker) h (s.target_addresses i w)
            ≡ s.expected_values i w
        held = overlay-fresh row w below (λ w. marker) h ∙ matches

        first :
            Returns num_threads num_words rounds
              (cas_loop num_threads help_thread i sequence marker rounds w
                (s.target_addresses i w)
                (s.expected_values i w))
              (overlaid s i w (λ w. marker) h)
              (ok tt)
              (overlaid s i (suc w) (λ w. marker) h)
        first = record {
          ends = λ o few.
              cas_loop-Ends rounds o w (s.target_addresses i w) (s.expected_values i w)
                (overlaid s i w (λ w. marker) h) few held;
        }

    -- As long as the targets hold their expected values they are claimed; what happens at word
    -- `stop` decides the rest.
    pub claim_words-until :
        (stop : ℕ) {a : Result (Unit {0}) ClaimError} {m' : Memory}
        → ((left : ℕ)
            → stop + left ≡ num_words
            → Returns num_threads num_words rounds
                (claim_words num_threads help_thread i sequence marker rounds left stop)
                (overlaid s i stop (λ w. marker) h)
                a
                m')
        → ((j : ℕ) → j < stop → h (s.target_addresses i j) ≡ s.expected_values i j)
        → (left w : ℕ) → w + left ≡ num_words
        → w ≤ stop
        → stop ≤ num_words
        → Returns num_threads num_words rounds
            (claim_words num_threads help_thread i sequence marker rounds left w)
            (overlaid s i w (λ w. marker) h)
            a
            m'
    claim_words-until stop at_stop matches zero w e low high =
        let last : w ≡ stop = omega arith in rw last (at_stop 0 (omega arith))
    claim_words-until stop at_stop matches (suc left) w e low high = elim (ℕ_discrete w stop) [
      | yes last ↦ rw last (at_stop (suc left) (omega arith))
      | no more ↦ claim_words-step left w (omega arith) (matches w (omega arith)) (
          rw add-one
            (claim_words-until stop at_stop matches left (suc w) (omega arith) (omega arith) high))
    ]

    -- If every target holds its expected value, all are claimed.
    pub claim_words-claims :
        ((j : ℕ) → j < num_words → h (s.target_addresses i j) ≡ s.expected_values i j)
        → Returns num_threads num_words rounds
            (claim_words num_threads help_thread i sequence marker rounds num_words 0)
            (record { state = s; targets = h })
            (ok tt)
            (overlaid s i num_words (λ w. marker) h)
    unfolding overlay
    claim_words-claims matches =
        claim_words-until num_words
          (λ left e. let none_left : left ≡ 0 = omega arith in rw none_left claimed) matches
          num_words 0 (omega arith) (omega arith) (omega arith)
      where
        claimed :
            Returns num_threads num_words rounds
              (claim_words num_threads help_thread i sequence marker rounds 0 num_words)
              (overlaid s i num_words (λ w. marker) h)
              (ok tt)
              (overlaid s i num_words (λ w. marker) h)
        claimed = unfold claim_words in Returns-ret _ _

  -- A word that holds neither the expected value nor the marker: what the top bits say decides.
  cas_loop-examines :
      {rounds : ℕ} (more w ptr expected : ℕ) (m : Memory) {a : Result (Unit {0}) ClaimError}
      {m' : Memory}
      → i < num_threads
      → sequence < stage_sequence_limit
      → m.state.stage_and_sequence_numbers i ≡ construct_stage_and_sequence Stage.claiming sequence
      → m.targets ptr ≢ expected
      → m.targets ptr ≢ marker
      → Returns num_threads num_words rounds
          (examine_top_bits num_threads help_thread i sequence marker
            (cas_loop num_threads help_thread i sequence marker more w ptr expected)
            w
            ptr
            (m.targets ptr))
          m
          a
          m'
      → Returns num_threads num_words rounds
          (cas_loop num_threads help_thread i sequence marker (suc more) w ptr expected)
          m
          a
          m'
  unfolding ◌>>=◌ cas_loop read in_bounds verify_stage_and_sequence_have_not_changed
  cas_loop-examines more w ptr expected m index small stage other unmarked rest =
      Returns-weak_miss (target ptr) expected marker _ refl other (
        rw (ne→== (m.targets ptr) expected other, ne→== (m.targets ptr) marker unmarked)
          (Returns-load (stage_and_sequence_number i) _ (stage_in_bounds num_words index) stage
            (rw (verification_result-ok Stage.claiming sequence small) rest)))

  -- The claim of such a word ends with the error that its top bits call for.
  cas_loop-stops :
      (rounds w ptr expected value : ℕ) (m : Memory) (error : ClaimError)
      → i < num_threads
      → sequence < stage_sequence_limit
      → m.state.stage_and_sequence_numbers i ≡ construct_stage_and_sequence Stage.claiming sequence
      → m.targets ptr ≡ value
      → value ≢ expected
      → value ≢ marker
      → ((retry : Prog (Result (Unit {0}) ClaimError))
          → examine_top_bits num_threads help_thread i sequence marker retry w ptr value
            ≡ ret (err error))
      → Returns num_threads num_words rounds
          (cas_loop num_threads help_thread i sequence marker rounds w ptr expected)
          m
          (err error)
          m
  cas_loop-stops zero w ptr expected value m error index small stage held other unmarked verdict =
      record { ends = λ o few. elim few [ ] }
  cas_loop-stops (suc more) w ptr expected value m error index small stage held other unmarked
        verdict =
      cas_loop-examines more w ptr expected m index small stage (rw held other) (rw held unmarked)
        (rw (held, verdict _) (Returns-ret _ _))

  module _ (rounds : ℕ) {s : State} (row : IsRow num_threads num_words i s) (h : ℕ → ℕ) (stop : ℕ)
      (below : stop < num_words) (small : sequence < stage_sequence_limit)
      (stage : s.stage_and_sequence_numbers i
        ≡ construct_stage_and_sequence Stage.claiming sequence)
      (matches : (w : ℕ) → w < stop → h (s.target_addresses i w) ≡ s.expected_values i w)
      (differs : h (s.target_addresses i stop) ≢ s.expected_values i stop)
      (unmarked : h (s.target_addresses i stop) ≢ marker) (error : ClaimError)
      (verdict : (retry : Prog (Result (Unit {0}) ClaimError))
        → examine_top_bits num_threads help_thread i sequence marker retry stop
            (s.target_addresses i stop)
            (h (s.target_addresses i stop))
          ≡ ret (err error)) where
    claim_words-at_stop :
        (left : ℕ)
        → stop + left ≡ num_words
        → Returns num_threads num_words rounds
            (claim_words num_threads help_thread i sequence marker rounds left stop)
            (overlaid s i stop (λ w. marker) h)
            (err error)
            (overlaid s i stop (λ w. marker) h)
    unfolding claim_words ◌>>=◌ read
    claim_words-at_stop zero e = absurd (omega arith)
    claim_words-at_stop (suc left) e =
        Returns-load (target_address i stop) _ (target_in_bounds num_words row.index below) refl (
          rw (ne→== (s.target_addresses i stop) 0 (row.not_null stop below)) (
            Returns-load (expected_value i stop) _ (expected_in_bounds num_words row.index below)
              refl
              (Returns-bind _ _
                (cas_loop-stops rounds stop (s.target_addresses i stop) (s.expected_values i stop)
                  (h (s.target_addresses i stop)) (overlaid s i stop (λ w. marker) h) error
                  row.index small stage (overlay-fresh row stop below (λ w. marker) h) differs
                  unmarked verdict)
                (Returns-ret _ _))))

    -- The claim ends at the first word that does not hold its expected value.
    pub claim_words-stops :
        Returns num_threads num_words rounds
          (claim_words num_threads help_thread i sequence marker rounds num_words 0)
          (record { state = s; targets = h })
          (err error)
          (overlaid s i stop (λ w. marker) h)
    unfolding overlay
    claim_words-stops =
        claim_words-until rounds row h stop claim_words-at_stop matches num_words 0 (omega arith)
          (omega arith) (omega arith)
