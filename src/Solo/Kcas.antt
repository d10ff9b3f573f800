-- ===== src/Solo/Kcas.antt =====
-- The transitions of one thread by itself, from the claim to the end of the operation.
use kcas.Base.{ℕ, ◌<◌, Result, ok, err, ◌≡◌, ◌≢◌}
use kcas.Base.Family.{overlay, overlay_at}
use kcas.Stage.{Stage}
use kcas.Err.{FatalError, Error}
use kcas.Types.{construct_stage_and_sequence}
use kcas.Types.StageAndSequence.{stage_sequence_limit}
use kcas.Sync.{Prog, ret, ◌>>=◌, ◌>>◌, stage_and_sequence_number}
use kcas.Kcas.{State, HelpError, next_sequence, prepare_for_next_operation}
use kcas.Kcas.StageChange.{Handler, change_stage_and_transition}
use kcas.Kcas.Revert.{revert_and_transition}
use kcas.Kcas.Set.{set, set_and_transition}
use kcas.Kcas.Claim.{ClaimError, claim, claim_and_transition, examine_top_bits}
use kcas.Kcas.Memory.{Memory, read, write}
use kcas.Kcas.Memory.Returns.{Returns, Returns-ret, Returns-bind, Returns-store, Returns-hit}
use kcas.Solo.Row.{IsRow, overlaid, stage_in_bounds}
use kcas.Solo.Initialize.{with_stage}
use kcas.Solo.Claim.{claim_words-claims, claim_words-stops}
use kcas.Solo.Revert.{revert-restores}
use kcas.Solo.Set.{set_words-sets}

pub IsRow-with_stage :
    {num_threads num_words i : ℕ} {s : State} (v : ℕ)
    → IsRow num_threads num_words i s
    → IsRow num_threads num_words i (with_stage s i v)
IsRow-with_stage v row = record { index = row.index; not_null = row.not_null; apart = row.apart }

module _ (num_threads num_words rounds : ℕ) (help_thread : ℕ → Prog (Result (Unit {0}) HelpError))
    (handle : Handler Error) (i sequence marker : ℕ) {s : State}
    (row : IsRow num_threads num_words i s) (h : ℕ → ℕ)
    (stage : s.stage_and_sequence_numbers i
      ≡ construct_stage_and_sequence Stage.claiming sequence) where
  abbrev at_stage : Stage → State
  at_stage next = with_stage s i (construct_stage_and_sequence next sequence)

  abbrev ended : Stage → State
  ended last =
      with_stage (at_stage last) i
        (construct_stage_and_sequence Stage.inactive (next_sequence num_threads sequence))

  prepared :
      (last : Stage) (g : ℕ → ℕ)
      → Returns num_threads num_words rounds
          (prepare_for_next_operation num_threads i sequence)
          (record { state = at_stage last; targets = g })
          tt
          (record { state = ended last; targets = g })
  unfolding prepare_for_next_operation write
  prepared last g =
      Returns-store (stage_and_sequence_number i) _ _ (stage_in_bounds num_words row.index)
        (Returns-ret _ _)

  changed :
      (next : Stage) (k : Prog (Result (Unit {0}) Error)) (g : ℕ → ℕ) {a : Result (Unit {0}) Error}
      {m' : Memory}
      → Returns num_threads num_words rounds k (record { state = at_stage next; targets = g }) a m'
      → Returns num_threads num_words rounds
          (change_stage_and_transition num_words handle i sequence marker Stage.claiming next k)
          (record { state = s; targets = g })
          a
          m'
  unfolding change_stage_and_transition ◌>>=◌ read write
  changed next k g rest =
      Returns-hit (stage_and_sequence_number i) _ _ _ (stage_in_bounds num_words row.index) stage
        rest

  -- Every target holds its expected value: all are swapped, and the slot is ready for the next
  -- operation.
  pub claim_and_transition-succeeds :
      ((w : ℕ) → w < num_words → h (s.target_addresses i w) ≡ s.expected_values i w)
      → Returns num_threads num_words rounds
          (claim_and_transition num_threads num_words help_thread handle rounds i sequence marker)
          (record { state = s; targets = h })
          (ok tt)
          (overlaid
            (ended Stage.setting)
            i
            num_words
            (s.desired_values i)
            (overlay num_words (s.target_addresses i) (λ w. marker) h))
  unfolding claim_and_transition claim
  claim_and_transition-succeeds matches =
      Returns-bind _ _
        (claim_words-claims num_threads num_words help_thread i sequence marker rounds row h
          matches)
        (changed Stage.setting _ claimed setting)
    where
      claimed : ℕ → ℕ
      claimed = overlay num_words (s.target_addresses i) (λ w. marker) h

      setting :
          Returns num_threads num_words rounds
            (set_and_transition num_threads num_words handle i sequence marker)
            (record { state = at_stage Stage.setting; targets = claimed })
            (ok tt)
            (overlaid (ended Stage.setting) i num_words (s.desired_values i) claimed)
      setting =
          unfold set_and_transition set ◌>>=◌ in
          Returns-bind _ _
            (set_words-sets num_threads num_words rounds i sequence marker
              {s = at_stage Stage.setting} (IsRow-with_stage _ row) claimed
              (λ j below.
                overlay_at num_words (s.target_addresses i) (λ w. marker) h j row.apart below))
            (Returns-bind _ _ (prepared Stage.setting _) (Returns-ret _ _))

  module _ (stop : ℕ) (below : stop < num_words) (small : sequence < stage_sequence_limit)
      (matches : (w : ℕ) → w < stop → h (s.target_addresses i w) ≡ s.expected_values i w)
      (differs : h (s.target_addresses i stop) ≢ s.expected_values i stop)
      (unmarked : h (s.target_addresses i stop) ≢ marker) where
    abbrev stop_ptr : ℕ
    stop_ptr = s.target_addresses i stop

    -- A word holds another value of the application: the operation fails, the claimed words get
    -- their values back, and the slot is ready for the next operation.
    pub claim_and_transition-fails :
        ((retry : Prog (Result (Unit {0}) ClaimError))
          → examine_top_bits num_threads help_thread i sequence marker retry stop stop_ptr
              (h stop_ptr)
            ≡ ret (err (ClaimError.value_was_not_expected_value stop stop_ptr (h stop_ptr))))
        → Returns num_threads num_words rounds
            (claim_and_transition num_threads num_words help_thread handle rounds i sequence marker)
            (record { state = s; targets = h })
            (err Error.value_was_not_expected_value)
            (record { state = ended Stage.reverting; targets = h })
    unfolding claim_and_transition claim
    claim_and_transition-fails verdict =
        Returns-bind _ _
          (claim_words-stops num_threads num_words help_thread i sequence marker rounds row h stop
            below small stage matches differs unmarked _ verdict)
          (changed Stage.reverting _ _ reverting)
      where
        reverting :
            Returns num_threads num_words rounds
              (revert_and_transition i marker stop (
                prepare_for_next_operation num_threads i sequence
                >> ret (err Error.value_was_not_expected_value)))
              (overlaid (at_stage Stage.reverting) i stop (λ w. marker) h)
              (err Error.value_was_not_expected_value)
              (record { state = ended Stage.reverting; targets = h })
        reverting =
            unfold revert_and_transition in
            Returns-bind _ _
              (revert-restores num_threads num_words rounds i marker {s = at_stage Stage.reverting}
                (IsRow-with_stage _ row) h stop below matches unmarked)
              (Returns-bind _ _ (prepared Stage.reverting _) (Returns-ret _ _))

    -- Reserved bits that belong to no thread and are not all 1 end the operation with a fatal
    -- error: the words before keep their markers, and the stage stays `Claiming`.
    pub claim_and_transition-illegal :
        (num_reserved_bits : ℕ)
        → ((retry : Prog (Result (Unit {0}) ClaimError))
            → examine_top_bits num_threads help_thread i sequence marker retry stop stop_ptr
                (h stop_ptr)
              ≡ ret (
                  err (
                    ClaimError.top_bits_of_value_were_illegal stop stop_ptr
                      (h stop_ptr)
                      num_reserved_bits)))
        → Returns num_threads num_words rounds
            (claim_and_transition num_threads num_words help_thread handle rounds i sequence marker)
            (record { state = s; targets = h })
            (err (
              Error.fatal (
                FatalError.top_bits_of_value_were_illegal stop stop_ptr
                  (h stop_ptr)
                  num_reserved_bits)))
            (overlaid s i stop (λ w. marker) h)
    unfolding claim_and_transition claim
    claim_and_transition-illegal num_reserved_bits verdict =
        Returns-bind _ _
          (claim_words-stops num_threads num_words help_thread i sequence marker rounds row h stop
            below small stage matches differs unmarked _ verdict)
          (Returns-ret _ _)
