-- ===== src/Solo/Blocked.antt =====
-- `kcas` by one thread by itself, where a target holds the marker of another thread's operation that
-- is over.
use kcas.Base.{
  ℕ, zero, suc, ◌+◌, ◌≤◌, ◌<◌, ◌^◌, Bool, List, Result, ok, ◌≡◌, ◌≢◌, inl, inr, refl, sym, ◌∙◌, ap,
  arith, ne→==,
}
use native.Mathlib.Decide.{ℕ_discrete}
use native.Mathlib.Numerals.{add-one}
use kcas.Base.Family.{overlay}
use kcas.Stage.{Stage, claiming}
use kcas.Types.{
  construct_stage_and_sequence, extract_thread_from_thread_and_sequence,
  extract_stage_from_stage_and_sequence, extract_sequence_from_stage_and_sequence,
  convert_thread_id_to_thread_index,
}
use kcas.Types.StageAndSequence.{stage_sequence_limit, extract_sequence-lt}
use kcas.Types.Marker.{sequence_limit, extract_thread-construct}
use kcas.Sync.{Prog, ◌>>=◌, target_address, expected_value}
use kcas.Kcas.{State, KCasWord, initialize_operation}
use kcas.Kcas.Claim.{ClaimError, cas_loop, claim_words, claim, claim_and_transition}
use kcas.Kcas.Operation.{help_thread, perform_kcas}
use kcas.Kcas.Memory.{Memory, read, write, run, exhausted}
use kcas.Kcas.Memory.Returns.{Returns, spurious_failures}
use kcas.Solo.Row.{IsRow, overlaid, overlay-fresh, target_in_bounds, expected_in_bounds}
use kcas.Solo.Initialize.{initialize_operation-starts}
use kcas.Solo.Claim.{cas_loop-Ends}
use kcas.Solo.Contract.{IsCall, own_sequence}
use kcas.Solo.Setup.{
  index, start, marker, row, index-lt, start-IsRow, start-stage, start_stages, start-matches,
}
use kcas.Solo.Help.{IsHelpee, IsSpent}
use kcas.Solo.Waits.{Waits, Waits-load, Waits-first, Waits-then, cas_loop-exhausted}

module _ (num_threads num_words fuel i sequence marker encountered : ℕ) (stage : Stage) {s : State}
    (row : IsRow num_threads num_words i s) (small : sequence < stage_sequence_limit)
    (word : s.stage_and_sequence_numbers i ≡ construct_stage_and_sequence claiming sequence)
    (h : ℕ → ℕ) (stop : ℕ) (below : stop < num_words)
    (matches : (w : ℕ) → w < stop → h (s.target_addresses i w) ≡ s.expected_values i w)
    (held : h (s.target_addresses i stop) ≡ encountered)
    (other : encountered ≢ s.expected_values i stop) (unmarked : encountered ≢ marker)
    (helpee : (t : ℕ → ℕ)
      → IsHelpee num_threads encountered (record { state = s; targets = t }) stage)
    (spent : (t : ℕ → ℕ)
      → IsSpent num_threads encountered (record { state = s; targets = t }) stage) where
  abbrev at_word : ℕ → Prog (Result (Unit {0}) ClaimError)
  at_word w =
      cas_loop num_threads (help_thread num_threads num_words (suc fuel)) i sequence marker
        (suc fuel) w (s.target_addresses i w) (s.expected_values i w)

  abbrev taken : ℕ → ℕ
  taken = overlay stop (s.target_addresses i) (λ w. marker) h

  -- The word that holds the marker.
  at_word-Waits :
      (w : ℕ)
      → w ≡ stop
      → Waits num_threads num_words (suc fuel) (at_word w) (overlaid s i w (λ w. marker) h)
  at_word-Waits w last = rw last (record {
    waits = λ o few.
        cas_loop-exhausted num_threads num_words fuel i sequence marker encountered stage
          (overlaid s i stop (λ w. marker) h) (helpee taken) (spent taken) row.index small word stop
          (s.target_addresses i stop) (s.expected_values i stop)
          (overlay-fresh row stop below (λ w. marker) h ∙ held) other unmarked (suc fuel) o;
  })

  -- A word before it is claimed.
  at_word-Returns :
      (w : ℕ)
      → w < stop
      → Returns num_threads num_words
          (suc fuel)
          (at_word w)
          (overlaid s i w (λ w. marker) h)
          (ok tt)
          (overlaid s i (suc w) (λ w. marker) h)
  unfolding write overlay
  at_word-Returns w before = record {
    ends = λ o few.
        cas_loop-Ends num_threads num_words (help_thread num_threads num_words (suc fuel)) i
          sequence marker (suc fuel) o w (s.target_addresses i w) (s.expected_values i w)
          (overlaid s i w (λ w. marker) h) few
          (overlay-fresh row w (omega arith) (λ w. marker) h ∙ matches w before);
  }

  claim_words-Waits :
      (left w : ℕ)
      → w + left ≡ num_words
      → w ≤ stop
      → Waits num_threads num_words
          (suc fuel)
          (claim_words num_threads
            (help_thread num_threads num_words (suc fuel))
            i
            sequence
            marker
            (suc fuel)
            left
            w)
          (overlaid s i w (λ w. marker) h)
  unfolding claim_words ◌>>=◌ read overlay
  claim_words-Waits zero w e low = absurd (omega arith)
  claim_words-Waits (suc left) w e low =
      Waits-load (target_address i w) _ (target_in_bounds num_words row.index (omega arith)) refl (
        rw (ne→== (s.target_addresses i w) 0 (row.not_null w (omega arith))) (
          Waits-load (expected_value i w) _ (expected_in_bounds num_words row.index (omega arith))
            refl
            (elim (ℕ_discrete w stop) [
              | yes last ↦ Waits-first (at_word w) _ (at_word-Waits w last)
              | no more ↦
                  Waits-then (at_word w) _ (at_word-Returns w (omega arith))
                    (rw add-one (claim_words-Waits left (suc w) (omega arith) (omega arith)))
            ])))

same_thread :
    (num_threads t u : ℕ)
    → num_threads + 1 < 2 ^ 64
    → 1 ≤ t
    → t ≤ num_threads
    → 1 ≤ u
    → u ≤ num_threads
    → convert_thread_id_to_thread_index t ≡ convert_thread_id_to_thread_index u
    → t ≡ u
unfolding convert_thread_id_to_thread_index
same_thread num_threads t u fits a b c d same = omega arith

-- At the start of the operation the marker is still that of an operation that is over.
module _ (num_threads num_words fuel thread_id encountered : ℕ) (stage : Stage)
    (words : ℕ → KCasWord) (m : Memory) (call : IsCall num_threads num_words thread_id words)
    (helpee : IsHelpee num_threads encountered m stage)
    (apart : extract_thread_from_thread_and_sequence num_threads encountered ≢ thread_id)
    (t : ℕ → ℕ) where
  abbrev at_start : Memory
  at_start = record { state = start num_threads num_words fuel thread_id words m call; targets = t }

  helpee_word :
      at_start.state.stage_and_sequence_numbers (
        convert_thread_id_to_thread_index
          (extract_thread_from_thread_and_sequence num_threads encountered))
      ≡ m.state.stage_and_sequence_numbers (
          convert_thread_id_to_thread_index
            (extract_thread_from_thread_and_sequence num_threads encountered))
  helpee_word = start_stages num_threads num_words fuel thread_id words m call _ (λ same. apart (
      same_thread num_threads _ thread_id call.fits helpee.positive helpee.in_use call.positive
        call.in_use same))

  start-IsHelpee : IsHelpee num_threads encountered at_start stage
  start-IsHelpee = record {
    fits = helpee.fits;
    positive = helpee.positive;
    in_use = helpee.in_use;
    holds = ap extract_stage_from_stage_and_sequence helpee_word ∙ helpee.holds;
  }

  start-IsSpent :
      IsSpent num_threads encountered m stage → IsSpent num_threads encountered at_start stage
  start-IsSpent (inl gone) =
      inl (λ e. gone (ap extract_sequence_from_stage_and_sequence (sym helpee_word) ∙ e))
  start-IsSpent (inr over) = inr over

-- A call of `kcas` whose targets are different meets, at the first target without its expected
-- value, the marker of another thread's operation that is over: that thread has gone on to another
-- operation, or its stage is `Successful` or `Reverted`. Run without interference, the call does
-- not return: it runs out of any fuel above the number of spurious failures. The sequence number of
-- the call fits beside the thread identifier.
pub kcas-waits :
    (num_threads num_words fuel thread_id encountered : ℕ) (stage : Stage) (words : ℕ → KCasWord)
    (m : Memory) (o : List Bool) (stop : ℕ) (call : IsCall num_threads num_words thread_id words)
    → own_sequence m thread_id < sequence_limit num_threads
    → stop < num_words
    → ((w : ℕ) → w < stop → m.targets (words w).target_address ≡ (words w).expected_value)
    → m.targets (words stop).target_address ≡ encountered
    → encountered ≢ (words stop).expected_value
    → IsHelpee num_threads encountered m stage
    → IsSpent num_threads encountered m stage
    → extract_thread_from_thread_and_sequence num_threads encountered ≢ thread_id
    → spurious_failures o < fuel
    → run num_threads num_words (perform_kcas num_threads num_words fuel thread_id words) o m
      ≡ exhausted
unfolding perform_kcas claim_and_transition claim overlay
kcas-waits num_threads num_words zero thread_id encountered stage words m o stop call room below
      matches held other helpee spent apart few =
    elim few [ ]
kcas-waits num_threads num_words (suc fuel) thread_id encountered stage words m o stop call room
      below matches held other helpee spent apart few =
    let i = index num_threads num_words (suc fuel) thread_id words m call in
    let s = start num_threads num_words (suc fuel) thread_id words m call in
    let saved = row num_threads num_words (suc fuel) thread_id words m call in
    let own = marker num_threads num_words (suc fuel) thread_id words m call in
    let blocked =
      claim_words-Waits num_threads num_words fuel i (own_sequence m thread_id) own encountered
        stage (start-IsRow num_threads num_words (suc fuel) thread_id words m call)
        (extract_sequence-lt _)
        (start-stage num_threads num_words (suc fuel) thread_id words m call) m.targets stop below
        (λ w before.
          start-matches num_threads num_words (suc fuel) thread_id words m call w (omega arith)
            (matches w before))
        (ap m.targets (saved.targets stop below) ∙ held)
        (λ e. other (e ∙ saved.expected stop below))
        (λ e. apart (
          ap (extract_thread_from_thread_and_sequence num_threads) e
          ∙ extract_thread-construct num_threads call.fits thread_id (own_sequence m thread_id)
              call.in_use room))
        (start-IsHelpee num_threads num_words (suc fuel) thread_id encountered stage words m call
          helpee apart)
        (λ t.
          start-IsSpent num_threads num_words (suc fuel) thread_id encountered stage words m call
            helpee apart t spent)
        num_words 0 (omega arith) (omega arith) in
    (Waits-then (initialize_operation num_words i words) _
        (initialize_operation-starts num_threads num_words (suc fuel) i
          (index-lt num_threads num_words (suc fuel) thread_id words m call) words m.state
          m.targets)
        (Waits-first
          (claim_words num_threads (help_thread num_threads num_words (suc fuel)) i
            (own_sequence m thread_id) own (suc fuel) num_words 0)
          _ blocked)).waits
      o few
