-- ===== src/Solo/Finish.antt =====
-- A helper by itself finishes an operation that its thread has left in the stage `Setting`.
pub mod Claim
pub mod Revert
pub mod Reaction
use kcas.Base.{
  ℕ, zero, suc, ◌+◌, ◌^◌, ◌≤◌, ◌<◌, Bool, List, Result, ok, ◌≡◌, ◌≢◌, ◌⊎◌, inl, inr, refl, sym, ◌∙◌,
  subst, fun_ext, arith, ne→==, eq→==,
}
use kcas.Base.Family.{update, overlay}
use kcas.Kcas.Concurrent.{help_handle_concurrent_stage_change_and_transition}
use kcas.Stage.{Stage, setting, successful}
use kcas.Types.{
  construct_stage_and_sequence, construct_thread_and_sequence, convert_thread_id_to_thread_index,
}
use kcas.Types.StageAndSequence.{
  stage_sequence_limit, extract_stage-construct, extract_sequence-construct,
}
use kcas.Types.Marker.{sequence_limit, thread_and_sequence_round_trip}
use kcas.Sync.{Prog, ◌>>=◌, target_address, desired_value, stage_and_sequence_number, target}
use kcas.Kcas.{State, HelpError}
use kcas.Kcas.StageChange.{
  Handler, verify_stage_and_sequence_have_not_changed, help_change_stage_and_transition,
}
use kcas.Kcas.Set.{
  SetError, set_word_failed, set_words, set, after_help_set, help_set_and_transition,
}
use kcas.Kcas.Operation.{help_stage, help_thread}
use native.Mathlib.Numerals.{add-one}
use kcas.Kcas.Memory.{run, returned, Memory, read, write, in_bounds}
use kcas.Kcas.Memory.Returns.{
  Returns, Returns-ret, Returns-bind, Returns-load, Returns-hit, Returns-miss, spurious_failures,
}
use kcas.Solo.Initialize.{with_stage}
use kcas.Solo.Row.{
  IsRow, overlaid, overlay-fresh, stage_in_bounds, target_in_bounds, desired_in_bounds,
  verification_result-ok,
}

pub update_same : (f : ℕ → ℕ) (i v : ℕ) → f i ≡ v → update f i v ≡ f
update_same f i v h = fun_ext λ j. ground (arith, h)

-- The target of a word that is being set holds the marker, or already its desired value.
abbrev pub IsBeingSet : (marker desired value : ℕ) → Type 0
IsBeingSet marker desired value = (value ≡ marker) ⊎ ((value ≡ desired) × (desired ≢ marker))

module _ (num_threads num_words rounds i sequence marker : ℕ) {s : State}
    (row : IsRow num_threads num_words i s) (small : sequence < stage_sequence_limit)
    (stage : s.stage_and_sequence_numbers i ≡ construct_stage_and_sequence setting sequence)
    (g : ℕ → ℕ)
    (being_set : (j : ℕ)
      → j < num_words
      → IsBeingSet marker (s.desired_values i j) (g (s.target_addresses i j))) where
  set_words-goes_on :
      (left w : ℕ) {a : Result (Unit {0}) SetError} {m' : Memory}
      → w < num_words
      → Returns num_threads num_words rounds
          (set_words i sequence marker left (w + 1))
          (overlaid s i (suc w) (s.desired_values i) g)
          a
          m'
      → Returns num_threads num_words rounds
          (set_words i sequence marker (suc left) w)
          (overlaid s i w (s.desired_values i) g)
          a
          m'
  unfolding set_words set_word_failed verify_stage_and_sequence_have_not_changed ◌>>=◌ read write
      overlay in_bounds
  set_words-goes_on left w {a} {m'} below rest =
      let fresh = overlay-fresh row w below (s.desired_values i) g in
      Returns-load (target_address i w) _ (target_in_bounds num_words row.index below) refl (
        rw (ne→== (s.target_addresses i w) 0 (row.not_null w below)) (
          Returns-load (desired_value i w) _ (desired_in_bounds num_words row.index below) refl
            (elim (being_set w below) [
              | inl held ↦
                  Returns-hit (target (s.target_addresses i w)) marker (s.desired_values i w) _ refl
                    (fresh ∙ held) rest
              | inr (done, other) ↦
                  Returns-miss (target (s.target_addresses i w)) marker (s.desired_values i w) _
                    refl (λ e. other (sym done ∙ sym fresh ∙ e))
                    (Returns-load (stage_and_sequence_number i) _
                      (stage_in_bounds num_words row.index) stage
                      (rw (verification_result-ok setting sequence small) (
                        subst
                          (λ t.
                            Returns num_threads num_words rounds
                              (set_words i sequence marker left (w + 1))
                              (record { state = s; targets = t }) a m')
                          (update_same (overlay w (s.target_addresses i) (s.desired_values i) g)
                            (s.target_addresses i w) (s.desired_values i w) (fresh ∙ done))
                          rest)))
            ])))

  set_words-completes_from :
      (left w : ℕ)
      → w + left ≡ num_words
      → Returns num_threads num_words rounds
          (set_words i sequence marker left w)
          (overlaid s i w (s.desired_values i) g)
          (ok tt)
          (overlaid s i num_words (s.desired_values i) g)
  set_words-completes_from zero w e =
      let last : w ≡ num_words = omega arith in rw last (unfold set_words in Returns-ret _ _)
  set_words-completes_from (suc left) w e =
      set_words-goes_on left w (omega arith)
        (rw add-one (set_words-completes_from left (suc w) (omega arith)))

  abbrev finished : Memory
  finished = record {
    state = with_stage s i (construct_stage_and_sequence successful sequence);
    targets = overlay num_words (s.target_addresses i) (s.desired_values i) g;
  }

  pub help_set_and_transition-finishes :
      (handle : Handler HelpError)
      → Returns num_threads num_words rounds
          (help_set_and_transition num_threads num_words handle i sequence marker)
          (record { state = s; targets = g })
          (ok tt)
          finished
  unfolding help_set_and_transition after_help_set help_change_stage_and_transition set ◌>>=◌ read
      write overlay
  help_set_and_transition-finishes handle =
      Returns-bind (set num_words i sequence marker) _
        (set_words-completes_from num_words 0 (omega arith))
        (Returns-hit (stage_and_sequence_number i) _ _ _ (stage_in_bounds num_words row.index) stage
          (Returns-ret _ _))

-- An operation that its thread has left at a stage.
pub record IsLeft (num_threads num_words thread_id sequence : ℕ) (stage : Stage) (m : Memory)
    : Type 0 where
  pub fits : num_threads + 1 < 2 ^ 64
  pub in_use : thread_id ≤ num_threads
  pub room : sequence < sequence_limit num_threads
  pub small : sequence < stage_sequence_limit
  pub row : IsRow num_threads num_words (convert_thread_id_to_thread_index thread_id) m.state
  pub word :
      m.state.stage_and_sequence_numbers (convert_thread_id_to_thread_index thread_id)
      ≡ construct_stage_and_sequence stage sequence

-- The memory in which its targets have new values, and its stage is another one.
abbrev pub left_at : (num_words thread_id sequence : ℕ) → Stage → (value : ℕ → ℕ) → Memory → Memory
left_at num_words thread_id sequence stage value m = record {
  state =
      with_stage m.state (convert_thread_id_to_thread_index thread_id)
        (construct_stage_and_sequence stage sequence);
  targets =
      overlay num_words (m.state.target_addresses (convert_thread_id_to_thread_index thread_id))
        value m.targets;
}

-- A helper that meets its marker goes on at that stage.
pub help_thread-resumes :
    (num_threads num_words rounds fuel thread_id sequence : ℕ) (stage : Stage) {m m' : Memory}
    {a : Result (Unit {0}) HelpError}
    → IsLeft num_threads num_words thread_id sequence stage m
    → Returns num_threads num_words rounds
        (help_stage num_threads num_words
          (help_thread num_threads num_words fuel)
          (help_handle_concurrent_stage_change_and_transition num_threads num_words fuel)
          fuel
          thread_id
          sequence
          (construct_thread_and_sequence num_threads thread_id sequence)
          stage)
        m
        a
        m'
    → Returns num_threads num_words rounds
        (help_thread num_threads num_words
          (suc fuel)
          (construct_thread_and_sequence num_threads thread_id sequence))
        m
        a
        m'
unfolding help_thread ◌>>=◌ read
help_thread-resumes num_threads num_words rounds fuel thread_id sequence stage left rest =
    let (thread, number) =
      thread_and_sequence_round_trip num_threads thread_id sequence left.fits left.in_use
        left.room in
    rw thread (
      Returns-load (stage_and_sequence_number (convert_thread_id_to_thread_index thread_id)) _
        (stage_in_bounds num_words left.row.index) left.word
        (rw
          (
            extract_stage-construct stage sequence left.small,
            extract_sequence-construct stage sequence left.small,
            number,
            eq→== sequence sequence refl,
            thread,
          )
          rest))

-- A run that is not disturbed, from what it returns.
pub Returns-run :
    {num_threads num_words : ℕ} {A : Type 0} {p : Prog A} {m m' : Memory} {a : A} (o : List Bool)
    (rounds : ℕ)
    → spurious_failures o < rounds
    → Returns num_threads num_words rounds p m a m'
    → (o' : List Bool) × (run num_threads num_words p o m ≡ returned a o' m')
Returns-run o rounds few returns = let (o', ended, fewer) = returns.ends o few in (o', ended)

-- A helper that meets the marker of an operation that its thread has left in the stage `Setting`, each
-- target with the marker or already its desired value, and is not disturbed, returns `Ok`: every
-- target has its desired value, the stage is `Successful`, and nothing else changes.
pub help_thread-finishes :
    (num_threads num_words fuel thread_id sequence : ℕ) (m : Memory) (o : List Bool)
    → IsLeft num_threads num_words thread_id sequence setting m
    → ((w : ℕ)
        → w < num_words
        → IsBeingSet
            (construct_thread_and_sequence num_threads thread_id sequence)
            (m.state.desired_values (convert_thread_id_to_thread_index thread_id) w)
            (m.targets (m.state.target_addresses (convert_thread_id_to_thread_index thread_id) w)))
    → (o' : List Bool) × (run num_threads num_words
          (help_thread num_threads num_words
            (suc fuel)
            (construct_thread_and_sequence num_threads thread_id sequence))
          o
          m
        ≡ returned (ok tt) o' (
            left_at num_words thread_id sequence successful
              (m.state.desired_values (convert_thread_id_to_thread_index thread_id))
              m))
unfolding help_stage
help_thread-finishes num_threads num_words fuel thread_id sequence m o left being_set =
    Returns-run o (suc (spurious_failures o)) (omega arith) (
      help_thread-resumes num_threads num_words _ fuel thread_id sequence setting left (
        help_set_and_transition-finishes num_threads num_words _
          (convert_thread_id_to_thread_index thread_id) sequence
          (construct_thread_and_sequence num_threads thread_id sequence) left.row left.small
          left.word m.targets being_set _))
