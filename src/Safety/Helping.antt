-- ===== src/Safety/Helping.antt =====
-- Help with another thread's operation is safe: src/kcas/mod.rs `help_thread`.
use kcas.Base.{
  ℕ, zero, suc, ◌+◌, ◌^◌, ◌≤◌, ◌<◌, true, false, not, Result, ok, err, ◌≡◌, inl, inr, refl, sym, ap,
  ◌∙◌, subst, arith, ◌==◌, ltb,
}
use kcas.Word.{wrapping_sub}
use kcas.Stage.{Stage, inactive, claiming, setting, reverting, successful, reverted}
use kcas.Types.{
  extract_thread_from_thread_and_sequence, extract_sequence_from_thread_and_sequence,
  convert_thread_id_to_thread_index,
}
use kcas.Types.Marker.{thread_and_sequence_round_trip}
use kcas.Sync.{Prog, ret, ◌>>=◌}
use kcas.Kcas.{HelpError}
use kcas.Kcas.Memory.{Memory, read, in_bounds}
use kcas.Kcas.StageChange.{Handler}
use kcas.Kcas.Claim.{
  ClaimError, stage_and_sequence_verification_error, value_was_not_expected_value,
  target_address_was_not_valid_pointer, fatal_error_while_helping, top_bits_of_value_were_illegal,
  claim, after_help_claim, help_claim_and_transition,
}
use kcas.Kcas.Concurrent.{help_handle_concurrent_stage_change_and_transition}
use kcas.Kcas.Operation.{help_stage, help_thread}
use kcas.Solo.Row.{stage_in_bounds}
use kcas.Safety.Order.{reaches, reaches_refl}
use kcas.Safety.World.{Holds, AtLeast, IsMarker, words_of, Holds-stage, Holds-sequence}
use kcas.Safety.Later.{Later, Later-trans, Later-refl}
use kcas.Safety.Safe.{Safe, Safe->>=, Safe-if}
use kcas.Safety.Work.{IsWork, known_at, Kept}
use kcas.Safety.Phases.{help_revert_and_transition-Safe, last_word}
use kcas.Safety.Change.{
  SafeHandler, help_change_stage_and_transition-Safe, help_verification_error-Safe,
}
use kcas.Safety.Handlers.{IsHelp, Helped, help_set_and_transition-Safe, help_handle-Safe}
use kcas.Safety.Claiming.{ClaimSeen, SafeHelp, claim-Safe}

module _ {num_threads num_words own i sequence marker : ℕ}
    (work : IsWork num_threads num_words own i sequence marker (Unit {0})) (mb m0 : Memory)
    (back : Later num_threads num_words own mb m0) (handle : Handler HelpError)
    (handled : SafeHandler num_threads num_words own i sequence marker
      (Unit {0})
      (Helped work mb)
      handle
      m0) where
  -- `Claiming`, the rest of it.
  after_help_claim-Safe :
      AtLeast (Unit {0}) num_threads (words_of m0) i claiming sequence
      → (r : Result (Unit {0}) ClaimError) (m : Memory)
      → Kept num_threads num_words own m0
          (ClaimSeen num_threads num_words i sequence (Unit {0}))
          r
          m
      → Safe num_threads num_words own
          (Helped work mb)
          (after_help_claim num_threads num_words handle i sequence marker r)
          m
  unfolding after_help_claim Safe
  after_help_claim-Safe known (ok u) m (seen, later) =
      help_change_stage_and_transition-Safe work m0 refl known (Helped work mb) handle setting _ m
        refl later handled (λ m' a b c l. (tt, Later-trans back l))
        (λ m' l k.
          help_set_and_transition-Safe work mb m' handle m' (Later-trans back l) k
            (Later-refl l.sound) (λ c a m'' l'. handled c a m'' (Later-trans l l')))
  after_help_claim-Safe known (err (stage_and_sequence_verification_error w e)) m (seen, later) =
      help_verification_error-Safe work m0 refl known (Helped work mb) handle m e later handled
        (λ m' a b c l. (tt, Later-trans back l)) seen
  after_help_claim-Safe known (err (value_was_not_expected_value w a v)) m (below, later) =
      help_change_stage_and_transition-Safe work m0 refl known (Helped work mb) handle reverting _ m
        refl later handled (λ m' a b c l. (tt, Later-trans back l))
        (λ m' l k.
          help_revert_and_transition-Safe work m' refl k (Helped work mb) w _ m' below
            (Later-refl l.sound)
            (λ m'' l'.
              help_change_stage_and_transition-Safe work m' refl k (Helped work mb) handle reverted
                _ m'' refl l' (λ c x n l''. handled c x n (Later-trans l l''))
                (λ n x b c l''. (tt, Later-trans back (Later-trans l l'')))
                (λ n l'' k'. (tt, Later-trans back (Later-trans l l'')))))
  after_help_claim-Safe known (err (target_address_was_not_valid_pointer w a)) m (seen, later) =
      elim seen [ ]
  after_help_claim-Safe known (err (fatal_error_while_helping e)) m (seen, later) = elim seen [ ]
  after_help_claim-Safe known (err (top_bits_of_value_were_illegal w a v b)) m (seen, later) =
      elim seen [ ]

module _ {num_threads num_words own i sequence marker : ℕ}
    (work : IsWork num_threads num_words own i sequence marker (Unit {0})) (mb m : Memory)
    (back : Later num_threads num_words own mb m) (help : ℕ → Prog (Result (Unit {0}) HelpError))
    (helps : SafeHelp num_threads num_words own help) (fuel : ℕ) where
  -- The helper goes on where the operation is.
  help_stage-Safe :
      (stage : Stage) (thread_id : ℕ)
      → convert_thread_id_to_thread_index thread_id ≡ i
      → reaches claiming stage ≡ true
      → AtLeast (Unit {0}) num_threads (words_of m) i stage sequence
      → Safe num_threads num_words own
          (Helped work mb)
          (help_stage num_threads num_words help
            (help_handle_concurrent_stage_change_and_transition num_threads num_words fuel)
            fuel
            thread_id
            sequence
            marker
            stage)
          m
  unfolding help_stage help_claim_and_transition Safe
  help_stage-Safe inactive thread_id same going known = ground arith
  help_stage-Safe claiming thread_id same going known = rw same (
      Safe->>= num_threads num_words own
        (Kept num_threads num_words own m (ClaimSeen num_threads num_words i sequence (Unit {0})))
        (Helped work mb) (claim num_threads num_words help fuel i sequence marker) _ m
        (claim-Safe work help helps m known fuel m (Later-refl back.sound))
        (after_help_claim-Safe work mb m back _ (help_handle-Safe work mb fuel m back) known))
  help_stage-Safe setting thread_id same going known = rw same (
      help_set_and_transition-Safe work mb m _ m back known (Later-refl back.sound)
        (help_handle-Safe work mb fuel m back))
  help_stage-Safe reverting thread_id same going known = rw same (
      help_revert_and_transition-Safe work m going known (Helped work mb) (wrapping_sub num_words 1)
        _ m (last_word work m going known) (Later-refl back.sound)
        (λ m' later.
          help_change_stage_and_transition-Safe work m going known (Helped work mb) _ reverted
            (ret (ok tt)) m' refl later (help_handle-Safe work mb fuel m back)
            (λ n a b c l. (tt, Later-trans back l)) (λ n l k. (tt, Later-trans back l))))
  help_stage-Safe successful thread_id same going known = (tt, back)
  help_stage-Safe reverted thread_id same going known = (tt, back)

module _ {num_threads : ℕ} {words : ℕ → ℕ} {encountered : ℕ} (fits : num_threads + 1 < 2 ^ 62)
    (k : IsMarker num_threads words encountered) where
  encountered_index :
      convert_thread_id_to_thread_index
        (extract_thread_from_thread_and_sequence num_threads encountered)
      ≡ k.i
  unfolding convert_thread_id_to_thread_index
  encountered_index =
      let top : extract_thread_from_thread_and_sequence num_threads encountered ≡ k.i + 1 =
        ap (extract_thread_from_thread_and_sequence num_threads) k.marker
        ∙ (thread_and_sequence_round_trip num_threads (k.i + 1) k.sequence (omega arith)
            (omega (arith, k.inside)) k.number.room).0 in
      omega (arith, top, k.inside)

  encountered_sequence :
      extract_sequence_from_thread_and_sequence num_threads encountered ≡ k.sequence
  encountered_sequence =
      ap (extract_sequence_from_thread_and_sequence num_threads) k.marker
      ∙ (thread_and_sequence_round_trip num_threads (k.i + 1) k.sequence (omega arith)
          (omega (arith, k.inside)) k.number.room).1

not_other : (x y : ℕ) → not (x == y) ≡ false → x ≡ y
not_other x y e = ground (arith, e)

-- An operation that is not over is at a stage after `Inactive`.
still_going :
    {num_threads i sequence : ℕ} {words : ℕ → ℕ}
    (now : AtLeast (Unit {0}) num_threads words i claiming sequence)
    → now.count ≡ sequence
    → reaches claiming now.now ≡ true
still_going now kept = elim now.order [
  | inl (same, further) ↦ further
  | inr (stale, over) ↦ absurd (omega arith)
]

module _ {num_threads num_words : ℕ} (own : ℕ) (fits : num_threads + 1 < 2 ^ 62)
    (some_words : 1 ≤ num_words) (words_fit : num_words < 2 ^ 64) where
  help_work :
      {words : ℕ → ℕ} {encountered : ℕ} (k : IsMarker num_threads words encountered)
      → IsWork num_threads num_words own k.i k.sequence encountered (Unit {0})
  help_work k = record {
    fits = fits;
    some_words = some_words;
    words_fit = words_fit;
    inside = k.inside;
    number = k.number;
    role = inl tt;
    packed = k.marker;
  }

  -- `help_thread`, at the marker of an operation that has started.
  pub help_thread-Safe :
      (fuel : ℕ) → SafeHelp num_threads num_words own (help_thread num_threads num_words fuel)
  unfolding help_thread Safe ◌>>=◌ read in_bounds
  help_thread-Safe zero encountered m sound k = tt
  help_thread-Safe (suc fuel) encountered m sound k =
      let same_index : convert_thread_id_to_thread_index
            (extract_thread_from_thread_and_sequence num_threads encountered)
          ≡ k.i =
        encountered_index fits k in
      let same_sequence : extract_sequence_from_thread_and_sequence num_threads encountered
          ≡ k.sequence =
        encountered_sequence fits k in
      (
        ap (λ j. ltb j num_threads) same_index ∙ stage_in_bounds num_words k.inside,
        λ m1 l1.
            let now = known_at (help_work k) refl k.started l1 in
            let held =
              subst (λ j. Holds num_threads (words_of m1) j now.now now.count) (sym same_index)
                now.holds in
            rw (Holds-stage held, Holds-sequence held, same_sequence)
              (Safe-if num_threads num_words own (Kept num_threads num_words own m IsHelp)
                (not (now.count == k.sequence)) _ _ m1 (λ other. (tt, l1))
                (λ same.
                  let kept : now.count ≡ k.sequence = not_other now.count k.sequence same in
                  rw kept (
                    help_stage-Safe (help_work k) m m1 l1 (help_thread num_threads num_words fuel)
                      (help_thread-Safe fuel) fuel now.now _ same_index (still_going now kept)
                      (record {
                        now = now.now;
                        count = now.count;
                        holds = now.holds;
                        order = inl (kept, reaches_refl now.now);
                      })))),
      )
