-- ===== src/Solo/Late.antt =====
-- A helper that claims for an operation that is over: src/kcas/claim.rs and the failed stage change of
-- src/kcas/stage_change.rs, with no other thread at work.
use kcas.Base.{
  ℕ, zero, suc, ◌^◌, ◌≤◌, ◌<◌, Bool, List, Result, ok, err, ◌≡◌, ◌≢◌, refl, sym, ◌∙◌, ap, subst,
  arith, ne→==,
}
use kcas.Base.Family.{update, update_self, update_twice}
use kcas.Word.{wrapping_sub}
use kcas.Stage.{Stage, claiming, setting}
use kcas.Types.{construct_stage_and_sequence, convert_thread_index_to_thread_id}
use kcas.Types.StageAndSequence.{
  stage_sequence_limit, extract_stage-construct, extract_sequence-construct,
}
use kcas.Types.{extract_stage_from_stage_and_sequence, extract_sequence_from_stage_and_sequence}
use kcas.Sync.{Prog, ◌>>=◌, target_address, expected_value, stage_and_sequence_number, target}
use kcas.Kcas.{State, HelpError}
use kcas.Kcas.Revert.{revert_words, revert, help_revert_and_transition}
use kcas.Kcas.StageChange.{Handler, help_stage_change_failed, help_change_stage_and_transition}
use kcas.Kcas.Claim.{cas_loop, after_help_claim}
use kcas.Kcas.Memory.{Memory, read, write, in_bounds, run, returned}
use kcas.Kcas.Memory.Returns.{
  Returns, Returns-ret, Returns-bind, Returns-load, Returns-hit, Returns-miss, spurious_failures,
}
use kcas.Solo.Row.{IsRow, stage_in_bounds, target_in_bounds, expected_in_bounds}
use kcas.Solo.Claim.{cas_loop-Ends}

module _ (num_threads num_words rounds i marker : ℕ) {s : State}
    (row : IsRow num_threads num_words i s) where
  -- Where no target holds the marker there is nothing to revert.
  revert_words-unmarked :
      (n : ℕ) (g : ℕ → ℕ)
      → n ≤ num_words
      → ((j : ℕ) → j < n → g (s.target_addresses i j) ≢ marker)
      → Returns num_threads num_words rounds
          (revert_words i marker n)
          (record { state = s; targets = g })
          (ok tt)
          (record { state = s; targets = g })
  unfolding revert_words ◌>>=◌ read in_bounds
  revert_words-unmarked zero g below unmarked = Returns-ret _ _
  revert_words-unmarked (suc n) g below unmarked =
      Returns-load (target_address i n) _ (target_in_bounds num_words row.index (omega arith)) refl
        (rw (ne→== (s.target_addresses i n) 0 (row.not_null n (omega arith))) (
          Returns-load (expected_value i n) _ (expected_in_bounds num_words row.index (omega arith))
            refl
            (Returns-miss (target (s.target_addresses i n)) marker (s.expected_values i n) _ refl
              (unmarked n (omega arith))
              (revert_words-unmarked n g (omega arith) (λ j before. unmarked j (omega arith))))))

-- The last word of an operation whose thread has gone on to another one.
module _ (num_threads rounds i n sequence count marker : ℕ) (now : Stage) {s : State}
    (row : IsRow num_threads (suc n) i s) (fits : suc n < 2 ^ 64)
    (small : count < stage_sequence_limit) (over : count ≢ sequence)
    (low : sequence < stage_sequence_limit)
    (stage : s.stage_and_sequence_numbers i ≡ construct_stage_and_sequence now count) (g : ℕ → ℕ)
    (unmarked : (j : ℕ) → j < n → g (s.target_addresses i j) ≢ marker) where
  abbrev a : ℕ
  a = s.target_addresses i n

  abbrev marked : Memory
  marked = record { state = s; targets = update g a marker }

  abbrev spoiled : Memory
  spoiled = record { state = s; targets = update g a (s.expected_values i n) }

  away : (j : ℕ) → j < n → update g a (s.expected_values i n) (s.target_addresses i j) ≢ marker
  away j before e =
      let apart : s.target_addresses i j ≢ a =
        λ same. omega (arith, row.apart j n (omega arith) (omega arith) same) in
      unmarked j before (ground (arith, e, apart))

  revert-spoils : Returns num_threads (suc n) rounds (revert i marker n) marked (ok tt) spoiled
  unfolding revert revert_words ◌>>=◌ read write in_bounds
  revert-spoils =
      Returns-load (target_address i n) _ (target_in_bounds (suc n) row.index (omega arith)) refl (
        rw (ne→== a 0 (row.not_null n (omega arith))) (
          Returns-load (expected_value i n) _ (expected_in_bounds (suc n) row.index (omega arith))
            refl
            (Returns-hit (target a) marker (s.expected_values i n) _ refl (update_self g a marker) (
              subst
                (λ t.
                  Returns num_threads (suc n) rounds (revert_words i marker n)
                    (record { state = s; targets = t }) (ok tt) spoiled)
                (sym (update_twice g a marker (s.expected_values i n)))
                (revert_words-unmarked num_threads (suc n) rounds i marker row n _ (omega arith)
                  away)))))

  last_word : wrapping_sub (suc n) 1 ≡ n
  last_word = omega (arith, fits)

  stage_change-refused :
      s.stage_and_sequence_numbers i ≢ construct_stage_and_sequence claiming sequence
  stage_change-refused same = over (
      sym (extract_sequence-construct now count small)
      ∙ ap extract_sequence_from_stage_and_sequence (sym stage ∙ same)
      ∙ extract_sequence-construct claiming sequence low)

  change-spoils :
      (handle : Handler HelpError) (next : Prog (Result (Unit {0}) HelpError))
      → Returns num_threads
          (suc n)
          rounds
          (help_change_stage_and_transition (suc n) handle i sequence marker claiming setting next)
          marked
          (err (
            HelpError.sequence_changed_while_helping
              (convert_thread_index_to_thread_id i)
              sequence
              count))
          spoiled
  unfolding help_change_stage_and_transition help_stage_change_failed help_revert_and_transition
      ◌>>=◌ read
  change-spoils handle next =
      Returns-miss (stage_and_sequence_number i) _ _ _ (stage_in_bounds (suc n) row.index)
        stage_change-refused
        (rw
          (
            help_stage_change_failed,
            ap extract_stage_from_stage_and_sequence stage
                ∙ extract_stage-construct now count small,
            ap extract_sequence_from_stage_and_sequence stage
                ∙ extract_sequence-construct now count small,
            ne→== count sequence over,
          )
          (rw last_word (
            Returns-bind (revert i marker n) _ revert-spoils (
              rw
                (ap extract_sequence_from_stage_and_sequence stage
                  ∙ extract_sequence-construct now count small)
                (Returns-ret _ _)))))

-- A helper stopped in `claim`, before the compare-exchange of the last word, with the expected
-- value that it had loaded. When it goes on, the thread is in another operation, with that last
-- target in its row, and the target holds the value that the helper expects: the helper reports the
-- two sequence numbers, the target ends with what the row now says is expected there, and nothing
-- else changes, if no thread interferes from there on. The other targets of the row hold no marker
-- of the ended operation, and the fuel is above the number of spurious failures.
pub late_claim-overwrites :
    (num_threads fuel i n sequence count marker : ℕ) (now : Stage) (m : Memory)
    (handle : Handler HelpError) (help : ℕ → Prog (Result (Unit {0}) HelpError)) (o : List Bool)
    (row : IsRow num_threads (suc n) i m.state)
    → suc n < 2 ^ 64
    → count < stage_sequence_limit
    → sequence < stage_sequence_limit
    → count ≢ sequence
    → m.state.stage_and_sequence_numbers i ≡ construct_stage_and_sequence now count
    → ((j : ℕ) → j < n → m.targets (m.state.target_addresses i j) ≢ marker)
    → spurious_failures o < fuel
    → (o' : List Bool) × (run num_threads
          (suc n)
          (cas_loop num_threads help i sequence marker fuel n
              (m.state.target_addresses i n)
              (m.targets (m.state.target_addresses i n))
            >>= after_help_claim num_threads (suc n) handle i sequence marker)
          o
          m
        ≡ returned
            (err (
              HelpError.sequence_changed_while_helping
                (convert_thread_index_to_thread_id i)
                sequence
                count))
            o'
            (record {
              state = m.state;
              targets =
                  update m.targets (m.state.target_addresses i n) (m.state.expected_values i n);
            }))
unfolding after_help_claim write
late_claim-overwrites num_threads fuel i n sequence count marker now m handle help o row fits small
      low over stage unmarked few =
    let (o', ended, rest) =
      (Returns-bind
          (cas_loop num_threads help i sequence marker fuel n (m.state.target_addresses i n)
            (m.targets (m.state.target_addresses i n)))
          (after_help_claim num_threads (suc n) handle i sequence marker)
          (record {
            ends = λ o few.
                cas_loop-Ends num_threads (suc n) help i sequence marker fuel o n _ _ m few refl;
          })
          (change-spoils num_threads fuel i n sequence count marker now row fits small over low
            stage m.targets unmarked handle _)).ends
        o few in
    (o', ended)
