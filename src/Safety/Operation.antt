-- ===== src/Safety/Operation.antt =====
-- The whole operation is safe, whatever the other threads do meanwhile.
use kcas.Base.{
  ℕ, zero, suc, ◌+◌, ◌^◌, ◌≤◌, ◌<◌, Result, ok, err, ◌≡◌, ◌≢◌, inl, inr, refl, sym, subst, arith,
}
use kcas.Base.Family.{update, update_self}
use kcas.Err.{Error}
use kcas.Stage.{inactive, claiming, setting, reverting}
use kcas.Types.{construct_thread_and_sequence, convert_thread_id_to_thread_index}
use kcas.Types.Marker.{IsApplicationValue}
use kcas.Sync.{◌>>=◌, target_address}
use kcas.Kcas.{KCasWord, save_word, save_words, initialize_operation}
use kcas.Kcas.Memory.{Memory, read, write, in_bounds}
use kcas.Kcas.StageChange.{Handler}
use kcas.Kcas.Claim.{
  ClaimError, stage_and_sequence_verification_error, value_was_not_expected_value,
  target_address_was_not_valid_pointer, fatal_error_while_helping, top_bits_of_value_were_illegal,
  claim, after_claim, claim_and_transition,
}
use kcas.Kcas.Operation.{help_thread, perform_kcas}
use kcas.Solo.Row.{stage_in_bounds, target_in_bounds, expected_in_bounds, desired_in_bounds}
use kcas.Safety.World.{IsNumber, Holds, AtLeast, IsSound, words_of, Holds-sequence}
use kcas.Safety.Later.{Later, Later-trans, Later-refl, Holds-inactive-Later}
use kcas.Safety.Writes.{store-target_address, store-expected_value, store-desired_value}
use kcas.Safety.StageWrites.{write-stage, write-stage-Holds, write-stage-IsSound}
use kcas.Safety.Safe.{Safe, Safe->>=}
use kcas.Safety.Work.{IsWork, Kept}
use kcas.Safety.Phases.{revert_and_transition-Safe}
use kcas.Safety.Change.{SafeHandler}
use kcas.Safety.OwnChange.{change_stage_and_transition-Safe, verification_error-Safe}
use kcas.Safety.Handlers.{Finished, prepare-Safe, set_and_transition-Safe, handle-Safe}
use kcas.Safety.Claiming.{ClaimSeen, claim-Safe}
use kcas.Safety.Helping.{help_thread-Safe}

-- What a caller passes: references, and values that the documentation allows.
pub record IsRequest (num_threads num_words : ℕ) (words : ℕ → KCasWord) : Type 0 where
  pub reference : (w : ℕ) → w < num_words → (words w).target_address ≢ 0
  pub expected : (w : ℕ) → w < num_words → IsApplicationValue num_threads (words w).expected_value
  pub desired : (w : ℕ) → w < num_words → IsApplicationValue num_threads (words w).desired_value

module _ {num_threads num_words own sequence marker : ℕ}
    (work : IsWork num_threads num_words own own sequence marker ⊥)
    (next : IsNumber num_threads (sequence + 1)) (m0 : Memory)
    (known : AtLeast ⊥ num_threads (words_of m0) own claiming sequence) (handle : Handler Error)
    (handled : SafeHandler num_threads num_words own own sequence marker ⊥
      (Finished num_threads own sequence)
      handle
      m0) where
  after_claim-Safe :
      (r : Result (Unit {0}) ClaimError) (m : Memory)
      → Kept num_threads num_words own m0 (ClaimSeen num_threads num_words own sequence ⊥) r m
      → Safe num_threads num_words own
          (Finished num_threads own sequence)
          (after_claim num_threads num_words handle own sequence marker r)
          m
  unfolding after_claim Safe
  after_claim-Safe (ok u) m (seen, later) =
      change_stage_and_transition-Safe work m0 refl known (Finished num_threads own sequence) handle
        setting _ m refl later handled
        (λ m' l k.
          set_and_transition-Safe work next m' handle m' k (Later-refl l.sound)
            (λ c a m'' l'. handled c a m'' (Later-trans l l')))
  after_claim-Safe (err (stage_and_sequence_verification_error w e)) m (seen, later) =
      verification_error-Safe work m0 refl known (Finished num_threads own sequence) handle m e
        later handled seen
  after_claim-Safe (err (value_was_not_expected_value w a v)) m (below, later) =
      change_stage_and_transition-Safe work m0 refl known (Finished num_threads own sequence) handle
        reverting _ m refl later handled
        (λ m' l k.
          revert_and_transition-Safe work m' refl k (Finished num_threads own sequence) w _ m' below
            (Later-refl l.sound)
            (λ m'' l'.
              prepare-Safe work next (Finished num_threads own sequence)
                (err Error.value_was_not_expected_value) m' m'' refl k l' (λ n h. h)))
  after_claim-Safe (err (target_address_was_not_valid_pointer w a)) m (seen, later) = elim seen [ ]
  after_claim-Safe (err (fatal_error_while_helping e)) m (seen, later) = elim seen [ ]
  after_claim-Safe (err (top_bits_of_value_were_illegal w a v b)) m (seen, later) = elim seen [ ]

convert_id : (k : ℕ) → k + 1 < 2 ^ 64 → convert_thread_id_to_thread_index (k + 1) ≡ k
unfolding convert_thread_id_to_thread_index
convert_id k small = omega arith

module _ (num_threads num_words own sequence : ℕ) where
  -- The thread saves its words: its stage word is at rest, and those before `w` are references.
  record Saved (w : ℕ) (m : Memory) : Type 0 where
    holds : Holds num_threads (words_of m) own inactive sequence
    rows : (u : ℕ) → u < w → m.state.target_addresses own u ≢ 0

  -- The operation has started, with the sequence number that was there.
  abbrev Started : ℕ → Memory → Type 0
  Started r m =
      (r ≡ sequence)
      × (Holds num_threads (words_of m) own claiming sequence × IsSound num_threads num_words m)

  Saved-Later :
      {w : ℕ} {m m' : Memory} → Saved w m → Later num_threads num_words own m m' → Saved w m'
  Saved-Later {m'} saved later = record {
    holds = Holds-inactive-Later later saved.holds;
    rows = λ u below. subst (λ row. row u ≢ 0) (sym later.own_row) (saved.rows u below);
  }

  Saved-target_address :
      {w : ℕ} {m : Memory} (v : ℕ)
      → v ≢ 0
      → Saved w m
      → Saved (w + 1) (write m (target_address own w) v)
  unfolding write
  Saved-target_address {w} {m} v not_null saved = record {
    holds = saved.holds;
    rows = λ u below.
        let old = saved.rows u in
        subst (λ row. row u ≢ 0)
          (sym
            (update_self m.state.target_addresses own (update (m.state.target_addresses own) w v)))
          (ground (arith, old));
  }

  module _ {words : ℕ → KCasWord} (call : IsRequest num_threads num_words words)
      (inside : own < num_threads) where
    save_words-Safe :
        (left w : ℕ) (m : Memory)
        → w + left ≡ num_words
        → Saved w m
        → Safe num_threads num_words own (λ u. Saved num_words) (save_words own words left w) m
    unfolding save_words save_word Safe ◌>>=◌ in_bounds write
    save_words-Safe zero w m e saved = subst (λ n. Saved n m) (omega arith) saved
    save_words-Safe (suc left) w m e saved =
        let below : w < num_words = omega arith in
        (
          target_in_bounds num_words inside below,
          λ m1 l1. (
            store-target_address own l1.sound w _ (call.reference w below),
            (
              expected_in_bounds num_words inside below,
              λ m2 l2. (
                store-expected_value own l2.sound w _ (call.expected w below),
                (
                  desired_in_bounds num_words inside below,
                  λ m3 l3.
                      let saved1 =
                        Saved-target_address _ (call.reference w below) (Saved-Later saved l1) in
                      let saved2 = Saved-Later saved1 l2 in
                      let saved3 =
                        Saved-Later (record { holds = saved2.holds; rows = saved2.rows }) l3 in
                      (
                        store-desired_value own l3.sound w _ (call.desired w below),
                        save_words-Safe left (w + 1) _ (omega arith)
                            (record { holds = saved3.holds; rows = saved3.rows }),
                      ),
                ),
              ),
            ),
          ),
        )

  -- The thread has saved its words, and starts its operation.
  initialize_operation-Safe :
      {words : ℕ → KCasWord}
      → IsRequest num_threads num_words words
      → own < num_threads
      → IsNumber num_threads sequence
      → (m : Memory) → Holds num_threads (words_of m) own inactive sequence
      → Safe num_threads num_words own Started (initialize_operation num_words own words) m
  unfolding initialize_operation Safe ◌>>=◌ read in_bounds
  initialize_operation-Safe call inside number m holds =
      Safe->>= num_threads num_words own (λ u. Saved num_words) Started
        (save_words own _ num_words 0) _ m
        (save_words-Safe call inside num_words 0 m (omega arith)
          (record { holds = holds; rows = λ u below. absurd (omega arith) }))
        (λ u m' saved. (
          stage_in_bounds num_words inside,
          λ m1 l1.
              let saved1 = Saved-Later saved l1 in
              rw (Holds-sequence saved1.holds) (
                stage_in_bounds num_words inside,
                λ m2 l2.
                    let saved2 = Saved-Later saved1 l2 in
                    (
                      record {
                        sound =
                            write-stage-IsSound l2.sound own saved2.holds claiming number
                              (inl (refl, refl)) saved2.rows;
                        others = λ j other.
                            write-stage l2.sound own saved2.holds claiming number (inl (refl, refl))
                              saved2.rows j (λ e. absurd (other e));
                      },
                      (
                        refl,
                        (
                          write-stage-Holds l2.sound own saved2.holds claiming number
                              (inl (refl, refl)) saved2.rows,
                          write-stage-IsSound l2.sound own saved2.holds claiming number
                              (inl (refl, refl)) saved2.rows,
                        ),
                      ),
                    ),
              ),
        ))

  -- The operation of a thread that is at rest, up to its result.
  pub perform_kcas-Safe :
      {words : ℕ → KCasWord}
      → num_threads + 1 < 2 ^ 62
      → 1 ≤ num_words
      → num_words < 2 ^ 64
      → own < num_threads
      → IsRequest num_threads num_words words
      → IsNumber num_threads sequence
      → IsNumber num_threads (sequence + 1)
      → (fuel : ℕ) (m : Memory) → Holds num_threads (words_of m) own inactive sequence
      → Safe num_threads num_words own
          (Finished num_threads own sequence)
          (perform_kcas num_threads num_words fuel (own + 1) words)
          m
  unfolding perform_kcas claim_and_transition
  perform_kcas-Safe {words} fits some_words words_fit inside call number next fuel m holds =
      let same : convert_thread_id_to_thread_index (own + 1) ≡ own =
        convert_id own (omega (arith, fits, inside)) in
      rw same (
        Safe->>= num_threads num_words own Started (Finished num_threads own sequence)
          (initialize_operation num_words own words) _ m
          (initialize_operation-Safe call inside number m holds)
          (λ r m' post.
            let (same_number, (begun, sound)) = post in
            rw same_number (
              let work : IsWork num_threads num_words own own sequence
                  (construct_thread_and_sequence num_threads (own + 1) sequence) ⊥ =
                record {
                  fits = fits;
                  some_words = some_words;
                  words_fit = words_fit;
                  inside = inside;
                  number = number;
                  role = inr refl;
                  packed = refl;
                } in
              let known : AtLeast ⊥ num_threads (words_of m') own claiming sequence = record {
                now = claiming;
                count = sequence;
                holds = begun;
                order = inl (refl, refl);
              } in
              Safe->>= num_threads num_words own
                (Kept num_threads num_words own m' (ClaimSeen num_threads num_words own sequence ⊥))
                (Finished num_threads own sequence)
                (claim num_threads num_words (help_thread num_threads num_words fuel) fuel own
                  sequence (construct_thread_and_sequence num_threads (own + 1) sequence))
                _ m'
                (claim-Safe work _ (help_thread-Safe own fits some_words words_fit fuel) m' known
                  fuel m' (Later-refl sound))
                (after_claim-Safe work next m' known _ (handle-Safe work next fuel m')))))
