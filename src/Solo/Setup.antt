-- ===== src/Solo/Setup.antt =====
-- The course of a call of `kcas` by one thread by itself, from its start to each of its ends.
use kcas.Base.{ℕ, ◌<◌, Result, ok, err, ◌≡◌, ◌≢◌, sym, ◌∙◌, ap, subst, arith}
use kcas.Base.Family.{update_self, overlay, overlay_at, overlay_away}
use kcas.Word.{usize_max, ◌>>>◌}
use kcas.Stage.{Stage}
use kcas.Err.{FatalError, Error}
use kcas.Types.{
  convert_thread_id_to_thread_index, construct_stage_and_sequence, construct_thread_and_sequence,
  get_bit_length_of_num_threads, extract_thread_from_thread_and_sequence,
}
use kcas.Types.StageAndSequence.{extract_sequence-lt}
use kcas.Types.Marker.{
  IsApplicationValue, sequence_limit, num_sequence_bits, extract_thread-construct,
}
use kcas.Kcas.{State, KCasWord, next_sequence}
use kcas.Kcas.Operation.{perform_kcas, help_thread}
use kcas.Kcas.Concurrent.{handle_concurrent_stage_change_and_transition}
use kcas.Kcas.Claim.{claim_and_transition}
use kcas.Kcas.Memory.{Memory}
use kcas.Kcas.Memory.Returns.{Returns, Returns-bind}
use kcas.Solo.Row.{IsRow, overlaid}
use kcas.Solo.Initialize.{
  saved, IsSaved, saved-IsSaved, with_stage, started, initialize_operation-starts,
}
use kcas.Solo.Kcas.{
  claim_and_transition-succeeds, claim_and_transition-fails, claim_and_transition-illegal,
}
use kcas.Solo.Verdict.{examine-application, examine-illegal, application-ne-marker}
use kcas.Solo.Contract.{IsCall, own_sequence, Matches, IsReady, IsSwapped}

module _ (num_threads num_words fuel thread_id : ℕ) (words : ℕ → KCasWord) (m : Memory)
    (call : IsCall num_threads num_words thread_id words) where
  abbrev pub index : ℕ
  index = convert_thread_id_to_thread_index thread_id

  abbrev pub start : State
  start = started num_words index words m.state

  abbrev pub marker : ℕ
  marker = construct_thread_and_sequence num_threads thread_id (own_sequence m thread_id)

  pub row : IsSaved num_words index words m.state (saved num_words index words m.state)
  row = saved-IsSaved num_words index words m.state

  pub index-lt : index < num_threads
  unfolding convert_thread_id_to_thread_index
  index-lt = omega (arith, call.fits, call.positive, call.in_use)

  pub start-IsRow : IsRow num_threads num_words index start
  start-IsRow = record {
    index = index-lt;
    not_null = λ w below e. call.references w below (sym (row.targets w below) ∙ e);
    apart = λ j k p q e. call.apart j k p q (sym (row.targets j p) ∙ e ∙ row.targets k q);
  }

  -- After the start the stage is `Claiming`, and the claim begins.
  pub perform_kcas-claims :
      {a : Result (Unit {0}) Error} {m' : Memory}
      → Returns num_threads num_words fuel
          (claim_and_transition num_threads num_words
            (help_thread num_threads num_words fuel)
            (handle_concurrent_stage_change_and_transition num_threads num_words fuel)
            fuel
            index
            (own_sequence m thread_id)
            marker)
          (record { state = start; targets = m.targets })
          a
          m'
      → Returns num_threads num_words fuel
          (perform_kcas num_threads num_words fuel thread_id words)
          m
          a
          m'
  unfolding perform_kcas
  perform_kcas-claims rest =
      Returns-bind _ _
        (initialize_operation-starts num_threads num_words fuel index index-lt words m.state
          m.targets)
        rest

  -- The stage words of the others are as before.
  pub start_stages :
      (j : ℕ)
      → j ≢ index
      → start.stage_and_sequence_numbers j ≡ m.state.stage_and_sequence_numbers j
  start_stages j other = ground (arith, other, ap (λ f. f j) row.stages)

  pub start-stage :
      start.stage_and_sequence_numbers index
      ≡ construct_stage_and_sequence Stage.claiming (own_sequence m thread_id)
  start-stage = update_self (saved num_words index words m.state).stage_and_sequence_numbers index _

  abbrev pub end : Stage → State
  end last =
      with_stage
        (with_stage start index (construct_stage_and_sequence last (own_sequence m thread_id)))
        index
        (construct_stage_and_sequence Stage.inactive
          (next_sequence num_threads (own_sequence m thread_id)))

  pub end-IsReady :
      (last : Stage) (g : ℕ → ℕ)
      → IsReady num_threads thread_id m (record { state = end last; targets = g })
  end-IsReady last g = record {
    own =
        update_self
          (with_stage start index (
            construct_stage_and_sequence last
              (own_sequence m thread_id))).stage_and_sequence_numbers
          index _;
    other_stages = λ j other. ground (arith, ap (λ f. f j) row.stages);
    slots = row.slots;
    in_use = row.in_use;
  }

  pub start-matches :
      (w : ℕ)
      → w < num_words
      → m.targets (words w).target_address ≡ (words w).expected_value
      → m.targets (start.target_addresses index w) ≡ start.expected_values index w
  start-matches w below e = ap m.targets (row.targets w below) ∙ e ∙ sym (row.expected w below)

  pub start-differs :
      (w : ℕ)
      → w < num_words
      → m.targets (words w).target_address ≢ (words w).expected_value
      → m.targets (start.target_addresses index w) ≢ start.expected_values index w
  start-differs w below ne e =
      ne (sym (ap m.targets (row.targets w below)) ∙ e ∙ row.expected w below)

  abbrev pub swapped : ℕ → ℕ
  swapped =
      overlay num_words (start.target_addresses index) (start.desired_values index)
        (overlay num_words (start.target_addresses index) (λ w. marker) m.targets)

  pub swapped-IsSwapped :
      IsSwapped num_words words m (record { state = end Stage.setting; targets = swapped })
  swapped-IsSwapped = record {
    desired = λ w below.
        ap swapped (sym (row.targets w below))
        ∙ overlay_at num_words (start.target_addresses index) (start.desired_values index) _ w
            start-IsRow.apart below
        ∙ row.desired w below;
    others = λ a away.
        let elsewhere = λ (w : ℕ) (below : w < num_words) (e : start.target_addresses index w ≡ a).
          away w below (sym (row.targets w below) ∙ e) in
        overlay_away num_words (start.target_addresses index) (start.desired_values index) _ a
          elsewhere
        ∙ overlay_away num_words (start.target_addresses index) (λ w. marker) m.targets a elsewhere;
  }

  -- The course of an operation whose targets all hold their expected values.
  pub perform_kcas-swaps :
      Matches num_words words m
      → Returns num_threads num_words fuel
          (perform_kcas num_threads num_words fuel thread_id words)
          m
          (ok tt)
          (record { state = end Stage.setting; targets = swapped })
  perform_kcas-swaps matches = perform_kcas-claims (
      claim_and_transition-succeeds num_threads num_words fuel
        (help_thread num_threads num_words fuel)
        (handle_concurrent_stage_change_and_transition num_threads num_words fuel) index
        (own_sequence m thread_id) marker start-IsRow m.targets start-stage
        (λ w below. start-matches w below (matches w below)))

  module _ (stop : ℕ) (below : stop < num_words)
      (room : own_sequence m thread_id < sequence_limit num_threads)
      (matches : (w : ℕ) → w < stop → m.targets (words w).target_address ≡ (words w).expected_value)
      (differs : m.targets (words stop).target_address ≢ (words stop).expected_value) where
    abbrev found : ℕ
    found = m.targets (words stop).target_address

    matches' :
        (w : ℕ)
        → w < stop
        → m.targets (start.target_addresses index w) ≡ start.expected_values index w
    matches' w before = start-matches w (omega arith) (matches w before)

    unmarked : found ≢ marker → m.targets (start.target_addresses index stop) ≢ marker
    unmarked other e = other (sym (ap m.targets (row.targets stop below)) ∙ e)

    same_value : found ≡ m.targets (start.target_addresses index stop)
    same_value = sym (ap m.targets (row.targets stop below))

    -- The course of an operation that meets another value of the application.
    pub perform_kcas-reverts :
        IsApplicationValue num_threads found
        → Returns num_threads num_words fuel
            (perform_kcas num_threads num_words fuel thread_id words)
            m
            (err Error.value_was_not_expected_value)
            (record { state = end Stage.reverting; targets = m.targets })
    perform_kcas-reverts value = perform_kcas-claims (
        claim_and_transition-fails num_threads num_words fuel
          (help_thread num_threads num_words fuel)
          (handle_concurrent_stage_change_and_transition num_threads num_words fuel) index
          (own_sequence m thread_id) marker start-IsRow m.targets start-stage stop below
          (extract_sequence-lt _) matches' (start-differs stop below differs)
          (unmarked (
            application-ne-marker num_threads thread_id (own_sequence m thread_id) found call.fits
              call.positive call.in_use room value))
          (λ retry.
            examine-application num_threads (help_thread num_threads num_words fuel) index
              (own_sequence m thread_id) marker retry stop _ _ call.fits
              (subst (IsApplicationValue num_threads) same_value value)))

    abbrev top_bits : ℕ
    top_bits = extract_thread_from_thread_and_sequence num_threads found

    -- The course of an operation that meets a value whose reserved bits belong to no thread.
    pub perform_kcas-refuses :
        num_threads < top_bits
        → top_bits < usize_max >>> num_sequence_bits num_threads
        → Returns num_threads num_words fuel
            (perform_kcas num_threads num_words fuel thread_id words)
            m
            (err (
              Error.fatal (
                FatalError.top_bits_of_value_were_illegal stop
                  (words stop).target_address
                  found
                  (get_bit_length_of_num_threads num_threads))))
            (overlaid start index stop (λ w. marker) m.targets)
    perform_kcas-refuses above inside = perform_kcas-claims (
        subst
          (λ a.
            Returns num_threads num_words fuel
              (claim_and_transition num_threads num_words (help_thread num_threads num_words fuel)
                (handle_concurrent_stage_change_and_transition num_threads num_words fuel) fuel
                index (own_sequence m thread_id) marker)
              (record { state = start; targets = m.targets })
              (err (
                Error.fatal (
                  FatalError.top_bits_of_value_were_illegal stop a (m.targets a)
                    (get_bit_length_of_num_threads num_threads))))
              (overlaid start index stop (λ w. marker) m.targets))
          (row.targets stop below)
          (claim_and_transition-illegal num_threads num_words fuel
            (help_thread num_threads num_words fuel)
            (handle_concurrent_stage_change_and_transition num_threads num_words fuel) index
            (own_sequence m thread_id) marker start-IsRow m.targets start-stage stop below
            (extract_sequence-lt _) matches' (start-differs stop below differs)
            (unmarked found-ne-marker) (get_bit_length_of_num_threads num_threads)
            (λ retry.
              examine-illegal num_threads (help_thread num_threads num_words fuel) index
                (own_sequence m thread_id) marker retry stop _ _
                (subst (λ v. num_threads < extract_thread_from_thread_and_sequence num_threads v)
                  same_value above)
                (subst
                  (λ v.
                    extract_thread_from_thread_and_sequence num_threads v
                    < usize_max >>> num_sequence_bits num_threads)
                  same_value inside))))
      where
        found-ne-marker : found ≢ marker
        found-ne-marker e =
            let top =
              ap (extract_thread_from_thread_and_sequence num_threads) e
              ∙ extract_thread-construct num_threads call.fits thread_id (own_sequence m thread_id)
                  call.in_use room in
            omega (arith, call.in_use)

    -- Where it leaves the markers.
    pub refused-marked :
        (w : ℕ)
        → w < stop
        → overlay stop
            (start.target_addresses index)
            (λ w. marker)
            m.targets
            (words w).target_address
          ≡ marker
    refused-marked w before =
        ap (overlay stop (start.target_addresses index) (λ w. marker) m.targets)
          (sym (row.targets w (omega arith)))
        ∙ overlay_at stop (start.target_addresses index) (λ w. marker) m.targets w
            (λ j k p q. start-IsRow.apart j k (omega arith) (omega arith)) before
