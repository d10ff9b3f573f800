-- ===== src/Err.antt =====
-- src/err.rs: the errors of a k-CAS operation.
use kcas.Base.{ℕ}
use kcas.Stage.{Stage, StageOutOfBoundsError}

pub data FatalError : Type 0 where
  stage_out_of_bounds : ℕ → FatalError
  illegal_stage_change : (original_stage actual_stage : Stage) → FatalError
  illegal_helpee_stage : Stage → FatalError
  target_address_was_not_valid_pointer : (word_num target_address : ℕ) → FatalError
  sequence_num_changed_by_non_originating_thread : (originating_thread_id : ℕ) → FatalError
  tried_to_set_value_which_was_not_claim_marker :
      (word_num target_address actual_value : ℕ) → FatalError
  top_bits_of_value_were_illegal :
      (word_num target_address value num_reserved_bits : ℕ) → FatalError
  shared_state_was_not_valid_pointer : FatalError

pub data Error : Type 0 where
  fatal : FatalError → Error
  value_was_not_expected_value : Error

-- `From<StageOutOfBoundsError> for FatalError`.
abbrev pub fatal_from_stage_out_of_bounds : StageOutOfBoundsError → FatalError
fatal_from_stage_out_of_bounds e = FatalError.stage_out_of_bounds e.value
