-- ===== src/Solo/Row.antt =====
-- What the shared state says about the operation of one thread, and the bounds of its accesses.
use kcas.Base.{ℕ, ◌<◌, true, ◌≡◌, ◌≢◌, refl, ok, arith, eq→==}
use kcas.Stage.{Stage, as_usize}
use kcas.Types.{construct_stage_and_sequence}
use kcas.Types.StageAndSequence.{
  stage_sequence_limit, extract_stage-construct, extract_sequence-construct,
}
use kcas.Kcas.StageChange.{verification_result}
use kcas.Base.Family.{Distinct, overlay, overlay_away}
use kcas.Sync.{target_address, expected_value, desired_value, stage_and_sequence_number}
use kcas.Kcas.{State}
use kcas.Kcas.Memory.{Memory, in_bounds}

-- The row of thread `i`: its targets are references to different words.
pub record IsRow (num_threads num_words i : ℕ) (s : State) : Type 0 where
  pub index : i < num_threads
  pub not_null : (w : ℕ) → w < num_words → s.target_addresses i w ≢ 0
  pub apart : Distinct num_words (s.target_addresses i)

-- The memory in which the first `n` targets of thread `i` have got new values.
abbrev pub overlaid : State → (i n : ℕ) → (value : ℕ → ℕ) → (ℕ → ℕ) → Memory
overlaid s i n value h = record { state = s; targets = overlay n (s.target_addresses i) value h }

module _ {num_threads i : ℕ} (num_words : ℕ) (index : i < num_threads) where
  pub stage_in_bounds : in_bounds num_threads num_words (stage_and_sequence_number i) ≡ true
  unfolding in_bounds
  stage_in_bounds = ground arith

  module _ {w : ℕ} (below : w < num_words) where
    pub target_in_bounds : in_bounds num_threads num_words (target_address i w) ≡ true
    unfolding in_bounds
    target_in_bounds = ground arith

    pub expected_in_bounds : in_bounds num_threads num_words (expected_value i w) ≡ true
    unfolding in_bounds
    expected_in_bounds = ground arith

    pub desired_in_bounds : in_bounds num_threads num_words (desired_value i w) ≡ true
    unfolding in_bounds
    desired_in_bounds = ground arith

-- Writing the earlier targets leaves a later one as it is.
pub overlay-fresh :
    {num_threads num_words i : ℕ} {s : State} (row : IsRow num_threads num_words i s) (w : ℕ)
    → w < num_words
    → (value h : ℕ → ℕ)
    → overlay w (s.target_addresses i) value h (s.target_addresses i w) ≡ h (s.target_addresses i w)
overlay-fresh {i} {s} row w below value h =
    overlay_away w (s.target_addresses i) value h (s.target_addresses i w)
      λ j earlier same. absurd (omega (arith, row.apart j w (omega arith) below same))

-- A stage word that has not changed passes the check.
pub verification_result-ok :
    (stage : Stage) (sequence : ℕ)
    → sequence < stage_sequence_limit
    → verification_result stage sequence (construct_stage_and_sequence stage sequence) ≡ ok tt
unfolding verification_result
verification_result-ok stage sequence small = rw (
  verification_result,
  extract_stage-construct stage sequence small,
  extract_sequence-construct stage sequence small,
  eq→== sequence sequence refl,
  eq→== (as_usize stage) (as_usize stage) refl,
)
