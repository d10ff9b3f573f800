-- ===== src/Stage.antt =====
-- `Stage` of src/types.rs, and the fallible conversion from a number.
use kcas.Base.{ℕ, Bool, Result, ok, err, ◌==◌, if◌then◌else◌}

pub data Stage : Type 0 where
  inactive : Stage
  claiming : Stage
  setting : Stage
  reverting : Stage
  successful : Stage
  reverted : Stage

-- The cast `stage as usize`.
abbrev pub as_usize : Stage → ℕ
as_usize inactive = 0
as_usize claiming = 1
as_usize setting = 2
as_usize reverting = 3
as_usize successful = 4
as_usize reverted = 5

-- The derived `PartialEq` of an enum without fields compares the discriminants.
abbrev pub stage_eq : Stage → Stage → Bool
stage_eq s t = as_usize s == as_usize t

pub record StageOutOfBoundsError : Type 0 where
  pub value : ℕ

-- `Stage::try_from`.
unfoldable pub try_from : ℕ → Result Stage StageOutOfBoundsError
try_from stage =
    if stage == as_usize inactive
    then ok inactive
    else if stage == as_usize claiming
    then ok claiming
    else if stage == as_usize setting
    then ok setting
    else if stage == as_usize reverting
    then ok reverting
    else if stage == as_usize successful
    then ok successful
    else if stage == as_usize reverted
    then ok reverted
    else err (record { value = stage })
