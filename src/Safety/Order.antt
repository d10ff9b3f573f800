-- ===== src/Safety/Order.antt =====
-- The order of the stages of one operation.
use kcas.Base.{Bool, true, false, ◌≡◌, ◌≢◌, refl, arith}
use kcas.Stage.{Stage, inactive, claiming, setting, reverting, successful, reverted}

-- Can an operation in the first stage come to the second?
abbrev pub reaches : Stage → Stage → Bool
reaches inactive _ = true
reaches claiming inactive = false
reaches claiming _ = true
reaches setting setting = true
reaches setting successful = true
reaches setting _ = false
reaches reverting reverting = true
reaches reverting reverted = true
reaches reverting _ = false
reaches successful successful = true
reaches successful _ = false
reaches reverted reverted = true
reaches reverted _ = false

-- The same while its own thread takes no step, which alone starts an operation.
abbrev pub stays_on : Stage → Stage → Bool
stays_on inactive inactive = true
stays_on inactive _ = false
stays_on s t = reaches s t

pub reaches_refl : (s : Stage) → reaches s s ≡ true
reaches_refl inactive = refl
reaches_refl _ = refl

pub stays_on_refl : (s : Stage) → stays_on s s ≡ true
stays_on_refl inactive = refl
stays_on_refl _ = refl

pub reaches_trans : (s t u : Stage) → reaches s t ≡ true → reaches t u ≡ true → reaches s u ≡ true
reaches_trans s t u h k = ground arith

pub stays_on_trans :
    (s t u : Stage) → stays_on s t ≡ true → stays_on t u ≡ true → stays_on s u ≡ true
stays_on_trans s t u h k = ground arith

pub stays_on-reaches : (s t : Stage) → stays_on s t ≡ true → reaches s t ≡ true
stays_on-reaches s t h = ground arith

-- A later stage than one that has begun is not `Claiming`.
pub onward-ne-claiming :
    (current now : Stage)
    → reaches claiming current ≡ true
    → reaches current now ≡ true
    → now ≢ current
    → now ≢ claiming
onward-ne-claiming current now going further other e = ground arith
