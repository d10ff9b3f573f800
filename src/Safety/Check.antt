-- ===== src/Safety/Check.antt =====
-- The check of the stage word, and what its result says.
use kcas.Base.{
  ℕ, true, not, Result, ok, err, ◌≡◌, ◌≢◌, inl, inr, refl, sym, subst, arith, ◌==◌, ==→ne, ==→eq,
  Bool-cases, if◌then◌else◌,
}
use kcas.Stage.{Stage, stage_eq}
use kcas.Sync.{Prog, ◌>>=◌}
use kcas.Kcas.Memory.{Memory, read}
use kcas.Kcas.StageChange.{
  StageAndSequenceVerificationError, stage_changed, sequence_changed, stage_out_of_bounds,
  verification_result, verify_stage_and_sequence_have_not_changed,
}
use kcas.Solo.Row.{stage_in_bounds}
use kcas.Safety.Order.{reaches, reaches_refl}
use kcas.Safety.World.{AtLeast, Holds, words_of, Holds-stage, Holds-sequence}
use kcas.Safety.Later.{Later, Later-trans, AtLeast-Later}
use kcas.Safety.Safe.{Safe}
use kcas.Safety.Work.{IsWork}

-- The stage has gone on, or, for a helper, the thread may have gone on to another operation.
abbrev pub Seen :
    (num_threads i sequence : ℕ)
    → (Stale : Type 0) → Stage
    → Result (Unit {0}) StageAndSequenceVerificationError
    → Memory
    → Type 0
Seen num_threads i sequence Stale stage (ok u) m = Unit {0}
Seen num_threads i sequence Stale stage (err (stage_changed actual)) m =
    AtLeast Stale num_threads (words_of m) i actual sequence
    × (reaches stage actual ≡ true)
    × (actual ≢ stage)
Seen num_threads i sequence Stale stage (err (sequence_changed actual)) m = Stale
Seen num_threads i sequence Stale stage (err (stage_out_of_bounds n)) m = ⊥

stage_eq_refl : (s : Stage) → stage_eq s s ≡ true
stage_eq_refl s = ground arith

-- What is known of a stage word whose stage could be read.
pub still :
    {Stale : Type 0} {num_threads i sequence : ℕ} {words : ℕ → ℕ} {stage : Stage}
    (k : AtLeast Stale num_threads words i stage sequence)
    → k.count ≡ sequence
    → AtLeast Stale num_threads words i k.now sequence
still k same = record {
  now = k.now;
  count = k.count;
  holds = k.holds;
  order = inl (same, reaches_refl k.now);
}

pub reached :
    {Stale : Type 0} {num_threads i sequence : ℕ} {words : ℕ → ℕ} {stage : Stage}
    (k : AtLeast Stale num_threads words i stage sequence)
    → k.count ≡ sequence
    → reaches stage k.now ≡ true
reached k same = elim k.order [
  | inl (equal, further) ↦ further
  | inr (stale, over) ↦ absurd (omega arith)
]

pub gone :
    {Stale : Type 0} {num_threads i sequence : ℕ} {words : ℕ → ℕ} {stage : Stage}
    (k : AtLeast Stale num_threads words i stage sequence)
    → k.count ≢ sequence
    → Stale
gone k other = elim k.order [
  | inl (equal, further) ↦ absurd (other equal)
  | inr (stale, over) ↦ stale
]

pub verification_result-eq :
    {num_threads i : ℕ} {words : ℕ → ℕ} {now : Stage} {count : ℕ} (stage : Stage) (sequence : ℕ)
    → Holds num_threads words i now count
    → verification_result stage sequence (words i) ≡ (
        if not (count == sequence)
        then err (sequence_changed count)
        else if not (stage_eq now stage)
        then err (stage_changed now)
        else ok tt)
unfolding verification_result
verification_result-eq stage sequence h =
    rw (verification_result, Holds-stage h, Holds-sequence h) refl

judged-Seen :
    {Stale : Type 0} {num_threads i sequence : ℕ} {stage : Stage} (m : Memory)
    (k : AtLeast Stale num_threads (words_of m) i stage sequence)
    → Seen num_threads i sequence Stale stage
        (if not (k.count == sequence)
          then err (sequence_changed k.count)
          else if not (stage_eq k.now stage)
          then err (stage_changed k.now)
          else ok tt)
        m
judged-Seen {sequence} {stage} m k = elim (Bool-cases (k.count == sequence)) [
  | inl same ↦ rw same (elim (Bool-cases (stage_eq k.now stage)) [
    | inl equal ↦ rw equal tt
    | inr differs ↦ rw differs (
      still k (==→eq k.count sequence same),
      reached k (==→eq k.count sequence same),
      λ e. cc (differs, stage_eq_refl stage, e),
    )
  ])
  | inr other ↦ rw other (gone k (==→ne k.count sequence other))
]

module _ {num_threads num_words own i sequence marker : ℕ} {Stale : Type 0}
    (work : IsWork num_threads num_words own i sequence marker Stale) (m0 : Memory) {stage : Stage}
    (known : AtLeast Stale num_threads (words_of m0) i stage sequence) where
  -- What follows the check may use what was seen.
  pub verify-Safe :
      {E : Type 0} (Post : Result (Unit {0}) E → Memory → Type 0)
      (f : Result (Unit {0}) StageAndSequenceVerificationError → Prog (Result (Unit {0}) E))
      (m : Memory)
      → Later num_threads num_words own m0 m
      → ((r : Result (Unit {0}) StageAndSequenceVerificationError) (m' : Memory)
          → Later num_threads num_words own m0 m'
          → Seen num_threads i sequence Stale stage r m'
          → Safe num_threads num_words own Post (f r) m')
      → Safe num_threads num_words own Post
          (verify_stage_and_sequence_have_not_changed i stage sequence >>= f)
          m
  unfolding verify_stage_and_sequence_have_not_changed Safe ◌>>=◌ read
  verify-Safe Post f m later rest = (
    stage_in_bounds num_words work.inside,
    λ m1 l1.
        let later1 = Later-trans later l1 in
        let k = AtLeast-Later work.role later1 known in
        rest _ m1 later1 (
          subst (λ r. Seen num_threads i sequence Stale stage r m1)
            (sym (verification_result-eq stage sequence k.holds)) (judged-Seen m1 k)),
  )
